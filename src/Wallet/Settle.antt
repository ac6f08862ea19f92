-- ===== src/Wallet/Settle.antt =====
-- `settleInstallmentLoan`: an instalment of a loan is paid from several sources.
pub mod Payments
pub mod Laws
use my_ng_platform.Prelude.{
  ℕ, ℤ, pos, ltb_ℤ, Bool, true, ◌&&◌, List, [], ◌∷◌, ◌++◌, ltb, or_else, if◌then◌else◌,
}
use my_ng_platform.Clock.{get_date}
use my_ng_platform.Entities.{Transaction, TransactionType, TransactionSourceType, UserLoan}
use my_ng_platform.Store.{Error, Action, ◌>>=◌, ◌>>◌, pure, throw, save_all}
use my_ng_platform.Wallet.Credit.{do_transaction}
use my_ng_platform.Wallet.Normalize.{
  is_user_credit, normalize_after_date, normalize_charges_after_date,
}
use my_ng_platform.Wallet.Deposit.{is_charging}
use my_ng_platform.Wallet.Providers.{
  TransactionItem, new_transaction, charge_service_transaction, bank_transaction, cash_transaction,
  cheque_transaction,
}
use my_ng_platform.Wallet.Requests.{Env}

-- The instalment that is paid, with its sale unit and date.
pub record Installment : Type 0 where
  pub id : ℕ
  pub sale_unit : ℕ
  pub submit_at : ℕ

unfoldable pub new_settlement : Env → Installment → UserLoan → TransactionItem → Transaction
new_settlement env inst loan dto =
    record (new_transaction env.clock.now TransactionType.settle dto.type
      (or_else dto.user loan.user)) {
        shift_work = loan.shift_work;
        organization_unit = loan.organization_unit;
        fiscal_year = loan.fiscal_year;
        submit_at = inst.submit_at;
        sale_unit = inst.sale_unit;
        installment_loan = inst.id;
      }

-- The source of one payment. `discountTransaction` reads the date of the transaction's order, and
-- a settlement of a loan has none.
unfoldable pub settle_item :
    TransactionSourceType → Env → TransactionItem → Transaction → Action Transaction
settle_item TransactionSourceType.user_credit env dto t = do_transaction t true dto.amount true
settle_item TransactionSourceType.charging_service env dto t =
    charge_service_transaction env.clock dto t []
settle_item TransactionSourceType.offered_discount env dto t = throw Error.type_error
settle_item TransactionSourceType.cheque env dto t = cheque_transaction dto t
settle_item TransactionSourceType.bank env dto t = bank_transaction dto t
settle_item TransactionSourceType.cash_desk env dto t = cash_transaction dto t
settle_item _ env dto t = pure t

-- The balance of the row is that of the user object, which only `doTransaction` reads.
abbrev pub settled : TransactionItem → Transaction → Transaction
settled dto t = record t { amount = dto.amount; credit = t.user_credit }

unfoldable pub settle_items :
    Env
    → Installment
    → UserLoan
    → List TransactionItem
    → List Transaction
    → Action (List Transaction)
settle_items env inst loan [] rows = pure rows
settle_items env inst loan (dto ∷ dtos) rows =
    (if ltb_ℤ (pos 0) dto.amount
      then (settle_item dto.type env dto (new_settlement env inst loan dto) >>= λ t.
          pure (rows ++ (settled dto t ∷ [])))
      else pure rows)
    >>= λ rows'. settle_items env inst loan dtos rows'

-- What follows the save, row by row; the days of the month are compared.
unfoldable pub after_settlement : Env → Transaction → Action (Unit {0})
after_settlement env t =
    if is_user_credit t.source_type && ltb t.submit_at env.clock.now
    then normalize_after_date t.user t.submit_at >> pure tt
    else (if ltb (get_date env.clock env.clock.now) (get_date env.clock t.submit_at)
        then throw Error.invalid_submit_date
        else (if is_charging t.source_type && ltb t.submit_at env.clock.now
            then normalize_charges_after_date t.user t.submit_at t.source >> pure tt
            else pure tt))

unfoldable pub after_settlements : Env → List Transaction → Action (Unit {0})
after_settlements env [] = pure tt
after_settlements env (t ∷ ts) = after_settlement env t >> after_settlements env ts

unfoldable pub settle_installment_loan :
    Env → Installment → UserLoan → List TransactionItem → Action (List Transaction)
settle_installment_loan env inst loan items = settle_items env inst loan items [] >>= λ rows.
    save_all rows >>= λ saved. after_settlements env saved >> pure saved
