-- ===== src/Wallet/Withdraw/Debts.antt =====
-- A transfer that is in order is granted, into the debt of an authorized debtor if need be.
use my_ng_platform.Prelude.{
  ℕ, ◌≡◌, refl, ℤ, pos, ◌+ℤ◌, neg, ltb_ℤ, arith, Bool, true, false, not, ◌&&◌, some, ◌==◌,
}
use my_ng_platform.Entities.{Transaction, TransactionType, TransactionSourceType, User}
use my_ng_platform.Shifts.{find_by}
use my_ng_platform.Store.{Db, continue_with, save}
use my_ng_platform.Wallet.Table.{IsTable}
use my_ng_platform.Wallet.Credit.{value_of, allows}
use my_ng_platform.Wallet.Credit.Laws.{IsCovered, allowed, do_transaction-accepted}
use my_ng_platform.Wallet.Posting.{moved}
use my_ng_platform.Wallet.Requests.{
  Env, WithdrawDto, Place, process_operation, find_user, find_sale_unit, find_shift_work,
}
use my_ng_platform.Wallet.Withdraw.{placed, do_transfer, transfer}
use my_ng_platform.Wallet.Withdraw.Grants.{
  IsDated, Takes, dated, roll_back-Takes, credit_of-taken, normalize_if-Takes,
}

-- A request that is in order: its amount is positive and covered, and what it names exists.
pub record IsTransferable (env : Env) (dto : WithdrawDto) (at : ℕ) (row : User) (b : Db)
    : Type 0 where
  pub positive : ltb_ℤ (pos 0) dto.amount ≡ true
  pub covered : IsCovered true row (row.credit +ℤ neg dto.amount)
  pub user : b.users dto.user ≡ some row
  pub organization_unit : (dto.organization_unit == 0) ≡ false
  pub fiscal_year : (dto.fiscal_year == 0) ≡ false
  pub sale_unit : b.sale_units dto.sale_unit ≡ true
  pub date : IsDated env dto.submit_at at
  pub shift_work : (find_by env.clock at dto.organization_unit b.shift_works == 0) ≡ false

not_refused :
    (t : Transaction) (amount : ℤ) (row : User)
    → value_of t (pos 0) ≡ neg amount
    → IsCovered true row (row.credit +ℤ neg amount)
    → (ltb_ℤ (value_of t (pos 0)) (pos 0) && not (allows true (neg (value_of t (pos 0))) row))
      ≡ false
not_refused t amount row v h = rw (v, allowed true (neg amount) row h) (and_false _)
  where
    and_false : (x : Bool) → (x && false) ≡ false
    and_false true = refl
    and_false false = refl

do_transfer-Takes :
    (env : Env) (at : Place) (user : ℕ) (credit amount : ℤ) (normalize : Bool) (b : Db) {row : User}
    → b.users user ≡ some row
    → ltb_ℤ (pos 0) amount ≡ true
    → IsCovered true row (row.credit +ℤ neg amount)
    → IsTable b
    → Takes (moved user amount) b (do_transfer env at user credit amount normalize b)
unfolding do_transfer continue_with save value_of
do_transfer-Takes env at user credit amount normalize b {row} e p h d =
    let t =
      placed env at TransactionType.withdraw TransactionSourceType.transfer user amount credit in
    rw (p, do_transaction-accepted t true (pos 0) true b e (not_refused t amount row refl h))
      (normalize_if-Takes normalize _ (moved user amount) b _ (omega arith, d)
        (λ u. credit_of-taken u user amount b e))

-- A request to transfer a positive amount out of the wallet that leaves a covered balance, whose
-- user, sale unit, organization unit, fiscal year and shift work are there and whose date is now or
-- past, is granted: it returns, the credit of the user falls by the amount, and no other changes.
pub transfer-Takes :
    (env : Env) (dto : WithdrawDto) (at : ℕ) (row : User) (b : Db)
    → IsTransferable env dto at row b
    → IsTable b
    → Takes (moved dto.user dto.amount) b (transfer env dto b)
unfolding transfer process_operation find_user find_sale_unit find_shift_work continue_with
transfer-Takes env dto at row b g d =
    rw
      (
        g.sale_unit,
        g.organization_unit,
        g.fiscal_year,
        g.user,
        dated env env.clock.now at dto.submit_at b refl g.date,
        g.shift_work,
      )
      (roll_back-Takes _ b _
        (do_transfer-Takes env _ dto.user row.credit dto.amount _ b g.user g.positive g.covered d))
