-- ===== src/Samples/Requests.antt =====
-- Requests to the shop, with the theorems on them.
use my_ng_platform.Prelude.{
  some, neg, inr, suc, ◌+◌, negsuc, ◌-ℤ◌, ◌≡◌, refl, pos, true, [], ◌∷◌, arith, ◌↔◌, ◌⊎◌, ◌+ℤ◌,
  ◌≤ℤ◌,
}
use my_ng_platform.Store.{is_ok, continue_with, roll_back, save, save_all, find_row, replace_row}
use my_ng_platform.Wallet.Providers.{
  charge_service_transaction, found_charging, cash_transaction, looks_up, gift_transaction,
}
use my_ng_platform.Wallet.Contract.{Conserves, Ensures}
use my_ng_platform.Wallet.Credit.{value_of, do_transaction, allows, add_credit}
use my_ng_platform.Wallet.Credit.Laws.{IsCovered, do_transaction-iff-IsCovered}
use my_ng_platform.Wallet.Deposit.{
  deposit, do_deposit, collect, collect_item, deposit_item, add_gift, put_gift, record_deposit,
  stamp_rows,
}
use my_ng_platform.Wallet.Deposit.Laws.{IsWhole, deposit-Conserves}
use my_ng_platform.Wallet.Withdraw.{do_transfer, withdraw, transfer}
use my_ng_platform.Wallet.Withdraw.Laws.{withdraw-Conserves}
use my_ng_platform.Wallet.Withdraw.Grants.{Takes, withdraw-Takes}
use my_ng_platform.Wallet.Withdraw.Negative.{Drifts, do_transfer-Drifts}
use my_ng_platform.Wallet.Posting.{moved}
use my_ng_platform.Wallet.Providers.Charge.{IsCharged, charge_service_transaction-IsCharged}
use my_ng_platform.Charging.{get_charging, can_charge, is_settled, find_order, is_credit, amount_of}
use my_ng_platform.Shifts.{find_by}
use my_ng_platform.Clock.{day_of, minute_of, get_date}
use my_ng_platform.Wallet.Withdraw.Debts.{transfer-Takes}
use my_ng_platform.Wallet.Settle.{
  settle_installment_loan, settle_items, settle_item, new_settlement, after_settlements,
  after_settlement,
}
use my_ng_platform.Wallet.Ledger.{drift}
use my_ng_platform.Wallet.Reachable.{⟶*-drift, depositing, removing, here, then}
use my_ng_platform.Wallet.Remove.{remove_transaction, do_remove_transaction, undo}
use my_ng_platform.Wallet.Remove.Laws.{remove_transaction-Conserves}
use my_ng_platform.Gift.{get_gift, first_gift}
use my_ng_platform.Wallet.Requests.{
  process_operation, read_submit_at, find_sale_unit, find_user, find_shift_work,
}
use my_ng_platform.Wallet.Normalize.{
  normalize_after_date, normalized, last_before, is_wallet, precedes, rows_after, select, sort_rows,
  insert_row, run_credits, step_credit,
}
use my_ng_platform.Samples.{
  outcome, env, client, first_row, shop, order_of, cash, deposit_dto, place, serving, charge,
  charging, loan, installment, out_of_wallet,
}

deposit-IsWhole : IsWhole (deposit env deposit_dto true shop)
unfolding deposit do_deposit collect collect_item deposit_item add_gift put_gift record_deposit
    stamp_rows cash_transaction looks_up gift_transaction get_gift first_gift process_operation
    read_submit_at find_sale_unit find_user find_shift_work continue_with roll_back save save_all
    find_row replace_row do_transaction allows add_credit value_of normalize_after_date normalized
    last_before is_wallet precedes rows_after select sort_rows insert_row run_credits step_credit
    find_by minute_of neg ◌+ℤ◌ ◌-ℤ◌
deposit-IsWhole = tt

deposit-Conserves_example : Conserves shop (deposit env deposit_dto true shop)
deposit-Conserves_example =
    deposit-Conserves env deposit_dto true shop (omega arith, (omega arith, omega arith))
      deposit-IsWhole

remove_transaction-Conserves_example : Conserves shop (remove_transaction 1 shop)
remove_transaction-Conserves_example =
    remove_transaction-Conserves 1 shop (omega arith, (omega arith, omega arith))

withdraw-Conserves_example : Conserves shop (withdraw env (order_of (pos 30)) shop)
withdraw-Conserves_example =
    withdraw-Conserves env (order_of (pos 30)) shop (omega arith, (omega arith, omega arith))

do_transaction-iff-IsCovered_example :
    (is_ok (do_transaction first_row true (pos 0) true shop) ≡ true) ↔ (
      (pos 0 ≤ℤ value_of first_row (pos 0))
      ⊎ IsCovered true client (client.credit +ℤ value_of first_row (pos 0)))
do_transaction-iff-IsCovered_example =
    do_transaction-iff-IsCovered first_row true (pos 0) true shop refl

withdraw-Takes_example : Takes (moved 1 (pos 30)) shop (withdraw env (order_of (pos 30)) shop)
unfolding find_by
withdraw-Takes_example =
    withdraw-Takes env (order_of (pos 30)) 1500 client shop
      (record {
        positive = refl;
        enough = refl;
        user = refl;
        organization_unit = refl;
        fiscal_year = refl;
        sale_unit = refl;
        date = (refl, refl);
        shift_work = refl;
      })
      (omega arith, (omega arith, omega arith))

do_transfer-Drifts_example :
    Drifts
      (moved 1 (pos (suc 9 + suc 9)))
      shop
      (do_transfer env place 1 (pos 70) (negsuc 9) true shop)
do_transfer-Drifts_example =
    do_transfer-Drifts env place 1 (pos 70) 9 true shop refl
      (omega arith, (omega arith, omega arith))

charge_service_transaction-IsCharged_example :
    Ensures
      (IsCharged 5 (pos 20) serving)
      (charge_service_transaction env.clock charge charging [] serving)
charge_service_transaction-IsCharged_example =
    charge_service_transaction-IsCharged env.clock charge charging [] serving refl refl

-- The service is found and pays.
charged_run : is_ok (charge_service_transaction env.clock charge charging [] serving) ≡ true
unfolding charge_service_transaction found_charging get_charging can_charge is_settled find_order
    is_credit amount_of day_of ◌-ℤ◌ ◌+ℤ◌
charged_run = refl

-- The client owes 20 after it, within the limit of 50.
transfer-Takes_example : Takes (moved 1 (pos 90)) shop (transfer env (order_of (pos 90)) shop)
unfolding ◌+ℤ◌ neg find_by
transfer-Takes_example =
    transfer-Takes env (order_of (pos 90)) 1500 client shop
      (record {
        positive = refl;
        covered = inr (refl, refl, omega arith);
        user = refl;
        organization_unit = refl;
        fiscal_year = refl;
        sale_unit = refl;
        date = (refl, refl);
        shift_work = refl;
      })
      (omega arith, (omega arith, omega arith))

-- The deposit of twice 20 is granted, and raises the credit from 70 to 110.
deposit_run : outcome (deposit env deposit_dto true shop) ≡ some (pos 110)
unfolding deposit do_deposit collect collect_item deposit_item add_gift put_gift record_deposit
    stamp_rows cash_transaction looks_up gift_transaction get_gift first_gift process_operation
    read_submit_at find_sale_unit find_user find_shift_work continue_with roll_back save save_all
    find_row replace_row do_transaction allows add_credit value_of normalize_after_date normalized
    last_before is_wallet precedes rows_after select sort_rows insert_row run_credits step_credit
    find_by minute_of neg ◌+ℤ◌ ◌-ℤ◌
deposit_run = refl

-- The removal of the withdrawal gives the 30 back.
remove_transaction_run : outcome (remove_transaction 2 shop) ≡ some (pos 100)
unfolding remove_transaction do_remove_transaction undo do_transaction allows add_credit value_of
    continue_with roll_back save save_all find_row replace_row normalize_after_date normalized
    last_before is_wallet precedes rows_after select sort_rows insert_row run_credits step_credit
    neg ◌+ℤ◌ ◌-ℤ◌
remove_transaction_run = refl

-- An instalment of 40, of which 20 out of the wallet.
settle_installment_loan_run :
    outcome (settle_installment_loan env installment loan (cash ∷ out_of_wallet ∷ []) shop)
    ≡ some (pos 50)
unfolding settle_installment_loan settle_items settle_item new_settlement after_settlements
    after_settlement cash_transaction looks_up get_date day_of do_transaction allows add_credit
    value_of continue_with save save_all replace_row normalize_after_date normalized last_before
    is_wallet precedes rows_after select sort_rows insert_row run_credits step_credit neg ◌+ℤ◌ ◌-ℤ◌
settle_installment_loan_run = refl

-- A deposit, and the removal of a transaction after it.
⟶*-drift_example :
    drift 1 (remove_transaction 1 (deposit env deposit_dto true shop).1).1 ≡ drift 1 shop
⟶*-drift_example =
    ⟶*-drift
      (then (depositing env deposit_dto true shop deposit-IsWhole)
        (then (removing 1 (deposit env deposit_dto true shop).1) here))
      (omega arith, (omega arith, omega arith)) 1
