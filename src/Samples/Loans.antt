-- ===== src/Samples/Loans.antt =====
-- A loan of the shop.
use my_ng_platform.Prelude.{
  ◌≡◌, refl, pos, true, false, none, some, [], ◌∷◌, arith, ◌==◌, if◌then◌else◌, ◌+ℤ◌, neg,
}
use my_ng_platform.Charging.{contains}
use my_ng_platform.Entities.{BailType, Loan, InstallmentLoan}
use my_ng_platform.Store.{Db, continue_with, roll_back, save}
use my_ng_platform.Shifts.{find_by}
use my_ng_platform.Wallet.Contract.{Ensures, Keeps, Outcome}
use my_ng_platform.Wallet.Credit.{do_transaction, allows, value_of, add_credit}
use my_ng_platform.Wallet.Requests.{
  SubmitAt, process_operation, read_submit_at, find_user, find_shift_work,
}
use my_ng_platform.Loans.{
  UserLoanDto, add, remove, settle_installment, read_loan, check_bail, new_installments,
  insert_loan, insert_installments, grant_loan, loan_deposit, give_bail, validate_user_bail,
}
use my_ng_platform.Loans.Laws.{IsGranted, add-IsGranted}
use my_ng_platform.Loans.Settled.{Leaves, remove-Leaves, settle_installment-Keeps}
use my_ng_platform.Samples.{env, shop, loan, cash, out_of_wallet, outcome}

abbrev kind : Loan
kind = record {
  amount = pos 500;
  free_amount = true;
  installments = 1;
  free_installments = false;
  bail_types = BailType.user ∷ [];
}

abbrev instalment : InstallmentLoan
instalment = record {
  id = 4;
  loan = 6;
  amount = pos 500;
  cheque = 0;
  pay_time = 800;
  is_payed = false;
  deleted = false;
}

-- The shop with one kind of loan, and a loan of it.
abbrev lending : Db
lending = record shop {
  loans = λ i. if i == 2 then some kind else none;
  user_loans = λ i. if i == 6 then some loan else none;
  installments = instalment ∷ [];
  next_loan = 7;
  next_installment = 5;
}

abbrev request : UserLoanDto
request = record {
  user = 1;
  loan = 2;
  amount = pos 500;
  installments = 1;
  submit_at = SubmitAt.absent;
  bail_type = BailType.user;
  cheque = 0;
  user_bail = 1;
  doc = 0;
  items = record { id = 0; amount = pos 500; cheque = 0; pay_time = 900 } ∷ [];
  sale_unit = 1;
  organization_unit = 1;
  fiscal_year = 1;
}

add-IsGranted_example : Outcome (IsGranted request lending) lending (add env request lending)
add-IsGranted_example = add-IsGranted env request lending (omega arith, (omega arith, omega arith))

remove-Leaves_example : Outcome (Leaves 6 lending) lending (remove 6 lending)
remove-Leaves_example = remove-Leaves 6 lending

settle_installment-Keeps_example :
    Ensures (Keeps lending) (settle_installment env 4 1500 (cash ∷ out_of_wallet ∷ []) lending)
settle_installment-Keeps_example =
    settle_installment-Keeps env 4 1500 (cash ∷ out_of_wallet ∷ []) lending
      (omega arith, (omega arith, omega arith))

granted_run : outcome (add env request lending) ≡ some (pos 570)
unfolding add read_loan check_bail new_installments contains continue_with roll_back
    process_operation find_user read_submit_at find_shift_work find_by grant_loan insert_loan
    insert_installments loan_deposit do_transaction allows value_of add_credit save neg ◌+ℤ◌
    give_bail validate_user_bail
granted_run = refl
