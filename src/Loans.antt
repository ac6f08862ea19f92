-- ===== src/Loans.antt =====
-- Loans: automation/operational/service/loan.service.ts. A loan is a deposit into the wallet of its
-- user, and its instalments are settled.
pub mod Update
pub mod Laws
pub mod Settled
use my_ng_platform.Prelude.{
  ℕ, suc, ℤ, pos, neg, ◌+ℤ◌, eqb_ℤ, ltb_ℤ, Bool, true, false, not, ◌&&◌, ◌||◌, Option, none, some,
  List, [], ◌∷◌, ◌++◌, map, length, ◌==◌, if◌then◌else◌,
}
use my_ng_platform.Charging.{contains}
use my_ng_platform.Entities.{
  Transaction, TransactionType, TransactionSourceType, Loan, UserLoan, InstallmentLoan, BailType,
  Cheque, User,
}
use my_ng_platform.Store.{
  Db, Error, Action, ok, err, ◌>>=◌, ◌>>◌, pure, gets, throw, throw_if, or_throw, modify,
  atomically, save,
}
use my_ng_platform.Wallet.Credit.{do_transaction}
use my_ng_platform.Wallet.Deposit.Rows.{total}
use my_ng_platform.Wallet.Providers.{TransactionItem, new_transaction}
use my_ng_platform.Wallet.Requests.{
  Env, SubmitAt, process_operation, read_submit_at, find_user, find_shift_work,
}
use my_ng_platform.Wallet.Settle.{settle_installment_loan}

pub record InstallmentLoanDto : Type 0 where
  pub id : ℕ
  pub amount : ℤ
  pub cheque : ℕ
  pub pay_time : ℕ

pub record UserLoanDto : Type 0 where
  pub user : ℕ
  pub loan : ℕ
  pub amount : ℤ
  pub installments : ℕ
  pub submit_at : SubmitAt
  pub bail_type : BailType
  pub cheque : ℕ
  pub user_bail : ℕ
  pub doc : ℕ
  pub items : List InstallmentLoanDto
  pub sale_unit : ℕ
  pub organization_unit : ℕ
  pub fiscal_year : ℕ

-- The values of the enumeration.
abbrev pub bail_code : BailType → ℕ
bail_code BailType.cheque = 0
bail_code BailType.bill_of_exchange = 1
bail_code BailType.pay_slip = 2
bail_code BailType.user = 3

abbrev pub is_cheque : Option Cheque → Bool
is_cheque none = false
is_cheque (some q) = not q.deleted

abbrev pub is_user : Option User → Bool
is_user none = false
is_user (some _) = true

-- `validateChequeBail`, `validateUserBail` and `validateDocumentBail`.
unfoldable pub validate_cheque_bail : ℕ → Action (Unit {0})
validate_cheque_bail id b =
    throw_if Error.invalid_cheque_bail (id == 0 || not (is_cheque (b.cheques id))) b

unfoldable pub validate_user_bail : ℕ → Action (Unit {0})
validate_user_bail id b = throw_if Error.invalid_user_bail (id == 0 || not (is_user (b.users id))) b

unfoldable pub validate_document_bail : ℕ → Action (Unit {0})
validate_document_bail id b = throw_if Error.invalid_doc_bail (id == 0 || not (b.documents id)) b

-- The bail by its type. The user of a bail is written over the user of the loan.
unfoldable pub give_bail : BailType → UserLoanDto → UserLoan → Action UserLoan
give_bail BailType.cheque dto l =
    validate_cheque_bail dto.cheque >> pure (record l { cheque = dto.cheque })
give_bail BailType.user dto l =
    validate_user_bail dto.user_bail >> pure (record l { user = dto.user_bail })
give_bail _ dto l = validate_document_bail dto.doc >> pure (record l { doc = dto.doc })

-- A loan that names types of bail wants one of them.
unfoldable pub check_bail : List BailType → UserLoanDto → UserLoan → Action UserLoan
unfolding contains
check_bail [] dto l = pure l
check_bail (t ∷ ts) dto l =
    throw_if Error.invalid_bail_type
      (not (contains (bail_code l.bail_type) (map bail_code (t ∷ ts))))
    >> give_bail l.bail_type dto l

-- New instalments, each with the cheque that it names.
unfoldable pub new_installments : List InstallmentLoanDto → Action (List InstallmentLoan)
new_installments [] = pure []
new_installments (i ∷ is) =
    (λ b.
      throw_if Error.invalid_installments_cheque
        (not (i.cheque == 0) && not (is_cheque (b.cheques i.cheque))) b)
    >> new_installments is
    >>= λ rest. pure (
        record {
          id = 0;
          loan = 0;
          amount = i.amount;
          cheque = i.cheque;
          pay_time = i.pay_time;
          is_payed = false;
          deleted = false;
        }
        ∷ rest)

-- The cascade of `manager.save(userLoan)`: the instalments are inserted with the loan.
unfoldable pub insert_installments : ℕ → List InstallmentLoan → Db → Db
insert_installments loan [] b = b
insert_installments loan (i ∷ is) b = insert_installments loan is (record b {
  installments = record i { id = b.next_installment; loan = loan } ∷ b.installments;
  next_installment = suc b.next_installment;
})

abbrev pub put_loan : ℕ → UserLoan → (ℕ → Option UserLoan) → ℕ → Option UserLoan
put_loan id l rows j = if id == j then some l else rows j

-- The loan is inserted; the result is its id.
unfoldable pub insert_loan : UserLoan → List InstallmentLoan → Action ℕ
unfolding insert_installments
insert_loan l items b = (
  ok b.next_loan,
  insert_installments b.next_loan items
      (record b { user_loans = put_loan b.next_loan l b.user_loans; next_loan = suc b.next_loan }),
)

-- The deposit of a loan. Its date is that of `new Transaction()`, whatever the date of the loan.
unfoldable pub loan_deposit : Env → ℕ → UserLoan → Transaction
loan_deposit env id l =
    record (new_transaction env.clock.now TransactionType.deposit TransactionSourceType.loan
      l.user) {
        source = id;
        organization_unit = l.organization_unit;
        fiscal_year = l.fiscal_year;
        shift_work = l.shift_work;
        sale_unit = l.sale_unit;
        amount = l.amount;
      }

abbrev pub with_credit : Transaction → Transaction
with_credit t = record t { credit = t.user_credit }

-- The new loan before the request is read further.
unfoldable pub new_loan : UserLoanDto → UserLoan
new_loan dto = record {
  loan = dto.loan;
  installments = dto.installments;
  bail_type = dto.bail_type;
  cheque = 0;
  doc = 0;
  submit_at = 0;
  user = 0;
  organization_unit = dto.organization_unit;
  fiscal_year = dto.fiscal_year;
  shift_work = 0;
  sale_unit = dto.sale_unit;
  amount = dto.amount;
  payed_amount = pos 0;
  is_payed = false;
  deleted = false;
}

-- The request is read: the loan to insert and its instalments.
unfoldable pub read_loan : Env → UserLoanDto → Action (UserLoan × List InstallmentLoan)
unfolding new_loan check_bail new_installments
read_loan env dto = (λ b. or_throw Error.not_found_loan (b.loans dto.loan) b) >>= λ loan.
    throw_if Error.invalid_loan_amount (not (eqb_ℤ loan.amount dto.amount) && not loan.free_amount)
    >> throw_if Error.invalid_installments_count
        (not (loan.installments == dto.installments) && not loan.free_installments)
    >> check_bail loan.bail_types dto (new_loan dto)
    >>= λ l.
        process_operation dto.organization_unit dto.fiscal_year
        >> find_user dto.user
        >> read_submit_at env env.clock.now dto.submit_at
        >>= λ at. find_shift_work env at dto.organization_unit >>= λ shift.
            throw_if Error.invalid_installments (not (length dto.items == dto.installments))
            >> new_installments dto.items
            >>= λ items.
                pure (record l { user = dto.user; submit_at = at; shift_work = shift }, items)

-- The loan is granted: it is inserted and paid into the wallet.
unfoldable pub grant_loan : Env → UserLoan → List InstallmentLoan → Action (ℕ × ℤ)
unfolding loan_deposit
grant_loan env l items = insert_loan l items >>= λ id.
    do_transaction (loan_deposit env id l) false (neg l.amount) true >>= λ t.
    save (with_credit t) >>= λ t'. pure (id, t'.user_credit)

unfoldable pub add : Env → UserLoanDto → Action (ℕ × ℤ)
add env dto = atomically (read_loan env dto >>= λ r. grant_loan env r.0 r.1)

unfoldable pub find_user_loan : ℕ → Db → Option UserLoan
find_user_loan id b = elim (b.user_loans id) [
  | none ↦ none
  | some l ↦ if l.deleted then none else some l
]

abbrev pub installments_of : ℕ → List InstallmentLoan → List InstallmentLoan
installments_of loan [] = []
installments_of loan (i ∷ is) =
    if i.loan == loan && not i.deleted then i ∷ installments_of loan is else installments_of loan is

unfoldable pub transactions_of : ℕ → List Transaction → List Transaction
transactions_of installment [] = []
transactions_of installment (t ∷ ts) =
    let rest = transactions_of installment ts in
    if t.installment_loan == installment && not t.deleted then t ∷ rest else rest

unfoldable pub some_paid : List InstallmentLoan → List Transaction → Bool
unfolding transactions_of
some_paid [] ts = false
some_paid (i ∷ is) ts = elim (transactions_of i.id ts) [ [] ↦ some_paid is ts | _ ∷ _ ↦ true ]

-- `remove`: the loan is removed softly. The transaction is only named to an event.
unfoldable pub remove : ℕ → Action (Unit {0})
unfolding find_user_loan some_paid
remove id = atomically (
    (λ b. or_throw Error.not_found_loan (find_user_loan id b) b) >>= λ l.
    (λ b.
      throw_if Error.unable_remove_loan
        (some_paid (installments_of id b.installments) b.transactions) b)
    >> throw_if Error.unable_remove_loan (ltb_ℤ (pos 0) l.payed_amount)
    >> modify λ b. record b { user_loans = put_loan id (record l { deleted = true }) b.user_loans })

unfoldable pub find_installment : ℕ → List InstallmentLoan → Option InstallmentLoan
find_installment id [] = none
find_installment id (i ∷ is) =
    if i.id == id then (if i.deleted then none else some i) else find_installment id is

-- What the instalments of a loan have been paid.
unfoldable pub total_payed : List InstallmentLoan → List Transaction → ℤ
unfolding transactions_of total
total_payed [] ts = pos 0
total_payed (i ∷ is) ts = total (transactions_of i.id ts) +ℤ total_payed is ts

-- The loan is paid off as soon as what is paid comes to its amount.
unfoldable pub mark_payed : ℕ → UserLoan → ℤ → List Transaction → Action (Unit {0})
mark_payed id l payed [] b = (ok tt, b)
mark_payed id l payed (t ∷ ts) b = (
  ok tt,
  if eqb_ℤ (payed +ℤ total (t ∷ ts)) l.amount
      then record b { user_loans = put_loan id (record l { is_payed = true }) b.user_loans }
      else b,
)

-- `LoanService.settleInstallmentLoan`, which runs outside of a database transaction. An instalment
-- whose loan was removed has none: a TypeError.
unfoldable pub settle_installment : Env → ℕ → ℕ → List TransactionItem → Action (List Transaction)
unfolding find_installment find_user_loan total_payed mark_payed
settle_installment env id submit_at items =
    (λ b. or_throw Error.not_found_installment (find_installment id b.installments) b) >>= λ i.
    (λ b. or_throw Error.type_error (find_user_loan i.loan b) b) >>= λ l.
    gets (λ b. total_payed (installments_of i.loan b.installments) b.transactions) >>= λ payed.
    settle_installment_loan env (record { id = id; sale_unit = l.sale_unit; submit_at = submit_at })
      l items
    >>= λ ts. mark_payed i.loan l payed ts >> pure ts
