-- ===== src/Loans/Update.antt =====
-- `LoanService.update`.
use my_ng_platform.Prelude.{
  ℕ, ℤ, pos, ◌-ℤ◌, eqb_ℤ, ltb_ℤ, true, false, not, ◌&&◌, ◌||◌, Option, none, some, List, [], ◌∷◌,
  length, ◌==◌, if◌then◌else◌,
}
use my_ng_platform.Entities.{Transaction, UserLoan, Loan, InstallmentLoan}
use my_ng_platform.Store.{
  Db, Error, Action, ok, err, ◌>>=◌, ◌>>◌, pure, throw, throw_if, save, or_throw, atomically,
  modify,
}
use my_ng_platform.Wallet.Credit.{do_transaction}
use my_ng_platform.Loans.{
  UserLoanDto, InstallmentLoanDto, check_bail, find_user_loan, insert_installments, is_cheque,
  new_installments, put_loan,
}

-- The loan of the request, which is read where it is another one. Without a loan its properties
-- are read of null.
unfoldable pub loan_of : UserLoan → UserLoanDto → Action Loan
loan_of l dto b =
    let missing = if l.loan == dto.loan then Error.type_error else Error.not_found_loan in
    elim (b.loans dto.loan) [ none ↦ (err missing, b) | some loan ↦ (ok loan, b) ]

unfoldable pub find_dto : ℕ → List InstallmentLoanDto → Option InstallmentLoanDto
find_dto id [] = none
find_dto id (i ∷ is) = if i.id == id then some i else find_dto id is

-- An unpaid instalment takes the date and the cheque of its request. A cheque that is not found is
-- null, since the test is on the request, and no cheque is undefined, which `save` leaves out.
unfoldable pub edit_installment : List InstallmentLoanDto → Db → InstallmentLoan → InstallmentLoan
unfolding find_dto
edit_installment dtos b i = if i.is_payed then i else elim (find_dto i.id dtos) [
  | none ↦ i
  | some dto ↦ record i {
    pay_time = dto.pay_time;
    cheque =
        if dto.cheque == 0 || dto.cheque == i.cheque
        then i.cheque
        else (if is_cheque (b.cheques dto.cheque) then dto.cheque else 0);
  }
]

-- The instalments of the loan that stay, each edited; the others are those of other loans.
unfoldable pub edit_installments :
    ℕ → List InstallmentLoanDto → Db → List InstallmentLoan → List InstallmentLoan
unfolding edit_installment
edit_installments loan dtos b [] = []
edit_installments loan dtos b (i ∷ is) =
    (if i.loan == loan && not i.deleted then edit_installment dtos b i else i)
    ∷ edit_installments loan dtos b is

-- `orphanedRowAction: 'soft-delete'`
unfoldable pub drop_installments : ℕ → List InstallmentLoan → List InstallmentLoan
drop_installments loan [] = []
drop_installments loan (i ∷ is) =
    (if i.loan == loan && not i.deleted then record i { deleted = true } else i)
    ∷ drop_installments loan is

-- The instalments to save: as many as before are edited, another number replaces them.
unfoldable pub update_installments : ℕ → UserLoan → UserLoanDto → Action (Db → Db)
unfolding edit_installments drop_installments
update_installments id l dto =
    if l.installments == dto.installments
    then (λ b. (
      ok (λ b'. record b' { installments = edit_installments id dto.items b b'.installments }),
      b,
    ))
    else (new_installments dto.items >>= λ items. pure (λ b'.
        insert_installments id items
          (record b' { installments = drop_installments id b'.installments })))

-- `findOne(Transaction, { where: { source } })`, whatever the type of the source is.
unfoldable pub find_by_source : ℕ → List Transaction → Option Transaction
find_by_source id [] = none
find_by_source id (t ∷ ts) =
    if t.source == id && not t.deleted then some t else find_by_source id ts

-- `doTransaction` on a transaction with the user that was loaded with it, and its save. The id of a
-- user that was not loaded is a TypeError.
unfoldable pub change_deposit : Option ℕ → Transaction → ℤ → Action (Unit {0})
unfolding do_transaction save
change_deposit none t amount = throw Error.type_error
change_deposit (some user) t amount =
    do_transaction (record t { user = user }) false amount true >>= λ t'.
    save (record t' { credit = t'.user_credit }) >> pure tt

-- A changed amount: the transaction is loaded without its relations, and so without its user.
unfoldable pub update_amount : ℕ → UserLoan → UserLoanDto → Action (Unit {0})
unfolding find_by_source change_deposit
update_amount id l dto b =
    if eqb_ℤ l.amount dto.amount then (ok tt, b) else elim (find_by_source id b.transactions) [
      | none ↦ (err Error.type_error, b)
      | some t ↦ change_deposit none (record t { amount = dto.amount }) (l.amount -ℤ dto.amount) b
    ]

unfoldable pub update : ℕ → UserLoanDto → Action UserLoan
unfolding find_user_loan loan_of
update id dto = atomically (
    (λ b. or_throw Error.not_found_loan (find_user_loan id b) b) >>= λ l.
    throw_if Error.unable_changed_loan (ltb_ℤ (pos 0) l.payed_amount && not (l.loan == dto.loan))
    >> loan_of l dto
    >>= λ loan.
        throw_if Error.unable_changed_amount (
          ltb_ℤ (pos 0) l.payed_amount
          && (not (eqb_ℤ l.amount dto.amount) || not (loan.installments == dto.installments)))
        >> throw_if Error.invalid_loan_amount
            (not (eqb_ℤ l.amount dto.amount) && not loan.free_amount)
        >> throw_if Error.invalid_installments_count
            (not (l.installments == dto.installments) && not loan.free_installments)
        >> check_bail loan.bail_types dto l
        >>= λ l'.
            throw_if Error.invalid_installments (not (length dto.items == dto.installments))
            >> update_installments id l dto
            >>= λ edit.
                update_amount id l dto
                >> (let saved = record l' {
                  installments = dto.installments;
                  amount = dto.amount;
                } in
                    modify (λ b. edit (record b { user_loans = put_loan id saved b.user_loans }))
                    >> pure saved))
