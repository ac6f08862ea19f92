-- ===== src/Loans/Laws.antt =====
-- A loan against the ledger: what it pays in.
use my_ng_platform.Prelude.{
  ℕ, ◌≡◌, refl, sym, ap, ◌∙◌, ℤ, neg, ◌+ℤ◌, int_laws, arith, true, false, Option, none, some, List,
  [], ◌∷◌, Bool-cases, inl, inr, ◌==◌,
}
use my_ng_platform.Entities.{Transaction, UserLoan, InstallmentLoan, BailType}
use my_ng_platform.Store.{Db, Error, save, or_throw}
use my_ng_platform.Wallet.Ledger.{share, drift, credit_of}
use my_ng_platform.Wallet.Table.{IsTable}
use my_ng_platform.Wallet.Contract.{
  Ensures, Ensures-continue, Ensures-pure, Ensures-err, Ensures-map, Ensures-both, Keeps, Reads,
  Reads-continue, Outcome, roll_back-Outcome,
}
use my_ng_platform.Wallet.Credit.{value_of}
use my_ng_platform.Wallet.Credit.Laws.{do_transaction-Credited}
use my_ng_platform.Wallet.Posting.{moved, Credited-drift, Credited-Pays, save-drift}
use my_ng_platform.Wallet.Remove.Undone.{value_of-neg}
use my_ng_platform.Wallet.Requests.{Env}
use my_ng_platform.Wallet.Requests.Reads.{
  throw_if-Reads, process_operation-Reads, read_submit_at-Reads, find_user-Reads,
  find_shift_work-Reads,
}
use my_ng_platform.Loans.{
  UserLoanDto, InstallmentLoanDto, validate_cheque_bail, validate_user_bail, validate_document_bail,
  give_bail, check_bail, new_installments, insert_installments, insert_loan, loan_deposit,
  with_credit, new_loan, read_loan, grant_loan, add, find_user_loan,
}

give_bail-Reads :
    (t : BailType) (dto : UserLoanDto) (l : UserLoan) (b : Db) → Reads b (give_bail t dto l b)
unfolding give_bail validate_cheque_bail validate_user_bail validate_document_bail
give_bail-Reads BailType.cheque dto l b =
    Reads-continue _ _ b _ (throw_if-Reads _ _ b) λ _. Ensures-pure _ _ b refl
give_bail-Reads BailType.user dto l b =
    Reads-continue _ _ b _ (throw_if-Reads _ _ b) λ _. Ensures-pure _ _ b refl
give_bail-Reads _ dto l b =
    Reads-continue _ _ b _ (throw_if-Reads _ _ b) λ _. Ensures-pure _ _ b refl

-- A bail leaves the amount of a loan, and writes nothing.
abbrev SameTerms : UserLoan → Db → UserLoan → Db → Type 0
SameTerms l b l' b' = (b' ≡ b) × ((l'.amount ≡ l.amount) × (l'.deleted ≡ l.deleted))

give_bail-SameTerms :
    (t : BailType) (dto : UserLoanDto) (l : UserLoan) (b : Db)
    → Ensures (SameTerms l b) (give_bail t dto l b)
unfolding give_bail validate_cheque_bail validate_user_bail validate_document_bail
give_bail-SameTerms BailType.cheque dto l b =
    Reads-continue _ _ b _ (throw_if-Reads _ _ b) λ _. Ensures-pure _ _ b (refl, (refl, refl))
give_bail-SameTerms BailType.user dto l b =
    Reads-continue _ _ b _ (throw_if-Reads _ _ b) λ _. Ensures-pure _ _ b (refl, (refl, refl))
give_bail-SameTerms _ dto l b =
    Reads-continue _ _ b _ (throw_if-Reads _ _ b) λ _. Ensures-pure _ _ b (refl, (refl, refl))

pub check_bail-SameTerms :
    (ts : List BailType) (dto : UserLoanDto) (l : UserLoan) (b : Db)
    → Ensures (SameTerms l b) (check_bail ts dto l b)
unfolding check_bail
check_bail-SameTerms [] dto l b = Ensures-pure _ l b (refl, (refl, refl))
check_bail-SameTerms (t ∷ ts) dto l b =
    Reads-continue _ _ b _ (throw_if-Reads _ _ b) λ _. give_bail-SameTerms l.bail_type dto l b

pub new_installments-Reads :
    (is : List InstallmentLoanDto) (b : Db) → Reads b (new_installments is b)
unfolding new_installments
new_installments-Reads [] b = Ensures-pure _ [] b refl
new_installments-Reads (i ∷ is) b =
    Ensures-continue (λ _ b'. b' ≡ b) _ _ _
      (Reads-continue _ _ b _ (throw_if-Reads _ _ b) λ _. new_installments-Reads is b)
      λ rest b' e. Ensures-pure _ _ b' e

pub or_throw-Reads : {A : Type 0} (e : Error) (o : Option A) (b : Db) → Reads b (or_throw e o b)
or_throw-Reads e none b = Ensures-err _ e b
or_throw-Reads e (some a) b = Ensures-pure _ a b refl

-- What is read of a request: the user and the amount of the loan are those of the request.
abbrev IsRead : UserLoanDto → Db → UserLoan × List InstallmentLoan → Db → Type 0
IsRead dto b r b' =
    (b' ≡ b) × ((r.0.user ≡ dto.user) × ((r.0.amount ≡ dto.amount) × (r.0.deleted ≡ false)))

read_loan-IsRead :
    (env : Env) (dto : UserLoanDto) (b : Db) → Ensures (IsRead dto b) (read_loan env dto b)
unfolding read_loan new_loan
read_loan-IsRead env dto b = Reads-continue (IsRead dto b) _ b _ (or_throw-Reads _ _ b) λ loan.
    Ensures-continue (SameTerms (new_loan dto) b) (IsRead dto b) _ _
      (Reads-continue _ _ b _
        (Reads-continue _ _ b _ (throw_if-Reads _ _ b) λ _. throw_if-Reads _ _ b)
        λ _. check_bail-SameTerms loan.bail_types dto (new_loan dto) b)
      λ l b' p. rw p.0 (
        Reads-continue (IsRead dto b) _ b _
          (Reads-continue _ _ b _
            (Reads-continue _ _ b _ (process_operation-Reads _ _ b) λ _. find_user-Reads _ b)
            λ _. read_submit_at-Reads env _ _ b)
          λ at. Reads-continue (IsRead dto b) _ b _ (find_shift_work-Reads env _ _ b) λ shift.
            Reads-continue (IsRead dto b) _ b _
              (Reads-continue _ _ b _ (throw_if-Reads _ _ b)
                λ _. new_installments-Reads dto.items b)
              λ items. Ensures-pure (IsRead dto b) _ b (refl, (refl, p.1)))

-- The wallets and the transactions, with the loan under its id.
record IsInserted (l : UserLoan) (b : Db) (id : ℕ) (b' : Db) : Type 0 where
  users : b'.users ≡ b.users
  transactions : b'.transactions ≡ b.transactions
  next_id : b'.next_id ≡ b.next_id
  loan : b'.user_loans id ≡ some l

insert_installments-IsInserted :
    (loan : ℕ) (is : List InstallmentLoan) (l : UserLoan) (id : ℕ) (b₀ b : Db)
    → IsInserted l b₀ id b
    → IsInserted l b₀ id (insert_installments loan is b)
unfolding insert_installments
insert_installments-IsInserted loan [] l id b₀ b h = h
insert_installments-IsInserted loan (i ∷ is) l id b₀ b h =
    insert_installments-IsInserted loan is l id b₀ _ (record {
      users = h.users;
      transactions = h.transactions;
      next_id = h.next_id;
      loan = h.loan;
    })

insert_loan-IsInserted :
    (l : UserLoan) (items : List InstallmentLoan) (b : Db)
    → Ensures (IsInserted l b) (insert_loan l items b)
unfolding insert_loan
insert_loan-IsInserted l items b =
    let same : (b.next_loan == b.next_loan) ≡ true = ground arith in
    Ensures-pure _ b.next_loan _ (
      insert_installments-IsInserted b.next_loan items l b.next_loan b _
        (record { users = refl; transactions = refl; next_id = refl; loan = rw same refl }))

-- A loan that is granted: its amount is in the wallet of its user and in a recorded deposit, the
-- credit is told, and the loan is found.
record IsPaidOut (l : UserLoan) (b : Db) (r : ℕ × ℤ) (b' : Db) : Type 0 where
  kept : Keeps b tt b'
  credits : (u : ℕ) → credit_of u b' ≡ credit_of u b +ℤ moved l.user l.amount u
  told : r.1 ≡ credit_of l.user b'
  loan : b'.user_loans r.0 ≡ some l

saved_row :
    (t : Transaction) (b : Db)
    → Ensures
        (λ t' b'.
          (t'.user_credit ≡ t.user_credit)
          × ((b'.users ≡ b.users) × (b'.user_loans ≡ b.user_loans)))
        (save t b)
unfolding save
saved_row t b = elim (Bool-cases (t.id == 0)) [
  | inl e ↦ rw e (Ensures-pure _ _ _ (refl, (refl, refl)))
  | inr e ↦ rw e (Ensures-pure _ t _ (refl, (refl, refl)))
]

double_neg : (a : ℤ) → neg (neg a) ≡ a
double_neg a = grind int_laws

worth :
    (env : Env) (id : ℕ) (l : UserLoan) (t : Transaction) (c : ℤ) (u : ℕ)
    → t ≡ record (loan_deposit env id l) { user_credit = c }
    → share u (with_credit t) ≡ moved l.user l.amount u
unfolding share loan_deposit
worth env id l t c u e = ap (λ r. share u (with_credit r)) e

grant_loan-IsPaidOut :
    (env : Env) (l : UserLoan) (items : List InstallmentLoan) (b : Db)
    → IsTable b
    → Ensures (IsPaidOut l b) (grant_loan env l items b)
unfolding grant_loan loan_deposit
grant_loan-IsPaidOut env l items b d =
    Ensures-continue (IsInserted l b) (IsPaidOut l b) _ _ (insert_loan-IsInserted l items b)
      λ id b1 h.
        let n : Transaction = loan_deposit env id l in
        let value : value_of n (neg l.amount) ≡ l.amount = value_of-neg n ∙ double_neg l.amount in
        Ensures-continue _ (IsPaidOut l b) _ _
          (do_transaction-Credited n false (neg l.amount) true b1)
          λ t b2 c.
            let (d2, m) = Credited-drift n _ b1 t b2 c.0 (rw (h.next_id, h.transactions) d) in
            let p = Credited-Pays n _ b1 t b2 c.0 in
            Ensures-continue _ (IsPaidOut l b) _ _
              (Ensures-both (Keeps b) _ _
                (save-drift (with_credit t) b b2 (ap (λ t. t.id) c.1) d2 λ u.
                  m u
                  ∙ rw (value, h.users, h.transactions)
                      (ap (λ w. drift u b +ℤ w) (sym (worth env id l t _ u c.1))))
                (saved_row (with_credit t) b2))
              λ t' b3 q.
                Ensures-pure (IsPaidOut l b) (id, t'.user_credit) b3
                  (record {
                    kept = q.0;
                    credits = λ u. rw q.1.1.0 (p.credits u ∙ rw (value, h.users) refl);
                    told = q.1.0 ∙ ap (λ t. t.user_credit) c.1 ∙ rw q.1.1.0 refl;
                    loan = rw q.1.1.1 (ap (λ b. b.user_loans id) c.0.state ∙ h.loan);
                  })

-- A loan that is granted to the user of a request.
pub record IsGranted (dto : UserLoanDto) (b : Db) (r : ℕ × ℤ) (b' : Db) : Type 0 where
  pub kept : Keeps b tt b'
  pub credits : (u : ℕ) → credit_of u b' ≡ credit_of u b +ℤ moved dto.user dto.amount u
  pub told : r.1 ≡ credit_of dto.user b'
  pub owed :
      (l : UserLoan) × ((find_user_loan r.0 b' ≡ some l)
        × ((l.user ≡ dto.user) × (l.amount ≡ dto.amount)))

granted :
    (dto : UserLoanDto) (l : UserLoan) (b : Db) (r : ℕ × ℤ) (b' : Db)
    → l.user ≡ dto.user
    → l.amount ≡ dto.amount
    → l.deleted ≡ false
    → IsPaidOut l b r b'
    → IsGranted dto b r b'
unfolding find_user_loan
granted dto l b r b' e f g p = record {
  kept = p.kept;
  credits = λ u. p.credits u ∙ rw (e, f) refl;
  told = p.told ∙ ap (λ u. credit_of u b') e;
  owed = (l, (rw (find_user_loan, p.loan, g) refl, (e, f)));
}

-- A loan that is granted raises the credit of its user by its amount, and no other credit, records
-- that deposit, returns the credit that the user then has, and is found with its user and amount; a
-- refused one changes nothing.
pub add-IsGranted :
    (env : Env) (dto : UserLoanDto) (b : Db)
    → IsTable b
    → Outcome (IsGranted dto b) b (add env dto b)
unfolding add
add-IsGranted env dto b d = roll_back-Outcome (IsGranted dto b) b _ (
    Ensures-continue (IsRead dto b) (IsGranted dto b) _ _ (read_loan-IsRead env dto b) λ r b' p.
      rw p.0 (
        Ensures-map (IsPaidOut r.0 b) (IsGranted dto b) _ (grant_loan-IsPaidOut env r.0 r.1 b d)
          λ s b'' q. granted dto r.0 b s b'' p.1.0 p.1.1.0 p.1.1.1 q))
