-- ===== src/Loans/Settled.antt =====
-- The removal and the settlement of a loan.
use my_ng_platform.Prelude.{
  ℕ, ◌≡◌, refl, ℤ, ◌+ℤ◌, eqb_ℤ, Bool, true, false, none, List, [], ◌∷◌, Bool-cases, inl, inr, ◌==◌,
  arith,
}
use my_ng_platform.Entities.{Transaction, UserLoan}
use my_ng_platform.Store.{Db, Error, throw_if}
use my_ng_platform.Wallet.Table.{IsTable}
use my_ng_platform.Wallet.Contract.{
  Ensures, Ensures-continue, Ensures-pure, Ensures-err, Ensures-map, Keeps, Reads-continue, Outcome,
  roll_back-Outcome,
}
use my_ng_platform.Wallet.Deposit.Rows.{total}
use my_ng_platform.Wallet.Requests.{Env}
use my_ng_platform.Wallet.Requests.Reads.{throw_if-Reads}
use my_ng_platform.Wallet.Providers.{TransactionItem}
use my_ng_platform.Wallet.Settle.Laws.{settle_installment_loan-Keeps}
use my_ng_platform.Loans.{
  find_user_loan, installments_of, some_paid, mark_payed, settle_installment, remove, put_loan,
}
use my_ng_platform.Loans.Laws.{or_throw-Reads}

-- What a removed loan leaves: it is not found any more, none of its instalments had a transaction,
-- and the credits and the transactions are what they were.
pub record Leaves (id : ℕ) (b : Db) (r : Unit {0}) (b' : Db) : Type 0 where
  pub gone : find_user_loan id b' ≡ none
  pub unpaid : some_paid (installments_of id b.installments) b.transactions ≡ false
  pub users : b'.users ≡ b.users
  pub transactions : b'.transactions ≡ b.transactions

throw_if-passed :
    (e : Error) (c : Bool) (b : Db) → Ensures (λ _ b'. (b' ≡ b) × (c ≡ false)) (throw_if e c b)
throw_if-passed e true b = Ensures-err _ e b
throw_if-passed e false b = Ensures-pure _ tt b (refl, refl)

removed_is_gone :
    (id : ℕ) (l : UserLoan) (b : Db)
    → find_user_loan id
        (record b { user_loans = put_loan id (record l { deleted = true }) b.user_loans })
      ≡ none
unfolding find_user_loan
removed_is_gone id l b =
    let same : (id == id) ≡ true = ground arith in rw (find_user_loan, same) refl

-- The removal of a loan, if it is not refused, leaves the credit of its user and the deposit of the
-- loan as they are; a refused one changes nothing.
pub remove-Leaves : (id : ℕ) (b : Db) → Outcome (Leaves id b) b (remove id b)
unfolding remove
remove-Leaves id b = roll_back-Outcome (Leaves id b) b _ (
    Reads-continue (Leaves id b) _ b _ (or_throw-Reads _ _ b) λ l.
      Ensures-continue
        (λ _ b'. (b' ≡ b) × (some_paid (installments_of id b.installments) b.transactions ≡ false))
        (Leaves id b) _ _
        (Ensures-continue _ _ _ _ (throw_if-passed Error.unable_remove_loan _ b)
          λ _ b' p. rw p.0 (Ensures-map _ _ _ (throw_if-Reads _ _ b) λ _ b'' q. (q, p.1)))
        λ _ b' p. rw p.0 (
          Ensures-pure (Leaves id b) tt _ (record {
            gone = removed_is_gone id l b;
            unpaid = p.1;
            users = refl;
            transactions = refl;
          })))

mark_payed-Keeps :
    (id : ℕ) (l : UserLoan) (payed : ℤ) (ts : List Transaction) (b₀ b : Db)
    → Keeps b₀ ts b
    → Ensures (Keeps b₀) (mark_payed id l payed ts b)
unfolding mark_payed
mark_payed-Keeps id l payed [] b₀ b k = Ensures-pure (Keeps b₀) tt b k
mark_payed-Keeps id l payed (t ∷ ts) b₀ b k =
    elim (Bool-cases (eqb_ℤ (payed +ℤ total (t ∷ ts)) l.amount)) [
      | inl e ↦ rw e (Ensures-pure (Keeps b₀) tt _ (k.0, k.1))
      | inr e ↦ rw e (Ensures-pure (Keeps b₀) tt b k)
    ]

-- The settlement of an instalment, from whatever sources and users, keeps the table in order and the
-- difference of every user's stored credit and recorded transactions, unless it throws.
pub settle_installment-Keeps :
    (env : Env) (id at : ℕ) (items : List TransactionItem) (b : Db)
    → IsTable b
    → Ensures (Keeps b) (settle_installment env id at items b)
unfolding settle_installment
settle_installment-Keeps env id at items b d =
    Reads-continue (Keeps b) _ b _ (or_throw-Reads _ _ b) λ i.
      Reads-continue (Keeps b) _ b _ (or_throw-Reads _ _ b) λ l.
        Reads-continue (Keeps b) _ b _ (Ensures-pure _ _ b refl) λ payed.
          Ensures-continue (Keeps b) (Keeps b) _ _
            (settle_installment_loan-Keeps env
              (record { id = id; sale_unit = l.sale_unit; submit_at = at }) l items b d)
            λ ts b' k.
              Ensures-continue (Keeps b) (Keeps b) _ _ (mark_payed-Keeps i.loan l payed ts b b' k)
                λ _ b'' k'. Ensures-pure (Keeps b) ts b'' k'
