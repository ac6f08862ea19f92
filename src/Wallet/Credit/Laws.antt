-- ===== src/Wallet/Credit/Laws.antt =====
-- When `doTransaction` succeeds, what it does then, and that it never overdraws.
use my_ng_platform.Prelude.{
  ℕ, ◌≡◌, refl, ◌⊎◌, inl, inr, ◌↔◌, leb→le, le→leb, ℤ, pos, ◌+ℤ◌, ◌-ℤ◌, neg, ◌≤ℤ◌, ltb_ℤ, leb_ℤ,
  int_laws, arith, Bool, true, false, not, ◌&&◌, ◌||◌, Bool-cases, Option-cases, Option, some, ◌==◌,
  if◌then◌else◌,
}
use my_ng_platform.Entities.{Transaction, User}
use my_ng_platform.Store.{Db, Error, ok, err, alter, is_ok}
use my_ng_platform.Wallet.Ledger.{credit_of}
use my_ng_platform.Wallet.Contract.{Ensures}
use my_ng_platform.Wallet.Credit.{allows, value_of, add_credit, do_transaction}

-- What a `doTransaction` that succeeds has done.
pub record Credited (t : Transaction) (value : ℤ) (b : Db) (t' : Transaction) (b' : Db)
    : Type 0 where
  pub row : User
  pub found : b.users t.user ≡ some row
  pub state : b' ≡ record b { users = alter (add_credit value) t.user b.users }

-- The row that is altered is found altered.
alter_self {ℓ} :
    {A : Type ℓ} (f : A → A) (k : ℕ) (rows : ℕ → Option A) {a : A}
    → rows k ≡ some a
    → alter f k rows k ≡ some (f a)
alter_self f k rows e = let same : (k == k) ≡ true = ground arith in rw (same, e)

-- The refusal of an update: the value lowers the credit, and the row does not allow it.
abbrev refuses : Bool → ℤ → User → Bool
refuses dept value row = ltb_ℤ value (pos 0) && not (allows dept (neg value) row)

pub do_transaction-refused :
    (t : Transaction) (dept : Bool) (amount : ℤ) (rc : Bool) (b : Db) {row : User}
    → b.users t.user ≡ some row
    → refuses dept (value_of t amount) row ≡ true
    → do_transaction t dept amount rc b ≡ (err Error.credit_not_enough, b)
unfolding do_transaction
do_transaction-refused t dept amount rc b e r = rw (e, do_transaction) (rw r)

pub do_transaction-accepted :
    (t : Transaction) (dept : Bool) (amount : ℤ) (rc : Bool) (b : Db) {row : User}
    → b.users t.user ≡ some row
    → refuses dept (value_of t amount) row ≡ false
    → do_transaction t dept amount rc b ≡ (
      ok (if rc then record t { user_credit = row.credit +ℤ value_of t amount } else t),
      record b { users = alter (add_credit (value_of t amount)) t.user b.users },
    )
unfolding do_transaction
do_transaction-accepted t dept amount rc b e r = rw (e, do_transaction) (rw r)

pub do_transaction-Credited :
    (t : Transaction) (dept : Bool) (amount : ℤ) (rc : Bool) (b : Db)
    → Ensures
        (λ t' b'.
          Credited t (value_of t amount) b t' b'
          × (t' ≡ (if rc then record t { user_credit = credit_of t.user b' } else t)))
        (do_transaction t dept amount rc b)
unfolding do_transaction add_credit Ensures
do_transaction-Credited t dept amount rc b = elim (Option-cases (b.users t.user)) [
  | inl e ↦ rw (e, do_transaction) tt
  | inr (row, e) ↦ elim (Bool-cases (refuses dept (value_of t amount) row)) [
    | inl r ↦ rw (do_transaction-refused t dept amount rc b e r) tt
    | inr r ↦ rw (do_transaction-accepted t dept amount rc b e r) (
      record { row = row; found = e; state = refl },
      rw (alter_self (add_credit (value_of t amount)) t.user b.users e),
    )
  ]
]

-- A balance that an update may leave: not negative, or within the debt that the user may have.
abbrev pub IsCovered : Bool → User → ℤ → Type 0
IsCovered dept row credit =
    (pos 0 ≤ℤ credit)
    ⊎ ((dept ≡ true) × (row.authorized_debtor ≡ true) × (pos 0 ≤ℤ credit +ℤ row.max_dept_amount))

covered :
    (dept : Bool) (value : ℤ) (row : User)
    → ltb_ℤ value (pos 0) ≡ true
    → allows dept (neg value) row ≡ true
    → IsCovered dept row (row.credit +ℤ value)
unfolding allows
covered true value row n a = elim (Bool-cases (leb_ℤ (pos 0) (row.credit -ℤ neg value))) [
  | inl h ↦ inl (grind (int_laws, leb→le _ _ h))
  | inr h ↦
      let debt : leb_ℤ (neg value) (row.credit +ℤ row.max_dept_amount) ≡ true =
        ground (arith, a, h) in
      inr (refl, ground (arith, a, h), grind (int_laws, leb→le _ _ debt))
]
covered false value row n a = inl (grind (int_laws, leb→le _ _ a))

not_lower : (v : ℤ) → ltb_ℤ v (pos 0) ≡ false → pos 0 ≤ℤ v
not_lower v h = ground arith

lower : (v : ℤ) → ltb_ℤ v (pos 0) ≡ true → pos 0 ≤ℤ v → ⊥
lower v h k = ground arith

pub allowed :
    (dept : Bool) (value : ℤ) (row : User)
    → IsCovered dept row (row.credit +ℤ value)
    → allows dept (neg value) row ≡ true
unfolding allows
allowed true value row (inl h) =
    let e : leb_ℤ (pos 0) (row.credit -ℤ neg value) ≡ true = le→leb _ _ (grind (int_laws, h)) in
    rw e
allowed true value row (inr (_, debtor, h)) =
    let e : leb_ℤ (neg value) (row.credit +ℤ row.max_dept_amount) ≡ true =
      le→leb _ _ (grind (int_laws, h)) in
    rw (debtor, e) (or_true (leb_ℤ (pos 0) (row.credit -ℤ neg value)))
  where
    or_true : (x : Bool) → (x || true) ≡ true
    or_true true = refl
    or_true false = refl
allowed false value row (inl h) = le→leb _ _ (grind (int_laws, h))
allowed false value row (inr (e, _, _)) = absurd (ground (arith, e))

-- For a user who has a row, the update succeeds exactly if it does not lower the credit, or if the
-- balance that it leaves is covered: not negative, or, where debts are accepted, within the limit
-- of an authorized debtor.
pub do_transaction-iff-IsCovered :
    (t : Transaction) (dept : Bool) (amount : ℤ) (rc : Bool) (b : Db) {row : User}
    → b.users t.user ≡ some row
    → (is_ok (do_transaction t dept amount rc b) ≡ true)
      ↔ ((pos 0 ≤ℤ value_of t amount) ⊎ IsCovered dept row (row.credit +ℤ value_of t amount))
do_transaction-iff-IsCovered t dept amount rc b {row} e =
    elim (Bool-cases (ltb_ℤ (value_of t amount) (pos 0))) [
      | inr up ↦
          rw (do_transaction-accepted t dept amount rc b e (rw up))
            (λ _. inl (not_lower _ up), λ _. refl)
      | inl n ↦ elim (Bool-cases (allows dept (neg (value_of t amount)) row)) [
        | inl a ↦
            rw (do_transaction-accepted t dept amount rc b e (rw (n, a)))
              (λ _. inr (covered dept (value_of t amount) row n a), λ _. refl)
        | inr a ↦ rw (do_transaction-refused t dept amount rc b e (rw (n, a))) (
          λ h. absurd (ground (arith, h)),
          λ c. elim c [
            | inl up ↦ absurd (lower _ n up)
            | inr h ↦ absurd (ground (arith, a, allowed dept (value_of t amount) row h))
          ],
        )
      ]
    ]
