-- ===== src/Wallet/Withdraw/Negative.antt =====
-- A transfer of a negative amount, which `transfer` records as a deposit of that amount.
use my_ng_platform.Prelude.{
  ℕ, suc, ◌+◌, ◌≡◌, refl, ℤ, pos, negsuc, ◌+ℤ◌, ◌-ℤ◌, neg, ltb_ℤ, int_laws, arith, Bool, true,
  false, some, ◌∷◌, Bool-cases, inl, inr, ◌==◌,
}
use my_ng_platform.Entities.{Transaction, TransactionType, TransactionSourceType, User}
use my_ng_platform.Store.{Db, Result, ok, continue_with, save, alter}
use my_ng_platform.Wallet.Ledger.{credit_of, drift, share, balance}
use my_ng_platform.Wallet.Table.{IsTable}
use my_ng_platform.Wallet.Credit.{value_of, add_credit}
use my_ng_platform.Wallet.Credit.Laws.{do_transaction-accepted}
use my_ng_platform.Wallet.Normalize.Conserves.{normalize_after_date-Rewrites}
use my_ng_platform.Wallet.Posting.{moved, Credited-drift}
use my_ng_platform.Wallet.Requests.{Env, Place}
use my_ng_platform.Wallet.Withdraw.{placed, normalize_if, do_transfer}

-- A call that returns, and moves the stored credit of each user `value u` away from what is
-- recorded.
pub record Drifts {A : Type 0} (value : ℕ → ℤ) (b : Db) (r : Result A × Db) : Type 0 where
  pub result : A
  pub after : Db
  pub returns : r ≡ (ok result, after)
  pub drifts : (u : ℕ) → drift u after ≡ drift u b +ℤ value u

normalize_if-Drifts :
    (flag : Bool) (t : Transaction) (value : ℕ → ℤ) (b b' : Db)
    → IsTable b'
    → ((u : ℕ) → drift u b' ≡ drift u b +ℤ value u)
    → Drifts value b (normalize_if flag t b')
unfolding continue_with
normalize_if-Drifts false t value b b' d c = record {
  result = t;
  after = b';
  returns = refl;
  drifts = c;
}
normalize_if-Drifts true t value b b' d c =
    let w = normalize_after_date-Rewrites t.user t.submit_at b' d in
    rw w.result (record {
      result = t;
      after = record b' { transactions = w.rows };
      returns = refl;
      drifts = λ u. rw (w.sums u) (c u);
    })

not_below : (n : ℕ) → ltb_ℤ (neg (negsuc n)) (pos 0) ≡ false
unfolding neg
not_below n = ground arith

-- A transfer of a negative amount, for a user who has a row, returns, and leaves the stored credit
-- of the user twice the size of the amount above what is recorded: the credit rises by the size of
-- the amount, while the saved row is a deposit of the negative amount.
pub do_transfer-Drifts :
    (env : Env) (at : Place) (user : ℕ) (credit : ℤ) (n : ℕ) (normalize : Bool) (b : Db)
    {row : User}
    → b.users user ≡ some row
    → IsTable b
    → Drifts
        (moved user (pos (suc n + suc n)))
        b
        (do_transfer env at user credit (negsuc n) normalize b)
unfolding do_transfer continue_with save value_of share balance
do_transfer-Drifts env at user credit n normalize b {row} e d =
    let t =
      placed env at TransactionType.deposit TransactionSourceType.transfer user (negsuc n) credit in
    let down : ltb_ℤ (pos 0) (negsuc n) ≡ false = ground arith in
    let m = λ (t : Transaction) (u : ℕ) (same : t.user ≡ user).
      (Credited-drift t (value_of t (pos 0)) b t
          (record b { users = alter (add_credit (value_of t (pos 0))) t.user b.users })
          (record { row = row; found = rw same e; state = refl }) d).1
        u in
    rw
      (
        down,
        do_transaction-accepted t true (pos 0) true b e
            (let up : ltb_ℤ (neg (negsuc n)) (pos 0) ≡ false = not_below n in rw up),
      )
      (normalize_if-Drifts normalize _ (moved user (pos (suc n + suc n))) b _ (omega arith, d)
        λ u. drifted u (row.credit +ℤ value_of t (pos 0)) (m t u refl))
  where
    taken :
        (c c' s : ℤ)
        → c' -ℤ s ≡ c -ℤ s +ℤ neg (negsuc n)
        → c' -ℤ (negsuc n +ℤ s) ≡ c -ℤ s +ℤ pos (suc n + suc n)
    taken c c' s h = grind (int_laws, h)

    same : (c' s k : ℤ) → c' -ℤ s ≡ k +ℤ pos 0 → c' -ℤ (pos 0 +ℤ s) ≡ k +ℤ pos 0
    same c' s k h = grind (int_laws, h)

    drifted :
        (u : ℕ) (c : ℤ)
        → drift u (record b { users = alter (add_credit (neg (negsuc n))) user b.users })
          ≡ drift u b +ℤ moved user (neg (negsuc n)) u
        → drift u (record b {
          users = alter (add_credit (neg (negsuc n))) user b.users;
          transactions =
              record (placed env at TransactionType.deposit TransactionSourceType.transfer user
                (negsuc n)
                c) { id = b.next_id; user_credit = c }
              ∷ b.transactions;
          next_id = suc b.next_id;
        })
          ≡ drift u b +ℤ moved user (pos (suc n + suc n)) u
    drifted u c h = elim (Bool-cases (user == u)) [
      | inl s ↦ rw s (taken (credit_of u b) _ (balance u b.transactions) (rw s at h))
      | inr s ↦ rw s (same _ (balance u b.transactions) _ (rw s at h))
    ]
