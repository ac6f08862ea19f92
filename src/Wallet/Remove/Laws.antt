-- ===== src/Wallet/Remove/Laws.antt =====
-- Removing a transaction undoes what it did to the wallet.
use my_ng_platform.Prelude.{
  ℕ, ◌≡◌, ◌≢◌, ◌<◌, refl, ◌∙◌, ap, sym, ℤ, pos, ◌+ℤ◌, ◌-ℤ◌, neg, int_laws, arith, Bool, true, false,
  none, some, if◌then◌else◌, Option-cases, Bool-cases, ==_iff, inl, inr, List, [], ◌∷◌, ◌==◌,
}
use mathlib.Core.Path.{subst}
use my_ng_platform.Entities.{Transaction, TransactionSourceType}
use my_ng_platform.Store.{Db, Result, continue_with, find_row, replace_row, save}
use my_ng_platform.Wallet.Ledger.{share, credit_of, balance, signed, balance-replace_row}
use my_ng_platform.Wallet.Table.{
  Stands, find_row-replace_row-removed, Descending, IsTable, Descending-pos, replace_row-Descending,
  save-replace_row,
}
use my_ng_platform.Wallet.Contract.{
  Ensures, Ensures-map, Ensures-continue, Ensures-pure, Ensures-err, Conserves, Keeps,
  Rewrites-Keeps, roll_back-Conserves,
}
use my_ng_platform.Wallet.Normalize.{normalize_charges_after_date}
use my_ng_platform.Wallet.Normalize.Conserves.{
  Rewrites, normalize_after_date-Rewrites, normalize_charges_after_date-Rewrites,
}
use my_ng_platform.Wallet.Posting.{moved, Pays}
use my_ng_platform.Wallet.Remove.Undone.{PaysBack, undo-Pays, neg_zero}
use my_ng_platform.Wallet.Remove.{
  removed, normalize_wallet, normalize_charge, do_remove_transaction, remove_transaction,
}

share-removed : (u : ℕ) (t : Transaction) → share u (removed t) ≡ pos 0
unfolding share
share-removed u t = ground arith

pub share-live :
    (u : ℕ) (t : Transaction)
    → t.deleted ≡ false
    → share u t ≡ moved t.user (signed t.type t.source_type t.amount) u
unfolding share
share-live u t e = rw e

moved-neg : (user : ℕ) (v : ℤ) (u : ℕ) → moved user (neg v) u ≡ neg (moved user v u)
moved-neg user v u = elim (Bool-cases (user == u)) [
  | inl e ↦ rw e
  | inr e ↦ rw e (grind (int_laws, neg_zero))
]

find_row-live :
    (i : ℕ) (rows : List Transaction) (t : Transaction)
    → find_row i rows ≡ some t
    → (t.id ≡ i) × (t.deleted ≡ false)
unfolding find_row
find_row-live i [] t h = cc
find_row-live i (r ∷ rs) t h = grind (arith, find_row-live i rs t)

find_row-pos :
    (n i : ℕ) (rows : List Transaction) (t : Transaction)
    → Descending n rows
    → find_row i rows ≡ some t
    → 0 < t.id
unfolding find_row
find_row-pos n i [] t d h = cc
find_row-pos n i (r ∷ rs) t d h =
    grind (arith, Descending-pos r.id rs d.1, find_row-pos r.id i rs t d.1)

-- A credit that pays back what the row is overwritten by nothing for.
level :
    (c c' s s' m old new : ℤ)
    → c' ≡ c +ℤ neg m
    → s' +ℤ old ≡ s +ℤ new
    → new ≡ pos 0
    → old ≡ m
    → c' -ℤ s' ≡ c -ℤ s
level c c' s s' m old new p q r e = rw (p, ← e) (grind (int_laws, q, r))

-- What a removal leaves: the ledger as far off as it was, the row gone, and the other rows standing.
pub record Removes (t : Transaction) (b : Db) (b' : Db) : Type 0 where
  pub kept : Keeps b tt b'
  pub gone : find_row t.id b'.transactions ≡ none
  pub missing : (i : ℕ) → find_row i b.transactions ≡ none → find_row i b'.transactions ≡ none
  pub others : (s : Transaction) → t.id ≢ s.id → Stands b.transactions s → Stands b'.transactions s

save-removed-Removes :
    (t : Transaction) (b b' : Db)
    → IsTable b
    → Stands b.transactions t
    → Pays t.user (neg (signed t.type t.source_type t.amount)) b b'
    → Ensures (λ _ b''. Removes t b b'') (save (removed t) b')
save-removed-Removes t b b' d s p =
    let same : s.old.id ≡ t.id = (find_row-live t.id b.transactions s.old s.found).0 in
    let positive : 0 < t.id =
      omega (arith, same, find_row-pos b.next_id t.id b.transactions s.old d s.found) in
    rw (save-replace_row (removed t) b' positive) (
      Ensures-pure _ (removed t) _ (record {
        kept = (
          rw (p.same_rows, p.same_next)
              (replace_row-Descending b.next_id (removed t) b.transactions d),
          λ u. rw p.same_rows (
              level (credit_of u b) (credit_of u b') (balance u b.transactions) _ _ _ _
                (p.credits u
                  ∙ ap (λ m. credit_of u b +ℤ m)
                      (moved-neg t.user (signed t.type t.source_type t.amount) u))
                (balance-replace_row u (removed t) s.old b.transactions s.found) (share-removed u t)
                (sym (s.keeps u) ∙ share-live u t s.live)),
        );
        gone = rw p.same_rows (seen t.id ∙ rw ((==_iff t.id t.id).1 refl) refl);
        missing = λ i e. rw p.same_rows (seen i ∙ absent i e);
        others = λ r n h. rw p.same_rows (record {
          old = h.old;
          found = seen r.id ∙ rw (apart r n) h.found;
          live = h.live;
          keeps = h.keeps;
        });
      }))
  where
    seen :
        (i : ℕ)
        → find_row i (replace_row (removed t) b.transactions)
          ≡ (if t.id == i then none else find_row i b.transactions)
    seen i = find_row-replace_row-removed i (removed t) b.transactions refl

    absent :
        (i : ℕ)
        → find_row i b.transactions ≡ none
        → (if t.id == i then none else find_row i b.transactions) ≡ none
    absent i e = elim (Bool-cases (t.id == i)) [ inl f ↦ rw f refl | inr f ↦ rw f e ]

    apart : (r : Transaction) → t.id ≢ r.id → (t.id == r.id) ≡ false
    apart r n = ground (arith, n)

-- Rewriting running balances keeps that.
Rewrites-Removes :
    {A : Type 0} (t : Transaction) (b₀ b : Db) (r : Result A × Db)
    → Rewrites b r
    → Removes t b₀ b
    → Ensures (λ _ b'. Removes t b₀ b') r
Rewrites-Removes t b₀ b r w k = rw w.result (
    Ensures-pure _ w.value _ (record {
      kept = (w.table, λ u. rw (w.sums u) (k.kept.1 u));
      gone = w.missing t.id k.gone;
      missing = λ i e. w.missing i (k.missing i e);
      others = λ s n h. w.stand s (k.others s n h);
    }))

normalize_wallet-Removes :
    (b₀ b : Db) (flag : Bool) (t : Transaction)
    → Removes t b₀ b
    → Ensures (λ _ b'. Removes t b₀ b') (normalize_wallet flag t b)
normalize_wallet-Removes b₀ b true t k =
    Ensures-continue (λ _ b'. Removes t b₀ b') _ _ _
      (Rewrites-Removes t b₀ b _ (normalize_after_date-Rewrites t.user t.submit_at b k.kept.0) k)
      λ ts b' k'. Ensures-pure _ tt b' k'
normalize_wallet-Removes b₀ b false t k = Ensures-pure _ tt b k

pub normalize_charges-Keeps :
    (b₀ b : Db) (u at source : ℕ)
    → Keeps b₀ tt b
    → Ensures (Keeps b₀) (normalize_charges_after_date u at source b)
normalize_charges-Keeps b₀ b u at source k =
    elim (normalize_charges_after_date-Rewrites u at source b k.0) [
      | inl e ↦ rw e (Ensures-err (Keeps b₀) _ b)
      | inr w ↦ Rewrites-Keeps b₀ b _ w k
    ]

normalize_charge-Removes :
    (b₀ b : Db) (s : TransactionSourceType) (t : Transaction)
    → Removes t b₀ b
    → Ensures (λ _ b'. Removes t b₀ b') (normalize_charge s t b)
unfolding continue_with
normalize_charge-Removes b₀ b TransactionSourceType.charging_service t k =
    elim (normalize_charges_after_date-Rewrites t.user t.submit_at t.source b k.kept.0) [
      | inl e ↦ rw e (Ensures-err _ _ b)
      | inr w ↦
          Ensures-continue (λ _ b'. Removes t b₀ b') _ _ _ (Rewrites-Removes t b₀ b _ w k)
            λ ts b' k'. Ensures-pure _ tt b' k'
    ]
normalize_charge-Removes b₀ b _ t k = Ensures-pure _ tt b k

pub do_remove_transaction-Removes :
    (t : Transaction) (flag normalize : Bool) (b : Db)
    → IsTable b
    → Stands b.transactions t
    → Ensures (λ _ b'. Removes t b b') (do_remove_transaction t flag normalize b)
unfolding do_remove_transaction
do_remove_transaction-Removes t flag normalize b d s =
    Ensures-continue (PaysBack t (neg (signed t.type t.source_type t.amount)) b) _ _ _
      (undo-Pays t.type t flag b)
      λ wallet b' p.
        Ensures-continue (λ _ b''. Removes t b b'') _ _ _ (save-removed-Removes t b b' d s p)
          λ t' b'' k.
            Ensures-continue (λ _ b''. Removes t b b'') _ _ _ (normalize_wallet-Removes b b'' _ t k)
              λ _ b3 k3.
                Ensures-continue (λ _ b''. Removes t b b'') _ _ _
                  (normalize_charge-Removes b b3 t.source_type t k3)
                  λ _ b4 k4. Ensures-pure _ t' b4 k4

pub found-Stands :
    (i : ℕ) (t : Transaction) (rows : List Transaction) → find_row i rows ≡ some t → Stands rows t
found-Stands i t rows e =
    let (same, live) = find_row-live i rows t e in
    record {
      old = t;
      found = subst (λ j. find_row j rows ≡ some t) (sym same) e;
      live = live;
      keeps = λ u. refl;
    }

-- The removal of a transaction of any type and source keeps the order of a table in order, and keeps
-- for every user the difference of the stored credit and the recorded transactions; one that is
-- refused changes nothing.
pub remove_transaction-Conserves :
    (id : ℕ) (b : Db) → IsTable b → Conserves b (remove_transaction id b)
unfolding remove_transaction
remove_transaction-Conserves id b d = elim (Option-cases (find_row id b.transactions)) [
  | inl e ↦ roll_back-Conserves b _ (rw e (Ensures-err (Keeps b) _ b))
  | inr (t, e) ↦ roll_back-Conserves b _ (
      rw e (
        Ensures-map _ (Keeps b) _
          (do_remove_transaction-Removes t true true b d (found-Stands id t b.transactions e))
          λ _ b' k. k.kept))
]
