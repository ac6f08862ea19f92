-- ===== src/Wallet/Normalize/Running.antt =====
-- What the recomputed balances are: sums over the rows up to each.
use my_ng_platform.Prelude.{
  ℕ, ◌≡◌, refl, ◌∙◌, ℤ, pos, ◌+ℤ◌, ◌-ℤ◌, int_laws, arith, true, false, not, ◌&&◌, ◌||◌, Option,
  none, some, List, [], ◌∷◌, All, Option-cases, inl, inr, ltb, ◌==◌,
}
use my_ng_platform.Entities.{Transaction, TransactionType, TransactionSourceType}
use my_ng_platform.Store.{Db}
use my_ng_platform.Wallet.Ledger.{share, signed}
use my_ng_platform.Wallet.Table.{IsTable}
use my_ng_platform.Wallet.Normalize.{
  is_settle, is_user_credit, is_wallet, precedes, sort_rows, select, last_before, rows_after,
  step_credit, run_credits, normalized,
}
use my_ng_platform.Wallet.Normalize.Order.{
  up_to, up_to-sort_rows, precedes_asym, precedes_irrefl, IsSorted, sort_rows-All,
  sort_rows-IsSorted, select-holds, select-IsDistinct,
}

signed_step :
    (type : TransactionType) (s : TransactionSourceType) (c a : ℤ)
    → (not (is_settle type) || is_user_credit s) ≡ true
    → elim type [ TransactionType.deposit ↦ c +ℤ a | _ ↦ c -ℤ a ] ≡ c +ℤ signed type s a
signed_step TransactionType.deposit s c a h = refl
signed_step TransactionType.withdraw s c a h = grind int_laws
signed_step TransactionType.settle TransactionSourceType.user_credit c a h = grind int_laws
signed_step TransactionType.settle _ c a h = absurd (ground (arith, h))

-- The loop adds what a row of the wallet is worth in the ledger.
step_credit-share :
    (u : ℕ) (c : ℤ) (t : Transaction) → is_wallet u t ≡ true → step_credit c t ≡ c +ℤ share u t
unfolding step_credit is_wallet share
step_credit-share u c t h =
    let own : (t.user == u) ≡ true = ground (arith, h) in
    let live : t.deleted ≡ false = ground (arith, h) in
    let kind : (not (is_settle t.type) || is_user_credit t.source_type) ≡ true =
      ground (arith, h) in
    rw (own, live) (signed_step t.type t.source_type c t.amount kind)

up_to-first :
    (u : ℕ) (t : Transaction) (rs : List Transaction)
    → All (λ r. precedes t r ≡ true) rs
    → up_to u t rs ≡ pos 0
unfolding up_to
up_to-first u t [] h = refl
up_to-first u t (r ∷ rs) (h, hs) = rw (h, up_to-first u t rs hs) (grind int_laws)

run_credits-later :
    (s : Transaction) (c : ℤ) (rs : List Transaction)
    → All (λ r. precedes s r ≡ true) rs
    → All (λ r. precedes s r ≡ true) (run_credits c rs)
unfolding run_credits precedes
run_credits-later s c [] h = tt
run_credits-later s c (r ∷ rs) (h, hs) = (h, run_credits-later s (step_credit c r) rs hs)

behind_first :
    (u : ℕ) (c : ℤ) (t : Transaction) (ts xs : List Transaction)
    → All (λ x. x.credit ≡ c +ℤ share u t +ℤ up_to u x ts) xs
    → All (λ x. precedes t x ≡ true) xs
    → All (λ x. x.credit ≡ c +ℤ up_to u x (t ∷ ts)) xs
unfolding up_to
behind_first u c t ts [] h k = tt
behind_first u c t ts (x ∷ xs) (h, hs) (k, ks) = (
  rw (precedes_asym t x k) (h ∙ regroup c (share u t) (up_to u x ts)),
  behind_first u c t ts xs hs ks,
)
  where
    regroup : (a b d : ℤ) → a +ℤ b +ℤ d ≡ a +ℤ (b +ℤ d)
    regroup a b d = grind int_laws

run_credits-up_to :
    (u : ℕ) (c : ℤ) (rs : List Transaction)
    → IsSorted rs
    → All (λ t. is_wallet u t ≡ true) rs
    → All (λ t. t.credit ≡ c +ℤ up_to u t rs) (run_credits c rs)
unfolding run_credits IsSorted up_to precedes
run_credits-up_to u c [] s w = tt
run_credits-up_to u c (t ∷ ts) (s, ss) (w, ws) =
    let e = step_credit-share u c t w in
    (
      first_row,
      behind_first u c t ts _ (rw (← e) (run_credits-up_to u (step_credit c t) ts ss ws))
          (run_credits-later t (step_credit c t) ts s),
    )
  where
    pad : (a b : ℤ) → a +ℤ b ≡ a +ℤ (b +ℤ pos 0)
    pad a b = grind int_laws

    first_row : step_credit c t ≡ c +ℤ up_to u (record t { credit = step_credit c t }) (t ∷ ts)
    first_row =
        let irr : precedes (record t { credit = step_credit c t }) t ≡ false = precedes_irrefl t in
        let rest = up_to-first u (record t { credit = step_credit c t }) ts s in
        rw (irr, rest) (step_credit-share u c t w ∙ pad c (share u t))

unsorted :
    (u : ℕ) (c : ℤ) (rs xs : List Transaction)
    → All (λ t. t.credit ≡ c +ℤ up_to u t (sort_rows rs)) xs
    → All (λ t. t.credit ≡ c +ℤ up_to u t rs) xs
unsorted u c rs [] h = tt
unsorted u c rs (x ∷ xs) (h, hs) = (rw (up_to-sort_rows u x rs) at h, unsorted u c rs xs hs)

of_wallet :
    (u since last : ℕ) (ts : List Transaction)
    → All (λ t. (is_wallet u t && ltb since t.submit_at && not (t.id == last)) ≡ true) ts
    → All (λ t. is_wallet u t ≡ true) ts
of_wallet u since last [] h = tt
of_wallet u since last (t ∷ ts) (h, hs) = (ground (arith, h), of_wallet u since last ts hs)

-- The balance that the wallet had before the rows that are computed again, and those rows as they
-- stand in the table.
abbrev pub start_of : Option Transaction → ℤ
start_of none = pos 0
start_of (some l) = l.credit

abbrev pub since_of : Option Transaction → ℕ
since_of none = 0
since_of (some l) = l.submit_at

abbrev pub id_of : Option Transaction → ℕ
id_of none = 0
id_of (some l) = l.id

abbrev pub later_rows : ℕ → Option Transaction → List Transaction → List Transaction
later_rows u last ts =
    select (λ t. is_wallet u t && ltb (since_of last) t.submit_at && not (t.id == id_of last)) ts

-- In a table in order, each row that `normalizeTransactionAfterDate` writes has as its credit the
-- balance of the last row before the date, 0 if there is none, plus what the later rows of the
-- wallet are worth in the ledger, up to that row by date and id.
pub normalized-Running :
    (u at : ℕ) (b : Db)
    → IsTable b
    → All
        (λ t.
          t.credit
          ≡ start_of (last_before (is_wallet u) at b.transactions)
            +ℤ up_to u t
                (later_rows u (last_before (is_wallet u) at b.transactions) b.transactions))
        (normalized u at b.transactions)
unfolding normalized rows_after
normalized-Running u at b d = elim (Option-cases (last_before (is_wallet u) at b.transactions)) [
  | inl e ↦ rw (normalized, e) (run none)
  | inr (l, e) ↦ rw (normalized, e) (run (some l))
]
  where
    run :
        (last : Option Transaction)
        → All
            (λ t. t.credit ≡ start_of last +ℤ up_to u t (later_rows u last b.transactions))
            (run_credits (start_of last) (sort_rows (later_rows u last b.transactions)))
    run last =
        let p = λ (t : Transaction).
          is_wallet u t && ltb (since_of last) t.submit_at && not (t.id == id_of last) in
        let rows = later_rows u last b.transactions in
        unsorted u (start_of last) rows _ (
          run_credits-up_to u (start_of last) (sort_rows rows)
            (sort_rows-IsSorted rows (select-IsDistinct p b.next_id b.transactions d))
            (sort_rows-All (λ t. is_wallet u t ≡ true) rows
              (of_wallet u (since_of last) (id_of last) rows (select-holds p b.transactions))))
