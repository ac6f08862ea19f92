-- ===== src/Wallet/Normalize/Order.antt =====
-- The order by date and id: sorting, and sums over the rows up to one.
use my_ng_platform.Prelude.{
  ℕ, suc, ◌≡◌, ◌≢◌, refl, ◌∙◌, ℤ, pos, ◌+ℤ◌, int_laws, arith, Bool, true, false, List, [], ◌∷◌, All,
  Bool-cases, inl, inr, ◌<◌, if◌then◌else◌,
}
use my_ng_platform.Entities.{Transaction}
use my_ng_platform.Wallet.Ledger.{share}
use my_ng_platform.Wallet.Table.{Descending}
use my_ng_platform.Wallet.Normalize.{precedes, insert_row, sort_rows, select}

-- What the rows up to `t`, by date and then by id, come to for the user `u`, in any order of rows.
unfoldable pub up_to : ℕ → Transaction → List Transaction → ℤ
unfolding precedes share
up_to u t [] = pos 0
up_to u t (r ∷ rs) = (if precedes t r then pos 0 else share u r) +ℤ up_to u t rs

up_to-insert_row :
    (u : ℕ) (t r : Transaction) (rs : List Transaction)
    → up_to u t (insert_row r rs) ≡ up_to u t (r ∷ rs)
unfolding up_to insert_row
up_to-insert_row u t r [] = refl
up_to-insert_row u t r (x ∷ xs) = elim (Bool-cases (precedes r x)) [
  | inl e ↦ rw e
  | inr e ↦ rw e (grind (int_laws, up_to-insert_row u t r xs))
]

pub up_to-sort_rows :
    (u : ℕ) (t : Transaction) (rs : List Transaction) → up_to u t (sort_rows rs) ≡ up_to u t rs
unfolding up_to sort_rows
up_to-sort_rows u t [] = refl
up_to-sort_rows u t (r ∷ rs) =
    up_to-insert_row u t r (sort_rows rs) ∙ rw (up_to-sort_rows u t rs) refl

unfoldable pub IsSorted : List Transaction → Type 0
IsSorted [] = Unit
IsSorted (t ∷ ts) = All (λ r. precedes t r ≡ true) ts × IsSorted ts

precedes_trans :
    (r s t : Transaction) → precedes r s ≡ true → precedes s t ≡ true → precedes r t ≡ true
unfolding precedes
precedes_trans r s t h k = ground arith

precedes_total : (s t : Transaction) → s.id ≢ t.id → precedes s t ≡ false → precedes t s ≡ true
unfolding precedes
precedes_total s t n h = ground arith

pub precedes_asym : (s t : Transaction) → precedes s t ≡ true → precedes t s ≡ false
unfolding precedes
precedes_asym s t h = ground arith

pub precedes_irrefl : (t : Transaction) → precedes t t ≡ false
unfolding precedes
precedes_irrefl t = ground arith

insert_row-All {ℓ} :
    (P : Transaction → Type ℓ) (t : Transaction) (rs : List Transaction)
    → P t
    → All P rs
    → All P (insert_row t rs)
unfolding insert_row
insert_row-All P t [] h hs = (h, tt)
insert_row-All P t (r ∷ rs) h (k, ks) = elim (Bool-cases (precedes t r)) [
  | inl e ↦ rw e (h, (k, ks))
  | inr e ↦ rw e (k, insert_row-All P t rs h ks)
]

pub sort_rows-All {ℓ} :
    (P : Transaction → Type ℓ) (rs : List Transaction) → All P rs → All P (sort_rows rs)
unfolding sort_rows
sort_rows-All P [] h = tt
sort_rows-All P (r ∷ rs) (h, hs) = insert_row-All P r (sort_rows rs) h (sort_rows-All P rs hs)

later_than_each :
    (s t : Transaction) (rs : List Transaction)
    → precedes s t ≡ true
    → All (λ r. precedes t r ≡ true) rs
    → All (λ r. precedes s r ≡ true) rs
later_than_each s t [] e h = tt
later_than_each s t (r ∷ rs) e (h, hs) = (precedes_trans s t r e h, later_than_each s t rs e hs)

insert_row-IsSorted :
    (t : Transaction) (rs : List Transaction)
    → All (λ r. t.id ≢ r.id) rs
    → IsSorted rs
    → IsSorted (insert_row t rs)
unfolding insert_row IsSorted
insert_row-IsSorted t [] n h = (tt, tt)
insert_row-IsSorted t (r ∷ rs) (n, ns) (h, hs) = elim (Bool-cases (precedes t r)) [
  | inl e ↦ rw e ((e, later_than_each t r rs e h), (h, hs))
  | inr e ↦ rw e (
    insert_row-All (λ x. precedes r x ≡ true) t rs (precedes_total t r n e) h,
    insert_row-IsSorted t rs ns hs,
  )
]

unfoldable pub IsDistinct : List Transaction → Type 0
IsDistinct [] = Unit
IsDistinct (t ∷ ts) = All (λ r. t.id ≢ r.id) ts × IsDistinct ts

pub sort_rows-IsSorted : (rs : List Transaction) → IsDistinct rs → IsSorted (sort_rows rs)
unfolding sort_rows IsSorted IsDistinct
sort_rows-IsSorted [] h = tt
sort_rows-IsSorted (r ∷ rs) (h, hs) =
    insert_row-IsSorted r (sort_rows rs) (sort_rows-All (λ x. r.id ≢ x.id) rs h)
      (sort_rows-IsSorted rs hs)

select-All {ℓ} :
    (P : Transaction → Type ℓ) (p : Transaction → Bool) (ts : List Transaction)
    → All P ts
    → All P (select p ts)
unfolding select
select-All P p [] h = tt
select-All P p (t ∷ ts) (h, hs) = elim (Bool-cases (p t)) [
  | inl e ↦ rw e (h, select-All P p ts hs)
  | inr e ↦ rw e (select-All P p ts hs)
]

pub select-holds :
    (p : Transaction → Bool) (ts : List Transaction) → All (λ t. p t ≡ true) (select p ts)
unfolding select
select-holds p [] = tt
select-holds p (t ∷ ts) = elim (Bool-cases (p t)) [
  | inl e ↦ rw e (e, select-holds p ts)
  | inr e ↦ rw e (select-holds p ts)
]

ids_above : (i n : ℕ) (ts : List Transaction) → Descending n ts → n < suc i → All (λ r. i ≢ r.id) ts
ids_above i n [] d h = tt
ids_above i n (t ∷ ts) (d, ds) h = (λ e. omega arith, ids_above i t.id ts ds (omega arith))

pub select-IsDistinct :
    (p : Transaction → Bool) (n : ℕ) (ts : List Transaction)
    → Descending n ts
    → IsDistinct (select p ts)
unfolding select IsDistinct
select-IsDistinct p n [] d = tt
select-IsDistinct p n (t ∷ ts) (d, ds) = elim (Bool-cases (p t)) [
  | inl e ↦ rw e (
    select-All (λ r. t.id ≢ r.id) p ts (ids_above t.id t.id ts ds (omega arith)),
    select-IsDistinct p t.id ts ds,
  )
  | inr e ↦ rw e (select-IsDistinct p t.id ts ds)
]
