-- ===== src/Lockers/Distinct.antt =====
-- Lists of lockers: what sorting, taking and filtering keep.
use my_ng_platform.Prelude.{
  ℕ, zero, suc, ◌≤◌, ◌≡◌, ◌≢◌, sym, true, false, Option, List, [], ◌∷◌, All, leb, length,
  Bool-cases, inl, inr, arith,
}
use my_ng_platform.Charging.{contains}
use my_ng_platform.Lockers.{
  LockerItem, is_simple, is_free, free_items, insert_item, sort_items, take,
}

unfoldable pub IsDistinct : List LockerItem → Type 0
IsDistinct [] = Unit
IsDistinct (i ∷ is) = All (λ j. i.locker_number ≢ j.locker_number) is × IsDistinct is

insert_item-All {κ} :
    (P : LockerItem → Type κ) (key : LockerItem → ℕ) (i : LockerItem) (js : List LockerItem)
    → P i
    → All P js
    → All P (insert_item key i js)
unfolding insert_item
insert_item-All P key i [] h hs = (h, tt)
insert_item-All P key i (j ∷ js) h (k, ks) = elim (Bool-cases (leb (key i) (key j))) [
  | inl e ↦ rw e (h, (k, ks))
  | inr e ↦ rw e (k, insert_item-All P key i js h ks)
]

pub sort_items-All {κ} :
    (P : LockerItem → Type κ) (key : LockerItem → ℕ) (is : List LockerItem)
    → All P is
    → All P (sort_items key is)
unfolding sort_items
sort_items-All P key [] h = tt
sort_items-All P key (i ∷ is) (h, hs) =
    insert_item-All P key i (sort_items key is) h (sort_items-All P key is hs)

insert_item-IsDistinct :
    (key : LockerItem → ℕ) (i : LockerItem) (js : List LockerItem)
    → All (λ j. i.locker_number ≢ j.locker_number) js
    → IsDistinct js
    → IsDistinct (insert_item key i js)
unfolding insert_item IsDistinct
insert_item-IsDistinct key i [] n h = (tt, tt)
insert_item-IsDistinct key i (j ∷ js) (n, ns) (h, hs) = elim (Bool-cases (leb (key i) (key j))) [
  | inl e ↦ rw e ((n, ns), (h, hs))
  | inr e ↦ rw e (
    insert_item-All (λ k. j.locker_number ≢ k.locker_number) key i js (λ e. n (sym e)) h,
    insert_item-IsDistinct key i js ns hs,
  )
]

pub sort_items-IsDistinct :
    (key : LockerItem → ℕ) (is : List LockerItem) → IsDistinct is → IsDistinct (sort_items key is)
unfolding sort_items IsDistinct
sort_items-IsDistinct key [] h = tt
sort_items-IsDistinct key (i ∷ is) (h, hs) =
    insert_item-IsDistinct key i (sort_items key is)
      (sort_items-All (λ j. i.locker_number ≢ j.locker_number) key is h)
      (sort_items-IsDistinct key is hs)

pub take-All {κ} :
    (P : LockerItem → Type κ) (n : ℕ) (is : List LockerItem) → All P is → All P (take n is)
take-All P zero is h = tt
take-All P (suc n) [] h = tt
take-All P (suc n) (i ∷ is) (h, hs) = (h, take-All P n is hs)

pub take-IsDistinct : (n : ℕ) (is : List LockerItem) → IsDistinct is → IsDistinct (take n is)
unfolding IsDistinct
take-IsDistinct zero is h = tt
take-IsDistinct (suc n) [] h = tt
take-IsDistinct (suc n) (i ∷ is) (h, hs) =
    (take-All (λ j. i.locker_number ≢ j.locker_number) n is h, take-IsDistinct n is hs)

pub length-take : (n : ℕ) (is : List LockerItem) → length (take n is) ≤ n
length-take zero is = omega arith
length-take (suc n) [] = omega arith
length-take (suc n) (i ∷ is) = omega (arith, length-take n is)

-- A locker that may be given: simple, in use, and of a number that is not among `full`.
pub record IsFree (full : List ℕ) (i : LockerItem) : Type 0 where
  pub simple : is_simple i.type ≡ true
  pub in_use : i.status ≡ true
  pub open_number : contains i.locker_number full ≡ false

pub free_items-IsFree :
    (full : List ℕ) (l : Option ℕ) (is : List LockerItem) → All (IsFree full) (free_items full l is)
unfolding free_items is_free
free_items-IsFree full l [] = tt
free_items-IsFree full l (i ∷ is) = elim (Bool-cases (is_free full l i)) [
  | inl e ↦ rw e (
    record {
      simple = ground (arith, e);
      in_use = ground (arith, e);
      open_number = ground (arith, e);
    },
    free_items-IsFree full l is,
  )
  | inr e ↦ rw e (free_items-IsFree full l is)
]

free_items-All {κ} :
    (P : LockerItem → Type κ) (full : List ℕ) (l : Option ℕ) (is : List LockerItem)
    → All P is
    → All P (free_items full l is)
unfolding free_items
free_items-All P full l [] h = tt
free_items-All P full l (i ∷ is) (h, hs) = elim (Bool-cases (is_free full l i)) [
  | inl e ↦ rw e (h, free_items-All P full l is hs)
  | inr e ↦ rw e (free_items-All P full l is hs)
]

pub free_items-IsDistinct :
    (full : List ℕ) (l : Option ℕ) (is : List LockerItem)
    → IsDistinct is
    → IsDistinct (free_items full l is)
unfolding free_items IsDistinct
free_items-IsDistinct full l [] h = tt
free_items-IsDistinct full l (i ∷ is) (h, hs) = elim (Bool-cases (is_free full l i)) [
  | inl e ↦ rw e (
    free_items-All (λ j. i.locker_number ≢ j.locker_number) full l is h,
    free_items-IsDistinct full l is hs,
  )
  | inr e ↦ rw e (free_items-IsDistinct full l is hs)
]
