-- ===== src/Lockers/Laws.antt =====
-- The automatic assignment of lockers.
use my_ng_platform.Prelude.{
  ℕ, ◌+◌, ◌≤◌, ◌≡◌, ◌≢◌, refl, sym, ◌∙◌, Bool, true, false, ◌||◌, List, [], ◌∷◌, ◌++◌, All,
  All-append, All-map, length, Bool-cases, inl, inr, arith, ltb, ltb→le, ◌==◌,
}
use my_ng_platform.Store.{Error, err}
use my_ng_platform.Charging.{contains}
use my_ng_platform.Lockers.{
  LockerItem, LockerDb, LockerLocation, AutoAssignPolicy, full_numbers, free_items, numbers, listed,
  on_result,
}
use my_ng_platform.Lockers.Formula.{formula_of, pick_by_formula}
use my_ng_platform.Lockers.Assign.{enough, find_item, find_items, find_lockers_auto}
use my_ng_platform.Lockers.Distinct.{
  IsDistinct, IsFree, sort_items-All, sort_items-IsDistinct, take-All, take-IsDistinct, length-take,
  free_items-IsFree, free_items-IsDistinct,
}
use my_ng_platform.Lockers.Picked.{
  Yields, Yields-ok, Yields-err, Yields-on_result, IsPicked, IsPicked-All, pick_by_formula-IsPicked,
}

-- How many lockers the items want.
abbrev pub wanted : List LockerLocation → ℕ
wanted [] = 0
wanted (w ∷ ws) = w.quantity + wanted ws

-- As many lockers as are wanted, all of them free, no two with one number.
pub record AreFound (full : List ℕ) (count : ℕ) (found : List LockerItem) : Type 0 where
  pub amount : length found ≡ count
  pub free : All (IsFree full) found
  pub distinct : IsDistinct found

enough-AreFound :
    (full : List ℕ) (quantity : ℕ) (found : List LockerItem)
    → length found ≤ quantity
    → All (IsFree full) found
    → IsDistinct found
    → Yields (AreFound full quantity) (enough quantity found)
enough-AreFound full q found l f d = elim (Bool-cases (ltb (length found) q)) [
  | inl e ↦ rw e (Yields-err (AreFound full q) _)
  | inr e ↦ rw e (
      Yields-ok (AreFound full q) found
        (record { amount = omega (arith, ltb→le _ _ e); free = f; distinct = d }))
]

by_formula-AreFound :
    (full : List ℕ) (policy : AutoAssignPolicy) (quantity : ℕ) (free : List LockerItem)
    → All (IsFree full) free
    → Yields (AreFound full quantity) (elim free [
      | [] ↦ err Error.no_open_locker
      | i ∷ is ↦ on_result (enough quantity) (pick_by_formula (formula_of policy) quantity (i ∷ is))
    ])
by_formula-AreFound full policy q [] h = Yields-err (AreFound full q) _
by_formula-AreFound full policy q (i ∷ is) h =
    Yields-on_result (IsPicked (i ∷ is) q) (AreFound full q) _ _
      (pick_by_formula-IsPicked (formula_of policy) q (i ∷ is))
      λ found p.
        enough-AreFound full q found p.bounded
          (IsPicked-All (IsFree full) (i ∷ is) q found h p.chosen) p.distinct

find_item-AreFound :
    (full : List ℕ) (policy : AutoAssignPolicy) (quantity : ℕ) (free : List LockerItem)
    → All (IsFree full) free
    → IsDistinct free
    → Yields (AreFound full quantity) (find_item policy quantity free)
unfolding find_item
find_item-AreFound full AutoAssignPolicy.by_priority q free h d =
    enough-AreFound full q _ (length-take q _)
      (take-All (IsFree full) q _ (sort_items-All (IsFree full) (λ i. i.priority) free h))
      (take-IsDistinct q _ (sort_items-IsDistinct (λ i. i.priority) free d))
find_item-AreFound full AutoAssignPolicy.unset q free h d =
    by_formula-AreFound full AutoAssignPolicy.unset q _
      (sort_items-All (IsFree full) (λ i. i.locker_number) free h)
find_item-AreFound full (AutoAssignPolicy.by_formula f) q free h d =
    by_formula-AreFound full (AutoAssignPolicy.by_formula f) q _
      (sort_items-All (IsFree full) (λ i. i.locker_number) free h)

contains-append :
    (k : ℕ) (xs ys : List ℕ) → contains k (xs ++ ys) ≡ (contains k xs || contains k ys)
unfolding contains
contains-append k [] ys = refl
contains-append k (x ∷ xs) ys = rw (contains-append k xs ys) (or_assoc (k == x) _ _)
  where
    or_assoc : (a b c : Bool) → (a || (b || c)) ≡ ((a || b) || c)
    or_assoc true b c = refl
    or_assoc false b c = refl

or_false : (a b : Bool) → (a || b) ≡ false → (a ≡ false) × (b ≡ false)
or_false true b h = absurd (ground (arith, h))
or_false false b h = (refl, h)

narrow-IsFree : (full more : List ℕ) (i : LockerItem) → IsFree (full ++ more) i → IsFree full i
narrow-IsFree full more i f = record {
  simple = f.simple;
  in_use = f.in_use;
  open_number = (or_false _ _ (sym (contains-append i.locker_number full more) ∙ f.open_number)).0;
}

unlisted :
    (full more : List ℕ) (is : List LockerItem)
    → All (IsFree (full ++ more)) is
    → All (λ i. contains i.locker_number more ≡ false) is
unlisted full more [] h = tt
unlisted full more (i ∷ is) (h, hs) = (
  (or_false _ _ (sym (contains-append i.locker_number full more) ∙ h.open_number)).1,
  unlisted full more is hs,
)

differs_each :
    (i : LockerItem) (is ys : List LockerItem)
    → All (λ y. contains y.locker_number (numbers (i ∷ is)) ≡ false) ys
    → All (λ y. i.locker_number ≢ y.locker_number) ys
      × All (λ y. contains y.locker_number (numbers is) ≡ false) ys
unfolding contains
differs_each i is [] h = (tt, tt)
differs_each i is (y ∷ ys) (h, hs) =
    let (d, ds) = differs_each i is ys hs in
    ((λ e. ground (arith, h, e), d), (ground (arith, h), ds))

append-IsDistinct :
    (xs ys : List LockerItem)
    → IsDistinct xs
    → IsDistinct ys
    → All (λ y. contains y.locker_number (numbers xs) ≡ false) ys
    → IsDistinct (xs ++ ys)
unfolding IsDistinct
append-IsDistinct [] ys d e h = e
append-IsDistinct (x ∷ xs) ys (d, ds) e h =
    let (n, ns) = differs_each x xs ys h in
    (All-append (λ j. x.locker_number ≢ j.locker_number) xs ys d n, append-IsDistinct xs ys ds e ns)

length-append : (xs ys : List LockerItem) → length (xs ++ ys) ≡ length xs + length ys
length-append [] ys = omega arith
length-append (x ∷ xs) ys = omega (arith, length-append xs ys)

no_items : IsDistinct []
unfolding IsDistinct
no_items = tt

find_items-AreFound :
    (policy : AutoAssignPolicy) (items : List LockerItem) (full : List ℕ) (ws : List LockerLocation)
    → IsDistinct items
    → Yields (AreFound full (wanted ws)) (find_items policy items full ws)
unfolding find_items
find_items-AreFound policy items full [] d =
    Yields-ok (AreFound full 0) [] (record { amount = refl; free = tt; distinct = no_items })
find_items-AreFound policy items full (w ∷ ws) d = elim (Bool-cases (ltb 0 w.quantity)) [
  | inr e ↦
      let none_wanted : w.quantity + wanted ws ≡ wanted ws = omega (arith, ltb→le _ _ e) in
      rw (find_items, e) (rw none_wanted (find_items-AreFound policy items full ws d))
  | inl e ↦
      rw (find_items, e)
        (Yields-on_result (AreFound full w.quantity) (AreFound full (w.quantity + wanted ws)) _ _
          (find_item-AreFound full policy w.quantity (free_items full w.location items)
            (free_items-IsFree full w.location items)
            (free_items-IsDistinct full w.location items d))
          λ found p.
            Yields-on_result (AreFound (full ++ numbers found) (wanted ws))
              (AreFound full (w.quantity + wanted ws)) _ _
              (find_items-AreFound policy items (full ++ numbers found) ws d)
              λ rest q. Yields-ok (AreFound full (w.quantity + wanted ws)) (found ++ rest) (record {
                amount = length-append found rest ∙ omega (arith, p.amount, q.amount);
                free = All-append (IsFree full) found rest p.free (
                    All-map (IsFree (full ++ numbers found)) (IsFree full) rest
                      (narrow-IsFree full (numbers found)) q.free);
                distinct =
                    append-IsDistinct found rest p.distinct q.distinct
                      (unlisted full (numbers found) rest q.free);
              }))
]

-- Of lockers with different numbers, an automatic assignment that finds any gives exactly as many
-- as the items want: simple lockers in use, whose numbers no open reception holds and no item
-- lists, no two with one number. Otherwise it throws.
pub find_lockers_auto-AreFound :
    (d : LockerDb) (policy : AutoAssignPolicy) (ws : List LockerLocation)
    → IsDistinct d.items
    → Yields
        (AreFound (full_numbers d.is_open d.reception_lockers ++ listed ws) (wanted ws))
        (find_lockers_auto d policy ws)
unfolding find_lockers_auto
find_lockers_auto-AreFound d policy ws h =
    find_items-AreFound policy d.items (full_numbers d.is_open d.reception_lockers ++ listed ws) ws
      h
