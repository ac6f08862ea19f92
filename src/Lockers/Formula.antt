-- ===== src/Lockers/Formula.antt =====
-- `pickLockerNumberBaseFormula`: lockers picked by a formula of two counters.
use my_ng_platform.Prelude.{
  ℕ, zero, suc, ◌+◌, ◌*◌, Bool, true, false, ◌||◌, Option, none, some, List, [], ◌∷◌, ◌++◌, ltb,
  length, ◌==◌, if◌then◌else◌,
}
use my_ng_platform.Store.{Error, Result, ok, err}
use my_ng_platform.Lockers.{LockerItem, Value, AutoAssignPolicy, number, other, thrown, on_result}

-- `saleUnit.autoAssignPolicy || '2*n+1+b'`; the name of the other policy is no formula.
unfoldable pub formula_of : AutoAssignPolicy → ℕ → ℕ → Value
formula_of AutoAssignPolicy.by_priority n b = thrown
formula_of AutoAssignPolicy.unset n b = number (2 * n + 1 + b)
formula_of (AutoAssignPolicy.by_formula f) n b = f n b

-- `freeLockerMap[number]`: of two lockers with one number the last is in the map.
unfoldable pub locker_at : ℕ → List LockerItem → Option LockerItem
locker_at k [] = none
locker_at k (i ∷ is) =
    let rest = locker_at k is in
    elim rest [ some j ↦ some j | none ↦ if i.locker_number == k then some i else none ]

-- `finds.find((e) => e.id === locker.id)`
unfoldable pub is_found : ℕ → List LockerItem → Bool
is_found id [] = false
is_found id (i ∷ is) = i.id == id || is_found id is

unfoldable pub max_number : List LockerItem → ℕ
max_number [] = 0
max_number (i ∷ is) =
    let rest = max_number is in if ltb rest i.locker_number then i.locker_number else rest

-- The body of the inner loop, once the formula has a value.
unfoldable pub pick : Value → List LockerItem → List LockerItem → Result (List LockerItem)
unfolding locker_at is_found
pick thrown free finds = err Error.invalid_formula
pick other free finds = ok finds
pick (number k) free finds = elim (locker_at k free) [
  | none ↦ ok finds
  | some i ↦ ok (if is_found i.id finds then finds else finds ++ (i ∷ []))
]

-- The inner loop, with `left` rounds to go: `n` runs up to the number of free lockers, and stops
-- as soon as enough are found.
unfoldable pub pick_row :
    (ℕ → ℕ → Value) → List LockerItem → ℕ → ℕ → ℕ → ℕ → List LockerItem → Result (List LockerItem)
unfolding pick
pick_row f free quantity b zero n finds = ok finds
pick_row f free quantity b (suc left) n finds = elim (ltb (length finds) quantity) [
  | true ↦
      on_result (λ finds'. pick_row f free quantity b left (suc n) finds') (pick (f n b) free finds)
  | false ↦ ok finds
]

-- The outer loop, with `left` rounds to go until `b` is the greatest number.
unfoldable pub pick_rows :
    (ℕ → ℕ → Value) → List LockerItem → ℕ → ℕ → ℕ → List LockerItem → Result (List LockerItem)
unfolding pick_row
pick_rows f free quantity zero b finds = ok finds
pick_rows f free quantity (suc left) b finds =
    elim (ltb b (length free) || ltb (length finds) quantity) [
      | true ↦
          on_result (λ finds'. pick_rows f free quantity left (suc b) finds')
            (pick_row f free quantity b (length free) 0 finds)
      | false ↦ ok finds
    ]

unfoldable pub pick_by_formula : (ℕ → ℕ → Value) → ℕ → List LockerItem → Result (List LockerItem)
unfolding pick_rows max_number
pick_by_formula f quantity free = pick_rows f free quantity (max_number free) 0 []
