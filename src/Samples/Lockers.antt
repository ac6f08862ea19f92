-- ===== src/Samples/Lockers.antt =====
-- The lockers of a small club.
use my_ng_platform.Prelude.{
  ℕ, ◌≡◌, refl, true, false, some, List, [], ◌∷◌, ◌++◌, arith, ◌==◌, length,
}
use my_ng_platform.Store.{ok, err}
use my_ng_platform.Charging.{contains}
use my_ng_platform.Lockers.{
  LockerType, LockerItem, LockerDb, LockerLocation, AutoAssignPolicy, full_numbers, listed, numbers,
  on_result,
}
use my_ng_platform.Entities.{ReceptionLocker}
use my_ng_platform.Lockers.Formula.{formula_of, pick_by_formula}
use my_ng_platform.Lockers.Assign.{find_lockers_auto, assign_manual}
use my_ng_platform.Lockers.Distinct.{IsDistinct}
use my_ng_platform.Lockers.Picked.{Yields}
use my_ng_platform.Lockers.Laws.{AreFound, wanted, find_lockers_auto-AreFound}
use my_ng_platform.Lockers.Reach.{Returns}
use my_ng_platform.Lockers.Gives.{HasIds, pick_by_formula-length}
use my_ng_platform.Lockers.Manual.{held_numbers, held_numbers-assign_manual}

abbrev locker : ℕ → ℕ → LockerItem
locker id k = record {
  id = id;
  locker_number = k;
  priority = 0;
  type = LockerType.simple;
  status = true;
  location = 1;
}

abbrev lockers : List LockerItem
lockers = locker 1 4 ∷ locker 2 7 ∷ locker 3 9 ∷ []

abbrev held : ReceptionLocker
held = record { id = 1; reception = 6; locker = 7; deleted = false }

abbrev club : LockerDb
club = record { items = lockers; reception_lockers = held ∷ []; is_open = λ r. r == 6 }

abbrev wish : LockerLocation
wish = record { quantity = 2; location = some 1; lockers = [] }

find_lockers_auto-AreFound_example :
    Yields
      (AreFound
        (full_numbers club.is_open club.reception_lockers ++ listed (wish ∷ []))
        (wanted (wish ∷ [])))
      (find_lockers_auto club AutoAssignPolicy.unset (wish ∷ []))
unfolding IsDistinct
find_lockers_auto-AreFound_example =
    find_lockers_auto-AreFound club AutoAssignPolicy.unset (wish ∷ [])
      ((omega arith, (omega arith, tt)), ((omega arith, tt), (tt, tt)))

pick_by_formula-length_example :
    Returns
      (λ finds. length finds ≡ 2)
      (pick_by_formula (formula_of AutoAssignPolicy.unset) 2 lockers)
unfolding IsDistinct HasIds
pick_by_formula-length_example =
    pick_by_formula-length lockers 2 (omega arith) (omega arith)
      ((omega arith, (omega arith, tt)), ((omega arith, tt), (tt, tt)))
      ((omega arith, (omega arith, tt)), ((omega arith, tt), (tt, tt)))
      (omega arith, (omega arith, (omega arith, tt)))

held_numbers-assign_manual_example :
    held_numbers (assign_manual (some (held ∷ [])) (4 ∷ 7 ∷ [])) ≡ 4 ∷ 7 ∷ []
held_numbers-assign_manual_example =
    held_numbers-assign_manual (some (held ∷ [])) 4 (7 ∷ []) (refl, tt)

-- The 7 is held; the formula is at 4 in its second round and at 9 in a later one.
found_run :
    elim (find_lockers_auto club AutoAssignPolicy.unset (wish ∷ [])) [
      | ok found ↦ numbers found
      | err _ ↦ []
    ]
    ≡ 4 ∷ 9 ∷ []
unfolding find_lockers_auto contains on_result formula_of
found_run = refl
