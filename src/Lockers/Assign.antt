-- ===== src/Lockers/Assign.antt =====
-- `findLockersAuto`, `assign` and what they call.
use my_ng_platform.Prelude.{
  ℕ, ◌-◌, Bool, true, false, not, ◌&&◌, Option, none, some, List, [], ◌∷◌, ◌++◌, ltb, length, ◌==◌,
  if◌then◌else◌,
}
use my_ng_platform.Store.{Error, Result, ok, err}
use my_ng_platform.Charging.{contains}
use my_ng_platform.Lockers.{
  LockerItem, LockerDb, LockerLocation, AutoAssignPolicy, SaleUnit, full_numbers, free_items,
  sort_items, take, numbers, listed, on_result,
}
use my_ng_platform.Entities.{ReceptionLocker}
use my_ng_platform.Lockers.Formula.{formula_of, pick_by_formula}

-- Enough lockers were found, or none is given.
abbrev pub enough : ℕ → List LockerItem → Result (List LockerItem)
enough quantity found = if ltb (length found) quantity then err Error.no_open_locker else ok found

-- The lockers of one item, by the policy of the sale unit.
unfoldable pub find_item : AutoAssignPolicy → ℕ → List LockerItem → Result (List LockerItem)
unfolding sort_items pick_by_formula
find_item AutoAssignPolicy.by_priority quantity free =
    enough quantity (take quantity (sort_items (λ i. i.priority) free))
find_item policy quantity free = elim (sort_items (λ i. i.locker_number) free) [
  | [] ↦ err Error.no_open_locker
  | i ∷ is ↦ on_result (enough quantity) (pick_by_formula (formula_of policy) quantity (i ∷ is))
]

-- The loop over the items; `full` grows by the lockers that are found.
unfoldable pub find_items :
    AutoAssignPolicy → List LockerItem → List ℕ → List LockerLocation → Result (List LockerItem)
unfolding free_items find_item
find_items policy items full [] = ok []
find_items policy items full (w ∷ ws) = elim (ltb 0 w.quantity) [
  | false ↦ find_items policy items full ws
  | true ↦
      on_result
        (λ found.
          on_result (λ rest. ok (found ++ rest))
            (find_items policy items (full ++ numbers found) ws))
        (find_item policy w.quantity (free_items full w.location items))
]

unfoldable pub find_lockers_auto :
    LockerDb → AutoAssignPolicy → List LockerLocation → Result (List LockerItem)
unfolding find_items full_numbers listed
find_lockers_auto d policy ws =
    find_items policy d.items (full_numbers d.is_open d.reception_lockers ++ listed ws) ws

-- The old lockers of one location.
pub record LockerGroup : Type 0 where
  pub location : ℕ
  pub lockers : List ℕ

unfoldable pub add_to_group : LockerItem → List LockerGroup → List LockerGroup
add_to_group i [] = record { location = i.location; lockers = i.locker_number ∷ [] } ∷ []
add_to_group i (g ∷ gs) =
    let rest = add_to_group i gs in
    if g.location == i.location
    then record g { lockers = g.lockers ++ (i.locker_number ∷ []) } ∷ gs
    else g ∷ rest

unfoldable pub find_locker : ℕ → List ReceptionLocker → Option ReceptionLocker
find_locker k [] = none
find_locker k (r ∷ rs) = if r.locker == k then some r else find_locker k rs

abbrev pub is_held : List ReceptionLocker → ℕ → Bool
is_held olds k = elim (find_locker k olds) [ none ↦ false | some r ↦ true ]

unfoldable pub group : List ReceptionLocker → List LockerItem → List LockerGroup → List LockerGroup
unfolding add_to_group find_locker
group olds [] gs = gs
group olds (i ∷ is) gs =
    group olds is (if is_held olds i.locker_number then add_to_group i gs else gs)

-- `prepareOldLockersData`: each group has its own location, so their order plays no part.
unfoldable pub prepare_old_lockers_data : LockerDb → List ReceptionLocker → List LockerGroup
unfolding group sort_items
prepare_old_lockers_data d olds = group olds (sort_items (λ i. i.priority) d.items) []

abbrev pub is_location : Option ℕ → ℕ → Bool
is_location none l = false
is_location (some k) l = k == l

-- The first item of the group's location has the lockers of the group, and wants as many fewer.
unfoldable pub update_location : LockerGroup → List LockerLocation → List LockerLocation
update_location g [] = []
update_location g (w ∷ ws) =
    let rest = update_location g ws in
    if is_location w.location g.location
    then record w { lockers = take w.quantity g.lockers; quantity = w.quantity - length g.lockers }
      ∷ ws
    else w ∷ rest

unfoldable pub update_locations : List LockerGroup → List LockerLocation → List LockerLocation
unfolding update_location
update_locations [] ws = ws
update_locations (g ∷ gs) ws = update_locations gs (update_location g ws)

abbrev pub locker_ids : List LockerLocation → List ℕ
locker_ids [] = []
locker_ids (w ∷ ws) = w.lockers ++ locker_ids ws

-- Those that are not among the ids are removed.
unfoldable pub keep_lockers : List ℕ → List ReceptionLocker → List ReceptionLocker
unfolding contains
keep_lockers ids [] = []
keep_lockers ids (r ∷ rs) =
    (if contains r.locker ids then r else record r { deleted = true }) ∷ keep_lockers ids rs

abbrev pub new_locker : ℕ → ReceptionLocker
new_locker k = record { id = 0; reception = 0; locker = k; deleted = false }

abbrev pub new_lockers : List LockerItem → List ReceptionLocker
new_lockers [] = []
new_lockers (i ∷ is) = new_locker i.locker_number ∷ new_lockers is

unfoldable pub assign_auto :
    LockerDb
    → AutoAssignPolicy
    → Option (List ReceptionLocker)
    → List LockerLocation
    → Result (List ReceptionLocker)
unfolding find_lockers_auto
assign_auto d policy none ws =
    on_result (λ found. ok (new_lockers found)) (find_lockers_auto d policy ws)
assign_auto d policy (some olds) ws =
    let ws' = update_locations (prepare_old_lockers_data d olds) ws in
    on_result (λ found. ok (keep_lockers (locker_ids ws') olds ++ new_lockers found))
      (find_lockers_auto d policy ws')

-- The lockers that are asked for, those that are held already as they are.
unfoldable pub asked_lockers : List ReceptionLocker → List ℕ → List ReceptionLocker
unfolding find_locker
asked_lockers olds [] = []
asked_lockers olds (k ∷ ks) =
    elim (find_locker k olds) [ none ↦ new_locker k | some r ↦ r ] ∷ asked_lockers olds ks

-- Those that are held and not asked for, removed.
unfoldable pub removed_lockers : List ℕ → List ReceptionLocker → List ReceptionLocker
unfolding contains
removed_lockers ks [] = []
removed_lockers ks (r ∷ rs) =
    let rest = removed_lockers ks rs in
    if contains r.locker ks then rest else record r { deleted = true } ∷ rest

abbrev pub or_empty : Option (List ReceptionLocker) → List ReceptionLocker
or_empty none = []
or_empty (some olds) = olds

unfoldable pub assign_manual : Option (List ReceptionLocker) → List ℕ → List ReceptionLocker
unfolding asked_lockers removed_lockers
assign_manual olds [] = []
assign_manual olds (k ∷ ks) =
    removed_lockers (k ∷ ks) (or_empty olds) ++ asked_lockers (or_empty olds) (k ∷ ks)

-- `must` is `mustAssignAutomaticly`.
abbrev pub is_manual : Bool → Option Bool → Bool
is_manual auto none = not auto
is_manual auto (some must) = not auto && not must

unfoldable pub assign :
    LockerDb
    → SaleUnit
    → List ℕ
    → Option (List ReceptionLocker)
    → List LockerLocation
    → Option Bool
    → Result (List ReceptionLocker)
unfolding assign_manual assign_auto
assign d unit lockers olds ws must =
    if is_manual unit.auto_assign must
    then ok (assign_manual olds lockers)
    else assign_auto d unit.policy olds ws
