-- ===== src/Lockers.antt =====
-- The assignment of lockers to receptions: automation/base/service/locker.service.ts.
pub mod Formula
pub mod Assign
pub mod Distinct
pub mod Picked
pub mod Laws
pub mod Reach
pub mod Gives
pub mod Manual
use my_ng_platform.Entities.{ReceptionLocker}
use my_ng_platform.Prelude.{
  ℕ, zero, suc, Bool, true, false, not, ◌&&◌, ◌||◌, Option, none, some, List, [], ◌∷◌, ◌++◌, leb,
  ltb, length, ◌==◌, if◌then◌else◌,
}
use my_ng_platform.Store.{Error, Result, ok, err}
use my_ng_platform.Charging.{contains}

pub data LockerType : Type 0 where
  simple vip : LockerType

-- `location` is the location of the locker's block, 0 if it has none.
pub record LockerItem : Type 0 where
  pub id : ℕ
  pub locker_number : ℕ
  pub priority : ℕ
  pub type : LockerType
  pub status : Bool
  pub location : ℕ

-- What an assignment reads: the lockers, the rows of the receptions, and which reception is open
-- (`end` is null).
pub record LockerDb : Type 0 where
  pub items : List LockerItem
  pub reception_lockers : List ReceptionLocker
  pub is_open : ℕ → Bool

-- How many lockers of a location a reception wants, and those that it has.
pub record LockerLocation : Type 0 where
  pub quantity : ℕ
  pub location : Option ℕ
  pub lockers : List ℕ

-- What `eval` makes of a formula at `n` and `b`: a number, another value, or an exception.
pub data Value : Type 0 where
  number : ℕ → Value
  other thrown : Value

pub data AutoAssignPolicy : Type 0 where
  by_priority unset : AutoAssignPolicy
  by_formula : (ℕ → ℕ → Value) → AutoAssignPolicy

pub record SaleUnit : Type 0 where
  pub auto_assign : Bool
  pub policy : AutoAssignPolicy

abbrev pub is_simple : LockerType → Bool
is_simple LockerType.simple = true
is_simple LockerType.vip = false

-- `getFullLockerNumber`: the numbers that open receptions hold.
unfoldable pub full_numbers : (ℕ → Bool) → List ReceptionLocker → List ℕ
full_numbers is_open [] = []
full_numbers is_open (r ∷ rs) =
    let rest = full_numbers is_open rs in
    if not r.deleted && is_open r.reception then r.locker ∷ rest else rest

-- `item?.lockerLocation`, where 0 is no location.
abbrev pub at_location : Option ℕ → LockerItem → Bool
at_location none i = true
at_location (some l) i = l == 0 || i.location == l

-- The `where` of the query of the free lockers.
unfoldable pub is_free : List ℕ → Option ℕ → LockerItem → Bool
unfolding contains
is_free full l i =
    is_simple i.type && i.status && not (contains i.locker_number full) && at_location l i

unfoldable pub free_items : List ℕ → Option ℕ → List LockerItem → List LockerItem
unfolding is_free
free_items full l [] = []
free_items full l (i ∷ is) =
    let rest = free_items full l is in if is_free full l i then i ∷ rest else rest

-- `order: { … : 'ASC' }`
unfoldable pub insert_item : (LockerItem → ℕ) → LockerItem → List LockerItem → List LockerItem
insert_item key i [] = i ∷ []
insert_item key i (j ∷ js) = if leb (key i) (key j) then i ∷ j ∷ js else j ∷ insert_item key i js

unfoldable pub sort_items : (LockerItem → ℕ) → List LockerItem → List LockerItem
unfolding insert_item
sort_items key [] = []
sort_items key (i ∷ is) = insert_item key i (sort_items key is)

abbrev pub take {ℓ} : {A : Type ℓ} → ℕ → List A → List A
take zero xs = []
take (suc n) [] = []
take (suc n) (x ∷ xs) = x ∷ take n xs

abbrev pub numbers : List LockerItem → List ℕ
numbers [] = []
numbers (i ∷ is) = i.locker_number ∷ numbers is

-- The numbers that the items list already, for those items that want a locker.
unfoldable pub listed : List LockerLocation → List ℕ
listed [] = []
listed (w ∷ ws) = if ltb 0 w.quantity then w.lockers ++ listed ws else listed ws

-- What follows a result.
unfoldable pub on_result : {A B : Type 0} → (A → Result B) → Result A → Result B
on_result f (ok a) = f a
on_result f (err e) = err e
