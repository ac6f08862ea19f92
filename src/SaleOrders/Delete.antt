-- ===== src/SaleOrders/Delete.antt =====
-- `delete`: an order, its items and its payments are removed, and what it used is given back.
pub mod Gather
pub mod Laws
pub mod Used
use my_ng_platform.Prelude.{
  ℕ, zero, suc, ltb, ℤ, pos, ◌+ℤ◌, ◌-ℤ◌, ltb_ℤ, eqb_ℤ, Bool, true, false, not, ◌&&◌, ◌||◌, Option,
  none, some, List, [], ◌∷◌, ◌++◌, map, ◌==◌, if◌then◌else◌,
}
use my_ng_platform.Charging.{contains}
use my_ng_platform.Entities.{
  Transaction, SaleOrder, SaleItem, SaleUnitType, Product, ContractorIncome, ReceptionLocker,
}
use my_ng_platform.Store.{
  Db, Error, Result, Action, ok, err, ◌>>=◌, ◌>>◌, pure, throw, throw_if, gets, modify, alter,
  atomically,
}
use my_ng_platform.Receptions.{is_open}
use my_ng_platform.Wallet.Normalize.{select}
use my_ng_platform.Wallet.Orders.{is_of_order, last_wallet, normalize_last, remove_all}

-- The `where` of the order: a reception that is open, or an order that is none.
abbrev pub is_removable : SaleOrder → Bool
is_removable o = not o.archived && (not o.is_reception || is_open o)

unfoldable pub find_removable : ℕ → List SaleOrder → Option SaleOrder
find_removable id [] = none
find_removable id (o ∷ os) = if o.id == id && is_removable o then some o else find_removable id os

unfoldable pub live_items : List SaleItem → List SaleItem
live_items [] = []
live_items (i ∷ is) = let rest = live_items is in if not i.deleted then i ∷ rest else rest

-- `deleteCronJob` of the scheduler, which is no part of the database; a job that is missing is caught.
unfoldable pub delete_cron_job : ℕ → Db → Db
delete_cron_job order b = record b { jobs = λ k. if k == order then false else b.jobs k }

-- `deleteSaleOrderJob` looks for an item whose unfair use ends the reception; an item before it that
-- has no product is a TypeError.
unfoldable pub stop_job : Db → ℕ → List SaleItem → Action (Unit {0})
unfolding delete_cron_job
stop_job d order [] = pure tt
stop_job d order (i ∷ is) = elim (d.products i.product) [
  | none ↦ throw Error.type_error
  | some p ↦
      if ltb 0 p.fair_use_time && p.exits_after_unfair_usage
      then modify (delete_cron_job order)
      else stop_job d order is
]

-- The lockers of the order are given back at once, outside the transaction.
unfoldable pub free_lockers : ℕ → List ReceptionLocker → List ReceptionLocker
free_lockers order [] = []
free_lockers order (l ∷ ls) =
    record l { deleted = l.deleted || l.reception == order } ∷ free_lockers order ls

unfoldable pub unlock : ℕ → Db → Db
unfolding free_lockers
unlock order b = record b { reception_lockers = free_lockers order b.reception_lockers }

-- A registered service with the credit that it is to have used.
pub record UsedCredit : Type 0 where
  pub service : ℕ
  pub used : ℤ

pub record Removal : Type 0 where
  pub services : List UsedCredit
  pub rooms : List ℕ

abbrev pub push_id : ℕ → List ℕ → List ℕ
push_id k ks = if k == 0 then ks else ks ++ (k ∷ [])

-- `item.registeredService.usedCredit -= item.quantity`: each item has a copy of its own, out of the
-- database `d` that the order was loaded from.
unfoldable pub push_service : Db → SaleItem → List UsedCredit → List UsedCredit
push_service d i us = elim (d.sale_items i.registered_service) [
  | none ↦ us
  | some r ↦
      if r.deleted
      then us
      else us ++ (record { service = r.id; used = r.used_credit -ℤ i.quantity } ∷ [])
]

abbrev pub is_service : SaleUnitType → Bool
is_service SaleUnitType.service = true
is_service _ = false

abbrev pub is_credit_type : SaleUnitType → Bool
is_credit_type SaleUnitType.credit = true
is_credit_type _ = false

-- The tests on the credit that was used, and what the item adds to what is gathered.
unfoldable pub gather_item : Db → SaleItem → Removal → Action Removal
unfolding push_service
gather_item d i r =
    if ltb_ℤ (pos 0) i.used_credit && is_service i.type
    then throw Error.unable_delete_service
    else (if ltb_ℤ (pos 0) i.used_credit && is_credit_type i.type
        then throw Error.unable_delete_credit
        else pure (record {
          services = if is_credit_type i.type then r.services else push_service d i r.services;
          rooms = push_id i.group_class_room r.rooms;
        }))

unfoldable pub find_cash_back : ℕ → List SaleOrder → Option SaleOrder
find_cash_back order [] = none
find_cash_back order (p ∷ ps) =
    if p.cash_back_parent == order then some p else find_cash_back order ps

-- The live items that are a cash back.
unfoldable pub items_of_cash_back : List SaleItem → List SaleItem
items_of_cash_back [] = []
items_of_cash_back (i ∷ is) =
    let rest = items_of_cash_back is in if not i.deleted && i.is_cash_back then i ∷ rest else rest

abbrev pub first_used : List SaleItem → Bool
first_used [] = false
first_used (i ∷ is) = not (eqb_ℤ i.used_credit (pos 0))

-- The orders of the user at the time of `o` that have a cash back among their items: whether there
-- is one, and whether one of them has used its first.
unfoldable pub cash_back_orders : SaleOrder → List SaleOrder → List SaleOrder
unfolding items_of_cash_back
cash_back_orders o [] = []
cash_back_orders o (p ∷ ps) =
    let rest = cash_back_orders o ps in
    if p.submit_at == o.submit_at && p.user == o.user
    then elim (items_of_cash_back p.items) [ [] ↦ rest | i ∷ is ↦ p ∷ rest ]
    else rest

unfoldable pub some_used : List SaleOrder → Bool
unfolding items_of_cash_back
some_used [] = false
some_used (p ∷ ps) = first_used (items_of_cash_back p.items) || some_used ps

abbrev pub refuse_left : List SaleOrder → Action (Unit {0})
refuse_left [] = pure tt
refuse_left (p ∷ ps) =
    throw (if some_used (p ∷ ps) then Error.cash_back_used else Error.cash_back_left)

-- The cash back that the item earned: it is removed by `delete`, unless some of it was used.
unfoldable pub remove_cash_back : (ℕ → Action Bool) → SaleOrder → Action (Unit {0})
unfolding find_cash_back live_items cash_back_orders some_used
remove_cash_back delete o b = elim (find_cash_back o.id b.orders) [
  | none ↦ refuse_left (cash_back_orders o b.orders) b
  | some p ↦ elim (live_items p.items) [
    | [] ↦ refuse_left (cash_back_orders o b.orders) b
    | i ∷ is ↦
        (if first_used (i ∷ is) then throw Error.cash_back_used else (delete p.id >> pure tt)) b
  ]
]

-- Whether an item earned a cash back; an item without a product is a TypeError where it is asked.
unfoldable pub check_item : (ℕ → Action Bool) → Db → SaleOrder → SaleItem → Action (Unit {0})
unfolding remove_cash_back
check_item delete d o i = if i.is_cash_back then pure tt else elim (d.products i.product) [
  | none ↦ throw Error.type_error
  | some p ↦ if p.is_cash_back then remove_cash_back delete o else pure tt
]

-- The loop over the items.
unfoldable pub gather :
    (ℕ → Action Bool) → Db → SaleOrder → List SaleItem → Removal → Action Removal
unfolding gather_item check_item
gather delete d o [] r = pure r
gather delete d o (i ∷ is) r =
    gather_item d i r >>= λ r'. check_item delete d o i >> gather delete d o is r'

abbrev pub set_used : ℤ → SaleItem → SaleItem
set_used used r = record r { used_credit = used }

-- The services are saved one after the other.
unfoldable pub save_services : List UsedCredit → (ℕ → Option SaleItem) → ℕ → Option SaleItem
save_services [] items = items
save_services (u ∷ us) items = save_services us (alter (set_used u.used) u.service items)

-- `filled + 1`, once for each room of the list.
unfoldable pub fill_rooms : List ℕ → (ℕ → ℤ) → ℕ → ℤ
unfolding contains
fill_rooms ks filled k = if contains k ks then filled k +ℤ pos 1 else filled k

abbrev pub ids_of : List SaleItem → List ℕ
ids_of is = map (λ i. i.id) is

unfoldable pub remove_incomes : List ℕ → List ContractorIncome → List ContractorIncome
unfolding contains
remove_incomes items [] = []
remove_incomes items (c ∷ cs) =
    record c { deleted = c.deleted || contains c.sale_item items } ∷ remove_incomes items cs

abbrev pub drop_item : SaleItem → SaleItem
drop_item i = record i { deleted = true }

unfoldable pub remove_items : List ℕ → (ℕ → Option SaleItem) → ℕ → Option SaleItem
remove_items [] items = items
remove_items (k ∷ ks) items = remove_items ks (alter drop_item k items)

unfoldable pub remove_order : ℕ → List SaleOrder → List SaleOrder
remove_order id [] = []
remove_order id (o ∷ os) = let rest = remove_order id os in if o.id == id then rest else o ∷ rest

-- What the transaction writes, before the payments and after them.
unfoldable pub save_given_back : List SaleItem → Removal → Db → Db
unfolding save_services fill_rooms remove_incomes
save_given_back is r b = record b {
  sale_items = save_services r.services b.sale_items;
  group_class_rooms = fill_rooms r.rooms b.group_class_rooms;
  incomes = remove_incomes (ids_of is) b.incomes;
}

unfoldable pub remove_rows : SaleOrder → List SaleItem → Db → Db
unfolding remove_items remove_order
remove_rows o is b = record b {
  sale_items = remove_items (ids_of is) b.sale_items;
  orders = remove_order o.id b.orders;
}

-- The payments `ts` of the order were loaded with it.
unfoldable pub write_removal : SaleOrder → List SaleItem → List Transaction → Removal → Action Bool
unfolding save_given_back remove_rows
write_removal o is ts r = atomically (
    modify (save_given_back is r)
    >> (remove_all false ts
        >> (normalize_last (last_wallet ts) >> (modify (remove_rows o is) >> pure true))))

-- Nothing is written by the transaction until the items are gathered; what the loop removes, it
-- removes in a transaction of its own.
unfoldable pub delete_found : (ℕ → Action Bool) → SaleOrder → Action Bool
unfolding live_items stop_job unlock gather write_removal
delete_found delete o d =
    let is = live_items o.items in
    (stop_job d o.id is
        >> (modify (unlock o.id)
            >> (gather delete d o is (record { services = []; rooms = [] })
                >>= write_removal o is (select (is_of_order [] o.id) d.transactions))))
      d

-- `fuel` bounds the depth of the cash backs of cash backs.
unfoldable pub delete : ℕ → ℕ → Action Bool
unfolding find_removable delete_found
delete zero id d = (err Error.too_deep, d)
delete (suc fuel) id d = elim (find_removable id d.orders) [
  | none ↦ (err Error.type_error, d)
  | some o ↦ delete_found (delete fuel) o d
]
