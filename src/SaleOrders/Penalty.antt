-- ===== src/SaleOrders/Penalty.antt =====
-- `penaltyApply`: who stays longer than is fair pays for it with more uses of the service.
pub mod Once
pub mod Laws
use my_ng_platform.Prelude.{
  ℕ, zero, suc, ltb, ℤ, pos, ◌+ℤ◌, ◌-ℤ◌, ◌*ℤ◌, ltb_ℤ, leb_ℤ, eqb_ℤ, floor_div, ◌*◌, Bool, true,
  false, not, ◌&&◌, ◌||◌, Option, none, some, List, [], ◌∷◌, ◌++◌, ◌==◌, if◌then◌else◌,
}
use my_ng_platform.Store.{Error, Result, ok, err}

-- What a product says of its fair use: the minutes of a use, those that are tolerated, and whether a
-- penalty is asked; the price of a single session, if there is one, with its id; and the own price.
pub record FairUse : Type 0 where
  pub product : ℕ
  pub minutes : ℕ
  pub tolerated : ℕ
  pub penalized : Bool
  pub single : Option (ℕ × ℤ)
  pub price : ℤ

-- An item of the reception, with what is left of the service that it uses; `created_at` is in
-- minutes.
pub record UsedItem : Type 0 where
  pub id : ℕ
  pub use_of : FairUse
  pub quantity : ℤ
  pub persons : ℕ
  pub penalty_quantity : ℤ
  pub created_at : ℤ
  pub has_service : Bool
  pub remain_credit : ℤ
  pub duration : ℤ

-- An item of the request; a new one has the id 0. `unit_price` stands for the price and the amount.
pub record ItemDto : Type 0 where
  pub id : ℕ
  pub product : ℕ
  pub quantity : ℤ
  pub penalty_quantity : ℤ
  pub persons : ℕ
  pub unit_price : ℤ
  pub price_id : ℕ

-- The uses that `n` persons had in the minutes `diff` beyond the `uses` that they asked for. The time
-- beyond the fair one is a fraction over the persons. What is left of it is compared after the uses of
-- all persons are taken off.
unfoldable pub unfair_uses : ℕ → FairUse → ℤ → ℤ → ℤ
unfair_uses n f diff uses =
    let time = diff *ℤ pos n -ℤ pos f.minutes *ℤ uses in
    let count = floor_div time (n * f.minutes) *ℤ pos n in
    count
    +ℤ (if ltb_ℤ (pos (f.tolerated * n)) (time -ℤ count *ℤ pos (f.minutes * n))
        then pos n
        else pos 0)

-- Without persons the fraction is no number.
unfoldable pub less_penalties : ℕ → ℤ → ℤ → Option ℤ
less_penalties zero uses penalties = none
less_penalties (suc n) uses penalties = some (uses -ℤ penalties)

-- `calculateUnFairAmount`: the penalty at the minute `now`, where `penalties` are counted already.
unfoldable pub calculate_unfair_amount : ℤ → UsedItem → ℤ → Option ℤ
unfolding unfair_uses less_penalties
calculate_unfair_amount now i penalties =
    less_penalties i.persons
      (unfair_uses i.persons i.use_of (now -ℤ i.created_at) (i.quantity -ℤ i.penalty_quantity))
      penalties

-- The penalties of a product that are counted already.
unfoldable pub penalties_of : ℕ → List UsedItem → ℤ
penalties_of product [] = pos 0
penalties_of product (i ∷ is) =
    let rest = penalties_of product is in
    if i.use_of.product == product then i.penalty_quantity +ℤ rest else rest

abbrev pub is_positive : Option ℤ → Bool
is_positive none = false
is_positive (some a) = ltb_ℤ (pos 0) a

abbrev pub is_unfair : ℤ → List UsedItem → UsedItem → Bool
is_unfair now all i =
    ltb_ℤ (pos 0) (i.quantity -ℤ i.penalty_quantity)
    && i.use_of.penalized
    && ltb 0 i.use_of.minutes
    && is_positive (calculate_unfair_amount now i (penalties_of i.use_of.product all))

unfoldable pub filter_unfair : ℤ → List UsedItem → List UsedItem → List UsedItem
unfolding calculate_unfair_amount penalties_of
filter_unfair now all [] = []
filter_unfair now all (i ∷ is) =
    let rest = filter_unfair now all is in if is_unfair now all i then i ∷ rest else rest

-- `findUnFairSaleItems`
unfoldable pub find_unfair_sale_items : ℤ → List UsedItem → List UsedItem
unfolding filter_unfair
find_unfair_sale_items now is = filter_unfair now is is

-- `dto.items.find((el) => el.id === id)`, changed in place; `none` is the TypeError of a missing one.
unfoldable pub change_item : ℕ → (ItemDto → ItemDto) → List ItemDto → Option (List ItemDto)
change_item id f [] = none
change_item id f (d ∷ ds) =
    let rest = change_item id f ds in
    if d.id == id then some (f d ∷ ds) else elim rest [ none ↦ none | some ds' ↦ some (d ∷ ds') ]

abbrev pub add_penalty : ℤ → ItemDto → ItemDto
add_penalty a d = record d {
  quantity = d.quantity +ℤ a;
  penalty_quantity = d.penalty_quantity +ℤ a;
}

-- The penalty of the item `i` is set, out of what was loaded.
abbrev pub set_penalty : UsedItem → ℤ → ItemDto → ItemDto
set_penalty i a d = record d {
  quantity = a +ℤ i.quantity;
  penalty_quantity = i.penalty_quantity +ℤ a;
}

-- Without a service the quantity is added to, and the penalty is set.
abbrev pub charge_penalty : UsedItem → ℤ → ItemDto → ItemDto
charge_penalty i a d = record d {
  quantity = d.quantity +ℤ a;
  penalty_quantity = i.penalty_quantity +ℤ a;
}

-- `single.price || product.price`
abbrev pub single_price : FairUse → ℤ
single_price f = elim f.single [
  | none ↦ f.price
  | some (id, price) ↦ if eqb_ℤ price (pos 0) then f.price else price
]

abbrev pub single_id : FairUse → ℕ
single_id f = elim f.single [ none ↦ 0 | some (id, price) ↦ id ]

-- A single session, bought in place of what the service has not.
unfoldable pub new_penalty : UsedItem → ℤ → ItemDto
new_penalty i a = record {
  id = 0;
  product = i.use_of.product;
  quantity = a;
  penalty_quantity = a;
  persons = 1;
  unit_price = single_price i.use_of;
  price_id = single_id i.use_of;
}

-- A single session that was bought as a penalty before.
unfoldable pub find_penalty : ℕ → List UsedItem → Option UsedItem
find_penalty product [] = none
find_penalty product (i ∷ is) =
    if i.use_of.product == product
      && not i.has_service
      && eqb_ℤ (i.quantity -ℤ i.penalty_quantity) (pos 0)
    then some i
    else find_penalty product is

abbrev pub push_item : ItemDto → Option (List ItemDto) → Option (List ItemDto)
push_item d none = none
push_item d (some ds) = some (ds ++ (d ∷ []))

abbrev pub has_single : FairUse → Bool
has_single f = elim f.single [ none ↦ false | some s ↦ true ]

-- The branches of an item that uses a service.
unfoldable pub take_from_service :
    List UsedItem → UsedItem → ℤ → List ItemDto → Option (List ItemDto)
unfolding change_item new_penalty find_penalty
take_from_service all i a ds =
    if ltb_ℤ i.remain_credit a && has_single i.use_of && not (eqb_ℤ i.remain_credit (pos 0))
    then push_item (new_penalty i (a -ℤ i.remain_credit))
        (change_item i.id (add_penalty i.remain_credit) ds)
    else (if leb_ℤ a i.remain_credit
        then change_item i.id (set_penalty i a) ds
        else (if eqb_ℤ i.remain_credit (pos 0)
            then elim (find_penalty i.use_of.product all) [
              | none ↦ push_item (new_penalty i a) (change_item i.id (λ d. d) ds)
              | some p ↦ change_item p.id (add_penalty a) ds
            ]
            else some ds))

abbrev pub or_type_error : Option (List ItemDto) → Result (List ItemDto)
or_type_error none = err Error.type_error
or_type_error (some ds) = ok ds

-- One item of the loop, with its penalty.
unfoldable pub penalize : List UsedItem → UsedItem → ℤ → List ItemDto → Result (List ItemDto)
unfolding take_from_service change_item
penalize all i a ds =
    if i.has_service
    then (if ltb_ℤ i.remain_credit a && not (has_single i.use_of)
        then err Error.no_single_session
        else or_type_error (take_from_service all i a ds))
    else or_type_error (change_item i.id (charge_penalty i a) ds)

abbrev pub and_then :
    (List ItemDto → Result (List ItemDto)) → Result (List ItemDto) → Result (List ItemDto)
and_then f (ok ds) = f ds
and_then f (err e) = err e

-- The loop over the unfair items; each is one whose penalty is a number.
unfoldable pub penalize_each :
    ℤ → List UsedItem → List UsedItem → List ItemDto → Result (List ItemDto)
unfolding calculate_unfair_amount penalties_of penalize
penalize_each now all [] ds = ok ds
penalize_each now all (i ∷ is) ds =
    and_then (penalize_each now all is)
      (elim (calculate_unfair_amount now i (penalties_of i.use_of.product all)) [
        | none ↦ err Error.type_error
        | some a ↦ penalize all i a ds
      ])

-- The items that `penaltyApply` submits, if there is a penalty.
unfoldable pub penalty_items : ℤ → List UsedItem → List ItemDto → Option (Result (List ItemDto))
unfolding find_unfair_sale_items penalize_each
penalty_items now is ds = elim (find_unfair_sale_items now is) [
  | [] ↦ none
  | i ∷ us ↦ some (penalize_each now is (i ∷ us) ds)
]
