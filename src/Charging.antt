-- ===== src/Charging.antt =====
-- Services that hold a credit of their own, as a source of payment:
-- automation/operational/service/charging-service.service.ts.
use my_ng_platform.Prelude.{
  ℕ, ◌*◌, ℤ, pos, ◌+ℤ◌, ◌-ℤ◌, ltb_ℤ, eqb_ℤ, Bool, true, false, not, ◌&&◌, ◌||◌, Option, none, some,
  List, [], ◌∷◌, ltb, leb, ◌==◌, or_else, if◌then◌else◌,
}
use my_ng_platform.Clock.{Clock, day_of, second_of, iso_weekday, day_length}
use my_ng_platform.Entities.{
  SaleItem, SaleOrder, SaleUnitType, RegisteredServiceStatus, Product, SubProduct, Schedule,
}
use my_ng_platform.Amounts.{total_amount}
use my_ng_platform.Store.{Db}

unfoldable pub contains : ℕ → List ℕ → Bool
contains d [] = false
contains d (e ∷ es) = d == e || contains d es

-- `schedules.id IS NULL OR (days @> day AND from <= time AND to > time)`
unfoldable pub some_schedule : Clock → ℕ → List Schedule → Bool
unfolding contains second_of iso_weekday
some_schedule c t [] = false
some_schedule c t (s ∷ ss) =
    (contains (iso_weekday c t) s.days
      && leb s.from_time (second_of c t)
      && ltb (second_of c t) s.to_time)
    || some_schedule c t ss

unfoldable pub is_scheduled : Clock → ℕ → Product → Bool
unfolding some_schedule
is_scheduled c t p = elim p.schedules [ [] ↦ true | s ∷ ss ↦ some_schedule c t (s ∷ ss) ]

unfoldable pub find_order : ℕ → List SaleOrder → Option SaleOrder
find_order i [] = none
find_order i (o ∷ os) = if o.id == i then some o else find_order i os

-- `saleOrder.total_amount = saleOrder.settle_amount`
unfoldable pub is_settled : Db → SaleItem → Bool
unfolding find_order
is_settled b i = elim (find_order i.sale_order b.orders) [
  | none ↦ false
  | some o ↦ eqb_ℤ o.total_amount o.settle_amount
]

unfoldable pub is_credit : SaleItem → Bool
is_credit i =
    elim i.type [ SaleUnitType.credit ↦ true | _ ↦ false ]
    && elim i.status [ RegisteredServiceStatus.opened ↦ true | _ ↦ false ]

-- The `where` of the query of `getCharging`; the user is that of the transaction.
unfoldable pub can_charge : Clock → Db → ℕ → ℕ → Bool → SaleItem → Bool
unfolding is_settled is_credit is_scheduled day_of
can_charge c b user t from_guest i =
    let date = day_of c t * day_length in
    not i.deleted
    && (from_guest || (i.user == user && i.consumer == 0) || i.consumer == user)
    && is_settled b i
    && is_credit i
    && leb i.start date
    && leb date i.end_date
    && elim (b.products i.product) [ none ↦ true | some p ↦ is_scheduled c t p ]

unfoldable pub item_category : Db → SaleItem → ℕ
item_category b i = elim (b.products i.product) [
  | none ↦ i.category
  | some p ↦ or_else p.category i.category
]

-- One entry of `subProducts` fits an item that is sold at the unit `unit`. A sale unit that is an
-- object equals no id.
unfoldable pub fits : Db → ℕ → SaleItem → SubProduct → Bool
unfolding item_category
fits b unit i p =
    (p.sale_unit == 0 || (not i.unit_loaded && p.sale_unit == i.sale_unit) || p.sale_unit == unit)
    && (p.category == 0 || p.category == item_category b i)
    && (p.product == 0 || p.product == i.product)

unfoldable pub some_fits : Db → ℕ → SaleItem → List SubProduct → Bool
unfolding fits
some_fits b unit i [] = false
some_fits b unit i (p ∷ ps) = fits b unit i p || some_fits b unit i ps

-- The loop over the sold items: what the service may pay for.
unfoldable pub payable : Db → ℕ → List SubProduct → List SaleItem → ℤ
unfolding some_fits total_amount
payable b unit ps [] = pos 0
payable b unit ps (i ∷ is) =
    (if ltb_ℤ (pos 0) (total_amount i) && some_fits b unit i ps then total_amount i else pos 0)
    +ℤ payable b unit ps is

-- The service and what it can pay, or `none` for `[null, 0, '']`.
unfoldable pub amount_of : Db → ℕ → List SaleItem → SaleItem → ℤ
unfolding payable
amount_of b unit sold i =
    let remain = i.credit -ℤ i.used_credit in
    elim (b.products i.product) [
      | none ↦ remain
      | some p ↦ elim p.sub_products [
        | [] ↦ remain
        | q ∷ qs ↦
            if p.transferable_to_wallet
            then remain
            else (let total = payable b unit (q ∷ qs) sold in
                if ltb_ℤ total remain then total else remain)
      ]
    ]

unfoldable pub get_charging :
    Clock → ℕ → ℕ → ℕ → ℕ → List SaleItem → Bool → Db → Option (SaleItem × ℤ)
unfolding can_charge amount_of
get_charging c id user unit t sold from_guest b = elim (b.sale_items id) [
  | none ↦ none
  | some i ↦ if can_charge c b user t from_guest i then some (i, amount_of b unit sold i) else none
]

unfoldable pub get_charging_for_archived : ℕ → ℤ → Db → Option (SaleItem × ℤ)
unfolding is_settled
get_charging_for_archived id amount b = elim (b.sale_items id) [
  | none ↦ none
  | some i ↦ if not i.deleted && is_settled b i then some (i, amount) else none
]
