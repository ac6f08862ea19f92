-- ===== src/Discounts.antt =====
-- Offered discounts: `getDiscountAmount` of crm/service/discount.service.ts.
pub mod Laws
use my_ng_platform.Prelude.{
  ℕ, ℤ, pos, ◌+ℤ◌, ◌*ℤ◌, ltb_ℤ, eqb_ℤ, suc, Bool, true, false, not, ◌&&◌, ◌||◌, Option, none, some,
  List, [], ◌∷◌, leb, ltb, ◌==◌, if◌then◌else◌,
}
use my_ng_platform.Clock.{Clock, day_of}
use my_ng_platform.Entities.{SaleItem, Transaction, TransactionType, TransactionSourceType}
use my_ng_platform.Amounts.{total_amount}
use my_ng_platform.Charging.{contains}

-- What a discount is restricted to; 0 is no restriction.
pub record DiscountItem : Type 0 where
  pub organization_unit : ℕ
  pub sale_unit : ℕ
  pub category : ℕ
  pub product : ℕ
  pub first : Bool

-- `start` and `expired` are days, 0 is no user, group, code or greatest value.
pub record OfferedDiscount : Type 0 where
  pub id : ℕ
  pub user : ℕ
  pub group : ℕ
  pub code : ℕ
  pub start : ℕ
  pub expired : ℕ
  pub is_percent : Bool
  pub amount : ℤ
  pub max_value : ℤ
  pub quantity : ℕ
  pub items : List DiscountItem

-- What the queries read beside the transactions: the discounts, the members of the groups, the
-- categories of the products, and the table of sale items.
pub record DiscountDb : Type 0 where
  pub discounts : List OfferedDiscount
  pub is_member : ℕ → ℕ → Bool
  pub category_of : ℕ → ℕ
  pub sale_items : List SaleItem

-- What a discount is asked for: the user, the organization unit, the sale unit, the date, and the
-- items of the order. `unit_loaded` says that these hold their sale unit as an object.
pub record Purchase : Type 0 where
  pub user : ℕ
  pub organization_unit : ℕ
  pub sale_unit : ℕ
  pub submit_at : ℕ
  pub transaction : ℕ
  pub items : List SaleItem
  pub unit_loaded : Bool

abbrev pub sale_unit_ids : Purchase → List ℕ
sale_unit_ids q = go q.items
  where
    go : List SaleItem → List ℕ
    go [] = q.sale_unit ∷ []
    go (i ∷ is) = i.sale_unit ∷ go is

unfoldable pub some_item : (SaleItem → Bool) → List SaleItem → Bool
some_item p [] = false
some_item p (i ∷ is) = p i || some_item p is

-- The user of a discount, or its code with its group.
unfoldable pub is_for : DiscountDb → ℕ → ℕ → OfferedDiscount → Bool
is_for d user code o =
    o.user == user
    || ((if code == 0 then not (o.code == 0) else o.code == code)
        && (o.group == 0 || d.is_member user o.group))

-- A column of the joined item that is NULL, or equal.
abbrev pub null_or_eq : ℕ → ℕ → Bool
null_or_eq a b = a == 0 || a == b

-- An earlier purchase that the item restricts to; the ids of the sale units of the order are taken
-- for the ids of its items.
unfoldable pub has_bought : DiscountDb → Purchase → DiscountItem → Bool
unfolding some_item contains
has_bought d q p =
    some_item
      (λ i.
        not i.deleted
        && i.user == q.user
        && null_or_eq p.product i.product
        && null_or_eq p.category i.category
        && null_or_eq p.sale_unit i.sale_unit
        && null_or_eq p.organization_unit i.organization_unit
        && not (contains i.id (sale_unit_ids q)))
      d.sale_items

-- The conditions on a joined item; for a discount without items every column is NULL, so that
-- `items.first IS FALSE` does not hold.
unfoldable pub admits : DiscountDb → Purchase → Bool → DiscountItem → Bool
unfolding has_bought
admits d q is_null p =
    null_or_eq p.organization_unit q.organization_unit
    && (p.sale_unit == 0 || contains p.sale_unit (sale_unit_ids q))
    && (p.category == 0 || some_item (λ i. d.category_of i.product == p.category) q.items)
    && (p.product == 0 || some_item (λ i. i.product == p.product) q.items)
    && ((not is_null && not p.first) || not (has_bought d q p))

abbrev pub no_item : DiscountItem
no_item = record { organization_unit = 0; sale_unit = 0; category = 0; product = 0; first = false }

unfoldable pub admitted : DiscountDb → Purchase → List DiscountItem → List DiscountItem
unfolding admits
admitted d q [] = []
admitted d q (p ∷ ps) = let rest = admitted d q ps in if admits d q false p then p ∷ rest else rest

-- The items of the discount that the query joins, or `none` if it finds no row.
unfoldable pub joined : DiscountDb → Purchase → List DiscountItem → Option (List DiscountItem)
unfolding admitted
joined d q [] = if admits d q true no_item then some [] else none
joined d q (p ∷ ps) = elim (admitted d q (p ∷ ps)) [ [] ↦ none | r ∷ rs ↦ some (r ∷ rs) ]

unfoldable pub find_discount :
    Clock
    → DiscountDb
    → ℕ
    → ℕ
    → Purchase
    → List OfferedDiscount
    → Option (OfferedDiscount × List DiscountItem)
unfolding joined is_for day_of
find_discount c d id code q [] = none
find_discount c d id code q (o ∷ os) =
    if o.id == id
    then (let day = day_of c q.submit_at in
        if is_for d q.user code o && leb o.start day && leb day o.expired
        then elim (joined d q o.items) [ none ↦ none | some ps ↦ some (o, ps) ]
        else none)
    else find_discount c d id code q os

abbrev pub is_discount : TransactionType → TransactionSourceType → Bool
is_discount TransactionType.settle TransactionSourceType.offered_discount = true
is_discount _ _ = false

-- How often the discount was used, the transaction itself left aside. The join names the entity and
-- no relation, so removed transactions count.
unfoldable pub used_count : ℕ → ℕ → List Transaction → ℕ
used_count id transaction [] = 0
used_count id transaction (t ∷ ts) =
    let rest = used_count id transaction ts in
    if t.source == id && is_discount t.type t.source_type && not (t.id == transaction)
    then suc rest
    else rest

-- An item of the discount fits a sold item. A sale unit that is an object equals no id.
unfoldable pub item_fits : DiscountDb → Purchase → SaleItem → DiscountItem → Bool
item_fits d q i p =
    (p.sale_unit == 0
      || (not q.unit_loaded && p.sale_unit == i.sale_unit)
      || p.sale_unit == q.sale_unit)
    && (p.category == 0 || p.category == d.category_of i.product || p.category == i.category)
    && (p.product == 0 || p.product == i.product)

unfoldable pub some_item_fits : DiscountDb → Purchase → SaleItem → List DiscountItem → Bool
unfolding item_fits
some_item_fits d q i [] = false
some_item_fits d q i (p ∷ ps) = item_fits d q i p || some_item_fits d q i ps

-- What the discount is a part of.
unfoldable pub discounted : DiscountDb → Purchase → List DiscountItem → List SaleItem → ℤ
unfolding some_item_fits total_amount
discounted d q ps [] = pos 0
discounted d q ps (i ∷ is) =
    (elim ps [
      | [] ↦ total_amount i
      | r ∷ rs ↦
          if ltb_ℤ (pos 0) (total_amount i) && some_item_fits d q i (r ∷ rs)
          then total_amount i
          else pos 0
    ])
    +ℤ discounted d q ps is

-- The value in hundredths: a percentage of the total up to the greatest value, or the amount.
unfoldable pub discount_hundredths : OfferedDiscount → ℤ → ℤ
discount_hundredths o total =
    if ltb_ℤ (pos 0) total
    then (if o.is_percent
        then (if not (eqb_ℤ o.max_value (pos 0))
              && ltb_ℤ (o.max_value *ℤ pos 100) (total *ℤ o.amount)
            then o.max_value *ℤ pos 100
            else total *ℤ o.amount)
        else o.amount *ℤ pos 100)
    else pos 0

-- `getDiscountAmount`; `none` is its null. Without sold items the query is no SQL and throws; the
-- caller throws at the null as well.
unfoldable pub get_discount_amount :
    Clock → DiscountDb → ℕ → ℕ → Purchase → List Transaction → Option (OfferedDiscount × ℤ)
unfolding find_discount used_count discounted discount_hundredths
get_discount_amount c d id code q ts = elim (find_discount c d id code q d.discounts) [
  | none ↦ none
  | some (o, ps) ↦
      if ltb (used_count o.id q.transaction ts) o.quantity
      then (let value = discount_hundredths o (discounted d q ps q.items) in
          if ltb_ℤ (pos 0) value then some (o, value) else none)
      else none
]
