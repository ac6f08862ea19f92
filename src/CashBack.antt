-- ===== src/CashBack.antt =====
-- The cash back of an order: automation/operational/service/cash-back.service.ts and
-- cash-back-service-generator.service.ts.
pub mod Laws
pub mod Rewards
use my_ng_platform.Prelude.{
  ℕ, ℤ, pos, ◌+ℤ◌, ◌*ℤ◌, eqb_ℤ, Bool, true, false, not, ◌&&◌, ◌||◌, Option, none, some, List, [],
  ◌∷◌, map, ◌==◌, if◌then◌else◌,
}
use my_ng_platform.Charging.{contains}
use my_ng_platform.Entities.{ProductPrice}

pub record CashBackProduct : Type 0 where
  pub id : ℕ
  pub is_cash_back : Bool
  pub is_gift_generator : Bool

-- An item of the order; days are counted from a fixed day.
pub record SoldItem : Type 0 where
  pub product : ℕ
  pub price_id : Option ℕ
  pub amount : ℤ
  pub duration : ℤ
  pub start : Option ℤ
  pub is_transfer : Bool

-- The rows of the two tables that are not removed.
pub record CashBackDb : Type 0 where
  pub products : List CashBackProduct
  pub prices : List ProductPrice

-- The order that is submitted, with its one item; `price` and `amount` are in hundredths.
pub record CashBackOrder : Type 0 where
  pub before_product : Option ℕ
  pub product : ℕ
  pub duration : ℤ
  pub price : ℤ
  pub amount : ℤ
  pub start : ℤ
  pub end : ℤ

unfoldable pub sold_products : List SoldItem → List ℕ
sold_products [] = []
sold_products (i ∷ is) =
    let rest = sold_products is in if not i.is_transfer then i.product ∷ rest else rest

-- The ids of the products that are found.
unfoldable pub cash_back_products : List ℕ → List CashBackProduct → List ℕ
unfolding contains
cash_back_products sold [] = []
cash_back_products sold (p ∷ ps) =
    let rest = cash_back_products sold ps in
    if contains p.id sold && p.is_cash_back then p.id ∷ rest else rest

unfoldable pub cash_back_items : List ℕ → List SoldItem → List SoldItem
unfolding contains
cash_back_items found [] = []
cash_back_items found (i ∷ is) =
    let rest = cash_back_items found is in if contains i.product found then i ∷ rest else rest

-- An undefined id is no condition.
abbrev pub asks_id : Option ℕ → ℕ → Bool
asks_id none b = true
asks_id (some a) b = a == b

-- One alternative of the query for the prices.
unfoldable pub is_priced : SoldItem → ProductPrice → Bool
is_priced i r = asks_id i.price_id r.id && eqb_ℤ i.amount r.price && eqb_ℤ i.duration r.duration

unfoldable pub some_priced : List SoldItem → ProductPrice → Bool
unfolding is_priced
some_priced [] r = false
some_priced (i ∷ is) r = is_priced i r || some_priced is r

unfoldable pub find_prices : List SoldItem → List ProductPrice → List ProductPrice
unfolding some_priced
find_prices is [] = []
find_prices is (r ∷ rs) =
    let rest = find_prices is rs in if some_priced is r then r ∷ rest else rest

abbrev pub has_price_id : Option ℕ → ℕ → Bool
has_price_id none b = false
has_price_id (some a) b = a == b

-- The item that a price is attributed to: the first one with its id.
unfoldable pub item_of : List SoldItem → ℕ → Option SoldItem
item_of [] id = none
item_of (i ∷ is) id = if has_price_id i.price_id id then some i else item_of is id

unfoldable pub find_generator : List CashBackProduct → Option ℕ
find_generator [] = none
find_generator (p ∷ ps) = if p.is_gift_generator then some p.id else find_generator ps

-- `createService`: the service that all cash backs are items of; the database chooses the id `fresh`.
unfoldable pub create_service : ℕ → CashBackDb → CashBackDb
create_service fresh d = record d {
  products = record { id = fresh; is_cash_back = false; is_gift_generator = true } ∷ d.products;
}

-- The days that `moment` reads: a missing start is today.
abbrev pub start_day : ℤ → Option SoldItem → ℤ
start_day today none = today
start_day today (some i) = elim i.start [ none ↦ today | some t ↦ t ]

abbrev pub product_of : Option SoldItem → Option ℕ
product_of none = none
product_of (some i) = some i.product

unfoldable pub new_cash_back : ℤ → ℕ → List SoldItem → ProductPrice → CashBackOrder
unfolding item_of
new_cash_back today service is r =
    let item = item_of is r.id in
    record {
      before_product = product_of item;
      product = service;
      duration = r.duration;
      price = r.price *ℤ r.percentage;
      amount = r.price *ℤ r.percentage;
      start = start_day today item;
      end = start_day today item +ℤ r.days;
    }

-- The payloads for the prices `rs`, once the service is there.
unfoldable pub submit_each :
    ℤ → ℕ → List SoldItem → List ProductPrice → CashBackDb → List CashBackOrder × CashBackDb
unfolding new_cash_back
submit_each today fresh is rs d = elim (find_generator d.products) [
  | none ↦ (map (new_cash_back today fresh is) rs, create_service fresh d)
  | some service ↦ (map (new_cash_back today service is) rs, d)
]

-- The rest of `createCashBack`, for the products that are found.
unfoldable pub give_back :
    ℤ → ℕ → List SoldItem → CashBackDb → List ℕ → List CashBackOrder × CashBackDb
unfolding cash_back_items find_prices submit_each
give_back today fresh items d [] = ([], d)
give_back today fresh items d (p ∷ ps) =
    let is = cash_back_items (p ∷ ps) items in
    submit_each today fresh is (find_prices is d.prices) d

-- `createCashBack`: the orders to submit.
unfoldable pub create_cash_back :
    ℤ → ℕ → List SoldItem → CashBackDb → List CashBackOrder × CashBackDb
unfolding cash_back_products sold_products give_back
create_cash_back today fresh items d =
    give_back today fresh items d (cash_back_products (sold_products items) d.products)
