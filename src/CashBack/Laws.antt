-- ===== src/CashBack/Laws.antt =====
-- Who earns a cash back, and how much.
use my_ng_platform.Prelude.{Some, ℕ, ◌≡◌, refl, true, Option, none, some, ℤ, ◌+ℤ◌, ◌*ℤ◌, List}
use my_ng_platform.Entities.{ProductPrice}
use my_ng_platform.CashBack.{
  CashBackProduct, SoldItem, CashBackOrder, asks_id, has_price_id, new_cash_back,
}

-- A product of the shop that gives a cash back.
pub record GivesCashBack (id : ℕ) (p : CashBackProduct) : Type 0 where
  pub same : id ≡ p.id
  pub gives : p.is_cash_back ≡ true

-- The item earns by the price: its product gives a cash back, and it has the amount and the duration
-- of the price, and its id, unless it has no price id.
pub record Earns (products : List CashBackProduct) (r : ProductPrice) (i : SoldItem) : Type 0 where
  pub product : Some (GivesCashBack i.product) products
  pub id : asks_id i.price_id r.id ≡ true
  pub amount : i.amount ≡ r.price
  pub duration : i.duration ≡ r.duration

-- The item has the id of the price, and its product gives a cash back.
pub record IsOfPrice (products : List CashBackProduct) (r : ProductPrice) (i : SoldItem)
    : Type 0 where
  pub product : Some (GivesCashBack i.product) products
  pub id : has_price_id i.price_id r.id ≡ true

-- The order is worth the percentage of the price, and may be used for the days of the price.
pub record IsWorth (r : ProductPrice) (o : CashBackOrder) : Type 0 where
  pub price : o.price ≡ r.price *ℤ r.percentage
  pub amount : o.amount ≡ r.price *ℤ r.percentage
  pub duration : o.duration ≡ r.duration
  pub end : o.end ≡ o.start +ℤ r.days

-- The product that the order names is that of an item with the id of the price; where it names none,
-- an item without a price id earns it.
abbrev Names : List CashBackProduct → List SoldItem → ProductPrice → Option ℕ → Type 0
Names products items r none = Some (λ i. Earns products r i × (i.price_id ≡ none)) items
Names products items r (some p) = Some (λ i. (i.product ≡ p) × IsOfPrice products r i) items

pub record IsBacked (products : List CashBackProduct) (items : List SoldItem) (o : CashBackOrder)
    (r : ProductPrice) : Type 0 where
  pub worth : IsWorth r o
  pub earned : Some (Earns products r) items
  pub named : Names products items r o.before_product

pub new_cash_back-IsWorth :
    (today : ℤ) (service : ℕ) (is : List SoldItem) (r : ProductPrice)
    → IsWorth r (new_cash_back today service is r)
unfolding new_cash_back
new_cash_back-IsWorth today service is r = record {
  price = refl;
  amount = refl;
  duration = refl;
  end = refl;
}
