-- ===== src/Items/Prices.antt =====
-- The price of a product with a list of prices: `findPriceById` and `findPriceByDuration` of
-- automation/base/service/product.service.ts, and the choice between them.
use my_ng_platform.Prelude.{
  ℕ, pos, eqb_ℤ, not, ◌&&◌, Option, none, some, List, [], ◌∷◌, ◌==◌, if◌then◌else◌,
}
use my_ng_platform.Entities.{Product, ProductPrice}
use my_ng_platform.Items.Requests.{SaleItemDto}

unfoldable pub find_by_id : ℕ → List ProductPrice → Option ProductPrice
find_by_id id [] = none
find_by_id id (r ∷ rs) = if r.id == id then some r else find_by_id id rs

unfoldable pub find_by_min : ℕ → List ProductPrice → Option ProductPrice
find_by_min n [] = none
find_by_min n (r ∷ rs) = if eqb_ℤ r.min (pos n) then some r else find_by_min n rs

-- `findPriceById` and `findPriceByDuration` of automation/base/service/product.service.ts.
unfoldable pub find_price_by_id : ℕ → ℕ → List ProductPrice → Option ProductPrice
find_price_by_id product id [] = none
find_price_by_id product id (r ∷ rs) =
    if r.product == product && r.id == id then some r else find_price_by_id product id rs

unfoldable pub find_price_by_duration : ℕ → ℕ → List ProductPrice → Option ProductPrice
find_price_by_duration product n [] = none
find_price_by_duration product n (r ∷ rs) =
    if r.product == product && eqb_ℤ r.duration (pos n)
    then some r
    else find_price_by_duration product n rs

-- A product that was loaded without its prices asks the table.
unfoldable pub price_policy : List ProductPrice → Product → SaleItemDto → Option ProductPrice
unfolding find_by_id find_by_min find_price_by_id find_price_by_duration
price_policy prices p dto = elim p.price_list [
  | [] ↦
      if not (dto.price_id == 0)
      then find_price_by_id p.id dto.price_id prices
      else (if not (dto.duration == 0)
          then find_price_by_duration p.id dto.duration prices
          else none)
  | r ∷ rs ↦
      if not (dto.price_id == 0)
      then find_by_id dto.price_id (r ∷ rs)
      else (if not (dto.duration == 0) then find_by_min dto.duration (r ∷ rs) else none)
]
