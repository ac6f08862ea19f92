-- ===== src/Items/Package.antt =====
-- The discount of a package, shared among its items: `calculateDiscountItems` of
-- automation/operational/service/package-item.service.ts.
pub mod Fractions
pub mod Laws
use my_ng_platform.Prelude.{
  ℕ, zero, suc, ℤ, pos, negsuc, neg, ◌+ℤ◌, ◌-ℤ◌, ◌*ℤ◌, eqb_ℤ, round_div, Option, none, some, List,
  [], ◌∷◌, map, if◌then◌else◌,
}
use my_ng_platform.Entities.{Product}
use my_ng_platform.Contractors.{or_one}
use my_ng_platform.Items.Requests.{SaleItemDto}

-- `itemPrice`
unfoldable pub part_price : SaleItemDto → ℤ
part_price i = i.amount *ℤ or_one i.quantity -ℤ i.discount

-- A discount with the fraction `x` over `n` added, rounded.
unfoldable pub add_part : ℕ → ℤ → SaleItemDto → SaleItemDto
add_part n x i = record i { discount = round_div (i.discount *ℤ pos n +ℤ x) n }

-- The loop; the partial discounts and what remains of them are fractions over `n`.
unfoldable pub share_discount : ℕ → ℤ → ℤ → List SaleItemDto → List SaleItemDto
unfolding add_part part_price
share_discount n total remain [] = []
share_discount n total remain (i ∷ []) = add_part n remain i ∷ []
share_discount n total remain (i ∷ j ∷ is) =
    let partial = part_price i *ℤ total in
    add_part n partial i ∷ share_discount n total (remain -ℤ partial) (j ∷ is)

-- By the price of the package; by 0 there is no number, but the last item needs no division.
unfoldable pub share_by : ℤ → ℤ → List SaleItemDto → Option (List SaleItemDto)
unfolding share_discount
share_by (pos zero) total [] = some []
share_by (pos zero) total (i ∷ []) = some (record i { discount = i.discount +ℤ total } ∷ [])
share_by (pos zero) total (i ∷ j ∷ is) = none
share_by (pos (suc n)) total is = some (share_discount (suc n) total (total *ℤ pos (suc n)) is)
share_by (negsuc n) total is = some (share_discount (suc n) (neg total) (total *ℤ pos (suc n)) is)

abbrev pub no_discount : SaleItemDto → SaleItemDto
no_discount i = record i { discount = pos 0 }

-- `calculateDiscountItems`
unfoldable pub calculate_discount_items :
    List SaleItemDto → SaleItemDto → Product → Option (List SaleItemDto)
unfolding share_by
calculate_discount_items items parent p =
    if eqb_ℤ parent.discount (pos 0)
    then some (map no_discount items)
    else share_by (p.price -ℤ p.discount) (parent.discount -ℤ p.discount) items
