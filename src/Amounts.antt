-- ===== src/Amounts.antt =====
-- The amounts of a sale item and of an order: the getters of
-- automation/operational/entities/SaleItem.ts and SaleOrder.ts.
pub mod Laws
use my_ng_platform.Prelude.{
  ℤ, pos, ◌+ℤ◌, ◌-ℤ◌, ◌*ℤ◌, round_div, Bool, not, ◌&&◌, List, [], ◌∷◌, ◌==◌, if◌then◌else◌,
}
use my_ng_platform.Entities.{SaleItem, SaleOrder}

-- `Math.round` of a whole number is the number.
unfoldable pub final_amount_without_discount_and_tax : SaleItem → ℤ
final_amount_without_discount_and_tax i = i.amount *ℤ i.quantity -ℤ i.return_credit

unfoldable pub final_amount_without_tax : SaleItem → ℤ
final_amount_without_tax i = i.amount *ℤ i.quantity -ℤ (i.discount +ℤ i.return_credit)

-- `tax` is in hundredths of a percent, so the rate is `tax / 10000`.
unfoldable pub tax_amount : SaleItem → ℤ
unfolding final_amount_without_tax round_div
tax_amount i = round_div (final_amount_without_tax i *ℤ pos i.tax) 10_000

unfoldable pub total_amount : SaleItem → ℤ
unfolding final_amount_without_tax tax_amount
total_amount i = final_amount_without_tax i +ℤ tax_amount i

-- The items that an order sums: neither deleted nor a part of another item.
unfoldable pub counts : SaleItem → Bool
counts i = not i.deleted && i.parent == 0

unfoldable pub sum_items : (SaleItem → ℤ) → List SaleItem → ℤ
unfolding counts
sum_items f [] = pos 0
sum_items f (i ∷ is) = (if counts i then f i else pos 0) +ℤ sum_items f is

unfoldable pub total_discount : SaleOrder → ℤ
unfolding sum_items
total_discount o = sum_items (λ i. i.discount) o.items

unfoldable pub total_tax : SaleOrder → ℤ
unfolding sum_items tax_amount
total_tax o = sum_items tax_amount o.items

unfoldable pub get_total_amount : SaleOrder → ℤ
unfolding sum_items
get_total_amount o = sum_items (λ i. i.amount) o.items

unfoldable pub final_amount : SaleOrder → ℤ
unfolding sum_items total_amount
final_amount o = sum_items total_amount o.items

unfoldable pub order_balance : SaleOrder → ℤ
unfolding final_amount
order_balance o = final_amount o -ℤ o.settle_amount
