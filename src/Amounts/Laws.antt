-- ===== src/Amounts/Laws.antt =====
-- How the amounts of an order fit together.
use my_ng_platform.Prelude.{
  ℤ, ◌∙◌, ◌*ℤ◌, ◌+ℤ◌, ◌-ℤ◌, int_laws, List, [], ◌∷◌, ◌≡◌, refl, Bool-cases, inl, inr,
}
use my_ng_platform.Entities.{SaleItem, SaleOrder}
use my_ng_platform.Amounts.{
  counts, sum_items, total_amount, tax_amount, final_amount_without_tax,
  final_amount_without_discount_and_tax, final_amount, total_tax, total_discount, order_balance,
}

-- The amount of one item is its amount before the discount, less the discount, and its tax.
total_amount-parts :
    (i : SaleItem)
    → total_amount i ≡ final_amount_without_discount_and_tax i -ℤ i.discount +ℤ tax_amount i
unfolding total_amount final_amount_without_tax final_amount_without_discount_and_tax
total_amount-parts i = rw (take_both (i.amount *ℤ i.quantity) i.discount i.return_credit) refl
  where
    take_both : (p d r : ℤ) → p -ℤ (d +ℤ r) ≡ p -ℤ r -ℤ d
    take_both p d r = grind int_laws

regroup : (a d t x y z : ℤ) → a -ℤ d +ℤ t +ℤ (x -ℤ y +ℤ z) ≡ a +ℤ x -ℤ (d +ℤ y) +ℤ (t +ℤ z)
regroup a d t x y z =
    let e : a -ℤ d +ℤ (x -ℤ y) ≡ a +ℤ x -ℤ (d +ℤ y) = grind int_laws in
    swap_inner (a -ℤ d) t (x -ℤ y) z ∙ rw e refl
  where
    swap_inner : (p t q z : ℤ) → p +ℤ t +ℤ (q +ℤ z) ≡ p +ℤ q +ℤ (t +ℤ z)
    swap_inner p t q z = grind int_laws

sum_items-parts :
    (is : List SaleItem)
    → sum_items total_amount is
      ≡ sum_items final_amount_without_discount_and_tax is
        -ℤ sum_items (λ i. i.discount) is
        +ℤ sum_items tax_amount is
unfolding sum_items
sum_items-parts [] = grind int_laws
sum_items-parts (i ∷ is) = elim (Bool-cases (counts i)) [
  | inl e ↦ rw (e, total_amount-parts i, sum_items-parts is) (regroup _ _ _ _ _ _)
  | inr e ↦ rw e (grind (int_laws, sum_items-parts is))
]

-- What is left to pay of an order is the sum of its items before discount and tax, less the
-- discounts that the order shows, with the taxes that it shows, less what is settled.
pub order_balance-parts :
    (o : SaleOrder)
    → order_balance o
      ≡ sum_items final_amount_without_discount_and_tax o.items
        -ℤ total_discount o
        +ℤ total_tax o
        -ℤ o.settle_amount
unfolding order_balance final_amount total_discount total_tax
order_balance-parts o = rw (sum_items-parts o.items)
