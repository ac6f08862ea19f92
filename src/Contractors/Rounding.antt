-- ===== src/Contractors/Rounding.antt =====
-- Shares of a price: a lower price gives no greater share.
use my_ng_platform.Prelude.{
  ℕ, ℤ, pos, negsuc, pos_part, neg_part, ◌+◌, ◌*◌, ◌≤◌, ◌+ℤ◌, ◌-ℤ◌, ◌*ℤ◌, ◌≤ℤ◌, floor_div,
  round_div, int_laws, times_parts, arith,
}
use native.Mathlib.Nat.{mul-le-mul_right}
use my_ng_platform.Amounts.{final_amount_without_discount_and_tax, final_amount_without_tax}
use my_ng_platform.Entities.{SaleItem}
use my_ng_platform.Contractors.{share_of}

scale : (a b : ℤ) (k : ℕ) → a ≤ℤ b → a *ℤ pos k ≤ℤ b *ℤ pos k
scale a b k h =
    let m : (pos_part a + neg_part b) * k ≤ (pos_part b + neg_part a) * k = mul-le-mul_right k h in
    omega (arith, m, times_parts a k, times_parts b k)

scale_up : (a b p : ℤ) → a ≤ℤ b → pos 0 ≤ℤ p → a *ℤ p ≤ℤ b *ℤ p
scale_up a b (pos k) h q = scale a b k h
scale_up a b (negsuc k) h q = absurd (omega (arith, q))

add_same : (a b c : ℤ) → a ≤ℤ b → a +ℤ c ≤ℤ b +ℤ c
add_same a b c h = grind (int_laws, h)

floor_div_200 : (a b : ℤ) → a ≤ℤ b → floor_div a 200 ≤ℤ floor_div b 200
unfolding floor_div
floor_div_200 (pos m) (pos n) h = omega (arith, h)
floor_div_200 (pos m) (negsuc n) h = absurd (omega (arith, h))
floor_div_200 (negsuc m) (pos n) h = omega arith
floor_div_200 (negsuc m) (negsuc n) h = omega (arith, h)

twice : (a b : ℤ) → a ≤ℤ b → pos 2 *ℤ a ≤ℤ pos 2 *ℤ b
unfolding ◌*ℤ◌
twice a b h = ground (arith, h)

double_up : (a b : ℤ) → a ≤ℤ b → pos 2 *ℤ a +ℤ pos 100 ≤ℤ pos 2 *ℤ b +ℤ pos 100
double_up a b h = add_same _ _ (pos 100) (twice a b h)

round_up : (a b : ℤ) → a ≤ℤ b → round_div a 100 ≤ℤ round_div b 100
unfolding round_div
round_up a b h = floor_div_200 _ _ (double_up a b h)

pub share_of-up :
    (f g percent pieces fixed : ℤ)
    → f ≤ℤ g
    → pos 0 ≤ℤ percent
    → share_of f percent pieces fixed ≤ℤ share_of g percent pieces fixed
unfolding share_of
share_of-up f g percent pieces fixed h p = round_up _ _ (add_same _ _ _ (scale_up f g percent h p))

pub less_discount :
    (i : SaleItem)
    → pos 0 ≤ℤ i.discount
    → final_amount_without_tax i ≤ℤ final_amount_without_discount_and_tax i
unfolding final_amount_without_tax final_amount_without_discount_and_tax
less_discount i h = less (i.amount *ℤ i.quantity) i.discount i.return_credit h
  where
    less : (x d r : ℤ) → pos 0 ≤ℤ d → x -ℤ (d +ℤ r) ≤ℤ x -ℤ r
    less x d r h = grind (int_laws, h)
