-- ===== src/Items/Package/Laws.antt =====
-- The discounts of the items of a package add up to its own.
use my_ng_platform.Prelude.{
  ℕ, zero, suc, ℤ, pos, negsuc, neg, ◌+◌, ◌*◌, ◌<◌, ◌≡◌, refl, ap, ◌∙◌, ◌+ℤ◌, ◌-ℤ◌, ◌*ℤ◌, eqb_ℤ,
  int_laws, arith, false, Option, some, List, [], ◌∷◌, length,
}
use mathlib.Core.Path.{subst}
use native.Mathlib.Nat.{add-mul}
use my_ng_platform.Entities.{Product}
use my_ng_platform.Items.Requests.{SaleItemDto}
use my_ng_platform.Items.Package.{
  part_price, add_part, share_discount, share_by, calculate_discount_items,
}
use my_ng_platform.Items.Package.Fractions.{scale_add, Near, round_div-Near, cancel_le, pos_scale}

abbrev pub sum_discounts : List SaleItemDto → ℤ
sum_discounts [] = pos 0
sum_discounts (i ∷ is) = i.discount +ℤ sum_discounts is

Near-add : (m n : ℕ) (a b c d : ℤ) → Near m a b → Near n c d → Near (m + n) (a +ℤ c) (b +ℤ d)
Near-add m n a b c d h k = (grind (int_laws, h.0, k.0), grind (int_laws, h.1, k.1))

add_part-Near :
    (n : ℕ) (x : ℤ) (i : SaleItemDto)
    → 0 < n
    → Near n ((add_part n x i).discount *ℤ pos n) (i.discount *ℤ pos n +ℤ x)
unfolding add_part
add_part-Near n x i h = round_div-Near (i.discount *ℤ pos n +ℤ x) n h

Near-eq : (m n : ℕ) (a b a' b' : ℤ) → a' ≡ a → b' ≡ b → m ≡ n → Near n a b → Near m a' b'
Near-eq m n a b a' b' e f g h = rw (e, f, g) h

zero_right : (a : ℤ) → a +ℤ pos 0 ≡ a
zero_right a = grind int_laws

split_remain : (x y p q : ℤ) → x +ℤ y +ℤ q ≡ x +ℤ p +ℤ (y +ℤ (q -ℤ p))
split_remain x y p q = grind int_laws

share_discount-Near :
    (n : ℕ) (total remain : ℤ) (i : SaleItemDto) (is : List SaleItemDto)
    → 0 < n
    → Near
        (length (i ∷ is) * n)
        (sum_discounts (share_discount n total remain (i ∷ is)) *ℤ pos n)
        (sum_discounts (i ∷ is) *ℤ pos n +ℤ remain)
unfolding share_discount
share_discount-Near n total remain i [] h =
    Near-eq (1 * n) n _ _ _ _ (ap (λ x. x *ℤ pos n) (zero_right (add_part n remain i).discount))
      (ap (λ x. x *ℤ pos n +ℤ remain) (zero_right i.discount)) (omega arith)
      (add_part-Near n remain i h)
share_discount-Near n total remain i (j ∷ is) h =
    let partial = part_price i *ℤ total in
    let rest = share_discount n total (remain -ℤ partial) (j ∷ is) in
    Near-eq (suc (length (j ∷ is)) * n) (n + length (j ∷ is) * n) _ _ _ _
      (scale_add (add_part n partial i).discount (sum_discounts rest) n)
      (ap (λ x. x +ℤ remain) (scale_add i.discount (sum_discounts (j ∷ is)) n)
        ∙ split_remain (i.discount *ℤ pos n) (sum_discounts (j ∷ is) *ℤ pos n) partial remain)
      (omega (arith, add-mul 1 (length (j ∷ is)) n))
      (Near-add n (length (j ∷ is) * n) _ _ _ _ (add_part-Near n partial i h)
        (share_discount-Near n total (remain -ℤ partial) j is h))

-- Without the divisor.
Near-whole :
    (n m : ℕ) (a b c : ℤ)
    → Near (m * suc n) (a *ℤ pos (suc n)) (b *ℤ pos (suc n) +ℤ c *ℤ pos (suc n))
    → Near m a (b +ℤ c)
Near-whole n m a b c h = (
  cancel_le (a +ℤ a) (b +ℤ c +ℤ (b +ℤ c) +ℤ pos m) n
      (rw (scaled a, scaled_more (b +ℤ c), scale_add b c (suc n)) h.0),
  cancel_le (b +ℤ c +ℤ (b +ℤ c)) (a +ℤ a +ℤ pos m) n
      (rw (scaled (b +ℤ c), scaled_more a, scale_add b c (suc n)) h.1),
)
  where
    scaled : (x : ℤ) → (x +ℤ x) *ℤ pos (suc n) ≡ x *ℤ pos (suc n) +ℤ x *ℤ pos (suc n)
    scaled x = scale_add x x (suc n)

    scaled_more :
        (x : ℤ)
        → (x +ℤ x +ℤ pos m) *ℤ pos (suc n) ≡ x *ℤ pos (suc n) +ℤ x *ℤ pos (suc n) +ℤ pos (m * suc n)
    scaled_more x = rw (scale_add (x +ℤ x) (pos m) (suc n), scaled x, pos_scale m (suc n)) refl

-- The call returns items whose discounts add up to `total`, but for half of each item.
pub record IsShared (items : List SaleItemDto) (total : ℤ) (r : Option (List SaleItemDto))
    : Type 0 where
  pub shared : List SaleItemDto
  pub returns : r ≡ some shared
  pub near : Near (length items) (sum_discounts shared) total

share_by-IsShared :
    (price total : ℤ) (i : SaleItemDto) (is : List SaleItemDto)
    → eqb_ℤ price (pos 0) ≡ false
    → IsShared (i ∷ is) (sum_discounts (i ∷ is) +ℤ total) (share_by price total (i ∷ is))
unfolding share_by
share_by-IsShared (pos zero) total i is h = absurd (ground (arith, h))
share_by-IsShared (pos (suc n)) total i is h = record {
  shared = share_discount (suc n) total (total *ℤ pos (suc n)) (i ∷ is);
  returns = refl;
  near =
      Near-whole n (length (i ∷ is)) _ _ _
        (share_discount-Near (suc n) total (total *ℤ pos (suc n)) i is (omega arith));
}
share_by-IsShared (negsuc n) total i is h = record {
  shared = share_discount (suc n) (neg total) (total *ℤ pos (suc n)) (i ∷ is);
  returns = refl;
  near =
      Near-whole n (length (i ∷ is)) _ _ _
        (share_discount-Near (suc n) (neg total) (total *ℤ pos (suc n)) i is (omega arith));
}

-- Where a package has items whose discounts add up to its own, and its price less its own
-- discount is not 0, a discount of its sale that is not 0 is shared among the items: what they
-- get together differs from it by at most half for each item.
pub calculate_discount_items-IsShared :
    (i : SaleItemDto) (is : List SaleItemDto) (parent : SaleItemDto) (p : Product)
    → eqb_ℤ parent.discount (pos 0) ≡ false
    → eqb_ℤ (p.price -ℤ p.discount) (pos 0) ≡ false
    → sum_discounts (i ∷ is) ≡ p.discount
    → IsShared (i ∷ is) parent.discount (calculate_discount_items (i ∷ is) parent p)
unfolding calculate_discount_items
calculate_discount_items-IsShared i is parent p d n h =
    let e : sum_discounts (i ∷ is) +ℤ (parent.discount -ℤ p.discount) ≡ parent.discount =
      ap (λ x. x +ℤ (parent.discount -ℤ p.discount)) h ∙ restore p.discount parent.discount in
    rw d (
      subst
        (λ t.
          IsShared (i ∷ is) t
            (share_by (p.price -ℤ p.discount) (parent.discount -ℤ p.discount) (i ∷ is)))
        e (share_by-IsShared (p.price -ℤ p.discount) (parent.discount -ℤ p.discount) i is n))
  where
    restore : (x y : ℤ) → x +ℤ (y -ℤ x) ≡ y
    restore x y = grind int_laws
