-- ===== src/Items/Package/Fractions.antt =====
-- Whole numbers over a divisor.
use my_ng_platform.Prelude.{
  ℕ, suc, ℤ, pos, negsuc, pos_part, neg_part, ◌+◌, ◌-◌, ◌*◌, ◌/◌, ◌%◌, ◌<◌, ◌≡◌, ap, sym, ◌∙◌, ◌+ℤ◌,
  ◌*ℤ◌, ◌≤ℤ◌, floor_div, round_div, int_laws, eq_of_parts, +ℤ_parts, times_parts, arith,
}
use native.Mathlib.Nat.{mod-add-div, mod-lt, add-mul, mul-add, le_of_mul-le-mul_right}

add-mul_three : (a b c k : ℕ) → (a + b + c) * k ≡ a * k + b * k + c * k
add-mul_three a b c k = omega (arith, add-mul (a + b) c k, add-mul a b k)

pub scale_add : (a b : ℤ) (k : ℕ) → (a +ℤ b) *ℤ pos k ≡ a *ℤ pos k +ℤ b *ℤ pos k
scale_add a b k =
    let s : (pos_part (a +ℤ b) + neg_part a + neg_part b) * k
        ≡ (neg_part (a +ℤ b) + pos_part a + pos_part b) * k =
      ap (λ x. x * k) (+ℤ_parts a b) in
    eq_of_parts _ _ (
      omega (
        arith,
        s,
        add-mul_three (pos_part (a +ℤ b)) (neg_part a) (neg_part b) k,
        add-mul_three (neg_part (a +ℤ b)) (pos_part a) (pos_part b) k,
        times_parts (a +ℤ b) k,
        times_parts a k,
        times_parts b k,
        +ℤ_parts (a *ℤ pos k) (b *ℤ pos k),
      ))

floor_div-fact : (a : ℤ) (d : ℕ) → 0 < d → (r : ℕ) × (r < d) × (a ≡ floor_div a d *ℤ pos d +ℤ pos r)
unfolding floor_div
floor_div-fact (pos n) d h =
    let q = pos (n / d) in
    let e =
      eq_of_parts (pos n) (q *ℤ pos d +ℤ pos (n % d))
        (omega (arith, mod-add-div n d, times_parts q d, +ℤ_parts (q *ℤ pos d) (pos (n % d)))) in
    (n % d, mod-lt n h, e)
floor_div-fact (negsuc n) d h =
    let q = negsuc (n / d) in
    let r = d - suc (n % d) in
    let e = eq_of_parts (negsuc n) (q *ℤ pos d +ℤ pos r) (
      omega (
        arith,
        mod-add-div n d,
        mod-lt n h,
        add-mul (n / d) 1 d,
        times_parts q d,
        +ℤ_parts (q *ℤ pos d) (pos r),
      )) in
    (r, omega arith, e)

twice : (a : ℤ) → pos 2 *ℤ a ≡ a +ℤ a
unfolding ◌*ℤ◌ ◌+ℤ◌
twice a = ground arith

-- `a` and `b` differ by at most half of `n`.
abbrev pub Near : ℕ → ℤ → ℤ → Type 0
Near n a b = (a +ℤ a ≤ℤ b +ℤ b +ℤ pos n) × (b +ℤ b ≤ℤ a +ℤ a +ℤ pos n)

scale_double : (f : ℤ) (d : ℕ) → f *ℤ pos (2 * d) ≡ f *ℤ pos d +ℤ f *ℤ pos d
scale_double f d = eq_of_parts _ _ (
    omega (
      arith,
      times_parts f (2 * d),
      times_parts f d,
      +ℤ_parts (f *ℤ pos d) (f *ℤ pos d),
      mul_double (pos_part f) d,
      mul_double (neg_part f) d,
    ))
  where
    mul_double : (x d : ℕ) → x * (2 * d) ≡ x * d + x * d
    mul_double x d = ap (λ y. x * y) (omega arith) ∙ mul-add x d d

Near-rest : (a x : ℤ) (d r : ℕ) → r < 2 * d → a +ℤ a +ℤ pos d ≡ x +ℤ x +ℤ pos r → Near d x a
Near-rest a x d r l e = (grind (int_laws, l, e), grind (int_laws, l, e))

pub round_div-Near : (a : ℤ) (d : ℕ) → 0 < d → Near d (round_div a d *ℤ pos d) a
unfolding round_div
round_div-Near a d h =
    let (r, l, e) = floor_div-fact (pos 2 *ℤ a +ℤ pos d) (2 * d) (omega (arith, h)) in
    let f = floor_div (pos 2 *ℤ a +ℤ pos d) (2 * d) in
    Near-rest a (f *ℤ pos d) d r l
      (ap (λ x. x +ℤ pos d) (sym (twice a)) ∙ e ∙ ap (λ x. x +ℤ pos r) (scale_double f d))

pub cancel_le : (a b : ℤ) (k : ℕ) → a *ℤ pos (suc k) ≤ℤ b *ℤ pos (suc k) → a ≤ℤ b
cancel_le a b k h =
    le_of_mul-le-mul_right {k = suc k}
      (omega (
        arith,
        h,
        add-mul (pos_part a) (neg_part b) (suc k),
        add-mul (pos_part b) (neg_part a) (suc k),
        times_parts a (suc k),
        times_parts b (suc k),
      ))
      (omega arith)

pub pos_scale : (m k : ℕ) → pos m *ℤ pos k ≡ pos (m * k)
unfolding ◌*ℤ◌
pos_scale m k = ground arith
