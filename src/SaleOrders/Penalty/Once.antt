-- ===== src/SaleOrders/Penalty/Once.antt =====
-- A penalty is asked once.
use my_ng_platform.Prelude.{
  ℕ, zero, suc, ◌≡◌, refl, ap, ℤ, pos, ◌+ℤ◌, ◌-ℤ◌, ltb_ℤ, ltb, int_laws, Bool, true, false, ◌&&◌,
  some, List,
}
use mathlib.Core.Option.{some-injective}
use my_ng_platform.SaleOrders.Penalty.{
  UsedItem, calculate_unfair_amount, penalties_of, is_unfair, less_penalties,
}

-- The item as it is after the penalty.
abbrev pub penalized : ℤ → UsedItem → UsedItem
penalized a i = record i { quantity = i.quantity +ℤ a; penalty_quantity = i.penalty_quantity +ℤ a }

same_uses : (q p a : ℤ) → (q +ℤ a) -ℤ (p +ℤ a) ≡ q -ℤ p
same_uses q p a = grind int_laws

rest_of : (c x a : ℤ) → c -ℤ x ≡ a → c -ℤ (x +ℤ a) ≡ pos 0
rest_of c x a e = grind (int_laws, e)

less_penalties-again :
    (n : ℕ) (c x a : ℤ) → less_penalties n c x ≡ some a → less_penalties n c (x +ℤ a) ≡ some (pos 0)
unfolding less_penalties
less_penalties-again zero c x a e = cc
less_penalties-again (suc n) c x a e = ap some (rest_of c x a (some-injective _ _ e))

calculate-penalized :
    (now : ℤ) (i : UsedItem) (x a : ℤ)
    → calculate_unfair_amount now i x ≡ some a
    → calculate_unfair_amount now (penalized a i) (x +ℤ a) ≡ some (pos 0)
unfolding calculate_unfair_amount
calculate-penalized now i x a e =
    rw (same_uses i.quantity i.penalty_quantity a) (less_penalties-again i.persons _ x a e)

-- A penalty is asked once: where the item and the penalties of its product have grown by it, the item
-- is fair at the same minute.
pub penalized-is_unfair :
    (now : ℤ) (all all' : List UsedItem) (i : UsedItem) (a : ℤ)
    → calculate_unfair_amount now i (penalties_of i.use_of.product all) ≡ some a
    → penalties_of i.use_of.product all' ≡ penalties_of i.use_of.product all +ℤ a
    → is_unfair now all' (penalized a i) ≡ false
penalized-is_unfair now all all' i a e h =
    rw (h, calculate-penalized now i (penalties_of i.use_of.product all) a e)
      (never (ltb_ℤ (pos 0) ((penalized a i).quantity -ℤ (penalized a i).penalty_quantity))
        i.use_of.penalized (ltb 0 i.use_of.minutes))
  where
    never : (x y z : Bool) → (x && y && z && false) ≡ false
    never true true true = refl
    never true true false = refl
    never true false z = refl
    never false y z = refl
