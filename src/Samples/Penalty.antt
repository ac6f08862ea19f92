-- ===== src/Samples/Penalty.antt =====
-- A visitor who stays too long.
use my_ng_platform.Prelude.{
  ◌≡◌, refl, pos, true, false, some, [], ◌∷◌, ◌+ℤ◌, ◌-ℤ◌, ◌*ℤ◌, floor_div, inl, List,
}
use my_ng_platform.Store.{ok}
use my_ng_platform.SaleOrders.Penalty.{
  FairUse, UsedItem, ItemDto, calculate_unfair_amount, unfair_uses, less_penalties, penalties_of,
  is_unfair, penalize,
}
use my_ng_platform.SaleOrders.Penalty.Once.{penalized, penalized-is_unfair}
use my_ng_platform.SaleOrders.Penalty.Laws.{total_quantity, total_penalty, penalize-IsCharged}

-- An hour for each use, of which ten minutes more are tolerated.
abbrev pool : FairUse
pool = record {
  product = 3;
  minutes = 60;
  tolerated = 10;
  penalized = true;
  single = some (4, pos 50);
  price = pos 50;
}

abbrev swim : UsedItem
swim = record {
  id = 7;
  use_of = pool;
  quantity = pos 1;
  persons = 1;
  penalty_quantity = pos 0;
  created_at = pos 0;
  has_service = true;
  remain_credit = pos 1;
  duration = pos 60;
}

abbrev asked : ItemDto
asked = record {
  id = 7;
  product = 3;
  quantity = pos 1;
  penalty_quantity = pos 0;
  persons = 1;
  unit_price = pos 50;
  price_id = 4;
}

-- After 135 minutes, one more hour has begun, and another is more than ten minutes old.
swim_run : calculate_unfair_amount (pos 135) swim (pos 0) ≡ some (pos 2)
unfolding calculate_unfair_amount unfair_uses less_penalties floor_div ◌+ℤ◌ ◌-ℤ◌ ◌*ℤ◌
swim_run = refl

penalized-is_unfair_example :
    is_unfair (pos 135) (penalized (pos 2) swim ∷ []) (penalized (pos 2) swim) ≡ false
unfolding calculate_unfair_amount unfair_uses less_penalties floor_div ◌+ℤ◌ ◌-ℤ◌ ◌*ℤ◌ penalties_of
penalized-is_unfair_example =
    penalized-is_unfair (pos 135) (swim ∷ []) (penalized (pos 2) swim ∷ []) swim (pos 2) refl refl

penalize-IsCharged_example :
    (ds' : List ItemDto) × (penalize (swim ∷ []) swim (pos 2) (asked ∷ []) ≡ ok ds')
    × (total_quantity ds' ≡ total_quantity (asked ∷ []) +ℤ pos 2)
    × (total_penalty ds' ≡ total_penalty (asked ∷ []) +ℤ pos 2)
penalize-IsCharged_example =
    penalize-IsCharged (swim ∷ []) swim (pos 2) (asked ∷ []) refl (inl refl) (inl refl, tt)
      ((λ _. (refl, refl)), tt)
