-- ===== src/Samples/CashBack.antt =====
-- What the shop gives back.
use my_ng_platform.Prelude.{Some, refl, pos, true, false, some, [], ◌∷◌, inl}
use my_ng_platform.Entities.{ProductPrice}
use my_ng_platform.CashBack.{CashBackDb, SoldItem, create_cash_back, is_priced}
use my_ng_platform.CashBack.Laws.{IsWorth}
use my_ng_platform.CashBack.Rewards.{create_cash_back-Rewards}

abbrev season : ProductPrice
season = record {
  id = 4;
  product = 2;
  min = pos 90;
  price = pos 200;
  duration = pos 90;
  percentage = pos 15;
  days = pos 30;
}

abbrev gym : CashBackDb
gym = record {
  products = record { id = 2; is_cash_back = true; is_gift_generator = false } ∷ [];
  prices = season ∷ [];
}

abbrev subscription : SoldItem
subscription = record {
  product = 2;
  price_id = some 4;
  amount = pos 200;
  duration = pos 90;
  start = some (pos 10);
  is_transfer = false;
}

create_cash_back-Rewards_example :
    Some (IsWorth season) (create_cash_back (pos 9) 8 (subscription ∷ []) gym).0
unfolding is_priced
create_cash_back-Rewards_example =
    create_cash_back-Rewards (pos 9) 8 (subscription ∷ []) gym season (inl refl) (
      inl (record {
        sold = refl;
        product = inl (record { same = refl; gives = refl });
        price = refl;
      }))
