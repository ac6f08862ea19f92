-- ===== src/Samples/SaleOrders.antt =====
-- Orders that are settled and removed.
use my_ng_platform.Prelude.{refl, pos, true, some, [], ◌∷◌, arith, ◌-ℤ◌, inl, inr}
use my_ng_platform.Store.{Db}
use my_ng_platform.Entities.{SaleOrder}
use my_ng_platform.Charging.{contains}
use my_ng_platform.Receptions.{select_orders}
use my_ng_platform.SaleOrders.Split.{split_payments}
use my_ng_platform.SaleOrders.Split.Laws.{IsSplit, split_payments-IsSplit}
use my_ng_platform.SaleOrders.Settle.{settle_multiple_sale_order}
use my_ng_platform.SaleOrders.Settle.Laws.{HasSettled, settle_multiple_sale_order-HasSettled}
use my_ng_platform.SaleOrders.Delete.{delete, find_removable, live_items, find_cash_back}
use my_ng_platform.SaleOrders.Delete.Laws.{IsRemoved, delete-IsRemoved}
use my_ng_platform.SaleOrders.Delete.Used.{IsRefused, delete-IsRefused}
use my_ng_platform.Samples.{env, cash, service, sold_order}
use my_ng_platform.Samples.Contractors.{massage}
use my_ng_platform.Samples.Orders.{sale, paid_shop}

-- An order of which 49 are left to pay, and one of 10.
abbrev small_order : SaleOrder
small_order = record sold_order { id = 10; total_amount = pos 10; settle_amount = pos 0 }

split_payments-IsSplit_example :
    IsSplit
      (sold_order ∷ small_order ∷ [])
      (cash ∷ cash ∷ cash ∷ [])
      (split_payments (sold_order ∷ small_order ∷ []) (cash ∷ cash ∷ cash ∷ []))
unfolding ◌-ℤ◌
split_payments-IsSplit_example =
    split_payments-IsSplit (sold_order ∷ small_order ∷ []) (cash ∷ cash ∷ cash ∷ [])
      (omega arith, (omega arith, tt)) (omega arith, (omega arith, (omega arith, tt)))

settle_multiple_sale_order-HasSettled_example :
    HasSettled paid_shop
      (split_payments (select_orders (λ o. contains o.id (9 ∷ [])) paid_shop.orders) (cash ∷ [])).0
      (settle_multiple_sale_order env sale (9 ∷ []) (cash ∷ []) paid_shop)
settle_multiple_sale_order-HasSettled_example =
    settle_multiple_sale_order-HasSettled env sale (9 ∷ []) (cash ∷ []) paid_shop
      (omega arith, (omega arith, (omega arith, omega arith))) (refl, tt)

-- An order of which nothing was used.
abbrev unused : SaleOrder
unused = record sold_order { items = record service { used_credit = pos 0 } ∷ [] }

abbrev spa : Db
spa = record paid_shop { orders = unused ∷ []; products = λ _. some massage }

delete-IsRemoved_example : IsRemoved spa unused (delete 1 9 spa)
unfolding find_removable live_items
delete-IsRemoved_example =
    delete-IsRemoved 0 9 spa unused (omega arith, (omega arith, (omega arith, omega arith))) refl
      (inr (massage, refl, refl), tt)

-- The order 11 is the cash back of the order 9, and was used.
abbrev bonus : SaleOrder
bonus = record sold_order { id = 11; cash_back_parent = 9; items = service ∷ [] }

abbrev rewarding : Db
rewarding = record paid_shop {
  orders = bonus ∷ unused ∷ [];
  products = λ _. some (record massage { is_cash_back = true });
}

delete-IsRefused_example : IsRefused rewarding unused (delete 1 9 rewarding)
unfolding find_removable live_items find_cash_back
delete-IsRefused_example =
    delete-IsRefused 0 9 rewarding unused refl
      (record { order = bonus; item = service; items = []; found = refl; sold = refl; used = refl })
      (inl (record {
        product = record massage { is_cash_back = true };
        own = refl;
        found = refl;
        earns = refl;
      }))
