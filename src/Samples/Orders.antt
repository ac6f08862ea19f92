-- ===== src/Samples/Orders.antt =====
-- The payments of an order of the shop, and its discounts.
use my_ng_platform.Prelude.{
  ◌≡◌, refl, pos, neg, true, false, none, some, [], ◌∷◌, arith, ◌+ℤ◌, ◌-ℤ◌,
}
use my_ng_platform.Store.{Db, continue_with, find_row, replace_row, save, save_all}
use my_ng_platform.Entities.{TransactionType}
use my_ng_platform.Charging.{contains}
use my_ng_platform.Discounts.{DiscountDb, OfferedDiscount, Purchase, joined, some_item}
use my_ng_platform.Discounts.Laws.{is_purchase, joined-first_purchase}
use my_ng_platform.Wallet.Contract.{Ensures}
use my_ng_platform.Wallet.Credit.{do_transaction, allows, value_of, add_credit}
use my_ng_platform.Wallet.Settle.{after_settlement, after_settlements}
use my_ng_platform.Wallet.Normalize.{
  select, normalize_after_date, normalized, last_before, is_wallet, precedes, rows_after, sort_rows,
  insert_row, run_credits, step_credit,
}
use my_ng_platform.Wallet.Orders.{is_of_order, last_wallet, delete_all_by_order_id}
use my_ng_platform.Wallet.Orders.Laws.{Clears, delete_all_by_order_id-Clears}
use my_ng_platform.Wallet.SettleOrder.{
  Sale, settle_sale_order, settle_payments, settle_payment, find_payment, old_payments, pay,
  remove_dropped, is_asked, set_settled,
}
use my_ng_platform.Wallet.SettleOrder.Laws.{Settles, settle_sale_order-Settles}
use my_ng_platform.Samples.{env, shop, outcome, cash, out_of_wallet, service, sold_order, first_row}

-- A discount of 10 percent, up to 5, that is for no item in particular.
abbrev pub tenth : OfferedDiscount
tenth = record {
  id = 3;
  user = 1;
  group = 0;
  code = 0;
  start = 0;
  expired = 10;
  is_percent = true;
  amount = pos 10;
  max_value = pos 5;
  quantity = 1;
  items = [];
}

abbrev pub offers : DiscountDb
offers = record {
  discounts = tenth ∷ [];
  is_member = λ _ _. false;
  category_of = λ _. 0;
  sale_items = service ∷ [];
}

abbrev pub sale : Sale
sale = record { sale_unit = 1; discounts = offers; code_of = λ _. 0; unit_loaded = true }

abbrev purchase : Purchase
purchase = record {
  user = 1;
  organization_unit = 1;
  sale_unit = 5;
  submit_at = 500;
  transaction = 0;
  items = sold_order.items;
  unit_loaded = true;
}

-- The order of the shop has a payment of 30 in cash.
abbrev pub paid_shop : Db
paid_shop = record shop {
  orders = sold_order ∷ [];
  transactions =
      record first_row { id = 3; type = TransactionType.settle; order = 9; amount = pos 30 }
      ∷ shop.transactions;
  next_id = 4;
}

delete_all_by_order_id-Clears_example :
    Ensures
      (λ _ b'. Clears (select (is_of_order [] 9) paid_shop.transactions) paid_shop b')
      (delete_all_by_order_id [] true sold_order paid_shop)
delete_all_by_order_id-Clears_example =
    delete_all_by_order_id-Clears [] true sold_order paid_shop
      (omega arith, (omega arith, (omega arith, omega arith)))

settle_sale_order-Settles_example :
    Ensures
      (Settles sold_order paid_shop)
      (settle_sale_order env sale (cash ∷ out_of_wallet ∷ []) sold_order true paid_shop)
settle_sale_order-Settles_example =
    settle_sale_order-Settles env sale (cash ∷ out_of_wallet ∷ []) sold_order true paid_shop
      (omega arith, (omega arith, (omega arith, omega arith))) (refl, (refl, tt))

-- The service of the sale itself, which is sold at the sale unit 1, counts as an earlier purchase.
joined-first_purchase_example :
    joined offers
      (record purchase { sale_unit = 1; items = record service { sale_unit = 1 } ∷ [] })
      []
    ≡ none
unfolding some_item is_purchase contains
joined-first_purchase_example =
    joined-first_purchase offers
      (record purchase { sale_unit = 1; items = record service { sale_unit = 1 } ∷ [] }) refl

-- The saved payment of 30 in cash becomes one of 50 out of the wallet: the credit falls by 20 only.
edit_run :
    outcome (
      settle_sale_order env sale
        (record out_of_wallet { id = 3; amount = pos 50 } ∷ [])
        sold_order
        true
        paid_shop)
    ≡ some (pos 50)
unfolding settle_sale_order continue_with settle_payments settle_payment find_payment find_row
    old_payments select is_of_order pay do_transaction allows value_of add_credit neg ◌-ℤ◌ ◌+ℤ◌
    remove_dropped replace_row is_asked last_wallet save_all save set_settled after_settlements
    after_settlement normalize_after_date normalized last_before is_wallet precedes rows_after
    sort_rows insert_row run_credits step_credit
edit_run = refl
