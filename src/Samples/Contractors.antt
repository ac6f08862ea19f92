-- ===== src/Samples/Contractors.antt =====
-- Who earns from what the shop sells.
use my_ng_platform.Prelude.{
  ◌≡◌, refl, pos, true, false, none, some, [], ◌∷◌, arith, ◌+ℤ◌, ◌-ℤ◌, ◌*ℤ◌, round_div, floor_div,
}
use my_ng_platform.Amounts.{final_amount_without_discount_and_tax, final_amount_without_tax}
use my_ng_platform.Entities.{Product, SaleItem, SaleUnitType}
use my_ng_platform.Contractors.{
  ProductShare, ContractorDb, process_contractor_income, income_of, get_product_contractor,
  new_income, of_sale, share_of,
}
use my_ng_platform.Contractors.Laws.{IsDue, Each, process_contractor_income-IsDue}
use my_ng_platform.Samples.{service}

abbrev pub massage : Product
massage = record {
  id = 0;
  price = pos 100;
  discount = pos 0;
  tax = 0;
  duration = 30;
  has_price_list = false;
  price_list = [];
  category = 0;
  transferable_to_wallet = false;
  is_cash_back = false;
  has_contractor = true;
  has_partner = true;
  fair_use_time = 0;
  fair_use_limit_time = 0;
  exits_after_unfair_usage = false;
  schedules = [];
  sub_products = [];
}

abbrev masseur : ProductShare
masseur = record { product = 0; user = 7; percent = pos 30; amount = pos 2 }

abbrev firm : ContractorDb
firm = record { contractors = masseur ∷ []; partners = masseur ∷ []; incomes = [] }

-- One piece for 100, less 10.
abbrev session : SaleItem
session = record service {
  id = 0;
  type = SaleUnitType.service;
  credit = pos 0;
  discount = pos 10;
  contractor = 7;
}

process_contractor_income-IsDue_example :
    Each (IsDue session) (process_contractor_income firm massage none session false)
process_contractor_income-IsDue_example =
    process_contractor_income-IsDue firm massage session false (omega arith) (omega arith, tt) tt

-- 30 percent of 100 and of 90, and 2 for the piece.
income_run :
    process_contractor_income firm massage none session false
    ≡ some (record (new_income false masseur) {
      amount = pos 32;
      amount_after_discount = some (pos 29);
    })
unfolding process_contractor_income income_of get_product_contractor new_income of_sale share_of
    round_div floor_div final_amount_without_discount_and_tax final_amount_without_tax ◌+ℤ◌ ◌-ℤ◌
    ◌*ℤ◌
income_run = refl
