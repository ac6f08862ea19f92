-- ===== src/Samples/Items.antt =====
-- A credit for the sauna: thirty days, and one that was used.
use my_ng_platform.Prelude.{
  refl, ◌≡◌, pos, false, some, none, neg, ◌∷◌, [], ◌+ℤ◌, ◌-ℤ◌, ◌*ℤ◌, round_div, floor_div,
}
use my_ng_platform.Clock.{day_of}
use my_ng_platform.Amounts.{total_amount, tax_amount, final_amount_without_tax}
use my_ng_platform.Entities.{Product}
use my_ng_platform.Store.{ok}
use my_ng_platform.Items.Requests.{SellingUnit, SaleItemDto, SaleEnv}
use my_ng_platform.Items.Credit.{
  upsert, revise, item_or_new, new_item, with_penalty, with_start, with_end_date, check_end,
  moment_of, with_discount, charge_item, sell, price_item, with_price, with_final_price,
  with_last_day, duration_of, grant_credit, worth_of, check_total, with_partners, ◌>>=◌,
}
use my_ng_platform.Items.Credit.Holds.{Holds}
use my_ng_platform.Items.Credit.Used.{HasTerms, upsert-HasTerms}
use my_ng_platform.Items.Credit.Laws.{IsFit, upsert-IsFit}
use my_ng_platform.Items.Credit.Again.{upsert-again}
use my_ng_platform.Items.Package.{
  calculate_discount_items, share_by, share_discount, add_part, part_price,
}
use my_ng_platform.Items.Package.Laws.{IsShared, calculate_discount_items-IsShared}
use my_ng_platform.Samples.{service}
use my_ng_platform.Samples.Contractors.{massage}

abbrev sauna : Product
sauna = record massage { id = 3; has_partner = false; discount = pos 20 }

abbrev desk : SellingUnit
desk = record { id = 1; allow_discount = false }

abbrev reading : SaleEnv
reading = record {
  clock = record { now = 86_400_000; zone = 0 };
  prices = [];
  contractors = record { contractors = []; partners = []; incomes = [] };
  partners = [];
}

abbrev request : SaleItemDto
request = record {
  parent = 0;
  start = none;
  end_date = none;
  submit_at = 86_400_000;
  discount = pos 0;
  quantity = pos 1;
  price = none;
  amount = pos 0;
  credit = pos 0;
  used_credit = pos 0;
  price_id = 0;
  duration = 0;
  manual_price = false;
  is_transfer = false;
  is_gift = false;
  is_cash_back = false;
  is_online = false;
  is_payment_contractor = false;
  un_fair_penalty_quantity = pos 0;
}

upsert-IsFit_example : Holds (IsFit reading.clock request) (upsert reading request none sauna desk)
upsert-IsFit_example = upsert-IsFit reading request none sauna desk

upsert-HasTerms_example :
    Holds (HasTerms service) (upsert reading request (some service) sauna desk)
upsert-HasTerms_example = upsert-HasTerms reading request service sauna desk refl refl

upsert-again_example :
    Holds
      (λ i. upsert reading request (some i) sauna desk ≡ ok i)
      (upsert reading request none sauna desk)
upsert-again_example = upsert-again reading request sauna desk tt refl

-- The credit of 100 is sold for 80 and ends thirty days later.
sold_run :
    upsert reading request none sauna desk
    ≡ ok (record (new_item request sauna desk) {
      price = pos 100;
      amount = pos 100;
      discount = pos 20;
      credit = pos 100;
      start = 86_400_000;
      end_date = 2_678_400_000;
    })
unfolding upsert revise item_or_new new_item with_penalty with_start with_end_date check_end
    moment_of with_discount charge_item sell price_item with_price with_final_price with_last_day
    duration_of grant_credit worth_of check_total with_partners ◌>>=◌ total_amount tax_amount
    final_amount_without_tax round_div floor_div ◌+ℤ◌ ◌-ℤ◌ ◌*ℤ◌ day_of
sold_run = refl

-- A package for 100 with 10 off, 4 and 6 of its items.
abbrev bundle : Product
bundle = record massage { discount = pos 10 }

abbrev first_part : SaleItemDto
first_part = record request { amount = pos 60; discount = pos 4 }

abbrev last_part : SaleItemDto
last_part = record request { amount = pos 40; discount = pos 6 }

abbrev bargain : SaleItemDto
bargain = record request { discount = pos 25 }

calculate_discount_items-IsShared_example :
    IsShared
      (first_part ∷ last_part ∷ [])
      (pos 25)
      (calculate_discount_items (first_part ∷ last_part ∷ []) bargain bundle)
unfolding ◌+ℤ◌ ◌-ℤ◌
calculate_discount_items-IsShared_example =
    calculate_discount_items-IsShared first_part (last_part ∷ []) bargain bundle refl refl refl

bargain_run :
    calculate_discount_items (first_part ∷ last_part ∷ []) bargain bundle
    ≡ some (record first_part { discount = pos 13 } ∷ record last_part { discount = pos 12 } ∷ [])
unfolding calculate_discount_items share_by share_discount add_part part_price round_div floor_div
    neg ◌+ℤ◌ ◌-ℤ◌ ◌*ℤ◌
bargain_run = refl
