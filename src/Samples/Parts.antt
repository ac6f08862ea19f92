-- ===== src/Samples/Parts.antt =====
-- The parts of the wallet on the data of the shop.
use my_ng_platform.Prelude.{
  round_div, floor_div, ◌*ℤ◌, All, ◌-ℤ◌, ◌≡◌, refl, pos, true, false, [], ◌∷◌, arith, ◌+ℤ◌,
}
use my_ng_platform.Wallet.Normalize.{
  is_wallet, last_before, normalized, precedes, rows_after, select, sort_rows, insert_row,
  run_credits, step_credit,
}
use my_ng_platform.Wallet.Normalize.Order.{up_to}
use my_ng_platform.Wallet.Normalize.Running.{start_of, later_rows, normalized-Running}
use my_ng_platform.Shifts.{is_on_duty, in_calendar, in_schedule}
use my_ng_platform.Shifts.Laws.{is_on_duty-not_excluded}
use my_ng_platform.Amounts.{
  final_amount, sum_items, counts, total_amount, tax_amount, final_amount_without_tax,
}
use my_ng_platform.Samples.{env, duty, shop, credits, sold_order, free_day, other_day}

normalized-Running_example :
    All
      (λ t.
        t.credit
        ≡ start_of (last_before (is_wallet 1) 1500 shop.transactions)
          +ℤ up_to 1 t
              (later_rows 1 (last_before (is_wallet 1) 1500 shop.transactions) shop.transactions))
      (normalized 1 1500 shop.transactions)
normalized-Running_example =
    normalized-Running 1 1500 shop (omega arith, (omega arith, omega arith))

normalized_run : credits (normalized 1 1500 shop.transactions) ≡ pos 70 ∷ []
unfolding normalized last_before is_wallet precedes rows_after select sort_rows insert_row
    run_credits step_credit ◌-ℤ◌ ◌+ℤ◌
normalized_run = refl

-- 100 less 10, and 9 percent of the rest: 8.1 is rounded to 8.
sold_order_run : final_amount sold_order ≡ pos 98
unfolding final_amount sum_items counts total_amount tax_amount final_amount_without_tax round_div
    floor_div ◌+ℤ◌ ◌-ℤ◌ ◌*ℤ◌
sold_order_run = refl

is_on_duty-not_excluded_example :
    is_on_duty env.clock 1500 1 (record duty { calendars = free_day ∷ other_day ∷ [] }) ≡ true
unfolding in_calendar in_schedule
is_on_duty-not_excluded_example =
    is_on_duty-not_excluded env.clock 1500 1 (record duty { calendars = free_day ∷ other_day ∷ [] })
      (record { days = 4 ∷ 5 ∷ []; from_time = 0; to_time = 86_400 }) [] free_day other_day [] refl
      refl refl refl refl

-- Alone, the free day counts.
excluded_run : is_on_duty env.clock 1500 1 (record duty { calendars = free_day ∷ [] }) ≡ false
unfolding is_on_duty
excluded_run = refl
