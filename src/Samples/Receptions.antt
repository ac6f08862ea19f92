-- ===== src/Samples/Receptions.antt =====
-- A reception of the shop.
use my_ng_platform.Prelude.{
  ◌≡◌, refl, pos, true, false, some, [], ◌∷◌, ◌+ℤ◌, ◌-ℤ◌, ◌*ℤ◌, floor_div, round_div,
}
use my_ng_platform.Amounts.{
  final_amount, order_balance, sum_items, counts, total_amount, tax_amount,
  final_amount_without_tax,
}
use my_ng_platform.Charging.{find_order, contains}
use my_ng_platform.Entities.{SaleOrder}
use my_ng_platform.Store.{Db}
use my_ng_platform.Wallet.Contract.{Outcome}
use my_ng_platform.Wallet.Requests.{SubmitAt}
use my_ng_platform.Receptions.{Access, logout, logout_all, is_asked_for, sum_amounts, add_amounts}
use my_ng_platform.Receptions.Laws.{IsLeft, logout-IsLeft, Reenters, back_to_login-logout}
use my_ng_platform.Receptions.Every.{HasReturned, logout_all-HasReturned}
use my_ng_platform.Samples.{env, shop, sold_order}
use my_ng_platform.Samples.Orders.{sale}

abbrev stay : SaleOrder
stay = record sold_order { total_amount = pos 98; settle_amount = pos 98 }

abbrev hotel : Db
hotel = record shop { orders = stay ∷ [] }

logout-IsLeft_example :
    Outcome
      (λ _ b'. IsLeft env 9 [] SubmitAt.absent hotel b')
      hotel
      (logout env sale 9 [] SubmitAt.absent hotel)
logout-IsLeft_example = logout-IsLeft env sale 9 [] SubmitAt.absent hotel

back_to_login-logout_example : Reenters env sale 9 [] stay hotel
unfolding find_order sum_amounts add_amounts order_balance final_amount sum_items counts
    total_amount tax_amount final_amount_without_tax round_div floor_div ◌+ℤ◌ ◌-ℤ◌ ◌*ℤ◌
back_to_login-logout_example =
    back_to_login-logout env sale 9 [] stay hotel refl refl refl refl refl

abbrev clerk : Access
clerk = record { is_admin = false; shops = some (3 ∷ []); reception_of = λ _. 3 }

logout_all-HasReturned_example : HasReturned (logout_all env sale clerk hotel)
logout_all-HasReturned_example = logout_all-HasReturned env sale clerk hotel refl

-- A reception that was left already is asked for again, if its unit has the reception of the clerk.
ended_run : is_asked_for clerk (record stay { end_at = some 700 }) ≡ true
unfolding is_asked_for contains
ended_run = refl
