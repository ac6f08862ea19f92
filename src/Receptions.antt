-- ===== src/Receptions.antt =====
-- Leaving a reception: automation/operational/service/reception.service.ts.
pub mod Laws
pub mod Every
use my_ng_platform.Prelude.{
  ℕ, ℤ, pos, ◌+ℤ◌, eqb_ℤ, Bool, true, false, not, ◌&&◌, ◌||◌, Option, none, some, List, [], ◌∷◌,
  ltb, ◌==◌, if◌then◌else◌,
}
use my_ng_platform.Amounts.{final_amount, order_balance}
use my_ng_platform.Charging.{contains, find_order}
use my_ng_platform.Clock.{day_of}
use my_ng_platform.Entities.{SaleOrder}
use my_ng_platform.Store.{
  Db, Error, Result, Action, ok, err, ◌>>=◌, ◌>>◌, pure, throw, throw_if, or_throw, modify, gets,
  atomically,
}
use my_ng_platform.Wallet.Providers.{TransactionItem}
use my_ng_platform.Wallet.Requests.{Env, SubmitAt}
use my_ng_platform.Wallet.SettleOrder.{Sale, settle_sale_order}

abbrev pub is_open : SaleOrder → Bool
is_open o = elim o.end_at [ none ↦ true | some _ ↦ false ]

-- The sums of the orders of a reception. A total that is 0 so far starts both of them again.
unfoldable pub add_amounts : ℤ × ℤ → SaleOrder → ℤ × ℤ
add_amounts acc o =
    if eqb_ℤ acc.0 (pos 0)
    then (o.total_amount, o.settle_amount)
    else (acc.0 +ℤ o.total_amount, acc.1 +ℤ o.settle_amount)

unfoldable pub sum_amounts : ℕ → ℤ × ℤ → List SaleOrder → ℤ × ℤ
unfolding add_amounts
sum_amounts reception acc [] = acc
sum_amounts reception acc (o ∷ os) =
    sum_amounts reception (if o.reception == reception then add_amounts acc o else acc) os

abbrev pub is_balanced : ℤ × ℤ → Bool
is_balanced acc = eqb_ℤ acc.0 acc.1

-- The end of the request counts for a reception of an earlier day.
unfoldable pub read_end : Env → SaleOrder → SubmitAt → Action (Option ℕ)
unfolding day_of
read_end env o end_at b =
    if ltb (day_of env.clock o.submit_at) (day_of env.clock env.clock.now)
    then elim end_at [
      | SubmitAt.absent ↦ (ok none, b)
      | SubmitAt.invalid ↦ (err Error.invalid_end_time, b)
      | SubmitAt.parsed t ↦ (ok (some t), b)
    ]
    else (ok none, b)

-- What is left to pay is settled by the payments of the request, as an edit of those of the order.
unfoldable pub settle_rest : Env → Sale → List TransactionItem → SaleOrder → Action (Unit {0})
unfolding order_balance
settle_rest env sale dtos o = if eqb_ℤ (order_balance o) (pos 0) then pure tt else elim dtos [
  | [] ↦ throw Error.first_settle
  | d ∷ ds ↦
      settle_sale_order env (record sale { sale_unit = o.sale_unit }) (d ∷ ds) o true >> pure tt
]

-- `manager.update(SaleOrder, reception.id, …)`: the order counts as settled.
unfoldable pub set_end : ℕ → Option ℕ → ℤ → List SaleOrder → List SaleOrder
set_end id end_at settled [] = []
set_end id end_at settled (o ∷ os) =
    if o.id == id
    then record o { end_at = end_at; settle_amount = settled } ∷ os
    else o ∷ set_end id end_at settled os

abbrev pub or_now : ℕ → Option ℕ → ℕ
or_now now none = now
or_now now (some t) = t

unfoldable pub do_logout :
    Env → Sale → SaleOrder → List TransactionItem → SubmitAt → Action (Unit {0})
unfolding sum_amounts set_end final_amount
do_logout env sale o dtos end_at =
    throw_if Error.reception_not_settled (not (eqb_ℤ o.total_amount o.settle_amount))
    >> (λ b.
        throw_if Error.order_not_settled
          (not (is_balanced (sum_amounts o.id (pos 0, pos 0) b.orders))) b)
    >> read_end env o end_at
    >>= λ time.
        settle_rest env sale dtos o
        >> modify (λ b. record b {
          orders = set_end o.id (some (or_now env.clock.now time)) (final_amount o) b.orders;
        })

-- `findOne` with a condition on `end`.
abbrev pub with_end : Bool → Option SaleOrder → Option SaleOrder
with_end asked none = none
with_end true (some o) = if is_open o then some o else none
with_end false (some o) = if is_open o then none else some o

unfoldable pub logout : Env → Sale → ℕ → List TransactionItem → SubmitAt → Action Bool
logout env sale id dtos end_at = atomically (
    (λ b. or_throw Error.reception_not_found (with_end true (find_order id b.orders)) b) >>= λ o.
    do_logout env sale o dtos end_at >> pure true)

unfoldable pub back_to_login : ℕ → Action Bool
unfolding set_end
back_to_login id = atomically (
    (λ b. or_throw Error.reception_not_found (with_end false (find_order id b.orders)) b) >>= λ o.
    modify (λ b. record b { orders = set_end id none o.settle_amount b.orders }) >> pure true)

-- Who asks to leave all receptions: the shops of the user, unless they are undefined, and the
-- reception of each sale unit.
pub record Access : Type 0 where
  pub is_admin : Bool
  pub shops : Option (List ℕ)
  pub reception_of : ℕ → ℕ

-- The ids `sId`; the `-1` of undefined shops is the id of no sale unit.
abbrev pub shop_ids : Access → List ℕ
shop_ids a = elim a.shops [ none ↦ [] | some ids ↦ ids ]

-- `IN ()`, which is no SQL.
abbrev pub asks_none : Access → Bool
asks_none a =
    not a.is_admin
    && elim a.shops [ none ↦ false | some ids ↦ elim ids [ [] ↦ true | i ∷ is ↦ false ] ]

-- The `where`: its OR is not in parentheses, so that the second part does not ask for an open one.
unfoldable pub is_asked_for : Access → SaleOrder → Bool
unfolding contains
is_asked_for a o =
    if a.is_admin
    then is_open o
    else (is_open o && contains o.sale_unit (shop_ids a))
      || contains (a.reception_of o.sale_unit) (shop_ids a)

unfoldable pub select_orders : (SaleOrder → Bool) → List SaleOrder → List SaleOrder
select_orders p [] = []
select_orders p (o ∷ os) = let rest = select_orders p os in if p o then o ∷ rest else rest

-- An exception is logged, and the loop goes on.
abbrev pub caught : Result (Unit {0}) × Db → Result Bool × Db
caught (ok _, b) = (ok true, b)
caught (err _, b) = (ok false, b)

unfoldable pub try_logout : Env → Sale → SaleOrder → Action Bool
unfolding do_logout
try_logout env sale o b = caught (do_logout env sale o [] SubmitAt.absent b)

unfoldable pub logout_each : Env → Sale → List SaleOrder → Action (List SaleOrder)
unfolding try_logout
logout_each env sale [] = pure []
logout_each env sale (o ∷ os) =
    (if eqb_ℤ (order_balance o) (pos 0) then try_logout env sale o else pure false) >>= λ left.
    logout_each env sale os >>= λ rest. pure (if left then o ∷ rest else rest)

unfoldable pub logout_all : Env → Sale → Access → Action (List SaleOrder)
unfolding select_orders is_asked_for
logout_all env sale a = atomically (
    throw_if Error.query_failed (asks_none a)
    >> (gets (λ b. select_orders (is_asked_for a) b.orders) >>= λ os. logout_each env sale os))
