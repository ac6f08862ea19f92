-- ===== src/SaleOrders/Settle.antt =====
-- `settle`, which pays the rest of an order, and `settleMultipleSaleOrder`.
pub mod Laws
use my_ng_platform.Prelude.{ℕ, Bool, true, false, List, [], ◌∷◌}
use my_ng_platform.Charging.{contains, find_order}
use my_ng_platform.Entities.{SaleOrder}
use my_ng_platform.Store.{
  Db, Error, Result, Action, ok, err, ◌>>=◌, ◌>>◌, pure, or_throw, atomically,
}
use my_ng_platform.Receptions.{select_orders}
use my_ng_platform.SaleOrders.Split.{OrderPayments, split_payments}
use my_ng_platform.Wallet.Providers.{TransactionItem}
use my_ng_platform.Wallet.Requests.{Env}
use my_ng_platform.Wallet.SettleOrder.{Sale, settle_sale_order}

-- The sale unit is that of the order.
unfoldable pub settle : Env → Sale → ℕ → List TransactionItem → Action Bool
unfolding settle_sale_order
settle env sale id dtos = atomically (
    (λ b. or_throw Error.not_found_order (find_order id b.orders) b) >>= λ o.
    settle_sale_order env (record sale { sale_unit = o.sale_unit }) dtos o true >> pure true)

-- `try`, `catch` and `break`: the loop goes on after an order that is settled.
unfoldable pub settled_then : ℕ → (Db → List ℕ × Db) → Result Bool × Db → List ℕ × Db
settled_then id rest (ok true, b) = let (ids, b') = rest b in (id ∷ ids, b')
settled_then id rest (ok false, b) = ([], b)
settled_then id rest (err e, b) = ([], b)

unfoldable pub settle_each : Env → Sale → List OrderPayments → Db → List ℕ × Db
unfolding settle settled_then
settle_each env sale [] b = ([], b)
settle_each env sale (p ∷ ps) b =
    settled_then p.order (settle_each env sale ps) (settle env sale p.order p.payments b)

-- The ids of the orders that are settled.
unfoldable pub settle_multiple_sale_order :
    Env → Sale → List ℕ → List TransactionItem → Db → List ℕ × Db
unfolding settle_each split_payments select_orders contains
settle_multiple_sale_order env sale ids dtos b =
    settle_each env sale (split_payments (select_orders (λ o. contains o.id ids) b.orders) dtos).0 b
