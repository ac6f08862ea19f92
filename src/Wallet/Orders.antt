-- ===== src/Wallet/Orders.antt =====
-- `deleteAllByOrderId`: the payments of an order are removed.
pub mod Laws
use my_ng_platform.Prelude.{
  ℕ, pos, eqb_ℤ, Bool, true, false, not, ◌&&◌, ◌||◌, Option, none, some, List, [], ◌∷◌, map, ◌==◌,
  if◌then◌else◌,
}
use my_ng_platform.Charging.{contains}
use my_ng_platform.Entities.{Transaction, TransactionSourceType, SaleOrder, SaleItem}
use my_ng_platform.Store.{Db, Error, Result, Action, ok, err, ◌>>=◌, ◌>>◌, pure, gets, throw_if}
use my_ng_platform.Wallet.Normalize.{is_user_credit, select, normalize_after_date}
use my_ng_platform.Wallet.Remove.{removed, do_remove_transaction}

-- The values of the enumeration.
abbrev pub source_code : TransactionSourceType → ℕ
source_code TransactionSourceType.user_credit = 0
source_code TransactionSourceType.bank = 1
source_code TransactionSourceType.cash_desk = 2
source_code TransactionSourceType.charging_service = 3
source_code TransactionSourceType.wallet_gift = 4
source_code TransactionSourceType.loan = 5
source_code TransactionSourceType.cheque = 6
source_code TransactionSourceType.offered_discount = 7
source_code TransactionSourceType.archived = 8
source_code TransactionSourceType.transfer = 9
source_code TransactionSourceType.reserve = 10

-- `items.find((e) => e.product.isCashBack)`: an item before it that has no product is a TypeError.
unfoldable pub sells_cash_back : Db → List SaleItem → Result Bool
sells_cash_back b [] = ok false
sells_cash_back b (i ∷ is) = elim (b.products i.product) [
  | none ↦ err Error.type_error
  | some p ↦ if p.is_cash_back then ok true else sells_cash_back b is
]

-- `items: { isCashBack: true, usedCredit: Not(0) }`
unfoldable pub uses_cash_back : List SaleItem → Bool
uses_cash_back [] = false
uses_cash_back (i ∷ is) =
    (not i.deleted && i.is_cash_back && not (eqb_ℤ i.used_credit (pos 0))) || uses_cash_back is

-- Whether an order out of the cash back of this one, or of its user at its time, has used some.
unfoldable pub cash_back_is_used : SaleOrder → List SaleOrder → Bool
unfolding uses_cash_back
cash_back_is_used o [] = false
cash_back_is_used o (p ∷ ps) =
    ((p.cash_back_parent == o.id || (p.submit_at == o.submit_at && p.user == o.user))
      && uses_cash_back p.items)
    || cash_back_is_used o ps

unfoldable pub check_cash_back : SaleOrder → Action (Unit {0})
unfolding sells_cash_back cash_back_is_used
check_cash_back o b = elim (sells_cash_back b o.items) [
  | err e ↦ (err e, b)
  | ok sells ↦ throw_if Error.cash_back_used (sells && cash_back_is_used o b.orders) b
]

-- The `where`: no types stand for all of them.
unfoldable pub is_of_order : List TransactionSourceType → ℕ → Transaction → Bool
unfolding contains
is_of_order types order t = not t.deleted && t.order == order && elim types [
  | [] ↦ true
  | s ∷ ss ↦ contains (source_code t.source_type) (map source_code (s ∷ ss))
]

unfoldable pub remove_all : Bool → List Transaction → Action (Unit {0})
unfolding do_remove_transaction
remove_all update_order_settle [] = pure tt
remove_all update_order_settle (t ∷ ts) =
    do_remove_transaction t update_order_settle false >> remove_all update_order_settle ts

-- The last one that the wallet paid.
unfoldable pub last_wallet : List Transaction → Option Transaction
last_wallet [] = none
last_wallet (t ∷ ts) =
    let rest = last_wallet ts in
    elim rest [ some l ↦ some l | none ↦ if is_user_credit t.source_type then some t else none ]

abbrev pub normalize_last : Option Transaction → Action (Unit {0})
normalize_last none = pure tt
normalize_last (some t) = normalize_after_date t.user t.submit_at >> pure tt

unfoldable pub delete_all_by_order_id :
    List TransactionSourceType → Bool → SaleOrder → Action (List Transaction)
delete_all_by_order_id types update_order_settle o =
    check_cash_back o >> gets (λ b. select (is_of_order types o.id) b.transactions) >>= λ ts.
    remove_all update_order_settle ts >> (normalize_last (last_wallet ts) >> pure (map removed ts))
