-- ===== src/Wallet/SettleOrder.antt =====
-- `settleSaleOrder`: an order is paid from several sources, and an edit of its payments.
pub mod Edits
pub mod Payments
pub mod Laws
use my_ng_platform.Prelude.{
  ℕ, ℤ, pos, ◌+ℤ◌, ◌-ℤ◌, ltb_ℤ, eqb_ℤ, Bool, true, false, not, ◌&&◌, ◌||◌, Option, none, some, List,
  [], ◌∷◌, ◌++◌, map, or_else, ◌==◌, if◌then◌else◌,
}
use my_ng_platform.Entities.{Transaction, TransactionType, TransactionSourceType, SaleOrder}
use my_ng_platform.Store.{
  Db, Error, Action, ok, err, ◌>>=◌, ◌>>◌, pure, throw, gets, or_throw, modify, find_row,
  replace_row, save_all,
}
use my_ng_platform.Discounts.{DiscountDb, Purchase, get_discount_amount}
use my_ng_platform.Wallet.Credit.{do_transaction}
use my_ng_platform.Wallet.Normalize.{is_user_credit, select}
use my_ng_platform.Wallet.Providers.{
  TransactionItem, new_transaction, charge_service_transaction, bank_transaction, cash_transaction,
  cheque_transaction,
}
use my_ng_platform.Wallet.Requests.{Env}
use my_ng_platform.Wallet.Remove.{undo_deposit, do_remove_transaction}
use my_ng_platform.Wallet.Settle.{after_settlements}
use my_ng_platform.Wallet.Orders.{is_of_order, last_wallet, normalize_last}

-- The sale of which an order is paid: its sale unit, what the discounts are read from, the code of
-- each payment, and whether its items hold their sale unit as an object.
pub record Sale : Type 0 where
  pub sale_unit : ℕ
  pub discounts : DiscountDb
  pub code_of : TransactionItem → ℕ
  pub unit_loaded : Bool

abbrev pub purchase_of : Sale → SaleOrder → Transaction → Purchase
purchase_of sale o t = record {
  user = o.user;
  organization_unit = o.organization_unit;
  sale_unit = t.sale_unit;
  submit_at = o.submit_at;
  transaction = t.id;
  items = o.items;
  unit_loaded = sale.unit_loaded;
}

-- `discountTransaction`: the null of the service is a TypeError at its destructuring. The amount
-- is not compared with the value of the discount.
unfoldable pub discount_transaction :
    Env → Sale → SaleOrder → TransactionItem → Transaction → Action Transaction
discount_transaction env sale o dto t b =
    elim (get_discount_amount env.clock sale.discounts dto.source (sale.code_of dto)
      (purchase_of sale o t) b.transactions) [
        | none ↦ (err Error.type_error, b)
        | some (discount, value) ↦
            if ltb_ℤ (pos 0) value
            then (ok (record t { amount = dto.amount; source = dto.source }), b)
            else (err Error.invalid_discount, b)
      ]

-- A new payment; the date of the request, if it is one, else that of the order.
unfoldable pub new_payment : Env → Sale → SaleOrder → TransactionItem → Transaction
new_payment env sale o dto =
    record (new_transaction env.clock.now TransactionType.settle dto.type dto.user) {
      order = o.id;
      shift_work = o.shift_work;
      organization_unit = o.organization_unit;
      fiscal_year = o.fiscal_year;
      submit_at = elim dto.submit_at [ none ↦ o.submit_at | some at ↦ at ];
      sale_unit = sale.sale_unit;
    }

-- The variables of the loop: the saved payments, the rows to save, and what is paid.
pub record Paying : Type 0 where
  pub olds : List Transaction
  pub rows : List Transaction
  pub sum : ℤ

-- The payment that a request means: one of the order, any other saved one, or a new one.
unfoldable pub find_payment :
    Env → Sale → SaleOrder → TransactionItem → List Transaction → Action Transaction
unfolding new_payment
find_payment env sale o dto olds b = elim (find_row dto.id olds) [
  | some t ↦ (ok t, b)
  | none ↦
      if dto.id == 0
      then (ok (new_payment env sale o dto), b)
      else elim (find_row dto.id b.transactions) [
        | none ↦ (err Error.type_error, b)
        | some t ↦ (ok t, b)
      ]
]

-- A payment with a source. A saved row is loaded without its order and its sale unit, so that
-- reading their properties is a TypeError.
unfoldable pub pay_source :
    TransactionSourceType
    → Env
    → Sale
    → SaleOrder
    → TransactionItem
    → Transaction
    → Action Transaction
unfolding discount_transaction
pay_source TransactionSourceType.charging_service env sale o dto t =
    if not (t.id == 0) && not dto.is_archived
    then throw Error.type_error
    else charge_service_transaction env.clock dto t o.items
pay_source TransactionSourceType.offered_discount env sale o dto t =
    if t.id == 0 then discount_transaction env sale o dto t else throw Error.type_error
pay_source TransactionSourceType.cheque env sale o dto t = cheque_transaction dto t
pay_source TransactionSourceType.bank env sale o dto t = bank_transaction dto t
pay_source TransactionSourceType.cash_desk env sale o dto t = cash_transaction dto t
pay_source _ env sale o dto t = pure t

-- The row goes to those that are saved; a saved one is the same object in every list.
abbrev pub pushed : Paying → Transaction → Paying
pushed p t = record {
  olds = replace_row t p.olds;
  rows = (if t.id == 0 then p.rows else replace_row t p.rows) ++ (t ∷ []);
  sum = p.sum +ℤ t.amount;
}

abbrev pub from_wallet : TransactionItem → Transaction → Transaction
from_wallet dto t = record t { amount = dto.amount; credit = t.user_credit }

-- A payment whose amount is new. Without a source only the wallet pays, the difference of the
-- amounts; the rest is passed over.
unfoldable pub pay : Env → Sale → SaleOrder → TransactionItem → Paying → Transaction → Action Paying
unfolding pay_source
pay env sale o dto p t =
    if dto.source == 0
    then (if is_user_credit dto.type
        then (do_transaction (record t { source_type = dto.type; user = dto.user }) true
              (dto.amount -ℤ t.amount) true
            >>= λ t'. pure (pushed p (from_wallet dto t')))
        else pure p)
    else (pay_source dto.type env sale o dto (record t { source_type = dto.type; user = dto.user })
        >>= λ t'. pure (pushed p t'))

unfoldable pub settle_payment : Env → Sale → SaleOrder → TransactionItem → Paying → Action Paying
settle_payment env sale o dto p = find_payment env sale o dto p.olds >>= λ t.
    if eqb_ℤ t.amount dto.amount
    then pure (record p { sum = p.sum +ℤ t.amount })
    else pay env sale o dto p t

unfoldable pub settle_payments :
    Env → Sale → SaleOrder → List TransactionItem → Paying → Action Paying
settle_payments env sale o [] p = pure p
settle_payments env sale o (dto ∷ dtos) p =
    (if ltb_ℤ (pos 0) dto.amount then settle_payment env sale o dto p else pure p) >>= λ p'.
    settle_payments env sale o dtos p'

unfoldable pub is_asked : List TransactionItem → Transaction → Bool
is_asked [] t = false
is_asked (dto ∷ dtos) t = dto.id == t.id || is_asked dtos t

-- A saved payment is loaded without its user, whose id `doTransaction` reads: a TypeError.
unfoldable pub remove_unloaded : TransactionType → Transaction → Action (Unit {0})
remove_unloaded TransactionType.settle t =
    if is_user_credit t.source_type
    then throw Error.type_error
    else (do_remove_transaction t false false >> pure tt)
remove_unloaded TransactionType.deposit t = undo_deposit t.source_type t >> throw Error.type_error
remove_unloaded TransactionType.withdraw t = throw Error.type_error

unfoldable pub remove_dropped : List Transaction → Action (Unit {0})
unfolding remove_unloaded
remove_dropped [] = pure tt
remove_dropped (t ∷ ts) = remove_unloaded t.type t >> remove_dropped ts

-- `order.settleAmount = sum`, saved.
unfoldable pub set_settled : ℕ → ℤ → List SaleOrder → List SaleOrder
set_settled i sum [] = []
set_settled i sum (o ∷ os) =
    let rest = set_settled i sum os in
    if o.id == i then record o { settle_amount = sum } ∷ os else o ∷ rest

unfoldable pub old_payments : Bool → SaleOrder → List Transaction → List Transaction
old_payments edit o rows = if edit then select (is_of_order [] o.id) rows else []

unfoldable pub settle_sale_order :
    Env → Sale → List TransactionItem → SaleOrder → Bool → Action (List Transaction)
settle_sale_order env sale dtos o edit = gets (λ b. old_payments edit o b.transactions) >>= λ olds.
    settle_payments env sale o dtos (record { olds = olds; rows = []; sum = pos 0 }) >>= λ p.
    (let dropped = select (λ t. not (is_asked dtos t)) p.olds in
      remove_dropped dropped >> normalize_last (last_wallet dropped))
    >> save_all p.rows
    >>= λ saved.
        modify (λ b. record b { orders = set_settled o.id p.sum b.orders })
        >> after_settlements env saved
        >> pure saved
