-- ===== src/Wallet/Remove.antt =====
-- `doRemoveTransaction` and `removeTransaction`: a transaction is removed softly and undone.
pub mod Undone
pub mod Laws
use my_ng_platform.Prelude.{
  ℕ, ℤ, ◌+ℤ◌, neg, Bool, true, false, ◌&&◌, none, some, List, [], ◌∷◌, ◌==◌, if◌then◌else◌,
}
use my_ng_platform.Entities.{
  Transaction, TransactionType, TransactionSourceType, SaleOrder, Cheque, UserLoan,
}
use my_ng_platform.Store.{
  Error, Action, ok, err, ◌>>=◌, ◌>>◌, pure, modify, atomically, alter, find_row, save,
}
use my_ng_platform.Wallet.Credit.{do_transaction}
use my_ng_platform.Wallet.Normalize.{normalize_after_date, normalize_charges_after_date}
use my_ng_platform.Wallet.Providers.{use_credit}

-- `settleAmount: () => 'settle_amount + (…)'`
unfoldable pub add_settled : ℕ → ℤ → List SaleOrder → List SaleOrder
add_settled i a [] = []
add_settled i a (o ∷ os) =
    if o.id == i
    then record o { settle_amount = o.settle_amount +ℤ a } ∷ os
    else o ∷ add_settled i a os

abbrev pub drop_cheque : Cheque → Cheque
drop_cheque q = record q { deleted = true }

abbrev pub drop_loan : UserLoan → UserLoan
drop_loan l = record l { deleted = true }

-- `used_credit + (-amount)` of the sale item that the source names.
abbrev pub unuse_credit : Transaction → Action (Unit {0})
unuse_credit t =
    modify λ b. record b { sale_items = alter (use_credit (neg t.amount)) t.source b.sale_items }

-- The `switch` of a settlement, on its source.
unfoldable pub undo_settle : TransactionSourceType → Transaction → Action (Unit {0})
undo_settle TransactionSourceType.cheque t =
    modify λ b. record b { cheques = alter drop_cheque t.source b.cheques }
undo_settle TransactionSourceType.charging_service t = unuse_credit t
undo_settle TransactionSourceType.user_credit t =
    do_transaction t false (neg t.amount) false >> pure tt
undo_settle _ t = pure tt

-- The `switch` of a deposit. The case of a loan has no `break` and runs into the next one.
unfoldable pub undo_deposit : TransactionSourceType → Transaction → Action (Unit {0})
undo_deposit TransactionSourceType.loan t =
    modify (λ b. record b { user_loans = alter drop_loan t.source b.user_loans }) >> unuse_credit t
undo_deposit TransactionSourceType.charging_service t = unuse_credit t
undo_deposit _ t = pure tt

abbrev pub update_order : Bool → Transaction → Action (Unit {0})
update_order flag t b =
    (ok tt, if flag then record b { orders = add_settled t.order (neg t.amount) b.orders } else b)

abbrev pub is_wallet_source : TransactionSourceType → Bool
is_wallet_source TransactionSourceType.user_credit = true
is_wallet_source _ = false

-- The undoing, by the type; the result says whether the wallet was touched.
unfoldable pub undo : TransactionType → Transaction → Bool → Action Bool
undo TransactionType.settle t update_order_settle =
    undo_settle t.source_type t
    >> (update_order update_order_settle t >> pure (is_wallet_source t.source_type))
undo TransactionType.deposit t update_order_settle =
    undo_deposit t.source_type t >> (do_transaction t true t.amount false >> pure true)
undo TransactionType.withdraw t update_order_settle =
    do_transaction t false (neg t.amount) false >> pure true

abbrev pub removed : Transaction → Transaction
removed t = record t { deleted = true }

abbrev pub normalize_wallet : Bool → Transaction → Action (Unit {0})
normalize_wallet flag t =
    if flag then normalize_after_date t.user t.submit_at >> pure tt else pure tt

abbrev pub normalize_charge : TransactionSourceType → Transaction → Action (Unit {0})
normalize_charge TransactionSourceType.charging_service t =
    normalize_charges_after_date t.user t.submit_at t.source >> pure tt
normalize_charge _ t = pure tt

unfoldable pub do_remove_transaction : Transaction → Bool → Bool → Action Transaction
do_remove_transaction t update_order_settle normalize =
    undo t.type t update_order_settle >>= λ wallet. save (removed t) >>= λ t'.
    normalize_wallet (wallet && normalize) t >> (normalize_charge t.source_type t >> pure t')

unfoldable pub remove_transaction : ℕ → Action Transaction
remove_transaction id = atomically λ b. elim (find_row id b.transactions) [
  | none ↦ (err Error.not_found_transaction, b)
  | some t ↦ do_remove_transaction t true true b
]
