-- ===== src/SaleOrders/Split.antt =====
-- How the payments of `settleMultipleSaleOrder` are shared among the orders.
pub mod Taken
pub mod Laws
use my_ng_platform.Prelude.{
  ℕ, ℤ, pos, ◌+ℤ◌, ◌-ℤ◌, neg, ltb_ℤ, eqb_ℤ, Bool, ◌||◌, Option, none, some, List, [], ◌∷◌,
  if◌then◌else◌,
}
use my_ng_platform.Entities.{SaleOrder}
use my_ng_platform.Wallet.Providers.{TransactionItem}

abbrev pub with_amount : TransactionItem → ℤ → TransactionItem
with_amount t a = record t { amount = a }

-- One round for a payment: what the order takes of it, what is left of it, and what the order still
-- wants.
pub record Part : Type 0 where
  pub taken : Option TransactionItem
  pub left : TransactionItem
  pub due : ℤ

-- The copy that an order takes is made before the payment is changed.
unfoldable pub take_part : ℤ → TransactionItem → Part
take_part due t =
    if eqb_ℤ due (pos 0) || eqb_ℤ t.amount (pos 0)
    then record { taken = none; left = t; due = due }
    else (if ltb_ℤ (pos 0) (due -ℤ t.amount)
        then record { taken = some t; left = with_amount t (pos 0); due = due -ℤ t.amount }
        else (if ltb_ℤ (due -ℤ t.amount) (pos 0)
            then record {
              taken = some (with_amount t due);
              left = with_amount t (neg (due -ℤ t.amount));
              due = pos 0;
            }
            else record { taken = some t; left = with_amount t (pos 0); due = pos 0 }))

pub record Shares : Type 0 where
  pub taken : List TransactionItem
  pub left : List TransactionItem
  pub due : ℤ

abbrev pub prepend : Option TransactionItem → List TransactionItem → List TransactionItem
prepend none ts = ts
prepend (some t) ts = t ∷ ts

-- The inner loop, for an order that wants `due`.
unfoldable pub take_parts : ℤ → List TransactionItem → Shares
unfolding take_part
take_parts due [] = record { taken = []; left = []; due = due }
take_parts due (t ∷ ts) =
    let p = take_part due t in
    let rest = take_parts p.due ts in
    record { taken = prepend p.taken rest.taken; left = p.left ∷ rest.left; due = rest.due }

-- What an order is paid by.
pub record OrderPayments : Type 0 where
  pub order : ℕ
  pub payments : List TransactionItem

abbrev pub due_of : SaleOrder → ℤ
due_of o = o.total_amount -ℤ o.settle_amount

-- An order that takes nothing is passed over.
abbrev pub push_payments : ℕ → List TransactionItem → List OrderPayments → List OrderPayments
push_payments id [] ps = ps
push_payments id (t ∷ ts) ps = record { order = id; payments = t ∷ ts } ∷ ps

-- `orders.reduce`, with the payments as they are left at its end.
unfoldable pub split_payments :
    List SaleOrder → List TransactionItem → List OrderPayments × List TransactionItem
unfolding take_parts
split_payments [] ts = ([], ts)
split_payments (o ∷ os) ts =
    let s = take_parts (due_of o) ts in
    let (rest, left) = split_payments os s.left in (push_payments o.id s.taken rest, left)
