-- ===== src/SaleOrders/Split/Laws.antt =====
-- What the shares of the orders add up to.
use my_ng_platform.Prelude.{
  ℕ, ◌≡◌, refl, ◌⊎◌, inl, inr, ℤ, pos, ◌+ℤ◌, ◌≤ℤ◌, int_laws, arith, List, [], ◌∷◌, All, All-map,
  Some,
}
use my_ng_platform.Entities.{SaleOrder}
use my_ng_platform.Wallet.Providers.{TransactionItem}
use my_ng_platform.SaleOrders.Split.Taken.{amounts, NonNegative, IsSpent, take_parts-AreShares}
use my_ng_platform.SaleOrders.Split.{
  OrderPayments, take_parts, split_payments, due_of, push_payments,
}

-- What the orders are paid, and what they want.
abbrev pub paid : List OrderPayments → ℤ
paid [] = pos 0
paid (p ∷ ps) = amounts p.payments +ℤ paid ps

abbrev pub dues : List SaleOrder → ℤ
dues [] = pos 0
dues (o ∷ os) = due_of o +ℤ dues os

-- An order is paid no more than it wants.
abbrev pub IsWithin : List SaleOrder → OrderPayments → Type 0
IsWithin os p = Some (λ o. (p.order ≡ o.id) × (amounts p.payments ≤ℤ due_of o)) os

-- The payments are shared out: no money is lost or made, no order is overpaid, and a payment is left
-- over only where every order has all that it wants.
pub record IsSplit (os : List SaleOrder) (ts : List TransactionItem)
    (r : List OrderPayments × List TransactionItem) : Type 0 where
  pub conserved : paid r.0 +ℤ amounts r.1 ≡ amounts ts
  pub within : All (IsWithin os) r.0
  pub paid_pos : pos 0 ≤ℤ paid r.0
  pub left_pos : All NonNegative r.1
  pub complete : (paid r.0 ≡ dues os) ⊎ All IsSpent r.1

paid-push :
    (id : ℕ) (ts : List TransactionItem) (ps : List OrderPayments)
    → paid (push_payments id ts ps) ≡ amounts ts +ℤ paid ps
paid-push id [] ps = grind int_laws
paid-push id (t ∷ ts) ps = refl

pub push-within :
    (P : OrderPayments → Type 0) (id : ℕ) (ts : List TransactionItem) (ps : List OrderPayments)
    → P (record { order = id; payments = ts })
    → All P ps
    → All P (push_payments id ts ps)
push-within P id [] ps h hs = hs
push-within P id (t ∷ ts) ps h hs = (h, hs)

IsSpent-amounts : (ts : List TransactionItem) → All IsSpent ts → amounts ts ≡ pos 0
IsSpent-amounts [] h = refl
IsSpent-amounts (t ∷ ts) (h, hs) = grind (int_laws, h, IsSpent-amounts ts hs)

amounts-pos : (ts : List TransactionItem) → All NonNegative ts → pos 0 ≤ℤ amounts ts
amounts-pos [] h = omega arith
amounts-pos (t ∷ ts) (h, hs) = grind (int_laws, amounts-pos ts hs)

amounts-IsSpent :
    (ts : List TransactionItem) → All NonNegative ts → amounts ts ≤ℤ pos 0 → All IsSpent ts
amounts-IsSpent [] h e = tt
amounts-IsSpent (t ∷ ts) (h, hs) e =
    let p = amounts-pos ts hs in (grind int_laws, amounts-IsSpent ts hs (grind int_laws))

taken-le : (a d due : ℤ) → a +ℤ d ≡ due → pos 0 ≤ℤ d → a ≤ℤ due
taken-le a d due e h = grind (int_laws, e)

abbrev IsOwed : SaleOrder → Type 0
IsOwed o = pos 0 ≤ℤ due_of o

zero_sum : (a b c : ℤ) → a +ℤ b ≡ c → pos 0 ≤ℤ a → c ≡ pos 0 → b ≤ℤ pos 0
zero_sum a b c e h z = grind (int_laws, e, z)

take_on : (x y z w v : ℤ) → x +ℤ y ≡ v → z +ℤ w ≡ y → x +ℤ z +ℤ w ≡ v
take_on x y z w v e f = grind (int_laws, e, f)

all_paid : (a d due : ℤ) → a +ℤ d ≡ due → d ≡ pos 0 → a ≡ due
all_paid a d due e z = grind (int_laws, e, z)

-- Where no payment is negative and no order is overpaid, the payments are shared among the orders: no
-- money is lost or made, no order gets more than it wants, neither what the orders get together nor
-- what is left of a payment is negative, and some payment is left only if the orders get together all
-- that they want.
pub split_payments-IsSplit :
    (os : List SaleOrder) (ts : List TransactionItem)
    → All IsOwed os
    → All NonNegative ts
    → IsSplit os ts (split_payments os ts)
unfolding split_payments
split_payments-IsSplit [] ts h k = record {
  conserved = grind int_laws;
  within = tt;
  paid_pos = omega arith;
  left_pos = k;
  complete = inl refl;
}
split_payments-IsSplit (o ∷ os) ts (h, hs) k =
    let s = take_parts (due_of o) ts in
    let a = take_parts-AreShares (due_of o) ts h k in
    let r = split_payments-IsSplit os s.left hs a.left_pos in
    let (rest, left) = split_payments os s.left in
    let sum = paid-push o.id s.taken rest in
    record {
      conserved = rw sum (take_on _ _ _ _ _ a.parts r.conserved);
      within =
          push-within (IsWithin (o ∷ os)) o.id s.taken rest
            (inl (refl, taken-le _ s.due _ a.wants a.due_pos))
            (All-map (IsWithin os) (IsWithin (o ∷ os)) rest (λ p w. inr w) r.within);
      paid_pos = rw sum (grind (int_laws, a.taken_pos, r.paid_pos));
      left_pos = r.left_pos;
      complete = elim r.complete [
        | inr z ↦ inr z
        | inl e ↦ elim a.ends [
          | inl z ↦ inl (rw (sum, e, all_paid _ _ _ a.wants z) refl)
          | inr z ↦ inr (
              amounts-IsSpent left r.left_pos
                (zero_sum _ _ _ r.conserved r.paid_pos (IsSpent-amounts s.left z)))
        ]
      ];
    }
