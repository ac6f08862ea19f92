-- ===== src/SaleOrders/Settle/Laws.antt =====
-- Several orders are settled, each in a database transaction of its own.
use my_ng_platform.Prelude.{
  ℕ, ◌≡◌, refl, ◌∙◌, ℤ, pos, ◌-ℤ◌, ltb_ℤ, eqb_ℤ, ◌||◌, Bool-cases, Bool, true, false, Option, none,
  some, List, [], ◌∷◌, map, All, inl, inr,
}
use my_ng_platform.Charging.{contains, find_order}
use my_ng_platform.Entities.{SaleOrder}
use my_ng_platform.Store.{Db, Result, ok, err, or_throw, Error}
use my_ng_platform.Receptions.{select_orders}
use my_ng_platform.SaleOrders.Split.{
  OrderPayments, take_part, take_parts, prepend, due_of, split_payments,
}
use my_ng_platform.SaleOrders.Split.Laws.{push-within}
use my_ng_platform.SaleOrders.Settle.{settle, settled_then, settle_each, settle_multiple_sale_order}
use my_ng_platform.Wallet.Contract.{
  Ensures, Ensures-continue, Ensures-pure, Ensures-err, Keeps, Outcome, roll_back-Outcome,
}
use my_ng_platform.Wallet.Providers.{TransactionItem}
use my_ng_platform.Wallet.Requests.{Env}
use my_ng_platform.Wallet.SettleOrder.{Sale}
use my_ng_platform.Wallet.SettleOrder.Laws.{Settles, settle_sale_order-Settles}
use my_ng_platform.Wallet.Table.{IsTable}

abbrev pub IsNew : TransactionItem → Type 0
IsNew t = t.id ≡ 0

settle-Keeps :
    (env : Env) (sale : Sale) (id : ℕ) (dtos : List TransactionItem) (b : Db)
    → IsTable b
    → All IsNew dtos
    → Outcome (Keeps b) b (settle env sale id dtos b)
unfolding settle
settle-Keeps env sale id dtos b d n = roll_back-Outcome (Keeps b) b _ (
    Ensures-continue (λ o b'. b' ≡ b) (Keeps b) _ _ (found (find_order id b.orders))
      λ o b' e. rw e (
        Ensures-continue (Settles o b) (Keeps b) _ _
          (settle_sale_order-Settles env (record sale { sale_unit = o.sale_unit }) dtos o true b d
            n)
          λ ts b'' s. Ensures-pure (Keeps b) true b'' s.kept))
  where
    found : (o : Option SaleOrder) → Ensures (λ _ b'. b' ≡ b) (or_throw Error.not_found_order o b)
    found none = Ensures-err _ _ b
    found (some o) = Ensures-pure _ o b refl

take_part-IsNew :
    (due : ℤ) (t : TransactionItem) (ts : List TransactionItem)
    → IsNew t
    → All IsNew ts
    → All IsNew (prepend (take_part due t).taken ts) × IsNew (take_part due t).left
unfolding take_part
take_part-IsNew due t ts n ns = elim (Bool-cases (eqb_ℤ due (pos 0) || eqb_ℤ t.amount (pos 0))) [
  | inl e ↦ rw e (ns, n)
  | inr e ↦ elim (Bool-cases (ltb_ℤ (pos 0) (due -ℤ t.amount))) [
    | inl f ↦ rw (e, f) ((n, ns), n)
    | inr f ↦ elim (Bool-cases (ltb_ℤ (due -ℤ t.amount) (pos 0))) [
      | inl g ↦ rw (e, f, g) ((n, ns), n)
      | inr g ↦ rw (e, f, g) ((n, ns), n)
    ]
  ]
]

take_parts-IsNew :
    (due : ℤ) (ts : List TransactionItem)
    → All IsNew ts
    → All IsNew (take_parts due ts).taken × All IsNew (take_parts due ts).left
unfolding take_parts
take_parts-IsNew due [] n = (tt, tt)
take_parts-IsNew due (t ∷ ts) (n, ns) =
    let p = take_part due t in
    let (taken, left) = take_parts-IsNew p.due ts ns in
    let (news, new) = take_part-IsNew due t (take_parts p.due ts).taken n taken in
    (news, (new, left))

split_payments-IsNew :
    (os : List SaleOrder) (ts : List TransactionItem)
    → All IsNew ts
    → All (λ p. All IsNew p.payments) (split_payments os ts).0
unfolding split_payments
split_payments-IsNew [] ts n = tt
split_payments-IsNew (o ∷ os) ts n =
    let s = take_parts (due_of o) ts in
    let (taken, left) = take_parts-IsNew (due_of o) ts n in
    push-within (λ p. All IsNew p.payments) o.id s.taken (split_payments os s.left).0 taken
      (split_payments-IsNew os s.left left)

-- The first of the ids, in their order.
abbrev pub Leads : List ℕ → List ℕ → Type 0
Leads [] js = Unit
Leads (i ∷ is) [] = ⊥
Leads (i ∷ is) (j ∷ js) = (i ≡ j) × Leads is js

abbrev pub HasSettled : Db → List OrderPayments → List ℕ × Db → Type 0
HasSettled b ps r = Keeps b tt r.1 × Leads r.0 (map (λ p. p.order) ps)

settled_then-HasSettled :
    (p : OrderPayments) (ps : List OrderPayments) (rest : Db → List ℕ × Db) (b : Db)
    (r : Result Bool × Db)
    → IsTable b
    → Outcome (Keeps b) b r
    → ((b' : Db) → IsTable b' → HasSettled b' ps (rest b'))
    → HasSettled b (p ∷ ps) (settled_then p.order rest r)
unfolding settled_then
settled_then-HasSettled p ps rest b (ok true, b') d k f =
    let ((d', ds), l) = f b' k.0 in ((d', λ u. ds u ∙ k.1 u), (refl, l))
settled_then-HasSettled p ps rest b (ok false, b') d k f = (k, tt)
settled_then-HasSettled p ps rest b (err e, b') d k f = (rw k (d, λ u. refl), tt)

settle_each-HasSettled :
    (env : Env) (sale : Sale) (ps : List OrderPayments) (b : Db)
    → IsTable b
    → All (λ p. All IsNew p.payments) ps
    → HasSettled b ps (settle_each env sale ps b)
unfolding settle_each
settle_each-HasSettled env sale [] b d n = ((d, λ u. refl), tt)
settle_each-HasSettled env sale (p ∷ ps) b d (n, ns) =
    settled_then-HasSettled p ps (settle_each env sale ps) b _ d
      (settle-Keeps env sale p.order p.payments b d n)
      λ b' d'. settle_each-HasSettled env sale ps b' d' ns

-- To settle several orders by new payments returns, whichever of them fail; it keeps the table in
-- order and the difference of every user's stored credit and recorded transactions, and the ids that
-- it returns are the first of the orders that have a share in the payments.
pub settle_multiple_sale_order-HasSettled :
    (env : Env) (sale : Sale) (ids : List ℕ) (dtos : List TransactionItem) (b : Db)
    → IsTable b
    → All IsNew dtos
    → HasSettled b
        (split_payments (select_orders (λ o. contains o.id ids) b.orders) dtos).0
        (settle_multiple_sale_order env sale ids dtos b)
unfolding settle_multiple_sale_order
settle_multiple_sale_order-HasSettled env sale ids dtos b d n =
    settle_each-HasSettled env sale _ b d
      (split_payments-IsNew (select_orders (λ o. contains o.id ids) b.orders) dtos n)
