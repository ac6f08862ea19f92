-- ===== src/Wallet/SettleOrder/Laws.antt =====
-- New payments of an order against the ledger, and the amount that the order is settled by.
use my_ng_platform.Prelude.{
  ℕ, ◌≡◌, refl, ◌∙◌, ap, ℤ, ◌-ℤ◌, Bool, pos, ◌&&◌, none, some, Option, List, [], ◌∷◌, Bool-cases,
  Option-cases, inl, inr, All, ltb, ◌==◌, not,
}
use my_ng_platform.Charging.{find_order}
use my_ng_platform.Clock.{get_date}
use my_ng_platform.Entities.{Transaction, SaleOrder}
use my_ng_platform.Store.{Db, pure, modify, ◌>>◌, save, save_all, continue_with}
use my_ng_platform.Wallet.Table.{IsTable}
use my_ng_platform.Wallet.Contract.{
  Ensures, Ensures-pure, Ensures-err, Ensures-map, Ensures-continue, Ensures-both, Keeps,
}
use my_ng_platform.Wallet.Deposit.{is_charging}
use my_ng_platform.Wallet.Deposit.Rows.{total}
use my_ng_platform.Wallet.Normalize.{
  is_user_credit, select, last_before, is_charge, normalize_after_date,
  normalize_charges_after_date, live_item,
}
use my_ng_platform.Wallet.Orders.{last_wallet, normalize_last}
use my_ng_platform.Wallet.Providers.{TransactionItem}
use my_ng_platform.Wallet.Requests.{Env}
use my_ng_platform.Wallet.Settle.{after_settlement, after_settlements}
use my_ng_platform.Wallet.Settle.Laws.{
  save_all-unsaved, paid-drift, nothing_paid, after_settlements-Keeps,
}
use my_ng_platform.Wallet.SettleOrder.{
  Sale, old_payments, is_asked, remove_dropped, set_settled, settle_sale_order,
}
use my_ng_platform.Wallet.Ledger.{balance}
use my_ng_platform.Wallet.Orders.Laws.{Clears}
use my_ng_platform.Wallet.Settle.Payments.{ArePaid}
use my_ng_platform.Wallet.SettleOrder.Edits.{AreSaved, old_payments-AreSaved, dropped-Clears}
use my_ng_platform.Wallet.SettleOrder.Payments.{IsPaying, settle_payments-IsPaying}

-- Saving and normalizing leave the orders.
abbrev SameOrders : {A : Type 0} → Db → A → Db → Type 0
SameOrders b a b' = b'.orders ≡ b.orders

save-orders :
    (t : Transaction) (b : Db)
    → Ensures (λ t' b'. (t'.amount ≡ t.amount) × (b'.orders ≡ b.orders)) (save t b)
unfolding save
save-orders t b = elim (Bool-cases (t.id == 0)) [
  | inl e ↦ rw e (Ensures-pure _ _ _ (refl, refl))
  | inr e ↦ rw e (Ensures-pure _ t _ (refl, refl))
]

save_all-orders :
    (ts : List Transaction) (b : Db)
    → Ensures (λ ts' b'. (total ts' ≡ total ts) × (b'.orders ≡ b.orders)) (save_all ts b)
unfolding save_all total
save_all-orders [] b = Ensures-pure _ [] b (refl, refl)
save_all-orders (t ∷ ts) b = Ensures-continue _ _ _ _ (save-orders t b) λ t' b' p.
    Ensures-continue _ _ _ _ (save_all-orders ts b')
      λ ts' b'' q. Ensures-pure _ _ b'' (rw (p.0, q.0) refl, q.1 ∙ p.1)

normalize_after_date-orders :
    (u at : ℕ) (b : Db) → Ensures (SameOrders b) (normalize_after_date u at b)
unfolding normalize_after_date
normalize_after_date-orders u at b = Ensures-map _ _ _ (save_all-orders _ b) λ _ b' p. p.1

normalize_charges-orders :
    (u at source : ℕ) (b : Db) → Ensures (SameOrders b) (normalize_charges_after_date u at source b)
unfolding normalize_charges_after_date
normalize_charges-orders u at source b = elim (Option-cases (live_item (b.sale_items source))) [
  | inr (service, e) ↦
      rw (normalize_charges_after_date, e) (Ensures-map _ _ _ (save_all-orders _ b) λ _ b' p. p.1)
  | inl e ↦ elim (Option-cases (last_before (is_charge u source) at b.transactions)) [
    | inl f ↦ rw (normalize_charges_after_date, e, f) (Ensures-err _ _ b)
    | inr (l, f) ↦
        rw (normalize_charges_after_date, e, f)
          (Ensures-map _ _ _ (save_all-orders _ b) λ _ b' p. p.1)
  ]
]

after_settlement-orders :
    (env : Env) (t : Transaction) (b : Db) → Ensures (SameOrders b) (after_settlement env t b)
unfolding after_settlement
after_settlement-orders env t b =
    elim (Bool-cases (is_user_credit t.source_type && ltb t.submit_at env.clock.now)) [
      | inl e ↦ rw e (
          Ensures-continue (SameOrders b) (SameOrders b) _ _
            (normalize_after_date-orders t.user t.submit_at b)
            λ ts b' k. Ensures-pure (SameOrders b) tt b' k)
      | inr e ↦
          elim (Bool-cases
            (ltb (get_date env.clock env.clock.now) (get_date env.clock t.submit_at))) [
              | inl f ↦ rw (e, f) (Ensures-err (SameOrders b) _ b)
              | inr f ↦
                  elim (Bool-cases (is_charging t.source_type && ltb t.submit_at env.clock.now)) [
                    | inl g ↦
                        rw (e, f, g)
                          (Ensures-continue (SameOrders b) (SameOrders b) _ _
                            (normalize_charges-orders t.user t.submit_at t.source b)
                            λ ts b' k. Ensures-pure (SameOrders b) tt b' k)
                    | inr g ↦ rw (e, f, g) (Ensures-pure (SameOrders b) tt b refl)
                  ]
            ]
    ]

after_settlements-orders :
    (env : Env) (ts : List Transaction) (b : Db)
    → Ensures (SameOrders b) (after_settlements env ts b)
unfolding after_settlements
after_settlements-orders env [] b = Ensures-pure (SameOrders b) tt b refl
after_settlements-orders env (t ∷ ts) b =
    Ensures-continue (SameOrders b) (SameOrders b) _ _ (after_settlement-orders env t b) λ _ b' p.
      Ensures-map (SameOrders b') (SameOrders b) _ (after_settlements-orders env ts b')
        λ _ b'' q. q ∙ p

abbrev Each : (SaleOrder → Type 0) → Option SaleOrder → Type 0
Each P none = Unit
Each P (some o) = P o

find_order-set_settled :
    (i : ℕ) (sum : ℤ) (os : List SaleOrder)
    → Each (λ o. o.settle_amount ≡ sum) (find_order i (set_settled i sum os))
unfolding find_order set_settled
find_order-set_settled i sum [] = tt
find_order-set_settled i sum (o ∷ os) = elim (Bool-cases (o.id == i)) [
  | inl e ↦ rw e (rw e refl)
  | inr e ↦ rw e (rw e (find_order-set_settled i sum os))
]

-- What a settlement of an order does: the ledger stays as far off as it was, and the order, if it is
-- in the database, is settled by what the rows come to.
pub record Settles (o : SaleOrder) (b : Db) (ts : List Transaction) (b' : Db) : Type 0 where
  pub kept : Keeps b tt b'
  pub settled : Each (λ o'. o'.settle_amount ≡ total ts) (find_order o.id b'.orders)

-- The new rows, saved after the dropped ones are removed.
saved_after-Keeps :
    (dtos : List TransactionItem) (olds rows : List Transaction) (b b' : Db)
    → IsTable b
    → AreSaved b olds
    → ArePaid b rows b'
    → Ensures
        (λ ts b''. Keeps b tt b'' × (total ts ≡ total rows))
        ((let dropped = select (λ t. not (is_asked dtos t)) olds in
            remove_dropped dropped >> normalize_last (last_wallet dropped) >> save_all rows)
          b')
saved_after-Keeps dtos olds rows b b' d s p =
    Ensures-continue (λ _ b1. Clears (select (λ t. not (is_asked dtos t)) olds) b' b1) _ _ _
      (dropped-Clears dtos olds b' (rw (p.same_next, p.same_rows) d)
        (record { ids = s.ids; stand = rw p.same_rows s.stand; apart = s.apart }))
      λ _ b1 c.
        Ensures-map _ _ _
          (Ensures-both _ _ _ (save_all-unsaved rows b1 c.kept.0 p.unsaved)
            (save_all-orders rows b1))
          λ ts b2 q. (
            (
              q.0.0,
              λ u. q.0.1 u ∙ ap (λ x. x -ℤ balance u rows) (c.kept.1 u) ∙ paid-drift u rows b b' p,
            ),
            q.1.0,
          )

closing :
    (env : Env) (o : SaleOrder) (sum : ℤ) (saved : List Transaction) (b₀ b : Db)
    → Keeps b₀ tt b
    → total saved ≡ sum
    → Ensures (Settles o b₀) (
        (modify (λ b. record b { orders = set_settled o.id sum b.orders })
            >> after_settlements env saved
            >> pure saved)
          b)
unfolding continue_with
closing env o sum saved b₀ b k e =
    let b' : Db = record b { orders = set_settled o.id sum b.orders } in
    Ensures-continue (λ _ b''. Keeps b₀ tt b'' × (b''.orders ≡ b'.orders)) (Settles o b₀) _ _
      (Ensures-both _ _ _ (after_settlements-Keeps env saved b₀ b' (k.0, k.1))
        (after_settlements-orders env saved b'))
      λ _ b'' q.
        Ensures-pure (Settles o b₀) saved b''
          (record { kept = q.0; settled = rw (q.1, e) (find_order-set_settled o.id sum b.orders) })

-- New payments of an order, from whatever sources and users, keep the table in order and the
-- difference of every user's stored credit and recorded transactions, and leave the order settled by
-- the sum of the rows that are recorded, unless the call throws. An edit, which also removes the
-- payments that were there, does so too.
pub settle_sale_order-Settles :
    (env : Env) (sale : Sale) (dtos : List TransactionItem) (o : SaleOrder) (edit : Bool) (b : Db)
    → IsTable b
    → All (λ dto. dto.id ≡ 0) dtos
    → Ensures (Settles o b) (settle_sale_order env sale dtos o edit b)
unfolding settle_sale_order continue_with total
settle_sale_order-Settles env sale dtos o edit b d n =
    let olds = old_payments edit o b.transactions in
    let s = old_payments-AreSaved edit o b d in
    Ensures-continue (IsPaying olds b) (Settles o b) _ _
      (settle_payments-IsPaying olds env sale o dtos
        (record { olds = olds; rows = []; sum = pos 0 }) b b n
        (record { same_olds = refl; all_saved = s.ids; paid = nothing_paid b; sums = refl }))
      λ p b' k.
        Ensures-continue (λ ts b''. Keeps b tt b'' × (total ts ≡ p.sum)) (Settles o b) _ _
          (rw (k.same_olds, k.sums) (saved_after-Keeps dtos olds p.rows b b' d s k.paid))
          λ ts b'' q. closing env o p.sum ts b b'' q.0 q.1
