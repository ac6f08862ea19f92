-- ===== src/Wallet/SettleOrder/Edits.antt =====
-- The payments that an edit of an order drops.
use my_ng_platform.Prelude.{
  ◌≢◌, refl, arith, Bool, true, false, not, List, [], ◌∷◌, All, All-map, Bool-cases, inl, inr,
}
use my_ng_platform.Entities.{Transaction, TransactionType, SaleOrder}
use my_ng_platform.Store.{Db, ◌>>◌}
use my_ng_platform.Wallet.Table.{IsTable, Stands}
use my_ng_platform.Wallet.Contract.{
  Ensures, Ensures-pure, Ensures-err, Ensures-map, Ensures-continue, Ensures-Any, Any,
}
use my_ng_platform.Wallet.Normalize.{is_user_credit, select}
use my_ng_platform.Wallet.Normalize.Conserves.{select-IsCopy}
use my_ng_platform.Wallet.Orders.{is_of_order, last_wallet, normalize_last}
use my_ng_platform.Wallet.Orders.Laws.{
  AreApart, select-AreApart, is_of_order-IsLive, Clears, Clears-more, still_standing,
  normalize_last-Clears,
}
use my_ng_platform.Wallet.Providers.{TransactionItem}
use my_ng_platform.Wallet.Remove.Laws.{Removes, do_remove_transaction-Removes}
use my_ng_platform.Wallet.SettleOrder.{remove_unloaded, remove_dropped, old_payments, is_asked}

-- The saved payments of an order: rows of the table, no two with one id.
pub record AreSaved (b : Db) (olds : List Transaction) : Type 0 where
  pub ids : All (λ t. t.id ≢ 0) olds
  pub stand : All (Stands b.transactions) olds
  pub apart : AreApart olds

pub old_payments-AreSaved :
    (edit : Bool) (o : SaleOrder) (b : Db)
    → IsTable b
    → AreSaved b (old_payments edit o b.transactions)
unfolding old_payments
old_payments-AreSaved false o b d = record { ids = tt; stand = tt; apart = tt }
old_payments-AreSaved true o b d =
    let copies =
      select-IsCopy b.next_id (is_of_order [] o.id) b.transactions (is_of_order-IsLive [] o.id) d in
    record {
      ids = All-map _ _ _ (λ t c e. omega (arith, c.positive, e)) copies;
      stand = All-map _ _ _ (λ t c. c.stands) copies;
      apart = select-AreApart b.next_id (is_of_order [] o.id) b.transactions d;
    }

select-All :
    (P : Transaction → Type 0) (p : Transaction → Bool) (ts : List Transaction)
    → All P ts
    → All P (select p ts)
unfolding select
select-All P p [] h = tt
select-All P p (t ∷ ts) (h, hs) = elim (Bool-cases (p t)) [
  | inl e ↦ rw e (h, select-All P p ts hs)
  | inr e ↦ rw e (select-All P p ts hs)
]

select-apart :
    (p : Transaction → Bool) (ts : List Transaction) → AreApart ts → AreApart (select p ts)
unfolding select
select-apart p [] h = tt
select-apart p (t ∷ ts) (h, hs) = elim (Bool-cases (p t)) [
  | inl e ↦ rw e (select-All (λ s. t.id ≢ s.id) p ts h, select-apart p ts hs)
  | inr e ↦ rw e (select-apart p ts hs)
]

remove_unloaded-Removes :
    (type : TransactionType) (t : Transaction) (b : Db)
    → IsTable b
    → Stands b.transactions t
    → Ensures (λ _ b'. Removes t b b') (remove_unloaded type t b)
unfolding remove_unloaded
remove_unloaded-Removes TransactionType.settle t b d s =
    elim (Bool-cases (is_user_credit t.source_type)) [
      | inl e ↦ rw e (Ensures-err _ _ b)
      | inr e ↦ rw e (
          Ensures-continue (λ _ b'. Removes t b b') _ _ _
            (do_remove_transaction-Removes t false false b d s) λ _ b' r. Ensures-pure _ tt b' r)
    ]
remove_unloaded-Removes TransactionType.deposit t b d s =
    Ensures-continue Any _ _ _ (Ensures-Any _) λ _ b' _. Ensures-err _ _ b'
remove_unloaded-Removes TransactionType.withdraw t b d s = Ensures-err _ _ b

remove_dropped-Clears :
    (ts : List Transaction) (b : Db)
    → IsTable b
    → All (Stands b.transactions) ts
    → AreApart ts
    → Ensures (λ _ b'. Clears ts b b') (remove_dropped ts b)
unfolding remove_dropped
remove_dropped-Clears [] b d s n =
    Ensures-pure _ tt b (record { kept = (d, λ u. refl); gone = tt; missing = λ i e. e })
remove_dropped-Clears (t ∷ ts) b d (s, ss) (n, ns) =
    Ensures-continue (λ _ b'. Removes t b b') _ _ _ (remove_unloaded-Removes t.type t b d s)
      λ _ b' r.
        Ensures-map (λ _ b''. Clears ts b' b'') (λ _ b''. Clears (t ∷ ts) b b'') _
          (remove_dropped-Clears ts b' r.kept.0 (still_standing t ts b b' r n ss) ns)
          λ _ b'' c. Clears-more t ts b b' b'' r c

-- The rows that an edit drops are removed.
pub dropped-Clears :
    (dtos : List TransactionItem) (olds : List Transaction) (b : Db)
    → IsTable b
    → AreSaved b olds
    → let dropped = select (λ t. not (is_asked dtos t)) olds in
      Ensures
        (λ _ b'. Clears dropped b b')
        ((remove_dropped dropped >> normalize_last (last_wallet dropped)) b)
dropped-Clears dtos olds b d s =
    let dropped = select (λ t. not (is_asked dtos t)) olds in
    Ensures-continue (λ _ b'. Clears dropped b b') _ _ _
      (remove_dropped-Clears dropped b d (select-All _ _ olds s.stand)
        (select-apart _ olds s.apart))
      λ _ b' c. normalize_last-Clears (last_wallet dropped) dropped b b' c
