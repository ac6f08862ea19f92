-- ===== src/Wallet/Orders/Laws.antt =====
-- The payments of an order are gone, and the ledger is as far off as it was.
use my_ng_platform.Prelude.{
  ℕ, suc, ◌<◌, ◌≡◌, ◌≢◌, refl, ◌∙◌, ◌⊎◌, ◌&&◌, arith, Bool, true, false, none, some, Option, List,
  [], ◌∷◌, All, All-map, Bool-cases, inl, inr, map,
}
use my_ng_platform.Entities.{Transaction, TransactionSourceType, SaleOrder}
use my_ng_platform.Store.{Db, Error, Result, ok, err, find_row, throw_if}
use my_ng_platform.Wallet.Table.{IsTable, Descending, Stands}
use my_ng_platform.Wallet.Contract.{
  Ensures, Ensures-map, Ensures-continue, Ensures-pure, Ensures-err, Keeps, Reads, Reads-continue,
}
use my_ng_platform.Wallet.Normalize.{select}
use my_ng_platform.Wallet.Normalize.Conserves.{
  IsCopy, IsLive, select-IsCopy, normalize_after_date-Rewrites,
}
use my_ng_platform.Wallet.Remove.{removed}
use my_ng_platform.Wallet.Remove.Laws.{Removes, do_remove_transaction-Removes}
use my_ng_platform.Wallet.Orders.{
  check_cash_back, sells_cash_back, cash_back_is_used, is_of_order, remove_all, last_wallet,
  normalize_last, delete_all_by_order_id,
}

-- No two rows have one id.
abbrev pub AreApart : List Transaction → Type 0
AreApart [] = Unit
AreApart (t ∷ ts) = All (λ s. t.id ≢ s.id) ts × AreApart ts

select-below :
    (n m : ℕ) (p : Transaction → Bool) (rows : List Transaction)
    → Descending n rows
    → n < suc m
    → All (λ s. s.id < m) (select p rows)
unfolding select
select-below n m p [] d h = tt
select-below n m p (r ∷ rs) (d, ds) h = elim (Bool-cases (p r)) [
  | inl e ↦ rw e (omega arith, select-below r.id m p rs ds (omega arith))
  | inr e ↦ rw e (select-below r.id m p rs ds (omega arith))
]

pub select-AreApart :
    (n : ℕ) (p : Transaction → Bool) (rows : List Transaction)
    → Descending n rows
    → AreApart (select p rows)
unfolding select
select-AreApart n p [] d = tt
select-AreApart n p (r ∷ rs) (d, ds) = elim (Bool-cases (p r)) [
  | inl e ↦ rw e (
    All-map (λ s. s.id < r.id) (λ s. r.id ≢ s.id) (select p rs) (λ s h e. omega (arith, h, e))
        (select-below r.id r.id p rs ds (omega arith)),
    select-AreApart r.id p rs ds,
  )
  | inr e ↦ rw e (select-AreApart r.id p rs ds)
]

-- What the removal of several rows leaves.
pub record Clears (ts : List Transaction) (b : Db) (b' : Db) : Type 0 where
  pub kept : Keeps b tt b'
  pub gone : All (λ t. find_row t.id b'.transactions ≡ none) ts
  pub missing : (i : ℕ) → find_row i b.transactions ≡ none → find_row i b'.transactions ≡ none

pub still_standing :
    (t : Transaction) (ts : List Transaction) (b b' : Db)
    → Removes t b b'
    → All (λ s. t.id ≢ s.id) ts
    → All (Stands b.transactions) ts
    → All (Stands b'.transactions) ts
still_standing t [] b b' r n s = tt
still_standing t (u ∷ us) b b' r (n, ns) (s, ss) =
    (r.others u n s, still_standing t us b b' r ns ss)

-- One more row that is removed before them.
pub Clears-more :
    (t : Transaction) (ts : List Transaction) (b b' b'' : Db)
    → Removes t b b'
    → Clears ts b' b''
    → Clears (t ∷ ts) b b''
Clears-more t ts b b' b'' r c = record {
  kept = (c.kept.0, λ u. c.kept.1 u ∙ r.kept.1 u);
  gone = (c.missing t.id r.gone, c.gone);
  missing = λ i e. c.missing i (r.missing i e);
}

pub remove_all-Clears :
    (flag : Bool) (ts : List Transaction) (b : Db)
    → IsTable b
    → All (Stands b.transactions) ts
    → AreApart ts
    → Ensures (λ _ b'. Clears ts b b') (remove_all flag ts b)
unfolding remove_all
remove_all-Clears flag [] b d s n =
    Ensures-pure _ tt b (record { kept = (d, λ u. refl); gone = tt; missing = λ i e. e })
remove_all-Clears flag (t ∷ ts) b d (s, ss) (n, ns) =
    Ensures-continue (λ _ b'. Removes t b b') _ _ _
      (do_remove_transaction-Removes t flag false b d s)
      λ _ b' r.
        Ensures-map (λ _ b''. Clears ts b' b'') (λ _ b''. Clears (t ∷ ts) b b'') _
          (remove_all-Clears flag ts b' r.kept.0 (still_standing t ts b b' r n ss) ns)
          λ _ b'' c. Clears-more t ts b b' b'' r c

pub normalize_last-Clears :
    (o : Option Transaction) (ts : List Transaction) (b₀ b : Db)
    → Clears ts b₀ b
    → Ensures (λ _ b'. Clears ts b₀ b') (normalize_last o b)
normalize_last-Clears none ts b₀ b c = Ensures-pure _ tt b c
normalize_last-Clears (some t) ts b₀ b c =
    let w = normalize_after_date-Rewrites t.user t.submit_at b c.kept.0 in
    Ensures-continue (λ _ b'. Clears ts b₀ b') (λ _ b'. Clears ts b₀ b') _ _
      (rw w.result (
        Ensures-pure _ w.value _ (record {
          kept = (w.table, λ u. rw (w.sums u) (c.kept.1 u));
          gone =
              All-map (λ t. find_row t.id b.transactions ≡ none) (λ t. find_row t.id w.rows ≡ none)
                ts (λ t e. w.missing t.id e) c.gone;
          missing = λ i e. w.missing i (c.missing i e);
        })))
      λ _ b' c'. Ensures-pure _ tt b' c'

pub is_of_order-IsLive :
    (types : List TransactionSourceType) (order : ℕ) → IsLive (is_of_order types order)
unfolding is_of_order
is_of_order-IsLive types order t e = ground (arith, e)

Result-cases : {A : Type 0} (r : Result A) → ((a : A) × (r ≡ ok a)) ⊎ ((e : Error) × (r ≡ err e))
Result-cases (ok a) = inl (a, refl)
Result-cases (err e) = inr (e, refl)

throw_if-Reads : (e : Error) (c : Bool) (b : Db) → Reads b (throw_if e c b)
throw_if-Reads e true b = Ensures-err _ e b
throw_if-Reads e false b = Ensures-pure _ tt b refl

check_cash_back-Reads : (o : SaleOrder) (b : Db) → Reads b (check_cash_back o b)
unfolding check_cash_back
check_cash_back-Reads o b = elim (Result-cases (sells_cash_back b o.items)) [
  | inr (e, h) ↦ rw (check_cash_back, h) (Ensures-err _ e b)
  | inl (sells, h) ↦
      rw (check_cash_back, h)
        (throw_if-Reads Error.cash_back_used (sells && cash_back_is_used o b.orders) b)
]

-- The rows of the order that the types name are removed all, the table stays in order, and for
-- every user the difference of the stored credit and the recorded transactions is as it was, unless
-- the call throws.
pub delete_all_by_order_id-Clears :
    (types : List TransactionSourceType) (flag : Bool) (o : SaleOrder) (b : Db)
    → IsTable b
    → Ensures
        (λ _ b'. Clears (select (is_of_order types o.id) b.transactions) b b')
        (delete_all_by_order_id types flag o b)
unfolding delete_all_by_order_id
delete_all_by_order_id-Clears types flag o b d =
    let ts = select (is_of_order types o.id) b.transactions in
    Ensures-continue (λ rows b'. (b' ≡ b) × (rows ≡ ts)) _ _ _
      (Reads-continue _ _ b _ (check_cash_back-Reads o b) λ _. Ensures-pure _ ts b (refl, refl))
      λ rows b' h.
        rw (h.0, h.1)
          (Ensures-continue (λ _ b'. Clears ts b b') _ _ _
            (remove_all-Clears flag ts b d
              (All-map (IsCopy b.next_id b.transactions) (Stands b.transactions) ts
                (λ t c. c.stands)
                (select-IsCopy b.next_id (is_of_order types o.id) b.transactions
                  (is_of_order-IsLive types o.id) d))
              (select-AreApart b.next_id (is_of_order types o.id) b.transactions d))
            λ _ b1 c.
              Ensures-continue (λ _ b'. Clears ts b b') _ _ _
                (normalize_last-Clears (last_wallet ts) ts b b1 c)
                λ _ b2 c2. Ensures-pure _ (map removed ts) b2 c2)
