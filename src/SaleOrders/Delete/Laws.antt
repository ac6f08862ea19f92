-- ===== src/SaleOrders/Delete/Laws.antt =====
-- What the removal of an order leaves.
use my_ng_platform.Prelude.{
  ℕ, suc, ◌≡◌, refl, ◌⊎◌, ◌==◌, Bool, true, false, none, some, List, [], ◌∷◌, All, All-map,
  Bool-cases, inl, inr,
}
use my_ng_platform.Entities.{Transaction, SaleOrder, SaleItem}
use my_ng_platform.Store.{Db, Result, Action, ok, err, find_row, continue_with}
use my_ng_platform.Charging.{find_order}
use my_ng_platform.Wallet.Contract.{
  Ensures, Ensures-continue, Ensures-pure, Keeps, Outcome, roll_back-Outcome,
}
use my_ng_platform.Wallet.Normalize.{select}
use my_ng_platform.Wallet.Normalize.Conserves.{select-IsCopy}
use my_ng_platform.Wallet.Orders.{is_of_order, last_wallet, remove_all}
use my_ng_platform.Wallet.Orders.Laws.{
  Clears, AreApart, remove_all-Clears, normalize_last-Clears, select-AreApart, is_of_order-IsLive,
}
use my_ng_platform.Wallet.Table.{IsTable, Stands}
use my_ng_platform.SaleOrders.Ends.{Ends, Ends-continue, Ends-map, Only-Ends}
use my_ng_platform.SaleOrders.Delete.Gather.{
  EarnsNone, IsUnused, IsStopped, IsTouched, stop_job-IsStopped, gather-Only,
}
use my_ng_platform.SaleOrders.Delete.{
  Removal, find_removable, live_items, save_given_back, remove_rows, remove_order, write_removal,
  delete_found, delete, gather, unlock,
}

-- An order that is gone, with its payments: the ledger is as far off as it was.
pub record IsGone (o : SaleOrder) (ts : List Transaction) (b b' : Db) : Type 0 where
  pub kept : Keeps b tt b'
  pub payments : All (λ t. find_row t.id b'.transactions ≡ none) ts
  pub order : find_order o.id b'.orders ≡ none

find_order-remove_order : (id : ℕ) (os : List SaleOrder) → find_order id (remove_order id os) ≡ none
unfolding find_order remove_order
find_order-remove_order id [] = refl
find_order-remove_order id (o ∷ os) = elim (Bool-cases (o.id == id)) [
  | inl e ↦ rw e (find_order-remove_order id os)
  | inr e ↦ rw e (rw e (find_order-remove_order id os))
]

Clears-IsGone :
    (o : SaleOrder) (is : List SaleItem) (r : Removal) (ts : List Transaction) (b b' : Db)
    → Clears ts (save_given_back is r b) b'
    → IsGone o ts b (remove_rows o is b')
unfolding save_given_back remove_rows
Clears-IsGone o is r ts b b' c = record {
  kept = c.kept;
  payments = c.gone;
  order = find_order-remove_order o.id b'.orders;
}

save_given_back-IsTable :
    (is : List SaleItem) (r : Removal) (b : Db) → IsTable b → IsTable (save_given_back is r b)
unfolding save_given_back
save_given_back-IsTable is r b d = d

save_given_back-Stands :
    (is : List SaleItem) (r : Removal) (ts : List Transaction) (b : Db)
    → All (Stands b.transactions) ts
    → All (Stands (save_given_back is r b).transactions) ts
unfolding save_given_back
save_given_back-Stands is r ts b s = s

write_removal-IsGone :
    (o : SaleOrder) (is : List SaleItem) (ts : List Transaction) (r : Removal) (b : Db)
    → IsTable b
    → All (Stands b.transactions) ts
    → AreApart ts
    → Outcome (λ _ b'. IsGone o ts b b') b (write_removal o is ts r b)
unfolding write_removal continue_with
write_removal-IsGone o is ts r b d s n =
    roll_back-Outcome (λ _ b'. IsGone o ts b b') b _
      (Ensures-continue (λ _ b'. Clears ts (save_given_back is r b) b') _ _ _ given
        λ _ b2 c.
          Ensures-continue (λ _ b'. Clears ts (save_given_back is r b) b') _ _ _
            (normalize_last-Clears (last_wallet ts) ts (save_given_back is r b) b2 c)
            λ _ b3 c3. Ensures-pure _ true _ (Clears-IsGone o is r ts b b3 c3))
  where
    given :
        Ensures
          (λ _ b'. Clears ts (save_given_back is r b) b')
          (remove_all false ts (save_given_back is r b))
    given =
        remove_all-Clears false ts (save_given_back is r b) (save_given_back-IsTable is r b d)
          (save_given_back-Stands is r ts b s) n

-- An order is gone with its payments, and it had no service and no credit of which some was used;
-- or nothing has changed, but for the job and the lockers.
abbrev pub IsRemoved : Db → SaleOrder → Result Bool × Db → Type 0
IsRemoved b o (ok _, b') =
    All IsUnused (live_items o.items) × IsGone o (select (is_of_order [] o.id) b.transactions) b b'
IsRemoved b o (err _, b') = IsTouched o.id b b'

-- The database as it was found, perhaps with the lockers free.
abbrev Kept : Db → SaleOrder → Db → Type 0
Kept b o b' = (b' ≡ b) ⊎ (b' ≡ unlock o.id b)

abbrev Gone : Db → SaleOrder → Bool → Db → Type 0
Gone b o _ b' =
    All IsUnused (live_items o.items) × IsGone o (select (is_of_order [] o.id) b.transactions) b b'

Ends-IsRemoved :
    (b : Db) (o : SaleOrder) (r : Result Bool × Db)
    → Ends (Gone b o) (IsTouched o.id b) r
    → IsRemoved b o r
unfolding Ends
Ends-IsRemoved b o (ok c, b') h = h
Ends-IsRemoved b o (err e, b') h = h

unlocked-IsGone :
    (o : SaleOrder) (ts : List Transaction) (b b' : Db)
    → IsGone o ts (unlock o.id b) b'
    → IsGone o ts b b'
unfolding unlock
unlocked-IsGone o ts b b' g = record { kept = g.kept; payments = g.payments; order = g.order }

unlock-IsTable : (id : ℕ) (b : Db) → IsTable b → IsTable (unlock id b)
unfolding unlock
unlock-IsTable id b d = d

unlock-Stands :
    (id : ℕ) (ts : List Transaction) (b : Db)
    → All (Stands b.transactions) ts
    → All (Stands (unlock id b).transactions) ts
unfolding unlock
unlock-Stands id ts b s = s

close :
    (o : SaleOrder) (ts : List Transaction) (b : Db) (r : Result Bool × Db)
    → All IsUnused (live_items o.items)
    → Outcome (λ _ b'. IsGone o ts (unlock o.id b) b') (unlock o.id b) r
    → Ends (λ _ b'. All IsUnused (live_items o.items) × IsGone o ts b b') (Kept b o) r
unfolding Ends
close o ts b (ok c, b') u g = (u, unlocked-IsGone o ts b b' g)
close o ts b (err e, b') u g = inr g

-- The payments of the order, in the database after the lockers are free.
written :
    (o : SaleOrder) (is : List SaleItem) (r : Removal) (b : Db)
    → IsTable b
    → All IsUnused (live_items o.items)
    → Ends
        (Gone b o)
        (Kept b o)
        (write_removal o is (select (is_of_order [] o.id) b.transactions) r (unlock o.id b))
written o is r b d u =
    let ts = select (is_of_order [] o.id) b.transactions in
    close o ts b _ u (
      write_removal-IsGone o is ts r (unlock o.id b) (unlock-IsTable o.id b d)
        (unlock-Stands o.id ts b (
          All-map _ _ _ (λ t c. c.stands)
            (select-IsCopy b.next_id (is_of_order [] o.id) b.transactions
              (is_of_order-IsLive [] o.id) d)))
        (select-AreApart b.next_id (is_of_order [] o.id) b.transactions d))

-- The rest of the call, whatever jobs there are.
after_job :
    (rec : ℕ → Action Bool) (b : Db) (o : SaleOrder) (jobs : ℕ → Bool)
    → IsTable b
    → All (EarnsNone b) (live_items o.items)
    → (let b' = record b { jobs = jobs } in
        Ends (Gone b o) (Kept b' o) (
          continue_with
            (write_removal o (live_items o.items) (select (is_of_order [] o.id) b.transactions))
            (gather rec b o
              (live_items o.items)
              (record { services = []; rooms = [] })
              (unlock o.id b'))))
after_job rec b o jobs d h =
    let b' = record b { jobs = jobs } in
    Ends-map (Gone b' o) (Gone b o) (Kept b' o) (Kept b' o) _
      (Ends-continue (λ _ b''. (b'' ≡ unlock o.id b') × All IsUnused (live_items o.items))
        (Gone b' o) (Kept b' o) _ _
        (Only-Ends _ (Kept b' o) (unlock o.id b') _
          (gather-Only rec b o (live_items o.items) _ (unlock o.id b') h) (inr refl))
        λ r b3 g. rw g.0 (written o (live_items o.items) r b' d g.1))
      (λ _ b'' g. (g.0, record { kept = g.1.kept; payments = g.1.payments; order = g.1.order }))
      λ b'' k. k

delete_found-IsRemoved :
    (rec : ℕ → Action Bool) (b : Db) (o : SaleOrder)
    → IsTable b
    → All (EarnsNone b) (live_items o.items)
    → IsRemoved b o (delete_found rec o b)
unfolding delete_found continue_with
delete_found-IsRemoved rec b o d h = Ends-IsRemoved b o _ (
    Ends-continue (λ _ b'. IsStopped o.id b b') (Gone b o) (IsTouched o.id b) _ _
      (Ends-map _ _ _ (IsTouched o.id b) _ (stop_job-IsStopped b o.id (live_items o.items) b)
        (λ _ b' s. s) λ b' e. inl (inl e))
      λ _ b1 s. elim s [
        | inl p ↦ rw p (
            Ends-map _ _ _ (IsTouched o.id b) _ (after_job rec b o b.jobs d h) (λ _ b' g. g)
              λ b' k. elim k [ inl e ↦ inl (inl e) | inr e ↦ inr (inl e) ])
        | inr p ↦ rw p (
            Ends-map _ _ _ (IsTouched o.id b) _ (after_job rec b o _ d h) (λ _ b' g. g)
              λ b' k. elim k [ inl e ↦ inl (inr e) | inr e ↦ inr (inr e) ])
      ])

-- To remove an order that earned no cash back removes it with its payments, and keeps the table in
-- order and the difference of every user's stored credit and recorded transactions; the removal of an
-- order with a service or a credit of which some was used throws. Where it throws, nothing has
-- changed, but that the job that ends the reception may be gone and the lockers of the order may be
-- free.
pub delete-IsRemoved :
    (fuel id : ℕ) (b : Db) (o : SaleOrder)
    → IsTable b
    → find_removable id b.orders ≡ some o
    → All (EarnsNone b) (live_items o.items)
    → IsRemoved b o (delete (suc fuel) id b)
unfolding delete
delete-IsRemoved fuel id b o d e h = rw (delete, e) (delete_found-IsRemoved (delete fuel) b o d h)
