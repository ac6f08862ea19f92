-- ===== src/SaleOrders/Delete/Used.antt =====
-- An order whose cash back was used.
use my_ng_platform.Prelude.{
  arith, ℕ, suc, ◌≡◌, refl, true, false, some, List, [], ◌∷◌, All, Some, Bool, Bool-cases,
  Option-cases, inl, inr,
}
use my_ng_platform.Entities.{SaleOrder, SaleItem, Product}
use my_ng_platform.Store.{Db, Result, Action, ok, err, continue_with}
use my_ng_platform.SaleOrders.Ends.{
  Ends, Ends-continue, Ends-ok, Ends-err, Ends-map, Only, Only-continue, Only-map, Only-Ends,
}
use my_ng_platform.SaleOrders.Delete.{
  Removal, live_items, find_cash_back, find_removable, first_used, check_item, gather,
  remove_cash_back, delete_found, delete, unlock,
}
use my_ng_platform.SaleOrders.Delete.Gather.{
  EarnsNone, Nothing, IsStopped, IsTouched, stop_job-IsStopped, gather_item-Only,
}

-- The cash back of the order was used.
pub record IsCashedBack (o : SaleOrder) (b : Db) : Type 0 where
  pub order : SaleOrder
  pub item : SaleItem
  pub items : List SaleItem
  pub found : find_cash_back o.id b.orders ≡ some order
  pub sold : live_items order.items ≡ item ∷ items
  pub used : first_used (item ∷ items) ≡ true

remove_cash_back-Only :
    (rec : ℕ → Action Bool) (o : SaleOrder) (b : Db)
    → IsCashedBack o b
    → Only (λ _. ⊥) b (remove_cash_back rec o b)
unfolding remove_cash_back
remove_cash_back-Only rec o b u =
    rw (remove_cash_back, u.found)
      (rw (remove_cash_back, u.sold) (rw u.used (Ends-err _ _ _ b refl)))

check_item-used :
    (P : Type 0) (rec : ℕ → Action Bool) (d : Db) (o : SaleOrder) (i : SaleItem) (b : Db)
    → IsCashedBack o b
    → (EarnsNone d i → P)
    → Only (λ _. P) b (check_item rec d o i b)
unfolding check_item
check_item-used P rec d o i b u k = elim (Bool-cases i.is_cash_back) [
  | inl e ↦ rw e (Ends-ok _ _ tt b (refl, k (inl e)))
  | inr e ↦ elim (Option-cases (d.products i.product)) [
    | inl f ↦ rw (check_item, e, f) (Ends-err _ _ _ b refl)
    | inr (p, f) ↦ elim (Bool-cases p.is_cash_back) [
      | inl g ↦
          rw (check_item, e, f, g)
            (Only-map (λ _. ⊥) (λ _. P) b _ (remove_cash_back-Only rec o b u) λ _ n. absurd n)
      | inr g ↦ rw (check_item, e, f, g) (Ends-ok _ _ tt b (refl, k (inr (p, f, g))))
    ]
  ]
]

gather-used :
    (rec : ℕ → Action Bool) (d : Db) (o : SaleOrder) (is : List SaleItem) (r : Removal) (b : Db)
    → IsCashedBack o b
    → Only (λ _. All (EarnsNone d) is) b (gather rec d o is r b)
unfolding gather
gather-used rec d o [] r b u = Ends-ok _ _ r b (refl, tt)
gather-used rec d o (i ∷ is) r b u =
    Only-continue Nothing (λ _. All (EarnsNone d) (i ∷ is)) b _ _
      (Only-map _ Nothing b _ (gather_item-Only d i r b) λ _ _. tt)
      λ r' _.
        Only-continue (λ _. EarnsNone d i) (λ _. All (EarnsNone d) (i ∷ is)) b _ _
          (check_item-used (EarnsNone d i) rec d o i b u λ e. e)
          λ _ h.
            Only-map (λ _. All (EarnsNone d) is) (λ _. All (EarnsNone d) (i ∷ is)) b _
              (gather-used rec d o is r' b u) λ _ hs. (h, hs)

-- The item earned a cash back.
pub record Earned (d : Db) (i : SaleItem) : Type 0 where
  pub product : Product
  pub own : i.is_cash_back ≡ false
  pub found : d.products i.product ≡ some product
  pub earns : product.is_cash_back ≡ true

not_EarnsNone : (d : Db) (i : SaleItem) → Earned d i → EarnsNone d i → ⊥
not_EarnsNone d i e (inl h) = let o = e.own in ground (arith, h, o)
not_EarnsNone d i e (inr (p, h, k)) =
    let f = e.found in let b = e.earns in ground (arith, f, b, h, k)

-- The request is refused, and nothing has changed, but for the job and the lockers.
abbrev pub IsRefused : Db → SaleOrder → Result Bool × Db → Type 0
IsRefused b o (ok _, b') = ⊥
IsRefused b o (err _, b') = IsTouched o.id b b'

not_all : (d : Db) (is : List SaleItem) → Some (Earned d) is → All (EarnsNone d) is → ⊥
not_all d [] h k = h
not_all d (i ∷ is) (inl h) (k, ks) = not_EarnsNone d i h k
not_all d (i ∷ is) (inr h) (k, ks) = not_all d is h ks

Never-IsRefused :
    (b : Db) (o : SaleOrder) (r : Result Bool × Db)
    → Ends (λ _ _. ⊥) (IsTouched o.id b) r
    → IsRefused b o r
unfolding Ends
Never-IsRefused b o (ok c, b') h = h
Never-IsRefused b o (err e, b') h = h

unlock-IsCashedBack :
    (o : SaleOrder) (b : Db) (jobs : ℕ → Bool)
    → IsCashedBack o b
    → IsCashedBack o (unlock o.id (record b { jobs = jobs }))
unfolding unlock
unlock-IsCashedBack o b jobs u = record {
  order = u.order;
  item = u.item;
  items = u.items;
  found = u.found;
  sold = u.sold;
  used = u.used;
}

-- The rest of the call, whatever jobs there are.
after_job :
    (rec : ℕ → Action Bool) (b : Db) (o : SaleOrder) (jobs : ℕ → Bool) (k : Removal → Action Bool)
    → IsCashedBack o b
    → Some (Earned b) (live_items o.items)
    → (let b' = unlock o.id (record b { jobs = jobs }) in
        Ends
          (λ _ _. ⊥)
          (λ b''. b'' ≡ b')
          (continue_with k
            (gather rec b o (live_items o.items) (record { services = []; rooms = [] }) b')))
after_job rec b o jobs k u h =
    let b' = unlock o.id (record b { jobs = jobs }) in
    Ends-continue (λ _ b''. (b'' ≡ b') × All (EarnsNone b) (live_items o.items)) (λ _ _. ⊥)
      (λ b''. b'' ≡ b') _ _
      (Only-Ends _ (λ b''. b'' ≡ b') b' _
        (gather-used rec b o (live_items o.items) _ b' (unlock-IsCashedBack o b jobs u)) refl)
      λ r b3 g. absurd (not_all b (live_items o.items) h g.1)

delete_found-IsRefused :
    (rec : ℕ → Action Bool) (b : Db) (o : SaleOrder)
    → IsCashedBack o b
    → Some (Earned b) (live_items o.items)
    → IsRefused b o (delete_found rec o b)
unfolding delete_found continue_with
delete_found-IsRefused rec b o u h = Never-IsRefused b o _ (
    Ends-continue (λ _ b'. IsStopped o.id b b') (λ _ _. ⊥) (IsTouched o.id b) _ _
      (Ends-map _ _ _ (IsTouched o.id b) _ (stop_job-IsStopped b o.id (live_items o.items) b)
        (λ _ b' s. s) λ b' e. inl (inl e))
      λ _ b1 s. elim s [
        | inl p ↦ rw p (
            Ends-map _ _ _ (IsTouched o.id b) _ (after_job rec b o b.jobs _ u h) (λ _ b' g. g)
              λ b' e. inr (inl e))
        | inr p ↦ rw p (
            Ends-map _ _ _ (IsTouched o.id b) _ (after_job rec b o _ _ u h) (λ _ b' g. g)
              λ b' e. inr (inr e))
      ])

-- An order with an item that earned a cash back, of which some was used, is not removed: the request
-- throws, and nothing has changed, but that the job that ends the reception may be gone and the
-- lockers of the order may be free.
pub delete-IsRefused :
    (fuel id : ℕ) (b : Db) (o : SaleOrder)
    → find_removable id b.orders ≡ some o
    → IsCashedBack o b
    → Some (Earned b) (live_items o.items)
    → IsRefused b o (delete (suc fuel) id b)
unfolding delete
delete-IsRefused fuel id b o e u h = rw (delete, e) (delete_found-IsRefused (delete fuel) b o u h)
