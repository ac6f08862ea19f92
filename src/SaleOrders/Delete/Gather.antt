-- ===== src/SaleOrders/Delete/Gather.antt =====
-- What the loop over the items of an order tests.
use my_ng_platform.Prelude.{
  ℕ, ◌≡◌, refl, ◌⊎◌, pos, ltb_ℤ, ltb, true, false, ◌&&◌, some, List, [], ◌∷◌, All, Bool, Bool-cases,
  Option-cases, inl, inr,
}
use my_ng_platform.Entities.{SaleOrder, SaleItem, Product}
use my_ng_platform.Store.{Db, Action}
use my_ng_platform.SaleOrders.Ends.{Ends, Ends-ok, Ends-err, Only, Only-continue, Only-map}
use my_ng_platform.SaleOrders.Delete.{
  Removal, stop_job, delete_cron_job, unlock, gather_item, check_item, gather, is_service,
  is_credit_type,
}

-- The item did not earn a cash back.
abbrev pub EarnsNone : Db → SaleItem → Type 0
EarnsNone d i =
    (i.is_cash_back ≡ true)
    ⊎ ((p : Product) × (d.products i.product ≡ some p) × (p.is_cash_back ≡ false))

-- Nothing of a service or of a credit was used.
abbrev pub IsUnused : SaleItem → Type 0
IsUnused i =
    ((ltb_ℤ (pos 0) i.used_credit && is_service i.type) ≡ false)
    × ((ltb_ℤ (pos 0) i.used_credit && is_credit_type i.type) ≡ false)

abbrev pub Nothing : {A : Type 0} → A → Type 0
Nothing a = Unit

-- The job of the order may be gone.
abbrev pub IsStopped : ℕ → Db → Db → Type 0
IsStopped order b b' = (b' ≡ b) ⊎ (b' ≡ delete_cron_job order b)

-- The database after the call that looks for the job, and perhaps after the lockers are free.
abbrev pub IsTouched : ℕ → Db → Db → Type 0
IsTouched order b b' =
    IsStopped order b b' ⊎ ((b' ≡ unlock order b) ⊎ (b' ≡ unlock order (delete_cron_job order b)))

pub stop_job-IsStopped :
    (d : Db) (order : ℕ) (is : List SaleItem) (b : Db)
    → Ends (λ _ b'. IsStopped order b b') (λ b'. b' ≡ b) (stop_job d order is b)
unfolding stop_job
stop_job-IsStopped d order [] b = Ends-ok _ _ tt b (inl refl)
stop_job-IsStopped d order (i ∷ is) b = elim (Option-cases (d.products i.product)) [
  | inl e ↦ rw (stop_job, e) (Ends-err _ _ _ b refl)
  | inr (p, e) ↦ elim (Bool-cases (ltb 0 p.fair_use_time && p.exits_after_unfair_usage)) [
    | inl f ↦ rw (stop_job, e, f) (Ends-ok _ _ tt _ (inr refl))
    | inr f ↦ rw (stop_job, e, f) (stop_job-IsStopped d order is b)
  ]
]

pub gather_item-Only :
    (d : Db) (i : SaleItem) (r : Removal) (b : Db) → Only (λ _. IsUnused i) b (gather_item d i r b)
unfolding gather_item
gather_item-Only d i r b = elim (Bool-cases (ltb_ℤ (pos 0) i.used_credit && is_service i.type)) [
  | inl e ↦ rw e (Ends-err _ _ _ b refl)
  | inr e ↦ elim (Bool-cases (ltb_ℤ (pos 0) i.used_credit && is_credit_type i.type)) [
    | inl f ↦ rw (e, f) (Ends-err _ _ _ b refl)
    | inr f ↦ rw (e, f) (Ends-ok _ _ _ b (refl, (refl, refl)))
  ]
]

check_item-Only :
    (rec : ℕ → Action Bool) (d : Db) (o : SaleOrder) (i : SaleItem) (b : Db)
    → EarnsNone d i
    → Only Nothing b (check_item rec d o i b)
unfolding check_item
check_item-Only rec d o i b (inl e) = rw e (Ends-ok _ _ tt b (refl, tt))
check_item-Only rec d o i b (inr (p, e, f)) = elim (Bool-cases i.is_cash_back) [
  | inl g ↦ rw g (Ends-ok _ _ tt b (refl, tt))
  | inr g ↦ rw (check_item, g, e, f) (Ends-ok _ _ tt b (refl, tt))
]

pub gather-Only :
    (rec : ℕ → Action Bool) (d : Db) (o : SaleOrder) (is : List SaleItem) (r : Removal) (b : Db)
    → All (EarnsNone d) is
    → Only (λ _. All IsUnused is) b (gather rec d o is r b)
unfolding gather
gather-Only rec d o [] r b h = Ends-ok _ _ r b (refl, tt)
gather-Only rec d o (i ∷ is) r b (h, hs) =
    Only-continue (λ _. IsUnused i) (λ _. All IsUnused (i ∷ is)) b _ _ (gather_item-Only d i r b)
      λ r' u.
        Only-continue Nothing (λ _. All IsUnused (i ∷ is)) b _ _ (check_item-Only rec d o i b h)
          λ _ _.
            Only-map (λ _. All IsUnused is) (λ _. All IsUnused (i ∷ is)) b _
              (gather-Only rec d o is r' b hs) λ _ us. (u, us)
