-- ===== src/Wallet/Normalize/Conserves.antt =====
-- Computing the running balances again moves nobody's sum, and changes only the transactions.
use my_ng_platform.Prelude.{
  ℕ, ◌<◌, ◌≡◌, refl, ◌⊎◌, inl, inr, Option-cases, ℤ, pos, Bool, true, false, none, some, List, [],
  ◌∷◌, arith, ◌==◌, All, if◌then◌else◌,
}
use my_ng_platform.Entities.{Transaction, SaleItem}
use my_ng_platform.Store.{Db, Result, Error, ok, err, find_row, save_all}
use my_ng_platform.Wallet.Ledger.{share, balance}
use my_ng_platform.Wallet.Table.{
  Descending, IsTable, Stands, Descending-pos, replace_rows, replace_rows-Descending,
  balance-replace_rows, save_all-replace_rows, replace_rows-Stands, replace_rows-none,
}
use my_ng_platform.Wallet.Normalize.{
  is_wallet, is_charge, insert_row, sort_rows, select, last_before, rows_after, run_credits,
  run_charges, normalized, normalized_charges, normalize_after_date, normalize_charges_after_date,
  live_item,
}

-- A row of the table, but for its running balances.
pub record IsCopy (n : ℕ) (rows : List Transaction) (t : Transaction) : Type 0 where
  pub positive : 0 < t.id
  pub below : t.id < n
  pub stands : Stands rows t

abbrev pub IsLive : (Transaction → Bool) → Type 0
IsLive p = (t : Transaction) → p t ≡ true → t.deleted ≡ false

head-IsCopy :
    (n : ℕ) (t : Transaction) (ts : List Transaction)
    → Descending n (t ∷ ts)
    → t.deleted ≡ false
    → IsCopy n (t ∷ ts) t
unfolding find_row
head-IsCopy n t ts d e = record {
  positive = Descending-pos t.id ts d.1;
  below = d.0;
  stands = record { old = t; found = ground arith; live = e; keeps = λ u. refl };
}

tail-IsCopy :
    (n : ℕ) (r : Transaction) (rs ts : List Transaction)
    → Descending n (r ∷ rs)
    → All (IsCopy r.id rs) ts
    → All (IsCopy n (r ∷ rs)) ts
unfolding find_row
tail-IsCopy n r rs [] d h = tt
tail-IsCopy n r rs (t ∷ ts) d (h, hs) = (
  record {
    positive = h.positive;
    below = omega (arith, h.below);
    stands = record {
      old = h.stands.old;
      found =
          let other : (r.id == t.id) ≡ false = ground (arith, h.below) in rw other h.stands.found;
      live = h.stands.live;
      keeps = h.stands.keeps;
    };
  },
  tail-IsCopy n r rs ts d hs,
)

pub select-IsCopy :
    (n : ℕ) (p : Transaction → Bool) (rows : List Transaction)
    → IsLive p
    → Descending n rows
    → All (IsCopy n rows) (select p rows)
unfolding select
select-IsCopy n p [] live d = tt
select-IsCopy n p (r ∷ rs) live d =
    let rest = tail-IsCopy n r rs (select p rs) d (select-IsCopy r.id p rs live d.1) in
    go (p r) refl rest
  where
    go :
        (c : Bool)
        → p r ≡ c
        → All (IsCopy n (r ∷ rs)) (select p rs)
        → All (IsCopy n (r ∷ rs)) (if c then r ∷ select p rs else select p rs)
    go true e rest = (head-IsCopy n r rs d (live r e), rest)
    go false e rest = rest

module _ (n : ℕ) (rows : List Transaction) where
  insert_row-IsCopy :
      (t : Transaction) (ts : List Transaction)
      → IsCopy n rows t
      → All (IsCopy n rows) ts
      → All (IsCopy n rows) (insert_row t ts)
  unfolding insert_row
  insert_row-IsCopy t [] h hs = (h, tt)
  insert_row-IsCopy t (r ∷ rs) h hs = ground (arith, insert_row-IsCopy t rs h hs.1)

  sort_rows-IsCopy :
      (ts : List Transaction) → All (IsCopy n rows) ts → All (IsCopy n rows) (sort_rows ts)
  unfolding sort_rows
  sort_rows-IsCopy [] h = tt
  sort_rows-IsCopy (t ∷ ts) h = insert_row-IsCopy t (sort_rows ts) h.0 (sort_rows-IsCopy ts h.1)

  run_credits-IsCopy :
      (ts : List Transaction) (c : ℤ)
      → All (IsCopy n rows) ts
      → All (IsCopy n rows) (run_credits c ts)
  unfolding run_credits share
  run_credits-IsCopy [] c h = tt
  run_credits-IsCopy (t ∷ ts) c (h, hs) = (
    record {
      positive = h.positive;
      below = h.below;
      stands = record {
        old = h.stands.old;
        found = h.stands.found;
        live = h.stands.live;
        keeps = h.stands.keeps;
      };
    },
    run_credits-IsCopy ts _ hs,
  )

  run_charges-IsCopy :
      (ts : List Transaction) (c : ℤ)
      → All (IsCopy n rows) ts
      → All (IsCopy n rows) (run_charges c ts)
  unfolding run_charges share
  run_charges-IsCopy [] c h = tt
  run_charges-IsCopy (t ∷ ts) c (h, hs) = (
    record {
      positive = h.positive;
      below = h.below;
      stands = record {
        old = h.stands.old;
        found = h.stands.found;
        live = h.stands.live;
        keeps = h.stands.keeps;
      };
    },
    run_charges-IsCopy ts _ hs,
  )

  rows_after-IsCopy :
      (p : Transaction → Bool) (since last_id : ℕ)
      → IsLive p
      → Descending n rows
      → All (IsCopy n rows) (rows_after p since last_id rows)
  unfolding rows_after
  rows_after-IsCopy p since last_id live d =
      sort_rows-IsCopy _ (select-IsCopy n _ rows (λ t e. live t (ground arith)) d)

  parts :
      (ts : List Transaction)
      → All (IsCopy n rows) ts
      → All (Stands rows) ts × All (λ t. 0 < t.id) ts
  parts [] h = (tt, tt)
  parts (t ∷ ts) (h, hs) = let (a, b) = parts ts hs in ((h.stands, a), (h.positive, b))

is_wallet-IsLive : (u : ℕ) → IsLive (is_wallet u)
unfolding is_wallet
is_wallet-IsLive u t e = ground arith

is_charge-IsLive : (u source : ℕ) → IsLive (is_charge u source)
unfolding is_charge
is_charge-IsLive u source t e = ground arith

normalized-IsCopy :
    (n u at : ℕ) (rows : List Transaction)
    → Descending n rows
    → All (IsCopy n rows) (normalized u at rows)
unfolding normalized
normalized-IsCopy n u at rows d =
    elim (last_before (is_wallet u) at rows)
      as (λ l. All (IsCopy n rows) (elim l [
        | none ↦ run_credits (pos 0) (rows_after (is_wallet u) 0 0 rows)
        | some l ↦ run_credits l.credit (rows_after (is_wallet u) l.submit_at l.id rows)
      ])) [
        | none ↦
            run_credits-IsCopy n rows _ _ (rows_after-IsCopy n rows _ _ _ (is_wallet-IsLive u) d)
        | some l ↦
            run_credits-IsCopy n rows _ _ (rows_after-IsCopy n rows _ _ _ (is_wallet-IsLive u) d)
      ]

normalized_charges-IsCopy :
    (n u at source : ℕ) (service : SaleItem) (rows : List Transaction)
    → Descending n rows
    → All (IsCopy n rows) (normalized_charges u at source service rows)
unfolding normalized_charges
normalized_charges-IsCopy n u at source service rows d =
    elim (last_before (is_charge u source) at rows)
      as (λ l. All (IsCopy n rows) (elim l [
        | none ↦
            run_charges service.credit (rows_after (is_charge u source) service.submit_at 0 rows)
        | some l ↦
            run_charges l.charge_remain_credit
              (rows_after (is_charge u source) l.submit_at l.id rows)
      ])) [
        | none ↦
            run_charges-IsCopy n rows _ _
              (rows_after-IsCopy n rows _ _ _ (is_charge-IsLive u source) d)
        | some l ↦
            run_charges-IsCopy n rows _ _
              (rows_after-IsCopy n rows _ _ _ (is_charge-IsLive u source) d)
      ]

-- A call that only overwrites transactions, and moves nobody's sum.
pub record Rewrites {A : Type 0} (b : Db) (r : Result A × Db) : Type 0 where
  pub value : A
  pub rows : List Transaction
  pub result : r ≡ (ok value, record b { transactions = rows })
  pub table : Descending b.next_id rows
  pub sums : (v : ℕ) → balance v rows ≡ balance v b.transactions
  pub stand : (t : Transaction) → Stands b.transactions t → Stands rows t
  pub missing : (i : ℕ) → find_row i b.transactions ≡ none → find_row i rows ≡ none

save_all-Rewrites :
    (ts : List Transaction) (b : Db)
    → IsTable b
    → All (IsCopy b.next_id b.transactions) ts
    → Rewrites b (save_all ts b)
save_all-Rewrites ts b d h =
    let (stand, positive) = parts b.next_id b.transactions ts h in
    record {
      value = ts;
      rows = replace_rows ts b.transactions;
      result = save_all-replace_rows ts b positive;
      table = replace_rows-Descending b.next_id ts b.transactions d;
      sums = λ v. balance-replace_rows v ts b.transactions stand;
      stand = λ t s. replace_rows-Stands ts b.transactions t stand s;
      missing = λ i e. replace_rows-none ts b.transactions i stand e;
    }

pub normalize_after_date-Rewrites :
    (u at : ℕ) (b : Db) → IsTable b → Rewrites b (normalize_after_date u at b)
unfolding normalize_after_date
normalize_after_date-Rewrites u at b d =
    save_all-Rewrites _ b d (normalized-IsCopy b.next_id u at b.transactions d)

-- With the service in the database the charges are rewritten; without it they are, or it throws.
pub normalize_charges_after_date-Rewrites :
    (u at source : ℕ) (b : Db)
    → IsTable b
    → (normalize_charges_after_date u at source b ≡ (err Error.type_error, b))
      ⊎ Rewrites b (normalize_charges_after_date u at source b)
unfolding normalize_charges_after_date
normalize_charges_after_date-Rewrites u at source b d =
    elim (Option-cases (live_item (b.sale_items source))) [
      | inr (service, e) ↦ inr (
          rw (e, normalize_charges_after_date)
            (save_all-Rewrites _ b d
              (normalized_charges-IsCopy b.next_id u at source service b.transactions d)))
      | inl e ↦ elim (Option-cases (last_before (is_charge u source) at b.transactions)) [
        | inl f ↦ inl (rw (e, normalize_charges_after_date) (rw f))
        | inr (l, f) ↦ inr (
            rw (e, normalize_charges_after_date, f)
              (save_all-Rewrites _ b d (
                run_charges-IsCopy b.next_id b.transactions _ _ (
                  rows_after-IsCopy b.next_id b.transactions _ _ _ (is_charge-IsLive u source) d))))
      ]
    ]
