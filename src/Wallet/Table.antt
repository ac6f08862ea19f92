-- ===== src/Wallet/Table.antt =====
-- The table of transactions: ids fall from the newest row to the oldest, so an id names one row.
use my_ng_platform.Prelude.{
  ℕ, suc, ◌<◌, ◌≡◌, ◌≢◌, refl, true, false, none, some, List, [], ◌∷◌, arith, ◌==◌, All, sym, ap,
  ◌∙◌, Bool-cases, ==_iff, inl, inr, if◌then◌else◌, int_laws,
}
use my_ng_platform.Entities.{Transaction}
use my_ng_platform.Store.{Db, ok, find_row, replace_row, save, save_all, continue_with}
use my_ng_platform.Wallet.Ledger.{share, balance, balance-replace_row}

some-ne-none : {t : Transaction} → some t ≡ none → ⊥
some-ne-none e = cc

abbrev pub Descending : ℕ → List Transaction → Type 0
Descending n [] = 0 < n
Descending n (t ∷ ts) = (t.id < n) × Descending t.id ts

abbrev pub IsTable : Db → Type 0
IsTable b = Descending b.next_id b.transactions

pub find_row_above :
    (n i : ℕ) (rows : List Transaction) → Descending n rows → n < suc i → find_row i rows ≡ none
unfolding find_row
find_row_above n i [] d h = refl
find_row_above n i (r ∷ rs) d h = grind (arith, find_row_above r.id i rs)

pub Descending-pos : (n : ℕ) (rows : List Transaction) → Descending n rows → 0 < n
Descending-pos n [] d = d
Descending-pos n (r ∷ rs) d = omega (arith, Descending-pos r.id rs d.1)

pub replace_row-Descending :
    (n : ℕ) (t : Transaction) (rows : List Transaction)
    → Descending n rows
    → Descending n (replace_row t rows)
unfolding replace_row
replace_row-Descending n t [] d = d
replace_row-Descending n t (r ∷ rs) d = grind (arith, replace_row-Descending r.id t rs)

pub find_row-replace_row :
    (i : ℕ) (t : Transaction) (rows : List Transaction)
    → find_row t.id rows ≢ none
    → t.deleted ≡ false
    → find_row i (replace_row t rows) ≡ (if t.id == i then some t else find_row i rows)
unfolding find_row replace_row
find_row-replace_row i t [] h e = absurd (h refl)
find_row-replace_row i t (r ∷ rs) h e = grind (arith, find_row-replace_row i t rs)

-- A row that is overwritten by a removed one is not found any more.
pub find_row-replace_row-removed :
    (i : ℕ) (t : Transaction) (rows : List Transaction)
    → t.deleted ≡ true
    → find_row i (replace_row t rows) ≡ (if t.id == i then none else find_row i rows)
unfolding find_row replace_row
find_row-replace_row-removed i t [] e = ground arith
find_row-replace_row-removed i t (r ∷ rs) e = grind (arith, find_row-replace_row-removed i t rs)

-- A row that may be written over one of the table without moving anybody's sum.
pub record Stands (rows : List Transaction) (t : Transaction) : Type 0 where
  pub old : Transaction
  pub found : find_row t.id rows ≡ some old
  pub live : t.deleted ≡ false
  pub keeps : (u : ℕ) → share u t ≡ share u old

pub balance-replace_row-Stands :
    (u : ℕ) (t : Transaction) (rows : List Transaction)
    → Stands rows t
    → balance u (replace_row t rows) ≡ balance u rows
balance-replace_row-Stands u t rows s =
    grind (int_laws, balance-replace_row u t s.old rows s.found, s.keeps u)

pub replace_row-Stands :
    (s t : Transaction) (rows : List Transaction)
    → Stands rows s
    → Stands rows t
    → Stands (replace_row s rows) t
replace_row-Stands s t rows p q =
    let there : find_row s.id rows ≢ none = λ e. some-ne-none (sym p.found ∙ e) in
    let seen = find_row-replace_row t.id s rows there p.live in
    elim (Bool-cases (s.id == t.id)) [
      | inl e ↦ record {
        old = s;
        found = rw (seen, e);
        live = q.live;
        keeps = λ u. q.keeps u ∙ sym (p.keeps u ∙ ap (share u) (same e));
      }
      | inr e ↦ record { old = q.old; found = rw (seen, e) q.found; live = q.live; keeps = q.keeps }
    ]
  where
    same : (s.id == t.id) ≡ true → p.old ≡ q.old
    same e = grind (arith, p.found, q.found)

abbrev pub replace_rows : List Transaction → List Transaction → List Transaction
replace_rows [] rows = rows
replace_rows (t ∷ ts) rows = replace_rows ts (replace_row t rows)

pub replace_rows-Descending :
    (n : ℕ) (ts rows : List Transaction) → Descending n rows → Descending n (replace_rows ts rows)
replace_rows-Descending n [] rows d = d
replace_rows-Descending n (t ∷ ts) rows d =
    replace_rows-Descending n ts (replace_row t rows) (replace_row-Descending n t rows d)

All-Stands :
    (s : Transaction) (ts rows : List Transaction)
    → Stands rows s
    → All (Stands rows) ts
    → All (Stands (replace_row s rows)) ts
All-Stands s [] rows p q = tt
All-Stands s (t ∷ ts) rows p q = (replace_row-Stands s t rows p q.0, All-Stands s ts rows p q.1)

pub balance-replace_rows :
    (u : ℕ) (ts rows : List Transaction)
    → All (Stands rows) ts
    → balance u (replace_rows ts rows) ≡ balance u rows
balance-replace_rows u [] rows h = refl
balance-replace_rows u (t ∷ ts) rows h =
    balance-replace_rows u ts (replace_row t rows) (All-Stands t ts rows h.0 h.1)
    ∙ balance-replace_row-Stands u t rows h.0

-- What stands beside the rows that are written stands, and what is missing is missing still.
pub replace_rows-Stands :
    (ts rows : List Transaction) (t : Transaction)
    → All (Stands rows) ts
    → Stands rows t
    → Stands (replace_rows ts rows) t
replace_rows-Stands [] rows t h s = s
replace_rows-Stands (r ∷ rs) rows t (h, hs) s =
    replace_rows-Stands rs (replace_row r rows) t (All-Stands r rs rows h hs)
      (replace_row-Stands r t rows h s)

pub replace_rows-none :
    (ts rows : List Transaction) (i : ℕ)
    → All (Stands rows) ts
    → find_row i rows ≡ none
    → find_row i (replace_rows ts rows) ≡ none
replace_rows-none [] rows i h e = e
replace_rows-none (r ∷ rs) rows i (h, hs) e =
    replace_rows-none rs (replace_row r rows) i (All-Stands r rs rows h hs) (still rows h e)
  where
    still :
        (rows : List Transaction)
        → Stands rows r
        → find_row i rows ≡ none
        → find_row i (replace_row r rows) ≡ none
    still rows h e =
        let there : find_row r.id rows ≢ none = λ f. some-ne-none (sym h.found ∙ f) in
        let seen = find_row-replace_row i r rows there h.live in
        elim (Bool-cases (r.id == i)) [
          | inl f ↦ let same : r.id ≡ i = (==_iff r.id i).0 f in absurd (there (rw same e))
          | inr f ↦ seen ∙ rw f e
        ]

pub save-replace_row :
    (t : Transaction) (b : Db)
    → 0 < t.id
    → save t b ≡ (ok t, record b { transactions = replace_row t b.transactions })
unfolding save
save-replace_row t b h = let e : (t.id == 0) ≡ false = ground arith in rw e

-- Saving rows that have ids overwrites them and does nothing else.
pub save_all-replace_rows :
    (ts : List Transaction) (b : Db)
    → All (λ t. 0 < t.id) ts
    → save_all ts b ≡ (ok ts, record b { transactions = replace_rows ts b.transactions })
unfolding save_all continue_with
save_all-replace_rows [] b h = refl
save_all-replace_rows (t ∷ ts) b h =
    let b' : Db = record b { transactions = replace_row t b.transactions } in
    rw (save-replace_row t b h.0) (rw (save_all-replace_rows ts b' h.1))
