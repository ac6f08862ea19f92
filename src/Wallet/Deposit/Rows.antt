-- ===== src/Wallet/Deposit/Rows.antt =====
-- The rows of a deposit: what they add to the wallet, and the balances that they are stamped with.
use mathlib.Core.List.{reverse-cons, reverse-append}
use my_ng_platform.Prelude.{
  ℕ, ◌≡◌, refl, ℤ, pos, ◌+ℤ◌, ◌-ℤ◌, int_laws, false, List, [], ◌∷◌, ◌++◌, reverse, All,
}
use my_ng_platform.Entities.{Transaction, TransactionType}
use my_ng_platform.Wallet.Ledger.{share}
use my_ng_platform.Wallet.Posting.{moved}
use my_ng_platform.Wallet.Requests.{Place}
use my_ng_platform.Wallet.Deposit.{stamp_rows}

-- A deposit of the user that is not in the table yet.
pub record IsFresh (user : ℕ) (t : Transaction) : Type 0 where
  pub unsaved : t.id ≡ 0
  pub is_deposit : t.type ≡ TransactionType.deposit
  pub owner : t.user ≡ user
  pub live : t.deleted ≡ false

unfoldable pub total : List Transaction → ℤ
total [] = pos 0
total (t ∷ ts) = t.amount +ℤ total ts

pub total-append : (xs ys : List Transaction) → total (xs ++ ys) ≡ total xs +ℤ total ys
unfolding total
total-append [] ys = grind int_laws
total-append (x ∷ xs) ys = grind (int_laws, total-append xs ys)

pub All-snoc {ℓ} :
    (P : Transaction → Type ℓ) (xs : List Transaction) (y : Transaction)
    → All P xs
    → P y
    → All P (xs ++ (y ∷ []))
All-snoc P [] y h k = (k, tt)
All-snoc P (x ∷ xs) y h k = (h.0, All-snoc P xs y h.1 k)

All-reverse {ℓ} : (P : Transaction → Type ℓ) (xs : List Transaction) → All P xs → All P (reverse xs)
All-reverse P [] h = tt
All-reverse P (x ∷ xs) h =
    rw (reverse-cons x xs) (All-snoc P (reverse xs) x (All-reverse P xs h.1) h.0)

total-reverse : (xs : List Transaction) → total (reverse xs) ≡ total xs
unfolding total
total-reverse [] = refl
total-reverse (x ∷ xs) =
    rw (reverse-cons x xs, total-append (reverse xs) (x ∷ []), total-reverse xs) (grind int_laws)

pub share-IsFresh :
    (user u : ℕ) (t : Transaction) → IsFresh user t → share u t ≡ moved user t.amount u
unfolding share
share-IsFresh user u t f = rw (f.live, f.owner, f.is_deposit)

abbrev stamp : Place → ℤ → Transaction → Transaction
stamp at credit t = record t {
  credit = credit;
  sale_unit = at.sale_unit;
  organization_unit = at.organization_unit;
  fiscal_year = at.fiscal_year;
  shift_work = at.shift_work;
  submit_at = at.submit_at;
}

-- The rows one after the other, each with the balance that it leaves behind.
unfoldable pub running : Place → ℤ → List Transaction → List Transaction
running at c [] = []
running at c (t ∷ ts) = stamp at (c +ℤ t.amount) t ∷ running at (c +ℤ t.amount) ts

stamp_rows-append :
    (at : Place) (k : ℤ) (xs : List Transaction) (y : Transaction)
    → stamp_rows at k (xs ++ (y ∷ [])) ≡ stamp_rows at k xs ++ (stamp at (k -ℤ total xs) y ∷ [])
unfolding stamp_rows total
stamp_rows-append at k [] y = let e : k -ℤ pos 0 ≡ k = grind int_laws in rw e
stamp_rows-append at k (x ∷ xs) y =
    let e : k -ℤ x.amount -ℤ total xs ≡ k -ℤ (x.amount +ℤ total xs) = grind int_laws in
    rw (stamp_rows-append at (k -ℤ x.amount) xs y, e)

pub stamp_rows-eq-running :
    (at : Place) (c : ℤ) (rows : List Transaction)
    → reverse (stamp_rows at (c +ℤ total rows) (reverse rows)) ≡ running at c rows
unfolding stamp_rows running total
stamp_rows-eq-running at c [] = refl
stamp_rows-eq-running at c (t ∷ ts) =
    let up : c +ℤ (t.amount +ℤ total ts) ≡ c +ℤ t.amount +ℤ total ts = grind int_laws in
    let down : c +ℤ t.amount +ℤ total ts -ℤ total (reverse ts) ≡ c +ℤ t.amount =
      rw (total-reverse ts) (grind int_laws) in
    rw (
      up,
      reverse-cons t ts,
      stamp_rows-append at (c +ℤ t.amount +ℤ total ts) (reverse ts) t,
      down,
      reverse-append (stamp_rows at (c +ℤ t.amount +ℤ total ts) (reverse ts))
          (stamp at (c +ℤ t.amount) t ∷ []),
      stamp_rows-eq-running at (c +ℤ t.amount) ts,
    )

pub running-IsFresh :
    (at : Place) (user : ℕ) (rows : List Transaction) (c : ℤ)
    → All (IsFresh user) rows
    → All (IsFresh user) (running at c rows)
unfolding running
running-IsFresh at user [] c h = tt
running-IsFresh at user (t ∷ ts) c (h, hs) = (
  record { unsaved = h.unsaved; is_deposit = h.is_deposit; owner = h.owner; live = h.live },
  running-IsFresh at user ts (c +ℤ t.amount) hs,
)

pub total-running :
    (at : Place) (rows : List Transaction) (c : ℤ) → total (running at c rows) ≡ total rows
unfolding running total
total-running at [] c = refl
total-running at (t ∷ ts) c = rw (total-running at ts (c +ℤ t.amount))
