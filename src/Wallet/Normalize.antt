-- ===== src/Wallet/Normalize.antt =====
-- `normalizeTransactionAfterDate` and `normalizeChargeRemainCreditTransactionAfterDate`: the
-- running balances of the later transactions are computed again.
pub mod Conserves
pub mod Order
pub mod Running
use my_ng_platform.Prelude.{
  ℕ, ℤ, pos, ◌+ℤ◌, ◌-ℤ◌, Bool, true, false, not, ◌&&◌, ◌||◌, Option, none, some, List, [], ◌∷◌, ltb,
  ◌==◌, if◌then◌else◌,
}
use my_ng_platform.Entities.{Transaction, TransactionType, TransactionSourceType, SaleItem}
use my_ng_platform.Store.{Error, Action, err, save_all}

abbrev pub is_settle : TransactionType → Bool
is_settle TransactionType.settle = true
is_settle _ = false

abbrev pub is_user_credit : TransactionSourceType → Bool
is_user_credit TransactionSourceType.user_credit = true
is_user_credit _ = false

-- The two `where` branches that the wallet's queries share.
unfoldable pub is_wallet : ℕ → Transaction → Bool
is_wallet u t =
    t.user == u && not t.deleted && (not (is_settle t.type) || is_user_credit t.source_type)

unfoldable pub is_charge : ℕ → ℕ → Transaction → Bool
is_charge u source t = t.user == u && not t.deleted && t.source == source

-- `ORDER BY submit_at, id`
unfoldable pub precedes : Transaction → Transaction → Bool
precedes s t = ltb s.submit_at t.submit_at || (s.submit_at == t.submit_at && ltb s.id t.id)

unfoldable pub insert_row : Transaction → List Transaction → List Transaction
unfolding precedes
insert_row t [] = t ∷ []
insert_row t (r ∷ rs) = if precedes t r then t ∷ r ∷ rs else r ∷ insert_row t rs

unfoldable pub sort_rows : List Transaction → List Transaction
unfolding insert_row
sort_rows [] = []
sort_rows (t ∷ ts) = insert_row t (sort_rows ts)

unfoldable pub select : (Transaction → Bool) → List Transaction → List Transaction
select p [] = []
select p (t ∷ ts) = if p t then t ∷ select p ts else select p ts

-- The last row, in the order above, of those before the instant `at`.
unfoldable pub last_before : (Transaction → Bool) → ℕ → List Transaction → Option Transaction
unfolding precedes
last_before p at [] = none
last_before p at (t ∷ ts) =
    let rest = last_before p at ts in
    if p t && ltb t.submit_at at
    then elim rest [ none ↦ some t | some r ↦ if precedes r t then some t else some r ]
    else rest

-- The rows to compute again: those behind the last one that stands.
unfoldable pub rows_after : (Transaction → Bool) → ℕ → ℕ → List Transaction → List Transaction
unfolding select sort_rows
rows_after p since last_id ts =
    sort_rows (select (λ t. p t && ltb since t.submit_at && not (t.id == last_id)) ts)

-- The body of the wallet's loop: what a row does to the running balance.
unfoldable pub step_credit : ℤ → Transaction → ℤ
step_credit c t = elim t.type [ TransactionType.deposit ↦ c +ℤ t.amount | _ ↦ c -ℤ t.amount ]

unfoldable pub run_credits : ℤ → List Transaction → List Transaction
unfolding step_credit
run_credits c [] = []
run_credits c (t ∷ ts) = let c' = step_credit c t in record t { credit = c' } ∷ run_credits c' ts

-- The rows of a user's wallet that `normalizeTransactionAfterDate` writes.
unfoldable pub normalized : ℕ → ℕ → List Transaction → List Transaction
unfolding is_wallet last_before rows_after run_credits
normalized u at ts = elim (last_before (is_wallet u) at ts) [
  | none ↦ run_credits (pos 0) (rows_after (is_wallet u) 0 0 ts)
  | some l ↦ run_credits l.credit (rows_after (is_wallet u) l.submit_at l.id ts)
]

unfoldable pub normalize_after_date : ℕ → ℕ → Action (List Transaction)
unfolding normalized
normalize_after_date u at b = save_all (normalized u at b.transactions) b

unfoldable pub run_charges : ℤ → List Transaction → List Transaction
run_charges c [] = []
run_charges c (t ∷ ts) =
    let c' = c -ℤ t.amount in record t { charge_remain_credit = c' } ∷ run_charges c' ts

unfoldable pub normalized_charges : ℕ → ℕ → ℕ → SaleItem → List Transaction → List Transaction
unfolding is_charge last_before rows_after run_charges
normalized_charges u at source service ts = elim (last_before (is_charge u source) at ts) [
  | none ↦ run_charges service.credit (rows_after (is_charge u source) service.submit_at 0 ts)
  | some l ↦
      run_charges l.charge_remain_credit (rows_after (is_charge u source) l.submit_at l.id ts)
]

-- `findOne` of a sale item, which is null for one that was removed softly.
abbrev pub live_item : Option SaleItem → Option SaleItem
live_item none = none
live_item (some i) = if i.deleted then none else some i

-- Without an earlier transaction the service itself is read, and a missing one is a TypeError.
unfoldable pub normalize_charges_after_date : ℕ → ℕ → ℕ → Action (List Transaction)
unfolding normalized_charges
normalize_charges_after_date u at source b = elim (live_item (b.sale_items source)) [
  | some service ↦ save_all (normalized_charges u at source service b.transactions) b
  | none ↦ elim (last_before (is_charge u source) at b.transactions) [
    | none ↦ (err Error.type_error, b)
    | some l ↦
        save_all
          (run_charges l.charge_remain_credit
            (rows_after (is_charge u source) l.submit_at l.id b.transactions))
          b
  ]
]
