-- ===== src/Store.antt =====
-- The database, and the calls that read and write it. A call is a function of the database that
-- keeps what it wrote when it throws; `atomically` is `datasource.manager.transaction`, which
-- rolls back.
use my_ng_platform.Prelude.{
  ℕ, suc, ℤ, ◌≡◌, ap, Bool, true, false, Option, none, some, List, [], ◌∷◌, ◌==◌, if◌then◌else◌,
}
use my_ng_platform.Entities.{
  User, Transaction, SaleItem, SaleOrder, Product, WalletGift, Cheque, UserLoan, Loan,
  InstallmentLoan, ShiftWork, ContractorIncome, ReceptionLocker,
}

-- The exceptions that the services throw; `type_error` is JavaScript's own, at a property of null,
-- `query_failed` the database's. `fractional_gift` is none of them: it says that a call has left the
-- whole numbers of the model.
pub data Error : Type 0 where
  credit_not_enough invalid_charging_service invalid_discount : Error
  not_found_bank not_found_cash_desk not_found_cheque : Error
  sale_unit_not_found user_not_found invalid_submit_date invalid_shift_work : Error
  not_found_organization_unit not_found_fiscal_year : Error
  invalid_amount unable_deposit not_found_transaction not_found_order : Error
  cash_back_used not_found_loan unable_remove_loan type_error : Error
  invalid_loan_amount invalid_installments_count invalid_bail_type invalid_cheque_bail : Error
  invalid_user_bail invalid_doc_bail invalid_installments invalid_installments_cheque : Error
  unable_changed_loan unable_changed_amount not_found_installment : Error
  reception_not_found reception_not_settled order_not_settled invalid_end_time first_settle : Error
  no_open_locker invalid_formula not_found_locker : Error
  unable_delete_service unable_delete_credit cash_back_left too_deep no_single_session : Error
  invalid_start_date invalid_end_date not_found_service_price not_found_credit : Error
  amount_is_zero invalid_package query_failed fractional_gift : Error

-- The tables. `jobs` is no table: it holds the jobs of the scheduler that end a reception by itself,
-- by the id of the order.
pub record Db : Type 0 where
  pub users : ℕ → Option User
  pub sale_items : ℕ → Option SaleItem
  pub products : ℕ → Option Product
  pub cheques : ℕ → Option Cheque
  pub user_loans : ℕ → Option UserLoan
  pub loans : ℕ → Option Loan
  pub documents : ℕ → Bool
  pub installments : List InstallmentLoan
  pub next_loan : ℕ
  pub next_installment : ℕ
  pub group_class_rooms : ℕ → ℤ
  pub incomes : List ContractorIncome
  pub reception_lockers : List ReceptionLocker
  pub jobs : ℕ → Bool
  pub banks : ℕ → Bool
  pub cash_desks : ℕ → Bool
  pub sale_units : ℕ → Bool
  pub wallet_gifts : List WalletGift
  pub shift_works : List ShiftWork
  pub orders : List SaleOrder
  pub transactions : List Transaction
  pub next_id : ℕ

pub data Result (A : Type 0) : Type 0 where
  ok : A → Result A
  err : Error → Result A

abbrev pub is_ok : {A : Type 0} → Result A × Db → Bool
is_ok (ok _, _) = true
is_ok (err _, _) = false

abbrev pub Action : Type 0 → Type 0
Action A = Db → Result A × Db

-- What follows a call: the rest runs after a result, and an exception is passed on.
unfoldable pub continue_with : {A B : Type 0} → (A → Action B) → Result A × Db → Result B × Db
continue_with f (ok a, b) = f a b
continue_with f (err e, b) = (err e, b)

infixl 5 ◌>>=◌ ◌>>◌
abbrev pub ◌>>=◌ : {A B : Type 0} → Action A → (A → Action B) → Action B
◌>>=◌ m f b = continue_with f (m b)

abbrev pub ◌>>◌ : {A B : Type 0} → Action A → Action B → Action B
m >> k = m >>= λ _. k

module _ {A : Type 0} where
  abbrev pub pure : A → Action A
  pure a b = (ok a, b)

  abbrev pub throw : Error → Action A
  throw e b = (err e, b)

  abbrev pub gets : (Db → A) → Action A
  gets f b = (ok (f b), b)

  -- `findOneOrFail`, or a test of what was found.
  abbrev pub or_throw : Error → Option A → Action A
  or_throw e none = throw e
  or_throw e (some a) = pure a

  -- An exception of a database transaction takes back what was written.
  unfoldable pub roll_back : Db → Result A × Db → Result A × Db
  roll_back b (ok a, b') = (ok a, b')
  roll_back b (err e, b') = (err e, b)

  -- `datasource.manager.transaction(async (manager) => …)`.
  abbrev pub atomically : Action A → Action A
  atomically m b = roll_back b (m b)

abbrev pub throw_if : Error → Bool → Action (Unit {0})
throw_if e true = throw e
throw_if e false = pure tt

abbrev pub modify : (Db → Db) → Action (Unit {0})
modify f b = (ok tt, f b)

-- `UPDATE … WHERE id = …`: a row that is missing is left missing.
abbrev pub alter {ℓ} : {A : Type ℓ} → (A → A) → ℕ → (ℕ → Option A) → ℕ → Option A
alter f k t j = if k == j then elim (t j) [ none ↦ none | some a ↦ some (f a) ] else t j

-- `findOne` by the primary key; a row that was removed softly is not found.
unfoldable pub find_row : ℕ → List Transaction → Option Transaction
find_row i [] = none
find_row i (t ∷ ts) = if t.id == i then (if t.deleted then none else some t) else find_row i ts

-- The row with the id of `t` is overwritten.
unfoldable pub replace_row : Transaction → List Transaction → List Transaction
replace_row t [] = []
replace_row t (r ∷ rs) = if r.id == t.id then t ∷ rs else r ∷ replace_row t rs

-- `manager.save(trx)`: a transaction without an id is inserted under the next one, and one with an
-- id overwrites its row. The saved entity is returned.
unfoldable pub save : Transaction → Action Transaction
unfolding replace_row
save t b =
    if t.id == 0
    then (let t' = record t { id = b.next_id } in
        (ok t', record b { transactions = t' ∷ b.transactions; next_id = suc b.next_id }))
    else (ok t, record b { transactions = replace_row t b.transactions })

unfoldable pub save_all : List Transaction → Action (List Transaction)
save_all [] = pure []
save_all (t ∷ ts) = save t >>= λ t'. save_all ts >>= λ ts'. pure (t' ∷ ts')

pub bind-ok :
    {A B : Type 0} (m : Action A) (f : A → Action B) (b : Db) {a : A} {b' : Db}
    → m b ≡ (ok a, b')
    → (m >>= f) b ≡ f a b'
unfolding continue_with
bind-ok m f b e = ap (continue_with f) e

pub bind-err :
    {A B : Type 0} (m : Action A) (f : A → Action B) (b : Db) {e : Error} {b' : Db}
    → m b ≡ (err e, b')
    → (m >>= f) b ≡ (err e, b')
unfolding continue_with
bind-err m f b e = ap (continue_with f) e
