-- ===== src/Wallet/Ledger.antt =====
-- What a wallet promises: the balance of a user is the sum of the transactions that are recorded.
use my_ng_platform.Prelude.{
  ℕ, ◌≡◌, ℤ, pos, ◌+ℤ◌, ◌-ℤ◌, neg, Option, none, some, List, [], ◌∷◌, int_laws, ◌==◌, Bool-cases,
  inl, inr, if◌then◌else◌,
}
use my_ng_platform.Entities.{Transaction, TransactionType, TransactionSourceType, User}
use my_ng_platform.Store.{Db, find_row, replace_row}

-- What one kind of transaction of the amount `a` does to the wallet of its user: a deposit fills
-- it, a withdrawal and a settlement out of the wallet empty it, and no other settlement touches it.
abbrev pub signed : TransactionType → TransactionSourceType → ℤ → ℤ
signed TransactionType.deposit s a = a
signed TransactionType.withdraw s a = neg a
signed TransactionType.settle TransactionSourceType.user_credit a = neg a
signed TransactionType.settle _ a = pos 0

abbrev pub effect : Transaction → ℤ
effect t = if t.deleted then pos 0 else signed t.type t.source_type t.amount

-- The share of one transaction in the wallet of `u`.
unfoldable pub share : ℕ → Transaction → ℤ
share u t = if t.user == u then effect t else pos 0

-- The sum of the user's live transactions.
unfoldable pub balance : ℕ → List Transaction → ℤ
balance u [] = pos 0
balance u (t ∷ ts) = share u t +ℤ balance u ts

abbrev pub credit_of_row : Option User → ℤ
credit_of_row none = pos 0
credit_of_row (some r) = r.credit

abbrev pub credit_of : ℕ → Db → ℤ
credit_of u b = credit_of_row (b.users u)

-- How far the stored balance of a user is from the recorded transactions: 0 in a sound ledger.
abbrev pub drift : ℕ → Db → ℤ
drift u b = credit_of u b -ℤ balance u b.transactions

-- Overwriting a row that is there moves the sum by the difference of the two rows.
pub balance-replace_row :
    (u : ℕ) (t old : Transaction) (rows : List Transaction)
    → find_row t.id rows ≡ some old
    → balance u (replace_row t rows) +ℤ share u old ≡ balance u rows +ℤ share u t
unfolding balance find_row replace_row
balance-replace_row u t old [] h = cc
balance-replace_row u t old (r ∷ rs) h = elim (Bool-cases (r.id == t.id)) [
  | inl e ↦ grind int_laws
  | inr e ↦ grind (int_laws, balance-replace_row u t old rs)
]
