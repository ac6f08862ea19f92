-- ===== src/Wallet/Requests.antt =====
-- What the entry points of the wallet read before they write: the request, its organization unit
-- and fiscal year (`processOperation`), its date, and the shift work.
pub mod Reads
use my_ng_platform.Prelude.{ℕ, ℤ, none, some, List, ltb, ◌==◌, if◌then◌else◌}
use my_ng_platform.Clock.{Clock}
use my_ng_platform.Shifts.{find_by}
use my_ng_platform.Store.{Error, Action, ok, err}
use my_ng_platform.Wallet.Providers.{TransactionItem}

-- What a request is run with: the server's clock.
pub record Env : Type 0 where
  pub clock : Clock

-- A date of a request, as `moment` reads it.
pub data SubmitAt : Type 0 where
  absent invalid : SubmitAt
  parsed : ℕ → SubmitAt

pub record TransactionDto : Type 0 where
  pub user : ℕ
  pub items : List TransactionItem
  pub submit_at : SubmitAt
  pub sale_unit : ℕ
  pub organization_unit : ℕ
  pub fiscal_year : ℕ

pub record WithdrawDto : Type 0 where
  pub user : ℕ
  pub amount : ℤ
  pub submit_at : SubmitAt
  pub sale_unit : ℕ
  pub organization_unit : ℕ
  pub fiscal_year : ℕ

-- An id in a request: a number, a text of a number, or an object with an id; 0 is none of these.
unfoldable pub process_operation : ℕ → ℕ → Action (Unit {0})
process_operation org year b =
    if org == 0
    then (err Error.not_found_organization_unit, b)
    else (if year == 0 then (err Error.not_found_fiscal_year, b) else (ok tt, b))

-- The date must be valid and not in the future; `default` stands in for an absent one.
unfoldable pub read_submit_at : Env → ℕ → SubmitAt → Action ℕ
read_submit_at env default SubmitAt.absent b = (ok default, b)
read_submit_at env default SubmitAt.invalid b = (err Error.invalid_submit_date, b)
read_submit_at env default (SubmitAt.parsed t) b =
    if ltb env.clock.now t then (err Error.invalid_submit_date, b) else (ok t, b)

unfoldable pub find_sale_unit : ℕ → Action (Unit {0})
find_sale_unit u b = if b.sale_units u then (ok tt, b) else (err Error.sale_unit_not_found, b)

unfoldable pub find_user : ℕ → Action ℤ
find_user u b = elim (b.users u) [
  | none ↦ (err Error.user_not_found, b)
  | some r ↦ (ok r.credit, b)
]

unfoldable pub find_shift_work : Env → ℕ → ℕ → Action ℕ
find_shift_work env at org b =
    let shift = find_by env.clock at org b.shift_works in
    if shift == 0 then (err Error.invalid_shift_work, b) else (ok shift, b)

-- Where a transaction is recorded.
pub record Place : Type 0 where
  pub sale_unit : ℕ
  pub organization_unit : ℕ
  pub fiscal_year : ℕ
  pub shift_work : ℕ
  pub submit_at : ℕ
