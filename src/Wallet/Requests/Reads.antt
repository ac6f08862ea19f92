-- ===== src/Wallet/Requests/Reads.antt =====
-- Reading a request writes nothing.
use my_ng_platform.Prelude.{ℕ, refl, Bool, true, false, arith, Option-cases, inl, inr}
use my_ng_platform.Store.{Db, Error, throw_if}
use my_ng_platform.Wallet.Contract.{Ensures, Reads}
use my_ng_platform.Wallet.Requests.{
  Env, SubmitAt, process_operation, read_submit_at, find_sale_unit, find_user, find_shift_work,
}

pub throw_if-Reads : (e : Error) (c : Bool) (b : Db) → Reads b (throw_if e c b)
unfolding Ensures
throw_if-Reads e true b = tt
throw_if-Reads e false b = refl

pub process_operation-Reads : (org year : ℕ) (b : Db) → Reads b (process_operation org year b)
unfolding process_operation Ensures
process_operation-Reads org year b = ground arith

pub read_submit_at-Reads :
    (env : Env) (default : ℕ) (at : SubmitAt) (b : Db) → Reads b (read_submit_at env default at b)
unfolding read_submit_at Ensures
read_submit_at-Reads env default SubmitAt.absent b = refl
read_submit_at-Reads env default SubmitAt.invalid b = tt
read_submit_at-Reads env default (SubmitAt.parsed t) b = ground arith

pub find_sale_unit-Reads : (u : ℕ) (b : Db) → Reads b (find_sale_unit u b)
unfolding find_sale_unit Ensures
find_sale_unit-Reads u b = ground arith

pub find_user-Reads : (u : ℕ) (b : Db) → Reads b (find_user u b)
unfolding find_user Ensures
find_user-Reads u b = elim (Option-cases (b.users u)) [
  | inl e ↦ rw (e, find_user) tt
  | inr (r, e) ↦ rw (e, find_user) refl
]

pub find_shift_work-Reads :
    (env : Env) (at org : ℕ) (b : Db) → Reads b (find_shift_work env at org b)
unfolding find_shift_work Ensures
find_shift_work-Reads env at org b = ground arith
