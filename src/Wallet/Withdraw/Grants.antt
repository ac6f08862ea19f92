-- ===== src/Wallet/Withdraw/Grants.antt =====
-- A withdrawal that is in order is granted, and moves what it says.
use my_ng_platform.Prelude.{
  ℕ, ◌≡◌, refl, ℤ, pos, ◌-ℤ◌, neg, leb_ℤ, ltb_ℤ, int_laws, arith, Bool, true, false, not, ◌&&◌,
  some, Bool-cases, inl, inr, ltb, ==_iff, ◌==◌,
}
use my_ng_platform.Entities.{Transaction, TransactionType, TransactionSourceType, User}
use my_ng_platform.Shifts.{find_by}
use my_ng_platform.Store.{Db, Result, ok, continue_with, alter, save, roll_back}
use my_ng_platform.Wallet.Ledger.{credit_of}
use my_ng_platform.Wallet.Table.{IsTable}
use my_ng_platform.Wallet.Credit.{value_of, add_credit, allows}
use my_ng_platform.Wallet.Credit.Laws.{do_transaction-accepted}
use my_ng_platform.Wallet.Normalize.Conserves.{normalize_after_date-Rewrites}
use my_ng_platform.Wallet.Posting.{moved}
use my_ng_platform.Wallet.Requests.{
  Env, SubmitAt, WithdrawDto, Place, process_operation, find_user, find_sale_unit, read_submit_at,
  find_shift_work,
}
use my_ng_platform.Wallet.Withdraw.{placed, normalize_if, do_withdraw, withdraw}

-- The date of a request is `at`: now, or a date that is not in the future.
abbrev pub IsDated : Env → SubmitAt → ℕ → Type 0
IsDated env SubmitAt.absent at = at ≡ env.clock.now
IsDated env SubmitAt.invalid at = ⊥
IsDated env (SubmitAt.parsed t) at = (at ≡ t) × (ltb env.clock.now t ≡ false)

-- A request that is in order: its amount is positive and there, and what it names exists.
pub record IsGranted (env : Env) (dto : WithdrawDto) (at : ℕ) (row : User) (b : Db) : Type 0 where
  pub positive : leb_ℤ dto.amount (pos 0) ≡ false
  pub enough : leb_ℤ dto.amount row.credit ≡ true
  pub user : b.users dto.user ≡ some row
  pub organization_unit : (dto.organization_unit == 0) ≡ false
  pub fiscal_year : (dto.fiscal_year == 0) ≡ false
  pub sale_unit : b.sale_units dto.sale_unit ≡ true
  pub date : IsDated env dto.submit_at at
  pub shift_work : (find_by env.clock at dto.organization_unit b.shift_works == 0) ≡ false

-- A call that returns, and leaves each user `value u` poorer.
pub record Takes {A : Type 0} (value : ℕ → ℤ) (b : Db) (r : Result A × Db) : Type 0 where
  pub result : A
  pub after : Db
  pub returns : r ≡ (ok result, after)
  pub credits : (u : ℕ) → credit_of u after ≡ credit_of u b -ℤ value u

pub dated :
    (env : Env) (default at : ℕ) (s : SubmitAt) (b : Db)
    → default ≡ env.clock.now
    → IsDated env s at
    → read_submit_at env default s b ≡ (ok at, b)
unfolding read_submit_at
dated env default at SubmitAt.absent b n d = rw (n, d)
dated env default at SubmitAt.invalid b n d = absurd d
dated env default at (SubmitAt.parsed t) b n (e, f) = rw (e, f)

pub roll_back-Takes :
    {A : Type 0} (value : ℕ → ℤ) (b : Db) (r : Result A × Db)
    → Takes value b r
    → Takes value b (roll_back b r)
unfolding roll_back
roll_back-Takes value b r t = record {
  result = t.result;
  after = t.after;
  returns = rw t.returns refl;
  credits = t.credits;
}

not_refused :
    (t : Transaction) (amount : ℤ) (row : User)
    → value_of t (pos 0) ≡ neg amount
    → leb_ℤ amount row.credit ≡ true
    → (ltb_ℤ (value_of t (pos 0)) (pos 0) && not (allows false (neg (value_of t (pos 0))) row))
      ≡ false
unfolding allows
not_refused t amount row v h =
    let twice : neg (neg amount) ≡ amount = grind int_laws in rw (v, twice, h) (and_false _)
  where
    and_false : (x : Bool) → (x && false) ≡ false
    and_false true = refl
    and_false false = refl

pub credit_of-taken :
    (u k : ℕ) (amount : ℤ) (b : Db) {row : User}
    → b.users k ≡ some row
    → credit_of u (record b { users = alter (add_credit (neg amount)) k b.users })
      ≡ credit_of u b -ℤ moved k amount u
unfolding add_credit
credit_of-taken u k amount b {row} e = elim (Bool-cases (k == u)) [
  | inl s ↦ let f : b.users u ≡ some row = rw (← (==_iff k u).0 s) e in rw (s, f) (grind int_laws)
  | inr s ↦ rw s (grind int_laws)
]

pub normalize_if-Takes :
    (flag : Bool) (t : Transaction) (value : ℕ → ℤ) (b b' : Db)
    → IsTable b'
    → ((u : ℕ) → credit_of u b' ≡ credit_of u b -ℤ value u)
    → Takes value b (normalize_if flag t b')
unfolding continue_with
normalize_if-Takes false t value b b' d c = record {
  result = t;
  after = b';
  returns = refl;
  credits = c;
}
normalize_if-Takes true t value b b' d c =
    let w = normalize_after_date-Rewrites t.user t.submit_at b' d in
    rw w.result (record {
      result = t;
      after = record b' { transactions = w.rows };
      returns = refl;
      credits = c;
    })

do_withdraw-Takes :
    (env : Env) (at : Place) (user : ℕ) (credit amount : ℤ) (normalize : Bool) (b : Db) {row : User}
    → b.users user ≡ some row
    → leb_ℤ amount row.credit ≡ true
    → IsTable b
    → Takes (moved user amount) b (do_withdraw env at user credit amount false normalize b)
unfolding do_withdraw continue_with save value_of
do_withdraw-Takes env at user credit amount normalize b {row} e h d =
    let t =
      placed env at TransactionType.withdraw TransactionSourceType.user_credit user amount credit in
    rw (do_transaction-accepted t false (pos 0) true b e (not_refused t amount row refl h)) (
      normalize_if-Takes normalize _ (moved user amount) b _ (omega arith, d)
        (λ u. credit_of-taken u user amount b e))

-- A request to withdraw a positive amount that the credit of the user covers, whose user, sale
-- unit, organization unit, fiscal year and shift work are there and whose date is now or past, is
-- granted: it returns, the credit of the user falls by the amount, and no other credit changes.
pub withdraw-Takes :
    (env : Env) (dto : WithdrawDto) (at : ℕ) (row : User) (b : Db)
    → IsGranted env dto at row b
    → IsTable b
    → Takes (moved dto.user dto.amount) b (withdraw env dto b)
unfolding withdraw process_operation find_user find_sale_unit find_shift_work continue_with
withdraw-Takes env dto at row b g d =
    rw
      (
        g.positive,
        g.organization_unit,
        g.fiscal_year,
        g.user,
        g.sale_unit,
        dated env env.clock.now at dto.submit_at b refl g.date,
        g.shift_work,
      )
      (roll_back-Takes _ b _
        (do_withdraw-Takes env _ dto.user row.credit dto.amount _ b g.user g.enough d))
