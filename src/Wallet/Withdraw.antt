-- ===== src/Wallet/Withdraw.antt =====
-- `doWithdraw`, `withdraw` and `transfer`: the wallet is emptied, or moved by a signed amount.
use my_ng_platform.Prelude.{ℕ, ℤ, pos, ltb_ℤ, leb_ℤ, Bool, true, false, ltb, if◌then◌else◌}
use my_ng_platform.Entities.{Transaction, TransactionType, TransactionSourceType}
pub mod Laws
pub mod Grants
pub mod Negative
pub mod Debts
use my_ng_platform.Store.{Error, Action, ◌>>=◌, ◌>>◌, pure, throw_if, atomically, save}
use my_ng_platform.Wallet.Credit.{do_transaction}
use my_ng_platform.Wallet.Normalize.{normalize_after_date}
use my_ng_platform.Wallet.Requests.{
  Env, WithdrawDto, Place, process_operation, read_submit_at, find_sale_unit, find_user,
  find_shift_work,
}

-- A transaction of the type at its place.
abbrev pub placed : Env → Place → TransactionType → TransactionSourceType → ℕ → ℤ → ℤ → Transaction
placed env at type source_type user amount credit = record {
  id = 0;
  type = type;
  source_type = source_type;
  source = 0;
  amount = amount;
  credit = credit;
  charge_remain_credit = pos 0;
  user = user;
  user_credit = credit;
  order = 0;
  sale_unit = at.sale_unit;
  organization_unit = at.organization_unit;
  fiscal_year = at.fiscal_year;
  shift_work = at.shift_work;
  installment_loan = 0;
  submit_at = at.submit_at;
  deleted = false;
}

abbrev pub normalize_if : Bool → Transaction → Action Transaction
normalize_if normalize t =
    if normalize then normalize_after_date t.user t.submit_at >> pure t else pure t

-- `credit` is the balance that was read with the user.
unfoldable pub do_withdraw : Env → Place → ℕ → ℤ → ℤ → Bool → Bool → Action Transaction
do_withdraw env at user credit amount dept normalize =
    do_transaction
      (placed env at TransactionType.withdraw TransactionSourceType.user_credit user amount credit)
      dept (pos 0) true
    >>= λ t. save t >>= λ t'. normalize_if normalize t'

unfoldable pub withdraw : Env → WithdrawDto → Action Transaction
withdraw env dto = atomically (do
  throw_if Error.invalid_amount (leb_ℤ dto.amount (pos 0))
  process_operation dto.organization_unit dto.fiscal_year
  credit ← find_user dto.user
  find_sale_unit dto.sale_unit
  submit_at ← read_submit_at env env.clock.now dto.submit_at
  shift ← find_shift_work env submit_at dto.organization_unit
  do_withdraw env
      (record {
        sale_unit = dto.sale_unit;
        organization_unit = dto.organization_unit;
        fiscal_year = dto.fiscal_year;
        shift_work = shift;
        submit_at = submit_at;
      })
      dto.user credit dto.amount false (ltb submit_at env.clock.now))

abbrev pub transfer_type : ℤ → TransactionType
transfer_type amount =
    if ltb_ℤ (pos 0) amount then TransactionType.withdraw else TransactionType.deposit

-- What `transfer` does once the request is read.
unfoldable pub do_transfer : Env → Place → ℕ → ℤ → ℤ → Bool → Action Transaction
do_transfer env at user credit amount normalize =
    do_transaction
      (placed env at (transfer_type amount) TransactionSourceType.transfer user amount credit) true
      (pos 0) true
    >>= λ t. save (record t { credit = t.user_credit }) >>= λ t'. normalize_if normalize t'

unfoldable pub transfer : Env → WithdrawDto → Action Transaction
transfer env dto = atomically (do
  find_sale_unit dto.sale_unit
  process_operation dto.organization_unit dto.fiscal_year
  credit ← find_user dto.user
  submit_at ← read_submit_at env env.clock.now dto.submit_at
  shift ← find_shift_work env submit_at dto.organization_unit
  do_transfer env
      (record {
        sale_unit = dto.sale_unit;
        organization_unit = dto.organization_unit;
        fiscal_year = dto.fiscal_year;
        shift_work = shift;
        submit_at = submit_at;
      })
      dto.user credit dto.amount (ltb submit_at env.clock.now))
