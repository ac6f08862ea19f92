-- ===== src/Wallet/Deposit.antt =====
-- `doDeposit` and `deposit`: the wallet is filled from other sources.
pub mod Rows
pub mod Gathers
pub mod Laws
use my_ng_platform.Prelude.{
  ℕ, ℤ, pos, ◌+ℤ◌, ◌-ℤ◌, neg, ltb_ℤ, Bool, true, false, not, ◌&&◌, Option, none, some, List, [],
  ◌∷◌, ◌++◌, reverse, ltb, ◌==◌, if◌then◌else◌,
}
use my_ng_platform.Clock.{minute_of}
use my_ng_platform.Entities.{Transaction, TransactionType, TransactionSourceType}
use my_ng_platform.Store.{
  Error, Result, Action, ok, err, ◌>>=◌, ◌>>◌, pure, throw, atomically, save_all,
}
use my_ng_platform.Wallet.Credit.{do_transaction}
use my_ng_platform.Wallet.Normalize.{normalize_after_date, normalize_charges_after_date}
use my_ng_platform.Wallet.Providers.{
  TransactionItem, new_transaction, charge_service_transaction, bank_transaction, cash_transaction,
  cheque_transaction, gift_transaction,
}
use my_ng_platform.Wallet.Requests.{
  Env, TransactionDto, Place, process_operation, read_submit_at, find_sale_unit, find_user,
  find_shift_work,
}

-- The variables of the loop over the payments.
pub record Collected : Type 0 where
  pub sum : ℤ
  pub without_cheque : ℤ
  pub rows : List Transaction
  pub sources : List ℕ

-- One payment of the loop, by its type; `t` is the new transaction.
unfoldable pub deposit_item :
    TransactionSourceType → Env → Place → TransactionItem → Transaction → Action Transaction
deposit_item TransactionSourceType.cheque env at dto t = cheque_transaction dto t
deposit_item TransactionSourceType.bank env at dto t = bank_transaction dto t
deposit_item TransactionSourceType.cash_desk env at dto t = cash_transaction dto t
deposit_item TransactionSourceType.archived env at dto t = pure (record t { amount = dto.amount })
deposit_item TransactionSourceType.charging_service env at dto t =
    charge_service_transaction env.clock dto
      (record t { sale_unit = at.sale_unit; organization_unit = at.organization_unit }) []
deposit_item _ env at dto t = pure t

abbrev pub counts_for_gift : TransactionSourceType → Bool
counts_for_gift TransactionSourceType.bank = true
counts_for_gift TransactionSourceType.cash_desk = true
counts_for_gift TransactionSourceType.archived = true
counts_for_gift TransactionSourceType.charging_service = true
counts_for_gift _ = false

abbrev pub is_charging : TransactionSourceType → Bool
is_charging TransactionSourceType.charging_service = true
is_charging _ = false

abbrev pub collected : TransactionItem → Collected → Transaction → Collected
collected dto acc t = record {
  sum = acc.sum +ℤ t.amount;
  without_cheque =
      if counts_for_gift dto.type then acc.without_cheque +ℤ t.amount else acc.without_cheque;
  rows = acc.rows ++ (t ∷ []);
  sources = if is_charging dto.type then acc.sources ++ (t.source ∷ []) else acc.sources;
}

unfoldable pub collect_item : Env → Place → ℕ → TransactionItem → Collected → Action Collected
collect_item env at user dto acc =
    if ltb_ℤ (pos 0) dto.amount && not (dto.source == 0)
    then (deposit_item dto.type env at dto
          (new_transaction env.clock.now TransactionType.deposit dto.type user)
        >>= λ t. pure (collected dto acc t))
    else pure acc

unfoldable pub collect : Env → Place → ℕ → List TransactionItem → Collected → Action Collected
collect env at user [] acc = pure acc
collect env at user (dto ∷ dtos) acc =
    collect_item env at user dto acc >>= λ acc'. collect env at user dtos acc'

-- The gift is one more row, and counts in the sum.
unfoldable pub put_gift : Collected → Result (Option Transaction) → Action Collected
put_gift acc (err e) b = (err e, b)
put_gift acc (ok none) b = (ok acc, b)
put_gift acc (ok (some g)) b =
    (ok (record acc { sum = acc.sum +ℤ g.amount; rows = acc.rows ++ (g ∷ []) }), b)

unfoldable pub add_gift : Env → Place → ℕ → Collected → Action Collected
unfolding put_gift
add_gift env at user acc b =
    put_gift acc
      (gift_transaction env.clock.now acc.without_cheque acc.sum at.organization_unit user
        b.wallet_gifts)
      b

-- The loop over the reversed rows: each takes the balance that it left behind.
unfoldable pub stamp_rows : Place → ℤ → List Transaction → List Transaction
stamp_rows at credit [] = []
stamp_rows at credit (t ∷ ts) =
    record t {
      credit = credit;
      sale_unit = at.sale_unit;
      organization_unit = at.organization_unit;
      fiscal_year = at.fiscal_year;
      shift_work = at.shift_work;
      submit_at = at.submit_at;
    }
    ∷ stamp_rows at (credit -ℤ t.amount) ts

unfoldable pub normalize_sources : ℕ → ℕ → List ℕ → Action (Unit {0})
normalize_sources user at [] = pure tt
normalize_sources user at (s ∷ ss) =
    normalize_charges_after_date user at s >> normalize_sources user at ss

-- What follows once the sum is known to be positive.
unfoldable pub record_deposit : Env → Place → ℕ → Bool → Collected → Action (List Transaction)
record_deposit env at user normalize acc =
    do_transaction
      (record (new_transaction env.clock.now TransactionType.deposit
        TransactionSourceType.user_credit user) { amount = neg acc.sum })
      false (pos 0) true
    >>= λ result.
        save_all (reverse (stamp_rows at result.user_credit (reverse acc.rows))) >>= λ saved.
        if normalize
        then (normalize_after_date user at.submit_at
            >> (normalize_sources user at.submit_at acc.sources >> pure saved))
        else pure saved

abbrev pub nothing_collected : Collected
nothing_collected = record { sum = pos 0; without_cheque = pos 0; rows = []; sources = [] }

unfoldable pub do_deposit :
    Env → Place → ℕ → List TransactionItem → Bool → Bool → Action (List Transaction)
do_deposit env at user items by_gift normalize =
    collect env at user items nothing_collected >>= λ acc.
    (if by_gift then add_gift env at user acc else pure acc) >>= λ acc'.
    if ltb_ℤ (pos 0) acc'.sum
    then record_deposit env at user normalize acc'
    else throw Error.invalid_amount

-- `now` of the request is cut to the minute, and so is an absent date.
unfoldable pub deposit : Env → TransactionDto → Bool → Action (List Transaction)
deposit env dto by_gift = atomically (do
  let now = minute_of env.clock.now
  submit_at ← read_submit_at env now dto.submit_at
  find_sale_unit dto.sale_unit
  process_operation dto.organization_unit dto.fiscal_year
  shift ← find_shift_work env submit_at dto.organization_unit
  find_user dto.user
  do_deposit env
      (record {
        sale_unit = dto.sale_unit;
        organization_unit = dto.organization_unit;
        fiscal_year = dto.fiscal_year;
        shift_work = shift;
        submit_at = submit_at;
      })
      dto.user dto.items by_gift (ltb submit_at now))
