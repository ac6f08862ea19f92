-- ===== src/Wallet/Providers.antt =====
-- The sources of a payment: `chargeServiceTransaction`, `bankTransaction`, `cashTransaction`,
-- `chequeTransaction` and `giftTransaction`.
pub mod Laws
pub mod Charge
use my_ng_platform.Prelude.{
  ℕ, ℤ, pos, ◌+ℤ◌, ◌-ℤ◌, leb_ℤ, ltb_ℤ, floor_div, eqb_ℤ, ◌*ℤ◌, Bool, not, ◌&&◌, ◌||◌, Option, none,
  some, List, false, ◌==◌, if◌then◌else◌,
}
use my_ng_platform.Clock.{Clock}
use my_ng_platform.Entities.{
  Transaction, TransactionType, TransactionSourceType, SaleItem, WalletGift,
}
use my_ng_platform.Store.{Db, Error, Result, Action, ok, err, alter}
use my_ng_platform.Charging.{get_charging, get_charging_for_archived}
use my_ng_platform.Gift.{get_gift}

-- `TransactionItem` of dto/sale-order.dto.ts: one payment of a request.
pub record TransactionItem : Type 0 where
  pub id : ℕ
  pub type : TransactionSourceType
  pub source : ℕ
  pub amount : ℤ
  pub user : ℕ
  pub submit_at : Option ℕ
  pub is_archived : Bool
  pub from_guest : Bool

-- `new Transaction()`, with the defaults of the class.
abbrev pub new_transaction : ℕ → TransactionType → TransactionSourceType → ℕ → Transaction
new_transaction now type source_type user = record {
  id = 0;
  type = type;
  source_type = source_type;
  source = 0;
  amount = pos 0;
  credit = pos 0;
  charge_remain_credit = pos 0;
  user = user;
  user_credit = pos 0;
  order = 0;
  sale_unit = 0;
  organization_unit = 0;
  fiscal_year = 0;
  shift_work = 0;
  installment_loan = 0;
  submit_at = now;
  deleted = false;
}

-- `chargingService.usedCredit += amount`, saved.
unfoldable pub use_credit : ℤ → SaleItem → SaleItem
use_credit a i = record i { used_credit = i.used_credit +ℤ a }

unfoldable pub found_charging :
    Clock → TransactionItem → Transaction → List SaleItem → Db → Option (SaleItem × ℤ)
found_charging c dto t sold b =
    if dto.is_archived
    then get_charging_for_archived dto.source dto.amount b
    else get_charging c dto.source t.user t.sale_unit t.submit_at sold dto.from_guest b

-- `sold` are the items of the transaction's order.
unfoldable pub charge_service_transaction :
    Clock → TransactionItem → Transaction → List SaleItem → Action Transaction
unfolding use_credit
charge_service_transaction c dto t sold b = elim (found_charging c dto t sold b) [
  | none ↦ (err (if t.id == 0 then Error.invalid_charging_service else Error.type_error), b)
  | some (service, value) ↦
      if t.id == 0
      then (if ltb_ℤ (pos 0) value && leb_ℤ dto.amount value
          then (let remain = service.credit -ℤ (service.used_credit +ℤ dto.amount) in
              (
                ok (record t {
                  amount = dto.amount;
                  source = dto.source;
                  credit = remain;
                  charge_remain_credit = remain;
                }),
                record b { sale_items = alter (use_credit dto.amount) dto.source b.sale_items },
              ))
          else (err Error.invalid_charging_service, b))
      else (let amount = dto.amount -ℤ t.amount in
          let remain = service.credit -ℤ (service.used_credit +ℤ amount) in
          (
            ok (record t { credit = remain; charge_remain_credit = remain }),
            record b { sale_items = alter (use_credit amount) dto.source b.sale_items },
          ))
]

-- The source is looked up for a new transaction, and where it changes.
unfoldable pub looks_up : TransactionItem → Transaction → Bool
looks_up dto t = t.id == 0 || not (t.source == dto.source)

unfoldable pub bank_transaction : TransactionItem → Transaction → Action Transaction
unfolding looks_up
bank_transaction dto t b =
    if looks_up dto t && not (b.banks dto.source)
    then (err Error.not_found_bank, b)
    else (let source = if looks_up dto t then dto.source else t.source in
        (ok (record t { source = source; amount = dto.amount }), b))

unfoldable pub cash_transaction : TransactionItem → Transaction → Action Transaction
unfolding looks_up
cash_transaction dto t b =
    if looks_up dto t && not (b.cash_desks dto.source)
    then (err Error.not_found_cash_desk, b)
    else (let source = if looks_up dto t then dto.source else t.source in
        (ok (record t { source = source; amount = dto.amount }), b))

-- The amount is written only where the cheque is looked up.
unfoldable pub cheque_transaction : TransactionItem → Transaction → Action Transaction
unfolding looks_up
cheque_transaction dto t b =
    if looks_up dto t
    then elim (b.cheques dto.source) [
      | none ↦ (err Error.not_found_cheque, b)
      | some q ↦
          if q.user == dto.user && not q.deleted
          then (ok (record t { source = dto.source; amount = dto.amount }), b)
          else (err Error.not_found_cheque, b)
    ]
    else (ok t, b)

-- The whole number of these hundredths, if it is one.
unfoldable pub whole : ℤ → Option ℤ
unfolding floor_div
whole h = let n = floor_div h 100 in if eqb_ℤ (n *ℤ pos 100) h then some n else none

-- The gift, if there is one, as one more deposit. The column of its amount keeps a fraction; the
-- model has whole amounts, and says so where the gift is none.
unfoldable pub gift_transaction : ℕ → ℤ → ℤ → ℕ → ℕ → List WalletGift → Result (Option Transaction)
unfolding whole
gift_transaction now without_cheque price org user gifts =
    elim (get_gift without_cheque price org gifts) [
      | none ↦ ok none
      | some (gift, hundredths) ↦
          if ltb_ℤ (pos 0) hundredths
          then elim (whole hundredths) [
            | none ↦ err Error.fractional_gift
            | some amount ↦ ok (
                some
                  (record (new_transaction now TransactionType.deposit
                    TransactionSourceType.wallet_gift user) {
                      source = gift.id;
                      organization_unit = org;
                      amount = amount;
                    }))
          ]
          else ok none
    ]
