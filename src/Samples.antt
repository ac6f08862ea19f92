-- ===== src/Samples.antt =====
-- A small shop: the data of the examples.
pub mod Requests
pub mod Parts
pub mod Lockers
pub mod Orders
pub mod Loans
pub mod Receptions
pub mod Contractors
pub mod CashBack
pub mod SaleOrders
pub mod Penalty
pub mod Items
use my_ng_platform.Prelude.{
  Option, some, neg, inr, round_div, floor_div, ◌*ℤ◌, suc, ◌+◌, negsuc, List, All, ◌-ℤ◌, ◌≡◌, refl,
  ℤ, pos, true, false, none, some, [], ◌∷◌, ◌==◌, if◌then◌else◌, arith, ◌↔◌, ◌⊎◌, ◌+ℤ◌, ◌≤ℤ◌,
  reverse,
}
use my_ng_platform.Entities.{
  BailType, ShiftWorkCalendar, ShiftWork, UserLoan, SaleOrder, SaleItem, SaleUnitType,
  RegisteredServiceStatus, User, Transaction, TransactionType, TransactionSourceType,
}
use my_ng_platform.Store.{Db, is_ok, Result, ok, err}
use my_ng_platform.Wallet.Ledger.{credit_of}
use my_ng_platform.Wallet.Requests.{Env, SubmitAt, TransactionDto, WithdrawDto, Place}
use my_ng_platform.Wallet.Providers.{
  charge_service_transaction, found_charging, TransactionItem, new_transaction,
}
use my_ng_platform.Wallet.Contract.{Conserves, Ensures, Keeps}
use my_ng_platform.Wallet.Credit.{value_of, do_transaction}
use my_ng_platform.Wallet.Credit.Laws.{IsCovered, do_transaction-iff-IsCovered}
use my_ng_platform.Wallet.Deposit.{deposit, stamp_rows}
use my_ng_platform.Wallet.Deposit.Laws.{deposit-Conserves}
use my_ng_platform.Wallet.Deposit.Rows.{total, running, stamp_rows-eq-running}
use my_ng_platform.Wallet.Withdraw.{do_transfer, withdraw, transfer}
use my_ng_platform.Wallet.Withdraw.Laws.{withdraw-Conserves, transfer-Conserves}
use my_ng_platform.Wallet.Withdraw.Grants.{Takes, withdraw-Takes}
use my_ng_platform.Wallet.Withdraw.Negative.{Drifts, do_transfer-Drifts}
use my_ng_platform.Wallet.Posting.{moved}
use my_ng_platform.Wallet.Normalize.{
  is_wallet, last_before, normalized, precedes, rows_after, select, sort_rows, insert_row,
  run_credits, step_credit,
}
use my_ng_platform.Wallet.Normalize.Order.{up_to}
use my_ng_platform.Wallet.Normalize.Running.{start_of, later_rows, normalized-Running}
use my_ng_platform.Wallet.Providers.Charge.{IsCharged, charge_service_transaction-IsCharged}
use my_ng_platform.Charging.{get_charging, can_charge, is_settled, find_order, is_credit, amount_of}
use my_ng_platform.Shifts.{find_by, is_on_duty, in_calendar, in_schedule}
use my_ng_platform.Shifts.Laws.{is_on_duty-added, is_on_duty-not_excluded}
use my_ng_platform.Clock.{day_of}
use my_ng_platform.Wallet.Withdraw.Debts.{transfer-Takes}
use my_ng_platform.Wallet.Settle.{Installment, settle_installment_loan}
use my_ng_platform.Wallet.Settle.Laws.{settle_installment_loan-Keeps}
use my_ng_platform.Amounts.{
  final_amount, sum_items, counts, total_amount, tax_amount, final_amount_without_tax,
  final_amount_without_discount_and_tax, total_discount, total_tax, order_balance,
}
use my_ng_platform.Amounts.Laws.{order_balance-parts}
use my_ng_platform.Wallet.Remove.{remove_transaction}
use my_ng_platform.Wallet.Remove.Laws.{remove_transaction-Conserves}

abbrev pub env : Env
env = record { clock = record { now = 100_000_000; zone = 0 } }

abbrev pub client : User
client = record { credit = pos 70; authorized_debtor = true; max_dept_amount = pos 50 }

-- A deposit of 100 by the user 1, and a withdrawal of 30 after it.
abbrev pub first_row : Transaction
first_row =
    record (new_transaction 1000 TransactionType.deposit TransactionSourceType.cash_desk 1) {
      id = 1;
      source = 1;
      amount = pos 100;
      credit = pos 100;
    }

abbrev pub second_row : Transaction
second_row =
    record (new_transaction 2000 TransactionType.withdraw TransactionSourceType.user_credit 1) {
      id = 2;
      amount = pos 30;
      credit = pos 70;
    }

-- A shift work that is on duty all day on Thursdays and Fridays, the days of the requests.
abbrev pub duty : ShiftWork
duty = record {
  id = 1;
  organization_unit = 1;
  schedules = record { days = 4 ∷ 5 ∷ []; from_time = 0; to_time = 86_400 } ∷ [];
  calendars = [];
}

abbrev pub shop : Db
shop = record {
  users = λ u. if u == 1 then some client else none;
  sale_items = λ _. none;
  products = λ _. none;
  cheques = λ _. none;
  user_loans = λ _. none;
  loans = λ _. none;
  documents = λ _. true;
  installments = [];
  next_loan = 1;
  next_installment = 1;
  group_class_rooms = λ _. pos 0;
  incomes = [];
  reception_lockers = [];
  jobs = λ _. false;
  banks = λ _. true;
  cash_desks = λ _. true;
  sale_units = λ _. true;
  wallet_gifts = [];
  shift_works = duty ∷ [];
  orders = [];
  transactions = second_row ∷ first_row ∷ [];
  next_id = 3;
}

abbrev pub order_of : ℤ → WithdrawDto
order_of a = record {
  user = 1;
  amount = a;
  submit_at = SubmitAt.parsed 1500;
  sale_unit = 1;
  organization_unit = 1;
  fiscal_year = 1;
}

abbrev pub cash : TransactionItem
cash = record {
  id = 0;
  type = TransactionSourceType.cash_desk;
  source = 1;
  amount = pos 20;
  user = 1;
  submit_at = none;
  is_archived = false;
  from_guest = false;
}

abbrev pub deposit_dto : TransactionDto
deposit_dto = record {
  user = 1;
  items = cash ∷ cash ∷ [];
  submit_at = SubmitAt.absent;
  sale_unit = 1;
  organization_unit = 1;
  fiscal_year = 1;
}

abbrev pub place : Place
place = record {
  sale_unit = 1;
  organization_unit = 1;
  fiscal_year = 1;
  shift_work = 1;
  submit_at = 3000;
}

-- A service with a credit of 100 of which 40 are used, out of a settled order.
abbrev pub service : SaleItem
service = record {
  id = 5;
  sale_order = 8;
  product = 0;
  type = SaleUnitType.credit;
  quantity = pos 1;
  price = pos 100;
  amount = pos 100;
  discount = pos 0;
  return_credit = pos 0;
  tax = 0;
  credit = pos 100;
  used_credit = pos 40;
  registered_service = 0;
  group_class_room = 0;
  sale_unit = 1;
  unit_loaded = false;
  organization_unit = 1;
  category = 0;
  user = 1;
  consumer = 0;
  contractor = 0;
  parent = 0;
  status = RegisteredServiceStatus.opened;
  is_cash_back = false;
  is_transfer = false;
  is_gift = false;
  is_online = false;
  is_payment_contractor = false;
  manual_price = false;
  with_guest = false;
  persons = 0;
  price_id = 0;
  default_discount = pos 0;
  un_fair_penalty_quantity = pos 0;
  contractor_incomes = none;
  start = 0;
  end_date = 900_000_000;
  submit_at = 500;
  deleted = false;
}

abbrev pub serving : Db
serving = record shop {
  sale_items = λ i. if i == 5 then some service else none;
  orders =
      record {
        id = 8;
        sale_unit = 1;
        reception = 0;
        end_at = none;
        user = 1;
        organization_unit = 1;
        fiscal_year = 1;
        shift_work = 1;
        settle_amount = pos 100;
        total_amount = pos 100;
        submit_at = 500;
        cash_back_parent = 0;
        is_reception = false;
        archived = false;
        items = [];
      }
      ∷ [];
}

abbrev pub charge : TransactionItem
charge = record cash { type = TransactionSourceType.charging_service; source = 5 }

abbrev pub charging : Transaction
charging = new_transaction 1000 TransactionType.deposit TransactionSourceType.charging_service 1

-- A withdrawal dated back: the saved row keeps the balance before it until the balances are
-- computed again.
abbrev pub credits : List Transaction → List ℤ
credits [] = []
credits (t ∷ ts) = t.credit ∷ credits ts

abbrev pub loan : UserLoan
loan = record {
  loan = 2;
  installments = 1;
  bail_type = BailType.user;
  cheque = 0;
  doc = 0;
  submit_at = 500;
  user = 1;
  organization_unit = 1;
  fiscal_year = 1;
  shift_work = 1;
  sale_unit = 1;
  amount = pos 500;
  payed_amount = pos 0;
  is_payed = false;
  deleted = false;
}

abbrev pub installment : Installment
installment = record { id = 4; sale_unit = 1; submit_at = 1500 }

abbrev pub out_of_wallet : TransactionItem
out_of_wallet = record cash { type = TransactionSourceType.user_credit; source = 0 }

abbrev pub sold_order : SaleOrder
sold_order = record {
  id = 9;
  sale_unit = 1;
  reception = 0;
  end_at = none;
  user = 1;
  organization_unit = 1;
  fiscal_year = 1;
  shift_work = 1;
  settle_amount = pos 50;
  total_amount = pos 99;
  submit_at = 500;
  cash_back_parent = 0;
  is_reception = false;
  archived = false;
  items = record service { discount = pos 10; tax = 900 } ∷ [];
}

-- The first day is added for everyone, and the other one is left out.
abbrev pub added_day : ShiftWorkCalendar
added_day = record { date = 0; from_time = 0; to_time = 3600; exclude = false }

abbrev pub free_day : ShiftWorkCalendar
free_day = record { date = 0; from_time = 0; to_time = 3600; exclude = true }

abbrev pub other_day : ShiftWorkCalendar
other_day = record { date = 7; from_time = 0; to_time = 3600; exclude = true }

-- The credit of the client after a call that returns.
abbrev pub outcome : {A : Type 0} → Result A × Db → Option ℤ
outcome (ok _, b) = some (credit_of 1 b)
outcome (err _, _) = none
