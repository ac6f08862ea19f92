-- ===== src/Entities.antt =====
-- The rows of the database that the wallet, the orders and the loans share: the entities of
-- src/automation/operational/entities, src/automation/base/entities and src/base/entities.
-- Ids are naturals, and 0 stands for a missing one (null or undefined, both falsy). Texts that are
-- only stored (titles, descriptions, meta) and the audit columns are left out.
use my_ng_platform.Prelude.{ℕ, ℤ, Bool, Option, List}

pub data TransactionType : Type 0 where
  deposit settle withdraw : TransactionType

pub data TransactionSourceType : Type 0 where
  user_credit bank cash_desk charging_service wallet_gift loan cheque : TransactionSourceType
  offered_discount archived transfer reserve : TransactionSourceType

pub data RegisteredServiceStatus : Type 0 where
  opened return_from_sale not_settled archived : RegisteredServiceStatus

pub data SaleUnitType : Type 0 where
  product service credit reception package_unit : SaleUnitType

pub record User : Type 0 where
  pub credit : ℤ
  pub authorized_debtor : Bool
  pub max_dept_amount : ℤ

-- `user_credit` is the balance of the user object that the transaction holds (`trx.user.credit`).
pub record Transaction : Type 0 where
  pub id : ℕ
  pub type : TransactionType
  pub source_type : TransactionSourceType
  pub source : ℕ
  pub amount : ℤ
  pub credit : ℤ
  pub charge_remain_credit : ℤ
  pub user : ℕ
  pub user_credit : ℤ
  pub order : ℕ
  pub sale_unit : ℕ
  pub organization_unit : ℕ
  pub fiscal_year : ℕ
  pub shift_work : ℕ
  pub installment_loan : ℕ
  pub submit_at : ℕ
  pub deleted : Bool

-- `amount_after_discount` is missing where the division is by 0.
pub record ContractorIncome : Type 0 where
  pub id : ℕ
  pub user : ℕ
  pub sale_item : ℕ
  pub fixed_amount : ℤ
  pub percent : ℤ
  pub amount : ℤ
  pub amount_after_discount : Option ℤ
  pub is_partner : Bool
  pub deleted : Bool

-- `unit_loaded` says that the sale unit is held as an object. `tax` is in hundredths of a percent. An amount that is missing is 0; incomes that were not loaded
-- are undefined.
pub record SaleItem : Type 0 where
  pub id : ℕ
  pub sale_order : ℕ
  pub product : ℕ
  pub type : SaleUnitType
  pub quantity : ℤ
  pub price : ℤ
  pub amount : ℤ
  pub discount : ℤ
  pub return_credit : ℤ
  pub tax : ℕ
  pub credit : ℤ
  pub used_credit : ℤ
  pub registered_service : ℕ
  pub group_class_room : ℕ
  pub sale_unit : ℕ
  pub unit_loaded : Bool
  pub organization_unit : ℕ
  pub category : ℕ
  pub user : ℕ
  pub consumer : ℕ
  pub contractor : ℕ
  pub parent : ℕ
  pub status : RegisteredServiceStatus
  pub is_cash_back : Bool
  pub is_transfer : Bool
  pub is_gift : Bool
  pub is_online : Bool
  pub is_payment_contractor : Bool
  pub manual_price : Bool
  pub with_guest : Bool
  pub persons : ℕ
  pub price_id : ℕ
  pub default_discount : ℤ
  pub un_fair_penalty_quantity : ℤ
  pub contractor_incomes : Option (List ContractorIncome)
  pub start : ℕ
  pub end_date : ℕ
  pub submit_at : ℕ
  pub deleted : Bool

-- `end_at` is null while a reception is open; `reception` is the reception that an order belongs to.
pub record SaleOrder : Type 0 where
  pub id : ℕ
  pub sale_unit : ℕ
  pub reception : ℕ
  pub end_at : Option ℕ
  pub user : ℕ
  pub organization_unit : ℕ
  pub fiscal_year : ℕ
  pub shift_work : ℕ
  pub settle_amount : ℤ
  pub total_amount : ℤ
  pub submit_at : ℕ
  pub cash_back_parent : ℕ
  pub is_reception : Bool
  pub archived : Bool
  pub items : List SaleItem

-- A weekly schedule; the times are seconds of the day.
pub record Schedule : Type 0 where
  pub days : List ℕ
  pub from_time : ℕ
  pub to_time : ℕ

-- A day of the calendar, counted from 1970, that adds to a shift work or is excluded from it.
pub record ShiftWorkCalendar : Type 0 where
  pub date : ℕ
  pub from_time : ℕ
  pub to_time : ℕ
  pub exclude : Bool

pub record ShiftWork : Type 0 where
  pub id : ℕ
  pub organization_unit : ℕ
  pub schedules : List Schedule
  pub calendars : List ShiftWorkCalendar

pub record SubProduct : Type 0 where
  pub sale_unit : ℕ
  pub category : ℕ
  pub product : ℕ

-- `percentage` is of the price, `days` is how long its cash back may be used.
pub record ProductPrice : Type 0 where
  pub id : ℕ
  pub product : ℕ
  pub min : ℤ
  pub price : ℤ
  pub duration : ℤ
  pub percentage : ℤ
  pub days : ℤ

pub record Product : Type 0 where
  pub id : ℕ
  pub price : ℤ
  pub discount : ℤ
  pub tax : ℕ
  pub duration : ℕ
  pub has_price_list : Bool
  pub price_list : List ProductPrice
  pub category : ℕ
  pub transferable_to_wallet : Bool
  pub is_cash_back : Bool
  pub has_contractor : Bool
  pub has_partner : Bool
  pub fair_use_time : ℕ
  pub fair_use_limit_time : ℕ
  pub exits_after_unfair_usage : Bool
  pub schedules : List Schedule
  pub sub_products : List SubProduct

pub data GiftType : Type 0 where
  percent price : GiftType

pub record WalletGift : Type 0 where
  pub id : ℕ
  pub from_price : ℤ
  pub to_price : ℤ
  pub type : GiftType
  pub gift : ℤ
  pub cheque : Bool
  pub organization_units : List ℕ

pub record Cheque : Type 0 where
  pub user : ℕ
  pub deleted : Bool

pub data BailType : Type 0 where
  cheque bill_of_exchange pay_slip user : BailType

-- What a loan grants: its amount and number of instalments, unless they are free.
pub record Loan : Type 0 where
  pub amount : ℤ
  pub free_amount : Bool
  pub installments : ℕ
  pub free_installments : Bool
  pub bail_types : List BailType

pub record InstallmentLoan : Type 0 where
  pub id : ℕ
  pub loan : ℕ
  pub amount : ℤ
  pub cheque : ℕ
  pub pay_time : ℕ
  pub is_payed : Bool
  pub deleted : Bool

pub record UserLoan : Type 0 where
  pub loan : ℕ
  pub installments : ℕ
  pub bail_type : BailType
  pub cheque : ℕ
  pub doc : ℕ
  pub submit_at : ℕ
  pub user : ℕ
  pub organization_unit : ℕ
  pub fiscal_year : ℕ
  pub shift_work : ℕ
  pub sale_unit : ℕ
  pub amount : ℤ
  pub payed_amount : ℤ
  pub is_payed : Bool
  pub deleted : Bool

pub record ReceptionLocker : Type 0 where
  pub id : ℕ
  pub reception : ℕ
  pub locker : ℕ
  pub deleted : Bool
