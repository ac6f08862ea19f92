-- ===== src/Items/Requests.antt =====
-- What the sale of an item is asked, and what it reads: automation/operational/dto/sale-order.dto.ts.
use my_ng_platform.Prelude.{ℕ, ℤ, Bool, Option, List}
use my_ng_platform.Clock.{Clock}
use my_ng_platform.Entities.{ProductPrice}
use my_ng_platform.Contractors.{ContractorDb, ProductShare}

pub record SellingUnit : Type 0 where
  pub id : ℕ
  pub allow_discount : Bool

-- The request; 0 stands for a missing number but the price, for which the code tests null.
pub record SaleItemDto : Type 0 where
  pub parent : ℕ
  pub start : Option ℕ
  pub end_date : Option ℕ
  pub submit_at : ℕ
  pub discount : ℤ
  pub quantity : ℤ
  pub price : Option ℤ
  pub amount : ℤ
  pub credit : ℤ
  pub used_credit : ℤ
  pub price_id : ℕ
  pub duration : ℕ
  pub manual_price : Bool
  pub is_transfer : Bool
  pub is_gift : Bool
  pub is_cash_back : Bool
  pub is_online : Bool
  pub is_payment_contractor : Bool
  pub un_fair_penalty_quantity : ℤ

-- What the call reads: the clock, the tables of prices and of contractors, and the partners that the
-- product was loaded with.
pub record SaleEnv : Type 0 where
  pub clock : Clock
  pub prices : List ProductPrice
  pub contractors : ContractorDb
  pub partners : List ProductShare
