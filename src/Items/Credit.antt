-- ===== src/Items/Credit.antt =====
-- The sale of a credit: automation/operational/service/credit-product-provider.ts. The call writes
-- nothing: it returns the item that its caller saves, and an item of a call that throws is dropped.
pub mod Holds
pub mod Laws
pub mod Used
pub mod Fields
pub mod Repricing
pub mod Again
use my_ng_platform.Prelude.{
  ℕ, ◌+◌, ◌*◌, ltb, ℤ, pos, ltb_ℤ, eqb_ℤ, Bool, true, false, not, ◌&&◌, ◌||◌, Option, none, some,
  List, [], ◌∷◌, ◌++◌, ◌==◌, or_else, if◌then◌else◌,
}
use my_ng_platform.Clock.{Clock, day_of, day_length}
use my_ng_platform.Amounts.{total_amount}
use my_ng_platform.Entities.{
  SaleItem, SaleUnitType, RegisteredServiceStatus, Product, ProductPrice, ContractorIncome,
}
use my_ng_platform.Contractors.{ContractorDb, ProductShare, process_partner_income}
use my_ng_platform.Store.{Error, Result, ok, err}
use my_ng_platform.Items.Requests.{SellingUnit, SaleItemDto, SaleEnv}
use my_ng_platform.Items.Prices.{price_policy}

infixl 5 ◌>>=◌
unfoldable pub ◌>>=◌ : {A B : Type 0} → Result A → (A → Result B) → Result B
ok a >>= f = f a
err e >>= f = err e

unfoldable pub new_item : SaleItemDto → Product → SellingUnit → SaleItem
new_item dto p u = record {
  id = 0;
  sale_order = 0;
  product = p.id;
  type = SaleUnitType.credit;
  quantity = pos 1;
  price = pos 0;
  amount = pos 0;
  discount = pos 0;
  return_credit = pos 0;
  tax = p.tax;
  credit = pos 0;
  used_credit = pos 0;
  registered_service = 0;
  group_class_room = 0;
  sale_unit = u.id;
  unit_loaded = true;
  organization_unit = 0;
  category = p.category;
  user = 0;
  consumer = 0;
  contractor = 0;
  parent = 0;
  status = RegisteredServiceStatus.opened;
  is_cash_back = dto.is_cash_back;
  is_transfer = dto.is_transfer;
  is_gift = dto.is_gift;
  is_online = dto.is_online;
  is_payment_contractor = dto.is_payment_contractor;
  manual_price = false;
  with_guest = false;
  persons = 0;
  price_id = 0;
  default_discount = p.discount;
  un_fair_penalty_quantity = pos 0;
  contractor_incomes = none;
  start = 0;
  end_date = 0;
  submit_at = dto.submit_at;
  deleted = false;
}

unfoldable pub with_penalty : SaleItemDto → SaleItem → SaleItem
with_penalty dto i =
    if eqb_ℤ dto.un_fair_penalty_quantity (pos 0)
    then i
    else record i { un_fair_penalty_quantity = dto.un_fair_penalty_quantity }

unfoldable pub with_start : Clock → SaleItemDto → SaleItem → Result SaleItem
with_start c dto i = elim dto.start [
  | none ↦ ok (if i.start == 0 then record i { start = dto.submit_at } else i)
  | some s ↦
      if ltb (day_of c s) (day_of c i.submit_at)
      then err Error.invalid_start_date
      else ok (record i { start = s })
]

unfoldable pub with_end_date : SaleItemDto → SaleItem → SaleItem
with_end_date dto i = elim dto.end_date [ none ↦ i | some t ↦ record i { end_date = t } ]

-- `moment(t)`: an undefined date is the present.
unfoldable pub moment_of : Clock → ℕ → ℕ
moment_of c t = or_else t c.now

-- An end that was loaded as null is no valid date, and nothing is after it; that of a new item is
-- undefined.
abbrev pub has_null_end : SaleItem → Bool
has_null_end i = not (i.id == 0) && i.end_date == 0

unfoldable pub check_end : Clock → SaleItem → Result SaleItem
unfolding moment_of
check_end c i =
    if not (has_null_end i)
      && ltb (day_of c (moment_of c i.end_date)) (day_of c (moment_of c i.start))
    then err Error.invalid_end_date
    else ok i

unfoldable pub with_discount : SaleItemDto → Product → SellingUnit → SaleItem → SaleItem
with_discount dto p u i =
    if eqb_ℤ i.used_credit (pos 0)
    then record i {
      discount = if u.allow_discount || not (dto.parent == 0) then dto.discount else p.discount;
    }
    else i

unfoldable pub with_price : List ProductPrice → Product → SaleItemDto → SaleItem → Result SaleItem
unfolding price_policy
with_price prices p dto i =
    if dto.parent == 0
    then (if p.has_price_list
        then elim (price_policy prices p dto) [
          | none ↦ err Error.not_found_service_price
          | some r ↦ ok (record i { price = r.price; price_id = r.id })
        ]
        else ok (record i { price = p.price }))
    else ok i

abbrev or_zero : Option ℤ → ℤ
or_zero none = pos 0
or_zero (some a) = a

unfoldable pub with_final_price : SaleItemDto → SaleItem → SaleItem
with_final_price dto i =
    if dto.manual_price && not (eqb_ℤ dto.amount (pos 0))
    then record i { price = or_zero dto.price; amount = dto.amount; manual_price = true }
    else record i { amount = i.price; manual_price = false }

unfoldable pub duration_of : Product → SaleItemDto → ℕ
duration_of p dto = if dto.parent == 0 then or_else dto.duration p.duration else dto.duration

unfoldable pub with_last_day : Clock → Product → SaleItemDto → SaleItem → SaleItem
unfolding moment_of duration_of
with_last_day c p dto i =
    if i.end_date == 0
    then record i { end_date = moment_of c i.start + duration_of p dto * day_length }
    else i

unfoldable pub worth_of : Product → SaleItemDto → ℤ
worth_of p dto = elim dto.price [ none ↦ p.price | some a ↦ a ]

unfoldable pub grant_credit : Product → SaleItemDto → SaleItem → Result SaleItem
unfolding worth_of
grant_credit p dto i =
    if eqb_ℤ (worth_of p dto) (pos 0)
    then err Error.not_found_credit
    else ok (record i { credit = worth_of p dto })

abbrev pub is_sold : SaleItem → Bool
is_sold i = not i.is_transfer && not i.is_gift && not i.is_cash_back

-- What an item costs, and what it is worth.
unfoldable pub price_item : SaleEnv → SaleItemDto → Product → SaleItem → Result SaleItem
unfolding with_price with_final_price with_last_day grant_credit ◌>>=◌
price_item e dto p i = with_price e.prices p dto i >>= λ j.
    grant_credit p dto (with_last_day e.clock p dto (with_final_price dto j))

-- The branch of an item that is paid for.
unfoldable pub sell : SaleEnv → SaleItemDto → Product → SaleItem → Result SaleItem
unfolding price_item
sell e dto p i = if eqb_ℤ i.used_credit (pos 0) then price_item e dto p i else ok i

-- The branch of an item that is transferred, or given.
unfoldable pub take_over : SaleItemDto → SaleItem → SaleItem
take_over dto i =
    let price = or_zero dto.price in
    if i.is_transfer
    then record i { credit = dto.credit; used_credit = pos 0; price = price; amount = price }
    else record i { credit = price; used_credit = dto.used_credit; price = price; amount = price }

unfoldable pub charge_item : SaleEnv → SaleItemDto → Product → SaleItem → Result SaleItem
unfolding sell take_over
charge_item e dto p i = if is_sold i then sell e dto p i else ok (take_over dto i)

unfoldable pub check_total : SaleItem → Result SaleItem
check_total i =
    if ltb_ℤ (total_amount i) (pos 0)
    then err Error.amount_is_zero
    else ok (record i { status = RegisteredServiceStatus.opened })

-- The incomes of an item that has none loaded cannot be spread.
unfoldable pub add_incomes : List ContractorIncome → SaleItem → Result SaleItem
add_incomes [] i = ok i
add_incomes (c ∷ cs) i = elim i.contractor_incomes [
  | none ↦ err Error.type_error
  | some is ↦ ok (record i { contractor_incomes = some ((c ∷ cs) ++ is) })
]

unfoldable pub with_partners : SaleEnv → Product → SaleItem → Result SaleItem
unfolding add_incomes
with_partners e p i =
    if p.has_partner
    then add_incomes (process_partner_income e.contractors p e.partners i) i
    else ok i

unfoldable pub item_or_new : SaleItemDto → Product → SellingUnit → Option SaleItem → SaleItem
unfolding new_item
item_or_new dto p u none = new_item dto p u
item_or_new dto p u (some i) = i

-- `upsert` from the item on.
unfoldable pub revise : SaleEnv → SaleItemDto → SaleItem → Product → SellingUnit → Result SaleItem
unfolding with_penalty with_start with_end_date check_end with_discount charge_item check_total
    with_partners ◌>>=◌
revise e dto i p u =
    with_start e.clock dto (with_penalty dto i)
    >>= (λ j. check_end e.clock (with_end_date dto j))
    >>= (λ j. charge_item e dto p (with_discount dto p u j))
    >>= check_total
    >>= with_partners e p

unfoldable pub upsert :
    SaleEnv → SaleItemDto → Option SaleItem → Product → SellingUnit → Result SaleItem
unfolding revise item_or_new
upsert e dto item p u = revise e dto (item_or_new dto p u item) p u
