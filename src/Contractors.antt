-- ===== src/Contractors.antt =====
-- The incomes of contractors and partners: automation/base/service/contractor.service.ts.
pub mod Rounding
pub mod Laws
use my_ng_platform.Prelude.{
  ℕ, zero, suc, ℤ, pos, negsuc, neg, ◌+ℤ◌, ◌*ℤ◌, eqb_ℤ, round_div, ◌*◌, Bool, true, false, not,
  ◌&&◌, ◌||◌, Option, none, some, List, [], ◌∷◌, ◌==◌, if◌then◌else◌,
}
use my_ng_platform.Amounts.{final_amount_without_discount_and_tax, final_amount_without_tax}
use my_ng_platform.Entities.{ContractorIncome, SaleItem, SaleUnitType, Product}

-- A contractor or a partner of a product: a percentage of the price, and an amount for each piece.
pub record ProductShare : Type 0 where
  pub product : ℕ
  pub user : ℕ
  pub percent : ℤ
  pub amount : ℤ

pub record ContractorDb : Type 0 where
  pub contractors : List ProductShare
  pub partners : List ProductShare
  pub incomes : List ContractorIncome

-- `getProductContractor`: no contractor is no condition.
unfoldable pub get_product_contractor : ℕ → ℕ → List ProductShare → Option ProductShare
get_product_contractor product contractor [] = none
get_product_contractor product contractor (s ∷ ss) =
    if s.product == product && (contractor == 0 || s.user == contractor)
    then some s
    else get_product_contractor product contractor ss

unfoldable pub get_product_partners : ℕ → List ProductShare → List ProductShare
get_product_partners product [] = []
get_product_partners product (s ∷ ss) =
    let rest = get_product_partners product ss in if s.product == product then s ∷ rest else rest

abbrev pub is_income : ℕ → Bool → ContractorIncome → Bool
is_income item partner c =
    not c.deleted && c.sale_item == item && (if partner then c.is_partner else not c.is_partner)

unfoldable pub find_incomes : ℕ → Bool → List ContractorIncome → List ContractorIncome
find_incomes item partner [] = []
find_incomes item partner (c ∷ cs) =
    let rest = find_incomes item partner cs in if is_income item partner c then c ∷ rest else rest

abbrev pub first_of : List ContractorIncome → Option ContractorIncome
first_of [] = none
first_of (c ∷ cs) = some c

unfoldable pub new_income : Bool → ProductShare → ContractorIncome
new_income is_partner s = record {
  id = 0;
  user = s.user;
  sale_item = 0;
  fixed_amount = s.amount;
  percent = s.percent;
  amount = pos 0;
  amount_after_discount = some (pos 0);
  is_partner = is_partner;
  deleted = false;
}

-- `saleItem.credit || 1`
abbrev pub or_one : ℤ → ℤ
or_one a = if eqb_ℤ a (pos 0) then pos 1 else a

-- `Math.round(price * percent / 100 + pieces * fixed)`
unfoldable pub share_of : ℤ → ℤ → ℤ → ℤ → ℤ
share_of price percent pieces fixed = round_div (price *ℤ percent +ℤ pieces *ℤ fixed *ℤ pos 100) 100

-- `Math.round(a / (100 * b))`, which is no number where `b` is 0.
unfoldable pub round_hundredth : ℤ → ℤ → Option ℤ
round_hundredth a (pos zero) = none
round_hundredth a (pos (suc n)) = some (round_div a (100 * suc n))
round_hundredth a (negsuc n) = some (round_div (neg a) (100 * suc n))

-- The amounts of an item that is sold: of the whole price, and of the price less the discount.
unfoldable pub of_sale : SaleItem → ContractorIncome → ContractorIncome
unfolding share_of
of_sale i c =
    let pieces = i.quantity *ℤ or_one i.credit in
    record c {
      amount = share_of (final_amount_without_discount_and_tax i) c.percent pieces c.fixed_amount;
      amount_after_discount =
          some (share_of (final_amount_without_tax i) c.percent pieces c.fixed_amount);
    }

-- The amounts of a use of the service `r`: of its price, and of what one use of it cost.
unfoldable pub of_reception : SaleItem → SaleItem → ContractorIncome → ContractorIncome
unfolding round_hundredth
of_reception r i c = record c {
  amount = round_div ((r.price *ℤ c.percent +ℤ c.fixed_amount *ℤ pos 100) *ℤ i.quantity) 100;
  amount_after_discount =
      round_hundredth
        ((final_amount_without_tax r *ℤ c.percent +ℤ r.credit *ℤ c.fixed_amount *ℤ pos 100)
          *ℤ i.quantity)
        r.credit;
}

abbrev pub has_income : SaleUnitType → Bool
has_income SaleUnitType.service = true
has_income SaleUnitType.product = true
has_income SaleUnitType.reception = true
has_income _ = false

-- The income that is computed: the saved one of the item, or a new one by its contractor.
unfoldable pub income_of : ContractorDb → SaleItem → Bool → Option ContractorIncome
unfolding get_product_contractor find_incomes new_income
income_of d i is_edit =
    if not (i.id == 0) && not is_edit
    then first_of (find_incomes i.id false d.incomes)
    else (if has_income i.type
        then elim (get_product_contractor i.product i.contractor d.contractors) [
          | none ↦ none
          | some s ↦ some (new_income false s)
        ]
        else none)

-- An income of nothing, or of nobody, is removed.
abbrev pub closed : SaleItem → ContractorIncome → ContractorIncome
closed i c = record c { deleted = c.deleted || eqb_ℤ c.amount (pos 0) || i.contractor == 0 }

-- `processContractorIncome`; `registered` is the service that the item uses.
unfoldable pub process_contractor_income :
    ContractorDb → Product → Option SaleItem → SaleItem → Bool → Option ContractorIncome
unfolding income_of of_sale of_reception
process_contractor_income d p registered i is_edit =
    if p.has_contractor
    then elim (income_of d i is_edit) [
      | none ↦ none
      | some c ↦
          some (closed i (elim registered [ none ↦ of_sale i c | some r ↦ of_reception r i c ]))
    ]
    else none

unfoldable pub of_partner : SaleItem → ContractorIncome → ContractorIncome
unfolding share_of
of_partner i c =
    let amount =
      share_of (final_amount_without_discount_and_tax i) c.percent i.quantity c.fixed_amount in
    record c {
      amount = amount;
      amount_after_discount =
          some (share_of (final_amount_without_tax i) c.percent i.quantity c.fixed_amount);
      deleted = c.deleted || eqb_ℤ amount (pos 0);
    }

unfoldable pub of_partners : SaleItem → List ContractorIncome → List ContractorIncome
unfolding of_partner
of_partners i [] = []
of_partners i (c ∷ cs) = of_partner i c ∷ of_partners i cs

unfoldable pub new_incomes : List ProductShare → List ContractorIncome
unfolding new_income
new_incomes [] = []
new_incomes (s ∷ ss) = new_income true s ∷ new_incomes ss

-- `processPartnerIncome`; `partners` are those that the product was loaded with.
unfoldable pub process_partner_income :
    ContractorDb → Product → List ProductShare → SaleItem → List ContractorIncome
unfolding of_partners get_product_partners find_incomes new_incomes
process_partner_income d p partners i =
    if p.has_partner
    then of_partners i (
        if i.id == 0
        then new_incomes
            (elim partners [ [] ↦ get_product_partners i.product d.partners | s ∷ ss ↦ s ∷ ss ])
        else find_incomes i.id true d.incomes)
    else []
