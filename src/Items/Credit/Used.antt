-- ===== src/Items/Credit/Used.antt =====
-- An edit of a credit that was used already.
use my_ng_platform.Prelude.{
  ℕ, ltb, ℤ, pos, ltb_ℤ, eqb_ℤ, ◌≡◌, refl, ap, ◌∙◌, Bool, true, false, not, ◌&&◌, Bool-cases, some,
  Option-cases, List, [], ◌∷◌, inl, inr, ◌==◌,
}
use my_ng_platform.Clock.{Clock, day_of}
use my_ng_platform.Amounts.{total_amount}
use my_ng_platform.Entities.{SaleItem, Product, ContractorIncome}
use my_ng_platform.Store.{ok}
use my_ng_platform.Items.Requests.{SellingUnit, SaleItemDto, SaleEnv}
use my_ng_platform.Items.Credit.{
  with_penalty, with_start, with_end_date, moment_of, check_end, has_null_end, with_discount,
  is_sold, sell, charge_item, check_total, add_incomes, with_partners, revise, item_or_new, upsert,
}
use my_ng_platform.Items.Credit.Holds.{Holds, Holds-bind, Holds-map}

-- What was agreed on, and how much of it was used.
pub record Terms : Type 0 where
  pub price : ℤ
  pub price_id : ℕ
  pub amount : ℤ
  pub discount : ℤ
  pub credit : ℤ
  pub used_credit : ℤ
  pub sold : Bool

unfoldable pub terms_of : SaleItem → Terms
terms_of i = record {
  price = i.price;
  price_id = i.price_id;
  amount = i.amount;
  discount = i.discount;
  credit = i.credit;
  used_credit = i.used_credit;
  sold = is_sold i;
}

abbrev pub HasTerms : SaleItem → SaleItem → Type 0
HasTerms i j = terms_of j ≡ terms_of i

with_penalty-HasTerms : (dto : SaleItemDto) (i : SaleItem) → HasTerms i (with_penalty dto i)
unfolding with_penalty terms_of
with_penalty-HasTerms dto i = elim (Bool-cases (eqb_ℤ dto.un_fair_penalty_quantity (pos 0))) [
  | inl e ↦ rw e refl
  | inr e ↦ rw e refl
]

with_start-HasTerms :
    (c : Clock) (dto : SaleItemDto) (i : SaleItem) → Holds (HasTerms i) (with_start c dto i)
unfolding with_start Holds terms_of
with_start-HasTerms c dto i = elim (Option-cases dto.start) [
  | inl e ↦ rw e (elim (Bool-cases (i.start == 0)) [ inl f ↦ rw f refl | inr f ↦ rw f refl ])
  | inr (s, e) ↦ rw e (elim (Bool-cases (ltb (day_of c s) (day_of c i.submit_at))) [
    | inl f ↦ rw f tt
    | inr f ↦ rw f refl
  ])
]

with_end_date-HasTerms : (dto : SaleItemDto) (i : SaleItem) → HasTerms i (with_end_date dto i)
unfolding with_end_date terms_of
with_end_date-HasTerms dto i = elim (Option-cases dto.end_date) [
  | inl e ↦ rw e refl
  | inr (s, e) ↦ rw e refl
]

pub check_end-same : (c : Clock) (i : SaleItem) → Holds (λ j. j ≡ i) (check_end c i)
unfolding check_end Holds
check_end-same c i =
    elim (Bool-cases (
      not (has_null_end i)
      && ltb (day_of c (moment_of c i.end_date)) (day_of c (moment_of c i.start)))) [
        | inl e ↦ rw e tt
        | inr e ↦ rw e refl
      ]

check_total-HasTerms : (i : SaleItem) → Holds (HasTerms i) (check_total i)
unfolding check_total Holds terms_of
check_total-HasTerms i = elim (Bool-cases (ltb_ℤ (total_amount i) (pos 0))) [
  | inl e ↦ rw e tt
  | inr e ↦ rw e refl
]

add_incomes-HasTerms :
    (cs : List ContractorIncome) (i : SaleItem) → Holds (HasTerms i) (add_incomes cs i)
unfolding add_incomes Holds terms_of
add_incomes-HasTerms [] i = refl
add_incomes-HasTerms (k ∷ ks) i = elim (Option-cases i.contractor_incomes) [
  | inl e ↦ rw e tt
  | inr (is, e) ↦ rw e refl
]

with_partners-HasTerms :
    (e : SaleEnv) (p : Product) (i : SaleItem) → Holds (HasTerms i) (with_partners e p i)
unfolding with_partners Holds
with_partners-HasTerms e p i = elim (Bool-cases p.has_partner) [
  | inl f ↦ rw f (add_incomes-HasTerms _ i)
  | inr f ↦ rw f refl
]

-- The steps on an item that is paid for and was used.
module _ (e : SaleEnv) (dto : SaleItemDto) (p : Product) (u : SellingUnit) (i : SaleItem)
    (s : is_sold i ≡ true) (n : eqb_ℤ i.used_credit (pos 0) ≡ false) where
  with_discount-same : with_discount dto p u i ≡ i
  unfolding with_discount
  with_discount-same = rw n refl

  charge_item-same : charge_item e dto p i ≡ ok i
  unfolding charge_item sell
  charge_item-same = rw (s, n) refl

is_sold-HasTerms : (i j : SaleItem) → HasTerms i j → is_sold j ≡ is_sold i
unfolding terms_of
is_sold-HasTerms i j h = ap (λ t. t.sold) h

used_credit-HasTerms : (i j : SaleItem) → HasTerms i j → j.used_credit ≡ i.used_credit
unfolding terms_of
used_credit-HasTerms i j h = ap (λ t. t.used_credit) h

charge_item-HasTerms :
    (e : SaleEnv) (dto : SaleItemDto) (p : Product) (u : SellingUnit) (i j : SaleItem)
    → is_sold i ≡ true
    → eqb_ℤ i.used_credit (pos 0) ≡ false
    → HasTerms i j
    → Holds (HasTerms i) (charge_item e dto p (with_discount dto p u j))
unfolding Holds
charge_item-HasTerms e dto p u i j s n h =
    let s' = is_sold-HasTerms i j h ∙ s in
    let n' : eqb_ℤ j.used_credit (pos 0) ≡ false =
      ap (λ a. eqb_ℤ a (pos 0)) (used_credit-HasTerms i j h) ∙ n in
    rw (with_discount-same e dto p u j s' n', charge_item-same e dto p u j s' n') h

with_end_date-Holds :
    (c : Clock) (dto : SaleItemDto) (i j : SaleItem)
    → HasTerms i j
    → Holds (HasTerms i) (check_end c (with_end_date dto j))
with_end_date-Holds c dto i j h =
    Holds-map _ _ _ (check_end-same c (with_end_date dto j))
      λ k g. ap terms_of g ∙ with_end_date-HasTerms dto j ∙ h

-- An edit of a credit that is paid for and was used changes neither the price nor the amount, nor the
-- discount, nor the credit and how much of it was used.
pub upsert-HasTerms :
    (e : SaleEnv) (dto : SaleItemDto) (i : SaleItem) (p : Product) (u : SellingUnit)
    → is_sold i ≡ true
    → eqb_ℤ i.used_credit (pos 0) ≡ false
    → Holds (HasTerms i) (upsert e dto (some i) p u)
unfolding upsert revise item_or_new
upsert-HasTerms e dto i p u s n =
    Holds-bind _ _ _ _
      (Holds-bind _ _ _ _
        (Holds-bind _ _ _ _
          (Holds-bind _ _ _ _ (with_start-HasTerms e.clock dto (with_penalty dto i))
            λ j h. with_end_date-Holds e.clock dto i j (h ∙ with_penalty-HasTerms dto i))
          λ j h. charge_item-HasTerms e dto p u i j s n h)
        λ j h. Holds-map _ _ _ (check_total-HasTerms j) λ k g. g ∙ h)
      λ j h. Holds-map _ _ _ (with_partners-HasTerms e p j) λ k g. g ∙ h
