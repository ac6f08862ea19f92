-- ===== src/Items/Credit/Laws.antt =====
-- What a credit that is sold has.
use my_ng_platform.Prelude.{
  ℕ, ◌+◌, ◌*◌, ◌≤◌, ltb, ltb→le, ℤ, pos, ◌≤ℤ◌, ltb_ℤ, eqb_ℤ, ◌≡◌, ◌⊎◌, refl, true, false, not, ◌&&◌,
  Bool-cases, Option, none, some, Option-cases, List, [], ◌∷◌, inl, inr, ◌==◌, arith,
}
use my_ng_platform.Clock.{Clock, day_of, day_length}
use my_ng_platform.Amounts.{total_amount, tax_amount, final_amount_without_tax}
use my_ng_platform.Entities.{
  SaleItem, Product, ProductPrice, ContractorIncome, RegisteredServiceStatus,
}
use my_ng_platform.Items.Credit.Holds.{Holds, Holds-bind}
use my_ng_platform.Items.Requests.{SellingUnit, SaleItemDto, SaleEnv}
use my_ng_platform.Items.Prices.{price_policy}
use my_ng_platform.Items.Credit.{
  with_penalty, with_start, with_end_date, moment_of, check_end, has_null_end, with_discount,
  with_price, with_final_price, with_last_day, worth_of, grant_credit, is_sold, price_item, sell,
  take_over, charge_item, check_total, add_incomes, with_partners, revise, duration_of, item_or_new,
  upsert,
}

-- A start that was asked for is not on a day before the sale.
abbrev Starts : Clock → SaleItemDto → SaleItem → Type 0
Starts c dto i = elim dto.start [
  | none ↦ Unit
  | some s ↦ (i.start ≡ s) × day_of c i.submit_at ≤ day_of c s
]

-- An item that was loaded without an end is not tested; a new one without an end starts by now.
abbrev pub Ends : Clock → SaleItem → Type 0
Ends c i =
    (has_null_end i ≡ true) ⊎ (day_of c (moment_of c i.start) ≤ day_of c (moment_of c i.end_date))

abbrev pub IsDated : Clock → SaleItemDto → SaleItem → Type 0
IsDated c dto i = Starts c dto i × Ends c i

with_start-Starts :
    (c : Clock) (dto : SaleItemDto) (i : SaleItem) → Holds (Starts c dto) (with_start c dto i)
unfolding with_start Holds
with_start-Starts c dto i = elim (Option-cases dto.start) [
  | inl e ↦ rw e tt
  | inr (s, e) ↦ rw e (elim (Bool-cases (ltb (day_of c s) (day_of c i.submit_at))) [
    | inl f ↦ rw f tt
    | inr f ↦ rw f (refl, ltb→le _ _ f)
  ])
]

with_end_date-Starts :
    (c : Clock) (dto : SaleItemDto) (i : SaleItem)
    → Starts c dto i
    → Starts c dto (with_end_date dto i)
unfolding with_end_date
with_end_date-Starts c dto i h = elim (Option-cases dto.end_date) [
  | inl e ↦ rw e h
  | inr (s, e) ↦ rw e h
]

check_end-IsDated :
    (c : Clock) (dto : SaleItemDto) (i : SaleItem)
    → Starts c dto i
    → Holds (IsDated c dto) (check_end c i)
unfolding check_end Holds
check_end-IsDated c dto i h = elim (Bool-cases (has_null_end i)) [
  | inl n ↦ rw n (h, inl n)
  | inr n ↦
      elim (Bool-cases (ltb (day_of c (moment_of c i.end_date)) (day_of c (moment_of c i.start)))) [
        | inl e ↦ rw (n, e) tt
        | inr e ↦ rw (n, e) (h, inr (ltb→le _ _ e))
      ]
]

with_discount-IsDated :
    (c : Clock) (dto : SaleItemDto) (p : Product) (u : SellingUnit) (i : SaleItem)
    → IsDated c dto i
    → IsDated c dto (with_discount dto p u i)
unfolding with_discount
with_discount-IsDated c dto p u i h = elim (Bool-cases (eqb_ℤ i.used_credit (pos 0))) [
  | inl e ↦ rw e h
  | inr e ↦ rw e h
]

with_price-IsDated :
    (c : Clock) (prices : List ProductPrice) (p : Product) (dto : SaleItemDto) (i : SaleItem)
    → IsDated c dto i
    → Holds (IsDated c dto) (with_price prices p dto i)
unfolding with_price Holds
with_price-IsDated c prices p dto i h = elim (Bool-cases (dto.parent == 0)) [
  | inr e ↦ rw e h
  | inl e ↦ rw e (elim (Bool-cases p.has_price_list) [
    | inr f ↦ rw f h
    | inl f ↦
        rw f (elim (Option-cases (price_policy prices p dto)) [
          | inl g ↦ rw g tt
          | inr (r, g) ↦ rw g h
        ])
  ])
]

later_day : (c : Clock) (s t : ℕ) → s ≤ t → day_of c s ≤ day_of c (moment_of c t)
unfolding day_of moment_of
later_day c s t h = ground (arith, h)

with_last_day-Ends :
    (c : Clock) (p : Product) (dto : SaleItemDto) (i : SaleItem)
    → Ends c i
    → Ends c (with_last_day c p dto i)
unfolding with_last_day
with_last_day-Ends c p dto i h = elim (Bool-cases (i.end_date == 0)) [
  | inr e ↦ rw e h
  | inl e ↦ rw e (
      inr (
        later_day c (moment_of c i.start) (moment_of c i.start + duration_of p dto * day_length)
          (omega arith)))
]

with_final_price-IsDated :
    (c : Clock) (dto : SaleItemDto) (i : SaleItem)
    → IsDated c dto i
    → IsDated c dto (with_final_price dto i)
unfolding with_final_price
with_final_price-IsDated c dto i h =
    elim (Bool-cases (dto.manual_price && not (eqb_ℤ dto.amount (pos 0)))) [
      | inl e ↦ rw e h
      | inr e ↦ rw e h
    ]

with_last_day-Starts :
    (c : Clock) (p : Product) (dto : SaleItemDto) (i : SaleItem)
    → Starts c dto i
    → Starts c dto (with_last_day c p dto i)
unfolding with_last_day
with_last_day-Starts c p dto i h = elim (Bool-cases (i.end_date == 0)) [
  | inr e ↦ rw e h
  | inl e ↦ rw e h
]

-- An item that is paid for, and not used yet, has a credit.
abbrev HasCredit : SaleItem → Type 0
HasCredit i = is_sold i ≡ true → eqb_ℤ i.used_credit (pos 0) ≡ true → eqb_ℤ i.credit (pos 0) ≡ false

abbrev IsSold : Clock → SaleItemDto → SaleItem → Type 0
IsSold c dto i = IsDated c dto i × HasCredit i

grant_credit-IsSold :
    (c : Clock) (p : Product) (dto : SaleItemDto) (i : SaleItem)
    → IsDated c dto i
    → Holds (IsSold c dto) (grant_credit p dto i)
unfolding grant_credit Holds
grant_credit-IsSold c p dto i h = elim (Bool-cases (eqb_ℤ (worth_of p dto) (pos 0))) [
  | inl e ↦ rw e tt
  | inr e ↦ rw e (h, λ _ _. e)
]

price_item-IsSold :
    (e : SaleEnv) (dto : SaleItemDto) (p : Product) (i : SaleItem)
    → IsDated e.clock dto i
    → Holds (IsSold e.clock dto) (price_item e dto p i)
unfolding price_item
price_item-IsSold e dto p i h =
    Holds-bind _ _ _ _ (with_price-IsDated e.clock e.prices p dto i h) λ j k.
      let a = with_final_price-IsDated e.clock dto j k in
      grant_credit-IsSold e.clock p dto (with_last_day e.clock p dto (with_final_price dto j)) (
        with_last_day-Starts e.clock p dto (with_final_price dto j) a.0,
        with_last_day-Ends e.clock p dto (with_final_price dto j) a.1,
      )

sell-IsSold :
    (e : SaleEnv) (dto : SaleItemDto) (p : Product) (i : SaleItem)
    → IsDated e.clock dto i
    → Holds (IsSold e.clock dto) (sell e dto p i)
unfolding sell Holds
sell-IsSold e dto p i h = elim (Bool-cases (eqb_ℤ i.used_credit (pos 0))) [
  | inl f ↦ rw f (price_item-IsSold e dto p i h)
  | inr f ↦ rw f (h, λ _ g. absurd cc)
]

take_over-IsSold :
    (c : Clock) (dto : SaleItemDto) (i : SaleItem)
    → is_sold i ≡ false
    → IsDated c dto i
    → IsSold c dto (take_over dto i)
unfolding take_over
take_over-IsSold c dto i f h = elim (Bool-cases i.is_transfer) [
  | inl e ↦ rw e (h, λ g _. absurd cc)
  | inr e ↦ rw e (h, λ g _. absurd cc)
]

charge_item-IsSold :
    (e : SaleEnv) (dto : SaleItemDto) (p : Product) (i : SaleItem)
    → IsDated e.clock dto i
    → Holds (IsSold e.clock dto) (charge_item e dto p i)
unfolding charge_item Holds
charge_item-IsSold e dto p i h = elim (Bool-cases (is_sold i)) [
  | inl f ↦ rw f (sell-IsSold e dto p i h)
  | inr f ↦ rw f (take_over-IsSold e.clock dto i f h)
]

-- An item that is saved: what is left to pay for it is not negative.
abbrev pub IsFit : Clock → SaleItemDto → SaleItem → Type 0
IsFit c dto i =
    IsSold c dto i × pos 0 ≤ℤ total_amount i × (i.status ≡ RegisteredServiceStatus.opened)

leb_of_ltb : (a : ℤ) → ltb_ℤ a (pos 0) ≡ false → pos 0 ≤ℤ a
leb_of_ltb a h = ground (arith, h)

check_total-IsFit :
    (c : Clock) (dto : SaleItemDto) (i : SaleItem)
    → IsSold c dto i
    → Holds (IsFit c dto) (check_total i)
unfolding check_total Holds total_amount tax_amount final_amount_without_tax
check_total-IsFit c dto i h = elim (Bool-cases (ltb_ℤ (total_amount i) (pos 0))) [
  | inl e ↦ rw e tt
  | inr e ↦ rw e (h, leb_of_ltb (total_amount i) e, refl)
]

add_incomes-IsFit :
    (c : Clock) (dto : SaleItemDto) (cs : List ContractorIncome) (i : SaleItem)
    → IsFit c dto i
    → Holds (IsFit c dto) (add_incomes cs i)
unfolding add_incomes Holds total_amount tax_amount final_amount_without_tax
add_incomes-IsFit c dto [] i h = h
add_incomes-IsFit c dto (k ∷ ks) i h = elim (Option-cases i.contractor_incomes) [
  | inl e ↦ rw e tt
  | inr (is, e) ↦ rw e h
]

with_partners-IsFit :
    (e : SaleEnv) (dto : SaleItemDto) (p : Product) (i : SaleItem)
    → IsFit e.clock dto i
    → Holds (IsFit e.clock dto) (with_partners e p i)
unfolding with_partners Holds
with_partners-IsFit e dto p i h = elim (Bool-cases p.has_partner) [
  | inl f ↦ rw f (add_incomes-IsFit e.clock dto _ i h)
  | inr f ↦ rw f h
]

revise-IsFit :
    (e : SaleEnv) (dto : SaleItemDto) (i : SaleItem) (p : Product) (u : SellingUnit)
    → Holds (IsFit e.clock dto) (revise e dto i p u)
unfolding revise
revise-IsFit e dto i p u =
    Holds-bind _ _ _ _
      (Holds-bind _ _ _ _
        (Holds-bind _ _ _ _
          (Holds-bind _ _ _ _ (with_start-Starts e.clock dto (with_penalty dto i)) λ j h.
            check_end-IsDated e.clock dto (with_end_date dto j)
              (with_end_date-Starts e.clock dto j h))
          λ j h.
            charge_item-IsSold e dto p (with_discount dto p u j)
              (with_discount-IsDated e.clock dto p u j h))
        (check_total-IsFit e.clock dto))
      (with_partners-IsFit e dto p)

-- A credit that is sold, or edited, has an end that is not on a day before its start, where a
-- missing start, and a missing end of a new item, is the present, and a credit that was loaded
-- without an end is not tested; a start that was asked for is not on a day before the sale. Its
-- amount is not negative, and if it is paid for and not used yet, its credit is not 0.
pub upsert-IsFit :
    (e : SaleEnv) (dto : SaleItemDto) (item : Option SaleItem) (p : Product) (u : SellingUnit)
    → Holds (IsFit e.clock dto) (upsert e dto item p u)
unfolding upsert
upsert-IsFit e dto item p u = revise-IsFit e dto (item_or_new dto p u item) p u
