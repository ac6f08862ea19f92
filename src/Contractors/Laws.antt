-- ===== src/Contractors/Laws.antt =====
-- A discount never raises an income.
use my_ng_platform.Prelude.{
  ℕ, ℤ, pos, ◌*ℤ◌, ◌≤ℤ◌, arith, eqb_ℤ, ◌≡◌, ◌⊎◌, Bool, true, false, not, ◌&&◌, ◌||◌, Option, none,
  some, List, [], ◌∷◌, All, Bool-cases, inl, inr, ◌==◌,
}
use my_ng_platform.Entities.{SaleItem, Product}
use my_ng_platform.Contractors.Rounding.{share_of-up, less_discount}
use my_ng_platform.Contractors.{
  ProductShare, ContractorDb, of_sale, closed, of_partner, of_partners, income_of,
  process_contractor_income, process_partner_income, is_income, first_of, get_product_contractor,
  has_income, or_one, new_incomes, get_product_partners, find_incomes, new_income,
}
use my_ng_platform.Entities.{ContractorIncome}

abbrev pub AtMost : Option ℤ → ℤ → Type 0
AtMost none b = Unit
AtMost (some a) b = a ≤ℤ b

-- An income whose amount after the discount, if it is a number, is at most the one before it.
abbrev pub IsReduced : ContractorIncome → Type 0
IsReduced c = AtMost c.amount_after_discount c.amount

abbrev pub HasShare : ContractorIncome → Type 0
HasShare c = pos 0 ≤ℤ c.percent

abbrev pub IsShare : ProductShare → Type 0
IsShare s = pos 0 ≤ℤ s.percent

find_incomes-HasShare :
    (item : ℕ) (partner : Bool) (cs : List ContractorIncome)
    → All HasShare cs
    → All HasShare (find_incomes item partner cs)
unfolding find_incomes
find_incomes-HasShare item partner [] h = tt
find_incomes-HasShare item partner (c ∷ cs) (h, hs) = elim (Bool-cases (is_income item partner c)) [
  | inl e ↦ rw e (h, find_incomes-HasShare item partner cs hs)
  | inr e ↦ rw e (find_incomes-HasShare item partner cs hs)
]

get_product_partners-IsShare :
    (product : ℕ) (ss : List ProductShare)
    → All IsShare ss
    → All IsShare (get_product_partners product ss)
unfolding get_product_partners
get_product_partners-IsShare product [] h = tt
get_product_partners-IsShare product (s ∷ ss) (h, hs) = elim (Bool-cases (s.product == product)) [
  | inl e ↦ rw e (h, get_product_partners-IsShare product ss hs)
  | inr e ↦ rw e (get_product_partners-IsShare product ss hs)
]

new_incomes-HasShare : (ss : List ProductShare) → All IsShare ss → All HasShare (new_incomes ss)
unfolding new_incomes new_income
new_incomes-HasShare [] h = tt
new_incomes-HasShare (s ∷ ss) (h, hs) = (h, new_incomes-HasShare ss hs)

of_partners-IsReduced :
    (i : SaleItem) (cs : List ContractorIncome)
    → pos 0 ≤ℤ i.discount
    → All HasShare cs
    → All IsReduced (of_partners i cs)
unfolding of_partners of_partner
of_partners-IsReduced i [] d h = tt
of_partners-IsReduced i (c ∷ cs) d (h, hs) = (
  share_of-up _ _ c.percent i.quantity c.fixed_amount (less_discount i d) h,
  of_partners-IsReduced i cs d hs,
)

-- For an item whose discount is not negative, and percentages that are not negative, no partner has
-- more of the item after the discount than before it.
pub process_partner_income-IsReduced :
    (d : ContractorDb) (p : Product) (partners : List ProductShare) (i : SaleItem)
    → pos 0 ≤ℤ i.discount
    → All IsShare d.partners
    → All IsShare partners
    → All HasShare d.incomes
    → All IsReduced (process_partner_income d p partners i)
unfolding process_partner_income
process_partner_income-IsReduced d p partners i h ds ps cs = elim (Bool-cases p.has_partner) [
  | inr e ↦ rw e tt
  | inl e ↦ rw e (elim (Bool-cases (i.id == 0)) [
    | inr f ↦ rw f (of_partners-IsReduced i _ h (find_incomes-HasShare i.id true d.incomes cs))
    | inl f ↦ rw f (of_partners-IsReduced i _ h (new_incomes-HasShare _ (given partners ps)))
  ])
]
  where
    given :
        (ss : List ProductShare)
        → All IsShare ss
        → All IsShare (elim ss [ [] ↦ get_product_partners i.product d.partners | s ∷ ss ↦ s ∷ ss ])
    given [] h = get_product_partners-IsShare i.product d.partners ds
    given (s ∷ ss) h = h

abbrev pub Each {ℓ} : {A : Type ℓ} → (A → Type 0) → Option A → Type 0
Each P none = Unit
Each P (some a) = P a

first_of-HasShare : (cs : List ContractorIncome) → All HasShare cs → Each HasShare (first_of cs)
first_of-HasShare [] h = tt
first_of-HasShare (c ∷ cs) h = h.0

get_product_contractor-IsShare :
    (product contractor : ℕ) (ss : List ProductShare)
    → All IsShare ss
    → Each IsShare (get_product_contractor product contractor ss)
unfolding get_product_contractor
get_product_contractor-IsShare product contractor [] h = tt
get_product_contractor-IsShare product contractor (s ∷ ss) (h, hs) =
    elim (Bool-cases (s.product == product && (contractor == 0 || s.user == contractor))) [
      | inl e ↦ rw e h
      | inr e ↦ rw e (get_product_contractor-IsShare product contractor ss hs)
    ]

income_of-HasShare :
    (d : ContractorDb) (i : SaleItem) (is_edit : Bool)
    → All IsShare d.contractors
    → All HasShare d.incomes
    → Each HasShare (income_of d i is_edit)
unfolding income_of new_income
income_of-HasShare d i is_edit ds cs = elim (Bool-cases (not (i.id == 0) && not is_edit)) [
  | inl e ↦ rw e (first_of-HasShare _ (find_incomes-HasShare i.id false d.incomes cs))
  | inr e ↦ rw e (elim (Bool-cases (has_income i.type)) [
    | inr f ↦ rw f tt
    | inl f ↦ rw f (
        given (get_product_contractor i.product i.contractor d.contractors)
          (get_product_contractor-IsShare i.product i.contractor d.contractors ds))
  ])
]
  where
    given :
        (o : Option ProductShare)
        → Each IsShare o
        → Each HasShare (elim o [ none ↦ none | some s ↦ some (new_income false s) ])
    given none h = tt
    given (some s) h = h

-- An income that is not more after the discount, and that is removed or is of some amount and of a
-- contractor.
pub record IsDue (i : SaleItem) (c : ContractorIncome) : Type 0 where
  pub reduced : IsReduced c
  pub kept : (c.deleted ≡ true) ⊎ ((eqb_ℤ c.amount (pos 0) ≡ false) × ((i.contractor == 0) ≡ false))

closed-kept : (a b c : Bool) → ((a || b || c) ≡ true) ⊎ ((b ≡ false) × (c ≡ false))
closed-kept a b c = ground arith

of_sale-IsDue :
    (i : SaleItem) (c : ContractorIncome)
    → pos 0 ≤ℤ i.discount
    → HasShare c
    → IsDue i (closed i (of_sale i c))
unfolding of_sale
of_sale-IsDue i c h q = record {
  reduced =
      share_of-up _ _ c.percent (i.quantity *ℤ or_one i.credit) c.fixed_amount (less_discount i h)
        q;
  kept = closed-kept c.deleted (eqb_ℤ (of_sale i c).amount (pos 0)) (i.contractor == 0);
}

-- For an item that uses no registered service, whose discount is not negative, and percentages that
-- are not negative, the contractor has no more of the item after the discount than before it, and
-- an income of nothing or of nobody is removed.
pub process_contractor_income-IsDue :
    (d : ContractorDb) (p : Product) (i : SaleItem) (is_edit : Bool)
    → pos 0 ≤ℤ i.discount
    → All IsShare d.contractors
    → All HasShare d.incomes
    → Each (IsDue i) (process_contractor_income d p none i is_edit)
unfolding process_contractor_income
process_contractor_income-IsDue d p i is_edit h ds cs = elim (Bool-cases p.has_contractor) [
  | inr e ↦ rw e tt
  | inl e ↦ rw e (due (income_of d i is_edit) (income_of-HasShare d i is_edit ds cs))
]
  where
    due :
        (o : Option ContractorIncome)
        → Each HasShare o
        → Each (IsDue i) (elim o [ none ↦ none | some c ↦ some (closed i (of_sale i c)) ])
    due none q = tt
    due (some c) q = of_sale-IsDue i c h q
