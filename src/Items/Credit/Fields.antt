-- ===== src/Items/Credit/Fields.antt =====
-- The fields of a credit that a request sets, besides those of the price.
use my_ng_platform.Prelude.{
  ℕ, ltb, ℤ, pos, eqb_ℤ, ◌≡◌, refl, ap, sym, true, false, not, ◌||◌, ◌⊎◌, if◌then◌else◌, Bool-cases,
  Option, none, some, Option-cases, inl, inr, ◌==◌,
}
use my_ng_platform.Clock.{Clock, day_of}
use my_ng_platform.Entities.{SaleItem, Product, RegisteredServiceStatus}
use my_ng_platform.Store.{ok}
use my_ng_platform.Items.Requests.{SellingUnit, SaleItemDto}
use my_ng_platform.Items.Credit.{with_penalty, with_start, with_end_date, with_discount}
use my_ng_platform.Items.Credit.Holds.{Holds}

-- The fields that a request sets, besides those of the price.
abbrev HasPenalty : SaleItemDto → SaleItem → Type 0
HasPenalty dto i =
    (eqb_ℤ dto.un_fair_penalty_quantity (pos 0) ≡ true)
    ⊎ (i.un_fair_penalty_quantity ≡ dto.un_fair_penalty_quantity)

abbrev HasStart : Clock → SaleItemDto → SaleItem → Type 0
HasStart c dto i = elim dto.start [
  | none ↦ ((i.start == 0) ≡ false) ⊎ (i.start ≡ dto.submit_at)
  | some s ↦ (i.start ≡ s) × (ltb (day_of c s) (day_of c i.submit_at) ≡ false)
]

abbrev pub HasEnd : SaleItemDto → SaleItem → Type 0
HasEnd dto i = elim dto.end_date [ none ↦ Unit | some t ↦ ((t == 0) ≡ false) × (i.end_date ≡ t) ]

abbrev pub IsOpen : SaleItem → Type 0
IsOpen i = i.status ≡ RegisteredServiceStatus.opened

abbrev pub IsUnused : SaleItem → Type 0
IsUnused i = eqb_ℤ i.used_credit (pos 0) ≡ true

-- A date of a request is not the start of 1970, which stands for a missing one.
abbrev pub IsDate : Option ℕ → Type 0
IsDate none = Unit
IsDate (some t) = (t == 0) ≡ false

abbrev pub discount_of : SaleItemDto → Product → SellingUnit → ℤ
discount_of dto p u = if u.allow_discount || not (dto.parent == 0) then dto.discount else p.discount

-- What holds of an item step by step.
abbrev pub IsFresh : SaleItemDto → SaleItem → Type 0
IsFresh dto i = HasPenalty dto i × IsOpen i × IsUnused i

abbrev pub IsStarted : Clock → SaleItemDto → SaleItem → Type 0
IsStarted c dto i = IsFresh dto i × HasStart c dto i

abbrev pub IsEnded : Clock → SaleItemDto → SaleItem → Type 0
IsEnded c dto i = IsStarted c dto i × HasEnd dto i

abbrev pub IsMade : Clock → SaleItemDto → ℤ → SaleItem → Type 0
IsMade c dto d i =
    (HasPenalty dto i × IsOpen i) × HasStart c dto i × HasEnd dto i × (i.discount ≡ d)

pub with_penalty-HasPenalty :
    (dto : SaleItemDto) (i : SaleItem)
    → IsOpen i
    → IsUnused i
    → HasPenalty dto (with_penalty dto i)
      × IsOpen (with_penalty dto i)
      × IsUnused (with_penalty dto i)
unfolding with_penalty
with_penalty-HasPenalty dto i o n = elim (Bool-cases (eqb_ℤ dto.un_fair_penalty_quantity (pos 0))) [
  | inl e ↦ rw e (inl refl, o, n)
  | inr e ↦ rw e (inr refl, o, n)
]

pub with_penalty-again :
    (dto : SaleItemDto) (i : SaleItem) → HasPenalty dto i → with_penalty dto i ≡ i
unfolding with_penalty
with_penalty-again dto i (inl e) = rw e refl
with_penalty-again dto i (inr h) = elim (Bool-cases (eqb_ℤ dto.un_fair_penalty_quantity (pos 0))) [
  | inl e ↦ rw e refl
  | inr e ↦ rw e (ap (λ a. record i { un_fair_penalty_quantity = a }) (sym h))
]

pub with_start-IsStarted :
    (c : Clock) (dto : SaleItemDto) (i : SaleItem)
    → IsFresh dto i
    → Holds (IsStarted c dto) (with_start c dto i)
unfolding with_start Holds
with_start-IsStarted c dto i h = elim (Option-cases dto.start) [
  | inl e ↦
      rw e
        (elim (Bool-cases (i.start == 0)) [ inl f ↦ rw f (h, inr refl) | inr f ↦ rw f (h, inl f) ])
  | inr (s, e) ↦ rw e (elim (Bool-cases (ltb (day_of c s) (day_of c i.submit_at))) [
    | inl f ↦ rw f tt
    | inr f ↦ rw f (h, (refl, f))
  ])
]

pub with_start-again :
    (c : Clock) (dto : SaleItemDto) (i : SaleItem) → HasStart c dto i → with_start c dto i ≡ ok i
unfolding with_start
with_start-again c dto i = elim (Option-cases dto.start) [
  | inl e ↦ rw e (λ h. elim h [ inl f ↦ rw f refl | inr f ↦ unset f (Bool-cases (i.start == 0)) ])
  | inr (s, e) ↦ rw e λ h. rw h.1 (ap (λ a. ok (record i { start = a })) (sym h.0))
]
  where
    unset :
        i.start ≡ dto.submit_at
        → ((i.start == 0) ≡ true) ⊎ ((i.start == 0) ≡ false)
        → ok (if i.start == 0 then record i { start = dto.submit_at } else i) ≡ ok i
    unset f (inl g) = rw g (ap (λ a. ok (record i { start = a })) (sym f))
    unset f (inr g) = rw g refl

pub with_end_date-IsEnded :
    (c : Clock) (dto : SaleItemDto) (i : SaleItem)
    → IsDate dto.end_date
    → IsStarted c dto i
    → IsEnded c dto (with_end_date dto i)
unfolding with_end_date
with_end_date-IsEnded c dto i = elim (Option-cases dto.end_date) [
  | inl e ↦ rw e λ t h. (h, tt)
  | inr (x, e) ↦ rw e λ t h. (h, (t, refl))
]

pub with_end_date-again :
    (dto : SaleItemDto) (i : SaleItem) → HasEnd dto i → with_end_date dto i ≡ i
unfolding with_end_date
with_end_date-again dto i = elim (Option-cases dto.end_date) [
  | inl e ↦ rw e λ h. refl
  | inr (x, e) ↦ rw e λ h. ap (λ a. record i { end_date = a }) (sym h.1)
]

pub with_discount-IsMade :
    (c : Clock) (dto : SaleItemDto) (p : Product) (u : SellingUnit) (i : SaleItem)
    → IsEnded c dto i
    → IsMade c dto (discount_of dto p u) (with_discount dto p u i)
      × IsUnused (with_discount dto p u i)
unfolding with_discount
with_discount-IsMade c dto p u i (((a, o, n), s), t) = rw n (((a, o), s, t, refl), n)

pub with_discount-again :
    (dto : SaleItemDto) (p : Product) (u : SellingUnit) (i : SaleItem)
    → i.discount ≡ discount_of dto p u
    → with_discount dto p u i ≡ i
unfolding with_discount
with_discount-again dto p u i h = elim (Bool-cases (eqb_ℤ i.used_credit (pos 0))) [
  | inl e ↦ rw e (ap (λ a. record i { discount = a }) (sym h))
  | inr e ↦ rw e refl
]
