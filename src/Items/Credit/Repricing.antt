-- ===== src/Items/Credit/Repricing.antt =====
-- The price of a credit that is sold once more.
use my_ng_platform.Prelude.{
  arith, ℕ, ◌+◌, ◌*◌, ℤ, pos, eqb_ℤ, ◌≡◌, refl, ap, ◌∙◌, sym, true, false, not, ◌&&◌, ◌⊎◌,
  Bool-cases, Option-cases, List, inl, inr, ◌==◌,
}
use mathlib.Core.Path.{subst}
use my_ng_platform.Clock.{Clock, day_length}
use my_ng_platform.Entities.{SaleItem, Product, ProductPrice}
use my_ng_platform.Store.{Error, Result, ok, err}
use my_ng_platform.Items.Requests.{SaleItemDto, SaleEnv}
use my_ng_platform.Items.Prices.{price_policy}
use my_ng_platform.Items.Credit.{
  moment_of, is_sold, with_price, with_final_price, with_last_day, grant_credit, worth_of,
  price_item, duration_of, ◌>>=◌,
}
use my_ng_platform.Items.Credit.Holds.{Holds, Holds-map}
use my_ng_platform.Items.Credit.Fields.{HasEnd, IsMade}

-- The rest of `price_item`, after the price.
abbrev finish : SaleEnv → SaleItemDto → Product → SaleItem → Result SaleItem
finish e dto p j = grant_credit p dto (with_last_day e.clock p dto (with_final_price dto j))

HasEnd-missing :
    (dto : SaleItemDto) (i : SaleItem) (x : ℕ)
    → (i.end_date == 0) ≡ true
    → HasEnd dto i
    → HasEnd dto (record i { end_date = x })
HasEnd-missing dto i x f = elim (Option-cases dto.end_date) [
  | inl e ↦ rw e λ h. tt
  | inr (t, e) ↦ rw e λ h. absurd (lost t h.0 h.1)
]
  where
    lost : (t : ℕ) → (t == 0) ≡ false → i.end_date ≡ t → ⊥
    lost t n h = ground (arith, f, n, h)

-- The item `k` of a sale of `j`: a second sale finds the price of `j` again.
abbrev IsFinished : SaleEnv → SaleItemDto → Product → ℤ → SaleItem → SaleItem → Type 0
IsFinished e dto p d j k =
    IsMade e.clock dto d k
    × (is_sold k ≡ is_sold j)
    × (k.used_credit ≡ j.used_credit)
    × (finish e dto p (record k { price = j.price; price_id = j.price_id }) ≡ ok k)
    × (finish e dto p (record k { price = j.price }) ≡ ok k)
    × (finish e dto p k ≡ ok k)

abbrev pub set_end : ℕ → SaleItem → SaleItem
set_end x i = record i { end_date = x }

abbrev set_credit : ℤ → SaleItem → SaleItem
set_credit a i = record i { credit = a }

with_last_day-end_date :
    (c : Clock) (p : Product) (dto : SaleItemDto) (i : SaleItem)
    → with_last_day c p dto i ≡ set_end (with_last_day c p dto i).end_date i
unfolding with_last_day
with_last_day-end_date c p dto i = elim (Bool-cases (i.end_date == 0)) [
  | inl n ↦ rw n refl
  | inr n ↦ rw n refl
]

with_last_day-IsMade :
    (c : Clock) (p : Product) (dto : SaleItemDto) (d : ℤ) (i : SaleItem)
    → IsMade c dto d i
    → IsMade c dto d (with_last_day c p dto i)
      × (is_sold (with_last_day c p dto i) ≡ is_sold i)
      × ((with_last_day c p dto i).used_credit ≡ i.used_credit)
unfolding with_last_day
with_last_day-IsMade c p dto d i h = elim (Bool-cases (i.end_date == 0)) [
  | inl n ↦ rw n ((h.0, h.1, HasEnd-missing dto i _ n h.2, h.3), refl, refl)
  | inr n ↦ rw n (h, refl, refl)
]

with_last_day-again :
    (c : Clock) (p : Product) (dto : SaleItemDto) (a : ℤ) (i : SaleItem)
    → with_last_day c p dto (set_credit a (with_last_day c p dto i))
      ≡ set_credit a (with_last_day c p dto i)
unfolding with_last_day
with_last_day-again c p dto a i = elim (Bool-cases (i.end_date == 0)) [
  | inr n ↦ rw n (rw n refl)
  | inl n ↦ rw n (once (Bool-cases (moment_of c i.start + duration_of p dto * day_length == 0)))
]
  where
    once :
        ((moment_of c i.start + duration_of p dto * day_length == 0) ≡ true)
          ⊎ ((moment_of c i.start + duration_of p dto * day_length == 0) ≡ false)
        → with_last_day c p dto
            (set_credit a (set_end (moment_of c i.start + duration_of p dto * day_length) i))
          ≡ set_credit a (set_end (moment_of c i.start + duration_of p dto * day_length) i)
    once (inl o) = rw o refl
    once (inr o) = rw o refl

-- The items that a second request starts from, and what they become.
unfoldable Repriced : SaleItemDto → SaleItem → SaleItem → Type 0
Repriced dto j k =
    (with_final_price dto (record k { price = j.price; price_id = j.price_id }) ≡ k)
    × (with_final_price dto (record k { price = j.price }) ≡ k)
    × (with_final_price dto k ≡ k)

with_final_price-again :
    (dto : SaleItemDto) (j : SaleItem) (x : ℕ) (a : ℤ)
    → Repriced dto j (set_credit a (set_end x (with_final_price dto j)))
unfolding with_final_price Repriced
with_final_price-again dto j x a =
    elim (Bool-cases (dto.manual_price && not (eqb_ℤ dto.amount (pos 0)))) [
      | inl m ↦ rw m (refl, refl, refl)
      | inr m ↦ rw m (refl, refl, refl)
    ]

with_final_price-IsMade :
    (c : Clock) (dto : SaleItemDto) (d : ℤ) (j : SaleItem)
    → IsMade c dto d j
    → IsMade c dto d (with_final_price dto j)
      × (is_sold (with_final_price dto j) ≡ is_sold j)
      × ((with_final_price dto j).used_credit ≡ j.used_credit)
unfolding with_final_price
with_final_price-IsMade c dto d j h =
    elim (Bool-cases (dto.manual_price && not (eqb_ℤ dto.amount (pos 0)))) [
      | inl m ↦ rw m (h, refl, refl)
      | inr m ↦ rw m (h, refl, refl)
    ]

grant_credit-ok :
    (p : Product) (dto : SaleItemDto) (i : SaleItem)
    → eqb_ℤ (worth_of p dto) (pos 0) ≡ false
    → grant_credit p dto i ≡ ok (set_credit (worth_of p dto) i)
unfolding grant_credit
grant_credit-ok p dto i h = rw h refl

-- What a sale of `j` makes, once its credit is known.
abbrev finished : SaleEnv → SaleItemDto → Product → SaleItem → SaleItem
finished e dto p j =
    set_credit (worth_of p dto) (with_last_day e.clock p dto (with_final_price dto j))

finish-finished :
    (e : SaleEnv) (dto : SaleItemDto) (p : Product) (j i : SaleItem)
    → eqb_ℤ (worth_of p dto) (pos 0) ≡ false
    → with_final_price dto i ≡ finished e dto p j
    → finish e dto p i ≡ ok (finished e dto p j)
finish-finished e dto p j i h g =
    ap (λ k. grant_credit p dto (with_last_day e.clock p dto k)) g
    ∙ ap (grant_credit p dto)
        (with_last_day-again e.clock p dto (worth_of p dto) (with_final_price dto j))
    ∙ grant_credit-ok p dto (finished e dto p j) h

finished-Repriced :
    (e : SaleEnv) (dto : SaleItemDto) (p : Product) (j : SaleItem)
    → Repriced dto j (finished e dto p j)
finished-Repriced e dto p j =
    subst (λ w. Repriced dto j (set_credit (worth_of p dto) w))
      (sym (with_last_day-end_date e.clock p dto (with_final_price dto j)))
      (with_final_price-again dto j _ _)

finish-IsFinished :
    (e : SaleEnv) (dto : SaleItemDto) (p : Product) (d : ℤ) (j : SaleItem)
    → IsMade e.clock dto d j
    → Holds (IsFinished e dto p d j) (finish e dto p j)
unfolding grant_credit Repriced Holds
finish-IsFinished e dto p d j h = elim (Bool-cases (eqb_ℤ (worth_of p dto) (pos 0))) [
  | inl c ↦ refused c
  | inr c ↦ subst (Holds (IsFinished e dto p d j)) (sym (grant_credit-ok p dto w c)) (done c)
]
  where
    w : SaleItem
    w = with_last_day e.clock p dto (with_final_price dto j)

    refused :
        eqb_ℤ (worth_of p dto) (pos 0) ≡ true
        → Holds (IsFinished e dto p d j) (grant_credit p dto w)
    refused c = rw c tt

    a :
        IsMade e.clock dto d (with_final_price dto j)
        × (is_sold (with_final_price dto j) ≡ is_sold j)
        × ((with_final_price dto j).used_credit ≡ j.used_credit)
    a = with_final_price-IsMade e.clock dto d j h

    l :
        IsMade e.clock dto d w
        × (is_sold w ≡ is_sold (with_final_price dto j))
        × (w.used_credit ≡ (with_final_price dto j).used_credit)
    l = with_last_day-IsMade e.clock p dto d (with_final_price dto j) a.0

    done :
        eqb_ℤ (worth_of p dto) (pos 0) ≡ false
        → Holds (IsFinished e dto p d j) (ok (finished e dto p j))
    done c =
        let r = finished-Repriced e dto p j in
        (
          l.0,
          l.1 ∙ a.1,
          l.2 ∙ a.2,
          finish-finished e dto p j _ c r.0,
          finish-finished e dto p j _ c r.1,
          finish-finished e dto p j _ c r.2,
        )

-- What the list of prices does to every item of a request.
unfoldable Prices : List ProductPrice → Product → SaleItemDto → (SaleItem → SaleItem) → Type 0
Prices prices p dto f = (i : SaleItem) → with_price prices p dto i ≡ ok (f i)

with_price-cases :
    (prices : List ProductPrice) (p : Product) (dto : SaleItemDto)
    → ((i : SaleItem) → with_price prices p dto i ≡ err Error.not_found_service_price)
      ⊎ (Prices prices p dto (λ i. i)
          ⊎ (((a : ℤ) × Prices prices p dto (λ i. record i { price = a }))
              ⊎ ((a : ℤ) × (b : ℕ) × Prices prices p dto
                    (λ i. record i { price = a; price_id = b }))))
unfolding with_price Prices
with_price-cases prices p dto = elim (Bool-cases (dto.parent == 0)) [
  | inr f ↦ inr (inl (λ i. rw f refl))
  | inl f ↦ elim (Bool-cases p.has_price_list) [
    | inr g ↦ inr (inr (inl (p.price, λ i. rw (f, g) refl)))
    | inl g ↦ elim (Option-cases (price_policy prices p dto)) [
      | inl n ↦ inl (λ i. rw (f, g, n) refl)
      | inr (r, n) ↦ inr (inr (inr (r.price, r.id, λ i. rw (f, g, n) refl)))
    ]
  ]
]

price_item-ok :
    (e : SaleEnv) (dto : SaleItemDto) (p : Product) (i k : SaleItem)
    → with_price e.prices p dto i ≡ ok k
    → price_item e dto p i ≡ finish e dto p k
unfolding price_item ◌>>=◌
price_item-ok e dto p i k h = ap (λ r. r >>= finish e dto p) h

price_item-err :
    (e : SaleEnv) (dto : SaleItemDto) (p : Product) (i : SaleItem) (x : Error)
    → with_price e.prices p dto i ≡ err x
    → price_item e dto p i ≡ err x
unfolding price_item ◌>>=◌
price_item-err e dto p i x h = ap (λ r. r >>= finish e dto p) h

abbrev pub IsPriced : SaleEnv → SaleItemDto → Product → ℤ → SaleItem → SaleItem → Type 0
IsPriced e dto p d j k =
    IsMade e.clock dto d k
    × (is_sold k ≡ is_sold j)
    × (k.used_credit ≡ j.used_credit)
    × (price_item e dto p k ≡ ok k)

pub price_item-again :
    (e : SaleEnv) (dto : SaleItemDto) (p : Product) (d : ℤ) (j : SaleItem)
    → IsMade e.clock dto d j
    → Holds (IsPriced e dto p d j) (price_item e dto p j)
unfolding Prices Holds
price_item-again e dto p d j h = elim (with_price-cases e.prices p dto) [
  | inl f ↦ subst (Holds (IsPriced e dto p d j)) (sym (price_item-err e dto p j _ (f j))) tt
  | inr (inl f) ↦ from j (f j) h λ k g. (g.0, g.1, g.2, price_item-ok e dto p k _ (f k) ∙ g.5)
  | inr (inr (inl (a, f))) ↦
      from (record j { price = a }) (f j) h
        λ k g. (g.0, g.1, g.2, price_item-ok e dto p k _ (f k) ∙ g.4)
  | inr (inr (inr (a, b, f))) ↦
      from (record j { price = a; price_id = b }) (f j) h
        λ k g. (g.0, g.1, g.2, price_item-ok e dto p k _ (f k) ∙ g.3)
]
  where
    from :
        (i : SaleItem)
        → with_price e.prices p dto j ≡ ok i
        → IsMade e.clock dto d i
        → ((k : SaleItem) → IsFinished e dto p d i k → IsPriced e dto p d j k)
        → Holds (IsPriced e dto p d j) (price_item e dto p j)
    from i f g k = subst (Holds (IsPriced e dto p d j)) (sym (price_item-ok e dto p j i f)) (
        Holds-map (IsFinished e dto p d i) (IsPriced e dto p d j) (finish e dto p i)
          (finish-IsFinished e dto p d i g) k)
