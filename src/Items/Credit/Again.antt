-- ===== src/Items/Credit/Again.antt =====
-- The same request once more.
use my_ng_platform.Prelude.{
  arith, ltb, ℤ, pos, ltb_ℤ, eqb_ℤ, ◌≡◌, refl, ap, ◌∙◌, sym, true, false, Bool-cases, none, some,
  inl, inr,
}
use mathlib.Core.Path.{subst}
use my_ng_platform.Prelude.{◌≤ℤ◌}
use my_ng_platform.Clock.{Clock, day_of}
use my_ng_platform.Amounts.{total_amount}
use my_ng_platform.Entities.{SaleItem, Product}
use my_ng_platform.Store.{Result, ok}
use my_ng_platform.Items.Requests.{SellingUnit, SaleItemDto, SaleEnv}
use my_ng_platform.Items.Credit.{
  with_penalty, with_start, with_end_date, moment_of, check_end, has_null_end, with_discount,
  is_sold, sell, take_over, charge_item, check_total, with_partners, revise, item_or_new, new_item,
  upsert, price_item, ◌>>=◌,
}
use my_ng_platform.Items.Credit.Holds.{Holds, Holds-bind, Holds-map, Holds-ok, Holds-both}
use my_ng_platform.Items.Credit.Used.{check_end-same}
use my_ng_platform.Items.Credit.Fields.{
  IsOpen, IsUnused, IsDate, discount_of, IsStarted, IsEnded, IsMade, with_penalty-HasPenalty,
  with_penalty-again, with_start-IsStarted, with_start-again, with_end_date-IsEnded,
  with_end_date-again, with_discount-IsMade, with_discount-again,
}
use my_ng_platform.Items.Credit.Repricing.{IsPriced, price_item-again}
use my_ng_platform.Items.Credit.Laws.{Ends, IsFit, upsert-IsFit}

charge_item-sold :
    (e : SaleEnv) (dto : SaleItemDto) (p : Product) (i : SaleItem)
    → is_sold i ≡ true
    → IsUnused i
    → charge_item e dto p i ≡ price_item e dto p i
unfolding charge_item sell
charge_item-sold e dto p i s n = rw (s, n) refl

charge_item-given :
    (e : SaleEnv) (dto : SaleItemDto) (p : Product) (i : SaleItem)
    → is_sold i ≡ false
    → charge_item e dto p i ≡ ok (take_over dto i)
unfolding charge_item
charge_item-given e dto p i s = rw s refl

IsCharged : SaleEnv → SaleItemDto → Product → ℤ → SaleItem → Type 0
IsCharged e dto p d k = IsMade e.clock dto d k × (charge_item e dto p k ≡ ok k)

take_over-again :
    (c : Clock) (dto : SaleItemDto) (d : ℤ) (i : SaleItem)
    → IsMade c dto d i
    → IsMade c dto d (take_over dto i)
      × (is_sold (take_over dto i) ≡ is_sold i)
      × (take_over dto (take_over dto i) ≡ take_over dto i)
unfolding take_over
take_over-again c dto d i h = elim (Bool-cases i.is_transfer) [
  | inl t ↦ rw t (h, refl, refl)
  | inr t ↦ rw t (h, refl, refl)
]

charge_item-again :
    (e : SaleEnv) (dto : SaleItemDto) (p : Product) (d : ℤ) (i : SaleItem)
    → IsMade e.clock dto d i × IsUnused i
    → Holds (IsCharged e dto p d) (charge_item e dto p i)
unfolding IsCharged Holds
charge_item-again e dto p d i (h, n) = elim (Bool-cases (is_sold i)) [
  | inl s ↦ subst (Holds (IsCharged e dto p d)) (sym (charge_item-sold e dto p i s n)) (
      Holds-map (IsPriced e dto p d i) (IsCharged e dto p d) (price_item e dto p i)
        (price_item-again e dto p d i h)
        λ k g.
          let m : IsUnused k = ap (λ a. eqb_ℤ a (pos 0)) g.2 ∙ n in
          (g.0, charge_item-sold e dto p k (g.1 ∙ s) m ∙ g.3))
  | inr s ↦
      let t = take_over-again e.clock dto d i h in
      subst (Holds (IsCharged e dto p d)) (sym (charge_item-given e dto p i s))
        (t.0, charge_item-given e dto p (take_over dto i) (t.1 ∙ s) ∙ ap ok t.2)
]

is_open :
    (e : SaleEnv) (dto : SaleItemDto) (p : Product) (d : ℤ) (i : SaleItem)
    → IsCharged e dto p d i
    → IsOpen i
unfolding IsCharged
is_open e dto p d i h = h.0.0.1

check_total-same : (i : SaleItem) → IsOpen i → Holds (λ j. j ≡ i) (check_total i)
unfolding check_total Holds
check_total-same i o = elim (Bool-cases (ltb_ℤ (total_amount i) (pos 0))) [
  | inl e ↦ rw e tt
  | inr e ↦ rw e (ap (λ s. record i { status = s }) (sym o))
]

check_total-again : (i : SaleItem) → IsOpen i → pos 0 ≤ℤ total_amount i → check_total i ≡ ok i
unfolding check_total
check_total-again i o h =
    let n : ltb_ℤ (total_amount i) (pos 0) ≡ false = ground (arith, h) in
    rw n (ap (λ s. ok (record i { status = s })) (sym o))

check_end-again : (c : Clock) (i : SaleItem) → Ends c i → check_end c i ≡ ok i
unfolding check_end
check_end-again c i (inl h) = rw h refl
check_end-again c i (inr h) =
    let n : ltb (day_of c (moment_of c i.end_date)) (day_of c (moment_of c i.start)) ≡ false =
      ground (arith, h) in
    elim (Bool-cases (has_null_end i)) [ inl e ↦ rw e refl | inr e ↦ rw (e, n) refl ]

with_partners-none :
    (e : SaleEnv) (p : Product) (i : SaleItem) → p.has_partner ≡ false → with_partners e p i ≡ ok i
unfolding with_partners
with_partners-none e p i n = rw n refl

bind-ok :
    {A B : Type 0} (r : Result A) (f : A → Result B) (a : A) (b : Result B)
    → r ≡ ok a
    → f a ≡ b
    → (r >>= f) ≡ b
unfolding ◌>>=◌
bind-ok r f a b h g = ap (λ x. x >>= f) h ∙ g

-- What a request makes of a new item, but for its partners.
IsAgain : SaleEnv → SaleItemDto → Product → SellingUnit → SaleItem → Type 0
IsAgain e dto p u i = IsCharged e dto p (discount_of dto p u) i

new_item-IsAgain :
    (e : SaleEnv) (dto : SaleItemDto) (p : Product) (u : SellingUnit)
    → IsDate dto.end_date
    → p.has_partner ≡ false
    → Holds (IsAgain e dto p u) (upsert e dto none p u)
unfolding upsert revise item_or_new new_item IsAgain
new_item-IsAgain e dto p u t n =
    Holds-bind _ _ _ _
      (Holds-bind _ _ _ _
        (Holds-bind _ _ _ _
          (Holds-bind (IsStarted e.clock dto) (IsEnded e.clock dto) _ _
            (with_start-IsStarted e.clock dto (with_penalty dto (new_item dto p u))
              (with_penalty-HasPenalty dto (new_item dto p u) refl refl))
            λ j h. ended j h)
          λ j h.
            charge_item-again e dto p _ (with_discount dto p u j)
              (with_discount-IsMade e.clock dto p u j h))
        λ j h. opened j h)
      λ j h. done j h
  where
    ended :
        (j : SaleItem)
        → IsStarted e.clock dto j
        → Holds (IsEnded e.clock dto) (check_end e.clock (with_end_date dto j))
    ended j h =
        Holds-map _ _ _ (check_end-same e.clock (with_end_date dto j))
          λ k g. subst (IsEnded e.clock dto) (sym g) (with_end_date-IsEnded e.clock dto j t h)

    opened :
        (j : SaleItem)
        → IsCharged e dto p (discount_of dto p u) j
        → Holds (IsCharged e dto p (discount_of dto p u)) (check_total j)
    opened j h =
        Holds-map _ _ _ (check_total-same j (is_open e dto p _ j h))
          λ k g. subst (IsCharged e dto p (discount_of dto p u)) (sym g) h

    done :
        (j : SaleItem)
        → IsCharged e dto p (discount_of dto p u) j
        → Holds (IsCharged e dto p (discount_of dto p u)) (with_partners e p j)
    done j h = subst (Holds _) (sym (with_partners-none e p j n)) (Holds-ok _ j h)

revise-again :
    (e : SaleEnv) (dto : SaleItemDto) (p : Product) (u : SellingUnit) (i : SaleItem)
    → p.has_partner ≡ false
    → IsAgain e dto p u i
    → IsFit e.clock dto i
    → revise e dto i p u ≡ ok i
unfolding revise IsAgain IsCharged
revise-again e dto p u i n (h, g) f =
    bind-ok _ _ i _
      (bind-ok _ _ i _
        (bind-ok _ _ i _
          (bind-ok _ _ i _
            (ap (with_start e.clock dto) (with_penalty-again dto i h.0.0)
              ∙ with_start-again e.clock dto i h.1)
            (ap (check_end e.clock) (with_end_date-again dto i h.2)
              ∙ check_end-again e.clock i f.0.0.1))
          (ap (charge_item e dto p) (with_discount-again dto p u i h.3) ∙ g))
        (check_total-again i h.0.1 f.1))
      (with_partners-none e p i n)

-- To send the request of a new credit once more changes nothing, where the product has no partners
-- and the date of the end, if there is one, is not the start of 1970.
pub upsert-again :
    (e : SaleEnv) (dto : SaleItemDto) (p : Product) (u : SellingUnit)
    → IsDate dto.end_date
    → p.has_partner ≡ false
    → Holds (λ i. upsert e dto (some i) p u ≡ ok i) (upsert e dto none p u)
unfolding upsert item_or_new
upsert-again e dto p u t n =
    Holds-both _ _ _ _ (new_item-IsAgain e dto p u t n) (upsert-IsFit e dto none p u)
      λ i h f. revise-again e dto p u i n h f
