-- ===== src/Wallet/Providers/Charge.antt =====
-- A payment out of a charging service stays within the credit of the service.
use my_ng_platform.Prelude.{
  ℕ, ◌≡◌, refl, ℤ, pos, ◌+ℤ◌, ◌-ℤ◌, ◌≤ℤ◌, leb_ℤ, ltb_ℤ, leb→le, int_laws, arith, Bool, true, false,
  ◌&&◌, Option, none, some, List, ◌∷◌, Option-cases, List-cases, Bool-cases, inl, inr, ◌==◌,
  if◌then◌else◌,
}
use my_ng_platform.Clock.{Clock}
use my_ng_platform.Entities.{Transaction, SaleItem}
use my_ng_platform.Store.{Db, alter}
use my_ng_platform.Charging.{can_charge, amount_of, payable, get_charging}
use my_ng_platform.Wallet.Contract.{Ensures, Ensures-pure, Ensures-err}
use my_ng_platform.Wallet.Providers.{
  TransactionItem, use_credit, found_charging, charge_service_transaction,
}

-- What a payment of `amount` out of the service `source` has done: the service had it to give, and
-- the transaction notes what is left.
pub record IsCharged (source : ℕ) (amount : ℤ) (b : Db) (t' : Transaction) (b' : Db) : Type 0 where
  pub service : SaleItem
  pub found : b.sale_items source ≡ some service
  pub used :
      b'.sale_items source ≡ some (record service { used_credit = service.used_credit +ℤ amount })
  pub within : service.used_credit +ℤ amount ≤ℤ service.credit
  pub paid : t'.amount ≡ amount
  pub left : t'.charge_remain_credit ≡ service.credit -ℤ (service.used_credit +ℤ amount)

-- Whatever is sold, a service never offers more than is left of its credit.
pub amount_of-le_remain :
    (b : Db) (unit : ℕ) (sold : List SaleItem) (i : SaleItem)
    → amount_of b unit sold i ≤ℤ i.credit -ℤ i.used_credit
unfolding amount_of
amount_of-le_remain b unit sold i = elim (Option-cases (b.products i.product)) [
  | inl e ↦ rw (amount_of, e) (omega arith)
  | inr (p, e) ↦ elim (List-cases p.sub_products) [
    | inl f ↦ rw (amount_of, e, f) (omega arith)
    | inr (q, qs, f) ↦ elim (Bool-cases p.transferable_to_wallet) [
      | inl g ↦ rw (amount_of, e, f, g) (omega arith)
      | inr g ↦
          rw (amount_of, e, f, g) (least (payable b unit (q ∷ qs) sold) (i.credit -ℤ i.used_credit))
    ]
  ]
]
  where
    least : (x r : ℤ) → (if ltb_ℤ x r then x else r) ≤ℤ r
    least x r = ground arith

-- What a lookup may offer: a service of that id, and at most what is left of its credit.
unfoldable Offers : ℕ → Db → Option (SaleItem × ℤ) → Type 0
Offers id b none = Unit
Offers id b (some (i, v)) = (b.sale_items id ≡ some i) × (v ≤ℤ i.credit -ℤ i.used_credit)

get_charging-Offers :
    (c : Clock) (id user unit t : ℕ) (sold : List SaleItem) (guest : Bool) (b : Db)
    → Offers id b (get_charging c id user unit t sold guest b)
unfolding get_charging Offers
get_charging-Offers c id user unit t sold guest b = elim (Option-cases (b.sale_items id)) [
  | inl e ↦ rw (get_charging, e) tt
  | inr (s, e) ↦ elim (Bool-cases (can_charge c b user t guest s)) [
    | inl f ↦ rw (get_charging, e, f) (e, amount_of-le_remain b unit sold s)
    | inr f ↦ rw (get_charging, e, f) tt
  ]
]

found_charging-Offers :
    (c : Clock) (dto : TransactionItem) (t : Transaction) (sold : List SaleItem) (b : Db)
    → dto.is_archived ≡ false
    → Offers dto.source b (found_charging c dto t sold b)
unfolding found_charging
found_charging-Offers c dto t sold b live =
    rw (found_charging, live)
      (get_charging-Offers c dto.source t.user t.sale_unit t.submit_at sold dto.from_guest b)

alter_found :
    (a : ℤ) (k : ℕ) (rows : ℕ → Option SaleItem) {i : SaleItem}
    → rows k ≡ some i
    → alter (use_credit a) k rows k ≡ some (record i { used_credit = i.used_credit +ℤ a })
unfolding use_credit
alter_found a k rows e = let same : (k == k) ≡ true = ground arith in rw (same, e)

within_lem :
    (value amount credit used : ℤ)
    → (ltb_ℤ (pos 0) value && leb_ℤ amount value) ≡ true
    → value ≤ℤ credit -ℤ used
    → used +ℤ amount ≤ℤ credit
within_lem value amount credit used g v =
    let fits : leb_ℤ amount value ≡ true = ground (arith, g) in grind (int_laws, leb→le _ _ fits)

-- A new payment out of a charging service that is not an archived one, if it is accepted, was within
-- what is left of the credit of the service: the used credit rises by the amount of the payment and
-- stays at most the credit, and the transaction holds the amount and what remains.
pub charge_service_transaction-IsCharged :
    (c : Clock) (dto : TransactionItem) (t : Transaction) (sold : List SaleItem) (b : Db)
    → t.id ≡ 0
    → dto.is_archived ≡ false
    → Ensures (IsCharged dto.source dto.amount b) (charge_service_transaction c dto t sold b)
unfolding charge_service_transaction Offers
charge_service_transaction-IsCharged c dto t sold b new live =
    elim (Option-cases (found_charging c dto t sold b)) [
      | inl e ↦
          rw (charge_service_transaction, e) (Ensures-err (IsCharged dto.source dto.amount b) _ b)
      | inr ((service, value), e) ↦
          elim (Bool-cases (ltb_ℤ (pos 0) value && leb_ℤ dto.amount value)) [
            | inr g ↦
                rw (charge_service_transaction, e, new, g)
                  (Ensures-err (IsCharged dto.source dto.amount b) _ b)
            | inl g ↦
                rw (charge_service_transaction, e, new, g)
                  (Ensures-pure (IsCharged dto.source dto.amount b) _ _
                    (charged service value (rw e at (found_charging-Offers c dto t sold b live)) g))
          ]
    ]
  where
    charged :
        (service : SaleItem) (value : ℤ)
        → Offers dto.source b (some (service, value))
        → (ltb_ℤ (pos 0) value && leb_ℤ dto.amount value) ≡ true
        → IsCharged dto.source dto.amount b
            (record t {
              id = 0;
              amount = dto.amount;
              source = dto.source;
              credit = service.credit -ℤ (service.used_credit +ℤ dto.amount);
              charge_remain_credit = service.credit -ℤ (service.used_credit +ℤ dto.amount);
            })
            (record b { sale_items = alter (use_credit dto.amount) dto.source b.sale_items })
    charged service value o g = record {
      service = service;
      found = o.0;
      used = alter_found dto.amount dto.source b.sale_items o.0;
      within = within_lem value dto.amount service.credit service.used_credit g o.1;
      paid = refl;
      left = refl;
    }
