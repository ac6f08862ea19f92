-- ===== src/CashBack/Rewards.antt =====
-- Who is rewarded by a cash back, and the service that it is an item of.
use my_ng_platform.Prelude.{
  Some, ℕ, suc, ◌≤◌, ◌≡◌, refl, sym, ℤ, inl, inr, true, false, ◌&&◌, none, some, List, [], ◌∷◌, map,
  Bool-cases, Option-cases, arith, if◌then◌else◌,
}
use mathlib.Core.Path.{subst}
use my_ng_platform.Charging.{contains}
use my_ng_platform.Entities.{ProductPrice}
use my_ng_platform.CashBack.{
  CashBackProduct, SoldItem, CashBackDb, sold_products, cash_back_products, cash_back_items,
  is_priced, some_priced, find_prices, new_cash_back, find_generator, create_service, submit_each,
  give_back, create_cash_back,
}
use my_ng_platform.CashBack.Laws.{GivesCashBack, IsWorth, new_cash_back-IsWorth}

-- The item is sold at the price, is no transfer, and its product gives a cash back.
pub record IsRewarded (products : List CashBackProduct) (r : ProductPrice) (i : SoldItem)
    : Type 0 where
  pub sold : i.is_transfer ≡ false
  pub product : Some (GivesCashBack i.product) products
  pub price : is_priced i r ≡ true

cash_back_products-contains :
    (k : ℕ) (sold : List ℕ) (ps : List CashBackProduct)
    → contains k sold ≡ true
    → Some (GivesCashBack k) ps
    → contains k (cash_back_products sold ps) ≡ true
unfolding cash_back_products contains
cash_back_products-contains k sold [] h g = absurd g
cash_back_products-contains k sold (p ∷ ps) h (inl g) =
    let e = subst (λ j. contains j sold ≡ true) g.same h in
    let e' = g.gives in let e'' = g.same in rw (e, e') (ground (arith, e''))
cash_back_products-contains k sold (p ∷ ps) h (inr g) =
    let rest = cash_back_products-contains k sold ps h g in
    elim (Bool-cases (contains p.id sold && p.is_cash_back)) [
      | inl e ↦ ground (arith, rest, e)
      | inr e ↦ ground (arith, rest, e)
    ]

-- A rewarded item is kept where `sold` holds the products of the items.
cash_back_items-some_priced :
    (sold : List ℕ) (products : List CashBackProduct) (r : ProductPrice) (items : List SoldItem)
    → ((k : ℕ) → contains k (sold_products items) ≡ true → contains k sold ≡ true)
    → Some (IsRewarded products r) items
    → some_priced (cash_back_items (cash_back_products sold products) items) r ≡ true
unfolding cash_back_items some_priced sold_products contains
cash_back_items-some_priced sold products r [] f h = absurd h
cash_back_items-some_priced sold products r (i ∷ is) f (inl h) =
    let t = h.sold in
    let p = h.price in
    let e =
      cash_back_products-contains i.product sold products (f i.product (ground (arith, t)))
        h.product in
    ground (arith, e, p)
cash_back_items-some_priced sold products r (i ∷ is) f (inr h) =
    let rest = cash_back_items-some_priced sold products r is (λ k e. f k (ground (arith, e))) h in
    ground (arith, rest)

find_prices-Some :
    (r : ProductPrice) (is : List SoldItem) (rs : List ProductPrice)
    → some_priced is r ≡ true
    → Some (λ s. s ≡ r) rs
    → Some (λ s. s ≡ r) (find_prices is rs)
unfolding find_prices
find_prices-Some r is [] e h = absurd h
find_prices-Some r is (s ∷ rs) e (inl h) =
    let e' = subst (λ q. some_priced is q ≡ true) (sym h) e in rw e' (inl h)
find_prices-Some r is (s ∷ rs) e (inr h) =
    let rest = find_prices-Some r is rs e h in
    elim (Bool-cases (some_priced is s)) [ inl e' ↦ rw e' (inr rest) | inr e' ↦ rw e' rest ]

new_cash_backs-Some :
    (today : ℤ) (service : ℕ) (is : List SoldItem) (r : ProductPrice) (rs : List ProductPrice)
    → Some (λ s. s ≡ r) rs
    → Some (IsWorth r) (map (new_cash_back today service is) rs)
new_cash_backs-Some today service is r [] h = absurd h
new_cash_backs-Some today service is r (s ∷ rs) (inl h) = inl (
    subst (λ q. IsWorth q (new_cash_back today service is s)) h
      (new_cash_back-IsWorth today service is s))
new_cash_backs-Some today service is r (s ∷ rs) (inr h) =
    inr (new_cash_backs-Some today service is r rs h)

submit_each-Some :
    (today : ℤ) (fresh : ℕ) (is : List SoldItem) (r : ProductPrice) (rs : List ProductPrice)
    (d : CashBackDb)
    → Some (λ s. s ≡ r) rs
    → Some (IsWorth r) (submit_each today fresh is rs d).0
unfolding submit_each
submit_each-Some today fresh is r rs d h = elim (Option-cases (find_generator d.products)) [
  | inl e ↦ rw (e, Some) (new_cash_backs-Some today fresh is r rs h)
  | inr (service, e) ↦ rw (e, Some) (new_cash_backs-Some today service is r rs h)
]

no_items :
    (r : ProductPrice) (items : List SoldItem) → some_priced (cash_back_items [] items) r ≡ false
unfolding cash_back_items some_priced contains
no_items r [] = refl
no_items r (i ∷ is) = no_items r is

give_back-Some :
    (today : ℤ) (fresh : ℕ) (items : List SoldItem) (d : CashBackDb) (r : ProductPrice)
    (found : List ℕ)
    → some_priced (cash_back_items found items) r ≡ true
    → Some (λ s. s ≡ r) d.prices
    → Some (IsWorth r) (give_back today fresh items d found).0
unfolding give_back
give_back-Some today fresh items d r [] e h = absurd (ground (arith, e, no_items r items))
give_back-Some today fresh items d r (p ∷ ps) e h =
    submit_each-Some today fresh (cash_back_items (p ∷ ps) items) r _ d
      (find_prices-Some r _ d.prices e h)

-- For a price of the shop, and an item of the order that was sold at it, is no transfer and has a
-- product that gives a cash back, an order of the price's percentage of it is submitted.
pub create_cash_back-Rewards :
    (today : ℤ) (fresh : ℕ) (items : List SoldItem) (d : CashBackDb) (r : ProductPrice)
    → Some (λ s. s ≡ r) d.prices
    → Some (IsRewarded d.products r) items
    → Some (IsWorth r) (create_cash_back today fresh items d).0
unfolding create_cash_back
create_cash_back-Rewards today fresh items d r h g =
    give_back-Some today fresh items d r _
      (cash_back_items-some_priced (sold_products items) d.products r items (λ k e. e) g) h

-- How many services cash backs could be items of.
unfoldable pub count_generators : List CashBackProduct → ℕ
count_generators [] = 0
count_generators (p ∷ ps) =
    let rest = count_generators ps in if p.is_gift_generator then suc rest else rest

no_generator : (ps : List CashBackProduct) → find_generator ps ≡ none → count_generators ps ≡ 0
unfolding find_generator count_generators
no_generator [] h = refl
no_generator (p ∷ ps) h = elim (Bool-cases p.is_gift_generator) [
  | inl e ↦ absurd (ground (arith, h, e))
  | inr e ↦ rw e (no_generator ps (ground (arith, h, e)))
]

submit_each-none :
    (today : ℤ) (fresh : ℕ) (is : List SoldItem) (rs : List ProductPrice) (d : CashBackDb)
    → find_generator d.products ≡ none
    → (submit_each today fresh is rs d).1 ≡ create_service fresh d
unfolding submit_each
submit_each-none today fresh is rs d e = rw (e, submit_each) refl

submit_each-some :
    (today : ℤ) (fresh : ℕ) (is : List SoldItem) (rs : List ProductPrice) (d : CashBackDb) (k : ℕ)
    → find_generator d.products ≡ some k
    → (submit_each today fresh is rs d).1 ≡ d
unfolding submit_each
submit_each-some today fresh is rs d k e = rw (e, submit_each) refl

give_back-count :
    (today : ℤ) (fresh : ℕ) (items : List SoldItem) (d : CashBackDb) (found : List ℕ)
    → count_generators d.products ≤ 1
    → count_generators (give_back today fresh items d found).1.products ≤ 1
unfolding give_back create_service count_generators
give_back-count today fresh items d [] h = h
give_back-count today fresh items d (p ∷ ps) h =
    let is = cash_back_items (p ∷ ps) items in
    let rs = find_prices is d.prices in
    elim (Option-cases (find_generator d.products)) [
      | inl e ↦
          let z = no_generator d.products e in
          rw (submit_each-none today fresh is rs d e) (omega (arith, z))
      | inr (service, e) ↦ rw (submit_each-some today fresh is rs d service e) h
    ]

-- Where a shop has at most one service that cash backs are items of, it has at most one after a
-- cash back.
pub create_cash_back-generators :
    (today : ℤ) (fresh : ℕ) (items : List SoldItem) (d : CashBackDb)
    → count_generators d.products ≤ 1
    → count_generators (create_cash_back today fresh items d).1.products ≤ 1
unfolding create_cash_back
create_cash_back-generators today fresh items d h = give_back-count today fresh items d _ h
