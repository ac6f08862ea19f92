-- ===== src/SaleOrders/Penalty/Laws.antt =====
-- What a request is charged with.
use my_ng_platform.Prelude.{
  ℕ, ◌≡◌, refl, ◌∙◌, ap, ℤ, pos, ◌+ℤ◌, ◌-ℤ◌, ltb_ℤ, leb_ℤ, eqb_ℤ, int_laws, arith, Bool, true,
  false, not, ◌&&◌, Option, none, some, List, [], ◌∷◌, ◌++◌, All, All-map, Some, Bool-cases,
  Option-cases, inl, inr, ◌⊎◌, ◌==◌, ==_iff,
}
use mathlib.Core.Option.{some-injective}
use mathlib.Core.Path.{subst}
use my_ng_platform.Store.{ok}
use my_ng_platform.SaleOrders.Penalty.{
  UsedItem, ItemDto, find_penalty, change_item, add_penalty, set_penalty, charge_penalty,
  new_penalty, push_item, has_single, take_from_service, penalize, or_type_error,
}

-- The uses and the penalties of a request.
abbrev pub total_quantity : List ItemDto → ℤ
total_quantity [] = pos 0
total_quantity (d ∷ ds) = d.quantity +ℤ total_quantity ds

abbrev pub total_penalty : List ItemDto → ℤ
total_penalty [] = pos 0
total_penalty (d ∷ ds) = d.penalty_quantity +ℤ total_penalty ds

-- The request is charged with the penalty `a`.
pub record IsCharged (a : ℤ) (ds : List ItemDto) (r : Option (List ItemDto)) : Type 0 where
  pub items : List ItemDto
  pub result : r ≡ some items
  pub quantity : total_quantity items ≡ total_quantity ds +ℤ a
  pub penalty : total_penalty items ≡ total_penalty ds +ℤ a

-- The items with the id change by `a`.
abbrev Changes : ℕ → ℤ → (ItemDto → ItemDto) → ItemDto → Type 0
Changes id a f d =
    d.id ≡ id
    → ((f d).quantity ≡ d.quantity +ℤ a) × ((f d).penalty_quantity ≡ d.penalty_quantity +ℤ a)

regroup : (x s a : ℤ) → x +ℤ (s +ℤ a) ≡ (x +ℤ s) +ℤ a
regroup x s a = grind int_laws

first : (y x s a : ℤ) → y ≡ x +ℤ a → y +ℤ s ≡ (x +ℤ s) +ℤ a
first y x s a e = rw e (grind int_laws)

change_item-IsCharged :
    (id : ℕ) (a : ℤ) (f : ItemDto → ItemDto) (ds : List ItemDto)
    → Some (λ d. d.id ≡ id) ds
    → All (Changes id a f) ds
    → IsCharged a ds (change_item id f ds)
unfolding change_item
change_item-IsCharged id a f [] h k = absurd h
change_item-IsCharged id a f (d ∷ ds) h (k, ks) = elim (Bool-cases (d.id == id)) [
  | inl e ↦
      let (q, p) = k ((==_iff _ _).0 e) in
      rw e (record {
        items = f d ∷ ds;
        result = refl;
        quantity = first _ d.quantity (total_quantity ds) a q;
        penalty = first _ d.penalty_quantity (total_penalty ds) a p;
      })
  | inr e ↦
      let r = change_item-IsCharged id a f ds (later h e) ks in
      rw (e, r.result)
        (record {
          items = d ∷ r.items;
          result = refl;
          quantity = rw r.quantity (regroup d.quantity (total_quantity ds) a);
          penalty = rw r.penalty (regroup d.penalty_quantity (total_penalty ds) a);
        })
]
  where
    later : Some (λ d. d.id ≡ id) (d ∷ ds) → (d.id == id) ≡ false → Some (λ d. d.id ≡ id) ds
    later (inl s) n = absurd (ground (arith, s, n))
    later (inr s) n = s

total_quantity-append :
    (ds : List ItemDto) (d : ItemDto)
    → total_quantity (ds ++ (d ∷ [])) ≡ total_quantity ds +ℤ d.quantity
total_quantity-append [] d = grind int_laws
total_quantity-append (e ∷ ds) d = rw (total_quantity-append ds d) (regroup _ _ _)

total_penalty-append :
    (ds : List ItemDto) (d : ItemDto)
    → total_penalty (ds ++ (d ∷ [])) ≡ total_penalty ds +ℤ d.penalty_quantity
total_penalty-append [] d = grind int_laws
total_penalty-append (e ∷ ds) d = rw (total_penalty-append ds d) (regroup _ _ _)

-- A new item for what is left of the penalty.
push_item-IsCharged :
    (i : UsedItem) (a c : ℤ) (ds : List ItemDto) (r : Option (List ItemDto))
    → IsCharged c ds r
    → IsCharged a ds (push_item (new_penalty i (a -ℤ c)) r)
unfolding new_penalty
push_item-IsCharged i a c ds r h =
    let new = new_penalty i (a -ℤ c) in
    rw h.result (record {
      items = h.items ++ (new ∷ []);
      result = refl;
      quantity = total_quantity-append h.items new ∙ rw h.quantity (whole (total_quantity ds) c a);
      penalty = total_penalty-append h.items new ∙ rw h.penalty (whole (total_penalty ds) c a);
    })
  where
    whole : (t c a : ℤ) → t +ℤ c +ℤ (a -ℤ c) ≡ t +ℤ a
    whole t c a = grind int_laws

-- The items of the request with the id of `i` are as `i` was loaded.
abbrev Agrees : UsedItem → ItemDto → Type 0
Agrees i d = d.id ≡ i.id → (d.quantity ≡ i.quantity) × (d.penalty_quantity ≡ i.penalty_quantity)

-- The request has the item.
abbrev pub IsAsked : List ItemDto → UsedItem → Type 0
IsAsked ds i = Some (λ d. d.id ≡ i.id) ds

flip_add : (a q : ℤ) → a +ℤ q ≡ q +ℤ a
flip_add a q = grind int_laws

add_zero : (q : ℤ) → q ≡ q +ℤ pos 0
add_zero q = grind int_laws

less_zero : (a : ℤ) → a -ℤ pos 0 ≡ a
less_zero a = grind int_laws

covered :
    (l s z : Bool) → l ≡ true → (l && not s) ≡ false → (l && s && not z) ≡ false → z ≡ false → ⊥
covered true true true e f g h = cc
covered true true false e f g h = cc
covered true false z e f g h = cc
covered false s z e f g h = cc

find_penalty-All :
    (P : UsedItem → Type 0) (product : ℕ) (is : List UsedItem) (p : UsedItem)
    → All P is
    → find_penalty product is ≡ some p
    → P p
unfolding find_penalty
find_penalty-All P product [] p h e = cc
find_penalty-All P product (i ∷ is) p (h, hs) e =
    elim (Bool-cases (
      i.use_of.product == product
      && not i.has_service
      && eqb_ℤ (i.quantity -ℤ i.penalty_quantity) (pos 0))) [
        | inl f ↦ subst P (some-injective _ _ (rw f at e)) h
        | inr f ↦ find_penalty-All P product is p hs (rw f at e)
      ]

take_from_service-IsCharged :
    (all : List UsedItem) (i : UsedItem) (a : ℤ) (ds : List ItemDto)
    → (ltb_ℤ i.remain_credit a && not (has_single i.use_of)) ≡ false
    → IsAsked ds i
    → All (IsAsked ds) all
    → All (Agrees i) ds
    → IsCharged a ds (take_from_service all i a ds)
unfolding take_from_service
take_from_service-IsCharged all i a ds single h hs k =
    elim (Bool-cases
      (ltb_ℤ i.remain_credit a && has_single i.use_of && not (eqb_ℤ i.remain_credit (pos 0)))) [
        | inl e ↦ rw e (
            push_item-IsCharged i a i.remain_credit ds _ (
              change_item-IsCharged i.id i.remain_credit (add_penalty i.remain_credit) ds h
                (same ds)))
        | inr e ↦ elim (Bool-cases (leb_ℤ a i.remain_credit)) [
          | inl f ↦
              rw (e, f)
                (change_item-IsCharged i.id a (set_penalty i a) ds h (
                  All-map (Agrees i) (Changes i.id a (set_penalty i a)) ds
                    (λ d g n. (rw (g n).0 (flip_add a i.quantity), rw (g n).1 refl)) k))
          | inr f ↦ elim (Bool-cases (eqb_ℤ i.remain_credit (pos 0))) [
            | inr g ↦ absurd (
                covered (ltb_ℤ i.remain_credit a) (has_single i.use_of) _ (ground (arith, f)) single
                  e g)
            | inl g ↦ rw (e, f, g) (in_full (Option-cases (find_penalty i.use_of.product all)))
          ]
        ]
      ]
  where
    same : (ds : List ItemDto) → All (Changes i.id i.remain_credit (add_penalty i.remain_credit)) ds
    same [] = tt
    same (d ∷ ds) = ((λ n. (refl, refl)), same ds)

    kept : (ds : List ItemDto) → All (Changes i.id (pos 0) (λ d. d)) ds
    kept [] = tt
    kept (d ∷ ds) = ((λ n. (add_zero d.quantity, add_zero d.penalty_quantity)), kept ds)

    added : (id : ℕ) (ds : List ItemDto) → All (Changes id a (add_penalty a)) ds
    added id [] = tt
    added id (d ∷ ds) = ((λ n. (refl, refl)), added id ds)

    in_full :
        (find_penalty i.use_of.product all ≡ none)
          ⊎ ((p : UsedItem) × (find_penalty i.use_of.product all ≡ some p))
        → IsCharged a ds (elim (find_penalty i.use_of.product all) [
          | none ↦ push_item (new_penalty i a) (change_item i.id (λ d. d) ds)
          | some p ↦ change_item p.id (add_penalty a) ds
        ])
    in_full (inl e) = rw e (
        rw (less_zero a) at (
          push_item-IsCharged i a (pos 0) ds _
            (change_item-IsCharged i.id (pos 0) (λ d. d) ds h (kept ds))))
    in_full (inr (p, e)) = rw e (
        change_item-IsCharged p.id a (add_penalty a) ds
          (find_penalty-All (IsAsked ds) i.use_of.product all p hs e) (added p.id ds))

penalize-service :
    (all : List UsedItem) (i : UsedItem) (a : ℤ) (ds : List ItemDto)
    → i.has_service ≡ true
    → (ltb_ℤ i.remain_credit a && not (has_single i.use_of)) ≡ false
    → penalize all i a ds ≡ or_type_error (take_from_service all i a ds)
unfolding penalize
penalize-service all i a ds e s = simp (e, s)

penalize-free :
    (all : List UsedItem) (i : UsedItem) (a : ℤ) (ds : List ItemDto)
    → i.has_service ≡ false
    → penalize all i a ds ≡ or_type_error (change_item i.id (charge_penalty i a) ds)
unfolding penalize
penalize-free all i a ds e = simp (e, penalize)

-- The request is charged with the penalty of an item, whichever branch asks for it, where it has the
-- items of the reception as they were loaded: both its uses and its penalties grow by it. A service
-- that has less left than the penalty needs the price of a single session.
pub penalize-IsCharged :
    (all : List UsedItem) (i : UsedItem) (a : ℤ) (ds : List ItemDto)
    → (i.has_service && ltb_ℤ i.remain_credit a && not (has_single i.use_of)) ≡ false
    → IsAsked ds i
    → All (IsAsked ds) all
    → All (Agrees i) ds
    → (ds' : List ItemDto) × (penalize all i a ds ≡ ok ds')
      × (total_quantity ds' ≡ total_quantity ds +ℤ a)
      × (total_penalty ds' ≡ total_penalty ds +ℤ a)
penalize-IsCharged all i a ds single h hs k = elim (Bool-cases i.has_service) [
  | inr e ↦
      let r = change_item-IsCharged i.id a (charge_penalty i a) ds h (
        All-map (Agrees i) (Changes i.id a (charge_penalty i a)) ds
          (λ d g n. (refl, rw (g n).1 refl)) k) in
      (r.items, penalize-free all i a ds e ∙ ap or_type_error r.result, r.quantity, r.penalty)
  | inl e ↦
      let s : (ltb_ℤ i.remain_credit a && not (has_single i.use_of)) ≡ false = rw e at single in
      let r = take_from_service-IsCharged all i a ds s h hs k in
      (r.items, penalize-service all i a ds e s ∙ ap or_type_error r.result, r.quantity, r.penalty)
]
