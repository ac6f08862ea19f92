-- ===== src/Lockers/Reach.antt =====
-- The default formula reaches every free locker.
use my_ng_platform.Prelude.{
  ℕ, zero, suc, ◌+◌, ◌*◌, ◌≤◌, ◌<◌, ◌≡◌, ◌⊎◌, refl, sym, ap, ◌∙◌, Bool, true, false, ◌||◌, Option,
  none, some, List, [], ◌∷◌, ◌++◌, All, length, Bool-cases, Option-cases, inl, inr, arith, ltb,
  ltb→lt, ltb→le, ==_iff, ◌==◌,
}
use my_ng_platform.Store.{Result, ok, err}
use my_ng_platform.Lockers.{LockerItem, Value, AutoAssignPolicy, number, on_result}
use my_ng_platform.Lockers.Formula.{formula_of, locker_at, is_found, pick, pick_row, pick_rows}

-- What a call returns, which returns.
unfoldable pub Returns : {A : Type 0} → (A → Type 0) → Result A → Type 0
Returns P (ok a) = P a
Returns P (err _) = ⊥

pub Returns-ok : {A : Type 0} (P : A → Type 0) (a : A) → P a → Returns P (ok a)
unfolding Returns
Returns-ok P a h = h

pub Returns-on_result :
    {A B : Type 0} (P : A → Type 0) (Q : B → Type 0) (f : A → Result B) (r : Result A)
    → Returns P r
    → ((a : A) → P a → Returns Q (f a))
    → Returns Q (on_result f r)
unfolding Returns on_result
Returns-on_result P Q f (ok a) h k = k a h
Returns-on_result P Q f (err e) h k = absurd h

pub Returns-map :
    {A : Type 0} (P Q : A → Type 0) (r : Result A)
    → Returns P r
    → ((a : A) → P a → Q a)
    → Returns Q r
unfolding Returns
Returns-map P Q (ok a) h k = k a h
Returns-map P Q (err e) h k = absurd h

abbrev pub default : ℕ → ℕ → Value
default = formula_of AutoAssignPolicy.unset

-- What was found stays found.
record Grows (finds finds' : List LockerItem) : Type 0 where
  keeps : (id : ℕ) → is_found id finds ≡ true → is_found id finds' ≡ true
  longer : length finds ≤ length finds'

refl-Grows : (finds : List LockerItem) → Grows finds finds
refl-Grows finds = record { keeps = λ id h. h; longer = omega arith }

trans-Grows : (xs ys zs : List LockerItem) → Grows xs ys → Grows ys zs → Grows xs zs
trans-Grows xs ys zs g h = record {
  keeps = λ id e. h.keeps id (g.keeps id e);
  longer = omega (arith, g.longer, h.longer);
}

is_found-append :
    (id : ℕ) (finds : List LockerItem) (i : LockerItem)
    → is_found id (finds ++ (i ∷ [])) ≡ (is_found id finds || (i.id == id))
unfolding is_found
is_found-append id [] i = or_false (i.id == id)
  where
    or_false : (a : Bool) → (a || false) ≡ (false || a)
    or_false true = refl
    or_false false = refl
is_found-append id (j ∷ js) i = rw (is_found-append id js i) (or_assoc (j.id == id) _ _)
  where
    or_assoc : (a b c : Bool) → (a || (b || c)) ≡ ((a || b) || c)
    or_assoc true b c = refl
    or_assoc false b c = refl

snoc-Grows : (finds : List LockerItem) (i : LockerItem) → Grows finds (finds ++ (i ∷ []))
snoc-Grows finds i = record {
  keeps = λ id h. rw (is_found-append id finds i, h) refl;
  longer = longer_by_one finds;
}
  where
    longer_by_one : (js : List LockerItem) → length js ≤ length (js ++ (i ∷ []))
    longer_by_one [] = omega arith
    longer_by_one (j ∷ js) = omega (arith, longer_by_one js)

snoc_found : (finds : List LockerItem) (i : LockerItem) → is_found i.id (finds ++ (i ∷ [])) ≡ true
snoc_found finds i =
    let same : (i.id == i.id) ≡ true = ground arith in
    rw (is_found-append i.id finds i, same) (or_true (is_found i.id finds))
  where
    or_true : (a : Bool) → (a || true) ≡ true
    or_true true = refl
    or_true false = refl

-- The number's locker, if there is one, is found now.
record Hits (k : ℕ) (free finds finds' : List LockerItem) : Type 0 where
  grows : Grows finds finds'
  hit : (i : LockerItem) → locker_at k free ≡ some i → is_found i.id finds' ≡ true

abbrev id_or : Option LockerItem → ℕ
id_or none = 0
id_or (some i) = i.id

pick-Hits :
    (k : ℕ) (free finds : List LockerItem)
    → Returns (Hits k free finds) (pick (number k) free finds)
unfolding pick
pick-Hits k free finds = elim (Option-cases (locker_at k free)) [
  | inl e ↦
      rw (pick, e)
        (Returns-ok (Hits k free finds) finds
          (record { grows = refl-Grows finds; hit = λ i f. absurd cc }))
  | inr (j, e) ↦ elim (Bool-cases (is_found j.id finds)) [
    | inl f ↦
        rw (pick, e, f)
          (Returns-ok (Hits k free finds) finds (record {
            grows = refl-Grows finds;
            hit = λ i g. let same : j.id ≡ i.id = ap id_or (sym e ∙ g) in rw (← same) f;
          }))
    | inr f ↦
        rw (pick, e, f)
          (Returns-ok (Hits k free finds) (finds ++ (j ∷ [])) (record {
            grows = snoc-Grows finds j;
            hit = λ i g.
                let same : j.id ≡ i.id = ap id_or (sym e ∙ g) in rw (← same) (snoc_found finds j);
          }))
  ]
]

pick_row-Grows :
    (free : List LockerItem) (quantity b left n : ℕ) (finds : List LockerItem)
    → Returns (Grows finds) (pick_row default free quantity b left n finds)
unfolding pick_row formula_of
pick_row-Grows free q b zero n finds = Returns-ok (Grows finds) finds (refl-Grows finds)
pick_row-Grows free q b (suc left) n finds = elim (Bool-cases (ltb (length finds) q)) [
  | inr e ↦ rw (pick_row, e) (Returns-ok (Grows finds) finds (refl-Grows finds))
  | inl e ↦
      rw (pick_row, e)
        (Returns-on_result (Hits (2 * n + 1 + b) free finds) (Grows finds) _ _
          (pick-Hits (2 * n + 1 + b) free finds)
          λ finds' h.
            Returns-map (Grows finds') (Grows finds) _ (pick_row-Grows free q b left (suc n) finds')
              λ finds'' g. trans-Grows finds finds' finds'' h.grows g)
]

-- The first step of a row is at the number behind `b`.
pick_row-Hits :
    (free : List LockerItem) (quantity b left : ℕ) (finds : List LockerItem)
    → 0 < left
    → ltb (length finds) quantity ≡ true
    → Returns (Hits (suc b) free finds) (pick_row default free quantity b left 0 finds)
unfolding pick_row formula_of
pick_row-Hits free q b zero finds l e = absurd (omega (arith, l))
pick_row-Hits free q b (suc left) finds l e =
    let k : 2 * 0 + 1 + b ≡ suc b = omega arith in
    rw (pick_row, e, k)
      (Returns-on_result (Hits (suc b) free finds) (Hits (suc b) free finds) _ _
        (pick-Hits (suc b) free finds)
        λ finds' h.
          Returns-map (Grows finds') (Hits (suc b) free finds) _
            (pick_row-Grows free q b left 1 finds')
            λ finds'' g. record {
              grows = trans-Grows finds finds' finds'' h.grows g;
              hit = λ i f. g.keeps i.id (h.hit i f);
            })

-- Enough are found, or all those of a number up to `b`.
unfoldable pub Covers : List LockerItem → ℕ → ℕ → List LockerItem → Type 0
Covers free quantity b finds =
    (quantity ≤ length finds) ⊎ All (λ i. i.locker_number ≤ b → is_found i.id finds ≡ true) free

covers_next :
    (all is finds finds' : List LockerItem) (b : ℕ)
    → All (λ i. locker_at i.locker_number all ≡ some i) is
    → Hits (suc b) all finds finds'
    → All (λ i. i.locker_number ≤ b → is_found i.id finds ≡ true) is
    → All (λ i. i.locker_number ≤ suc b → is_found i.id finds' ≡ true) is
covers_next all [] finds finds' b s h c = tt
covers_next all (i ∷ is) finds finds' b (s, ss) h (c, cs) = (
  λ l. elim (Bool-cases (i.locker_number == suc b)) [
    | inl e ↦ h.hit i (ap (λ k. locker_at k all) (sym ((==_iff _ _).0 e)) ∙ s)
    | inr e ↦ h.grows.keeps i.id (c (ground (arith, l, e)))
  ],
  covers_next all is finds finds' b ss h cs,
)

pick_row-Covers :
    (free : List LockerItem) (quantity b : ℕ) (finds : List LockerItem)
    → 0 < length free
    → All (λ i. locker_at i.locker_number free ≡ some i) free
    → Covers free quantity b finds
    → Returns
        (Covers free quantity (suc b))
        (pick_row default free quantity b (length free) 0 finds)
unfolding Covers
pick_row-Covers free q b finds l s c = elim (Bool-cases (ltb (length finds) q)) [
  | inr e ↦
      Returns-map (Grows finds) (Covers free q (suc b)) _
        (pick_row-Grows free q b (length free) 0 finds)
        λ finds' g. inl (omega (arith, ltb→le _ _ e, g.longer))
  | inl e ↦ elim c [
    | inl m ↦ absurd (omega (arith, ltb→lt _ _ e, m))
    | inr h ↦
        Returns-map (Hits (suc b) free finds) (Covers free q (suc b)) _
          (pick_row-Hits free q b (length free) finds l e)
          λ finds' g. inr (covers_next free free finds finds' b s g h)
  ]
]

pub pick_rows-Covers :
    (free : List LockerItem) (quantity left b : ℕ) (finds : List LockerItem)
    → 0 < length free
    → All (λ i. locker_at i.locker_number free ≡ some i) free
    → Covers free quantity b finds
    → Returns (Covers free quantity (b + left)) (pick_rows default free quantity left b finds)
unfolding pick_rows Covers
pick_rows-Covers free q zero b finds l s c =
    let e : b + 0 ≡ b = omega arith in rw e (Returns-ok (Covers free q b) finds c)
pick_rows-Covers free q (suc left) b finds l s c =
    let e : b + suc left ≡ suc b + left = omega arith in
    rw e (elim (Bool-cases (ltb b (length free) || ltb (length finds) q)) [
      | inr f ↦
          rw (pick_rows, f)
            (Returns-ok (Covers free q (suc b + left)) finds (inl (ground (arith, f))))
      | inl f ↦
          rw (pick_rows, f)
            (Returns-on_result (Covers free q (suc b)) (Covers free q (suc b + left)) _ _
              (pick_row-Covers free q b finds l s c)
              λ finds' c'. pick_rows-Covers free q left (suc b) finds' l s c')
    ])
