-- ===== src/Lockers/Gives.antt =====
-- With the default formula enough free lockers are found whenever there are enough.
use my_ng_platform.Prelude.{
  ℕ, suc, ◌+◌, ◌≤◌, ◌<◌, ◌≡◌, ◌≢◌, refl, ap, true, false, none, some, List, [], ◌∷◌, All, All-map,
  length, Bool-cases, inl, inr, arith, ltb, ltb→lt, ltb→le, ◌==◌, if◌then◌else◌,
}
use my_ng_platform.Store.{Result, ok, err}
use my_ng_platform.Lockers.{LockerItem, AutoAssignPolicy}
use my_ng_platform.Lockers.Formula.{formula_of, locker_at, is_found, max_number, pick_by_formula}
use my_ng_platform.Lockers.Distinct.{IsDistinct}
use my_ng_platform.Lockers.Picked.{IsPicked, Yields, pick_by_formula-IsPicked}
use my_ng_platform.Lockers.Reach.{Returns, Returns-map, Covers, default, pick_rows-Covers}

-- Lockers with different ids.
unfoldable pub HasIds : List LockerItem → Type 0
HasIds [] = Unit
HasIds (i ∷ is) = All (λ j. i.id ≢ j.id) is × HasIds is

unnumbered :
    (k : ℕ) (is : List LockerItem) → All (λ j. k ≢ j.locker_number) is → locker_at k is ≡ none
unfolding locker_at
unnumbered k [] h = refl
unnumbered k (i ∷ is) (h, hs) =
    let other : (i.locker_number == k) ≡ false = ground (arith, h) in rw (unnumbered k is hs, other)

-- Of lockers with different numbers each is the one at its number.
at_own_number :
    (is : List LockerItem) → IsDistinct is → All (λ i. locker_at i.locker_number is ≡ some i) is
unfolding IsDistinct locker_at
at_own_number [] d = tt
at_own_number (i ∷ is) (d, ds) =
    let same : (i.locker_number == i.locker_number) ≡ true = ground arith in
    (
      rw (unnumbered i.locker_number is d, same),
      All-map (λ j. locker_at j.locker_number is ≡ some j)
          (λ j. locker_at j.locker_number (i ∷ is) ≡ some j) is (λ j e. rw (locker_at, e) refl)
          (at_own_number is ds),
    )

max_number-grows :
    (i : LockerItem) (is : List LockerItem)
    → (i.locker_number ≤ max_number (i ∷ is)) × (max_number is ≤ max_number (i ∷ is))
unfolding max_number
max_number-grows i is = elim (Bool-cases (ltb (max_number is) i.locker_number)) [
  | inl e ↦ rw e (omega arith, omega (arith, ltb→lt _ _ e))
  | inr e ↦ rw e (ltb→le _ _ e, omega arith)
]

max_number-All : (is : List LockerItem) → All (λ i. i.locker_number ≤ max_number is) is
max_number-All [] = tt
max_number-All (i ∷ is) =
    let (h, k) = max_number-grows i is in
    (
      h,
      All-map (λ j. j.locker_number ≤ max_number is) (λ j. j.locker_number ≤ max_number (i ∷ is)) is
          (λ j l. omega (arith, k)) (max_number-All is),
    )

-- One locker of the id taken out.
without : ℕ → List LockerItem → List LockerItem
without id [] = []
without id (j ∷ js) = if j.id == id then js else j ∷ without id js

length-without :
    (id : ℕ) (js : List LockerItem)
    → is_found id js ≡ true
    → length js ≡ suc (length (without id js))
unfolding without is_found
length-without id [] h = absurd (ground (arith, h))
length-without id (j ∷ js) h = elim (Bool-cases (j.id == id)) [
  | inl e ↦ rw e refl
  | inr e ↦ rw e (ap suc (length-without id js (ground (arith, h, e))))
]

found-without :
    (id k : ℕ) (js : List LockerItem)
    → id ≢ k
    → is_found k js ≡ true
    → is_found k (without id js) ≡ true
unfolding without is_found
found-without id k [] n h = h
found-without id k (j ∷ js) n h = elim (Bool-cases (j.id == id)) [
  | inl e ↦ rw e (ground (arith, h, e, n))
  | inr e ↦ rw e (elim (Bool-cases (j.id == k)) [
    | inl g ↦ rw g refl
    | inr g ↦ rw g (found-without id k js n (ground (arith, h, g)))
  ])
]

-- As many lockers as there are different ids among them.
pigeonhole :
    (is js : List LockerItem)
    → HasIds is
    → All (λ i. is_found i.id js ≡ true) is
    → length is ≤ length js
unfolding HasIds
pigeonhole [] js d h = omega arith
pigeonhole (i ∷ is) js (d, ds) (h, hs) =
    let rest = pigeonhole is (without i.id js) ds (all_without is d hs) in
    omega (arith, length-without i.id js h, rest)
  where
    all_without :
        (ks : List LockerItem)
        → All (λ k. i.id ≢ k.id) ks
        → All (λ k. is_found k.id js ≡ true) ks
        → All (λ k. is_found k.id (without i.id js) ≡ true) ks
    all_without [] n f = tt
    all_without (k ∷ ks) (n, ns) (f, fs) = (found-without i.id k.id js n f, all_without ks ns fs)

every_found :
    (max : ℕ) (is finds : List LockerItem)
    → All (λ i. i.locker_number ≤ max) is
    → All (λ i. i.locker_number ≤ max → is_found i.id finds ≡ true) is
    → All (λ i. is_found i.id finds ≡ true) is
every_found max [] finds l c = tt
every_found max (i ∷ is) finds (l, ls) (c, cs) = (c l, every_found max is finds ls cs)

enough_by_default :
    (free : List LockerItem) (quantity : ℕ)
    → 0 < length free
    → quantity ≤ length free
    → IsDistinct free
    → HasIds free
    → All (λ i. 0 < i.locker_number) free
    → Returns (λ finds. quantity ≤ length finds) (pick_by_formula default quantity free)
unfolding pick_by_formula Covers
enough_by_default free q l le d ids pos =
    Returns-map (Covers free q (0 + max_number free)) (λ finds. q ≤ length finds) _
      (pick_rows-Covers free q (max_number free) 0 [] l (at_own_number free d)
        (inr (none_yet free pos)))
      λ finds c. elim c [
        | inl h ↦ h
        | inr h ↦
            let top : 0 + max_number free ≡ max_number free = omega arith in
            omega (
              arith,
              pigeonhole free finds ids
                  (every_found (max_number free) free finds (max_number-All free) (rw top at h)),
              le,
            )
      ]
  where
    none_yet :
        (is : List LockerItem)
        → All (λ i. 0 < i.locker_number) is
        → All (λ i. i.locker_number ≤ 0 → is_found i.id [] ≡ true) is
    none_yet [] h = tt
    none_yet (i ∷ is) (h, hs) = (λ l. absurd (omega (arith, h, l)), none_yet is hs)

both :
    {A : Type 0} (P Q R : A → Type 0) (r : Result A)
    → Returns P r
    → Yields Q r
    → ((a : A) → P a → Q a → R a)
    → Returns R r
unfolding Returns Yields
both P Q R (ok a) h k f = f a h k
both P Q R (err e) h k f = absurd h

-- With the default formula, of free lockers with different ids and different positive numbers,
-- exactly as many are picked as are wanted, whenever there are as many.
pub pick_by_formula-length :
    (free : List LockerItem) (quantity : ℕ)
    → 0 < length free
    → quantity ≤ length free
    → IsDistinct free
    → HasIds free
    → All (λ i. 0 < i.locker_number) free
    → Returns
        (λ finds. length finds ≡ quantity)
        (pick_by_formula (formula_of AutoAssignPolicy.unset) quantity free)
pick_by_formula-length free q l le d ids pos =
    both (λ finds. q ≤ length finds) (IsPicked free q) (λ finds. length finds ≡ q) _
      (enough_by_default free q l le d ids pos)
      (pick_by_formula-IsPicked (formula_of AutoAssignPolicy.unset) q free)
      λ finds h p. omega (arith, h, p.bounded)
