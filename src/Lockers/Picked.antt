-- ===== src/Lockers/Picked.antt =====
-- What the formula picks: different lockers of those that are free, and no more than are wanted.
use my_ng_platform.Prelude.{
  ℕ, zero, suc, ◌≤◌, ◌<◌, ◌≡◌, ◌≢◌, refl, sym, ap, ◌∙◌, false, ◌||◌, Option, none, some, List, [],
  ◌∷◌, ◌++◌, All, All-append, length, Bool-cases, Option-cases, inl, inr, arith, ltb, ltb→lt,
  ==_iff, ◌==◌,
}
use my_ng_platform.Store.{Error, Result, ok, err}
use my_ng_platform.Lockers.{LockerItem, Value, number, other, thrown, on_result}
use my_ng_platform.Lockers.Formula.{
  locker_at, is_found, max_number, pick, pick_row, pick_rows, pick_by_formula,
}
use my_ng_platform.Lockers.Distinct.{IsDistinct}

-- What holds of a result, if there is one.
unfoldable pub Yields {κ} : {A : Type 0} → (A → Type κ) → Result A → Type κ
Yields P (ok a) = P a
Yields P (err _) = Unit

pub Yields-on_result {κ μ} :
    {A B : Type 0} (P : A → Type κ) (Q : B → Type μ) (f : A → Result B) (r : Result A)
    → Yields P r
    → ((a : A) → P a → Yields Q (f a))
    → Yields Q (on_result f r)
unfolding Yields on_result
Yields-on_result P Q f (ok a) h k = k a h
Yields-on_result P Q f (err e) h k = tt

pub Yields-ok {κ} : {A : Type 0} (P : A → Type κ) (a : A) → P a → Yields P (ok a)
unfolding Yields
Yields-ok P a h = h

pub Yields-err {κ} : {A : Type 0} (P : A → Type κ) (e : Error) → Yields P (err e)
unfolding Yields
Yields-err P e = tt

abbrev Each {κ} : (LockerItem → Type κ) → Option LockerItem → Type κ
Each P none = Unit
Each P (some i) = P i

locker_at-Each {κ} :
    (P : LockerItem → Type κ) (k : ℕ) (is : List LockerItem) → All P is → Each P (locker_at k is)
unfolding locker_at
locker_at-Each P k [] h = tt
locker_at-Each P k (i ∷ is) (h, hs) = elim (Option-cases (locker_at k is)) [
  | inr (j, e) ↦ rw (locker_at, e) (rw e at (locker_at-Each P k is hs))
  | inl e ↦ elim (Bool-cases (i.locker_number == k)) [
    | inl f ↦ rw (locker_at, e, f) h
    | inr f ↦ rw (locker_at, e, f) tt
  ]
]

locker_at-number : (k : ℕ) (is : List LockerItem) → Each (λ i. i.locker_number ≡ k) (locker_at k is)
unfolding locker_at
locker_at-number k [] = tt
locker_at-number k (i ∷ is) = elim (Option-cases (locker_at k is)) [
  | inr (j, e) ↦ rw (locker_at, e) (rw e at (locker_at-number k is))
  | inl e ↦ elim (Bool-cases (i.locker_number == k)) [
    | inl f ↦ rw (locker_at, e, f) ((==_iff _ _).0 f)
    | inr f ↦ rw (locker_at, e, f) tt
  ]
]

pub record IsPicked (free : List LockerItem) (quantity : ℕ) (finds : List LockerItem) : Type 0 where
  pub chosen : All (λ i. locker_at i.locker_number free ≡ some i) finds
  pub distinct : IsDistinct finds
  pub bounded : length finds ≤ quantity

abbrev id_or : Option LockerItem → ℕ
id_or none = 0
id_or (some i) = i.id

-- A picked locker that has the number of another is that one.
other_number :
    (free : List LockerItem) (i : LockerItem) (finds : List LockerItem)
    → locker_at i.locker_number free ≡ some i
    → is_found i.id finds ≡ false
    → All (λ j. locker_at j.locker_number free ≡ some j) finds
    → All (λ j. j.locker_number ≢ i.locker_number) finds
unfolding is_found
other_number free i [] e n h = tt
other_number free i (j ∷ js) e n (h, hs) = (
  λ s.
      let same : some j ≡ some i = sym h ∙ ap (λ k. locker_at k free) s ∙ e in
      absurd (ground (arith, n, ap id_or same)),
  other_number free i js e (ground (arith, n)) hs,
)

append-IsDistinct :
    (finds : List LockerItem) (i : LockerItem)
    → IsDistinct finds
    → All (λ j. j.locker_number ≢ i.locker_number) finds
    → IsDistinct (finds ++ (i ∷ []))
unfolding IsDistinct
append-IsDistinct [] i h n = (tt, tt)
append-IsDistinct (j ∷ js) i (h, hs) (n, ns) = (
  All-append (λ k. j.locker_number ≢ k.locker_number) js (i ∷ []) h (n, tt),
  append-IsDistinct js i hs ns,
)

length-append :
    (finds : List LockerItem) (i : LockerItem) → length (finds ++ (i ∷ [])) ≡ suc (length finds)
length-append [] i = refl
length-append (j ∷ js) i = ap suc (length-append js i)

pick-IsPicked :
    (v : Value) (free finds : List LockerItem) (quantity : ℕ)
    → length finds < quantity
    → IsPicked free quantity finds
    → Yields (IsPicked free quantity) (pick v free finds)
unfolding pick
pick-IsPicked thrown free finds q l p = Yields-err (IsPicked free q) _
pick-IsPicked other free finds q l p = Yields-ok (IsPicked free q) finds p
pick-IsPicked (number k) free finds q l p = elim (Option-cases (locker_at k free)) [
  | inl e ↦ rw (pick, e) (Yields-ok (IsPicked free q) finds p)
  | inr (i, e) ↦ elim (Bool-cases (is_found i.id finds)) [
    | inl f ↦ rw (pick, e, f) (Yields-ok (IsPicked free q) finds p)
    | inr f ↦
        let at_k : i.locker_number ≡ k = rw e at (locker_at-number k free) in
        let here : locker_at i.locker_number free ≡ some i = ap (λ k. locker_at k free) at_k ∙ e in
        rw (pick, e, f)
          (Yields-ok (IsPicked free q) _ (record {
            chosen =
                All-append (λ j. locker_at j.locker_number free ≡ some j) finds (i ∷ []) p.chosen
                  (here, tt);
            distinct =
                append-IsDistinct finds i p.distinct (other_number free i finds here f p.chosen);
            bounded = rw (length-append finds i) (omega arith);
          }))
  ]
]

pick_row-IsPicked :
    (f : ℕ → ℕ → Value) (free : List LockerItem) (quantity b left n : ℕ) (finds : List LockerItem)
    → IsPicked free quantity finds
    → Yields (IsPicked free quantity) (pick_row f free quantity b left n finds)
unfolding pick_row
pick_row-IsPicked f free q b zero n finds p = Yields-ok (IsPicked free q) finds p
pick_row-IsPicked f free q b (suc left) n finds p = elim (Bool-cases (ltb (length finds) q)) [
  | inr e ↦ rw (pick_row, e) (Yields-ok (IsPicked free q) finds p)
  | inl e ↦
      rw (pick_row, e)
        (Yields-on_result (IsPicked free q) (IsPicked free q) _ _
          (pick-IsPicked (f n b) free finds q (ltb→lt _ _ e) p)
          λ finds' p'. pick_row-IsPicked f free q b left (suc n) finds' p')
]

pick_rows-IsPicked :
    (f : ℕ → ℕ → Value) (free : List LockerItem) (quantity left b : ℕ) (finds : List LockerItem)
    → IsPicked free quantity finds
    → Yields (IsPicked free quantity) (pick_rows f free quantity left b finds)
unfolding pick_rows
pick_rows-IsPicked f free q zero b finds p = Yields-ok (IsPicked free q) finds p
pick_rows-IsPicked f free q (suc left) b finds p =
    elim (Bool-cases (ltb b (length free) || ltb (length finds) q)) [
      | inr e ↦ rw (pick_rows, e) (Yields-ok (IsPicked free q) finds p)
      | inl e ↦
          rw (pick_rows, e)
            (Yields-on_result (IsPicked free q) (IsPicked free q) _ _
              (pick_row-IsPicked f free q b (length free) 0 finds p)
              λ finds' p'. pick_rows-IsPicked f free q left (suc b) finds' p')
    ]

-- Whatever the formula is, the lockers that it picks are different ones of the free lockers, and
-- no more than are wanted.
pub pick_by_formula-IsPicked :
    (f : ℕ → ℕ → Value) (quantity : ℕ) (free : List LockerItem)
    → Yields (IsPicked free quantity) (pick_by_formula f quantity free)
unfolding pick_by_formula IsDistinct
pick_by_formula-IsPicked f q free =
    pick_rows-IsPicked f free q (max_number free) 0 []
      (record { chosen = tt; distinct = tt; bounded = omega arith })

-- What holds of every free locker holds of those that are picked.
pub IsPicked-All {κ} :
    (P : LockerItem → Type κ) (free : List LockerItem) (quantity : ℕ) (finds : List LockerItem)
    → All P free
    → All (λ i. locker_at i.locker_number free ≡ some i) finds
    → All P finds
IsPicked-All P free q [] h c = tt
IsPicked-All P free q (i ∷ is) h (c, cs) =
    (rw c at (locker_at-Each P i.locker_number free h), IsPicked-All P free q is h cs)
