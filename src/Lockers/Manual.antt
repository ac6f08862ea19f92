-- ===== src/Lockers/Manual.antt =====
-- The assignment of lockers by hand.
use my_ng_platform.Prelude.{
  ℕ, ◌≡◌, refl, ap, ◌∙◌, false, Option, none, some, List, [], ◌∷◌, ◌++◌, Bool-cases, Option-cases,
  inl, inr, ==_iff, ◌==◌, if◌then◌else◌, All,
}
use my_ng_platform.Charging.{contains}
use my_ng_platform.Entities.{ReceptionLocker}
use my_ng_platform.Lockers.Assign.{
  find_locker, asked_lockers, removed_lockers, or_empty, assign_manual,
}

-- The numbers of the rows that are not removed.
unfoldable pub held_numbers : List ReceptionLocker → List ℕ
held_numbers [] = []
held_numbers (r ∷ rs) = if r.deleted then held_numbers rs else r.locker ∷ held_numbers rs

held_numbers-removed :
    (ks : List ℕ) (olds rest : List ReceptionLocker)
    → held_numbers (removed_lockers ks olds ++ rest) ≡ held_numbers rest
unfolding held_numbers removed_lockers
held_numbers-removed ks [] rest = refl
held_numbers-removed ks (r ∷ rs) rest = elim (Bool-cases (contains r.locker ks)) [
  | inl e ↦ rw e (held_numbers-removed ks rs rest)
  | inr e ↦ rw e (held_numbers-removed ks rs rest)
]

abbrev Each : (ReceptionLocker → Type 0) → Option ReceptionLocker → Type 0
Each P none = Unit
Each P (some r) = P r

find_locker-Each :
    (k : ℕ) (olds : List ReceptionLocker)
    → All (λ r. r.deleted ≡ false) olds
    → Each (λ r. (r.locker ≡ k) × (r.deleted ≡ false)) (find_locker k olds)
unfolding find_locker
find_locker-Each k [] h = tt
find_locker-Each k (r ∷ rs) (h, hs) = elim (Bool-cases (r.locker == k)) [
  | inl e ↦ rw e ((==_iff _ _).0 e, h)
  | inr e ↦ rw e (find_locker-Each k rs hs)
]

held_numbers-asked :
    (olds : List ReceptionLocker) (ks : List ℕ)
    → All (λ r. r.deleted ≡ false) olds
    → held_numbers (asked_lockers olds ks) ≡ ks
unfolding held_numbers asked_lockers
held_numbers-asked olds [] h = refl
held_numbers-asked olds (k ∷ ks) h = elim (Option-cases (find_locker k olds)) [
  | inl e ↦ rw e (ap (λ js. k ∷ js) (held_numbers-asked olds ks h))
  | inr (r, e) ↦
      let (number, live) = rw e at (find_locker-Each k olds h) in
      rw (e, live, number) (ap (λ js. k ∷ js) (held_numbers-asked olds ks h))
]

-- Where lockers are asked for by hand, the rows that are left hold the numbers that are asked for,
-- in their order, whatever live rows the reception had.
pub held_numbers-assign_manual :
    (olds : Option (List ReceptionLocker)) (k : ℕ) (ks : List ℕ)
    → All (λ r. r.deleted ≡ false) (or_empty olds)
    → held_numbers (assign_manual olds (k ∷ ks)) ≡ k ∷ ks
unfolding assign_manual
held_numbers-assign_manual olds k ks h =
    held_numbers-removed (k ∷ ks) (or_empty olds) (asked_lockers (or_empty olds) (k ∷ ks))
    ∙ held_numbers-asked (or_empty olds) (k ∷ ks) h
