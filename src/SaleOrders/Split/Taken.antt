-- ===== src/SaleOrders/Split/Taken.antt =====
-- What one order takes of the payments.
use my_ng_platform.Prelude.{
  ◌≡◌, refl, ◌∙◌, ◌⊎◌, inl, inr, ℤ, pos, ◌+ℤ◌, ◌-ℤ◌, ◌≤ℤ◌, int_laws, arith, ltb_ℤ, eqb_ℤ, ◌||◌,
  true, false, Option, none, some, List, [], ◌∷◌, All, Bool-cases, Bool, ltb→lt, ltb→le,
}
use my_ng_platform.Wallet.Providers.{TransactionItem}
use my_ng_platform.SaleOrders.Split.{Part, Shares, take_part, take_parts, prepend}

abbrev pub amounts : List TransactionItem → ℤ
amounts [] = pos 0
amounts (t ∷ ts) = t.amount +ℤ amounts ts

abbrev pub taken_amount : Option TransactionItem → ℤ
taken_amount none = pos 0
taken_amount (some t) = t.amount

abbrev pub NonNegative : TransactionItem → Type 0
NonNegative t = pos 0 ≤ℤ t.amount

abbrev pub IsSpent : TransactionItem → Type 0
IsSpent t = t.amount ≡ pos 0

-- One round: nothing is lost, the order takes no more than it wants, and only what is left over of
-- a payment of which the order wanted less.
record IsPart (due : ℤ) (t : TransactionItem) (p : Part) : Type 0 where
  wants : taken_amount p.taken +ℤ p.due ≡ due
  parts : taken_amount p.taken +ℤ p.left.amount ≡ t.amount
  due_pos : pos 0 ≤ℤ p.due
  taken_pos : pos 0 ≤ℤ taken_amount p.taken
  left_pos : pos 0 ≤ℤ p.left.amount
  ends : (p.due ≡ pos 0) ⊎ (p.left.amount ≡ pos 0)

zero_of : (a : ℤ) → eqb_ℤ a (pos 0) ≡ true → a ≡ pos 0
zero_of a h = ground (arith, h)

or_cases : (a b : Bool) → (a || b) ≡ true → (a ≡ true) ⊎ (b ≡ true)
or_cases true b h = inl refl
or_cases false b h = inr h

take_part-IsPart :
    (due : ℤ) (t : TransactionItem) → pos 0 ≤ℤ due → NonNegative t → IsPart due t (take_part due t)
unfolding take_part
take_part-IsPart due t h k = elim (Bool-cases (eqb_ℤ due (pos 0) || eqb_ℤ t.amount (pos 0))) [
  | inl e ↦ rw e (record {
    wants = grind int_laws;
    parts = grind int_laws;
    due_pos = h;
    taken_pos = omega arith;
    left_pos = k;
    ends = elim (or_cases _ _ e) [ inl z ↦ inl (zero_of due z) | inr z ↦ inr (zero_of t.amount z) ];
  })
  | inr e ↦ elim (Bool-cases (ltb_ℤ (pos 0) (due -ℤ t.amount))) [
    | inl f ↦
        rw (e, f)
          (record {
            wants = grind int_laws;
            parts = grind int_laws;
            due_pos = ground (arith, f);
            taken_pos = k;
            left_pos = omega arith;
            ends = inr refl;
          })
    | inr f ↦ elim (Bool-cases (ltb_ℤ (due -ℤ t.amount) (pos 0))) [
      | inl g ↦
          rw (e, f, g)
            (record {
              wants = grind int_laws;
              parts = grind int_laws;
              due_pos = omega arith;
              taken_pos = h;
              left_pos = grind (int_laws, ltb→lt _ _ g);
              ends = inl refl;
            })
      | inr g ↦
          rw (e, f, g)
            (record {
              wants = grind (int_laws, ltb→le _ _ f, ltb→le _ _ g);
              parts = grind int_laws;
              due_pos = omega arith;
              taken_pos = k;
              left_pos = omega arith;
              ends = inl refl;
            })
    ]
  ]
]

-- What an order takes of all payments, and what is left of them.
pub record AreShares (due : ℤ) (ts : List TransactionItem) (s : Shares) : Type 0 where
  pub wants : amounts s.taken +ℤ s.due ≡ due
  pub parts : amounts s.taken +ℤ amounts s.left ≡ amounts ts
  pub due_pos : pos 0 ≤ℤ s.due
  pub taken_pos : pos 0 ≤ℤ amounts s.taken
  pub left_pos : All NonNegative s.left
  pub ends : (s.due ≡ pos 0) ⊎ All IsSpent s.left

amounts-prepend :
    (o : Option TransactionItem) (ts : List TransactionItem)
    → amounts (prepend o ts) ≡ taken_amount o +ℤ amounts ts
amounts-prepend none ts = grind int_laws
amounts-prepend (some t) ts = refl

wants_nothing : (a d : ℤ) → a +ℤ d ≡ pos 0 → pos 0 ≤ℤ a → pos 0 ≤ℤ d → d ≡ pos 0
wants_nothing a d e h k = grind (int_laws, e)

pub sums_up : (x y z w v u : ℤ) → x +ℤ z ≡ v → y +ℤ w ≡ u → x +ℤ y +ℤ (z +ℤ w) ≡ v +ℤ u
sums_up x y z w v u e f = grind (int_laws, e, f)

-- An order that wants nothing stays so.
ends_both :
    (due : ℤ) (t : TransactionItem) (ts : List TransactionItem) (p : Part)
    → IsPart due t p
    → AreShares p.due ts (take_parts p.due ts)
    → ((take_parts p.due ts).due ≡ pos 0) ⊎ All IsSpent (p.left ∷ (take_parts p.due ts).left)
ends_both due t ts p i r = elim r.ends [
  | inl z ↦ inl z
  | inr zs ↦ elim i.ends [
    | inr z ↦ inr (z, zs)
    | inl z ↦ inl (wants_nothing _ _ (r.wants ∙ z) r.taken_pos r.due_pos)
  ]
]

pub take_parts-AreShares :
    (due : ℤ) (ts : List TransactionItem)
    → pos 0 ≤ℤ due
    → All NonNegative ts
    → AreShares due ts (take_parts due ts)
unfolding take_parts
take_parts-AreShares due [] h k = record {
  wants = grind int_laws;
  parts = grind int_laws;
  due_pos = h;
  taken_pos = omega arith;
  left_pos = tt;
  ends = inr tt;
}
take_parts-AreShares due (t ∷ ts) h (k, ks) =
    let p = take_part due t in
    let i = take_part-IsPart due t h k in
    let r = take_parts-AreShares p.due ts i.due_pos ks in
    record {
      wants =
          rw (amounts-prepend p.taken (take_parts p.due ts).taken)
            (grind (int_laws, i.wants, r.wants));
      parts =
          rw (amounts-prepend p.taken (take_parts p.due ts).taken)
            (sums_up _ _ _ _ _ _ i.parts r.parts);
      due_pos = r.due_pos;
      taken_pos =
          rw (amounts-prepend p.taken (take_parts p.due ts).taken)
            (grind (int_laws, i.taken_pos, r.taken_pos));
      left_pos = (i.left_pos, r.left_pos);
      ends = ends_both due t ts p i r;
    }
