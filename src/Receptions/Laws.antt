-- ===== src/Receptions/Laws.antt =====
-- A reception is left once, when it is settled, and may be entered again.
use my_ng_platform.Prelude.{
  ℕ, ℤ, pos, ◌-ℤ◌, eqb_ℤ, int_laws, arith, ◌≡◌, refl, sym, ap, ◌∙◌, Bool, true, false, not, Option,
  none, some, List, [], ◌∷◌, Bool-cases, inl, inr, ◌==◌, if◌then◌else◌, ltb, ltb→lt, ◌≤◌, ◌<◌, ◌≢◌,
  ◌⊎◌,
}
use my_ng_platform.Clock.{Clock, day_of}
use my_ng_platform.Amounts.{final_amount, order_balance}
use my_ng_platform.Charging.{find_order}
use my_ng_platform.Entities.{SaleOrder}
use my_ng_platform.Store.{
  Db, Error, ok, err, throw, modify, pure, ◌>>◌, continue_with, roll_back, throw_if, or_throw,
}
use my_ng_platform.Wallet.Contract.{
  Ensures, Ensures-continue, Ensures-pure, Ensures-err, Ensures-map, Any, Ensures-Any, Outcome,
  roll_back-Outcome,
}
use my_ng_platform.Wallet.Providers.{TransactionItem}
use my_ng_platform.Wallet.Requests.{Env, SubmitAt}
use my_ng_platform.Wallet.SettleOrder.{Sale}
use my_ng_platform.Receptions.{
  is_open, sum_amounts, is_balanced, read_end, settle_rest, set_end, or_now, do_logout, with_end,
  logout, back_to_login,
}

abbrev pub Each : (SaleOrder → Type 0) → Option SaleOrder → Type 0
Each P none = Unit
Each P (some o) = P o

find_order-set_end :
    (id : ℕ) (end_at : Option ℕ) (settled : ℤ) (os : List SaleOrder)
    → find_order id (set_end id end_at settled os) ≡ elim (find_order id os) [
      | none ↦ none
      | some o ↦ some (record o { end_at = end_at; settle_amount = settled })
    ]
unfolding find_order set_end
find_order-set_end id end_at settled [] = refl
find_order-set_end id end_at settled (o ∷ os) = elim (Bool-cases (o.id == id)) [
  | inl e ↦ rw (e, e) refl
  | inr e ↦ rw (e, e) (find_order-set_end id end_at settled os)
]

set_end-Each :
    (id t : ℕ) (settled : ℤ) (os : List SaleOrder)
    → Each
        (λ o. (o.end_at ≡ some t) × (o.settle_amount ≡ settled))
        (find_order id (set_end id (some t) settled os))
unfolding find_order set_end
set_end-Each id t settled [] = tt
set_end-Each id t settled (o ∷ os) = elim (Bool-cases (o.id == id)) [
  | inl e ↦ rw (e, e) (refl, refl)
  | inr e ↦ rw (e, e) (set_end-Each id t settled os)
]

-- The end that a request asks for, or the present.
abbrev pub IsAsked : ℕ → SubmitAt → ℕ → Type 0
IsAsked now SubmitAt.absent t = t ≡ now
IsAsked now SubmitAt.invalid t = ⊥
IsAsked now (SubmitAt.parsed t') t = t ≡ t'

-- A reception of an earlier day ends when it is asked to, another one at present.
abbrev pub EndsAt : Clock → SaleOrder → SubmitAt → ℕ → Type 0
EndsAt c o asked t =
    ((day_of c c.now ≤ day_of c o.submit_at) × (t ≡ c.now))
    ⊎ ((day_of c o.submit_at < day_of c c.now) × IsAsked c.now asked t)

-- Nothing is left to pay, or the request has payments.
abbrev pub IsPaidBy : SaleOrder → List TransactionItem → Type 0
IsPaidBy o dtos = (eqb_ℤ (order_balance o) (pos 0) ≡ true) ⊎ (dtos ≢ [])

-- What a reception that was left was and is: it was open and its own amount was settled, what was left
-- to pay had payments, and it has its end and counts as settled by its final amount.
pub record IsLeft (env : Env) (id : ℕ) (dtos : List TransactionItem) (asked : SubmitAt) (b b' : Db)
    : Type 0 where
  pub order : SaleOrder
  pub found : find_order id b.orders ≡ some order
  pub opened : order.end_at ≡ none
  pub settled : eqb_ℤ order.total_amount order.settle_amount ≡ true
  pub paid : IsPaidBy order dtos
  pub time : ℕ
  pub ends : EndsAt env.clock order asked time
  pub closed :
      Each
        (λ o. (o.end_at ≡ some time) × (o.settle_amount ≡ final_amount order))
        (find_order order.id b'.orders)

read_end-EndsAt :
    (env : Env) (o : SaleOrder) (asked : SubmitAt) (b : Db)
    → Ensures
        (λ t b'. (b' ≡ b) × EndsAt env.clock o asked (or_now env.clock.now t))
        (read_end env o asked b)
unfolding read_end
read_end-EndsAt env o asked b =
    elim (Bool-cases (ltb (day_of env.clock o.submit_at) (day_of env.clock env.clock.now))) [
      | inl e ↦ rw e (asked_for asked (ltb→lt _ _ e))
      | inr e ↦ rw e (
          Ensures-pure (λ t b'. (b' ≡ b) × EndsAt env.clock o asked (or_now env.clock.now t)) none b
            (refl, inl (ground (arith, e), refl)))
    ]
  where
    asked_for :
        (asked : SubmitAt)
        → day_of env.clock o.submit_at < day_of env.clock env.clock.now
        → Ensures
            (λ t b'. (b' ≡ b) × EndsAt env.clock o asked (or_now env.clock.now t))
            (elim asked [
              | SubmitAt.absent ↦ (ok none, b)
              | SubmitAt.invalid ↦ (err Error.invalid_end_time, b)
              | SubmitAt.parsed t ↦ (ok (some t), b)
            ])
    asked_for SubmitAt.absent l = Ensures-pure _ none b (refl, inr (l, refl))
    asked_for SubmitAt.invalid l = Ensures-err _ _ b
    asked_for (SubmitAt.parsed t) l = Ensures-pure _ (some t) b (refl, inr (l, refl))

settle_rest-IsPaidBy :
    (env : Env) (sale : Sale) (dtos : List TransactionItem) (o : SaleOrder) (b : Db)
    → Ensures (λ _ _. IsPaidBy o dtos) (settle_rest env sale dtos o b)
unfolding settle_rest
settle_rest-IsPaidBy env sale [] o b = go (eqb_ℤ (order_balance o) (pos 0)) refl
  where
    go :
        (c : Bool)
        → eqb_ℤ (order_balance o) (pos 0) ≡ c
        → Ensures (λ _ _. IsPaidBy o []) ((if c then pure tt else throw Error.first_settle) b)
    go true e = Ensures-pure (λ _ _. IsPaidBy o []) tt b (inl e)
    go false e = Ensures-err (λ _ _. IsPaidBy o []) Error.first_settle b
settle_rest-IsPaidBy env sale (d ∷ ds) o b =
    Ensures-map Any (λ _ _. IsPaidBy o (d ∷ ds)) _ (Ensures-Any (settle_rest env sale (d ∷ ds) o b))
      λ _ _ _. inr cc

throw_if-holds :
    (e : Error) (c : Bool) (b : Db) → Ensures (λ _ b'. (b' ≡ b) × (c ≡ true)) (throw_if e (not c) b)
throw_if-holds e true b = Ensures-pure _ tt b (refl, refl)
throw_if-holds e false b = Ensures-err _ e b

do_logout-IsLeft :
    (env : Env) (sale : Sale) (id : ℕ) (o : SaleOrder) (dtos : List TransactionItem)
    (asked : SubmitAt) (b : Db)
    → find_order id b.orders ≡ some o
    → o.end_at ≡ none
    → Ensures (λ _ b'. IsLeft env id dtos asked b b') (do_logout env sale o dtos asked b)
unfolding do_logout
do_logout-IsLeft env sale id o dtos asked b e f =
    Ensures-continue Timed (λ _ b'. IsLeft env id dtos asked b b') _ _
      (Ensures-continue IsSettled Timed _ _
        (Ensures-continue IsSettled IsSettled _ _ (throw_if-holds _ _ b)
          λ _ b1 p. rw p.0 (Ensures-map _ IsSettled _ (throw_if-holds _ _ b) λ _ b2 q. (q.0, p.1)))
        λ _ b1 p.
          rw p.0
            (Ensures-map _ Timed _ (read_end-EndsAt env o asked b) λ _ b2 q. (q.0, (p.1, q.1))))
      λ time b1 p. rw p.0 (
        Ensures-continue (λ _ _. IsPaidBy o dtos) (λ _ b'. IsLeft env id dtos asked b b') _ _
          (settle_rest-IsPaidBy env sale dtos o b)
          λ _ b2 paid. Ensures-pure _ tt _ (record {
            order = o;
            found = e;
            opened = f;
            settled = p.1.0;
            paid = paid;
            time = or_now env.clock.now time;
            ends = p.1.1;
            closed = set_end-Each o.id (or_now env.clock.now time) (final_amount o) b2.orders;
          }))
  where
    IsSettled : {A : Type 0} → A → Db → Type 0
    IsSettled a b' = (b' ≡ b) × (eqb_ℤ o.total_amount o.settle_amount ≡ true)

    Timed : Option ℕ → Db → Type 0
    Timed t b' =
        (b' ≡ b)
        × ((eqb_ℤ o.total_amount o.settle_amount ≡ true)
            × EndsAt env.clock o asked (or_now env.clock.now t))

none_left : (e : Option ℕ) → (elim e [ none ↦ true | some _ ↦ false ]) ≡ true → e ≡ none
none_left none h = refl
none_left (some t) h = cc

opened_only :
    (x : Option SaleOrder) (b : Db)
    → Ensures
        (λ o b'. (b' ≡ b) × ((x ≡ some o) × (o.end_at ≡ none)))
        (or_throw Error.reception_not_found (with_end true x) b)
opened_only none b = Ensures-err _ _ b
opened_only (some o) b = go (is_open o) refl
  where
    go :
        (c : Bool)
        → is_open o ≡ c
        → Ensures
            (λ o' b'. (b' ≡ b) × ((some o ≡ some o') × (o'.end_at ≡ none)))
            (or_throw Error.reception_not_found (if c then some o else none) b)
    go true e = Ensures-pure _ o b (refl, (refl, none_left o.end_at e))
    go false e = Ensures-err _ _ b

-- A reception that is left was open, its own amount was settled, and the request has payments if
-- something was left to pay. It counts as settled by its final amount, and has its end: the present,
-- or the one that is asked for, if it is given and the reception is of an earlier day. A refused
-- request changes nothing.
pub logout-IsLeft :
    (env : Env) (sale : Sale) (id : ℕ) (dtos : List TransactionItem) (asked : SubmitAt) (b : Db)
    → Outcome (λ _ b'. IsLeft env id dtos asked b b') b (logout env sale id dtos asked b)
unfolding logout
logout-IsLeft env sale id dtos asked b = roll_back-Outcome Left b _ (
    Ensures-continue (λ o b'. (b' ≡ b) × ((find_order id b.orders ≡ some o) × (o.end_at ≡ none)))
      Left _ _ (opened_only (find_order id b.orders) b)
      λ o b1 p. rw p.0 (
        Ensures-continue Left Left _ _ (do_logout-IsLeft env sale id o dtos asked b p.1.0 p.1.1)
          λ _ b' h. Ensures-pure _ true b' h))
  where
    Left : {A : Type 0} → A → Db → Type 0
    Left _ b' = IsLeft env id dtos asked b b'

find_order-id :
    (id : ℕ) (os : List SaleOrder) (o : SaleOrder) → find_order id os ≡ some o → o.id ≡ id
unfolding find_order
find_order-id id [] o h = cc
find_order-id id (p ∷ ps) o h = grind (arith, find_order-id id ps o)

-- A way out and in again: both requests are granted, and the reception is found as it was.
pub record Reenters (env : Env) (sale : Sale) (id : ℕ) (dtos : List TransactionItem) (o : SaleOrder)
    (b : Db) : Type 0 where
  pub left : (logout env sale id dtos SubmitAt.absent b).0 ≡ ok true
  pub back : (back_to_login id (logout env sale id dtos SubmitAt.absent b).1).0 ≡ ok true
  pub same :
      find_order id (back_to_login id (logout env sale id dtos SubmitAt.absent b).1).1.orders
      ≡ some o

read_end-absent :
    (env : Env) (o : SaleOrder) (b : Db) → read_end env o SubmitAt.absent b ≡ (ok none, b)
unfolding read_end
read_end-absent env o b = ground arith

abbrev ended : ℕ → SaleOrder → Db → Db
ended now o b = record b { orders = set_end o.id (some now) (final_amount o) b.orders }

logout-granted :
    (env : Env) (sale : Sale) (id : ℕ) (dtos : List TransactionItem) (o : SaleOrder) (b : Db)
    → find_order id b.orders ≡ some o
    → o.end_at ≡ none
    → eqb_ℤ o.total_amount o.settle_amount ≡ true
    → is_balanced (sum_amounts o.id (pos 0, pos 0) b.orders) ≡ true
    → order_balance o ≡ pos 0
    → logout env sale id dtos SubmitAt.absent b ≡ (ok true, ended env.clock.now o b)
unfolding logout do_logout settle_rest continue_with roll_back
logout-granted env sale id dtos o b f n t s z =
    ap
      (λ r.
        roll_back b (continue_with (λ o. do_logout env sale o dtos SubmitAt.absent >> pure true) r))
      found
    ∙ ap (λ r. roll_back b (continue_with (λ _. pure true) r)) left
  where
    found :
        or_throw Error.reception_not_found (with_end true (find_order id b.orders)) b ≡ (ok o, b)
    found =
        ap (λ x. or_throw Error.reception_not_found (with_end true x) b) f
        ∙ ap
            (λ e.
              or_throw Error.reception_not_found
                (if elim e [ none ↦ true | some _ ↦ false ] then some o else none) b)
            n

    left : do_logout env sale o dtos SubmitAt.absent b ≡ (ok tt, ended env.clock.now o b)
    left = rw (t, s, read_end-absent env o b, z) refl

final_amount-settled : (o : SaleOrder) → order_balance o ≡ pos 0 → final_amount o ≡ o.settle_amount
unfolding order_balance
final_amount-settled o z = even (final_amount o) o.settle_amount z
  where
    even : (a c : ℤ) → a -ℤ c ≡ pos 0 → a ≡ c
    even a c h = grind (int_laws, h)

back_to_login-granted :
    (id : ℕ) (o : SaleOrder) (now : ℕ) (b : Db)
    → find_order id b.orders ≡ some o
    → order_balance o ≡ pos 0
    → o.end_at ≡ none
    → (let b' = record b { orders = set_end id none (final_amount o) (ended now o b).orders } in
        (back_to_login id (ended now o b) ≡ (ok true, b')) × (find_order id b'.orders ≡ some o))
unfolding back_to_login continue_with roll_back
back_to_login-granted id o now b f z n = (
  ap
      (λ x. roll_back (ended now o b) (
        continue_with
          (λ o.
            modify (λ b. record b { orders = set_end id none o.settle_amount b.orders })
            >> pure true)
          (or_throw Error.reception_not_found (with_end false x) (ended now o b))))
      seen,
  find_order-set_end id none (final_amount o) (ended now o b).orders
      ∙ ap (set_of none) seen
      ∙ ap (λ e. some (record o { end_at = e; settle_amount = final_amount o })) (sym n)
      ∙ ap (λ a. some (record o { settle_amount = a })) (final_amount-settled o z),
)
  where
    set_of : Option ℕ → Option SaleOrder → Option SaleOrder
    set_of e x = elim x [
      | none ↦ none
      | some p ↦ some (record p { end_at = e; settle_amount = final_amount o })
    ]

    seen :
        find_order id (ended now o b).orders
        ≡ some (record o { end_at = some now; settle_amount = final_amount o })
    seen =
        ap (λ i. find_order id (set_end i (some now) (final_amount o) b.orders))
          (find_order-id id b.orders o f)
        ∙ find_order-set_end id (some now) (final_amount o) b.orders
        ∙ ap (set_of (some now)) f

-- An open reception whose amount and whose orders are settled, and that has nothing left to pay, may
-- be left and entered again, and is then as it was.
pub back_to_login-logout :
    (env : Env) (sale : Sale) (id : ℕ) (dtos : List TransactionItem) (o : SaleOrder) (b : Db)
    → find_order id b.orders ≡ some o
    → o.end_at ≡ none
    → eqb_ℤ o.total_amount o.settle_amount ≡ true
    → is_balanced (sum_amounts o.id (pos 0, pos 0) b.orders) ≡ true
    → order_balance o ≡ pos 0
    → Reenters env sale id dtos o b
back_to_login-logout env sale id dtos o b f n t s z =
    let way_out = logout-granted env sale id dtos o b f n t s z in
    let way_in = back_to_login-granted id o env.clock.now b f z n in
    record {
      left = ap (λ r. r.0) way_out;
      back = rw way_out (ap (λ r. r.0) way_in.0);
      same = rw way_out (ap (λ r. find_order id r.1.orders) way_in.0 ∙ way_in.1);
    }
