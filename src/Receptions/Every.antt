-- ===== src/Receptions/Every.antt =====
-- All receptions are left at once.
use my_ng_platform.Prelude.{
  ◌≡◌, refl, ap, ◌∙◌, pos, eqb_ℤ, Bool, true, false, List, [], ◌∷◌, All, Bool-cases, inl, inr,
  if◌then◌else◌,
}
use my_ng_platform.Amounts.{order_balance}
use my_ng_platform.Entities.{SaleOrder}
use my_ng_platform.Store.{Db, Result, ok, err, pure, bind-ok, roll_back, continue_with}
use my_ng_platform.Wallet.Requests.{Env, SubmitAt}
use my_ng_platform.Wallet.SettleOrder.{Sale}
use my_ng_platform.Receptions.{
  Access, caught, do_logout, try_logout, select_orders, is_asked_for, asks_none, logout_each,
  logout_all,
}

abbrev HasPaid : SaleOrder → Type 0
HasPaid o = eqb_ℤ (order_balance o) (pos 0) ≡ true

-- A call that returns, and only orders with nothing left to pay.
pub record HasReturned (r : Result (List SaleOrder) × Db) : Type 0 where
  pub left : List SaleOrder
  pub state : Db
  pub result : r ≡ (ok left, state)
  pub paid : All HasPaid left

caught-ok : (r : Result (Unit {0}) × Db) → (c : Bool) × (b : Db) × (caught r ≡ (ok c, b))
caught-ok (ok a, b) = (true, b, refl)
caught-ok (err e, b) = (false, b, refl)

attempt_one :
    (env : Env) (sale : Sale) (o : SaleOrder) (b : Db)
    → (c : Bool) × (b' : Db) × (((if eqb_ℤ (order_balance o) (pos 0)
              then try_logout env sale o
              else pure false)
            b
          ≡ (ok c, b'))
        × ((c ≡ true) → HasPaid o))
unfolding try_logout
attempt_one env sale o b = elim (Bool-cases (eqb_ℤ (order_balance o) (pos 0))) [
  | inl e ↦
      let (c, b', h) = caught-ok (do_logout env sale o [] SubmitAt.absent b) in
      rw e (c, b', (h, λ _. refl))
  | inr e ↦ rw e (false, b, (refl, λ h. cc))
]

logout_each-HasReturned :
    (env : Env) (sale : Sale) (os : List SaleOrder) (b : Db)
    → HasReturned (logout_each env sale os b)
unfolding logout_each
logout_each-HasReturned env sale [] b = record { left = []; state = b; result = refl; paid = tt }
logout_each-HasReturned env sale (o ∷ os) b =
    let (c, b', (e, h)) = attempt_one env sale o b in
    let rest = logout_each-HasReturned env sale os b' in
    record {
      left = if c then o ∷ rest.left else rest.left;
      state = rest.state;
      result =
          bind-ok (if eqb_ℤ (order_balance o) (pos 0) then try_logout env sale o else pure false) _
            b e
          ∙ bind-ok (logout_each env sale os) _ b' rest.result;
      paid = kept c o rest.left h rest.paid;
    }
  where
    kept :
        (c : Bool) (o : SaleOrder) (ls : List SaleOrder)
        → ((c ≡ true) → HasPaid o)
        → All HasPaid ls
        → All HasPaid (if c then o ∷ ls else ls)
    kept true o ls h hs = (h refl, hs)
    kept false o ls h hs = hs

granted : (b : Db) (ls : List SaleOrder) (b' : Db) → roll_back b (ok ls, b') ≡ (ok ls, b')
unfolding roll_back
granted b ls b' = refl

-- To leave all receptions never throws, whatever the settlement of each of them does, unless one who
-- is no administrator has an empty list of shops; and those that are told to be left had nothing left
-- to pay.
pub logout_all-HasReturned :
    (env : Env) (sale : Sale) (a : Access) (b : Db)
    → asks_none a ≡ false
    → HasReturned (logout_all env sale a b)
unfolding logout_all continue_with
logout_all-HasReturned env sale a b n =
    let r = logout_each-HasReturned env sale (select_orders (is_asked_for a) b.orders) b in
    record {
      left = r.left;
      state = r.state;
      result = rw n (ap (roll_back b) r.result ∙ granted b r.left r.state);
      paid = r.paid;
    }
