-- ===== src/Wallet/Credit.antt =====
-- `doTransaction`: the conditional update of a user's credit.
pub mod Laws
use my_ng_platform.Prelude.{
  ℤ, pos, ◌+ℤ◌, ◌-ℤ◌, neg, Bool, not, ◌&&◌, ◌||◌, none, some, ltb_ℤ, leb_ℤ, eqb_ℤ, if◌then◌else◌,
}
use my_ng_platform.Entities.{Transaction, User}
use my_ng_platform.Store.{Error, Action, ok, err, alter}

-- The `WHERE` clause of the update, for a value that lowers the credit by `a`.
unfoldable pub allows : Bool → ℤ → User → Bool
allows dept a u =
    if dept
    then leb_ℤ (pos 0) (u.credit -ℤ a)
      || (u.authorized_debtor && leb_ℤ a (u.credit +ℤ u.max_dept_amount))
    else leb_ℤ a u.credit

-- `-(amount || transaction.amount)`
unfoldable pub value_of : Transaction → ℤ → ℤ
value_of t amount = neg (if eqb_ℤ amount (pos 0) then t.amount else amount)

unfoldable pub add_credit : ℤ → User → User
add_credit value u = record u { credit = u.credit +ℤ value }

-- The update counts the rows that it affected; `amount` is 0 where the caller passes none.
unfoldable pub do_transaction : Transaction → Bool → ℤ → Bool → Action Transaction
unfolding allows value_of add_credit
do_transaction t dept amount return_credit b =
    let value = value_of t amount in
    elim (b.users t.user) [
      | none ↦ (err Error.credit_not_enough, b)
      | some u ↦
          if ltb_ℤ value (pos 0) && not (allows dept (neg value) u)
          then (err Error.credit_not_enough, b)
          else (
            ok (if return_credit then record t { user_credit = u.credit +ℤ value } else t),
            record b { users = alter (add_credit value) t.user b.users },
          )
    ]
