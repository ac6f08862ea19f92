-- ===== src/Wallet/Deposit/Laws.antt =====
-- A deposit against the ledger.
use my_ng_platform.Prelude.{
  ℕ, ◌≡◌, ◌≢◌, refl, ◌∙◌, ℤ, pos, ◌+ℤ◌, ◌-ℤ◌, neg, ltb_ℤ, int_laws, Bool, true, false, List, [],
  ◌∷◌, reverse, Bool-cases, inl, inr, All, ◌==◌, if◌then◌else◌,
}
use my_ng_platform.Entities.{Transaction, TransactionType, TransactionSourceType}
use my_ng_platform.Store.{Db, Error, Result, ok, err, save_all, pure, ◌>>◌}
use my_ng_platform.Wallet.Ledger.{drift, credit_of, balance}
use my_ng_platform.Wallet.Table.{IsTable}
use my_ng_platform.Wallet.Contract.{
  Ensures, Ensures-pure, Ensures-err, Ensures-map, Ensures-continue, Conserves, Keeps,
  Rewrites-Keeps, roll_back-Conserves, Reads-continue,
}
use my_ng_platform.Wallet.Normalize.{normalize_after_date}
use my_ng_platform.Wallet.Normalize.Conserves.{normalize_after_date-Rewrites}
use my_ng_platform.Wallet.Credit.{value_of}
use my_ng_platform.Wallet.Credit.Laws.{Credited, do_transaction-Credited}
use my_ng_platform.Wallet.Posting.{moved, Pays, Pays-nothing, Credited-drift}
use my_ng_platform.Wallet.Remove.Laws.{normalize_charges-Keeps}
use my_ng_platform.Wallet.Requests.{Env, Place, TransactionDto}
use my_ng_platform.Wallet.Requests.Reads.{
  process_operation-Reads, read_submit_at-Reads, find_sale_unit-Reads, find_user-Reads,
  find_shift_work-Reads,
}
use my_ng_platform.Wallet.Providers.{TransactionItem, new_transaction}
use my_ng_platform.Wallet.Deposit.{
  Collected, stamp_rows, normalize_sources, record_deposit, nothing_collected, do_deposit, deposit,
  add_gift,
}
use my_ng_platform.Wallet.Deposit.Rows.{
  IsFresh, total, running, running-IsFresh, total-running, stamp_rows-eq-running,
}
use my_ng_platform.Wallet.Deposit.Gathers.{
  Gathered, collect-Gathered, add_gift-Gathered, save_all-IsFresh,
}

normalize_sources-Keeps :
    (user at : ℕ) (sources : List ℕ) (b₀ b : Db)
    → Keeps b₀ tt b
    → Ensures (Keeps b₀) (normalize_sources user at sources b)
unfolding normalize_sources
normalize_sources-Keeps user at [] b₀ b k = Ensures-pure (Keeps b₀) tt b k
normalize_sources-Keeps user at (s ∷ ss) b₀ b k =
    Ensures-continue (Keeps b₀) (Keeps b₀) _ _ (normalize_charges-Keeps b₀ b user at s k)
      λ ts b' k'. normalize_sources-Keeps user at ss b₀ b' k'

-- The rows, stamped down from any balance, take their total off the drift.
save_stamped :
    (at : Place) (user : ℕ) (credit : ℤ) (rows : List Transaction) (b : Db)
    → IsTable b
    → All (IsFresh user) rows
    → Ensures
        (λ _ b'. IsTable b' × ((u : ℕ) → drift u b' ≡ drift u b -ℤ moved user (total rows) u))
        (save_all (reverse (stamp_rows at credit (reverse rows))) b)
save_stamped at user credit rows b d h =
    let start : ℤ = credit -ℤ total rows in
    let up : credit ≡ start +ℤ total rows = grind int_laws in
    rw (up, stamp_rows-eq-running at start rows)
      (rw (total-running at rows start) at
        (save_all-IsFresh user (running at start rows) b d (running-IsFresh at user rows start h)))

value_of-sum :
    (now user : ℕ) (sum : ℤ)
    → value_of
        (record (new_transaction now TransactionType.deposit TransactionSourceType.user_credit
          user) { amount = neg sum })
        (pos 0)
      ≡ sum
unfolding value_of
value_of-sum now user sum = grind int_laws

Pays-drift :
    (user : ℕ) (b b' : Db)
    → Pays user (pos 0) b b'
    → IsTable b
    → IsTable b' × ((u : ℕ) → drift u b' ≡ drift u b)
Pays-drift user b b' p d =
    (rw (p.same_next, p.same_rows) d, λ u. rw (p.same_rows, p.credits u) (same u))
  where
    same : (u : ℕ) → credit_of u b +ℤ moved user (pos 0) u -ℤ balance u b.transactions ≡ drift u b
    same u = elim (Bool-cases (user == u)) [
      | inl e ↦ rw e (grind int_laws)
      | inr e ↦ rw e (grind int_laws)
    ]

moved_back : (x y : ℤ) → x +ℤ y -ℤ y ≡ x
moved_back x y = grind int_laws

record_deposit-Keeps :
    (env : Env) (at : Place) (user : ℕ) (normalize : Bool) (acc : Collected) (b₀ b : Db)
    → IsTable b₀
    → Gathered user b₀ acc b
    → Ensures (Keeps b₀) (record_deposit env at user normalize acc b)
unfolding record_deposit
record_deposit-Keeps env at user normalize acc b₀ b d g =
    let t =
      record (new_transaction env.clock.now TransactionType.deposit
        TransactionSourceType.user_credit user) { amount = neg acc.sum } in
    let (d₀, m₀) = Pays-drift user b₀ b g.pays d in
    Ensures-continue
      (λ t' b'.
        Credited t (value_of t (pos 0)) b t' b'
        × (t' ≡ record t { user_credit = credit_of t.user b' }))
      (Keeps b₀) _ _ (do_transaction-Credited t false (pos 0) true b)
      λ t' b' c.
        let (d', m) = Credited-drift t _ b t' b' c.0 d₀ in
        Ensures-continue (Keeps b₀) (Keeps b₀) _ _
          (Ensures-map _ (Keeps b₀) _ (save_stamped at user t'.user_credit acc.rows b' d' g.fresh)
            λ ts b'' k. (
              k.0,
              λ u.
                  k.1 u
                  ∙ rw (m u, m₀ u, value_of-sum env.clock.now user acc.sum, g.adds)
                      (moved_back _ _),
            ))
          λ saved b'' k. deposit_normalized b'' k normalize saved
  where
    deposit_normalized :
        (b'' : Db)
        → Keeps b₀ tt b''
        → (flag : Bool) (saved : List Transaction)
        → Ensures (Keeps b₀) (
            (if flag
                then (normalize_after_date user at.submit_at
                    >> (normalize_sources user at.submit_at acc.sources >> pure saved))
                else pure saved)
              b'')
    deposit_normalized b'' k false saved = Ensures-pure (Keeps b₀) saved b'' k
    deposit_normalized b'' k true saved =
        Ensures-continue (Keeps b₀) (Keeps b₀) _ _
          (Rewrites-Keeps b₀ b'' _ (normalize_after_date-Rewrites user at.submit_at b'' k.0) k)
          λ ts b₃ k₃.
            Ensures-continue (Keeps b₀) (Keeps b₀) _ _
              (normalize_sources-Keeps user at.submit_at acc.sources b₀ b₃ k₃)
              λ r b₄ k₄. Ensures-pure (Keeps b₀) saved b₄ k₄

do_deposit-Keeps :
    (env : Env) (at : Place) (user : ℕ) (items : List TransactionItem) (by_gift normalize : Bool)
    (b : Db)
    → IsTable b
    → Ensures (Keeps b) (do_deposit env at user items by_gift normalize b)
unfolding do_deposit total
do_deposit-Keeps env at user items by_gift normalize b d =
    Ensures-continue (Gathered user b) (Keeps b) _ _
      (collect-Gathered env at user items nothing_collected b b
        (record { pays = Pays-nothing user b b refl refl refl; fresh = tt; adds = refl }))
      λ acc b' g.
        Ensures-continue (Gathered user b) (Keeps b) _ _ (with_gift by_gift acc b' g) λ acc' b'' g'.
          elim (Bool-cases (ltb_ℤ (pos 0) acc'.sum)) [
            | inl e ↦ rw e (record_deposit-Keeps env at user normalize acc' b b'' d g')
            | inr e ↦ rw e (Ensures-err (Keeps b) _ b'')
          ]
  where
    with_gift :
        (flag : Bool) (acc : Collected) (b' : Db)
        → Gathered user b acc b'
        → Ensures (Gathered user b) ((if flag then add_gift env at user acc else pure acc) b')
    with_gift true acc b' g = add_gift-Gathered env at user acc b b' g
    with_gift false acc b' g = Ensures-pure (Gathered user b) acc b' g

-- The call did not leave the whole numbers of the model.
abbrev pub IsWhole : {A : Type 0} → Result A × Db → Type 0
IsWhole (ok _, _) = Unit
IsWhole (err e, _) = e ≢ Error.fractional_gift

-- A deposit, whatever its payments are and whether a gift of a whole amount comes on top, keeps the
-- order of a table in order, and keeps for every user the difference of the stored credit and the
-- recorded transactions; a request that is refused changes nothing.
pub deposit-Conserves :
    (env : Env) (dto : TransactionDto) (by_gift : Bool) (b : Db)
    → IsTable b
    → IsWhole (deposit env dto by_gift b)
    → Conserves b (deposit env dto by_gift b)
unfolding deposit
deposit-Conserves env dto by_gift b d w = roll_back-Conserves b _ (
    Reads-continue (Keeps b) _ b _ (read_submit_at-Reads env _ _ b) λ submit_at.
      Reads-continue (Keeps b) _ b _ (find_sale_unit-Reads _ b) λ _.
        Reads-continue (Keeps b) _ b _ (process_operation-Reads _ _ b) λ _.
          Reads-continue (Keeps b) _ b _ (find_shift_work-Reads env _ _ b) λ shift.
            Reads-continue (Keeps b) _ b _ (find_user-Reads _ b)
              λ credit. do_deposit-Keeps env _ dto.user dto.items by_gift _ b d)
