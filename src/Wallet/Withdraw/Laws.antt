-- ===== src/Wallet/Withdraw/Laws.antt =====
-- Withdrawals and transfers against the ledger.
use my_ng_platform.Prelude.{
  negsuc, zero, suc, ℕ, ◌≡◌, refl, ℤ, pos, ◌≤ℤ◌, neg, ltb_ℤ, arith, Bool, true, false,
}
use my_ng_platform.Entities.{Transaction, TransactionType, TransactionSourceType}
use my_ng_platform.Store.{Db}
use my_ng_platform.Wallet.Ledger.{share, credit_of}
use my_ng_platform.Wallet.Table.{IsTable}
use my_ng_platform.Wallet.Contract.{
  Ensures, Ensures-continue, Ensures-pure, Conserves, Keeps, Rewrites-Keeps, roll_back-Conserves,
  Reads-continue,
}
use my_ng_platform.Wallet.Normalize.Conserves.{normalize_after_date-Rewrites}
use my_ng_platform.Wallet.Credit.{value_of}
use my_ng_platform.Wallet.Credit.Laws.{Credited, do_transaction-Credited}
use my_ng_platform.Wallet.Posting.{moved, Credited-drift, save-drift}
use my_ng_platform.Wallet.Requests.{Env, WithdrawDto, Place}
use my_ng_platform.Wallet.Requests.Reads.{
  throw_if-Reads, process_operation-Reads, read_submit_at-Reads, find_sale_unit-Reads,
  find_user-Reads, find_shift_work-Reads,
}
use my_ng_platform.Wallet.Withdraw.{
  placed, normalize_if, do_withdraw, withdraw, transfer_type, do_transfer, transfer,
}

pub normalize_if-Keeps :
    (b₀ b : Db) (flag : Bool) (t : Transaction)
    → Keeps b₀ t b
    → Ensures (Keeps b₀) (normalize_if flag t b)
normalize_if-Keeps b₀ b true t k =
    Ensures-continue (Keeps b₀) (Keeps b₀) _ _
      (Rewrites-Keeps b₀ b _ (normalize_after_date-Rewrites t.user t.submit_at b k.0) k)
      (λ ts b' k'. Ensures-pure (Keeps b₀) t b' k')
normalize_if-Keeps b₀ b false t k = Ensures-pure (Keeps b₀) t b k

-- A withdrawal takes from the credit what its row takes from the sum.
moved-withdraw :
    (env : Env) (at : Place) (user u : ℕ) (s : TransactionSourceType) (amount credit c : ℤ)
    → moved user (value_of (placed env at TransactionType.withdraw s user amount credit) (pos 0)) u
      ≡ share u
          (record (placed env at TransactionType.withdraw s user amount credit) { user_credit = c })
unfolding share value_of
moved-withdraw env at user u s amount credit c = refl

do_withdraw-Keeps :
    (env : Env) (at : Place) (user : ℕ) (credit amount : ℤ) (dept normalize : Bool) (b : Db)
    → IsTable b
    → Ensures (Keeps b) (do_withdraw env at user credit amount dept normalize b)
unfolding do_withdraw
do_withdraw-Keeps env at user credit amount dept normalize b d =
    let t =
      placed env at TransactionType.withdraw TransactionSourceType.user_credit user amount credit in
    Ensures-continue
      (λ t' b'.
        Credited t (value_of t (pos 0)) b t' b'
        × (t' ≡ record t { user_credit = credit_of t.user b' }))
      (Keeps b) _ _ (do_transaction-Credited t dept (pos 0) true b)
      λ t' b' c.
        Ensures-continue (Keeps b) (Keeps b) _ _
          (rw c.1 (
            let (d', m) = Credited-drift t _ b t' b' c.0 d in
            save-drift _ b b' refl d' (λ u.
              rw
                (← moved-withdraw env at user u TransactionSourceType.user_credit amount credit
                  (credit_of t.user b'))
                (m u))))
          λ t'' b'' k. normalize_if-Keeps b b'' normalize t'' k

-- A request to withdraw, whatever it holds, keeps the order of a table in order, and keeps for every
-- user the difference of the stored credit and the recorded transactions; a request that is
-- refused changes nothing.
pub withdraw-Conserves :
    (env : Env) (dto : WithdrawDto) (b : Db) → IsTable b → Conserves b (withdraw env dto b)
unfolding withdraw
withdraw-Conserves env dto b d = roll_back-Conserves b _ (
    Reads-continue (Keeps b) _ b _ (throw_if-Reads _ _ b) λ _.
      Reads-continue (Keeps b) _ b _ (process_operation-Reads _ _ b) λ _.
        Reads-continue (Keeps b) _ b _ (find_user-Reads _ b) λ credit.
          Reads-continue (Keeps b) _ b _ (find_sale_unit-Reads _ b) λ _.
            Reads-continue (Keeps b) _ b _ (read_submit_at-Reads env _ _ b) λ submit_at.
              Reads-continue (Keeps b) _ b _ (find_shift_work-Reads env _ _ b)
                λ shift. do_withdraw-Keeps env _ dto.user credit dto.amount false _ b d)

moved-transfer :
    (env : Env) (at : Place) (user u : ℕ) (amount credit c : ℤ)
    → pos 0 ≤ℤ amount
    → moved user
        (value_of
          (placed env at (transfer_type amount) TransactionSourceType.transfer user amount credit)
          (pos 0))
        u
      ≡ share u
          (record (placed env at
            (transfer_type amount)
            TransactionSourceType.transfer
            user
            amount
            credit) { user_credit = c; credit = c })
unfolding share value_of neg
moved-transfer env at user u (pos zero) credit c h = refl
moved-transfer env at user u (pos (suc n)) credit c h =
    let out : ltb_ℤ (pos 0) (pos (suc n)) ≡ true = ground arith in rw out
moved-transfer env at user u (negsuc n) credit c h = absurd (omega arith)

do_transfer-Keeps :
    (env : Env) (at : Place) (user : ℕ) (credit amount : ℤ) (normalize : Bool) (b : Db)
    → pos 0 ≤ℤ amount
    → IsTable b
    → Ensures (Keeps b) (do_transfer env at user credit amount normalize b)
unfolding do_transfer
do_transfer-Keeps env at user credit amount normalize b h d =
    let t =
      placed env at (transfer_type amount) TransactionSourceType.transfer user amount credit in
    Ensures-continue
      (λ t' b'.
        Credited t (value_of t (pos 0)) b t' b'
        × (t' ≡ record t { user_credit = credit_of t.user b' }))
      (Keeps b) _ _ (do_transaction-Credited t true (pos 0) true b)
      λ t' b' c.
        Ensures-continue (Keeps b) (Keeps b) _ _
          (rw c.1 (
            let (d', m) = Credited-drift t _ b t' b' c.0 d in
            save-drift _ b b' refl d' (λ u.
              rw (← moved-transfer env at user u amount credit (credit_of t.user b') h) (m u))))
          λ t'' b'' k. normalize_if-Keeps b b'' normalize t'' k

-- A transfer of an amount that is not negative keeps the order of a table in order, and keeps for
-- every user the difference of the stored credit and the recorded transactions; a request that is
-- refused changes nothing.
pub transfer-Conserves :
    (env : Env) (dto : WithdrawDto) (b : Db)
    → pos 0 ≤ℤ dto.amount
    → IsTable b
    → Conserves b (transfer env dto b)
unfolding transfer
transfer-Conserves env dto b h d = roll_back-Conserves b _ (
    Reads-continue (Keeps b) _ b _ (find_sale_unit-Reads _ b) λ _.
      Reads-continue (Keeps b) _ b _ (process_operation-Reads _ _ b) λ _.
        Reads-continue (Keeps b) _ b _ (find_user-Reads _ b) λ credit.
          Reads-continue (Keeps b) _ b _ (read_submit_at-Reads env _ _ b) λ submit_at.
            Reads-continue (Keeps b) _ b _ (find_shift_work-Reads env _ _ b)
              λ shift. do_transfer-Keeps env _ dto.user credit dto.amount _ b h d)
