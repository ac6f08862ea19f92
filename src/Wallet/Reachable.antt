-- ===== src/Wallet/Reachable.antt =====
-- Requests one after the other: the step relation of the wallet, and what every sequence keeps.
use my_ng_platform.Prelude.{ℕ, ◌≡◌, refl, ◌∙◌, pos, ◌≤ℤ◌, Bool}
use my_ng_platform.Store.{Db, Result, ok, err}
use my_ng_platform.Wallet.Ledger.{drift}
use my_ng_platform.Wallet.Table.{IsTable}
use my_ng_platform.Wallet.Contract.{Conserves}
use my_ng_platform.Wallet.Requests.{Env, TransactionDto, WithdrawDto}
use my_ng_platform.Wallet.Deposit.{deposit}
use my_ng_platform.Wallet.Deposit.Laws.{IsWhole, deposit-Conserves}
use my_ng_platform.Wallet.Withdraw.{withdraw, transfer}
use my_ng_platform.Wallet.Withdraw.Laws.{withdraw-Conserves, transfer-Conserves}
use my_ng_platform.Wallet.Remove.{remove_transaction}
use my_ng_platform.Wallet.Remove.Laws.{remove_transaction-Conserves}

-- One request, granted or refused, at its time.
infix 40 ◌⟶◌ ◌⟶*◌
pub data ◌⟶◌ : Db → Db → Type 0 where
  depositing :
      (env : Env) (dto : TransactionDto) (by_gift : Bool) (b : Db)
      → IsWhole (deposit env dto by_gift b)
      → b ⟶ (deposit env dto by_gift b).1
  withdrawing : (env : Env) (dto : WithdrawDto) (b : Db) → b ⟶ (withdraw env dto b).1
  transferring :
      (env : Env) (dto : WithdrawDto) (b : Db) → pos 0 ≤ℤ dto.amount → b ⟶ (transfer env dto b).1
  removing : (id : ℕ) (b : Db) → b ⟶ (remove_transaction id b).1

pub data ◌⟶*◌ : Db → Db → Type 0 where
  here : {b : Db} → b ⟶* b
  then : {b b' b'' : Db} → b ⟶ b' → b' ⟶* b'' → b ⟶* b''

record IsKept (b b' : Db) : Type 0 where
  table : IsTable b'
  drifts : (u : ℕ) → drift u b' ≡ drift u b

Conserves-IsKept :
    {A : Type 0} (b : Db) (r : Result A × Db) → IsTable b → Conserves b r → IsKept b r.1
Conserves-IsKept b (ok a, b') d c = record { table = c.0; drifts = c.1 }
Conserves-IsKept b (err e, b') d c = rw c (record { table = d; drifts = λ u. refl })

step-IsKept : {b b' : Db} → b ⟶ b' → IsTable b → IsKept b b'
step-IsKept (depositing env dto g b w) d =
    Conserves-IsKept b _ d (deposit-Conserves env dto g b d w)
step-IsKept (withdrawing env dto b) d = Conserves-IsKept b _ d (withdraw-Conserves env dto b d)
step-IsKept (transferring env dto b h) d = Conserves-IsKept b _ d (transfer-Conserves env dto b h d)
step-IsKept (removing id b) d = Conserves-IsKept b _ d (remove_transaction-Conserves id b d)

-- Any sequence of deposits whose gifts are whole amounts, withdrawals, transfers of amounts that are
-- not negative and removals, granted or refused, from a table in order, leaves for every user the
-- difference of the stored credit and the recorded transactions as it was.
pub ⟶*-drift : {b b' : Db} → b ⟶* b' → IsTable b → (u : ℕ) → drift u b' ≡ drift u b
⟶*-drift here d u = refl
⟶*-drift (then s ss) d u = let k = step-IsKept s d in ⟶*-drift ss k.table u ∙ k.drifts u
