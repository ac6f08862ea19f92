-- ===== src/Wallet/Remove/Undone.antt =====
-- What the undoing of a transaction pays back.
use my_ng_platform.Prelude.{
  ◌≡◌, refl, ℤ, pos, ◌+ℤ◌, neg, int_laws, arith, Bool, true, false, Bool-cases, eqb_ℤ, ==_iff, inl,
  inr,
}
use my_ng_platform.Entities.{Transaction, TransactionType, TransactionSourceType}
use my_ng_platform.Store.{Db, ok, continue_with}
use my_ng_platform.Wallet.Ledger.{signed}
use my_ng_platform.Wallet.Contract.{Ensures, Ensures-map, Ensures-continue, Ensures-pure}
use my_ng_platform.Wallet.Credit.{do_transaction, value_of}
use my_ng_platform.Wallet.Credit.Laws.{do_transaction-Credited}
use my_ng_platform.Wallet.Posting.{Pays, Credited-Pays, Pays-nothing, Pays-trans}
use my_ng_platform.Wallet.Remove.{undo, undo_settle, undo_deposit, update_order}

abbrev pub PaysBack : {A : Type 0} → Transaction → ℤ → Db → A → Db → Type 0
PaysBack t value b a b' = Pays t.user value b b'

pays_value :
    (t : Transaction) (dept : Bool) (amount : ℤ) (b : Db)
    → Ensures (PaysBack t (value_of t amount) b) (do_transaction t dept amount false b)
pays_value t dept amount b =
    Ensures-map _ _ _ (do_transaction-Credited t dept amount false b)
      λ t' b' c. Credited-Pays t (value_of t amount) b t' b' c.0

value_of-amount : (t : Transaction) → value_of t t.amount ≡ neg t.amount
unfolding value_of
value_of-amount t = ground arith

pub value_of-neg : (t : Transaction) → value_of t (neg t.amount) ≡ neg (neg t.amount)
unfolding value_of
value_of-neg t = elim (Bool-cases (eqb_ℤ (neg t.amount) (pos 0))) [
  | inl z ↦ rw z (grind (int_laws, (==_iff _ _).0 z))
  | inr z ↦ rw z
]

pub neg_zero : neg (pos 0) ≡ pos 0
unfolding neg
neg_zero = refl

-- A `modify` that leaves the wallets alone.
nothing_paid :
    (t : Transaction) (b b' : Db)
    → b'.users ≡ b.users
    → b'.transactions ≡ b.transactions
    → b'.next_id ≡ b.next_id
    → Ensures (PaysBack {A = Unit {0}} t (neg (pos 0)) b) (ok tt, b')
nothing_paid t b b' e f g =
    Ensures-pure (PaysBack t (neg (pos 0)) b) tt b' (rw neg_zero (Pays-nothing t.user b b' e f g))

undo_settle-Pays :
    (s : TransactionSourceType) (t : Transaction) (b : Db)
    → Ensures (PaysBack t (neg (signed TransactionType.settle s t.amount)) b) (undo_settle s t b)
unfolding undo_settle
undo_settle-Pays TransactionSourceType.user_credit t b =
    Ensures-continue (PaysBack t (neg (neg t.amount)) b) _ _ _
      (rw (value_of-neg t) at (pays_value t false (neg t.amount) b))
      λ t' b' p. Ensures-pure (PaysBack t (neg (neg t.amount)) b) tt b' p
undo_settle-Pays _ t b = nothing_paid t b _ refl refl refl

undo_deposit-Pays :
    (s : TransactionSourceType) (t : Transaction) (b : Db)
    → Ensures (PaysBack t (neg (pos 0)) b) (undo_deposit s t b)
unfolding undo_deposit continue_with
undo_deposit-Pays TransactionSourceType.loan t b = nothing_paid t b _ refl refl refl
undo_deposit-Pays _ t b = nothing_paid t b _ refl refl refl

plus_zero : (a : ℤ) → neg a +ℤ neg (pos 0) ≡ neg a
plus_zero a = grind (int_laws, neg_zero)

zero_plus : (a : ℤ) → neg (pos 0) +ℤ neg a ≡ neg a
zero_plus a = grind (int_laws, neg_zero)

update_order-Pays :
    (flag : Bool) (t : Transaction) (value : ℤ) (b b' : Db)
    → Pays t.user value b b'
    → Ensures (PaysBack {A = Unit {0}} t value b) (update_order flag t b')
update_order-Pays true t value b b' p =
    Ensures-pure (PaysBack t value b) tt _
      (record { same_rows = p.same_rows; same_next = p.same_next; credits = p.credits })
update_order-Pays false t value b b' p = Ensures-pure (PaysBack t value b) tt _ p

-- The undoing pays back what the transaction did to the wallet.
pub undo-Pays :
    (type : TransactionType) (t : Transaction) (flag : Bool) (b : Db)
    → Ensures (PaysBack t (neg (signed type t.source_type t.amount)) b) (undo type t flag b)
unfolding undo
undo-Pays TransactionType.settle t flag b =
    let back = neg (signed TransactionType.settle t.source_type t.amount) in
    Ensures-continue (PaysBack t back b) _ _ _ (undo_settle-Pays t.source_type t b) λ _ b' p.
      Ensures-continue (PaysBack t back b) _ _ _ (update_order-Pays flag t back b b' p)
        λ _ b'' q. Ensures-pure (PaysBack t back b) _ b'' q
undo-Pays TransactionType.deposit t flag b =
    Ensures-continue (PaysBack t (neg (pos 0)) b) _ _ _ (undo_deposit-Pays t.source_type t b)
      λ _ b' p.
        Ensures-continue (PaysBack t (neg t.amount) b') _ _ _
          (rw (value_of-amount t) at (pays_value t true t.amount b'))
          λ _ b'' q.
            Ensures-pure (PaysBack t (neg t.amount) b) true b''
              (rw (zero_plus t.amount) at (Pays-trans t.user _ _ b b' b'' p q))
undo-Pays TransactionType.withdraw t flag b =
    Ensures-continue (PaysBack t (neg (neg t.amount)) b) _ _ _
      (rw (value_of-neg t) at (pays_value t false (neg t.amount) b))
      λ t' b' p. Ensures-pure (PaysBack t (neg (neg t.amount)) b) true b' p
