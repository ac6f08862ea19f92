-- ===== src/Wallet/Posting.antt =====
-- An update of a credit and the row that records it keep the drift together.
use my_ng_platform.Prelude.{
  ℕ, ◌≡◌, refl, ◌∙◌, ℤ, pos, ◌+ℤ◌, ◌-ℤ◌, int_laws, arith, true, Bool-cases, inl, inr, some, ◌==◌,
  ==_iff, if◌then◌else◌,
}
use my_ng_platform.Entities.{Transaction, User}
use my_ng_platform.Store.{Db, alter, save}
use my_ng_platform.Wallet.Ledger.{balance, share, drift, credit_of}
use my_ng_platform.Wallet.Table.{IsTable}
use my_ng_platform.Wallet.Contract.{Ensures, Ensures-map, Keeps}
use my_ng_platform.Wallet.Credit.{add_credit}
use my_ng_platform.Wallet.Credit.Laws.{Credited}

-- What an update of the credit of `user` by `value` moves for the user `u`.
abbrev pub moved : ℕ → ℤ → ℕ → ℤ
moved user value u = if user == u then value else pos 0

credit_of-alter :
    (u k : ℕ) (value : ℤ) (b : Db) {row : User}
    → b.users k ≡ some row
    → credit_of u (record b { users = alter (add_credit value) k b.users })
      ≡ credit_of u b +ℤ moved k value u
unfolding add_credit
credit_of-alter u k value b {row} e = elim (Bool-cases (k == u)) [
  | inl s ↦ let f : b.users u ≡ some row = rw (← (==_iff k u).0 s) e in rw (s, f) refl
  | inr s ↦ rw s (grind int_laws)
]

pub Credited-drift :
    (t : Transaction) (value : ℤ) (b : Db) (t' : Transaction) (b' : Db)
    → Credited t value b t' b'
    → IsTable b
    → IsTable b' × ((u : ℕ) → drift u b' ≡ drift u b +ℤ moved t.user value u)
Credited-drift t value b t' b' c d =
    rw c.state (d, λ u. grind (int_laws, credit_of-alter u t.user value b c.found))

share-id : (u n : ℕ) (t : Transaction) → share u (record t { id = n }) ≡ share u t
unfolding share
share-id u n t = refl

-- A new row takes its share off the drift.
pub save-new :
    (t : Transaction) (b : Db)
    → t.id ≡ 0
    → IsTable b
    → Ensures (λ _ b'. IsTable b' × ((u : ℕ) → drift u b' ≡ drift u b -ℤ share u t)) (save t b)
unfolding save balance Ensures
save-new t b e d =
    let new : (t.id == 0) ≡ true = (==_iff t.id 0).1 e in
    rw new ((omega arith, d), λ u. grind (int_laws, share-id u b.next_id t))

pub save-drift :
    (t : Transaction) (b₀ b : Db)
    → t.id ≡ 0
    → IsTable b
    → ((u : ℕ) → drift u b ≡ drift u b₀ +ℤ share u t)
    → Ensures (Keeps b₀) (save t b)
save-drift t b₀ b e d m =
    Ensures-map _ (Keeps b₀) _ (save-new t b e d) λ t' b' h. (h.0, λ u. h.1 u ∙ rw (m u) (back _ _))
  where
    back : (x y : ℤ) → x +ℤ y -ℤ y ≡ x
    back x y = grind int_laws

-- A call that moves the credit of one user by `value`, and no transaction.
pub record Pays (user : ℕ) (value : ℤ) (b b' : Db) : Type 0 where
  pub same_rows : b'.transactions ≡ b.transactions
  pub same_next : b'.next_id ≡ b.next_id
  pub credits : (u : ℕ) → credit_of u b' ≡ credit_of u b +ℤ moved user value u

pub Credited-Pays :
    (t : Transaction) (value : ℤ) (b : Db) (t' : Transaction) (b' : Db)
    → Credited t value b t' b'
    → Pays t.user value b b'
Credited-Pays t value b t' b' c = rw c.state (record {
  same_rows = refl;
  same_next = refl;
  credits = λ u. credit_of-alter u t.user value b c.found;
})

-- Two such calls in a row.
pub Pays-trans :
    (user : ℕ) (v w : ℤ) (b b' b'' : Db)
    → Pays user v b b'
    → Pays user w b' b''
    → Pays user (v +ℤ w) b b''
Pays-trans user v w b b' b'' p q = record {
  same_rows = q.same_rows ∙ p.same_rows;
  same_next = q.same_next ∙ p.same_next;
  credits = λ u. q.credits u ∙ (rw (p.credits u) (regroup user v w (credit_of u b) u));
}
  where
    regroup :
        (user : ℕ) (v w c : ℤ) (u : ℕ)
        → c +ℤ moved user v u +ℤ moved user w u ≡ c +ℤ moved user (v +ℤ w) u
    regroup user v w c u = elim (Bool-cases (user == u)) [
      | inl e ↦ rw e (grind int_laws)
      | inr e ↦ rw e (grind int_laws)
    ]

-- A call that moves no credit and no transaction.
pub Pays-nothing :
    (user : ℕ) (b b' : Db)
    → b'.users ≡ b.users
    → b'.transactions ≡ b.transactions
    → b'.next_id ≡ b.next_id
    → Pays user (pos 0) b b'
Pays-nothing user b b' e f g = record {
  same_rows = f;
  same_next = g;
  credits = λ u. elim (Bool-cases (user == u)) [
    | inl s ↦ rw (e, s) (grind int_laws)
    | inr s ↦ rw (e, s) (grind int_laws)
  ];
}
