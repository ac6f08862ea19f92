-- ===== src/Wallet/Contract.antt =====
-- Contracts of calls on the database, and the one that every operation of the wallet keeps.
use my_ng_platform.Prelude.{ℕ, ◌≡◌, refl}
use my_ng_platform.Store.{Db, Error, Result, Action, ok, err, continue_with, roll_back}
use my_ng_platform.Wallet.Ledger.{drift}
use my_ng_platform.Wallet.Table.{IsTable}
use my_ng_platform.Wallet.Normalize.Conserves.{Rewrites}

-- What holds of a result and the database, if the call returns one.
unfoldable pub Ensures : {A : Type 0} → (A → Db → Type 0) → Result A × Db → Type 0
Ensures P (ok a, b) = P a b
Ensures P (err _, b) = Unit

pub Ensures-continue :
    {A B : Type 0} (P : A → Db → Type 0) (Q : B → Db → Type 0) (f : A → Action B)
    (r : Result A × Db)
    → Ensures P r
    → ((a : A) (b : Db) → P a b → Ensures Q (f a b))
    → Ensures Q (continue_with f r)
unfolding Ensures continue_with
Ensures-continue P Q f (ok a, b) h k = k a b h
Ensures-continue P Q f (err _, b) h k = tt

-- A database transaction keeps the table in order and every user's balance as far from the
-- recorded transactions as it was; one that throws changes nothing.
abbrev pub Conserves : {A : Type 0} → Db → Result A × Db → Type 0
Conserves b (ok _, b') = IsTable b' × ((u : ℕ) → drift u b' ≡ drift u b)
Conserves b (err _, b') = b' ≡ b

abbrev pub Keeps : {A : Type 0} → Db → A → Db → Type 0
Keeps b a b' = IsTable b' × ((u : ℕ) → drift u b' ≡ drift u b)

pub roll_back-Conserves :
    {A : Type 0} (b : Db) (r : Result A × Db) → Ensures (Keeps b) r → Conserves b (roll_back b r)
unfolding Ensures roll_back
roll_back-Conserves b (ok a, b') h = h
roll_back-Conserves b (err _, b') h = refl

-- Rewriting running balances keeps what was reached.
pub Rewrites-Keeps :
    {A : Type 0} (b₀ b : Db) (r : Result A × Db)
    → Rewrites b r
    → Keeps b₀ tt b
    → Ensures (Keeps b₀) r
unfolding Ensures
Rewrites-Keeps b₀ b r w k = rw w.result (w.table, λ u. rw (w.sums u) (k.1 u))

-- A call that only reads.
abbrev pub Reads : {A : Type 0} → Db → Result A × Db → Type 0
Reads b r = Ensures (λ _ b'. b' ≡ b) r

pub Reads-continue :
    {A B : Type 0} (Q : B → Db → Type 0) (f : A → Action B) (b : Db) (r : Result A × Db)
    → Reads b r
    → ((a : A) → Ensures Q (f a b))
    → Ensures Q (continue_with f r)
unfolding Ensures continue_with
Reads-continue Q f b (ok a, b') h k = rw h (k a)
Reads-continue Q f b (err _, b') h k = tt

pub Ensures-pure : {A : Type 0} (P : A → Db → Type 0) (a : A) (b : Db) → P a b → Ensures P (ok a, b)
unfolding Ensures
Ensures-pure P a b h = h

pub Ensures-err : {A : Type 0} (P : A → Db → Type 0) (e : Error) (b : Db) → Ensures P (err e, b)
unfolding Ensures
Ensures-err P e b = tt

pub Ensures-map :
    {A : Type 0} (P Q : A → Db → Type 0) (r : Result A × Db)
    → Ensures P r
    → ((a : A) (b : Db) → P a b → Q a b)
    → Ensures Q r
unfolding Ensures
Ensures-map P Q (ok a, b) h k = k a b h
Ensures-map P Q (err _, b) h k = tt

-- Both of two things that a call ensures.
pub Ensures-both :
    {A : Type 0} (P Q : A → Db → Type 0) (r : Result A × Db)
    → Ensures P r
    → Ensures Q r
    → Ensures (λ a b. P a b × Q a b) r
unfolding Ensures
Ensures-both P Q (ok a, b) p q = (p, q)
Ensures-both P Q (err e, b) p q = tt

-- What holds where a database transaction returns; one that throws changes nothing.
abbrev pub Outcome : {A : Type 0} → (A → Db → Type 0) → Db → Result A × Db → Type 0
Outcome P b (ok a, b') = P a b'
Outcome P b (err _, b') = b' ≡ b

pub roll_back-Outcome :
    {A : Type 0} (P : A → Db → Type 0) (b : Db) (r : Result A × Db)
    → Ensures P r
    → Outcome P b (roll_back b r)
unfolding Ensures roll_back
roll_back-Outcome P b (ok a, b') h = h
roll_back-Outcome P b (err _, b') h = refl

abbrev pub Any : {A : Type 0} → A → Db → Type 0
Any a b = Unit

pub Ensures-Any : {A : Type 0} (r : Result A × Db) → Ensures Any r
unfolding Ensures
Ensures-Any (ok a, b) = tt
Ensures-Any (err e, b) = tt
