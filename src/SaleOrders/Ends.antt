-- ===== src/SaleOrders/Ends.antt =====
-- Contracts that say what is left after an exception, too.
use my_ng_platform.Prelude.{◌≡◌, sym}
use mathlib.Core.Path.{subst}
use my_ng_platform.Store.{Db, Error, Result, Action, ok, err, continue_with}

-- What holds of a result, and of the database after an exception.
unfoldable pub Ends : {A : Type 0} → (A → Db → Type 0) → (Db → Type 0) → Result A × Db → Type 0
Ends P Q (ok a, b) = P a b
Ends P Q (err _, b) = Q b

pub Ends-continue :
    {A B : Type 0} (P : A → Db → Type 0) (P' : B → Db → Type 0) (Q : Db → Type 0) (f : A → Action B)
    (r : Result A × Db)
    → Ends P Q r
    → ((a : A) (b : Db) → P a b → Ends P' Q (f a b))
    → Ends P' Q (continue_with f r)
unfolding Ends continue_with
Ends-continue P P' Q f (ok a, b) h k = k a b h
Ends-continue P P' Q f (err e, b) h k = h

pub Ends-ok :
    {A : Type 0} (P : A → Db → Type 0) (Q : Db → Type 0) (a : A) (b : Db)
    → P a b
    → Ends P Q (ok a, b)
unfolding Ends
Ends-ok P Q a b h = h

pub Ends-err :
    {A : Type 0} (P : A → Db → Type 0) (Q : Db → Type 0) (e : Error) (b : Db)
    → Q b
    → Ends P Q (err e, b)
unfolding Ends
Ends-err P Q e b h = h

pub Ends-map :
    {A : Type 0} (P P' : A → Db → Type 0) (Q Q' : Db → Type 0) (r : Result A × Db)
    → Ends P Q r
    → ((a : A) (b : Db) → P a b → P' a b)
    → ((b : Db) → Q b → Q' b)
    → Ends P' Q' r
unfolding Ends
Ends-map P P' Q Q' (ok a, b) h k l = k a b h
Ends-map P P' Q Q' (err e, b) h k l = l b h

-- A call that writes nothing, whether it throws or not.
abbrev pub Only : {A : Type 0} → (A → Type 0) → Db → Result A × Db → Type 0
Only P b r = Ends (λ a b'. (b' ≡ b) × P a) (λ b'. b' ≡ b) r

pub Only-continue :
    {A B : Type 0} (P : A → Type 0) (P' : B → Type 0) (b : Db) (f : A → Action B)
    (r : Result A × Db)
    → Only P b r
    → ((a : A) → P a → Only P' b (f a b))
    → Only P' b (continue_with f r)
Only-continue P P' b f r h k =
    Ends-continue (λ a b'. (b' ≡ b) × P a) (λ a b'. (b' ≡ b) × P' a) (λ b'. b' ≡ b) f r h
      λ a b' p. rw p.0 (k a p.1)

pub Only-map :
    {A : Type 0} (P P' : A → Type 0) (b : Db) (r : Result A × Db)
    → Only P b r
    → ((a : A) → P a → P' a)
    → Only P' b r
unfolding Ends
Only-map P P' b (ok a, b') h k = (h.0, k a h.1)
Only-map P P' b (err e, b') h k = h

pub Only-Ends :
    {A : Type 0} (P : A → Type 0) (Q : Db → Type 0) (b : Db) (r : Result A × Db)
    → Only P b r
    → Q b
    → Ends (λ a b'. (b' ≡ b) × P a) Q r
unfolding Ends
Only-Ends P Q b (ok a, b') h q = h
Only-Ends P Q b (err e, b') h q = subst Q (sym h) q
