-- ===== src/Items/Credit/Holds.antt =====
-- What holds of the result of a call that may throw.
use my_ng_platform.Store.{Result, ok, err}
use my_ng_platform.Items.Credit.{◌>>=◌}

-- What holds of a result, if there is one.
unfoldable pub Holds : {A : Type 0} → (A → Type 0) → Result A → Type 0
Holds P (ok a) = P a
Holds P (err _) = Unit

pub Holds-bind :
    {A B : Type 0} (P : A → Type 0) (Q : B → Type 0) (r : Result A) (f : A → Result B)
    → Holds P r
    → ((a : A) → P a → Holds Q (f a))
    → Holds Q (r >>= f)
unfolding Holds ◌>>=◌
Holds-bind P Q (ok a) f h k = k a h
Holds-bind P Q (err e) f h k = tt

pub Holds-map :
    {A : Type 0} (P Q : A → Type 0) (r : Result A) → Holds P r → ((a : A) → P a → Q a) → Holds Q r
unfolding Holds
Holds-map P Q (ok a) h k = k a h
Holds-map P Q (err e) h k = tt

pub Holds-ok : {A : Type 0} (P : A → Type 0) (a : A) → P a → Holds P (ok a)
unfolding Holds
Holds-ok P a h = h

pub Holds-both :
    {A : Type 0} (P Q R : A → Type 0) (r : Result A)
    → Holds P r
    → Holds Q r
    → ((a : A) → P a → Q a → R a)
    → Holds R r
unfolding Holds
Holds-both P Q R (ok a) h g k = k a h g
Holds-both P Q R (err e) h g k = tt
