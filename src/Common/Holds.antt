-- ===== src/Common/Holds.antt =====
-- What holds of the value of a call that succeeds, composed along the call.
use stellar_router.Prelude.{Bool, true, false, Option, none, some, ◌≡◌, refl}
use mathlib.Core.Path.{subst}
use stellar_router.Common.{Outcome, ok, err, panic, ◌>>=◌, ◌>>◌, ok_or}
use stellar_router.Prelude.{if◌then◌else◌}

module _ {ι ℓ} {E : Type ι} {A : Type ℓ} where
  abbrev pub Holds {κ} : (A → Type κ) → Outcome E A → Type κ
  Holds P (ok a) = P a
  Holds P (err e) = Unit
  Holds P panic = Unit

  -- A value that is the result satisfies what holds of the call.
  pub Holds-ok {κ} : (P : A → Type κ) (m : Outcome E A) (a : A) → Holds P m → m ≡ ok a → P a
  Holds-ok P m a h e = subst (Holds P) e h

  pub ok-Holds {κ} : (P : A → Type κ) (m : Outcome E A) → ((a : A) → m ≡ ok a → P a) → Holds P m
  ok-Holds P (ok a) f = f a refl
  ok-Holds P (err e) f = tt
  ok-Holds P panic f = tt

-- To show what holds of a sequence, show what holds of the rest after each value.
pub bind-Holds {ι ℓ ℓ' κ κ'} :
    {E : Type ι} {A : Type ℓ} {B : Type ℓ'} (Q : A → Type κ) (P : B → Type κ') (m : Outcome E A)
    (k : A → Outcome E B)
    → Holds Q m
    → ((a : A) → Q a → Holds P (k a))
    → Holds P (m >>= k)
bind-Holds Q P (ok a) k h f = f a h
bind-Holds Q P (err e) k h f = tt
bind-Holds Q P panic k h f = tt

-- A check before the rest.
pub then-Holds {ι ℓ κ} :
    {E : Type ι} {B : Type ℓ} (P : B → Type κ) (m : Outcome E (Unit {0})) (k : Outcome E B)
    → Holds P k
    → Holds P (m >> k)
then-Holds P (ok u) k f = f
then-Holds P (err e) k f = tt
then-Holds P panic k f = tt

pub if-Holds {ι ℓ κ} :
    {E : Type ι} {B : Type ℓ} (P : B → Type κ) (b : Bool) (m k : Outcome E B)
    → Holds P m
    → Holds P k
    → Holds P (if b then m else k)
if-Holds P true m k h h' = h
if-Holds P false m k h h' = h'

-- The rest after a check that has passed.
pub check-Holds {ι ℓ κ} :
    {E : Type ι} {B : Type ℓ} (P : B → Type κ) (m : Outcome E (Unit {0})) (k : Outcome E B)
    → (m ≡ ok tt → Holds P k)
    → Holds P (m >> k)
check-Holds P (ok tt) k f = f refl
check-Holds P (err e) k f = tt
check-Holds P panic k f = tt

-- The rest after a value that was there.
pub ok_or-Holds {ι ℓ ℓ' κ} :
    {E : Type ι} {A : Type ℓ} {B : Type ℓ'} (P : B → Type κ) (o : Option A) (e : E)
    (k : A → Outcome E B)
    → ((a : A) → o ≡ some a → Holds P (k a))
    → Holds P (ok_or o e >>= k)
ok_or-Holds P none e k f = tt
ok_or-Holds P (some a) e k f = f a refl

pub Holds-mono {ι ℓ κ κ'} :
    {E : Type ι} {A : Type ℓ} (Q : A → Type κ) (P : A → Type κ') (m : Outcome E A)
    → Holds Q m
    → ((a : A) → Q a → P a)
    → Holds P m
Holds-mono Q P (ok a) h f = f a h
Holds-mono Q P (err e) h f = tt
Holds-mono Q P panic h f = tt
