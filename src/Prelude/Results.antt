-- ===== src/Prelude/Results.antt =====
-- `?` on a `Result`, for every type of errors.
use mathlib.Core.Bool.{Bool, true, false}
use mathlib.Core.Option.{Option, none, some}
use native.Mathlib.Omega.{arith}
use mathlib.Core.Path.{◌≡◌, refl, subst}
use mathlib.Core.Logic.{◌⊎◌, inl, inr}

pub data Result {ℓ κ} (E : Type κ) (A : Type ℓ) : Type (ℓ ⊔ κ) where
  ok : A → Result E A
  err : E → Result E A

infixl 5 ◌>>=◌ ◌>>◌
abbrev pub ◌>>=◌ {ℓ κ μ} :
    {E : Type μ} {A : Type ℓ} {B : Type κ} → Result E A → (A → Result E B) → Result E B
ok a >>= f = f a
err e >>= f = err e

abbrev pub ◌>>◌ {ℓ μ} : {E : Type μ} {B : Type ℓ} → Result E (Unit {0}) → Result E B → Result E B
m >> k = m >>= λ _. k

abbrev pub guard {μ} : {E : Type μ} → Bool → E → Result E (Unit {0})
guard true e = ok tt
guard false e = err e

-- `ok_or_else`
abbrev pub ok_or {ℓ μ} : {E : Type μ} {A : Type ℓ} → Option A → E → Result E A
ok_or none e = err e
ok_or (some a) e = ok a

abbrev pub map_err {ℓ μ κ} :
    {E : Type μ} {D : Type κ} {A : Type ℓ} → (E → D) → Result E A → Result D A
map_err f (ok a) = ok a
map_err f (err e) = err (f e)

-- The predicate holds of the value, if there is one.
pub data Holds {ℓ κ μ} {E : Type μ} {A : Type ℓ} (P : A → Type κ)
    : Result E A → Type (ℓ ⊔ κ ⊔ μ) where
  holds : {a : A} → P a → Holds P (ok a)
  fails : {e : E} → Holds P (err e)

module _ {ℓ κ μ} {E : Type μ} {A : Type ℓ} {P : A → Type κ} where
  -- The value of a computation that gives one.
  pub Holds→ : (m : Result E A) (a : A) → m ≡ ok a → Holds P m → P a
  Holds→ m a e h = value a (subst (Holds P) e h)
    where
      value : (a : A) → Holds {E = E} P (ok a) → P a
      value a (holds p) = p

  pub Holds-map {ν} :
      {Q : A → Type ν} (m : Result E A) → Holds P m → ((a : A) → P a → Q a) → Holds Q m
  Holds-map (ok a) (holds p) f = holds (f a p)
  Holds-map (err e) fails f = fails

  -- `?` passes on what holds of the value.
  pub Holds-bind {ν π} :
      {B : Type ν} {Q : B → Type π} (m : Result E A) (f : A → Result E B)
      → Holds P m
      → ((a : A) → P a → Holds Q (f a))
      → Holds Q (m >>= f)
  Holds-bind (ok a) f (holds p) k = k a p
  Holds-bind (err e) f fails k = fails

pub Holds-then {ℓ κ μ ν} :
    {E : Type μ} {A : Type ℓ} {B : Type κ} {Q : B → Type ν} (m : Result E A) (f : A → Result E B)
    → ((a : A) → Holds Q (f a))
    → Holds Q (m >>= f)
Holds-then (ok a) f k = k a
Holds-then (err e) f k = fails

pub Holds-self {ℓ μ} : {E : Type μ} {A : Type ℓ} (m : Result E A) → Holds (λ a. m ≡ ok a) m
Holds-self (ok a) = holds refl
Holds-self (err e) = fails

-- What `ok_or` gives is what was there.
pub Holds-ok_or {ℓ μ} :
    {E : Type μ} {A : Type ℓ} (o : Option A) (e : E) → Holds (λ a. o ≡ some a) (ok_or o e)
Holds-ok_or none e = fails
Holds-ok_or (some a) e = holds refl

pub Result-cases {ℓ μ} :
    {E : Type μ} {A : Type ℓ} (m : Result E A) → ((a : A) × (m ≡ ok a)) ⊎ ((e : E) × (m ≡ err e))
Result-cases (ok a) = inl (a, refl)
Result-cases (err e) = inr (e, refl)

pub err-ne-ok {ℓ μ} :
    {E : Type μ} {A : Type ℓ} (e : E) (a : A) → Path (Result E A) (err e) (ok a) → ⊥
err-ne-ok e a p = ground (arith, p)
