-- ===== src/Common/Outcomes.antt =====
-- A Go call that returns, or panics.
use mathlib.Core.Path.{◌≡◌, refl}
use mathlib.Core.Logic.{◌⊎◌, inl, inr}
use mathlib.Core.Option.{Option, none, some}

pub data Outcome {ℓ} (A : Type ℓ) : Type ℓ where
  returns : A → Outcome A
  panics : Outcome A

infixl 5 ◌>>=◌
abbrev pub ◌>>=◌ {ℓ κ} : {A : Type ℓ} {B : Type κ} → Outcome A → (A → Outcome B) → Outcome B
returns a >>= f = f a
panics >>= f = panics

-- Reading through a pointer that may be nil.
abbrev pub deref {ℓ} : {A : Type ℓ} → Option A → Outcome A
deref none = panics
deref (some a) = returns a

-- A successful chain has a successful first step.
pub >>=-eq-returns {ℓ κ} :
    {A : Type ℓ} {B : Type κ} (m : Outcome A) (f : A → Outcome B) {b : B}
    → (m >>= f) ≡ returns b
    → (a : A) × (m ≡ returns a) × (f a ≡ returns b)
>>=-eq-returns (returns a) f h = (a, refl, h)
>>=-eq-returns panics f h = cc

pub Outcome-cases {ℓ} : {A : Type ℓ} (m : Outcome A) → (m ≡ panics) ⊎ ((a : A) × (m ≡ returns a))
Outcome-cases (returns a) = inr (a, refl)
Outcome-cases panics = inl refl

pub returns-injective {ℓ} : {A : Type ℓ} (a b : A) → returns a ≡ returns b → a ≡ b
returns-injective a b e = cc

pub deref-eq-returns {ℓ} : {A : Type ℓ} (m : Option A) {a : A} → deref m ≡ returns a → m ≡ some a
deref-eq-returns none e = cc
deref-eq-returns (some a) e = cc
