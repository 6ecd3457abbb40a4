-- ===== src/Common/Texts.antt =====
-- Go strings as byte lists: `==` and `<` compare them byte by byte.
use Prim.Native.Nat.{ℕ, compare, Ordering}
use Prim.Native.Char.{code}
use Prim.Native.String.{String}
use mathlib.Core.Path.{◌≡◌, refl}
use mathlib.Core.Logic.{◌↔◌, ◌⊎◌, inl, inr, ◌≢◌}
use mathlib.Core.Bool.{Bool, true, false, ◌&&◌}
use mathlib.Core.List.{List, [], ◌∷◌}
use native.Mathlib.Omega.{arith}
use native.Mathlib.Decide.{ℕ_discrete}
use replicated_file_system.Common.Tests.{◌==◌}

abbrev pub Text : Type 0
Text = List ℕ

-- A string literal of the source; all of them are ASCII.
abbrev pub codes : String → Text
codes String.[] = []
codes (String.◌∷◌ c s) = code c ∷ codes s

unfoldable pub text_eq : Text → Text → Bool
text_eq [] [] = true
text_eq (x ∷ xs) (y ∷ ys) = (x == y) && text_eq xs ys
text_eq _ _ = false

unfoldable pub text_lt : Text → Text → Bool
text_lt _ [] = false
text_lt [] (y ∷ ys) = true
text_lt (x ∷ xs) (y ∷ ys) = elim (compare x y) [
  | Ordering.lt ↦ true
  | Ordering.eq ↦ text_lt xs ys
  | Ordering.gt ↦ false
]

pub text_eq→eq : (s t : Text) → text_eq s t ≡ true → s ≡ t
unfolding text_eq
text_eq→eq [] [] h = refl
text_eq→eq (x ∷ xs) (y ∷ ys) h = ground (arith, text_eq→eq xs ys)
text_eq→eq [] (y ∷ ys) h = cc
text_eq→eq (x ∷ xs) [] h = cc

pub text_eq_refl : (s : Text) → text_eq s s ≡ true
unfolding text_eq
text_eq_refl [] = refl
text_eq_refl (x ∷ xs) = ground (arith, text_eq_refl xs)

pub text_eq_iff : (s t : Text) → (text_eq s t ≡ true) ↔ (s ≡ t)
text_eq_iff s t = (text_eq→eq s t, λ e. rw e (text_eq_refl t))

-- The order is irreflexive, total on distinct strings, and asymmetric.
pub text_lt_irrefl : (s : Text) → text_lt s s ≡ false
unfolding text_lt
text_lt_irrefl [] = refl
text_lt_irrefl (x ∷ xs) = ground (arith, text_lt_irrefl xs)

pub text_lt_total : (s t : Text) → s ≢ t → (text_lt s t ≡ true) ⊎ (text_lt t s ≡ true)
unfolding text_lt
text_lt_total [] [] h = absurd (h refl)
text_lt_total [] (y ∷ ys) h = inl refl
text_lt_total (x ∷ xs) [] h = inr refl
text_lt_total (x ∷ xs) (y ∷ ys) h = ground (arith, text_lt_total xs ys)

pub text_lt_asymm : (s t : Text) → text_lt s t ≡ true → text_lt t s ≡ false
unfolding text_lt
text_lt_asymm [] [] h = refl
text_lt_asymm [] (y ∷ ys) h = refl
text_lt_asymm (x ∷ xs) [] h = cc
text_lt_asymm (x ∷ xs) (y ∷ ys) h = ground (arith, text_lt_asymm xs ys)

pub Text-discrete : Discrete Text
Text-discrete = hlevel ℕ_discrete
