-- ===== src/Prelude/Equality.antt =====
-- reflect.DeepEqual, by the decisions that the parts of a type give.
use Prim.Native.String.{String}
use mathlib.Core.Bool.{Bool, true, false, false≢true}
use mathlib.Core.Logic.{◌↔◌, inl, inr}
use mathlib.Core.Path.{◌≡◌, refl}
use native.Mathlib.Decide.{ℕ_discrete}
use text.Mathlib.Text.{◌==◌}
use text.Mathlib.TextEquality.{eq_iff}
use vlanman.Prelude.Tests.{Bool-cases, ℤ}

pub String-discrete : Discrete String
String-discrete s t = elim (Bool-cases (s == t)) [
  | inl same ↦ yes ((eq_iff s t).0 same)
  | inr other ↦ no (λ p. different s t other ((eq_iff s t).1 p))
]
  where
    different : (s t : String) → (s == t) ≡ false → (s == t) ≡ true → ⊥
    different s t e f = cc

pub ℤ-discrete : Discrete ℤ
ℤ-discrete = hlevel ℕ_discrete

abbrev decided {ℓ} : {P : Type ℓ} → Dec P → Bool
decided (yes _) = true
decided (no _) = false

decided_iff {ℓ} : {P : Type ℓ} (d : Dec P) → (decided d ≡ true) ↔ P
decided_iff (yes p) = (λ _. p, λ _. refl)
decided_iff (no n) = (λ h. absurd (false≢true h), λ p. absurd (n p))

module _ {ℓ} {A : Type ℓ} (dec : Discrete A) where
  pub deep_equal : A → A → Bool
  deep_equal a b = decided (dec a b)

  pub deep_equal_iff : (a b : A) → (deep_equal a b ≡ true) ↔ (a ≡ b)
  unfolding deep_equal
  deep_equal_iff a b = decided_iff (dec a b)
