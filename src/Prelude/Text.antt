-- ===== src/Prelude/Text.antt =====
-- Equality of names is decidable.
use Prim.Native.String.{String}
use mathlib.Core.Path.{◌≡◌, sym, ◌∙◌}
use mathlib.Core.Logic.{inl, inr}
use mathlib.Core.Bool.{true, false, false≢true}
use text.Mathlib.Text.{◌==◌}
use text.Mathlib.TextEquality.{eq_iff}
use npf.Prelude.Tests.{Bool-cases}

unfoldable pub name_eq : Discrete String
unfolding Bool-cases
name_eq s t = elim (Bool-cases (s == t)) [
  | inl e ↦ yes ((eq_iff s t).0 e)
  | inr e ↦ no (λ p. absurd (different e ((eq_iff s t).1 p)))
]
  where
    different : (s == t) ≡ false → (s == t) ≡ true → ⊥
    different p q = false≢true (sym p ∙ q)
