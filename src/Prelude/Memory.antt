-- ===== src/Prelude/Memory.antt =====
-- Memory as a function from addresses, and lists of addresses.
use Prim.Native.Nat.{ℕ, suc}
use mathlib.Core.List.{List, [], ◌∷◌}
use mathlib.Core.Logic.{◌≢◌, ◌⊎◌, inl, inr}
use native.Mathlib.Omega.{arith}
use mathlib.Core.Path.{◌≡◌, sym, ◌∙◌}
use npf.Prelude.Tests.{◌==◌, ==→eq, ==-refl, Bool-cases, if◌then◌else◌}
use npf.Prelude.Lists.{length}

-- A write to one address.
abbrev pub update {ℓ} : {A : Type ℓ} → (ℕ → A) → ℕ → A → ℕ → A
update cells p v q = if p == q then v else cells q

abbrev pub In : ℕ → List ℕ → Type 0
In a [] = ⊥
In a (x ∷ xs) = (a ≡ x) ⊎ In a xs

-- `LIST_REMOVE`
unfoldable pub without : ℕ → List ℕ → List ℕ
without a [] = []
without a (x ∷ xs) = let shorter = without a xs in if a == x then xs else x ∷ shorter

module _ {ℓ} {A : Type ℓ} where
  pub update_same : (cells : ℕ → A) (p q : ℕ) (v : A) → p ≡ q → update cells p v q ≡ v
  update_same cells p q v e = ground (arith, e)

  pub update_other : (cells : ℕ → A) (p q : ℕ) (v : A) → p ≢ q → update cells p v q ≡ cells q
  update_other cells p q v ne = ground (arith, ne)

pub In-without : (x e : ℕ) (xs : List ℕ) → In x xs → e ≢ x → In x (without e xs)
unfolding without
In-without x e [] i ne = absurd i
In-without x e (y ∷ xs) (inl p) ne = elim (Bool-cases (e == y)) [
  | inl q ↦ absurd (ne (==→eq e y q ∙ sym p))
  | inr q ↦ rw q (inl p)
]
In-without x e (y ∷ xs) (inr i) ne = elim (Bool-cases (e == y)) [
  | inl q ↦ rw q i
  | inr q ↦ rw q (inr (In-without x e xs i ne))
]

pub length-without : (e : ℕ) (xs : List ℕ) → In e xs → suc (length (without e xs)) ≡ length xs
unfolding without
length-without e [] i = absurd i
length-without e (y ∷ xs) (inl p) = ground (arith, p, ==-refl e)
length-without e (y ∷ xs) (inr i) = ground (arith, length-without e xs i)
