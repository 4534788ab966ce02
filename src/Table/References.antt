-- ===== src/Table/References.antt =====
-- The count of the references to a table through a reload, src/kern/npf_tableset.c.
use npf.Prelude.{
  ℕ, zero, suc, ◌+◌, ◌≤◌, ◌<◌, ◌≡◌, ◌≢◌, inl, inr, refl, sym, ap, ◌∙◌, arith, Bool-cases,
  Option-cases, Option, none, some, ◌==◌, ==→eq, ==→ne, ==-refl, if◌then◌else◌, update, update_same,
  update_other,
}

-- Whether a slot refers to a table.
abbrev pub refers : Option ℕ → ℕ → ℕ
refers none p = 0
refers (some q) p = if q == p then 1 else 0

-- How many of `left` slots from `tid` on refer to a table.
unfoldable pub refs : (ℕ → Option ℕ) → ℕ → ℕ → ℕ → ℕ
refs slots p tid zero = 0
refs slots p tid (suc left) = refers (slots tid) p + refs slots p (tid + 1) left

refs_below :
    (slots : ℕ → Option ℕ) (p tid left i : ℕ) (o : Option ℕ)
    → i < tid
    → refs (update slots i o) p tid left ≡ refs slots p tid left
unfolding refs
refs_below slots p tid zero i o below = refl
refs_below slots p tid (suc left) i o below =
    let other = update_other slots i tid o (λ e. absurd (omega arith)) in
    rw (other, refs_below slots p (tid + 1) left i o (omega arith)) refl

-- A write to a slot moves one reference.
pub refs-update :
    (slots : ℕ → Option ℕ) (p tid left i : ℕ) (o : Option ℕ)
    → tid ≤ i
    → i < tid + left
    → refs (update slots i o) p tid left + refers (slots i) p ≡ refs slots p tid left + refers o p
unfolding refs
refs-update slots p tid zero i o low high = absurd (omega arith)
refs-update slots p tid (suc left) i o low high = elim (Bool-cases (i == tid)) [
  | inl here ↦
      let e = ==→eq i tid here in
      let same = ap (λ x. refers x p) (update_same slots i tid o e) in
      let old = ap (λ x. refers (slots x) p) e in
      omega (arith, same, old, refs_below slots p (tid + 1) left i o (omega arith))
  | inr there ↦
      let ne : i ≢ tid = ==→ne i tid there in
      let lt : suc tid ≤ i = omega (arith, ne) in
      let other = ap (λ x. refers x p) (update_other slots i tid o ne) in
      omega (arith, other, refs-update slots p (tid + 1) left i o (omega arith) (omega arith))
]

-- A slot that refers to a table counts.
pub refs-some :
    (slots : ℕ → Option ℕ) (p tid left i : ℕ)
    → tid ≤ i
    → i < tid + left
    → slots i ≡ some p
    → 0 < refs slots p tid left
unfolding refs
refs-some slots p tid zero i low high e = absurd (omega arith)
refs-some slots p tid (suc left) i low high e = elim (Bool-cases (i == tid)) [
  | inl here ↦
      let q = ap slots (sym (==→eq i tid here)) ∙ e in
      let one : refers (slots tid) p ≡ 1 = rw (q, ==-refl p) refl in omega (arith, one)
  | inr there ↦
      let ne : i ≢ tid = ==→ne i tid there in
      omega (arith, ne, refs-some slots p (tid + 1) left i (omega (arith, ne)) (omega arith) e)
]

pub refs_le : (slots : ℕ → Option ℕ) (p tid left : ℕ) → refs slots p tid left ≤ left
unfolding refs
refs_le slots p tid zero = omega arith
refs_le slots p tid (suc left) = elim (Option-cases (slots tid)) [
  | inl free ↦ rw free (omega (arith, refs_le slots p (tid + 1) left))
  | inr (q, there) ↦ rw there (ground (arith, refs_le slots p (tid + 1) left))
]
