-- ===== src/Ifmap/Register.antt =====
-- The numbers of interfaces: one for each name, and others after a flush.
use Prim.Native.String.{String}
use npf.Prelude.{
  ℕ, ◌+◌, ◌<◌, ◌≤◌, ◌≡◌, ◌≢◌, ◌⊎◌, ◌↔◌, inl, inr, refl, ap, arith, List, [], ◌∷◌, ◌++◌, Option,
  ◌==◌, length, u32_mod, name_eq, Bool-cases, length-append,
}
use mathlib.Core.Logic.{ite}
use npf.Ifmap.{
  Ifmap, max_ifmap, stored, slot2id, lookup_from, ifmap_lookup, ifmap_register, ifmap_flush,
}

-- The numbers of the slots do not wrap.
abbrev pub IsIfmap : Ifmap → Type 0
IsIfmap ifmap = (length ifmap.names ≤ max_ifmap) × (ifmap.off + max_ifmap < u32_mod)

-- A lookup finds nothing, or the number of a slot that it goes through.
lookup_range :
    (off i : ℕ) (names : List String) (name : String)
    → off + i + length names < u32_mod
    → (lookup_from off i names name ≡ 0)
      ⊎ ((off + i < lookup_from off i names name)
          × (lookup_from off i names name ≤ off + i + length names))
unfolding lookup_from
lookup_range off i [] name h = inl refl
lookup_range off i (n ∷ rest) name h =
    let later = lookup_range off (i + 1) rest name (omega arith) in ground (arith, later)

-- A name that is looked up in a list with one more.
lookup_append :
    (off i : ℕ) (names : List String) (name other : String)
    → off + i + length names + 1 < u32_mod
    → ((lookup_from off i names other ≡ 0)
        → lookup_from off i (names ++ (name ∷ [])) other
          ≡ ite (name_eq name other) (slot2id off (i + length names)) 0)
      × ((lookup_from off i names other ≢ 0)
          → lookup_from off i (names ++ (name ∷ [])) other ≡ lookup_from off i names other)
unfolding lookup_from
lookup_append off i [] name other h = ground arith
lookup_append off i (n ∷ rest) name other h =
    let later = lookup_append off (i + 1) rest name other (omega arith) in
    let same : i + 1 + length rest ≡ i + length (n ∷ rest) = omega arith in
    ground (arith, later, ap (slot2id off) same)

-- While numbers do not wrap, and for a name that is stored whole, registering it answers zero only if it is new and all slots are in
-- use; otherwise it gives the number under which the name is found afterwards, and every other name
-- keeps its number.
pub ifmap_lookup-ifmap_register :
    (ifops_lookup : String → Option ℕ) (ifmap : Ifmap) (name other : String)
    → IsIfmap ifmap
    → stored name ≡ name
    → let r = ifmap_register ifops_lookup ifmap name in
      (ifmap_lookup r.1 name ≡ r.0)
      × ((r.0 ≡ 0) ↔ ((ifmap_lookup ifmap name ≡ 0) × (length ifmap.names ≡ max_ifmap)))
      × (name ≢ other → ifmap_lookup r.1 other ≡ ifmap_lookup ifmap other)
      × IsIfmap r.1
unfolding ifmap_register
ifmap_lookup-ifmap_register ifops_lookup ifmap name other i whole =
    let range = lookup_range ifmap.off 0 ifmap.names name (omega arith) in
    let start : slot2id ifmap.off (0 + length ifmap.names)
        ≡ slot2id ifmap.off (length ifmap.names) =
      ap (slot2id ifmap.off) (omega arith) in
    let longer = length-append ifmap.names (name ∷ []) in
    elim (Bool-cases (lookup_from ifmap.off 0 ifmap.names name == 0)) [
      | inr known ↦ rw known (refl, ((λ e. ground arith), (λ p. p.0)), (λ ne. refl), i)
      | inl new ↦ elim (Bool-cases (length ifmap.names == max_ifmap)) [
        | inl full ↦ rw new (
            rw full
              (ground arith, ((λ e. (ground arith, ground arith)), (λ p. refl)), (λ ne. refl), i))
        | inr room ↦
            let left : length ifmap.names < max_ifmap = (let few = i.0 in ground arith) in
            let found = lookup_append ifmap.off 0 ifmap.names name name (omega (arith, i.1)) in
            let others = lookup_append ifmap.off 0 ifmap.names name other (omega (arith, i.1)) in
            rw new (
              rw (room, whole)
                (
                  ground (arith, found, start),
                  ((λ e. ground (arith, i.1)), (λ p. ground arith)),
                  (λ ne. ground (arith, others)),
                  (omega (arith, longer), i.1),
                ))
      ]
    ]

-- A number that a lookup gives before a flush is not the number of the first name that is registered
-- after it, while the offset is below the last step before it is reset.
pub ifmap_lookup-ifmap_flush :
    (ifops_lookup : String → Option ℕ) (ifmap : Ifmap) (old new : String)
    → IsIfmap ifmap
    → ifmap.off + max_ifmap + max_ifmap < u32_mod
    → ifmap_lookup ifmap old ≢ 0
    → (ifmap_register ifops_lookup (ifmap_flush ifmap) new).0 ≢ ifmap_lookup ifmap old
unfolding ifmap_register ifmap_flush lookup_from
ifmap_lookup-ifmap_flush ifops_lookup ifmap old new i h k =
    let range = lookup_range ifmap.off 0 ifmap.names old (omega arith) in
    λ e. ground (arith, range, i.0, i.1)
