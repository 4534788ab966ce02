-- ===== src/Table/Reload.antt =====
-- What a reload of the tables keeps and destroys, src/kern/npf_tableset.c.
use mathlib.Core.Option.{some-injective}
use npf.Prelude.{
  ℕ, zero, suc, ◌+◌, ◌≤◌, ◌<◌, ◌≡◌, ◌≢◌, inl, inr, refl, sym, ap, ◌∙◌, subst, arith, true,
  Bool-cases, Option-cases, List, Option, some, ◌==◌, ==→eq, ==→ne, ==-refl, if◌then◌else◌, update,
  update_same, update_other, add32, sub32, In, u32_mod,
}
use Prim.Native.String.{String}
use npf.Thmap.{Thmap}
use npf.Lpm.{Lpm}
use npf.Table.{Table}
use npf.Table.Set.{
  Tableset, Tables, with_refcnt, destroy, same_type, same_name, find_name, tableset_getbyname, kept,
}
use npf.Table.References.{refers, refs, refs-some}

pub refers_self : (p : ℕ) → refers (some p) p ≡ 1
refers_self p = rw (==-refl p) refl

pub refers_ne : (q p : ℕ) → q ≢ p → refers (some q) p ≡ 0
refers_ne q p ne = ground (arith, ne)

module _ (maps : Thmap (List ℕ) ℕ) (lpms : Lpm) where
  -- The slot in which a name is found.
  pub find_name_slot :
      (mem : Tables maps lpms) (slots : ℕ → Option ℕ) (name : String) (tid left q : ℕ)
      → find_name maps lpms mem slots name tid left ≡ some q
      → (i : ℕ) × (tid ≤ i)
        × (i < tid + left)
        × (slots i ≡ some q)
        × (same_name name (mem.at q).name ≡ true)
  unfolding find_name
  find_name_slot mem slots name tid zero q e = cc e
  find_name_slot mem slots name tid (suc left) q e =
      let later = find_name_slot mem slots name (tid + 1) left q in
      elim (Option-cases (slots tid)) [
        | inl free ↦
            let there = later (rw (free, find_name) at e) in
            (there.0, omega (arith, there.1), omega (arith, there.2), there.3, there.4)
        | inr (p, slot) ↦ elim (Bool-cases (same_name name (mem.at p).name)) [
          | inl same ↦ (
            tid,
            omega arith,
            omega arith,
            (let r = rw same at (rw (slot, find_name) at e) in slot ∙ r),
            (let r = rw same at (rw (slot, find_name) at e) in
                subst (λ x. same_name name (mem.at x).name ≡ true) (some-injective p q r) same),
          )
          | inr other ↦
              let there = later (rw other at (rw (slot, find_name) at e)) in
              (there.0, omega (arith, there.1), omega (arith, there.2), there.3, there.4)
        ]
      ]

  -- The table that a reload keeps is in the old set.
  pub kept_slot :
      (mem : Tables maps lpms) (ots : Tableset) (p q : ℕ)
      → kept maps lpms mem ots p ≡ some q
      → 0 < refs ots.slots q 0 ots.nitems
  unfolding kept tableset_getbyname
  kept_slot mem ots p q e = elim (Bool-cases ((mem.at p).nitems == 0)) [
    | inr used ↦ cc (rw used at e)
    | inl empty ↦
        elim (Option-cases (find_name maps lpms mem ots.slots (mem.at p).name 0 ots.nitems)) [
          | inl new_name ↦ cc (rw new_name at (rw empty at e))
          | inr (x, there) ↦ elim (Bool-cases (same_type (mem.at p).type (mem.at x).type)) [
            | inr changed ↦ cc (rw changed at (rw there at (rw empty at e)))
            | inl same ↦
                let found = find_name_slot mem ots.slots (mem.at p).name 0 ots.nitems x there in
                let slot = found.3 ∙ rw same at (rw there at (rw empty at e)) in
                refs-some ots.slots q 0 ots.nitems found.0 (omega arith) (omega (arith, found.2))
                  slot
          ]
        ]
  ]

  -- Each table counts its references, and the tables that had one and have none are those destroyed.
  pub record Counted (mem : Tables maps lpms) (count before : ℕ → ℕ) : Type 0 where
    pub refcnt : (p : ℕ) → (mem.at p).refcnt ≡ count p
    pub freed : (p : ℕ) → In p mem.destroyed → count p ≡ 0
    pub lost : (p : ℕ) → 0 < before p → count p ≡ 0 → In p mem.destroyed

  -- A reference of `p` is dropped.
  abbrev pub drop_ref : Tables maps lpms → ℕ → Tables maps lpms
  drop_ref mem p =
      let left = sub32 (mem.at p).refcnt 1 in
      if left == 0
      then destroy maps lpms (with_refcnt maps lpms mem p left) p
      else with_refcnt maps lpms mem p left

  refcnt_same :
      (mem : Tables maps lpms) (p r v : ℕ)
      → p ≡ r
      → ((with_refcnt maps lpms mem p v).at r).refcnt ≡ v
  refcnt_same mem p r v e =
      ap (λ x. x.refcnt) (update_same mem.at p r (record (mem.at p) { refcnt = v }) e)

  refcnt_other :
      (mem : Tables maps lpms) (p r v : ℕ)
      → p ≢ r
      → ((with_refcnt maps lpms mem p v).at r).refcnt ≡ (mem.at r).refcnt
  refcnt_other mem p r v ne =
      ap (λ x. x.refcnt) (update_other mem.at p r (record (mem.at p) { refcnt = v }) ne)

  -- The memory after a turn of the reload that keeps `q` in place of `p`.
  abbrev pub exchange : Tables maps lpms → ℕ → ℕ → ℕ → Tables maps lpms
  exchange mem p q tid =
      let old = mem.at q in
      let held : Tables maps lpms = record mem {
        at = update mem.at q (record old { refcnt = add32 old.refcnt 1; id = tid });
      } in
      destroy maps lpms (with_refcnt maps lpms held p (sub32 (held.at p).refcnt 1)) p

  pub drop-Counted :
      (mem : Tables maps lpms) (count count' before : ℕ → ℕ) (p : ℕ)
      → Counted mem count before
      → ((r : ℕ) → refers (some p) r + count' r ≡ count r)
      → count p < u32_mod
      → Counted (drop_ref mem p) count' before
  drop-Counted mem count count' before p c step small =
      let left = sub32 (mem.at p).refcnt 1 in
      let value : left ≡ count' p = omega (arith, c.refcnt p, step p, refers_self p) in
      let counts : (r : ℕ) → ((with_refcnt maps lpms mem p left).at r).refcnt ≡ count' r = λ r.
        elim (Bool-cases (p == r)) [
          | inl here ↦ let e = ==→eq p r here in refcnt_same mem p r left e ∙ value ∙ ap count' e
          | inr there ↦
              let ne = ==→ne p r there in
              omega (arith, refcnt_other mem p r left ne, c.refcnt r, step r, refers_ne p r ne)
        ] in
      elim (Bool-cases (left == 0)) [
        | inl zeroed ↦ rw zeroed (record {
          refcnt = counts;
          freed = λ r i. elim i [
            | inl e ↦ ap count' e ∙ (sym value ∙ ==→eq left 0 zeroed)
            | inr j ↦ omega (arith, step r, c.freed r j)
          ];
          lost = λ r had gone. elim (Bool-cases (p == r)) [
            | inl here ↦ inl (sym (==→eq p r here))
            | inr there ↦
                inr (c.lost r had (omega (arith, step r, refers_ne p r (==→ne p r there))))
          ];
        })
        | inr more ↦ rw more (record {
          refcnt = counts;
          freed = λ r i. omega (arith, step r, c.freed r i);
          lost = λ r had gone. elim (Bool-cases (p == r)) [
            | inl here ↦ absurd (==→ne left 0 more (value ∙ (ap count' (==→eq p r here) ∙ gone)))
            | inr there ↦ c.lost r had (omega (arith, step r, refers_ne p r (==→ne p r there)))
          ];
        })
      ]

  -- An old table takes the place of a new one that has no other reference.
  pub exchange-Counted :
      (mem : Tables maps lpms) (count count' before : ℕ → ℕ) (p q tid : ℕ)
      → Counted mem count before
      → ((r : ℕ) → count' r + refers (some p) r ≡ count r + refers (some q) r)
      → p ≢ q
      → count p ≡ 1
      → 0 < count q
      → count q + 1 < u32_mod
      → Counted (exchange mem p q tid) count' before
  exchange-Counted mem count count' before p q tid c step ne one some_old small =
      let old = mem.at q in
      let used : Table maps lpms = record old { refcnt = add32 old.refcnt 1; id = tid } in
      let held : Tables maps lpms = record mem { at = update mem.at q used } in
      let new_refs : (held.at p).refcnt ≡ 1 =
        ap (λ x. x.refcnt) (update_other mem.at q p used (λ e. ne (sym e))) ∙ (c.refcnt p ∙ one) in
      let left = sub32 (held.at p).refcnt 1 in
      let value : left ≡ 0 = omega (arith, new_refs) in
      let gone : count' p ≡ 0 =
        omega (arith, step p, refers_self p, refers_ne q p (λ e. ne (sym e))) in
      record {
        refcnt = λ r. elim (Bool-cases (p == r)) [
          | inl here ↦
              let e = ==→eq p r here in
              refcnt_same held p r left e ∙ (value ∙ (sym gone ∙ ap count' e))
          | inr there ↦
              let other = refcnt_other held p r left (==→ne p r there) in
              elim (Bool-cases (q == r)) [
                | inl here ↦
                    let e = ==→eq q r here in
                    let more = ap (λ x. x.refcnt) (update_same mem.at q r used e) in
                    let old_refs = c.refcnt q in
                    let same = ap count e in
                    other
                    ∙ (more
                        ∙ omega (
                          arith,
                          old_refs,
                          same,
                          step r,
                          refers_ne p r (==→ne p r there),
                          refers_self r,
                          ap (λ x. refers (some x) r) e,
                        ))
                | inr away ↦
                    let old_refs =
                      ap (λ x. x.refcnt) (update_other mem.at q r used (==→ne q r away)) in
                    other
                    ∙ (old_refs
                        ∙ omega (
                          arith,
                          c.refcnt r,
                          step r,
                          refers_ne p r (==→ne p r there),
                          refers_ne q r (==→ne q r away),
                        ))
              ]
        ];
        freed = λ r i. elim i [
          | inl e ↦ ap count' e ∙ gone
          | inr j ↦ elim (Bool-cases (q == r)) [
            | inl here ↦ absurd (omega (arith, some_old, c.freed r j, ap count (==→eq q r here)))
            | inr away ↦ omega (arith, step r, c.freed r j, refers_ne q r (==→ne q r away))
          ]
        ];
        lost = λ r had gone. elim (Bool-cases (p == r)) [
          | inl here ↦ inl (sym (==→eq p r here))
          | inr there ↦ inr (c.lost r had (omega (arith, step r, refers_ne p r (==→ne p r there))))
        ];
      }
