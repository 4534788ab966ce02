-- ===== src/Table/Preserve.antt =====
-- A reload and the destruction of the old set of tables, src/kern/npf_tableset.c.
use npf.Prelude.{
  ℕ, zero, suc, ◌+◌, ◌≤◌, ◌<◌, ◌≡◌, ◌≢◌, ◌↔◌, inl, inr, refl, sym, ap, ◌∙◌, subst, arith,
  Option-cases, List, [], some, update, update_other, In, u32_mod,
}
use npf.Thmap.{Thmap}
use npf.Lpm.{Lpm}
use npf.Table.Set.{
  Tableset, Tables, kept, reload_slot, reload_loop, tableset_reload, destroy_loop, tableset_destroy,
}
use npf.Table.References.{refers, refs, refs-update, refs-some, refs_le}
use npf.Table.Reload.{
  Counted, exchange, exchange-Counted, drop_ref, drop-Counted, kept_slot, refers_self, refers_ne,
}

-- The references to a table from both sets.
abbrev pub both : Tableset → Tableset → ℕ → ℕ
both nts ots p = refs nts.slots p 0 nts.nitems + refs ots.slots p 0 ots.nitems

-- The tables in the slots from `tid` on have no reference but that slot's.
abbrev pub IsFresh : Tableset → Tableset → ℕ → Type 0
IsFresh nts ots tid =
    (i p : ℕ) → tid ≤ i → i < nts.nitems → nts.slots i ≡ some p → both nts ots p ≡ 1

module _ (maps : Thmap (List ℕ) ℕ) (lpms : Lpm) where
  -- The state of a reload before the turn for a slot.
  pub record IsLoading (mem : Tables maps lpms) (nts ots : Tableset) (before : ℕ → ℕ) (tid : ℕ)
      : Type 0 where
    pub counted : Counted maps lpms mem (both nts ots) before
    pub fresh : IsFresh nts ots tid
    pub small : nts.nitems + ots.nitems + 1 < u32_mod

  -- The new set after an exchange.
  abbrev swapped : Tableset → ℕ → ℕ → Tableset
  swapped nts tid q = record nts { slots = update nts.slots tid (some q) }

  exchange-IsLoading :
      (mem : Tables maps lpms) (nts ots : Tableset) (before : ℕ → ℕ) (tid p q : ℕ)
      → IsLoading mem nts ots before tid
      → tid < nts.nitems
      → nts.slots tid ≡ some p
      → 0 < refs ots.slots q 0 ots.nitems
      → IsLoading (exchange maps lpms mem p q tid) (swapped nts tid q) ots before (tid + 1)
  exchange-IsLoading mem nts ots before tid p q l below slot old =
      let one = l.fresh tid p (omega arith) below slot in
      let here = refs-some nts.slots p 0 nts.nitems tid (omega arith) (omega arith) slot in
      let ne : p ≢ q =
        λ e. absurd (omega (arith, one, here, old, ap (λ x. refs ots.slots x 0 ots.nitems) e)) in
      let step : (r : ℕ)
          → both (swapped nts tid q) ots r + refers (some p) r
            ≡ both nts ots r + refers (some q) r =
        λ r. omega (
          arith,
          refs-update nts.slots r 0 nts.nitems tid (some q) (omega arith) (omega arith),
          ap (λ x. refers x r) slot,
        ) in
      record {
        counted =
            exchange-Counted maps lpms mem (both nts ots) (both (swapped nts tid q) ots) before p q
              tid l.counted step ne one (omega (arith, old))
              (omega (
                arith,
                l.small,
                refs_le nts.slots q 0 nts.nitems,
                refs_le ots.slots q 0 ots.nitems,
              ));
        fresh = λ i r low high there.
            let away : tid ≢ i = λ e. absurd (omega arith) in
            let was = sym (update_other nts.slots tid i (some q) away) ∙ there in
            let alone = l.fresh i r (omega arith) high was in
            let held = refs-some nts.slots r 0 nts.nitems i (omega arith) (omega arith) was in
            let not_q : q ≢ r = λ e.
              absurd (omega (arith, alone, held, old, ap (λ x. refs ots.slots x 0 ots.nitems) e)) in
            let still =
              refs-some (update nts.slots tid (some q)) r 0 nts.nitems i (omega arith) (omega arith)
                there in
            let not_p : p ≢ r = λ e. absurd (
              omega (
                arith,
                alone,
                still,
                step r,
                refers_ne q r not_q,
                refers_self r,
                ap (λ x. refers (some x) r) e,
              )) in
            omega (arith, alone, step r, refers_ne p r not_p, refers_ne q r not_q);
        small = l.small;
      }

  later-IsLoading :
      (mem : Tables maps lpms) (nts ots : Tableset) (before : ℕ → ℕ) (tid : ℕ)
      → IsLoading mem nts ots before tid
      → IsLoading mem nts ots before (tid + 1)
  later-IsLoading mem nts ots before tid l = record {
    counted = l.counted;
    fresh = λ i p low high there. l.fresh i p (omega arith) high there;
    small = l.small;
  }

  -- A turn keeps the state and the size of the set.
  turn-IsLoading :
      (mem : Tables maps lpms) (nts ots : Tableset) (before : ℕ → ℕ) (tid : ℕ)
      → IsLoading mem nts ots before tid
      → tid < nts.nitems
      → IsLoading
          (reload_slot maps lpms mem nts ots tid).0
          (reload_slot maps lpms mem nts ots tid).1
          ots
          before
          (tid + 1)
        × ((reload_slot maps lpms mem nts ots tid).1.nitems ≡ nts.nitems)
  unfolding reload_slot
  turn-IsLoading mem nts ots before tid l below = elim (Option-cases (nts.slots tid)) [
    | inl free ↦ rw (free, reload_slot) (later-IsLoading mem nts ots before tid l, refl)
    | inr (p, slot) ↦ elim (Option-cases (kept maps lpms mem ots p)) [
      | inl new ↦ rw (slot, new, reload_slot) (later-IsLoading mem nts ots before tid l, refl)
      | inr (q, keep) ↦
          let old = kept_slot maps lpms mem ots p q keep in
          rw (slot, keep, reload_slot)
            (exchange-IsLoading mem nts ots before tid p q l below slot old, refl)
    ]
  ]

  loop-IsLoading :
      (mem : Tables maps lpms) (nts ots : Tableset) (before : ℕ → ℕ) (tid left : ℕ)
      → IsLoading mem nts ots before tid
      → tid + left ≡ nts.nitems
      → IsLoading
          (reload_loop maps lpms mem nts ots tid left).0
          (reload_loop maps lpms mem nts ots tid left).1
          ots
          before
          (tid + left)
  unfolding reload_loop
  loop-IsLoading mem nts ots before tid zero l end =
      subst (λ i. IsLoading mem nts ots before i) (omega arith) l
  loop-IsLoading mem nts ots before tid (suc left) l end =
      let next = turn-IsLoading mem nts ots before tid l (omega (arith, end)) in
      let turn = reload_slot maps lpms mem nts ots tid in
      let rest =
        loop-IsLoading turn.0 turn.1 ots before (tid + 1) left next.0
          (omega (arith, next.1, end)) in
      subst
        (λ i.
          IsLoading (reload_loop maps lpms turn.0 turn.1 ots (tid + 1) left).0
            (reload_loop maps lpms turn.0 turn.1 ots (tid + 1) left).1 ots before i)
        (omega arith) rest

  -- The old set drops its references one after another.
  destroy-Counted :
      (mem : Tables maps lpms) (ots : Tableset) (new before : ℕ → ℕ) (tid left : ℕ)
      → Counted maps lpms mem (λ p. new p + refs ots.slots p tid left) before
      → ((p : ℕ) → new p + refs ots.slots p tid left < u32_mod)
      → Counted maps lpms (destroy_loop maps lpms mem ots tid left) new before
  unfolding destroy_loop refs
  destroy-Counted mem ots new before tid zero c small = record {
    refcnt = λ p. omega (arith, c.refcnt p);
    freed = λ p i. omega (arith, c.freed p i);
    lost = λ p had gone. c.lost p had (omega (arith, gone));
  }
  destroy-Counted mem ots new before tid (suc left) c small = elim (Option-cases (ots.slots tid)) [
    | inl free ↦
        let same : (p : ℕ) → refers (ots.slots tid) p ≡ 0 = λ p. ap (λ x. refers x p) free in
        rw (free, destroy_loop)
          (destroy-Counted mem ots new before (tid + 1) left
            (record {
              refcnt = λ p. omega (arith, c.refcnt p, same p);
              freed = λ p i. omega (arith, c.freed p i, same p);
              lost = λ p had gone. c.lost p had (omega (arith, gone, same p));
            })
            (λ p. omega (arith, small p)))
    | inr (q, slot) ↦
        let same : (p : ℕ) → refers (ots.slots tid) p ≡ refers (some q) p =
          λ p. ap (λ x. refers x p) slot in
        let dropped =
          drop-Counted maps lpms mem
            (λ p. new p + (refers (ots.slots tid) p + refs ots.slots p (tid + 1) left))
            (λ p. new p + refs ots.slots p (tid + 1) left) before q c (λ p. omega (arith, same p))
            (small q) in
        rw (slot, destroy_loop)
          (destroy-Counted (drop_ref maps lpms mem q) ots new before (tid + 1) left dropped
            (λ p. omega (arith, small p)))
  ]

  -- When each table counts its references from a new set and an old one, of fewer than 2^32 - 1 slots
  -- together, nothing is destroyed, and the tables of the new set have that reference only, then after a reload and the destruction of the old
  -- set each table that either set held counts the slots of the resulting set that hold it, and it is
  -- destroyed exactly if none does.
  pub reload_keeps :
      (mem : Tables maps lpms) (nts ots : Tableset) (p : ℕ)
      → ((q : ℕ) → (mem.at q).refcnt ≡ both nts ots q)
      → mem.destroyed ≡ []
      → IsFresh nts ots 0
      → nts.nitems + ots.nitems + 1 < u32_mod
      → 0 < both nts ots p
      → ((tableset_destroy maps lpms (tableset_reload maps lpms mem nts ots).0 ots).at p).refcnt
          ≡ refs
              (tableset_reload maps lpms mem nts ots).1.slots
              p
              0
              (tableset_reload maps lpms mem nts ots).1.nitems
        × (In p (tableset_destroy maps lpms (tableset_reload maps lpms mem nts ots).0 ots).destroyed
            ↔ (refs
                  (tableset_reload maps lpms mem nts ots).1.slots
                  p
                  0
                  (tableset_reload maps lpms mem nts ots).1.nitems
                ≡ 0))
  unfolding tableset_reload tableset_destroy
  reload_keeps mem nts ots p counts nothing fresh small had =
      let start : IsLoading mem nts ots (both nts ots) 0 = record {
        counted = record {
          refcnt = counts;
          freed = λ q i. absurd (subst (λ l. In q l) nothing i);
          lost = λ q some_ref gone. absurd (omega (arith, some_ref, gone));
        };
        fresh = fresh;
        small = small;
      } in
      let done = loop-IsLoading mem nts ots (both nts ots) 0 nts.nitems start (omega arith) in
      let loaded = reload_loop maps lpms mem nts ots 0 nts.nitems in
      let c =
        destroy-Counted loaded.0 ots (λ q. refs loaded.1.slots q 0 loaded.1.nitems) (both nts ots) 0
          ots.nitems done.counted
          (λ q. omega (
            arith,
            done.small,
            refs_le loaded.1.slots q 0 loaded.1.nitems,
            refs_le ots.slots q 0 ots.nitems,
          )) in
      (c.refcnt p, (c.freed p, c.lost p had))
