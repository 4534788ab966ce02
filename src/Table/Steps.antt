-- ===== src/Table/Steps.antt =====
-- Each call on a table of single addresses, src/kern/npf_tableset.c, is a step of a set of addresses.
use npf.Prelude.{
  ℕ, ◌≡◌, ◌<◌, refl, sym, ap, ◌∙◌, inl, inr, Bool, true, false, Bool-cases, Option-cases, arith,
  List, [], ◌∷◌, Option, none, some, ◌==◌, ==-refl, if◌then◌else◌,
}
use npf.Inet.{netmask_check, no_netmask}
use npf.Thmap.{Thmap}
use npf.Lpm.{Lpm, same_words}
use npf.Table.{ipset, lpm, const, ifaddr, TableErrno, einval, eexist, enoent, Table}
use npf.Table.Ops.{
  Cdb, linked, unlinked, with_entry, ipset_flush, tree_flush, is_found, table_insert, table_remove,
  table_lookup, table_flush, table_gc,
}
use npf.Table.Ipset.{
  put_entry, del_entry, del_absent, flush_entry, flushed, same_words-eq, same_words-ne,
}
use npf.Table.Calls.{
  insert, remove, lookup, flush, collect, Addrs, with_addr, without_addr, set_step, Holds,
  Simulates,
}

module _ (maps : Thmap (List ℕ) ℕ) (lpms : Lpm) where
  -- The table after an insertion.
  abbrev inserted : Table maps lpms → ℕ → List ℕ → Table maps lpms
  inserted t alen addr =
      linked maps lpms
        (record (with_entry maps lpms t alen addr 0) { map = (maps.put t.map addr t.next).0 })
        t.next

  put-Holds :
      (t : Table maps lpms) (set : Addrs) (alen : ℕ) (addr : List ℕ)
      → Holds maps lpms t set
      → maps.get t.map addr ≡ none
      → Holds maps lpms (inserted t alen addr) (with_addr set addr)
  put-Holds t set alen addr h free = record {
    is_ipset = put_entry maps lpms t alen addr h.is_ipset free;
    same = λ a. elim (Bool-cases (same_words addr a)) [
      | inl q ↦
          let here = maps.get-put t.map addr t.next free in
          let there =
            ap (λ x. maps.get (maps.put t.map addr t.next).0 x) (sym (same_words-eq addr a q))
            ∙ here in
          rw (q, there) refl
      | inr q ↦
          rw q
            (ap is_found (maps.get-put_ne t.map addr a t.next (same_words-ne addr a q)) ∙ h.same a)
    ];
  }

  insert_absent :
      (memory : Bool) (t : Table maps lpms) (alen : ℕ) (addr : List ℕ) (mask : ℕ)
      → t.type ≡ ipset
      → netmask_check alen mask ≡ true
      → (mask == no_netmask) ≡ true
      → maps.get t.map addr ≡ none
      → table_insert maps lpms memory t alen addr mask ≡ (none, inserted t alen addr)
  unfolding table_insert
  insert_absent memory t alen addr mask kind good host free =
      let own = ap (λ x. x == t.next) (maps.put_absent t.map addr t.next free) ∙ ==-refl t.next in
      simp (good, kind, host, own)

  insert_present :
      (memory : Bool) (t : Table maps lpms) (alen : ℕ) (addr : List ℕ) (mask w : ℕ)
      → t.type ≡ ipset
      → netmask_check alen mask ≡ true
      → (mask == no_netmask) ≡ true
      → maps.get t.map addr ≡ some w
      → w < t.next
      → table_insert maps lpms memory t alen addr mask ≡ (some eexist, t)
  unfolding table_insert
  insert_present memory t alen addr mask w kind good host there old =
      let p = maps.put_present t.map addr t.next w there in
      let other : (w == t.next) ≡ false = ground arith in
      let stays : ((maps.put t.map addr t.next).1 == t.next) ≡ false =
        ap (λ x. x.1 == t.next) p ∙ other in
      let answer : table_insert maps lpms memory t alen addr mask
          ≡ (some eexist, record t { map = (maps.put t.map addr t.next).0 }) =
        simp (good, kind, host, stays) in
      answer ∙ ap (λ (x : maps.Map × ℕ). (some eexist, record t { map = x.0 })) p

  pub insert_step :
      (memory : Bool) (t : Table maps lpms) (set : Addrs) (alen : ℕ) (addr : List ℕ) (mask : ℕ)
      → Holds maps lpms t set
      → Simulates maps lpms
          (table_insert maps lpms memory t alen addr mask)
          (set_step set (insert alen addr mask))
  unfolding table_insert set_step
  insert_step memory t set alen addr mask h = elim (Bool-cases (netmask_check alen mask)) [
    | inr bad ↦ rw bad (refl, h)
    | inl good ↦ elim (Bool-cases (mask == no_netmask)) [
      | inr network ↦ rw (good, h.is_ipset.kind, network) (refl, h)
      | inl host ↦ elim (Option-cases (maps.get t.map addr)) [
        | inl free ↦
            let out : set addr ≡ false = sym (h.same addr) ∙ ap is_found free in
            rw
              (
                insert_absent memory t alen addr mask h.is_ipset.kind good host free,
                good,
                host,
                out,
              )
              (refl, put-Holds t set alen addr h free)
        | inr (w, there) ↦
            let found : set addr ≡ true = sym (h.same addr) ∙ ap is_found there in
            let old = (h.is_ipset.entry addr w there).0 in
            rw
              (
                insert_present memory t alen addr mask w h.is_ipset.kind good host there old,
                good,
                host,
                found,
              )
              (refl, h)
      ]
    ]
  ]

  -- The table after a removal.
  abbrev removed : Table maps lpms → List ℕ → ℕ → Table maps lpms
  removed t addr w = record (unlinked maps lpms t w) {
    map = (maps.del t.map addr).0;
    gc = w ∷ t.gc;
  }

  del_same :
      (t : Table maps lpms) (set : Addrs) (addr : List ℕ)
      → Holds maps lpms t set
      → (a : List ℕ) → is_found (maps.get (maps.del t.map addr).0 a) ≡ without_addr set addr a
  del_same t set addr h a = elim (Bool-cases (same_words addr a)) [
    | inl q ↦
        let there =
          ap (λ x. maps.get (maps.del t.map addr).0 x) (sym (same_words-eq addr a q))
          ∙ maps.get-del t.map addr in
        rw (q, there) refl
    | inr q ↦ rw q (ap is_found (maps.get-del_ne t.map addr a (same_words-ne addr a q)) ∙ h.same a)
  ]

  -- The deletion of an address that is not there.
  absent-Holds :
      (t : Table maps lpms) (set : Addrs) (addr : List ℕ)
      → Holds maps lpms t set
      → maps.get t.map addr ≡ none
      → Holds maps lpms (record t { map = (maps.del t.map addr).0 }) set
  absent-Holds t set addr h free = record {
    is_ipset = del_absent maps lpms t addr h.is_ipset;
    same = λ a. elim (Bool-cases (same_words addr a)) [
      | inl q ↦
          let p = same_words-eq addr a q in
          let out : set a ≡ false =
            sym (h.same a) ∙ ap is_found (ap (maps.get t.map) (sym p) ∙ free) in
          let there = del_same t set addr h a in there ∙ rw (q, out) refl
      | inr q ↦ del_same t set addr h a ∙ rw q refl
    ];
  }

  remove_present :
      (t : Table maps lpms) (alen : ℕ) (addr : List ℕ) (mask w : ℕ)
      → t.type ≡ ipset
      → netmask_check alen mask ≡ true
      → maps.get t.map addr ≡ some w
      → table_remove maps lpms t alen addr mask ≡ (none, removed t addr w)
  unfolding table_remove
  remove_present t alen addr mask w kind good there =
      let value = maps.del_value t.map addr ∙ there in simp (good, kind, value)

  remove_absent :
      (t : Table maps lpms) (alen : ℕ) (addr : List ℕ) (mask : ℕ)
      → t.type ≡ ipset
      → netmask_check alen mask ≡ true
      → maps.get t.map addr ≡ none
      → table_remove maps lpms t alen addr mask
        ≡ (some enoent, record t { map = (maps.del t.map addr).0 })
  unfolding table_remove
  remove_absent t alen addr mask kind good free =
      let value = maps.del_value t.map addr ∙ free in simp (good, kind, value)

  pub remove_step :
      (t : Table maps lpms) (set : Addrs) (alen : ℕ) (addr : List ℕ) (mask : ℕ)
      → Holds maps lpms t set
      → Simulates maps lpms
          (table_remove maps lpms t alen addr mask)
          (set_step set (remove alen addr mask))
  unfolding table_remove set_step
  remove_step t set alen addr mask h = elim (Bool-cases (netmask_check alen mask)) [
    | inr bad ↦ rw bad (refl, h)
    | inl good ↦ elim (Option-cases (maps.get t.map addr)) [
      | inr (w, there) ↦
          let found : set addr ≡ true = sym (h.same addr) ∙ ap is_found there in
          rw (remove_present t alen addr mask w h.is_ipset.kind good there, good, found)
            (
              refl,
              record {
                is_ipset = del_entry maps lpms t addr w h.is_ipset there;
                same = del_same t set addr h;
              },
            )
      | inl free ↦
          let out : set addr ≡ false = sym (h.same addr) ∙ ap is_found free in
          rw (remove_absent t alen addr mask h.is_ipset.kind good free, good, out)
            (refl, absent-Holds t set addr h free)
    ]
  ]

  lookup_found :
      (cdb : Cdb) (t : Table maps lpms) (alen : ℕ) (addr : List ℕ)
      → t.type ≡ ipset
      → netmask_check alen no_netmask ≡ true
      → table_lookup maps lpms cdb t alen addr
        ≡ (if is_found (maps.get t.map addr) then none else some enoent)
  unfolding table_lookup
  lookup_found cdb t alen addr kind good = simp (good, kind)

  pub lookup_step :
      (cdb : Cdb) (t : Table maps lpms) (set : Addrs) (alen : ℕ) (addr : List ℕ)
      → Holds maps lpms t set
      → Simulates maps lpms
          (table_lookup maps lpms cdb t alen addr, t)
          (set_step set (lookup alen addr))
  unfolding set_step table_lookup
  lookup_step cdb t set alen addr h = elim (Bool-cases (netmask_check alen no_netmask)) [
    | inr bad ↦ rw bad (refl, h)
    | inl good ↦ rw (lookup_found cdb t alen addr h.is_ipset.kind good, good, h.same addr) (refl, h)
  ]

  flush_set :
      (t : Table maps lpms)
      → t.type ≡ ipset
      → table_flush maps lpms t ≡ (none, ipset_flush maps lpms t)
  unfolding table_flush
  flush_set t kind =
      ap
        (λ k. elim k as (λ x. Option TableErrno × Table maps lpms) [
          | ipset ↦ (none, ipset_flush maps lpms t)
          | lpm ↦ (none, tree_flush maps lpms t)
          | const ↦ (some einval, t)
          | ifaddr ↦ (some einval, t)
        ])
        kind

  pub flush_step :
      (t : Table maps lpms) (set : Addrs)
      → Holds maps lpms t set
      → Simulates maps lpms (table_flush maps lpms t) (set_step set flush)
  unfolding set_step ipset_flush
  flush_step t set h = rw (flush_set t h.is_ipset.kind) (
    refl,
    record {
      is_ipset = flush_entry maps lpms t h.is_ipset;
      same = λ a. ap is_found (flushed maps lpms t h.is_ipset a);
    },
  )

  gc_set :
      (t : Table maps lpms) → t.type ≡ ipset → table_gc maps lpms t ≡ (t.gc, record t { gc = [] })
  unfolding table_gc
  gc_set t kind =
      ap
        (λ k. elim k as (λ x. List ℕ × Table maps lpms) [
          | ipset ↦ (t.gc, record t { gc = [] })
          | lpm ↦ ([], t)
          | const ↦ ([], t)
          | ifaddr ↦ ([], t)
        ])
        kind

  pub collect_step :
      (t : Table maps lpms) (set : Addrs)
      → Holds maps lpms t set
      → Simulates maps lpms (none, (table_gc maps lpms t).1) (set_step set collect)
  unfolding set_step
  collect_step t set h =
      let s = h.is_ipset in
      rw (gc_set t s.kind) (
        refl,
        record {
          is_ipset = record {
            kind = s.kind;
            entry = s.entry;
            count = s.count;
            collected = λ e i. absurd i;
          };
          same = h.same;
        },
      )
