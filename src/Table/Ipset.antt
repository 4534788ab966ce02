-- ===== src/Table/Ipset.antt =====
-- A table of single addresses is a set of addresses.
use Prim.Native.String.{String}
use mathlib.Core.Option.{some-injective}
use npf.Prelude.{
  ℕ, ◌%◌, ◌<◌, ◌≡◌, ◌≢◌, ◌⊎◌, inl, inr, refl, sym, ap, ◌∙◌, subst, arith, Bool, true, false,
  Bool-cases, Option-cases, List, [], ◌∷◌, none, some, ==→eq, ==-refl, In, In-without, length,
  length-without, u32_mod, update_same, update_other,
}
use npf.Thmap.{Thmap}
use npf.Lpm.{Lpm, same_words}
use npf.Table.{Tblent, ipset, Table}
use npf.Table.Ops.{
  Cdb, linked, with_entry, unlinked, is_found, table_create, ipset_flush_loop, ipset_flush,
}

pub same_words-eq : (a b : List ℕ) → same_words a b ≡ true → a ≡ b
same_words-eq [] [] e = refl
same_words-eq [] (y ∷ b) e = cc
same_words-eq (x ∷ a) [] e = cc
same_words-eq (x ∷ a) (y ∷ b) e = ground (arith, ==→eq x y, same_words-eq a b)

pub same_words_refl : (a : List ℕ) → same_words a a ≡ true
same_words_refl [] = refl
same_words_refl (x ∷ a) = ground (arith, ==-refl x, same_words_refl a)

pub same_words-ne : (a b : List ℕ) → same_words a b ≡ false → a ≢ b
same_words-ne a b e p = cc (sym e ∙ (sym (ap (same_words a) p) ∙ same_words_refl a))

module _ (maps : Thmap (List ℕ) ℕ) (lpms : Lpm) where
  -- Every value of the map is an entry of the list under its address, and the list is counted.
  pub record IsIpset (t : Table maps lpms) : Type 0 where
    pub kind : t.type ≡ ipset
    pub entry :
        (a : List ℕ) (e : ℕ)
        → maps.get t.map a ≡ some e
        → (e < t.next) × In e t.list × ((t.ents e).addr ≡ a)
    pub count : t.nitems ≡ length t.list % u32_mod
    pub collected : (e : ℕ) → In e t.gc → (e < t.next) × ((a : List ℕ) → maps.get t.map a ≢ some e)

  -- Whether an address is in the table.
  abbrev pub holds : Table maps lpms → List ℕ → Bool
  holds t a = is_found (maps.get t.map a)

  -- What the map holds after an address is put into it.
  get_put_cases :
      (t : Table maps lpms) (addr a : List ℕ) (e : ℕ)
      → maps.get t.map addr ≡ none
      → maps.get (maps.put t.map addr t.next).0 a ≡ some e
      → ((addr ≡ a) × (t.next ≡ e)) ⊎ (maps.get t.map a ≡ some e)
  get_put_cases t addr a e free h = elim (Bool-cases (same_words addr a)) [
    | inl same ↦
        let q = same_words-eq addr a same in
        let here = maps.get-put t.map addr t.next free in
        let there = ap (λ x. maps.get (maps.put t.map addr t.next).0 x) q ∙ h in
        let v : t.next ≡ e = (let p = sym here ∙ there in ground (arith, p)) in inl (q, v)
    | inr other ↦ inr (sym (maps.get-put_ne t.map addr a t.next (same_words-ne addr a other)) ∙ h)
  ]

  -- The new entry is inserted.
  pub put_entry :
      (t : Table maps lpms) (alen : ℕ) (addr : List ℕ)
      → IsIpset t
      → maps.get t.map addr ≡ none
      → IsIpset (
          linked maps lpms
            (record (with_entry maps lpms t alen addr 0) { map = (maps.put t.map addr t.next).0 })
            t.next)
  put_entry t alen addr s free = record {
    kind = s.kind;
    entry = λ a e h. elim (get_put_cases t addr a e free h) [
      | inl (q, v) ↦
          (omega arith, inl (sym v), ap (λ x. x.addr) (update_same t.ents t.next e _ v) ∙ q)
      | inr old_get ↦
          let old = s.entry a e old_get in
          let ne : t.next ≢ e = λ p. absurd (omega (arith, p, old.0)) in
          (
            omega (arith, old.0),
            inr old.1,
            ap (λ x. x.addr) (update_other t.ents t.next e _ ne) ∙ old.2,
          )
    ];
    count = omega (arith, s.count);
    collected = λ e i.
        let old = s.collected e i in
        (
          omega (arith, old.0),
          λ a h. elim (get_put_cases t addr a e free h) [
            | inl (q, v) ↦ absurd (omega (arith, v, old.0))
            | inr old_get ↦ old.1 a old_get
          ],
        );
  }

  -- What the map holds after an address is deleted.
  get_del_old :
      (t : Table maps lpms) (addr a : List ℕ) (e : ℕ)
      → maps.get (maps.del t.map addr).0 a ≡ some e
      → (addr ≢ a) × (maps.get t.map a ≡ some e)
  get_del_old t addr a e h = elim (Bool-cases (same_words addr a)) [
    | inl same ↦
        let q = same_words-eq addr a same in
        let gone = ap (λ x. maps.get (maps.del t.map addr).0 x) (sym q) ∙ maps.get-del t.map addr in
        cc (sym gone ∙ h)
    | inr other ↦
        let ne = same_words-ne addr a other in (ne, sym (maps.get-del_ne t.map addr a ne) ∙ h)
  ]

  pub del_entry :
      (t : Table maps lpms) (addr : List ℕ) (w : ℕ)
      → IsIpset t
      → maps.get t.map addr ≡ some w
      → IsIpset (record (unlinked maps lpms t w) { map = (maps.del t.map addr).0; gc = w ∷ t.gc })
  del_entry t addr w s there =
      let this = s.entry addr w there in
      record {
        kind = s.kind;
        entry = λ a e h.
            let old_get = get_del_old t addr a e h in
            let old = s.entry a e old_get.1 in
            let ne : w ≢ e = λ p. old_get.0 (sym this.2 ∙ (ap (λ x. (t.ents x).addr) p ∙ old.2)) in
            (old.0, In-without e w t.list old.1 ne, old.2);
        count = omega (arith, s.count, length-without w t.list this.1);
        collected = λ e i. elim i [
          | inl p ↦ (
            omega (arith, p, this.0),
            λ a h.
                let old_get = get_del_old t addr a e h in
                let old = s.entry a e old_get.1 in
                old_get.0 (sym this.2 ∙ (ap (λ x. (t.ents x).addr) (sym p) ∙ old.2)),
          )
          | inr j ↦ ((s.collected e j).0, λ a h. (s.collected e j).1 a (get_del_old t addr a e h).1)
        ];
      }

  pub del_absent :
      (t : Table maps lpms) (addr : List ℕ)
      → IsIpset t
      → IsIpset (record t { map = (maps.del t.map addr).0 })
  del_absent t addr s = record {
    kind = s.kind;
    entry = λ a e h. s.entry a e (get_del_old t addr a e h).1;
    count = s.count;
    collected =
        λ e i. ((s.collected e i).0, λ a h. (s.collected e i).1 a (get_del_old t addr a e h).1);
  }

  -- The flush deletes the address of each entry of the list.
  flush_none :
      (ents : ℕ → Tblent) (m : maps.Map) (list : List ℕ) (a : List ℕ)
      → ((e : ℕ) → maps.get m a ≡ some e → In e list × ((ents e).addr ≡ a))
      → maps.get (ipset_flush_loop maps lpms ents m list) a ≡ none
  unfolding ipset_flush_loop
  flush_none ents m [] a held = elim (Option-cases (maps.get m a)) [
    | inl free ↦ free
    | inr (e, h) ↦ absurd (held e h).0
  ]
  flush_none ents m (x ∷ rest) a held = flush_none ents (maps.del m (ents x).addr).0 rest a (λ e h.
      elim (Bool-cases (same_words (ents x).addr a)) [
        | inl same ↦
            let q = same_words-eq (ents x).addr a same in
            let gone =
              ap (λ y. maps.get (maps.del m (ents x).addr).0 y) (sym q)
              ∙ maps.get-del m (ents x).addr in
            cc (sym gone ∙ h)
        | inr other ↦
            let ne = same_words-ne (ents x).addr a other in
            let old = held e (sym (maps.get-del_ne m (ents x).addr a ne) ∙ h) in
            elim old.0 [
              | inl p ↦ absurd (ne (ap (λ y. (ents y).addr) (sym p) ∙ old.1))
              | inr i ↦ (i, old.1)
            ]
      ])

  pub flushed :
      (t : Table maps lpms)
      → IsIpset t
      → (a : List ℕ) → maps.get (ipset_flush_loop maps lpms t.ents t.map t.list) a ≡ none
  flushed t s a = flush_none t.ents t.map t.list a (λ e h. ((s.entry a e h).1, (s.entry a e h).2))

  pub flush_entry : (t : Table maps lpms) → IsIpset t → IsIpset (ipset_flush maps lpms t)
  unfolding ipset_flush
  flush_entry t s = record {
    kind = s.kind;
    entry = λ a e h. cc (sym (flushed t s a) ∙ h);
    count = refl;
    collected = λ e i. ((s.collected e i).0, λ a h. cc (sym (flushed t s a) ∙ h));
  }

  pub create_entry :
      (cdb : Cdb) (ents : ℕ → Tblent) (name : String) (tid blob : ℕ) (t : Table maps lpms)
      → table_create maps lpms cdb ents true name tid ipset blob ≡ some t
      → IsIpset t × ((a : List ℕ) → maps.get t.map a ≡ none)
  unfolding table_create
  create_entry cdb ents name tid blob t made =
      let t0 : Table maps lpms = record {
        map = maps.empty;
        gc = [];
        trie = lpms.empty;
        blob = blob;
        elements = λ i. [];
        allocated = λ i. 0;
        list = [];
        nitems = 0;
        type = ipset;
        id = tid;
        refcnt = 0;
        name = name;
        ents = ents;
        next = 0;
      } in
      let p : t0 ≡ t = (let q : some t0 ≡ some t = made in some-injective t0 t q) in
      let free : (a : List ℕ) → maps.get t0.map a ≡ none = maps.get_empty in
      subst (λ x. IsIpset x × ((a : List ℕ) → maps.get x.map a ≡ none)) p
        (
          record {
            kind = refl;
            entry = λ a e h. cc (sym (free a) ∙ h);
            count = refl;
            collected = λ e i. absurd i;
          },
          free,
        )
