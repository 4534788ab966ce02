-- ===== src/Conn/Establish.antt =====
-- `npf_conn_establish` and `npf_conn_setnat` keep the map and the connections in agreement, also where
-- they hit a duplicate.
use npf.Prelude.{
  ℕ, ◌+◌, ◌≡◌, inl, inr, refl, sym, ap, ◌∙◌, subst, arith, Bool, true, false, Bool-cases, List,
  none, some, ◌==◌, ==→eq, ==-refl, update,
}
use npf.Packet.{Flow, forw, back}
use npf.Thmap.{Thmap}
use npf.Conn.{Conn, Flags, key_of}
use npf.Conn.Db.{Db, keyed, same_val, conndb_insert, conndb_remove, conndb_enqueue}
use npf.Conn.Ops.{establish_failed, link_conn}
use npf.Conn.Index.{IsIndex, IsIndex-put, IsIndex-del, IsIndex-same, with_slot, same_val-eq, tagged}
use npf.Conn.Invariant.{live, keys, IsConsistent, insert_cases}

module _ (maps : Thmap (List ℕ) (ℕ × Flow)) (db : Db maps) (con : Conn) where
  abbrev made : Db maps
  made = record db { conns = update db.conns db.next con; next = db.next + 1 }

  made_keys :
      (q : ℕ) (g : Flow)
      → live db.next db.conns q g ≡ true
      → keys made.conns q g ≡ keys db.conns q g
  made_keys q g h = elim (Bool-cases (db.next == q)) [
    | inl e ↦ absurd (ground arith)
    | inr ne ↦ rw ne
  ]

  made_index : IsConsistent maps db → IsIndex maps db.map (live db.next db.conns) (keys made.conns)
  made_index i =
      IsIndex-same maps db.map (live db.next db.conns) (live db.next db.conns) (keys db.conns)
        (keys made.conns) i (λ q g. refl) made_keys

  failed_live :
      (flags : Flags) (refcnt : ℕ) (q : ℕ) (g : Flow)
      → flags.removed ≡ true
      → live
          (db.next + 1)
          (update
            (update made.conns db.next (record con { flags = flags }))
            db.next
            (record con { flags = flags; refcnt = refcnt }))
          q
          g
        ≡ live db.next db.conns q g
  failed_live flags refcnt q g h = ground arith

  failed_keys :
      (flags : Flags) (refcnt : ℕ) (q : ℕ) (g : Flow)
      → live db.next db.conns q g ≡ true
      → keys
          (update
            (update made.conns db.next (record con { flags = flags }))
            db.next
            (record con { flags = flags; refcnt = refcnt }))
          q
          g
        ≡ keys db.conns q g
  failed_keys flags refcnt q g h = elim (Bool-cases (db.next == q)) [
    | inl e ↦ absurd (ground arith)
    | inr ne ↦ rw ne
  ]

  failed :
      (m : maps.Map)
      → IsIndex maps m (live db.next db.conns) (keys db.conns)
      → IsConsistent maps (establish_failed maps (record made { map = m }) db.next).1
  unfolding establish_failed conndb_enqueue
  failed m i = rw (==-refl db.next) (
      IsIndex-same maps m (live db.next db.conns) _ (keys db.conns) _ i
        (λ q g. failed_live _ _ q g refl) (λ q g. failed_keys _ _ q g))

  key_made : (f : Flow) → keys made.conns db.next f ≡ keyed (key_of f con)
  key_made f = rw (==-refl db.next)

  put_made :
      (m : maps.Map) (slots : ℕ → Flow → Bool) (f : Flow)
      → IsIndex maps m slots (keys made.conns)
      → maps.get m (keyed (key_of f con)) ≡ none
      → IsIndex maps
          (maps.put m (keyed (key_of f con)) (db.next, f)).0
          (with_slot slots db.next f true)
          (keys made.conns)
  put_made m slots f i free =
      subst
        (λ k.
          IsIndex maps (maps.put m k (db.next, f)).0 (with_slot slots db.next f true)
            (keys made.conns))
        (key_made f)
        (IsIndex-put maps m slots (keys made.conns) db.next f i
          (ap (λ k. maps.get m k) (key_made f) ∙ free))

  del_made :
      (m : maps.Map) (slots : ℕ → Flow → Bool) (f : Flow)
      → IsIndex maps m slots (keys made.conns)
      → slots db.next f ≡ true
      → IsIndex maps
          (maps.del m (keyed (key_of f con))).0
          (with_slot slots db.next f false)
          (keys made.conns)
  del_made m slots f i filled =
      subst (λ k. IsIndex maps (maps.del m k).0 (with_slot slots db.next f false) (keys made.conns))
        (key_made f) (IsIndex-del maps m slots (keys made.conns) db.next f i filled)

  linked_live :
      (q : ℕ) (g : Flow)
      → con.flags.removed ≡ false
      → live made.next made.conns q g
        ≡ with_slot (with_slot (live db.next db.conns) db.next forw true) db.next back true q g
  linked_live q forw h = ground (arith, ==→eq db.next q)
  linked_live q back h = ground (arith, ==→eq db.next q)

  undone_live :
      (q : ℕ) (g : Flow)
      → live db.next db.conns q g
        ≡ with_slot (with_slot (live db.next db.conns) db.next forw true) db.next forw false q g
  undone_live q forw = ground arith
  undone_live q back = ground arith

  abbrev one_key : maps.Map
  one_key = (maps.put db.map (keyed con.fw) (db.next, forw)).0

  one_index :
      IsConsistent maps db
      → maps.get db.map (keyed con.fw) ≡ none
      → IsIndex maps one_key (with_slot (live db.next db.conns) db.next forw true) (keys made.conns)
  one_index i free = put_made db.map (live db.next db.conns) forw (made_index i) free

  abbrev both_keys : maps.Map
  both_keys = (maps.put one_key (keyed con.bk) (db.next, back)).0

  -- Both keys were free.
  linked_lem :
      IsConsistent maps db
      → con.flags.removed ≡ false
      → maps.get db.map (keyed con.fw) ≡ none
      → maps.get one_key (keyed con.bk) ≡ none
      → IsConsistent maps (conndb_enqueue maps (record made { map = both_keys }) db.next)
  unfolding conndb_enqueue
  linked_lem i h free1 free2 =
      IsIndex-same maps both_keys
        (with_slot (with_slot (live db.next db.conns) db.next forw true) db.next back true)
        (live made.next made.conns) (keys made.conns) (keys made.conns)
        (put_made one_key (with_slot (live db.next db.conns) db.next forw true) back
          (one_index i free1) free2)
        (λ q g. linked_live q g h) (λ q g k. refl)

  -- The backwards key was not free: the forwards key is taken out again.
  undone_lem :
      IsConsistent maps db
      → maps.get db.map (keyed con.fw) ≡ none
      → IsIndex maps (maps.del one_key (keyed con.fw)).0 (live db.next db.conns) (keys db.conns)
  undone_lem i free =
      IsIndex-same maps (maps.del one_key (keyed con.fw)).0
        (with_slot (with_slot (live db.next db.conns) db.next forw true) db.next forw false)
        (live db.next db.conns) (keys made.conns) (keys db.conns)
        (del_made one_key (with_slot (live db.next db.conns) db.next forw true) forw
          (one_index i free) (rw (==-refl db.next)))
        undone_live (λ q g k. sym (made_keys q g (undone_live q g ∙ k)))

  abbrev first_made : Db maps
  first_made = record made { map = one_key }

  link_done :
      maps.get db.map (keyed con.fw) ≡ none
      → maps.get one_key (keyed con.bk) ≡ none
      → link_conn maps db con
        ≡ (some db.next, conndb_enqueue maps (record made { map = both_keys }) db.next)
  unfolding link_conn conndb_insert
  link_done free1 free2 = ground (
    arith,
    maps.put_absent db.map (keyed con.fw) (db.next, forw) free1,
    maps.put_absent one_key (keyed con.bk) (db.next, back) free2,
  )

  link_undone :
      (d : ℕ) (g : Flow)
      → maps.get db.map (keyed con.fw) ≡ none
      → maps.get one_key (keyed con.bk) ≡ tagged d g
      → same_val (d, g) (db.next, back) ≡ false
      → link_conn maps db con
        ≡ establish_failed maps (record made { map = (maps.del one_key (keyed con.fw)).0 }) db.next
  unfolding link_conn conndb_insert conndb_remove
  link_undone d g free taken other =
      rw (maps.put_absent db.map (keyed con.fw) (db.next, forw) free, link_conn)
        (rw (maps.put_present one_key (keyed con.bk) (db.next, back) (d, g) taken)
          (rw (==-refl db.next, other) refl))

  link_refused :
      (d : ℕ) (g : Flow)
      → maps.get db.map (keyed con.fw) ≡ tagged d g
      → same_val (d, g) (db.next, forw) ≡ false
      → link_conn maps db con ≡ establish_failed maps made db.next
  unfolding link_conn conndb_insert
  link_refused d g taken other =
      rw (maps.put_present db.map (keyed con.fw) (db.next, forw) (d, g) taken) (rw other refl)

  -- A value that the map holds is not the new connection's.
  old_value :
      (m : maps.Map) (slots : ℕ → Flow → Bool) (ks : ℕ → Flow → List ℕ) (k : List ℕ) (d : ℕ)
      (g f : Flow)
      → IsIndex maps m slots ks
      → maps.get m k ≡ tagged d g
      → slots db.next f ≡ false
      → same_val (d, g) (db.next, f) ≡ false
  old_value m slots ks k d g f i taken empty = elim (Bool-cases (same_val (d, g) (db.next, f))) [
    | inr other ↦ other
    | inl same ↦
        let e = same_val-eq d db.next g f same in
        let filled = (i.entry k d g taken).0 in
        cc (
          sym empty
          ∙ (sym (ap (λ x. slots x f) e.0 ∙ ap (λ x. slots db.next x) (sym e.1 ∙ e.1))
              ∙ (ap (λ x. slots d x) (sym e.1) ∙ filled)))
  ]

  -- Linking a new connection, whether or not its keys are free.
  pub link_conn-IsConsistent :
      IsConsistent maps db → con.flags.removed ≡ false → IsConsistent maps (link_conn maps db con).1
  link_conn-IsConsistent i h = elim (insert_cases maps made con.fw db.next forw) [
    | inr (d, g, taken, e) ↦
        let other =
          old_value db.map (live db.next db.conns) (keys db.conns) (keyed con.fw) d g forw i taken
            (ground arith) in
        subst (λ r. IsConsistent maps r.1) (sym (link_refused d g taken other)) (failed db.map i)
    | inl (free1, e1) ↦ elim (insert_cases maps first_made con.bk db.next back) [
      | inl (free2, e2) ↦
          subst (λ r. IsConsistent maps r.1) (sym (link_done free1 free2))
            (linked_lem i h free1 free2)
      | inr (d, g, taken, e2) ↦
          let other =
            old_value one_key (with_slot (live db.next db.conns) db.next forw true)
              (keys made.conns) (keyed con.bk) d g back (one_index i free1) taken (ground arith) in
          subst (λ r. IsConsistent maps r.1) (sym (link_undone d g free1 taken other))
            (failed (maps.del one_key (keyed con.fw)).0 (undone_lem i free1))
    ]
  ]
