-- ===== src/Conn/Setnat.antt =====
-- `npf_conn_setnat` re-inserts the backwards key under the translation values, and keeps the map and the
-- connections in agreement, also where it hits a duplicate.
use npf.Prelude.{
  ℕ, ◌<◌, ◌≡◌, inl, inr, refl, sym, ap, ◌∙◌, subst, arith, Bool, true, false, not, ◌||◌, Bool-cases,
  Option-cases, List, Option, none, some, ◌==◌, ==→eq, ==-refl, update,
}
use npf.Packet.{Flow, forw, back}
use npf.Thmap.{Thmap}
use npf.Connkey.{Which, adjkey}
use npf.Conn.{Conn, Flags}
use npf.Conn.Db.{Db, keyed, same_val, conndb_insert, conndb_remove}
use npf.Conn.Ops.{unlinked, conn_setnat, ConnErrno, eisconn}
use npf.Conn.Index.{
  IsIndex, IsIndex-put, IsIndex-del, IsIndex-same, with_slot, same_val_refl, same_val-eq, tagged,
}
use npf.Conn.Invariant.{live, keys, IsConsistent}

module _ (maps : Thmap (List ℕ) (ℕ × Flow)) (db : Db maps) (c : ℕ) (bk : List ℕ) where
  abbrev con : Conn
  con = db.conns c

  abbrev half : ℕ → Flow → Bool
  half = with_slot (live db.next db.conns) c back false

  abbrev without : maps.Map
  without = (maps.del db.map (keyed con.bk)).0

  abbrev moved : ℕ → Conn
  moved = update db.conns c (record con { bk = bk })

  keys-moved : (q : ℕ) (g : Flow) → half q g ≡ true → keys moved q g ≡ keys db.conns q g
  keys-moved q forw h = elim (Bool-cases (c == q)) [
    | inl e ↦ rw e (ap (λ x. keyed (db.conns x).fw) (==→eq c q e))
    | inr ne ↦ rw ne
  ]
  keys-moved q back h = elim (Bool-cases (c == q)) [
    | inl e ↦ absurd (ground arith)
    | inr ne ↦ rw ne
  ]

  half_index :
      IsConsistent maps db
      → live db.next db.conns c back ≡ true
      → IsIndex maps without half (keys moved)
  half_index i h =
      IsIndex-same maps without half half (keys db.conns) (keys moved)
        (IsIndex-del maps db.map (live db.next db.conns) (keys db.conns) c back i h) (λ q g. refl)
        keys-moved

  key_back : keys moved c back ≡ keyed bk
  key_back = rw (==-refl c)

  key_forw : keys moved c forw ≡ keyed con.fw
  key_forw = rw (==-refl c)

  full_live :
      (nat : Option ℕ) (q : ℕ) (g : Flow)
      → live db.next db.conns c back ≡ true
      → live db.next (update moved c (record con { bk = bk; nat = nat })) q g
        ≡ with_slot half c back true q g
  full_live nat q forw h = ground (arith, ==→eq c q)
  full_live nat q back h = ground (arith, ==→eq c q)

  full_keys :
      (nat : Option ℕ) (q : ℕ) (g : Flow)
      → keys (update moved c (record con { bk = bk; nat = nat })) q g ≡ keys moved q g
  full_keys nat q forw = ground arith
  full_keys nat q back = ground arith

  -- The new key is free.
  translated :
      (nat : Option ℕ)
      → IsConsistent maps db
      → live db.next db.conns c back ≡ true
      → maps.get without (keyed bk) ≡ none
      → IsIndex maps
          (maps.put without (keyed bk) (c, back)).0
          (live db.next (update moved c (record con { bk = bk; nat = nat })))
          (keys (update moved c (record con { bk = bk; nat = nat })))
  translated nat i h free =
      subst
        (λ k.
          IsIndex maps (maps.put without k (c, back)).0
            (live db.next (update moved c (record con { bk = bk; nat = nat })))
            (keys (update moved c (record con { bk = bk; nat = nat }))))
        key_back
        (IsIndex-same maps (maps.put without (keys moved c back) (c, back)).0
          (with_slot half c back true) _ (keys moved) _
          (IsIndex-put maps without half (keys moved) c back (half_index i h)
            (ap (λ k. maps.get without k) key_back ∙ free))
          (λ q g. full_live nat q g h) (λ q g k. full_keys nat q g))

  gone_live :
      (flags : Flags) (q : ℕ) (g : Flow)
      → flags.removed ≡ true
      → live db.next (update moved c (record con { bk = bk; flags = flags })) q g
        ≡ with_slot half c forw false q g
  gone_live flags q forw h = ground (arith, ==→eq c q)
  gone_live flags q back h = ground (arith, ==→eq c q)

  gone_keys :
      (flags : Flags) (q : ℕ) (g : Flow)
      → keys (update moved c (record con { bk = bk; flags = flags })) q g ≡ keys moved q g
  gone_keys flags q forw = ground arith
  gone_keys flags q back = ground arith

  -- The new key is not free: the forwards key goes too.
  dropped :
      (flags : Flags)
      → IsConsistent maps db
      → live db.next db.conns c back ≡ true
      → flags.removed ≡ true
      → IsIndex maps
          (maps.del without (keyed con.fw)).0
          (live db.next (update moved c (record con { bk = bk; flags = flags })))
          (keys (update moved c (record con { bk = bk; flags = flags })))
  dropped flags i h r =
      subst
        (λ k.
          IsIndex maps (maps.del without k).0
            (live db.next (update moved c (record con { bk = bk; flags = flags })))
            (keys (update moved c (record con { bk = bk; flags = flags }))))
        key_forw
        (IsIndex-same maps (maps.del without (keys moved c forw)).0 (with_slot half c forw false) _
          (keys moved) _
          (IsIndex-del maps without half (keys moved) c forw (half_index i h) (ground arith))
          (λ q g. gone_live flags q g r) (λ q g k. gone_keys flags q g))

  -- What the map holds without the old key is not the old entry.
  other_value :
      (k : List ℕ) (d : ℕ) (g : Flow)
      → IsConsistent maps db
      → live db.next db.conns c back ≡ true
      → maps.get without k ≡ tagged d g
      → same_val (d, g) (c, back) ≡ false
  other_value k d g i h taken = elim (Bool-cases (same_val (d, g) (c, back))) [
    | inr other ↦ other
    | inl same ↦
        let filled = ((half_index i h).entry k d g taken).0 in
        let e = same_val-eq d c g back same in
        let swapped : same_val (c, back) (d, g) ≡ true = rw (e.0, e.1) (same_val_refl c back) in
        cc (rw swapped at filled)
  ]

module _ (maps : Thmap (List ℕ) (ℕ × Flow)) (db : Db maps) (c nt : ℕ) (taddr : List ℕ) (tport : ℕ)
    (which : Which) where
  abbrev new_bk : List ℕ
  new_bk = adjkey (db.conns c).bk taddr tport which

  abbrev half_map : maps.Map
  half_map = without maps db c new_bk

  abbrev result : Option ConnErrno × Db maps
  result = conn_setnat maps db c nt taddr tport which

  setnat_done :
      (db.conns c).flags.expire ≡ false
      → (db.conns c).nat ≡ none
      → maps.get half_map (keyed new_bk) ≡ none
      → result ≡ (
        none,
        record db {
          map = (maps.put half_map (keyed new_bk) (c, back)).0;
          conns =
              update
                (moved maps db c new_bk)
                c
                (record (db.conns c) { bk = new_bk; nat = some nt });
        },
      )
  unfolding conn_setnat conndb_insert conndb_remove
  setnat_done x n free =
      ground (arith, maps.put_absent half_map (keyed new_bk) (c, back) free, same_val_refl c back)

  setnat_dup :
      (d : ℕ) (g : Flow)
      → (db.conns c).flags.expire ≡ false
      → (db.conns c).nat ≡ none
      → maps.get half_map (keyed new_bk) ≡ tagged d g
      → same_val (d, g) (c, back) ≡ false
      → result ≡ (
        some eisconn,
        record db {
          map = (maps.del half_map (keyed (db.conns c).fw)).0;
          conns =
              update
                (moved maps db c new_bk)
                c
                (record (db.conns c) { bk = new_bk; flags = unlinked (db.conns c).flags });
        },
      )
  unfolding conn_setnat conndb_insert conndb_remove
  setnat_dup d g x n taken other =
      ground
        (arith, maps.put_present half_map (keyed new_bk) (c, back) (d, g) taken, other, ==-refl c)

  -- A live or expired connection is given a translation, with success or not.
  pub conn_setnat-IsConsistent :
      IsConsistent maps db
      → c < db.next
      → (not (db.conns c).flags.removed || (db.conns c).flags.expire) ≡ true
      → IsConsistent maps (conn_setnat maps db c nt taddr tport which).1
  unfolding conn_setnat
  conn_setnat-IsConsistent i h marked = elim (Bool-cases (db.conns c).flags.expire) [
    | inl x ↦ rw x i
    | inr x ↦ elim (Option-cases (db.conns c).nat) [
      | inr (other, n) ↦ rw (x, n) i
      | inl n ↦
          let alive : live db.next db.conns c back ≡ true = ground arith in
          let k = keyed new_bk in
          elim (Option-cases (maps.get half_map k)) [
            | inl free ↦
                subst (λ r. IsConsistent maps r.1) (sym (setnat_done x n free))
                  (translated maps db c new_bk (some nt) i alive free)
            | inr ((d, g), taken) ↦
                let other = other_value maps db c new_bk k d g i alive taken in
                subst (λ r. IsConsistent maps r.1) (sym (setnat_dup d g x n taken other))
                  (dropped maps db c new_bk (unlinked (db.conns c).flags) i alive refl)
          ]
    ]
  ]
