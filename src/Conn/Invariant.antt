-- ===== src/Conn/Invariant.antt =====
-- The map and the connections agree: every connection that is not removed is found under both of its
-- keys, and nothing else is in the map.
use npf.Prelude.{
  ℕ, ◌<◌, ◌≡◌, ◌⊎◌, inl, inr, refl, sym, ap, ◌∙◌, arith, Bool, true, false, not, ◌&&◌, Bool-cases,
  Option-cases, List, none, ◌==◌, ==→eq, ltb, update,
}
use npf.Packet.{Flow, forw, back}
use npf.Thmap.{Thmap}
use npf.Conn.{Conn, Flags, key_of}
use npf.Conn.Db.{Db, keyed, same_val, put_conn, set_flags, conndb_insert, conndb_remove}
use npf.Conn.Ops.{unlinked, conn_remove}
use npf.Conn.Index.{IsIndex, IsIndex-del, IsIndex-same, with_slot, same_val_refl, tagged}

-- A connection that is allocated and not removed is in the map, in both directions.
abbrev pub live : ℕ → (ℕ → Conn) → ℕ → Flow → Bool
live next conns c f = ltb c next && not (conns c).flags.removed

abbrev pub keys : (ℕ → Conn) → ℕ → Flow → List ℕ
keys conns c f = keyed (key_of f (conns c))

live_same :
    (next : ℕ) (conns : ℕ → Conn) (c : ℕ) (con : Conn) (q : ℕ) (g : Flow)
    → con.flags.removed ≡ (conns c).flags.removed
    → live next (update conns c con) q g ≡ live next conns q g
live_same next conns c con q g h = elim (Bool-cases (c == q)) [
  | inl e ↦
      rw e (ap (λ b. ltb q next && not b) (h ∙ ap (λ x. (conns x).flags.removed) (==→eq c q e)))
  | inr ne ↦ rw ne
]

keys_same :
    (conns : ℕ → Conn) (c : ℕ) (con : Conn) (q : ℕ) (g : Flow)
    → key_of g con ≡ key_of g (conns c)
    → keys (update conns c con) q g ≡ keys conns q g
keys_same conns c con q g h = elim (Bool-cases (c == q)) [
  | inl e ↦ rw e (ap keyed (h ∙ ap (λ x. key_of g (conns x)) (==→eq c q e)))
  | inr ne ↦ rw ne
]

keys_new :
    (next : ℕ) (conns : ℕ → Conn) (con : Conn) (q : ℕ) (g : Flow)
    → live next conns q g ≡ true
    → keys (update conns next con) q g ≡ keys conns q g
keys_new next conns con q g h = elim (Bool-cases (next == q)) [
  | inl e ↦ absurd (ground arith)
  | inr ne ↦ rw ne
]

module _ (maps : Thmap (List ℕ) (ℕ × Flow)) where
  -- The invariant of the database.
  abbrev pub IsConsistent : Db maps → Type 0
  IsConsistent db = IsIndex maps db.map (live db.next db.conns) (keys db.conns)

  -- A change to what is not in the keys and not the removal.
  pub put_conn-IsConsistent :
      (db : Db maps) (c : ℕ) (con : Conn)
      → IsConsistent db
      → con.flags.removed ≡ (db.conns c).flags.removed
      → con.fw ≡ (db.conns c).fw
      → con.bk ≡ (db.conns c).bk
      → IsConsistent (put_conn maps db c con)
  put_conn-IsConsistent db c con i r f b =
      IsIndex-same maps db.map (live db.next db.conns) (live db.next (update db.conns c con))
        (keys db.conns) (keys (update db.conns c con)) i
        (λ q g. live_same db.next db.conns c con q g r) same_keys
    where
      same_keys :
          (q : ℕ) (g : Flow)
          → live db.next db.conns q g ≡ true
          → keys (update db.conns c con) q g ≡ keys db.conns q g
      same_keys q forw h = keys_same db.conns c con q forw f
      same_keys q back h = keys_same db.conns c con q back b

  -- A key is free, and is taken; or it is not, and the database stays as it is.
  pub insert_cases :
      (db : Db maps) (key : List ℕ) (c : ℕ) (f : Flow)
      → ((maps.get db.map (keyed key) ≡ none)
          × (conndb_insert maps db key c f
              ≡ (true, record db { map = (maps.put db.map (keyed key) (c, f)).0 })))
        ⊎ ((d : ℕ) × (g : Flow) × (maps.get db.map (keyed key) ≡ tagged d g)
            × (conndb_insert maps db key c f ≡ (same_val (d, g) (c, f), db)))
  unfolding conndb_insert
  insert_cases db key c f = elim (Option-cases (maps.get db.map (keyed key))) [
    | inl free ↦ inl (free, rw (maps.put_absent db.map (keyed key) (c, f) free, same_val_refl c f))
    | inr ((d, g), taken) ↦
        inr (d, g, taken, rw (maps.put_present db.map (keyed key) (c, f) (d, g) taken))
  ]

  removed_slots :
      (next : ℕ) (conns : ℕ → Conn) (c : ℕ) (con : Conn) (q : ℕ) (g : Flow)
      → con.flags.removed ≡ true
      → live next (update conns c con) q g
        ≡ with_slot (with_slot (live next conns) c forw false) c back false q g
  removed_slots next conns c con q forw h = ground arith
  removed_slots next conns c con q back h = ground arith

  removed_keys :
      (conns : ℕ → Conn) (c : ℕ) (flags : Flags) (q : ℕ) (g : Flow)
      → keys (update conns c (record (conns c) { flags = flags })) q g ≡ keys conns q g
  removed_keys conns c flags q forw =
      keys_same conns c (record (conns c) { flags = flags }) q forw refl
  removed_keys conns c flags q back =
      keys_same conns c (record (conns c) { flags = flags }) q back refl

  -- Both keys of a live connection go, and it is marked.
  unlink :
      (db : Db maps) (c : ℕ) (flags : Flags)
      → IsConsistent db
      → live db.next db.conns c forw ≡ true
      → flags.removed ≡ true
      → IsConsistent (
          set_flags maps
            (conndb_remove maps (conndb_remove maps db (db.conns c).fw).1 (db.conns c).bk).1
            c
            flags)
  unfolding conndb_remove
  unlink db c flags i h r =
      let slots = live db.next db.conns in
      let ks = keys db.conns in
      let without = IsIndex-del maps db.map slots ks c forw i h in
      let m = (maps.del db.map (ks c forw)).0 in
      let both =
        IsIndex-del maps m (with_slot slots c forw false) ks c back without (ground arith) in
      IsIndex-same maps (maps.del m (ks c back)).0
        (with_slot (with_slot slots c forw false) c back false)
        (live db.next (update db.conns c (record (db.conns c) { flags = flags }))) ks
        (keys (update db.conns c (record (db.conns c) { flags = flags }))) both
        (λ q g. removed_slots db.next db.conns c (record (db.conns c) { flags = flags }) q g r)
        (λ q g k. removed_keys db.conns c flags q g)

  -- `npf_conn_remove` of an allocated connection.
  pub conn_remove-IsConsistent :
      (db : Db maps) (c : ℕ) → c < db.next → IsConsistent db → IsConsistent (conn_remove maps db c)
  unfolding conn_remove
  conn_remove-IsConsistent db c h i = elim (Bool-cases (db.conns c).flags.removed) [
    | inl gone ↦ rw gone (
        put_conn-IsConsistent db c (record (db.conns c) { flags = unlinked (db.conns c).flags }) i
          (sym gone) refl refl)
    | inr there ↦ rw there (unlink db c (unlinked (db.conns c).flags) i (ground arith) refl)
  ]
