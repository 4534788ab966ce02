-- ===== src/Conn/Sound.antt =====
-- The invariant of connection tracking, and that the operations on single connections keep it.
use npf.Prelude.{
  ℕ, ◌<◌, ◌≡◌, ◌⊎◌, inl, inr, refl, arith, Bool, true, not, ◌&&◌, ◌||◌, Bool-cases, Option-cases,
  List, [], ◌∷◌, Option, none, some, ==→eq, ltb, update,
}
use npf.Packet.{Flow, forw, Cache}
use npf.Thmap.{Thmap}
use npf.Connkey.{conkey}
use npf.Conn.{Conn, Params, conn_check}
use npf.Conn.Db.{Db, keyed, put_conn, set_flags, hold, drop_ref, conndb_lookup}
use npf.Conn.Ops.{conn_lookup, conn_release, conn_expire, conn_setpass}
use npf.Conn.Invariant.{IsConsistent, put_conn-IsConsistent}

abbrev pub AllBelow : ℕ → List ℕ → Type 0
AllBelow n [] = Unit
AllBelow n (c ∷ rest) = (c < n) × AllBelow n rest

abbrev pub SomeBelow : ℕ → Option ℕ → Type 0
SomeBelow n none = Unit
SomeBelow n (some c) = c < n

abbrev pub AllRemoved : (ℕ → Conn) → List ℕ → Type 0
AllRemoved conns [] = Unit
AllRemoved conns (c ∷ rest) = ((conns c).flags.removed ≡ true) × AllRemoved conns rest

-- A removed connection is expired.
abbrev pub is_marked : ℕ → (ℕ → Conn) → ℕ → Bool
is_marked next conns c = not (ltb c next) || (not (conns c).flags.removed || (conns c).flags.expire)

module _ (maps : Thmap (List ℕ) (ℕ × Flow)) where
  -- The map agrees with the connections, the removed ones are expired, and the lists hold allocated
  -- connections, of which those to be destroyed are removed.
  pub record IsSound (db : Db maps) : Type 0 where
    pub index : IsConsistent maps db
    pub marked : (c : ℕ) → is_marked db.next db.conns c ≡ true
    pub new_below : AllBelow db.next db.new
    pub list_below : AllBelow db.next db.list
    pub gclist_below : AllBelow db.next db.gclist
    pub marker_below : SomeBelow db.next db.marker
    pub gclist_gone : AllRemoved db.conns db.gclist

  AllRemoved-update :
      (conns : ℕ → Conn) (c : ℕ) (con : Conn) (xs : List ℕ)
      → AllRemoved conns xs
      → (con.flags.removed ≡ (conns c).flags.removed) ⊎ (con.flags.removed ≡ true)
      → AllRemoved (update conns c con) xs
  AllRemoved-update conns c con [] a r = tt
  AllRemoved-update conns c con (x ∷ xs) a r =
      (ground (arith, ==→eq c x), AllRemoved-update conns c con xs a.1 r)

  marked-update :
      (next : ℕ) (conns : ℕ → Conn) (c : ℕ) (con : Conn) (q : ℕ)
      → is_marked next conns q ≡ true
      → con.flags.removed ≡ (conns c).flags.removed
      → (con.flags.expire ≡ (conns c).flags.expire) ⊎ (con.flags.expire ≡ true)
      → is_marked next (update conns c con) q ≡ true
  marked-update next conns c con q m r e = ground (arith, ==→eq c q)

  -- A change that leaves the keys and the removal.
  pub put_conn-IsSound :
      (db : Db maps) (c : ℕ) (con : Conn)
      → IsSound db
      → con.fw ≡ (db.conns c).fw
      → con.bk ≡ (db.conns c).bk
      → con.flags.removed ≡ (db.conns c).flags.removed
      → (con.flags.expire ≡ (db.conns c).flags.expire) ⊎ (con.flags.expire ≡ true)
      → IsSound (put_conn maps db c con)
  put_conn-IsSound db c con s f b r e = record {
    index = put_conn-IsConsistent maps db c con s.index r f b;
    marked = λ q. marked-update db.next db.conns c con q (s.marked q) r e;
    new_below = s.new_below;
    list_below = s.list_below;
    gclist_below = s.gclist_below;
    marker_below = s.marker_below;
    gclist_gone = AllRemoved-update db.conns c con db.gclist s.gclist_gone (inl r);
  }

  pub hold-IsSound : (db : Db maps) (c : ℕ) → IsSound db → IsSound (hold maps db c)
  hold-IsSound db c s = put_conn-IsSound db c _ s refl refl refl (inl refl)

  pub drop_ref-IsSound : (db : Db maps) (c : ℕ) → IsSound db → IsSound (drop_ref maps db c)
  drop_ref-IsSound db c s = put_conn-IsSound db c _ s refl refl refl (inl refl)

  pub conn_release-IsSound : (db : Db maps) (c : ℕ) → IsSound db → IsSound (conn_release maps db c)
  unfolding conn_release
  conn_release-IsSound db c s =
      elim (Bool-cases (not (db.conns c).flags.active && not (db.conns c).flags.expire)) [
        | inl new ↦ rw new (
            drop_ref-IsSound (set_flags maps db c (record ((db.conns c).flags) { active = true })) c
              (put_conn-IsSound db c _ s refl refl refl (inl refl)))
        | inr seen ↦ rw seen (drop_ref-IsSound db c s)
      ]

  pub conn_expire-IsSound : (db : Db maps) (c : ℕ) → IsSound db → IsSound (conn_expire maps db c)
  unfolding conn_expire
  conn_expire-IsSound db c s = put_conn-IsSound db c _ s refl refl refl (inr refl)

  pub conn_setpass-IsSound :
      (db : Db maps) (c retfl rid : ℕ) (rp : Option ℕ)
      → IsSound db
      → IsSound (conn_setpass maps db c retfl rid rp)
  unfolding conn_setpass
  conn_setpass-IsSound db c retfl rid none s = put_conn-IsSound db c _ s refl refl refl (inl refl)
  conn_setpass-IsSound db c retfl rid (some p) s =
      put_conn-IsSound db c _ s refl refl refl (inl refl)

  pub conndb_lookup-IsSound :
      (db : Db maps) (key : List ℕ) → IsSound db → IsSound (conndb_lookup maps db key).1
  unfolding conndb_lookup
  conndb_lookup-IsSound db key s = elim (Option-cases (maps.get db.map (keyed key))) [
    | inl e ↦ rw (e, conndb_lookup) s
    | inr ((c, f), e) ↦ rw (e, conndb_lookup) (hold-IsSound db c s)
  ]

  pub conn_lookup-IsSound :
      (params : Params) (db : Db maps) (npc : Cache) (di now : ℕ)
      → IsSound db
      → IsSound (conn_lookup maps params db npc di now).1
  unfolding conn_lookup
  conn_lookup-IsSound params db npc di now s = elim (Option-cases (conkey params.key npc di forw)) [
    | inl e ↦ rw (e, conn_lookup) s
    | inr (key, e) ↦
        let found = conndb_lookup maps db key.0 in
        let s' = conndb_lookup-IsSound db key.0 s in
        elim (Option-cases found.0) [
          | inl e' ↦ rw (e, conn_lookup) (rw (e', conn_lookup) s')
          | inr ((c, f), e') ↦ elim (Bool-cases (conn_check (found.1.conns c) npc di f)) [
            | inl ok ↦
                rw (e, conn_lookup)
                  (rw (e', conn_lookup)
                    (rw ok (put_conn-IsSound found.1 c _ s' refl refl refl (inl refl))))
            | inr bad ↦
                rw (e, conn_lookup) (rw (e', conn_lookup) (rw bad (drop_ref-IsSound found.1 c s')))
          ]
        ]
  ]
