-- ===== src/Conn/Reply.antt =====
-- A reply finds the connection of the packet that it answers, and so does the packet when it is sent
-- again.
use npf.Prelude.{
  ℕ, ◌+◌, ◌<◌, ◌≡◌, ◌⊎◌, inl, inr, refl, sym, ap, ◌∙◌, subst, arith, Bool, true, false, ◌&&◌,
  Bool-cases, Option-cases, List, none, some, ◌==◌, ==→eq, ==-refl, if◌then◌else◌, update, bit_xor,
  bit_and,
}
use npf.Packet.{Flow, forw, back, Cache}
use npf.Tcp.Window.{State}
use npf.State.{zero_state, state_init}
use npf.Thmap.{Thmap}
use npf.Connkey.{conkey, pfil_all}
use npf.Connkey.Match.{Answers, conkey-Answers}
use npf.Conn.{Conn, Params, conn_check, trackable, same_flow}
use npf.Conn.Db.{Db, keyed, conndb_lookup, conndb_insert, conndb_remove, conndb_enqueue}
use npf.Conn.Ops.{new_conn, conn_lookup, conn_release, establish_failed, link_conn, conn_establish}
use npf.Conn.Index.{tagged}
use npf.Conn.Invariant.{live}
use npf.Conn.Sound.{IsSound}
use npf.Conn.Linked.{conn_establish-IsSound}

module _ (maps : Thmap (List ℕ) (ℕ × Flow)) where
  link_cases :
      (db : Db maps) (con : Conn)
      → ((link_conn maps db con).0 ≡ none)
        ⊎ (((link_conn maps db con).0 ≡ some db.next)
            × ((link_conn maps db con).1.conns ≡ update db.conns db.next con)
            × ((link_conn maps db con).1.next ≡ db.next + 1))
  unfolding link_conn establish_failed conndb_insert conndb_remove conndb_enqueue
  link_cases db con = ground arith

  -- What a successful establishment has gone through.
  record Established (params : Params) (npc : Cache) (di : ℕ) (global : Bool) (now c : ℕ)
      (db' : Db maps) : Type 0 where
    fw : List ℕ × ℕ
    bk : List ℕ × ℕ
    state : State
    fw_key : conkey params.key npc di forw ≡ some fw
    bk_key : conkey params.key npc (bit_xor di pfil_all) back ≡ some bk
    allocated : c < db'.next
    made : db'.conns c ≡ new_conn npc di global now state fw.0 bk.0

  link-Established :
      (params : Params) (db : Db maps) (npc : Cache) (di : ℕ) (global : Bool) (now c : ℕ)
      (state : State) (fw bk : List ℕ × ℕ)
      → conkey params.key npc di forw ≡ some fw
      → conkey params.key npc (bit_xor di pfil_all) back ≡ some bk
      → (link_conn maps db (new_conn npc di global now state fw.0 bk.0)).0 ≡ some c
      → Established params npc di global now c
          (link_conn maps db (new_conn npc di global now state fw.0 bk.0)).1
  link-Established params db npc di global now c state fw bk f b e =
      let con = new_conn npc di global now state fw.0 bk.0 in
      elim (link_cases db con) [
        | inl no_conn ↦ cc (sym no_conn ∙ e)
        | inr done ↦
            let same : db.next ≡ c = ground (arith, done.0, e) in
            record {
              fw = fw;
              bk = bk;
              state = state;
              fw_key = f;
              bk_key = b;
              allocated = omega (arith, done.2, same);
              made = ap (λ (m : ℕ → Conn). m c) (done.1) ∙ rw (sym same, ==-refl db.next) refl;
            }
      ]

  -- Establishing fails, or ends in the linking of the new connection.
  establish_cases :
      (params : Params) (tracking memory : Bool) (db : Db maps) (npc : Cache) (di : ℕ)
      (global : Bool) (now : ℕ)
      → ((conn_establish maps params tracking memory db npc di global now).0 ≡ none)
        ⊎ ((fw : List ℕ × ℕ) × (bk : List ℕ × ℕ) × (state : State) × (conkey params.key npc di forw
              ≡ some fw)
            × (conkey params.key npc (bit_xor di pfil_all) back ≡ some bk)
            × (conn_establish maps params tracking memory db npc di global now
                ≡ link_conn maps db (new_conn npc di global now state fw.0 bk.0)))
  unfolding conn_establish
  establish_cases params tracking memory db npc di global now =
      elim (Option-cases (conkey params.key npc di forw)) [
        | inl f ↦ inl (ground (arith, f))
        | inr (fw, f) ↦ elim (Option-cases (conkey params.key npc (bit_xor di pfil_all) back)) [
          | inl b ↦ inl (ground (arith, f, b))
          | inr (bk, b) ↦
              elim (Bool-cases (
                trackable tracking npc
                && (memory && (state_init params.state npc zero_state).accepted))) [
                  | inl ok ↦ inr (
                    fw,
                    bk,
                    (state_init params.state npc zero_state).state,
                    f,
                    b,
                    ground (arith, f, b),
                  )
                  | inr bad ↦ inl (ground (arith, f, b))
                ]
        ]
      ]

  establish-Established :
      (params : Params) (tracking memory : Bool) (db : Db maps) (npc : Cache) (di : ℕ)
      (global : Bool) (now c : ℕ)
      → (conn_establish maps params tracking memory db npc di global now).0 ≡ some c
      → Established params npc di global now c
          (conn_establish maps params tracking memory db npc di global now).1
  establish-Established params tracking memory db npc di global now c e =
      elim (establish_cases params tracking memory db npc di global now) [
        | inl no_conn ↦ cc (sym no_conn ∙ e)
        | inr (fw, bk, state, f, b, same) ↦
            subst (λ r. Established params npc di global now c r.1) (sym same)
              (link-Established params db npc di global now c state fw bk f b
                (sym (ap (λ r. r.0) same) ∙ e))
      ]

  release_map : (db : Db maps) (c : ℕ) → (conn_release maps db c).map ≡ db.map
  unfolding conn_release
  release_map db c = ground arith

  release_conn :
      (db : Db maps) (c : ℕ)
      → (db.conns c).flags.active ≡ false
      → (db.conns c).flags.expire ≡ false
      → (((conn_release maps db c).conns c).flags.active ≡ true)
        × (((conn_release maps db c).conns c).flags.expire ≡ false)
        × (((conn_release maps db c).conns c).flags.dir ≡ (db.conns c).flags.dir)
        × (((conn_release maps db c).conns c).ifid ≡ (db.conns c).ifid)
  unfolding conn_release
  release_conn db c a e = ground (arith, ==-refl c)

  lookup_found :
      (db : Db maps) (key : List ℕ) (c : ℕ) (f : Flow)
      → maps.get db.map (keyed key) ≡ tagged c f
      → (conndb_lookup maps db key).0 ≡ tagged c f
  unfolding conndb_lookup
  lookup_found db key c f g = rw (g, conndb_lookup) refl

  -- A lookup whose key is found, of a connection that passes the check.
  found_lem :
      (params : Params) (db : Db maps) (npc : Cache) (di now c : ℕ) (f : Flow) (key : List ℕ × ℕ)
      → conkey params.key npc di forw ≡ some key
      → maps.get db.map (keyed key.0) ≡ tagged c f
      → conn_check ((conndb_lookup maps db key.0).1.conns c) npc di f ≡ true
      → (conn_lookup maps params db npc di now).0 ≡ tagged c f
  unfolding conn_lookup
  found_lem params db npc di now c f key k g ok =
      rw (k, conn_lookup) (rw (lookup_found db key.0 c f g, conn_lookup) (rw ok refl))

  lookup_conn :
      (db : Db maps) (key : List ℕ) (c : ℕ)
      → (((conndb_lookup maps db key).1.conns c).flags ≡ (db.conns c).flags)
        × (((conndb_lookup maps db key).1.conns c).ifid ≡ (db.conns c).ifid)
  unfolding conndb_lookup
  lookup_conn db key c = elim (Option-cases (maps.get db.map (keyed key))) [
    | inl e ↦ rw (e, conndb_lookup) (refl, refl)
    | inr ((d, f), e) ↦ rw (e, conndb_lookup) (ground (arith, ==→eq d c))
  ]

  check_lem :
      (con : Conn) (npc : Cache) (q : ℕ) (f : Flow)
      → con.flags.active ≡ true
      → con.flags.expire ≡ false
      → (con.ifid ≡ 0) ⊎ (con.ifid ≡ npc.ifid)
      → same_flow f (if con.flags.dir == q then forw else back) ≡ true
      → conn_check con npc q f ≡ true
  unfolding conn_check
  check_lem con npc q f a e i d = ground (arith, ==-refl npc.ifid)

  -- After its first release, a lookup finds a connection that the map holds for the key.
  released_found :
      (params : Params) (db : Db maps) (npc : Cache) (q later c : ℕ) (f : Flow) (key : List ℕ × ℕ)
      → conkey params.key npc q forw ≡ some key
      → maps.get db.map (keyed key.0) ≡ tagged c f
      → (db.conns c).flags.active ≡ false
      → (db.conns c).flags.expire ≡ false
      → ((db.conns c).ifid ≡ 0) ⊎ ((db.conns c).ifid ≡ npc.ifid)
      → same_flow f (if (db.conns c).flags.dir == q then forw else back) ≡ true
      → (conn_lookup maps params (conn_release maps db c) npc q later).0 ≡ tagged c f
  released_found params db npc q later c f key k g a e i d =
      let db' = conn_release maps db c in
      let released = release_conn db c a e in
      let found = lookup_conn db' key.0 c in
      let flags = found.0 in
      found_lem params db' npc q later c f key k
        (ap (λ m. maps.get m (keyed key.0)) (release_map db c) ∙ g)
        (check_lem ((conndb_lookup maps db' key.0).1.conns c) npc q f
          (ap (λ x. x.active) flags ∙ released.0) (ap (λ x. x.expire) flags ∙ released.1)
          (subst (λ x. (x ≡ 0) ⊎ (x ≡ npc.ifid)) (sym (found.1 ∙ released.3)) i)
          (ap (λ x. same_flow f (if x == q then forw else back))
              (ap (λ x. x.dir) flags ∙ released.2)
            ∙ d))

  -- A new connection has no flag but its direction, and the interface of the packet or none.
  new_conn_lem :
      (npc : Cache) (di : ℕ) (global : Bool) (now : ℕ) (state : State) (fw bk : List ℕ)
      → ((new_conn npc di global now state fw bk).flags.active ≡ false)
        × ((new_conn npc di global now state fw bk).flags.expire ≡ false)
        × ((new_conn npc di global now state fw bk).flags.removed ≡ false)
        × ((new_conn npc di global now state fw bk).flags.dir ≡ bit_and di pfil_all)
        × (((new_conn npc di global now state fw bk).ifid ≡ 0)
            ⊎ ((new_conn npc di global now state fw bk).ifid ≡ npc.ifid))
  unfolding new_conn
  new_conn_lem npc di true now state fw bk = (refl, refl, refl, refl, inr refl)
  new_conn_lem npc di false now state fw bk = (refl, refl, refl, refl, inl refl)

  established_lem :
      (params : Params) (db : Db maps) (npc : Cache) (di : ℕ) (global : Bool) (now c : ℕ)
      → (e : Established params npc di global now c db)
      → ((db.conns c).flags.active ≡ false)
        × ((db.conns c).flags.expire ≡ false)
        × ((db.conns c).flags.removed ≡ false)
        × ((db.conns c).flags.dir ≡ bit_and di pfil_all)
        × (((db.conns c).ifid ≡ 0) ⊎ ((db.conns c).ifid ≡ npc.ifid))
  established_lem params db npc di global now c e =
      subst
        (λ con.
          (con.flags.active ≡ false)
          × (con.flags.expire ≡ false)
          × (con.flags.removed ≡ false)
          × (con.flags.dir ≡ bit_and di pfil_all)
          × ((con.ifid ≡ 0) ⊎ (con.ifid ≡ npc.ifid)))
        (sym e.made) (new_conn_lem npc di global now e.state e.fw.0 e.bk.0)

  keys_lem :
      (params : Params) (db : Db maps) (npc : Cache) (di : ℕ) (global : Bool) (now c : ℕ)
      → (e : Established params npc di global now c db)
      → ((db.conns c).fw ≡ e.fw.0) × ((db.conns c).bk ≡ e.bk.0)
  unfolding new_conn
  keys_lem params db npc di global now c e =
      (rw (e.made, new_conn) refl, rw (e.made, new_conn) refl)

  pfil_forw :
      (di : ℕ)
      → (di ≡ 1) ⊎ (di ≡ 2)
      → same_flow forw (if bit_and di pfil_all == di then forw else back) ≡ true
  pfil_forw di (inl e) = rw e refl
  pfil_forw di (inr e) = rw e refl

  pfil_back :
      (di : ℕ)
      → (di ≡ 1) ⊎ (di ≡ 2)
      → same_flow back (if bit_and di pfil_all == bit_xor di pfil_all then forw else back) ≡ true
  pfil_back di (inl e) = rw e refl
  pfil_back di (inr e) = rw e refl

  found_both_ways :
      (params : Params) (db : Db maps) (p r : Cache) (di : ℕ) (global : Bool) (now later c : ℕ)
      → IsSound maps db
      → Established params p di global now c db
      → (di ≡ 1) ⊎ (di ≡ 2)
      → Answers r p
      → ((conn_lookup maps params (conn_release maps db c) p di later).0 ≡ tagged c forw)
        × ((conn_lookup maps params (conn_release maps db c) r (bit_xor di pfil_all) later).0
            ≡ tagged c back)
  found_both_ways params db p r di global now later c s e d a =
      let con = established_lem params db p di global now c e in
      let ks = keys_lem params db p di global now c e in
      let at = λ (x : List ℕ). maps.get db.map (keyed x) in
      let there : live db.next db.conns c forw ≡ true =
        (let h = e.allocated in let k = con.2 in ground arith) in
      (
        released_found params db p di later c forw e.fw e.fw_key
            (ap at (sym ks.0) ∙ s.index.slot c forw there) con.0 con.1 con.4
            (ap (λ x. same_flow forw (if x == di then forw else back)) con.3 ∙ pfil_forw di d),
        released_found params db r (bit_xor di pfil_all) later c back e.bk
            (conkey-Answers params.key r p (bit_xor di pfil_all) a ∙ e.bk_key)
            (ap at (sym ks.1) ∙ s.index.slot c back there) con.0 con.1
            (subst (λ x. ((db.conns c).ifid ≡ 0) ⊎ ((db.conns c).ifid ≡ x)) (sym a.same_ifid) con.4)
            (ap (λ x. same_flow back (if x == bit_xor di pfil_all then forw else back)) con.3
              ∙ pfil_back di d),
      )

  -- If a connection is established in a sound database for a packet of one direction, then after its
  -- first release a lookup of that packet in that direction finds it as the forwards flow, and a lookup
  -- of a packet which answers that packet, in the other direction, finds it as the backwards flow.
  pub conn_lookup-conn_establish :
      (params : Params) (tracking memory : Bool) (db : Db maps) (p r : Cache) (di : ℕ)
      (global : Bool) (now later c : ℕ)
      → IsSound maps db
      → (di ≡ 1) ⊎ (di ≡ 2)
      → Answers r p
      → (conn_establish maps params tracking memory db p di global now).0 ≡ some c
      → let made =
          conn_release maps (conn_establish maps params tracking memory db p di global now).1 c in
        ((conn_lookup maps params made p di later).0 ≡ tagged c forw)
        × ((conn_lookup maps params made r (bit_xor di pfil_all) later).0 ≡ tagged c back)
  conn_lookup-conn_establish params tracking memory db p r di global now later c s d a e =
      found_both_ways params (conn_establish maps params tracking memory db p di global now).1 p r
        di global now later c
        (conn_establish-IsSound maps params tracking memory db p di global now s)
        (establish-Established params tracking memory db p di global now c e) d a
