-- ===== src/Conn/Linked.antt =====
-- The operations that change the map keep the invariant of connection tracking: `npf_conn_establish`,
-- `npf_conn_setnat`, `npf_conn_remove`, and `npf_conn_inspect` over those of Sound.
use npf.Prelude.{
  ℕ, ◌+◌, ◌<◌, ◌≡◌, inl, inr, refl, ap, ◌∙◌, arith, Bool, true, false, not, Bool-cases,
  Option-cases, List, [], ◌∷◌, Option, none, some, ◌==◌, ==→eq, ==-refl, bit_xor,
}
use npf.Packet.{Flow, forw, back, Cache}
use npf.Tcp.Window.{State}
use npf.State.{zero_state, state_init, state_inspect}
use npf.Thmap.{Thmap}
use npf.Connkey.{Which, conkey, pfil_all}
use npf.Conn.{Conn, Params, trackable}
use npf.Conn.Db.{Db, put_conn, conndb_insert, conndb_remove, conndb_enqueue}
use npf.Conn.Ops.{
  new_conn, conn_lookup, conn_inspect, establish_failed, link_conn, conn_establish, conn_setnat,
  conn_remove,
}
use npf.Conn.Invariant.{conn_remove-IsConsistent}
use npf.Conn.Establish.{link_conn-IsConsistent}
use npf.Conn.Setnat.{conn_setnat-IsConsistent}
use npf.Conn.Sound.{
  AllBelow, SomeBelow, AllRemoved, is_marked, IsSound, put_conn-IsSound, conn_lookup-IsSound,
  conn_release-IsSound,
}

AllBelow-more : (n : ℕ) (xs : List ℕ) → AllBelow n xs → AllBelow (n + 1) xs
AllBelow-more n [] a = tt
AllBelow-more n (c ∷ rest) a = (omega arith, AllBelow-more n rest a.1)

SomeBelow-more : (n : ℕ) (o : Option ℕ) → SomeBelow n o → SomeBelow (n + 1) o
SomeBelow-more n none a = tt
SomeBelow-more n (some c) a = omega arith

-- What stays removed.
AllRemoved-later :
    (conns conns' : ℕ → Conn) (n : ℕ) (xs : List ℕ)
    → AllRemoved conns xs
    → AllBelow n xs
    → ((q : ℕ) → q < n → (conns q).flags.removed ≡ true → (conns' q).flags.removed ≡ true)
    → AllRemoved conns' xs
AllRemoved-later conns conns' n [] a b h = tt
AllRemoved-later conns conns' n (c ∷ rest) a b h =
    (h c b.0 a.0, AllRemoved-later conns conns' n rest a.1 b.1 h)

module _ (maps : Thmap (List ℕ) (ℕ × Flow)) where
  module _ (db : Db maps) (con : Conn) where
    abbrev linked : Db maps
    linked = (link_conn maps db con).1

    link_lists :
        (linked.next ≡ db.next + 1)
        × (linked.new ≡ db.next ∷ db.new)
        × (linked.list ≡ db.list)
        × (linked.gclist ≡ db.gclist)
        × (linked.marker ≡ db.marker)
    unfolding link_conn establish_failed conndb_insert conndb_remove conndb_enqueue
    link_lists = ground arith

    link_others : (q : ℕ) → q < db.next → linked.conns q ≡ db.conns q
    unfolding link_conn establish_failed conndb_insert conndb_remove conndb_enqueue
    link_others q h = ground arith

    link_marked :
        (q : ℕ)
        → is_marked db.next db.conns q ≡ true
        → con.flags.removed ≡ false
        → is_marked (db.next + 1) linked.conns q ≡ true
    unfolding link_conn establish_failed conndb_insert conndb_remove conndb_enqueue
    link_marked q m r = ground (arith, ==→eq db.next q)

    link_conn-IsSound : IsSound maps db → con.flags.removed ≡ false → IsSound maps linked
    link_conn-IsSound s r = record {
      index = link_conn-IsConsistent maps db con s.index r;
      marked = λ q. rw (link_lists.0) (link_marked q (s.marked q) r);
      new_below =
          rw (link_lists.0, link_lists.1) (omega arith, AllBelow-more db.next db.new s.new_below);
      list_below = rw (link_lists.0, link_lists.2) (AllBelow-more db.next db.list s.list_below);
      gclist_below =
          rw (link_lists.0, link_lists.3) (AllBelow-more db.next db.gclist s.gclist_below);
      marker_below =
          rw (link_lists.0, link_lists.4) (SomeBelow-more db.next db.marker s.marker_below);
      gclist_gone = rw (link_lists.3) (
          AllRemoved-later db.conns linked.conns db.next db.gclist s.gclist_gone s.gclist_below
            (λ q h g. ap (λ (x : Conn). x.flags.removed) (link_others q h) ∙ g));
    }

  new_conn-removed :
      (npc : Cache) (di : ℕ) (global : Bool) (now : ℕ) (state : State) (fw bk : List ℕ)
      → (new_conn npc di global now state fw bk).flags.removed ≡ false
  unfolding new_conn
  new_conn-removed npc di global now state fw bk = refl

  pub conn_establish-IsSound :
      (params : Params) (tracking memory : Bool) (db : Db maps) (npc : Cache) (di : ℕ)
      (global : Bool) (now : ℕ)
      → IsSound maps db
      → IsSound maps (conn_establish maps params tracking memory db npc di global now).1
  unfolding conn_establish
  conn_establish-IsSound params tracking memory db npc di global now s =
      elim (Bool-cases (not (trackable tracking npc))) [
        | inl off ↦ rw off s
        | inr on ↦ elim (Bool-cases (not memory)) [
          | inl full ↦ rw on (rw full s)
          | inr room ↦ elim (Bool-cases (not (state_init params.state npc zero_state).accepted)) [
            | inl bad ↦ rw on (rw room (rw bad s))
            | inr ok ↦ elim (Option-cases (conkey params.key npc di forw)) [
              | inl f ↦ rw on (rw room (rw ok (rw (f, conn_establish) s)))
              | inr (fw, f) ↦
                  elim (Option-cases (conkey params.key npc (bit_xor di pfil_all) back)) [
                    | inl b ↦
                        rw on (rw room (rw ok (rw (f, conn_establish) (rw (b, conn_establish) s))))
                    | inr (bk, b) ↦ rw on (
                        rw room (
                          rw ok (
                            rw (f, conn_establish)
                              (rw (b, conn_establish)
                                (link_conn-IsSound db _ s (
                                  new_conn-removed npc di global now
                                    (state_init params.state npc zero_state).state fw.0 bk.0))))))
                  ]
            ]
          ]
        ]
      ]

  module _ (db : Db maps) (c nt : ℕ) (taddr : List ℕ) (tport : ℕ) (which : Which) where
    abbrev translated : Db maps
    translated = (conn_setnat maps db c nt taddr tport which).1

    setnat_lists :
        (translated.next ≡ db.next)
        × (translated.new ≡ db.new)
        × (translated.list ≡ db.list)
        × (translated.gclist ≡ db.gclist)
        × (translated.marker ≡ db.marker)
    unfolding conn_setnat conndb_insert conndb_remove
    setnat_lists = ground arith

    setnat_marked :
        (q : ℕ) → is_marked db.next db.conns q ≡ true → is_marked db.next translated.conns q ≡ true
    unfolding conn_setnat conndb_insert conndb_remove
    setnat_marked q m = ground (arith, ==→eq c q)

    setnat_removed :
        (q : ℕ) → (db.conns q).flags.removed ≡ true → (translated.conns q).flags.removed ≡ true
    unfolding conn_setnat conndb_insert conndb_remove
    setnat_removed q r = ground (arith, ==→eq c q)

    pub conn_setnat-IsSound : IsSound maps db → c < db.next → IsSound maps translated
    conn_setnat-IsSound s h =
        let e = setnat_lists in
        record {
          index =
              conn_setnat-IsConsistent maps db c nt taddr tport which s.index h
                (let m = s.marked c in ground arith);
          marked = λ q. rw (e.0) (setnat_marked q (s.marked q));
          new_below = rw (e.0, e.1) s.new_below;
          list_below = rw (e.0, e.2) s.list_below;
          gclist_below = rw (e.0, e.3) s.gclist_below;
          marker_below = rw (e.0, e.4) s.marker_below;
          gclist_gone = rw (e.3) (
              AllRemoved-later db.conns translated.conns db.next db.gclist s.gclist_gone
                s.gclist_below (λ q k g. setnat_removed q g));
        }

  pub remove_lists :
      (db : Db maps) (c : ℕ)
      → ((conn_remove maps db c).next ≡ db.next)
        × ((conn_remove maps db c).new ≡ db.new)
        × ((conn_remove maps db c).list ≡ db.list)
        × ((conn_remove maps db c).gclist ≡ db.gclist)
        × ((conn_remove maps db c).marker ≡ db.marker)
  unfolding conn_remove conndb_remove
  remove_lists db c = ground arith

  remove_marked :
      (db : Db maps) (c q : ℕ)
      → is_marked db.next db.conns q ≡ true
      → is_marked db.next (conn_remove maps db c).conns q ≡ true
  unfolding conn_remove conndb_remove
  remove_marked db c q m = ground (arith, ==→eq c q)

  remove_removed :
      (db : Db maps) (c q : ℕ)
      → (db.conns q).flags.removed ≡ true
      → ((conn_remove maps db c).conns q).flags.removed ≡ true
  unfolding conn_remove conndb_remove
  remove_removed db c q r = ground (arith, ==→eq c q)

  pub remove_self : (db : Db maps) (c : ℕ) → ((conn_remove maps db c).conns c).flags.removed ≡ true
  unfolding conn_remove conndb_remove
  remove_self db c = ground (arith, ==-refl c)

  pub remove_other :
      (db : Db maps) (c q : ℕ) → (c == q) ≡ false → (conn_remove maps db c).conns q ≡ db.conns q
  unfolding conn_remove conndb_remove
  remove_other db c q ne = ground arith

  -- A connection goes, and is put where it waits to be destroyed.
  pub conn_remove-IsSound :
      (db : Db maps) (c : ℕ) (list : List ℕ)
      → IsSound maps db
      → c < db.next
      → AllBelow db.next list
      → IsSound maps (conn_remove maps (record db { list = list; gclist = c ∷ db.gclist }) c)
  conn_remove-IsSound db c list s h b =
      let db' : Db maps = record db { list = list; gclist = c ∷ db.gclist } in
      let e = remove_lists db' c in
      record {
        index = conn_remove-IsConsistent maps db' c h s.index;
        marked = λ q. rw (e.0) (remove_marked db' c q (s.marked q));
        new_below = rw (e.0, e.1) s.new_below;
        list_below = rw (e.0, e.2) b;
        gclist_below = rw (e.0, e.3) (h, s.gclist_below);
        marker_below = rw (e.0, e.4) s.marker_below;
        gclist_gone = rw (e.3) (
          remove_self db' c,
          AllRemoved-later db.conns (conn_remove maps db' c).conns db.next db.gclist s.gclist_gone
              s.gclist_below (λ q k g. remove_removed db' c q g),
        );
      }

  pub conn_inspect-IsSound :
      (params : Params) (tracking : Bool) (alg : Option ℕ) (mbuf : Bool) (db : Db maps)
      (npc : Cache) (di now : ℕ)
      → IsSound maps db
      → IsSound maps (conn_inspect maps params tracking alg mbuf db npc di now).2
  unfolding conn_inspect
  conn_inspect-IsSound params tracking (some c) mbuf db npc di now s =
      elim (Bool-cases (not (trackable tracking npc))) [ inl off ↦ rw off s | inr on ↦ rw on s ]
  conn_inspect-IsSound params tracking none mbuf db npc di now s =
      elim (Bool-cases (not (trackable tracking npc))) [
        | inl off ↦ rw off s
        | inr on ↦ elim (Bool-cases (not mbuf)) [
          | inl gone ↦ rw on (rw gone s)
          | inr there ↦
              let found = conn_lookup maps params db npc di now in
              let s' = conn_lookup-IsSound maps params db npc di now s in
              elim (Option-cases found.0) [
                | inl e ↦ rw on (rw there (rw (e, conn_inspect) s'))
                | inr ((c, f), e) ↦
                    let v = state_inspect params.state npc (found.1.conns c).state f in
                    let con : Conn = record (found.1.conns c) { state = v.state } in
                    let seen = put_conn-IsSound maps found.1 c con s' refl refl refl (inl refl) in
                    elim (Bool-cases v.accepted) [
                      | inl ok ↦ rw on (rw there (rw (e, conn_inspect) (rw ok seen)))
                      | inr bad ↦ rw on (
                          rw there (
                            rw (e, conn_inspect)
                              (rw bad
                                (conn_release-IsSound maps (put_conn maps found.1 c con) c seen))))
                    ]
              ]
        ]
      ]
