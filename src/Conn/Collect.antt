-- ===== src/Conn/Collect.antt =====
-- The garbage collector keeps the invariant, removes only what is expired, and destroys only what nothing
-- refers to.
use npf.Prelude.{
  without, ℕ, zero, suc, ◌+◌, ◌<◌, ◌≡◌, inl, inr, sym, subst, Bool, true, false, Bool-cases,
  Option-cases, List, [], ◌∷◌, Option, none, some, ◌==◌, if◌then◌else◌,
}
use npf.Packet.{Flow}
use npf.Thmap.{Thmap}
use npf.Conn.{Conn, Params, conn_expired}
use npf.Conn.Db.{Db, migrate, conndb_update}
use npf.Conn.Ops.{conn_remove}
use npf.Conn.Gc.{
  list_first, list_next, is_marker, same_conn, conndb_getnext, gc_move, gc_scan, gc_incr, flush_all,
  destroy_all, conndb_gc,
}
use npf.Conn.Sound.{AllBelow, SomeBelow, AllRemoved, IsSound}
use npf.Conn.Linked.{conn_remove-IsSound, remove_lists}

without-AllBelow : (n c : ℕ) (xs : List ℕ) → AllBelow n xs → AllBelow n (without c xs)
unfolding without
without-AllBelow n c [] a = tt
without-AllBelow n c (d ∷ rest) a = elim (Bool-cases (c == d)) [
  | inl e ↦ rw e (a.1)
  | inr ne ↦ rw ne (a.0, without-AllBelow n c rest a.1)
]

list_first-SomeBelow : (n : ℕ) (xs : List ℕ) → AllBelow n xs → SomeBelow n (list_first xs)
list_first-SomeBelow n [] a = tt
list_first-SomeBelow n (c ∷ rest) a = a.0

list_next-SomeBelow : (n c : ℕ) (xs : List ℕ) → AllBelow n xs → SomeBelow n (list_next c xs)
unfolding list_next
list_next-SomeBelow n c [] a = tt
list_next-SomeBelow n c (d ∷ rest) a = elim (Bool-cases (c == d)) [
  | inl e ↦ rw e (list_first-SomeBelow n rest a.1)
  | inr ne ↦ rw ne (list_next-SomeBelow n c rest a.1)
]

migrate-AllBelow :
    (n : ℕ) (new list : List ℕ) → AllBelow n new → AllBelow n list → AllBelow n (migrate new list)
migrate-AllBelow n [] list a b = b
migrate-AllBelow n (c ∷ rest) list a b = migrate-AllBelow n rest (c ∷ list) a.1 (a.0, b)

module _ (maps : Thmap (List ℕ) (ℕ × Flow)) where
  getnext-SomeBelow :
      (db : Db maps) (con : Option ℕ)
      → AllBelow db.next db.list
      → SomeBelow db.next (conndb_getnext maps db con)
  unfolding conndb_getnext
  getnext-SomeBelow db none a = list_first-SomeBelow db.next db.list a
  getnext-SomeBelow db (some c) a = elim (Option-cases (list_next c db.list)) [
    | inl e ↦ rw (e, conndb_getnext) (list_first-SomeBelow db.next db.list a)
    | inr (d, e) ↦
        rw (e, conndb_getnext)
          (subst (λ o. SomeBelow db.next o) e (list_next-SomeBelow db.next c db.list a))
  ]

  marker-IsSound :
      (db : Db maps) (o : Option ℕ)
      → IsSound maps db
      → SomeBelow db.next o
      → IsSound maps (record db { marker = o })
  marker-IsSound db o s b = record {
    index = s.index;
    marked = s.marked;
    new_below = s.new_below;
    list_below = s.list_below;
    gclist_below = s.gclist_below;
    marker_below = b;
    gclist_gone = s.gclist_gone;
  }

  update-IsSound : (db : Db maps) → IsSound maps db → IsSound maps (conndb_update maps db)
  unfolding conndb_update
  update-IsSound db s = record {
    index = s.index;
    marked = s.marked;
    new_below = tt;
    list_below = migrate-AllBelow db.next db.new db.list s.new_below s.list_below;
    gclist_below = s.gclist_below;
    marker_below = s.marker_below;
    gclist_gone = s.gclist_gone;
  }

  gc_move-IsSound :
      (db : Db maps) (c : ℕ) → IsSound maps db → c < db.next → IsSound maps (gc_move maps db c)
  unfolding gc_move
  gc_move-IsSound db c s h =
      conn_remove-IsSound maps db c (without c db.list) s h
        (without-AllBelow db.next c db.list s.list_below)

  gc_move-next : (db : Db maps) (c : ℕ) → (gc_move maps db c).next ≡ db.next
  unfolding gc_move
  gc_move-next db c =
      (remove_lists maps (record db { list = without c db.list; gclist = c ∷ db.gclist }) c).0

  not_self :
      (n c : ℕ) (o : Option ℕ)
      → SomeBelow n o
      → SomeBelow n (if same_conn (some c) o then none else o)
  not_self n c none b = tt
  not_self n c (some d) b = elim (Bool-cases (c == d)) [ inl e ↦ rw e tt | inr ne ↦ rw ne b ]

  gc_scan-IsSound :
      (params : Params) (now target : ℕ) (db : Db maps) (con : Option ℕ) (n : ℕ)
      → IsSound maps db
      → SomeBelow db.next con
      → IsSound maps (gc_scan maps params now target db con n).1
  unfolding gc_scan
  gc_scan-IsSound params now zero db none n s b = marker-IsSound db none s tt
  gc_scan-IsSound params now (suc target) db none n s b = marker-IsSound db none s tt
  gc_scan-IsSound params now zero db (some c) n s b = marker-IsSound db (some c) s b
  gc_scan-IsSound params now (suc target) db (some c) n s b =
      let next = conndb_getnext maps db (some c) in
      let moved = gc_move maps db c in
      let next' = if same_conn (some c) next then none else next in
      let below = getnext-SomeBelow db (some c) s.list_below in
      let s' = gc_move-IsSound db c s b in
      let below' : SomeBelow moved.next next' =
        subst (λ k. SomeBelow k next') (sym (gc_move-next db c)) (not_self db.next c next below) in
      elim (Bool-cases (conn_expired params (db.conns c) now)) [
        | inl old ↦ elim (Bool-cases (is_marker db.marker c)) [
          | inl m ↦ rw old (
              rw m (
                gc_scan-IsSound params now target (record moved { marker = next' }) next' (n + 1)
                  (marker-IsSound moved next' s' below') below'))
          | inr m ↦ elim (Bool-cases (same_conn next' db.marker)) [
            | inl stop ↦ rw old (rw m (rw stop (marker-IsSound moved next' s' below')))
            | inr on ↦
                rw old
                  (rw m (rw on (gc_scan-IsSound params now target moved next' (n + 1) s' below')))
          ]
        ]
        | inr young ↦ elim (Bool-cases (same_conn next db.marker)) [
          | inl stop ↦ rw young (rw stop (marker-IsSound db next s below))
          | inr on ↦ rw young (rw on (gc_scan-IsSound params now target db next n s below))
        ]
      ]

  incr-IsSound :
      (params : Params) (db : Db maps) (now : ℕ)
      → IsSound maps db
      → IsSound maps (gc_incr maps params db now).1
  unfolding gc_incr
  incr-IsSound params db now s = elim (Option-cases db.marker) [
    | inl e ↦
        let con = conndb_getnext maps db none in
        let b = getnext-SomeBelow db none s.list_below in
        rw (e, gc_incr)
          (gc_scan-IsSound params now params.step (record db { marker = con }) con 0
            (marker-IsSound db con s b) b)
    | inr (c, e) ↦
        rw (e, gc_incr)
          (gc_scan-IsSound params now params.step db (some c) 0 s
            (subst (λ o. SomeBelow db.next o) e s.marker_below))
  ]

  flush_all-IsSound :
      (db : Db maps) (rest : List ℕ)
      → IsSound maps db
      → AllBelow db.next rest
      → IsSound maps (flush_all maps db rest)
  unfolding flush_all
  flush_all-IsSound db [] s b = s
  flush_all-IsSound db (c ∷ rest) s b =
      let db' : Db maps = record db { list = rest; gclist = c ∷ db.gclist } in
      flush_all-IsSound (conn_remove maps db' c) rest (conn_remove-IsSound maps db c rest s b.0 b.1)
        (subst (λ k. AllBelow k rest) (sym (remove_lists maps db' c).0) b.1)

  -- What is left of the list of those to be destroyed.
  left_below :
      (conns : ℕ → Conn) (n : ℕ) (xs : List ℕ)
      → AllBelow n xs
      → AllRemoved conns xs
      → AllBelow n (destroy_all conns xs).1 × AllRemoved conns (destroy_all conns xs).1
  unfolding destroy_all
  left_below conns n [] a r = (tt, tt)
  left_below conns n (c ∷ rest) a r = elim (Bool-cases ((conns c).refcnt == 0)) [
    | inl e ↦ rw e (left_below conns n rest a.1 r.1)
    | inr e ↦ rw e (a, r)
  ]

  unfoldable pub round : Params → Db maps → Bool → ℕ → ℕ × Db maps
  round params db flush now =
      let all = conndb_update maps db in
      if flush
      then (0, record (flush_all maps all all.list) { marker = none })
      else gc_incr maps params all now

  pub round-IsSound :
      (params : Params) (db : Db maps) (flush : Bool) (now : ℕ)
      → IsSound maps db
      → IsSound maps (round params db flush now).1
  unfolding round
  round-IsSound params db true now s =
      let all = conndb_update maps db in
      let s' = update-IsSound db s in
      marker-IsSound (flush_all maps all all.list) none
        (flush_all-IsSound all all.list s' s'.list_below) tt
  round-IsSound params db false now s =
      incr-IsSound params (conndb_update maps db) now (update-IsSound db s)

  pub conndb_gc-IsSound :
      (params : Params) (db : Db maps) (flush : Bool) (now wtime : ℕ)
      → IsSound maps db
      → IsSound maps (conndb_gc maps params db flush now wtime).2
  unfolding conndb_gc round
  conndb_gc-IsSound params db flush now wtime s =
      let r = (round params db flush now).1 in
      let s' : IsSound maps r = round-IsSound params db flush now s in
      let l = left_below r.conns r.next r.gclist s'.gclist_below s'.gclist_gone in
      record {
        index = s'.index;
        marked = s'.marked;
        new_below = s'.new_below;
        list_below = s'.list_below;
        gclist_below = l.0;
        marker_below = s'.marker_below;
        gclist_gone = l.1;
      }
