-- ===== src/Conn/Gc.antt =====
-- The garbage collector of src/kern/npf_conndb.c.
use npf.Prelude.{
  without, ℕ, zero, suc, ◌+◌, ◌*◌, ◌/◌, Bool, true, false, List, [], ◌∷◌, Option, none, some, ◌==◌,
  if◌then◌else◌, min, max,
}
use npf.Packet.{Flow}
use npf.Thmap.{Thmap}
use npf.Conn.{Conn, Params, conn_expired}
use npf.Conn.Db.{Db, conndb_update}
use npf.Conn.Ops.{conn_remove}

-- `LIST_FIRST` and `LIST_NEXT`
abbrev pub list_first : List ℕ → Option ℕ
list_first [] = none
list_first (c ∷ rest) = some c

unfoldable pub list_next : ℕ → List ℕ → Option ℕ
list_next c [] = none
list_next c (d ∷ rest) = let later = list_next c rest in if c == d then list_first rest else later

abbrev pub is_marker : Option ℕ → ℕ → Bool
is_marker none c = false
is_marker (some m) c = m == c

abbrev pub same_conn : Option ℕ → Option ℕ → Bool
same_conn none none = true
same_conn none (some d) = false
same_conn (some c) none = false
same_conn (some c) (some d) = c == d

-- `gc_freq_tune`: the time to the next round, in milliseconds.
unfoldable pub gc_freq_tune : Params → ℕ → ℕ → ℕ
gc_freq_tune params wtime n =
    max (min (if n == 0 then wtime * 2 else wtime / 2) params.interval_max) params.interval_min

-- The last loop of `npf_conndb_gc`: the connections that are destroyed, in order, and those that
-- stay in the list. It destroys no connection that is referenced: there a round ends, and a flush
-- waits for the references. The wait of a flush is where the model ends, with what is done by then.
unfoldable pub destroy_all : (ℕ → Conn) → List ℕ → List ℕ × List ℕ
destroy_all conns [] = ([], [])
destroy_all conns (c ∷ rest) =
    let more = destroy_all conns rest in
    if (conns c).refcnt == 0 then (c ∷ more.0, more.1) else ([], c ∷ rest)

module _ (maps : Thmap (List ℕ) (ℕ × Flow)) where
  -- `npf_conndb_getnext`
  unfoldable pub conndb_getnext : Db maps → Option ℕ → Option ℕ
  conndb_getnext db none = list_first db.list
  conndb_getnext db (some c) = elim (list_next c db.list) [
    | none ↦ list_first db.list
    | some d ↦ some d
  ]

  -- A connection goes to the list of those to be destroyed, and its keys go.
  unfoldable pub gc_move : Db maps → ℕ → Db maps
  gc_move db c = conn_remove maps (record db { list = without c db.list; gclist = c ∷ db.gclist }) c

  -- The loop of `npf_conndb_gc_incr` from `con` on, with `target` rounds left; `gc_conns` counts.
  unfoldable pub gc_scan : Params → ℕ → ℕ → Db maps → Option ℕ → ℕ → ℕ × Db maps
  gc_scan params now target db none gc_conns = (gc_conns, record db { marker = none })
  gc_scan params now zero db (some c) gc_conns = (gc_conns, record db { marker = some c })
  gc_scan params now (suc target) db (some c) gc_conns =
      let next = conndb_getnext db (some c) in
      let moved = gc_move db c in
      let next' = if same_conn (some c) next then none else next in
      let from_marker =
        gc_scan params now target (record moved { marker = next' }) next' (gc_conns + 1) in
      let from_moved = gc_scan params now target moved next' (gc_conns + 1) in
      let from_kept = gc_scan params now target db next gc_conns in
      if conn_expired params (db.conns c) now
      then (if is_marker db.marker c
          then from_marker
          else if same_conn next' db.marker
          then (gc_conns + 1, record moved { marker = next' })
          else from_moved)
      else if same_conn next db.marker
      then (gc_conns, record db { marker = next })
      else from_kept

  -- `npf_conndb_gc_incr`
  unfoldable pub gc_incr : Params → Db maps → ℕ → ℕ × Db maps
  gc_incr params db now = elim db.marker [
    | none ↦
        let con = conndb_getnext db none in
        gc_scan params now params.step (record db { marker = con }) con 0
    | some c ↦ gc_scan params now params.step db (some c) 0
  ]

  -- The loop of a flush over `rest`, the list as it stands.
  unfoldable pub flush_all : Db maps → List ℕ → Db maps
  flush_all db [] = db
  flush_all db (c ∷ rest) =
      flush_all (conn_remove maps (record db { list = rest; gclist = c ∷ db.gclist }) c) rest

  -- `npf_conndb_gc`, for a flush up to its first wait: the connections that are destroyed, the time to
  -- the next round, and the database.
  unfoldable pub conndb_gc : Params → Db maps → Bool → ℕ → ℕ → List ℕ × ℕ × Db maps
  conndb_gc params db flush now wtime =
      let all = conndb_update maps db in
      let round : ℕ × Db maps =
        if flush
        then (0, record (flush_all all all.list) { marker = none })
        else gc_incr params all now in
      let done = destroy_all round.1.conns round.1.gclist in
      (done.0, gc_freq_tune params wtime round.0, record (round.1) { gclist = done.1 })
