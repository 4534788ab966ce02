-- ===== src/Conn/Ops.antt =====
-- The operations on connections of src/kern/npf_conn.c. `now` is the time in seconds.
use npf.Prelude.{
  ℕ, ◌+◌, ◌%◌, Bool, true, false, not, ◌&&◌, List, Option, none, some, if◌then◌else◌, update,
  bit_and, bit_xor, u32_mod,
}
use npf.Packet.{Flow, forw, back, Cache}
use npf.Tcp.Window.{State}
use npf.State.{zero_state, state_init, state_inspect}
use npf.Connkey.{Which, conkey, adjkey, pfil_all}
use npf.Thmap.{Thmap}
use npf.Conn.{Conn, Flags, Params, trackable, conn_check}
use npf.Conn.Db.{
  Db, put_conn, set_flags, drop_ref, conndb_lookup, conndb_insert, conndb_remove, conndb_enqueue,
}

-- What the functions return as an `errno`.
pub data ConnErrno : Type 0 where
  einval eisconn : ConnErrno

-- `CONN_REMOVED | CONN_EXPIRE`
abbrev pub unlinked : Flags → Flags
unlinked flags = record flags { expire = true; removed = true }

-- The structure that `npf_conn_establish` fills, with the state of its first packet.
unfoldable pub new_conn : Cache → ℕ → Bool → ℕ → State → List ℕ → List ℕ → Conn
new_conn npc di global now state fw bk = record {
  proto = npc.proto;
  alen = npc.alen;
  ifid = if global then npc.ifid else 0;
  flags = record {
    dir = bit_and di pfil_all;
    active = false;
    pass = false;
    expire = false;
    removed = false;
  };
  retfl = 0;
  rid = 0;
  rproc = none;
  nat = none;
  refcnt = 1;
  atime = now % u32_mod;
  state = state;
  fw = fw;
  bk = bk;
}

module _ (maps : Thmap (List ℕ) (ℕ × Flow)) where
  -- `npf_conn_lookup`: the connection, with a reference, and the direction.
  unfoldable pub conn_lookup : Params → Db maps → Cache → ℕ → ℕ → Option (ℕ × Flow) × Db maps
  conn_lookup params db npc di now = elim (conkey params.key npc di forw) [
    | none ↦ (none, db)
    | some key ↦
        let found = conndb_lookup maps db key.0 in
        elim found.0 [
          | none ↦ (none, found.1)
          | some (c, flow) ↦
              let con = found.1.conns c in
              if conn_check con npc di flow
              then (some (c, flow), put_conn maps found.1 c (record con { atime = now % u32_mod }))
              else (none, drop_ref maps found.1 c)
        ]
  ]

  -- `npf_conn_release`
  unfoldable pub conn_release : Db maps → ℕ → Db maps
  conn_release db c =
      let flags = (db.conns c).flags in
      let seen =
        if not flags.active && not flags.expire
        then set_flags maps db c (record flags { active = true })
        else db in
      drop_ref maps seen c

  -- `npf_conn_inspect`. `alg` is what `npf_alg_conn` answers, and `mbuf` whether the buffer still has
  -- its chain after it. The result is the connection, and whether the error is set to `ENOMEM`.
  unfoldable pub conn_inspect :
      Params → Bool → Option ℕ → Bool → Db maps → Cache → ℕ → ℕ → Option ℕ × Bool × Db maps
  conn_inspect params tracking alg mbuf db npc di now =
      if not (trackable tracking npc) then (none, false, db) else elim alg [
        | some c ↦ (some c, false, db)
        | none ↦
            if not mbuf
            then (none, true, db)
            else (let found = conn_lookup params db npc di now in
                elim found.0 [
                  | none ↦ (none, false, found.1)
                  | some (c, flow) ↦
                      let con = found.1.conns c in
                      let v = state_inspect params.state npc con.state flow in
                      let seen = put_conn maps found.1 c (record con { state = v.state }) in
                      if v.accepted
                      then (some c, false, seen)
                      else (none, false, conn_release seen c)
                ])
      ]

  -- The end of `npf_conn_establish` on a duplicate.
  unfoldable pub establish_failed : Db maps → ℕ → Option ℕ × Db maps
  establish_failed db c =
      let marked = set_flags maps db c (unlinked (db.conns c).flags) in
      (none, conndb_enqueue maps (drop_ref maps marked c) c)

  -- The insertion of both keys of the new connection.
  unfoldable pub link_conn : Db maps → Conn → Option ℕ × Db maps
  link_conn db con =
      let c = db.next in
      let made = record db { conns = update db.conns c con; next = c + 1 } in
      let first = conndb_insert maps made con.fw c forw in
      let second = conndb_insert maps first.1 con.bk c back in
      if not first.0
      then establish_failed first.1 c
      else if not second.0
      then establish_failed (conndb_remove maps second.1 con.fw).1 c
      else (some c, conndb_enqueue maps second.1 c)

  -- `npf_conn_establish`. `memory` says whether the allocation succeeds. A connection that is
  -- destroyed before it is linked leaves nothing behind.
  unfoldable pub conn_establish :
      Params → Bool → Bool → Db maps → Cache → ℕ → Bool → ℕ → Option ℕ × Db maps
  conn_establish params tracking memory db npc di global now =
      if not (trackable tracking npc)
      then (none, db)
      else if not memory
      then (none, db)
      else (let init = state_init params.state npc zero_state in
          if not init.accepted then (none, db) else elim (conkey params.key npc di forw) [
            | none ↦ (none, db)
            | some fw ↦ elim (conkey params.key npc (bit_xor di pfil_all) back) [
              | none ↦ (none, db)
              | some bk ↦ link_conn db (new_conn npc di global now init.state fw.0 bk.0)
            ]
          ])

  -- `npf_conn_setnat`, with the address and the port of `npf_nat_gettrans`, and the end that
  -- `nat_type_which` gives; `none` is a return of 0.
  unfoldable pub conn_setnat : Db maps → ℕ → ℕ → List ℕ → ℕ → Which → Option ConnErrno × Db maps
  conn_setnat db c nt taddr tport which =
      let con = db.conns c in
      let bk = adjkey con.bk taddr tport which in
      let without = (conndb_remove maps db con.bk).1 in
      let adjusted = put_conn maps without c (record con { bk = bk }) in
      let again = conndb_insert maps adjusted bk c back in
      if con.flags.expire then (some einval, db) else elim con.nat [
        | some other ↦ (some eisconn, db)
        | none ↦
            if again.0
            then (none, put_conn maps again.1 c (record con { bk = bk; nat = some nt }))
            else (
              some eisconn,
              set_flags maps (conndb_remove maps again.1 con.fw).1 c (unlinked con.flags),
            )
      ]

  -- `npf_conn_expire`
  unfoldable pub conn_expire : Db maps → ℕ → Db maps
  conn_expire db c = set_flags maps db c (record ((db.conns c).flags) { expire = true })

  -- `npf_conn_pass`: the flags and the number of the rule, and the rule procedure.
  unfoldable pub conn_pass : Db maps → ℕ → Option (ℕ × ℕ × Option ℕ)
  conn_pass db c =
      let con = db.conns c in if con.flags.pass then some (con.retfl, con.rid, con.rproc) else none

  -- `npf_conn_setpass`
  unfoldable pub conn_setpass : Db maps → ℕ → ℕ → ℕ → Option ℕ → Db maps
  conn_setpass db c retfl rid rp =
      let con = db.conns c in
      let flags : Flags = record (con.flags) { pass = true } in
      put_conn maps db c (elim rp [
        | none ↦ record con { flags = flags; rproc = none }
        | some p ↦ record con { flags = flags; rproc = some p; rid = rid; retfl = retfl }
      ])

  -- `npf_conn_remove`
  unfoldable pub conn_remove : Db maps → ℕ → Db maps
  conn_remove db c =
      let con = db.conns c in
      let without =
        if con.flags.removed
        then db
        else (conndb_remove maps (conndb_remove maps db con.fw).1 con.bk).1 in
      set_flags maps without c (unlinked con.flags)
