-- ===== src/Conn/Db.antt =====
-- The connection database, src/kern/npf_conndb.c: the map from keys to connections, and the lists.
use npf.Prelude.{
  ℕ, Bool, ◌&&◌, List, [], ◌∷◌, Option, none, some, ◌==◌, take, shr, update, add32, sub32,
}
use npf.Packet.{Flow}
use npf.Connkey.{connkey_len}
use npf.Thmap.{Thmap}
use npf.Conn.{Conn, Flags, same_flow}

-- The bytes of a key that the map is given, as words.
unfoldable pub keyed : List ℕ → List ℕ
keyed key = take (shr (connkey_len key) 2) key

-- A tagged pointer: the connection, and `CONNDB_FORW_BIT` as the direction.
abbrev pub same_val : ℕ × Flow → ℕ × Flow → Bool
same_val (c, f) (d, g) = c == d && same_flow f g

-- The loop of `npf_conndb_update`.
abbrev pub migrate : List ℕ → List ℕ → List ℕ
migrate [] list = list
migrate (con ∷ next) list = migrate next (con ∷ list)

module _ (maps : Thmap (List ℕ) (ℕ × Flow)) where
  -- `npf_conndb_t`, with the memory of the connections and the next free place in it.
  pub record Db : Type 0 where
    pub map : maps.Map
    pub new : List ℕ
    pub list : List ℕ
    pub gclist : List ℕ
    pub marker : Option ℕ
    pub conns : ℕ → Conn
    pub next : ℕ

  -- `npf_conndb_create`
  abbrev pub conndb_create : (ℕ → Conn) → ℕ → Db
  conndb_create conns next = record {
    map = maps.empty;
    new = [];
    list = [];
    gclist = [];
    marker = none;
    conns = conns;
    next = next;
  }

  -- A write to a connection.
  abbrev pub put_conn : Db → ℕ → Conn → Db
  put_conn db c con = record db { conns = update db.conns c con }

  abbrev pub set_flags : Db → ℕ → Flags → Db
  set_flags db c flags = put_conn db c (record (db.conns c) { flags = flags })

  -- `atomic_inc_uint` and `atomic_dec_uint` of the reference count.
  abbrev pub hold : Db → ℕ → Db
  hold db c = put_conn db c (record (db.conns c) { refcnt = add32 (db.conns c).refcnt 1 })

  abbrev pub drop_ref : Db → ℕ → Db
  drop_ref db c = put_conn db c (record (db.conns c) { refcnt = sub32 (db.conns c).refcnt 1 })

  -- `npf_conndb_lookup`
  unfoldable pub conndb_lookup : Db → List ℕ → Option (ℕ × Flow) × Db
  conndb_lookup db ck = elim (maps.get db.map (keyed ck)) [
    | none ↦ (none, db)
    | some (con, flow) ↦ (some (con, flow), hold db con)
  ]

  -- `npf_conndb_insert`
  unfoldable pub conndb_insert : Db → List ℕ → ℕ → Flow → Bool × Db
  conndb_insert db ck con flow =
      let r = maps.put db.map (keyed ck) (con, flow) in
      (same_val r.1 (con, flow), record db { map = r.0 })

  -- `npf_conndb_remove`
  unfoldable pub conndb_remove : Db → List ℕ → Option (ℕ × Flow) × Db
  conndb_remove db ck = let r = maps.del db.map (keyed ck) in (r.1, record db { map = r.0 })

  -- `npf_conndb_enqueue`
  unfoldable pub conndb_enqueue : Db → ℕ → Db
  conndb_enqueue db con = record db { new = con ∷ db.new }

  -- `npf_conndb_update`
  unfoldable pub conndb_update : Db → Db
  conndb_update db = record db { new = []; list = migrate db.new db.list }
