-- ===== src/Conn/Reach.antt =====
-- Connection tracking as a system of steps: any operations, by any threads, in any order, each of them at
-- once. What the threads may hold is any allocated connection.
use npf.Prelude.{ℕ, ◌<◌, ◌≡◌, ◌↔◌, sym, subst, ◌∙◌, arith, Bool, false, List, Option}
use npf.Packet.{Flow, Cache}
use npf.Thmap.{Thmap}
use npf.Connkey.{Which}
use npf.Conn.{Conn, Params, key_of}
use npf.Conn.Db.{Db, keyed, conndb_create}
use npf.Conn.Ops.{
  conn_lookup, conn_inspect, conn_establish, conn_release, conn_expire, conn_setpass, conn_setnat,
}
use npf.Conn.Gc.{conndb_gc}
use npf.Conn.Index.{tagged}
use npf.Conn.Sound.{
  IsSound, conn_lookup-IsSound, conn_release-IsSound, conn_expire-IsSound, conn_setpass-IsSound,
}
use npf.Conn.Linked.{conn_establish-IsSound, conn_setnat-IsSound, conn_inspect-IsSound}
use npf.Conn.Collect.{conndb_gc-IsSound}

module _ (maps : Thmap (List ℕ) (ℕ × Flow)) where
  pub data Step (db : Db maps) (db' : Db maps) : Type 0 where
    lookup :
        (params : Params) (npc : Cache) (di now : ℕ)
        → db' ≡ (conn_lookup maps params db npc di now).1
        → Step db db'
    inspect :
        (params : Params) (tracking : Bool) (alg : Option ℕ) (mbuf : Bool) (npc : Cache)
        (di now : ℕ)
        → db' ≡ (conn_inspect maps params tracking alg mbuf db npc di now).2
        → Step db db'
    establish :
        (params : Params) (tracking memory : Bool) (npc : Cache) (di : ℕ) (global : Bool) (now : ℕ)
        → db' ≡ (conn_establish maps params tracking memory db npc di global now).1
        → Step db db'
    release : (c : ℕ) → db' ≡ conn_release maps db c → Step db db'
    expire : (c : ℕ) → db' ≡ conn_expire maps db c → Step db db'
    setpass :
        (c retfl rid : ℕ) (rp : Option ℕ) → db' ≡ conn_setpass maps db c retfl rid rp → Step db db'
    setnat :
        (c nt : ℕ) (taddr : List ℕ) (tport : ℕ) (which : Which)
        → c < db.next
        → db' ≡ (conn_setnat maps db c nt taddr tport which).1
        → Step db db'
    collect :
        (params : Params) (flush : Bool) (now wtime : ℕ)
        → db' ≡ (conndb_gc maps params db flush now wtime).2
        → Step db db'

  pub data Reach (db : Db maps) : Db maps → Type 0 where
    here : Reach db db
    next : {db' db'' : Db maps} → Reach db db' → Step db' db'' → Reach db db''

  Step-IsSound : (db db' : Db maps) → Step db db' → IsSound maps db → IsSound maps db'
  Step-IsSound db db' (lookup params npc di now e) s =
      rw e (conn_lookup-IsSound maps params db npc di now s)
  Step-IsSound db db' (inspect params tracking alg mbuf npc di now e) s =
      rw e (conn_inspect-IsSound maps params tracking alg mbuf db npc di now s)
  Step-IsSound db db' (establish params tracking memory npc di global now e) s =
      rw e (conn_establish-IsSound maps params tracking memory db npc di global now s)
  Step-IsSound db db' (release c e) s = rw e (conn_release-IsSound maps db c s)
  Step-IsSound db db' (expire c e) s = rw e (conn_expire-IsSound maps db c s)
  Step-IsSound db db' (setpass c retfl rid rp e) s =
      rw e (conn_setpass-IsSound maps db c retfl rid rp s)
  Step-IsSound db db' (setnat c nt taddr tport which h e) s =
      rw e (conn_setnat-IsSound maps db c nt taddr tport which s h)
  Step-IsSound db db' (collect params flush now wtime e) s =
      rw e (conndb_gc-IsSound maps params db flush now wtime s)

  -- However the operations of connection tracking follow one another, the invariant stays.
  pub Reach-IsSound : {db db' : Db maps} → IsSound maps db → Reach db db' → IsSound maps db'
  Reach-IsSound s here = s
  Reach-IsSound s (next {db'} {db''} r st) = Step-IsSound db' db'' st (Reach-IsSound s r)

  -- An empty database with no connection allocated.
  pub create-IsSound : (conns : ℕ → Conn) → IsSound maps (conndb_create maps conns 0)
  create-IsSound conns = record {
    index = record {
      entry = λ k c f h. cc (sym (maps.get_empty k) ∙ h);
      slot = λ c f h. absurd (ground arith);
    };
    marked = λ c. ground arith;
    new_below = tt;
    list_below = tt;
    gclist_below = tt;
    marker_below = tt;
    gclist_gone = tt;
  }

  -- In every database that operations in any order lead to from an empty one, a key is mapped to a
  -- direction of a connection exactly if the connection is allocated and not removed and the key is its
  -- key of that direction.
  pub Reach-index :
      (conns : ℕ → Conn) (db : Db maps) (k : List ℕ) (c : ℕ) (f : Flow)
      → Reach (conndb_create maps conns 0) db
      → (maps.get db.map k ≡ tagged c f) ↔ (
          (c < db.next)
          × ((db.conns c).flags.removed ≡ false)
          × (keyed (key_of f (db.conns c)) ≡ k))
  Reach-index conns db k c f r =
      let s = Reach-IsSound (create-IsSound conns) r in
      (
        (λ e.
            let found = s.index.entry k c f e in
            (let t = found.0 in ground arith, let t = found.0 in ground arith, found.1)),
        (λ h.
            subst (λ x. maps.get db.map x ≡ tagged c f) h.2
              (let below = h.0 in let stays = h.1 in s.index.slot c f (ground arith))),
      )
