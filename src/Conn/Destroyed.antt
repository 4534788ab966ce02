-- ===== src/Conn/Destroyed.antt =====
-- What the collector destroys, and what it leaves alone.
use npf.Prelude.{
  ℕ, ◌≡◌, ◌≢◌, ◌⊎◌, inl, inr, arith, Bool, true, Bool-cases, List, [], ◌∷◌, ◌==◌, In, ◌≤◌, max,
}
use npf.Packet.{Flow}
use npf.Thmap.{Thmap}
use npf.Conn.{Conn, Params}
use npf.Conn.Db.{Db}
use npf.Conn.Gc.{destroy_all, conndb_gc, gc_freq_tune}
use npf.Conn.Index.{tagged}
use npf.Conn.Sound.{AllRemoved, IsSound}
use npf.Conn.Collect.{round, round-IsSound}

destroyed_lem :
    (conns : ℕ → Conn) (xs : List ℕ) (c : ℕ)
    → AllRemoved conns xs
    → In c (destroy_all conns xs).0
    → ((conns c).flags.removed ≡ true) × (((conns c).refcnt == 0) ≡ true)
unfolding destroy_all
destroyed_lem conns [] c r i = absurd i
destroyed_lem conns (d ∷ rest) c r i = elim (Bool-cases ((conns d).refcnt == 0)) [
  | inr e ↦ absurd (rw e at i)
  | inl e ↦ at_place (rw e at i) e (destroyed_lem conns rest c r.1)
]
  where
    at_place :
        (c ≡ d) ⊎ In c (destroy_all conns rest).0
        → ((conns d).refcnt == 0) ≡ true
        → (In c (destroy_all conns rest).0
            → ((conns c).flags.removed ≡ true) × (((conns c).refcnt == 0) ≡ true))
        → ((conns c).flags.removed ≡ true) × (((conns c).refcnt == 0) ≡ true)
    at_place (inl same) e ih = (rw same (r.0), rw same e)
    at_place (inr later) e ih = ih later

module _ (maps : Thmap (List ℕ) (ℕ × Flow)) where
  -- From a sound database, a connection that a round destroys is under no key of the map, and nothing
  -- holds a reference to it.
  pub conndb_gc-destroys :
      (params : Params) (db : Db maps) (flush : Bool) (now wtime c : ℕ) (k : List ℕ) (f : Flow)
      → IsSound maps db
      → In c (conndb_gc maps params db flush now wtime).0
      → (((conndb_gc maps params db flush now wtime).2.conns c).refcnt ≡ 0)
        × (maps.get (conndb_gc maps params db flush now wtime).2.map k ≢ tagged c f)
  unfolding conndb_gc round
  conndb_gc-destroys params db flush now wtime c k f s i =
      let r = (round maps params db flush now).1 in
      let s' : IsSound maps r = round-IsSound maps params db flush now s in
      let d = destroyed_lem r.conns r.gclist c s'.gclist_gone i in
      (ground (arith, d.1), λ e. let filled = (s'.index.entry k c f e).0 in ground arith)

-- The time to the next round lies between the two parameters, if they are in order, and is the lower
-- one's otherwise.
pub gc_freq_tune_bounds :
    (params : Params) (wtime n : ℕ)
    → (params.interval_min ≤ gc_freq_tune params wtime n)
      × (gc_freq_tune params wtime n ≤ max params.interval_min params.interval_max)
unfolding gc_freq_tune
gc_freq_tune_bounds params wtime n = ground arith
