-- ===== src/Conn/Flush.antt =====
-- A flush of the connection database, the round of the collector that ends tracking, where it need not
-- wait for references.
use npf.Prelude.{ℕ, ◌≡◌, ◌⊎◌, inl, inr, refl, ap, ◌∙◌, arith, true, List, [], ◌∷◌, ==→eq, In}
use npf.Packet.{Flow}
use npf.Thmap.{Thmap}
use npf.Conn.{Conn, Params}
use npf.Conn.Db.{Db, conndb_update, conndb_remove, migrate}
use npf.Conn.Ops.{conn_remove}
use npf.Conn.Gc.{flush_all, destroy_all, conndb_gc}
use npf.Conn.Linked.{remove_lists}

-- Of connections that nothing refers to, all are destroyed.
destroy_all_idle :
    (conns : ℕ → Conn) (xs : List ℕ)
    → ((c : ℕ) → In c xs → (conns c).refcnt ≡ 0)
    → destroy_all conns xs ≡ (xs, [])
unfolding destroy_all
destroy_all_idle conns [] idle = refl
destroy_all_idle conns (c ∷ rest) idle =
    rw (destroy_all_idle conns rest (λ d i. idle d (inr i)), idle c (inl refl)) refl

In-migrate : (new list : List ℕ) (c : ℕ) → In c new ⊎ In c list → In c (migrate new list)
In-migrate [] list c (inl i) = absurd i
In-migrate [] list c (inr i) = i
In-migrate (d ∷ new) list c (inl (inl e)) = In-migrate new (d ∷ list) c (inr (inl e))
In-migrate (d ∷ new) list c (inl (inr i)) = In-migrate new (d ∷ list) c (inl i)
In-migrate (d ∷ new) list c (inr i) = In-migrate new (d ∷ list) c (inr (inr i))

migrate-In : (new list : List ℕ) (c : ℕ) → In c (migrate new list) → In c new ⊎ In c list
migrate-In [] list c i = inr i
migrate-In (d ∷ new) list c i = elim (migrate-In new (d ∷ list) c i) [
  | inl later ↦ inl (inr later)
  | inr (inl e) ↦ inl (inl e)
  | inr (inr i) ↦ inr i
]

module _ (maps : Thmap (List ℕ) (ℕ × Flow)) where
  flush_lists :
      (db : Db maps) (rest : List ℕ)
      → db.list ≡ rest
      → ((flush_all maps db rest).gclist ≡ migrate rest db.gclist)
        × ((flush_all maps db rest).list ≡ [])
        × ((flush_all maps db rest).new ≡ db.new)
  unfolding flush_all
  flush_lists db [] e = (refl, e, refl)
  flush_lists db (c ∷ rest) e =
      let unlinked : Db maps = record db { list = rest; gclist = c ∷ db.gclist } in
      let same = remove_lists maps unlinked c in
      let later = flush_lists (conn_remove maps unlinked c) rest same.2 in
      (later.0 ∙ ap (migrate rest) same.3, later.1, later.2 ∙ same.1)

  remove_refcnt :
      (db : Db maps) (c q : ℕ) → ((conn_remove maps db c).conns q).refcnt ≡ (db.conns q).refcnt
  unfolding conn_remove conndb_remove
  remove_refcnt db c q = ground (arith, ==→eq c q)

  flush_refcnt :
      (db : Db maps) (rest : List ℕ) (q : ℕ)
      → ((flush_all maps db rest).conns q).refcnt ≡ (db.conns q).refcnt
  unfolding flush_all
  flush_refcnt db [] q = refl
  flush_refcnt db (c ∷ rest) q =
      let unlinked : Db maps = record db { list = rest; gclist = c ∷ db.gclist } in
      flush_refcnt (conn_remove maps unlinked c) rest q ∙ remove_refcnt unlinked c q

  -- The connection is in a list of the database.
  abbrev pub IsListed : Db maps → ℕ → Type 0
  IsListed db c = In c db.new ⊎ (In c db.list ⊎ In c db.gclist)

  migrate-IsListed :
      (db : Db maps) (c : ℕ) → In c (migrate (migrate db.new db.list) db.gclist) → IsListed db c
  migrate-IsListed db c i = elim (migrate-In (migrate db.new db.list) db.gclist c i) [
    | inl list ↦ elim (migrate-In db.new db.list c list) [
      | inl new ↦ inl new
      | inr old ↦ inr (inl old)
    ]
    | inr gone ↦ inr (inr gone)
  ]

  IsListed-migrate :
      (db : Db maps) (c : ℕ) → IsListed db c → In c (migrate (migrate db.new db.list) db.gclist)
  IsListed-migrate db c i =
      let list = migrate db.new db.list in
      elim i [
        | inl new ↦ In-migrate list db.gclist c (inl (In-migrate db.new db.list c (inl new)))
        | inr (inl old) ↦ In-migrate list db.gclist c (inl (In-migrate db.new db.list c (inr old)))
        | inr (inr gone) ↦ In-migrate list db.gclist c (inr gone)
      ]

  -- When nothing refers to the connections in the lists of the database, a flush destroys each of
  -- them, and empties the lists.
  pub conndb_gc-flush :
      (params : Params) (db : Db maps) (now wtime c : ℕ)
      → ((q : ℕ) → IsListed db q → (db.conns q).refcnt ≡ 0)
      → IsListed db c
      → In c (conndb_gc maps params db true now wtime).0
        × ((conndb_gc maps params db true now wtime).2.new ≡ [])
        × ((conndb_gc maps params db true now wtime).2.list ≡ [])
        × ((conndb_gc maps params db true now wtime).2.gclist ≡ [])
  unfolding conndb_gc conndb_update
  conndb_gc-flush params db now wtime c idle i =
      let list = migrate db.new db.list in
      let flushed = flush_all maps (conndb_update maps db) list in
      let lists = flush_lists (conndb_update maps db) list refl in
      let gone = migrate list db.gclist in
      let unreferenced : (q : ℕ) → In q gone → (flushed.conns q).refcnt ≡ 0 =
        λ q j. flush_refcnt (conndb_update maps db) list q ∙ idle q (migrate-IsListed db q j) in
      let all = destroy_all_idle flushed.conns gone unreferenced in
      (rw (lists.0, all) (IsListed-migrate db c i), lists.2, lists.1, rw (lists.0, all) refl)
