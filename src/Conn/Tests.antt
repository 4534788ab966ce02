-- ===== src/Conn/Tests.antt =====
-- The theorems on connection tracking at concrete packets and databases.
use npf.Prelude.{
  ◌↔◌, without, ℕ, ◌≡◌, ◌≢◌, inl, inr, refl, true, false, List, [], ◌∷◌, none, some, In, ◌<◌,
}
use npf.Packet.{Flow, forw, back, Cache}
use npf.State.{zero_state, state_init}
use native.Mathlib.Decide.{ℕ_discrete}
use npf.Thmap.{Thmap}
use npf.Thmap.Assoc.{assoc_map}
use npf.Connkey.{conkey, packet_ids, packet_key, setkey, setckey}
use npf.Connkey.Match.{Answers}
use npf.Conn.{Conn, Params, key_of, conn_expired, trackable}
use npf.Conn.Db.{
  Db, keyed, conndb_create, conndb_insert, conndb_enqueue, conndb_update, conndb_remove,
}
use npf.Conn.Ops.{
  conn_lookup, conn_establish, conn_release, conn_expire, new_conn, link_conn, conn_remove,
}
use npf.Conn.Gc.{conndb_gc, gc_incr, gc_scan, conndb_getnext, gc_move, destroy_all, list_next}
use npf.Conn.Index.{tagged, words_eq}
use npf.Conn.Sound.{IsSound, conn_expire-IsSound, conn_release-IsSound}
use npf.Conn.Linked.{conn_establish-IsSound}
use npf.Conn.Reach.{Reach, here, next, establish, create-IsSound, Reach-index}
use npf.Conn.Reply.{conn_lookup-conn_establish}
use npf.Conn.Destroyed.{conndb_gc-destroys}
use npf.Conn.Flush.{IsListed, conndb_gc-flush}

abbrev maps : Thmap (List ℕ) (ℕ × Flow)
maps = assoc_map words_eq

abbrev params : Params
params = record {
  key = record { connkey_interface = 1; connkey_direction = 0 };
  state = record {
    generic_timeouts = 0 ∷ 30 ∷ 60 ∷ [];
    gre_timeout = 86400;
    tcp = record {
      max_ack_win = 66000;
      strict_order_rst = 1;
      timeouts = 30 ∷ 86400 ∷ 21600 ∷ 10 ∷ 240 ∷ [];
    };
  };
  step = 256;
  interval_min = 50;
  interval_max = 5000;
}

abbrev datagram : List ℕ → List ℕ → ℕ → ℕ → Cache
datagram saddr daddr sport dport = record {
  info = 0x29;
  alen = 4;
  hlen = 20;
  proto = 17;
  src = saddr;
  dst = daddr;
  ip_len = 140;
  sport = sport;
  dport = dport;
  icmp_id = 0;
  th_seq = 0;
  th_ack_no = 0;
  th_off = 0;
  th_flags = 0;
  th_win = 0;
  tcp_opts = none;
  ifid = 1;
  ckey = none;
}

abbrev query : Cache
query = datagram (0x0a000001 ∷ []) (0x0a000002 ∷ []) 40000 53

abbrev answer : Cache
answer = datagram (0x0a000002 ∷ []) (0x0a000001 ∷ []) 53 40000

answer-Answers : Answers answer query
answer-Answers = record {
  same_alen = refl;
  same_proto = refl;
  same_ifid = refl;
  from_dst = refl;
  to_src = refl;
  from_dport = refl;
  to_sport = refl;
  same_id = refl;
  same_query = refl;
  own_key = refl;
  own_key' = refl;
}

abbrev no_conn : Conn
no_conn = new_conn query 0 false 0 zero_state [] []

abbrev empty_db : Db maps
empty_db = conndb_create maps (λ c. no_conn) 0

abbrev one_conn : Db maps
one_conn = (conn_establish maps params true true empty_db query 2 true 100).1

made : (conn_establish maps params true true empty_db query 2 true 100).0 ≡ some 0
unfolding conn_establish trackable state_init conkey packet_ids packet_key setkey words_eq new_conn
    link_conn conndb_insert conndb_enqueue keyed setckey ℕ_discrete
made = refl

one_conn-IsSound : IsSound maps one_conn
one_conn-IsSound =
    conn_establish-IsSound maps params true true empty_db query 2 true 100
      (create-IsSound maps (λ c. no_conn))

conn_lookup-conn_establish_example :
    ((conn_lookup maps params (conn_release maps one_conn 0) query 2 101).0 ≡ tagged 0 forw)
    × ((conn_lookup maps params (conn_release maps one_conn 0) answer 1 101).0 ≡ tagged 0 back)
conn_lookup-conn_establish_example =
    conn_lookup-conn_establish maps params true true empty_db query answer 2 true 100 101 0
      (create-IsSound maps (λ c. no_conn)) (inr refl) answer-Answers made

-- The connection is let go of and expires.
abbrev old_db : Db maps
old_db = conn_expire maps (conn_release maps one_conn 0) 0

old_db-IsSound : IsSound maps old_db
old_db-IsSound =
    conn_expire-IsSound maps (conn_release maps one_conn 0) 0
      (conn_release-IsSound maps one_conn 0 one_conn-IsSound)

collected : In 0 (conndb_gc maps params old_db false 200 100).0
unfolding conn_establish trackable state_init conkey packet_ids packet_key setkey words_eq new_conn
    link_conn conndb_insert conndb_enqueue keyed setckey ℕ_discrete conn_expire conn_release
    conndb_gc conndb_update gc_incr gc_scan conndb_getnext gc_move conn_expired conn_remove
    conndb_remove destroy_all list_next without
collected = inl refl

conndb_gc-destroys_example :
    (((conndb_gc maps params old_db false 200 100).2.conns 0).refcnt ≡ 0)
    × (maps.get (conndb_gc maps params old_db false 200 100).2.map (keyed (one_conn.conns 0).fw)
        ≢ tagged 0 forw)
conndb_gc-destroys_example =
    conndb_gc-destroys maps params old_db false 200 100 0 (keyed (one_conn.conns 0).fw) forw
      old_db-IsSound collected

enqueued : In 0 one_conn.new
unfolding conn_establish trackable state_init conkey packet_ids packet_key setkey words_eq new_conn
    link_conn conndb_insert conndb_enqueue keyed setckey ℕ_discrete
enqueued = inl refl

-- The connection, let go of.
abbrev idle_db : Db maps
idle_db = conn_release maps one_conn 0

idle_enqueued : In 0 idle_db.new
unfolding conn_establish trackable state_init conkey packet_ids packet_key setkey words_eq new_conn
    link_conn conndb_insert conndb_enqueue keyed setckey ℕ_discrete conn_release
idle_enqueued = inl refl

only_one : (q : ℕ) → IsListed maps idle_db q → (idle_db.conns q).refcnt ≡ 0
unfolding conn_establish trackable state_init conkey packet_ids packet_key setkey words_eq new_conn
    link_conn conndb_insert conndb_enqueue keyed setckey ℕ_discrete conn_release
only_one q (inl (inl e)) = rw e refl
only_one q (inl (inr i)) = absurd i
only_one q (inr (inl i)) = absurd i
only_one q (inr (inr i)) = absurd i

conndb_gc-flush_example :
    In 0 (conndb_gc maps params idle_db true 130 100).0
    × ((conndb_gc maps params idle_db true 130 100).2.new ≡ [])
    × ((conndb_gc maps params idle_db true 130 100).2.list ≡ [])
    × ((conndb_gc maps params idle_db true 130 100).2.gclist ≡ [])
conndb_gc-flush_example = conndb_gc-flush maps params idle_db 130 100 0 only_one (inl idle_enqueued)

one_step : Reach maps empty_db one_conn
one_step = next here (establish params true true query 2 true 100 refl)

Reach-index_example : (maps.get one_conn.map (keyed (one_conn.conns 0).bk) ≡ tagged 0 back) ↔ (
    (0 < one_conn.next)
    × ((one_conn.conns 0).flags.removed ≡ false)
    × (keyed (key_of back (one_conn.conns 0)) ≡ keyed (one_conn.conns 0).bk))
Reach-index_example =
    Reach-index maps (λ c. no_conn) one_conn (keyed (one_conn.conns 0).bk) 0 back one_step

-- The connection that was established is in the map.
under_key : maps.get one_conn.map (keyed (one_conn.conns 0).bk) ≡ tagged 0 back
unfolding conn_establish trackable state_init conkey packet_ids packet_key setkey words_eq new_conn
    link_conn conndb_insert conndb_enqueue keyed setckey ℕ_discrete
under_key = refl
