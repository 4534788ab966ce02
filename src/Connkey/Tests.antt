-- ===== src/Connkey/Tests.antt =====
-- The theorems on connection keys at concrete keys.
use npf.Prelude.{
  ℕ, ◌+◌, ◌*◌, ◌^◌, ◌≡◌, ◌↔◌, refl, inl, arith, true, false, List, [], ◌∷◌, some, none,
}
use npf.Packet.{forw, back, Cache}
use npf.Connkey.{Ends, Params, src, setkey, getkey, setckey, getckey, adjkey, connkey_copy, conkey}
use npf.Connkey.Layout.{IsEnds, header_word, ports_word}
use npf.Connkey.Fields.{with_ckey, getkey-setckey, getckey-setckey, setkey-injective}
use npf.Connkey.Adjust.{adjusted_ends, adjkey_lem, connkey_copy_lem}
use npf.Connkey.Match.{Answers, conkey-Answers}

abbrev two_hosts : Ends
two_hosts = record { saddr = 0x0a000001 ∷ []; daddr = 0x0a000002 ∷ []; sid = 40000; did = 80 }

two_hosts-IsEnds : IsEnds 4 two_hosts
two_hosts-IsEnds = record {
  saddr_length = refl;
  daddr_length = refl;
  sid_fits = omega arith;
  did_fits = omega arith;
}

abbrev ip4_alen : ℕ
ip4_alen = 4

abbrev tcp_proto : ℕ
tcp_proto = 6

abbrev third_ifid : ℕ
third_ifid = 3

abbrev inbound : ℕ
inbound = 1

setkey-injective_example :
    (ip4_alen ≡ ip4_alen)
    × (tcp_proto ≡ tcp_proto)
    × (third_ifid ≡ third_ifid)
    × (inbound ≡ inbound)
    × (two_hosts ≡ two_hosts)
setkey-injective_example =
    setkey-injective 4 4 6 6 3 3 1 1 two_hosts two_hosts (inl refl) (inl refl) (omega arith)
      (omega arith) (omega arith) (omega arith) (omega arith) (omega arith) two_hosts-IsEnds
      two_hosts-IsEnds refl

getkey-setckey_example :
    getkey (setckey (setkey 4 6 two_hosts forw).0 3 1)
    ≡ some (record { alen = 4; proto = 100; ends = two_hosts })
getkey-setckey_example =
    getkey-setckey 4 6 3 1 two_hosts (inl refl) (omega arith) (omega arith) (omega arith)
      two_hosts-IsEnds

getckey-setckey_example : getckey (setckey (setkey 4 6 two_hosts forw).0 3 1) ≡ (1 * 2 ^ 18 + 3, 1)
getckey-setckey_example =
    getckey-setckey 4 6 3 1 two_hosts (inl refl) (omega arith) (omega arith) (omega arith)
      two_hosts-IsEnds

adjkey_lem_example :
    adjkey (with_ckey 4 6 3 two_hosts) (0xc0000201 ∷ []) 1024 src
    ≡ with_ckey 4 6 3 (adjusted_ends two_hosts (0xc0000201 ∷ []) 1024 src)
adjkey_lem_example =
    adjkey_lem 4 6 3 1024 (0xc0000201 ∷ []) src two_hosts (inl refl) (omega arith) (omega arith)
      two_hosts-IsEnds refl (omega arith)

connkey_copy_lem_example :
    ((connkey_copy (setkey 4 6 two_hosts forw).0 false).0 ≡ (setkey 4 6 two_hosts forw).0)
    × (((connkey_copy (setkey 4 6 two_hosts forw).0 true).0 ≡ (setkey 4 6 two_hosts back).0)
        ↔ (header_word 4 6 ≡ ports_word 40000 80))
connkey_copy_lem_example = connkey_copy_lem 4 6 two_hosts (inl refl) (omega arith) two_hosts-IsEnds

abbrev key_params : Params
key_params = record { connkey_interface = 1; connkey_direction = 0 }

abbrev datagram : List ℕ → List ℕ → ℕ → ℕ → Cache
datagram saddr daddr sport dport = record {
  info = 0x21;
  alen = 4;
  hlen = 20;
  proto = 17;
  src = saddr;
  dst = daddr;
  ip_len = 140;
  sport = sport;
  dport = dport;
  icmp_id = 0;
  th_seq = 0;
  th_ack_no = 0;
  th_off = 0;
  th_flags = 0;
  th_win = 0;
  tcp_opts = none;
  ifid = 1;
  ckey = none;
}

abbrev query : Cache
query = datagram (0x0a000001 ∷ []) (0x0a000002 ∷ []) 40000 53

abbrev reply : Cache
reply = datagram (0x0a000002 ∷ []) (0x0a000001 ∷ []) 53 40000

reply-Answers : Answers reply query
reply-Answers = record {
  same_alen = refl;
  same_proto = refl;
  same_ifid = refl;
  from_dst = refl;
  to_src = refl;
  from_dport = refl;
  to_sport = refl;
  same_id = refl;
  same_query = refl;
  own_key = refl;
  own_key' = refl;
}

conkey-Answers_example : conkey key_params reply 1 forw ≡ conkey key_params query 1 back
conkey-Answers_example = conkey-Answers key_params reply query 1 reply-Answers
