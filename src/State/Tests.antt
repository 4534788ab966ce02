-- ===== src/State/Tests.antt =====
-- The theorems on state tracking at concrete packets.
use npf.Prelude.{ℕ, ◌≡◌, refl, List, [], ◌∷◌, none}
use npf.Packet.{Flow, forw, back, Cache}
use npf.State.{Params, zero_state, state_init, conn_established}
use npf.State.Generic.{inspect_all, inspect_all-generic}

abbrev state_params : Params
state_params = record {
  generic_timeouts = 0 ∷ 30 ∷ 60 ∷ [];
  gre_timeout = 86400;
  tcp = record {
    max_ack_win = 66000;
    strict_order_rst = 1;
    timeouts = 30 ∷ 86400 ∷ 21600 ∷ 10 ∷ 240 ∷ [];
  };
}

abbrev packet : ℕ → ℕ → Cache
packet proto flags = record {
  info = 0x11;
  alen = 4;
  hlen = 20;
  proto = proto;
  src = 0x0a000001 ∷ [];
  dst = 0x0a000002 ∷ [];
  ip_len = 140;
  sport = 40000;
  dport = 80;
  icmp_id = 0;
  th_seq = 7;
  th_ack_no = 0;
  th_off = 5;
  th_flags = flags;
  th_win = 2000;
  tcp_opts = none;
  ifid = 1;
  ckey = none;
}

abbrev query_and_reply : List (Cache × Flow)
query_and_reply = (packet 17 0, forw) ∷ (packet 17 0, back) ∷ (packet 17 0, forw) ∷ []

inspect_all-generic_example :
    (inspect_all state_params
      (state_init state_params (packet 17 0) zero_state).state
      query_and_reply).nst_state
    ≡ conn_established
inspect_all-generic_example =
    inspect_all-generic state_params (packet 17 0) zero_state query_and_reply refl
      (refl, (refl, (refl, tt)))
