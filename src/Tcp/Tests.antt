-- ===== src/Tcp/Tests.antt =====
-- The theorems on TCP tracking at concrete segments of one connection.
use npf.Prelude.{ℕ, ◌≤◌, ◌<◌, ◌≡◌, ◌↔◌, ◌⊎◌, refl, true, false, arith, List, [], ◌∷◌, none, some}
use npf.Packet.{Flow, forw, back, Cache, tcp_data_len, has_flag, th_syn, th_fin, th_rst, th_ack}
use npf.Packet.Options.{Found, fetch_tcpopts, tcp_max_winshift}
use npf.Packet.Options.Scan.{fetch_tcpopts-wscale}
use npf.Tcp.Fsm
use npf.Tcp.Window.{
  State, Params, inwindow, check_bounds, replied, adjusted, segment, reply_side, adjust_ack,
  adjust_rst, bad_rst, violated, passed_from, passed_to, nothing_found,
}
use npf.Tcp.Window.Spec.{IsWithin, inwindow_iff}
use npf.Tcp.Window.Bounds.{AreBounded}
use npf.Tcp.Track.{state_tcp, next_state, track}
use npf.Tcp.Track.Steps.{state_tcp-AreBounded, state_tcp-rejects}
use npf.Tcp.Track.Handshake.{track-NoReply, state_tcp-establishes}

abbrev tcp_params : Params
tcp_params = record {
  max_ack_win = 66000;
  strict_order_rst = 1;
  timeouts = 30 ∷ 86400 ∷ 21600 ∷ 10 ∷ 240 ∷ [];
}

-- A segment with 100 bytes of data.
abbrev tcp_segment : ℕ → ℕ → ℕ → Cache
tcp_segment flags seq ack = record {
  info = 0x11;
  alen = 4;
  hlen = 20;
  proto = 6;
  src = 0x0a000001 ∷ [];
  dst = 0x0a000002 ∷ [];
  ip_len = 140;
  sport = 40000;
  dport = 80;
  icmp_id = 0;
  th_seq = seq;
  th_ack_no = ack;
  th_off = 5;
  th_flags = flags;
  th_win = 2000;
  tcp_opts = none;
  ifid = 1;
  ckey = none;
}

abbrev tracked : ℕ → State
tracked s = record {
  nst_state = s;
  of_forw = record { nst_end = 1000; nst_maxend = 9000; nst_maxwin = 8000; nst_wscale = 2 };
  of_back = record { nst_end = 5000; nst_maxend = 12000; nst_maxwin = 7000; nst_wscale = 0 };
}

abbrev untracked : State
untracked = record {
  nst_state = 0;
  of_forw = record { nst_end = 0; nst_maxend = 0; nst_maxwin = 0; nst_wscale = 0 };
  of_back = record { nst_end = 0; nst_maxend = 0; nst_maxwin = 0; nst_wscale = 0 };
}

abbrev data_segment : Cache
data_segment = tcp_segment 0x10 1000 5000

inwindow_iff_example :
    ((inwindow tcp_params data_segment (tracked 4) forw).accepted ≡ true)
    ↔ IsWithin tcp_params
        (tracked 4).of_forw
        (tracked 4).of_back
        (segment data_segment (tracked 4).of_forw)
unfolding segment tcp_data_len
inwindow_iff_example =
    inwindow_iff tcp_params data_segment (tracked 4) forw (omega arith) (omega arith) (omega arith)
      refl refl
      (record {
        stop_small = omega arith;
        seq_small = omega arith;
        ack_small = omega arith;
        from_end_small = omega arith;
        from_maxend_small = omega arith;
        to_end_small = omega arith;
        to_maxwin_small = omega arith;
        skew_small = omega arith;
        max_ack_win_small = omega arith;
      })

-- A segment that starts far above the receiver's window is not accepted.
far_segment :
    (state_tcp tcp_params (tcp_segment 0x10 1000000 5000) (tracked 4) forw).accepted ≡ false
unfolding state_tcp next_state inwindow check_bounds replied adjusted segment tcp_data_len
    reply_side adjust_ack adjust_rst bad_rst violated passed_from passed_to Fsm.tcpfl2case
    Fsm.transition
far_segment = refl

state_tcp-rejects_example :
    ((state_tcp tcp_params (tcp_segment 0x10 1000000 5000) (tracked 4) forw).state.nst_state ≡ 4)
    × ((state_tcp tcp_params (tcp_segment 0x10 1000000 5000) (tracked 4) forw).state.of_back
        ≡ (tracked 4).of_back)
    × (((tracked 4).of_forw.nst_end ≡ 0)
        ⊎ ((state_tcp tcp_params (tcp_segment 0x10 1000000 5000) (tracked 4) forw).state
            ≡ tracked 4))
state_tcp-rejects_example =
    state_tcp-rejects tcp_params (tcp_segment 0x10 1000000 5000) (tracked 4) forw far_segment

reset_accepted : (state_tcp tcp_params (tcp_segment 0x04 1000 0) (tracked 4) forw).accepted ≡ true
unfolding state_tcp next_state inwindow check_bounds replied adjusted segment tcp_data_len
    reply_side adjust_ack adjust_rst bad_rst violated passed_from passed_to Fsm.tcpfl2case
    Fsm.transition
reset_accepted = refl

handshake_done :
    (state_tcp tcp_params data_segment (tracked 3) forw).state.nst_state ≡ Fsm.tcps_established
unfolding state_tcp next_state inwindow check_bounds replied adjusted segment tcp_data_len
    reply_side adjust_ack adjust_rst bad_rst violated passed_from passed_to Fsm.tcpfl2case
    Fsm.transition
handshake_done = refl

state_tcp-establishes_example :
    ((tracked 3).nst_state ≡ Fsm.tcps_syn_received)
    × (forw ≡ forw)
    × (has_flag data_segment.th_flags th_ack ≡ true)
    × (has_flag data_segment.th_flags th_syn ≡ false)
    × (has_flag data_segment.th_flags th_fin ≡ false)
    × (has_flag data_segment.th_flags th_rst ≡ false)
state_tcp-establishes_example =
    state_tcp-establishes tcp_params data_segment (tracked 3) forw (omega arith) (omega arith)
      (omega arith) handshake_done

abbrev one_sided : List (Cache × Flow)
one_sided =
    (tcp_segment 0x02 7 0, forw) ∷ (tcp_segment 0x10 9 8, back) ∷ (tcp_segment 0x10 8 10, forw) ∷ []

track-NoReply_example : (track tcp_params untracked one_sided).nst_state ≤ Fsm.tcps_syn_sent
track-NoReply_example =
    track-NoReply tcp_params untracked one_sided (omega arith)
      (omega arith, refl, (omega arith, refl, (omega arith, refl, tt)))

state_tcp-AreBounded_example :
    ((state_tcp tcp_params data_segment (tracked 4) forw).state.nst_state < Fsm.tcp_nstates)
    × AreBounded (state_tcp tcp_params data_segment (tracked 4) forw).state
state_tcp-AreBounded_example =
    state_tcp-AreBounded tcp_params data_segment (tracked 4) forw (omega arith) (omega arith)
      (omega arith) (omega arith)

-- NOP, a window scale of 200, the end of the list.
fetch_tcpopts-wscale_example :
    (r : Found) × ((fetch_tcpopts 7 (some (1 ∷ 3 ∷ 3 ∷ 200 ∷ 0 ∷ [])) nothing_found).1 ≡ some r)
    × (r.wscale ≤ tcp_max_winshift)
fetch_tcpopts-wscale_example =
    fetch_tcpopts-wscale 7 (some (1 ∷ 3 ∷ 3 ∷ 200 ∷ 0 ∷ [])) nothing_found (omega arith)
