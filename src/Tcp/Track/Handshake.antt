-- ===== src/Tcp/Track/Handshake.antt =====
-- How a tracked connection comes to be established.
use npf.Prelude.{
  ℕ, ◌≤◌, ◌<◌, ◌≡◌, ◌≢◌, refl, Bool, true, false, arith, ◌==◌, ltb, leb, ◌&&◌, ◌||◌, not, List, [],
  ◌∷◌, holds_below,
}
use npf.Packet.{Flow, forw, back, Cache, has_flag, th_rst, th_syn, th_fin, th_ack}
use npf.Tcp.Fsm
use npf.Tcp.Fsm.Table.{every, every_sound, tcpfl2case-lt, tcpfl2case_lem, flag_case}
use npf.Tcp.Window.{Params, State}
use npf.Tcp.Track.{next_state, state_tcp, track}
use npf.Tcp.Track.Steps.{state_tcp-state}

abbrev is_forw : Flow → Bool
is_forw forw = true
is_forw back = false

only_ack : ℕ → Flow → ℕ → Bool
only_ack s flow c =
    not (Fsm.transition s flow c == Fsm.tcps_established)
    || (s == Fsm.tcps_syn_received && (is_forw flow && c == Fsm.tcpfc_ack))

only_ack_table : every only_ack ≡ true
unfolding holds_below only_ack Fsm.transition
only_ack_table = refl

-- A segment that makes a connection ESTABLISHED finds it in SYN-RECEIVED, comes from the side that
-- opened it, and carries ACK without SYN, FIN and RST.
pub state_tcp-establishes :
    (params : Params) (npc : Cache) (nst : State) (flow : Flow)
    → npc.th_flags < 256
    → nst.nst_state < Fsm.tcp_nstates
    → nst.nst_state ≢ Fsm.tcps_established
    → (state_tcp params npc nst flow).state.nst_state ≡ Fsm.tcps_established
    → (nst.nst_state ≡ Fsm.tcps_syn_received)
      × (flow ≡ forw)
      × (has_flag npc.th_flags th_ack ≡ true)
      × (has_flag npc.th_flags th_syn ≡ false)
      × (has_flag npc.th_flags th_fin ≡ false)
      × (has_flag npc.th_flags th_rst ≡ false)
unfolding next_state only_ack flag_case
state_tcp-establishes params npc nst flow hf hs ne e = ground (
  arith,
  state_tcp-state params npc nst flow,
  tcpfl2case_lem npc.th_flags hf,
  every_sound only_ack only_ack_table nst.nst_state flow (Fsm.tcpfl2case npc.th_flags) hs
      (tcpfl2case-lt npc.th_flags hf),
)

-- No segment of the responder carries SYN.
abbrev pub NoReply : List (Cache × Flow) → Type 0
NoReply [] = Unit
NoReply ((npc, flow) ∷ rest) =
    (npc.th_flags < 256)
    × ((is_forw flow || not (has_flag npc.th_flags th_syn)) ≡ true)
    × NoReply rest

stays_new : ℕ → Flow → ℕ → Bool
stays_new s flow c =
    ltb Fsm.tcps_syn_sent s
    || (not (is_forw flow) && (c == Fsm.tcpfc_syn || c == Fsm.tcpfc_synack))
    || Fsm.transition s flow c == Fsm.tcps_ok
    || leb (Fsm.transition s flow c) Fsm.tcps_syn_sent

stays_new_table : every stays_new ≡ true
unfolding holds_below stays_new Fsm.transition
stays_new_table = refl

stays_new_step :
    (params : Params) (npc : Cache) (nst : State) (flow : Flow)
    → npc.th_flags < 256
    → (is_forw flow || not (has_flag npc.th_flags th_syn)) ≡ true
    → nst.nst_state ≤ Fsm.tcps_syn_sent
    → (state_tcp params npc nst flow).state.nst_state ≤ Fsm.tcps_syn_sent
unfolding next_state stays_new flag_case
stays_new_step params npc nst flow hf h hs = ground (
  arith,
  state_tcp-state params npc nst flow,
  tcpfl2case_lem npc.th_flags hf,
  every_sound stays_new stays_new_table nst.nst_state flow (Fsm.tcpfl2case npc.th_flags)
      (omega arith) (tcpfl2case-lt npc.th_flags hf),
)

-- Whatever segments are tracked from a state CLOSED or SYN-SENT on, with any flags and numbers, the
-- connection gets no further than SYN-SENT while the responder sends no SYN.
pub track-NoReply :
    (params : Params) (nst : State) (segs : List (Cache × Flow))
    → nst.nst_state ≤ Fsm.tcps_syn_sent
    → NoReply segs
    → (track params nst segs).nst_state ≤ Fsm.tcps_syn_sent
unfolding track
track-NoReply params nst [] h n = h
track-NoReply params nst ((npc, flow) ∷ rest) h n =
    track-NoReply params (state_tcp params npc nst flow).state rest
      (stays_new_step params npc nst flow n.0 n.1 h) n.2
