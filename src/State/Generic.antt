-- ===== src/State/Generic.antt =====
-- The generic state machine over the packets of one connection, and what both machines promise to
-- the connection tracking.
use npf.Prelude.{◌<◌, ◌≡◌, Bool, true, false, ◌||◌, arith, if◌then◌else◌, List, [], ◌∷◌}
use npf.Packet.{Flow, forw, back, Cache, has_flag, th_rst, th_syn, th_fin, th_ack}
use npf.Tcp.Fsm
use npf.Tcp.Fsm.Table.{tcpfl2case_lem, flag_case}
use npf.Tcp.Window.{State, inwindow, segment}
use npf.Tcp.Window.Verdicts.{first_packet-state}
use npf.Tcp.Track.{next_state, state_tcp}
use npf.State.{
  Params, generic_next, conn_new, conn_established, is_generic, state_inspect, state_init,
  zero_state, ipproto_tcp,
}

-- Some packet comes from the responder.
abbrev pub has_reply : List (Cache × Flow) → Bool
has_reply [] = false
has_reply ((npc, forw) ∷ rest) = has_reply rest
has_reply ((npc, back) ∷ rest) = true

-- Every packet is of a protocol of the generic machine.
abbrev pub AllGeneric : List (Cache × Flow) → Type 0
AllGeneric [] = Unit
AllGeneric ((npc, flow) ∷ rest) = (is_generic npc.proto ≡ true) × AllGeneric rest

unfoldable pub inspect_all : Params → State → List (Cache × Flow) → State
inspect_all params nst [] = nst
inspect_all params nst ((npc, flow) ∷ rest) =
    inspect_all params (state_inspect params npc nst flow).state rest

inspect_generic :
    (params : Params) (npc : Cache) (nst : State) (flow : Flow)
    → is_generic npc.proto ≡ true
    → (state_inspect params npc nst flow).state.nst_state ≡ generic_next nst.nst_state flow
unfolding state_inspect
inspect_generic params npc nst flow h = ground arith

established_stays :
    (params : Params) (nst : State) (rest : List (Cache × Flow))
    → AllGeneric rest
    → nst.nst_state ≡ conn_established
    → (inspect_all params nst rest).nst_state ≡ conn_established
unfolding inspect_all generic_next
established_stays params nst [] g h = h
established_stays params nst ((npc, forw) ∷ rest) g h =
    established_stays params (state_inspect params npc nst forw).state rest g.1
      (rw (inspect_generic params npc nst forw g.0, h))
established_stays params nst ((npc, back) ∷ rest) g h =
    established_stays params (state_inspect params npc nst back).state rest g.1
      (rw (inspect_generic params npc nst back g.0, h))

new_until_reply :
    (params : Params) (nst : State) (rest : List (Cache × Flow))
    → AllGeneric rest
    → nst.nst_state ≡ conn_new
    → (inspect_all params nst rest).nst_state
      ≡ (if has_reply rest then conn_established else conn_new)
unfolding inspect_all generic_next
new_until_reply params nst [] g h = h
new_until_reply params nst ((npc, forw) ∷ rest) g h =
    new_until_reply params (state_inspect params npc nst forw).state rest g.1
      (rw (inspect_generic params npc nst forw g.0, h))
new_until_reply params nst ((npc, back) ∷ rest) g h =
    established_stays params (state_inspect params npc nst back).state rest g.1
      (rw (inspect_generic params npc nst back g.0, h))

-- A connection of a protocol without connections is NEW after its first packet, whatever its state
-- structure held, and after any further packets it is ESTABLISHED exactly when one of them came
-- from the responder, and NEW otherwise.
pub inspect_all-generic :
    (params : Params) (npc : Cache) (nst : State) (rest : List (Cache × Flow))
    → is_generic npc.proto ≡ true
    → AllGeneric rest
    → (inspect_all params (state_init params npc nst).state rest).nst_state
      ≡ (if has_reply rest then conn_established else conn_new)
inspect_all-generic params npc nst rest h g =
    new_until_reply params (state_init params npc nst).state rest g (first h)
  where
    first : is_generic npc.proto ≡ true → (state_init params npc nst).state.nst_state ≡ conn_new
    first e = unfold state_init generic_next in ground arith

-- The first segment of a TCP connection is always accepted, and it leaves SYN-SENT if it has SYN and
-- none of ACK, FIN and RST, and CLOSED otherwise.
pub state_init-tcp :
    (params : Params) (npc : Cache) (nst : State)
    → npc.proto ≡ ipproto_tcp
    → npc.th_flags < 256
    → ((state_init params npc nst).accepted ≡ true)
      × ((state_init params npc nst).state.nst_state ≡ (
          if has_flag npc.th_flags th_rst
            || (has_flag npc.th_flags th_fin || has_flag npc.th_flags th_ack)
          then Fsm.tcps_closed
          else if has_flag npc.th_flags th_syn
          then Fsm.tcps_syn_sent
          else Fsm.tcps_closed))
unfolding state_init state_tcp next_state flag_case Fsm.transition inwindow
state_init-tcp params npc nst p f = ground (
  arith,
  tcpfl2case_lem npc.th_flags f,
  first_packet-state npc zero_state forw (segment npc zero_state.of_forw),
)
