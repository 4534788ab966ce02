-- ===== src/State.antt =====
-- The state tracking of src/kern/npf_state.c: the generic state machine for the protocols without
-- connections, and the dispatch on the protocol.
pub mod Generic
mod Tests
use npf.Prelude.{
  ℕ, Bool, true, false, ◌||◌, List, [], ◌∷◌, Option, none, some, ◌==◌, if◌then◌else◌, get_or,
  get_elem?,
}
use npf.Packet.{Flow, forw, back, Cache}
use npf.Tcp.Window.{State, Side, Verdict}
use npf.Tcp.Window as Window
use npf.Tcp.Track.{state_tcp, tcp_timeout}

abbrev pub conn_closed : ℕ
conn_closed = 0

abbrev pub conn_new : ℕ
conn_new = 1

abbrev pub conn_established : ℕ
conn_established = 2

abbrev pub ipproto_icmp : ℕ
ipproto_icmp = 1

abbrev pub ipproto_tcp : ℕ
ipproto_tcp = 6

abbrev pub ipproto_udp : ℕ
ipproto_udp = 17

abbrev pub ipproto_gre : ℕ
ipproto_gre = 47

-- `npf_generic_fsm`: the forward and the backward entry of each state.
abbrev pub generic_fsm : List (ℕ × ℕ)
generic_fsm =
    (conn_new, conn_closed)
    ∷ (conn_new, conn_established)
    ∷ (conn_established, conn_established)
    ∷ []

abbrev pub entry : Flow → ℕ × ℕ → ℕ
entry forw p = p.0
entry back p = p.1

unfoldable pub generic_next : ℕ → Flow → ℕ
generic_next state flow = entry flow (get_or generic_fsm state (conn_closed, conn_closed))

-- `npf_state_params_t`
pub record Params : Type 0 where
  pub generic_timeouts : List ℕ
  pub gre_timeout : ℕ
  pub tcp : Window.Params

abbrev pub is_generic : ℕ → Bool
is_generic proto = proto == ipproto_udp || (proto == ipproto_icmp || proto == ipproto_gre)

abbrev pub zero_side : Side
zero_side = record { nst_end = 0; nst_maxend = 0; nst_maxwin = 0; nst_wscale = 0 }

abbrev pub zero_state : State
zero_state = record { nst_state = 0; of_forw = zero_side; of_back = zero_side }

-- `npf_state_inspect`
unfoldable pub state_inspect : Params → Cache → State → Flow → Verdict
state_inspect params npc nst flow =
    if npc.proto == ipproto_tcp
    then state_tcp params.tcp npc nst flow
    else if is_generic npc.proto
    then record {
      accepted = true;
      state = record nst { nst_state = generic_next nst.nst_state flow };
      stat = none;
    }
    else record { accepted = false; state = nst; stat = none }

-- `npf_state_init`: what stood in the structure is cleared.
unfoldable pub state_init : Params → Cache → State → Verdict
state_init params npc nst =
    if npc.proto == ipproto_tcp
    then state_tcp params.tcp npc zero_state forw
    else if is_generic npc.proto
    then record {
      accepted = true;
      state = record zero_state { nst_state = generic_next zero_state.nst_state forw };
      stat = none;
    }
    else record { accepted = false; state = zero_state; stat = none }

-- `npf_state_destroy`
unfoldable pub state_destroy : State → State
state_destroy nst = record nst { nst_state = 0 }

-- `npf_state_etime`; `none` is the failed assertion on the protocol, or a read out of range.
unfoldable pub state_etime : Params → State → ℕ → Option ℕ
state_etime params nst proto =
    if proto == ipproto_tcp
    then tcp_timeout params.tcp nst
    else if proto == ipproto_udp || proto == ipproto_icmp
    then get_elem? params.generic_timeouts nst.nst_state
    else if proto == ipproto_gre
    then some params.gre_timeout
    else none
