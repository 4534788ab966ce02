-- ===== src/Tcp/Track.antt =====
-- Connection tracking of src/kern/npf_state_tcp.c: `npf_state_tcp` and `npf_state_tcp_timeout`.
pub mod Steps
pub mod Handshake
use npf.Prelude.{
  ℕ, Bool, true, false, List, [], ◌∷◌, Option, none, some, ◌==◌, if◌then◌else◌, get_or, get_elem?,
}
use npf.Packet.{Flow, Cache, has_flag, th_rst}
use npf.Tcp.Fsm.{tcpfl2case, transition, tcps_ok, tcps_closed, tcps_time_wait}
use npf.Tcp.Window.{Params, State, Stat, Verdict, inwindow}

-- The new state that the flags ask for, before the window check.
unfoldable pub next_state : ℕ → Flow → ℕ → ℕ
next_state tcpfl flow state =
    if has_flag tcpfl th_rst
    then (if state == tcps_time_wait then tcps_ok else tcps_closed)
    else transition state flow (tcpfl2case tcpfl)

-- `npf_state_tcp`
unfoldable pub state_tcp : Params → Cache → State → Flow → Verdict
state_tcp params npc nst flow =
    let nstate = next_state npc.th_flags flow nst.nst_state in
    let v = inwindow params npc nst flow in
    elim v.accepted [
      | false ↦ v
      | true ↦
          if nstate == tcps_ok
          then v
          else record v { state = record (v.state) { nst_state = nstate } }
    ]

abbrev pub tcpt_new : ℕ
tcpt_new = 0

abbrev pub tcpt_established : ℕ
tcpt_established = 1

abbrev pub tcpt_halfclose : ℕ
tcpt_halfclose = 2

abbrev pub tcpt_close : ℕ
tcpt_close = 3

abbrev pub tcpt_timewait : ℕ
tcpt_timewait = 4

abbrev pub tcpt_count : ℕ
tcpt_count = 5

-- `state_timeout_idx`, in the order of the states.
abbrev pub state_timeout_idx : List ℕ
state_timeout_idx =
    tcpt_close ∷ tcpt_new ∷ tcpt_new ∷ tcpt_new ∷ tcpt_established ∷ tcpt_halfclose ∷ tcpt_halfclose
    ∷ tcpt_halfclose ∷ tcpt_halfclose ∷ tcpt_close ∷ tcpt_close ∷ tcpt_timewait ∷ []

-- `npf_state_tcp_timeout`; `none` is a read out of range.
unfoldable pub tcp_timeout : Params → State → Option ℕ
tcp_timeout params nst = elim (get_elem? state_timeout_idx nst.nst_state) [
  | none ↦ none
  | some i ↦ get_elem? params.timeouts i
]

-- A connection's segments, tracked one after the other.
unfoldable pub track : Params → State → List (Cache × Flow) → State
track params nst [] = nst
track params nst ((npc, flow) ∷ rest) = track params (state_tcp params npc nst flow).state rest
