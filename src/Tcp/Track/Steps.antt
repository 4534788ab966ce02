-- ===== src/Tcp/Track/Steps.antt =====
-- One step of the tracking: the states stay in range, RST, rejected segments, timeouts.
use npf.Prelude.{
  ℕ, zero, suc, ◌<◌, ◌≡◌, ◌≢◌, ◌⊎◌, inl, inr, refl, Bool, true, false, arith, ◌==◌, Bool-cases,
  List, some, length, get_elem?, ltb, leb, ◌&&◌, [], ◌∷◌, none, get_or, if◌then◌else◌, holds_below,
  holds_below_at,
}
use npf.Packet.{Flow, opposite, Cache, has_flag, th_rst}
use npf.Tcp.Fsm
use npf.Tcp.Fsm.Table.{transition-IsState, tcpfl2case-lt}
use npf.Tcp.Window.{Params, State, side, inwindow}
use npf.Tcp.Window.Verdicts.{inwindow-state, inwindow-rejects}
use npf.Tcp.Window.Bounds.{IsWire, AreBounded, inwindow-AreBounded}
use npf.Tcp.Track.{
  next_state, state_tcp, tcp_timeout, state_timeout_idx, tcpt_count, tcpt_established, tcpt_new,
  tcpt_halfclose, tcpt_close, tcpt_timewait,
}

pub next_state-IsState :
    (tcpfl : ℕ) (flow : Flow) (s : ℕ)
    → tcpfl < 256
    → s < Fsm.tcp_nstates
    → (next_state tcpfl flow s ≡ Fsm.tcps_ok) ⊎ (next_state tcpfl flow s < Fsm.tcp_nstates)
unfolding next_state
next_state-IsState tcpfl flow s hf hs =
    ground (arith, transition-IsState s flow (Fsm.tcpfl2case tcpfl) hs (tcpfl2case-lt tcpfl hf))

-- A segment moves the state to what its flags ask for if it is accepted, and not otherwise.
pub state_tcp-state :
    (params : Params) (npc : Cache) (nst : State) (flow : Flow)
    → ((state_tcp params npc nst flow).state.nst_state ≡ nst.nst_state)
      ⊎ (((state_tcp params npc nst flow).accepted ≡ true)
          × (next_state npc.th_flags flow nst.nst_state ≢ Fsm.tcps_ok)
          × ((state_tcp params npc nst flow).state.nst_state
              ≡ next_state npc.th_flags flow nst.nst_state))
unfolding state_tcp
state_tcp-state params npc nst flow = ground (arith, inwindow-state params npc nst flow)

-- Tracking a segment keeps the state among the twelve states and every side within its ranges, for
-- each segment whose header fields fit their widths.
pub state_tcp-AreBounded :
    (params : Params) (npc : Cache) (nst : State) (flow : Flow)
    → npc.th_flags < 256
    → IsWire npc
    → nst.nst_state < Fsm.tcp_nstates
    → AreBounded nst
    → ((state_tcp params npc nst flow).state.nst_state < Fsm.tcp_nstates)
      × AreBounded (state_tcp params npc nst flow).state
unfolding state_tcp
state_tcp-AreBounded params npc nst flow hf w hs b = ground (
  arith,
  inwindow-state params npc nst flow,
  inwindow-AreBounded params npc nst flow w b,
  next_state-IsState npc.th_flags flow nst.nst_state hf hs,
)

-- An accepted RST closes the connection, except that one in TIME-WAIT leaves it there (RFC 1337).
pub state_tcp-rst :
    (params : Params) (npc : Cache) (nst : State) (flow : Flow)
    → has_flag npc.th_flags th_rst ≡ true
    → (state_tcp params npc nst flow).accepted ≡ true
    → (state_tcp params npc nst flow).state.nst_state
      ≡ (if nst.nst_state == Fsm.tcps_time_wait then Fsm.tcps_time_wait else Fsm.tcps_closed)
unfolding state_tcp next_state
state_tcp-rst params npc nst flow rst ok = ground (arith, inwindow-state params npc nst flow)

-- A rejected segment changes neither the state nor the receiver's side, and nothing at all unless the
-- end of the sender's side was zero.
pub state_tcp-rejects :
    (params : Params) (npc : Cache) (nst : State) (flow : Flow)
    → (state_tcp params npc nst flow).accepted ≡ false
    → ((state_tcp params npc nst flow).state.nst_state ≡ nst.nst_state)
      × (side (opposite flow) (state_tcp params npc nst flow).state ≡ side (opposite flow) nst)
      × (((side flow nst).nst_end ≡ 0) ⊎ ((state_tcp params npc nst flow).state ≡ nst))
unfolding state_tcp
state_tcp-rejects params npc nst flow h =
    elim (Bool-cases (inwindow params npc nst flow).accepted) [
      | inl ok ↦ absurd (ground arith)
      | inr out ↦
          rw (out, state_tcp)
            (
              inwindow-state params npc nst flow,
              (inwindow-rejects params npc nst flow out).0,
              (inwindow-rejects params npc nst flow out).1,
            )
    ]

-- The class of timeout that belongs to a state.
unfoldable pub timeout_class : ℕ → ℕ
timeout_class s =
    if s == Fsm.tcps_closed
    then tcpt_close
    else if leb s Fsm.tcps_syn_received
    then tcpt_new
    else if s == Fsm.tcps_established
    then tcpt_established
    else if leb s Fsm.tcps_fin_wait
    then tcpt_halfclose
    else if leb s Fsm.tcps_last_ack
    then tcpt_close
    else tcpt_timewait

timeout_entry : ℕ → Bool
timeout_entry s = elim (get_elem? state_timeout_idx s) [
  | none ↦ false
  | some i ↦ i == timeout_class s && ltb i tcpt_count
]

timeout_entries : holds_below timeout_entry Fsm.tcp_nstates ≡ true
unfolding holds_below timeout_entry timeout_class
timeout_entries = refl

get_elem?-total : (xs : List ℕ) (i : ℕ) → i < length xs → get_elem? xs i ≡ some (get_or xs i 0)
get_elem?-total [] i h = absurd (omega arith)
get_elem?-total (x ∷ xs) zero h = refl
get_elem?-total (x ∷ xs) (suc i) h = get_elem?-total xs i (omega arith)

-- For each of the twelve states, and a table of five timeouts, the timeout is the entry for the
-- state's class: closing for CLOSED, CLOSING and LAST-ACK, new for the states of the handshake,
-- half-closed for the FIN states and CLOSE-WAIT, and ESTABLISHED's and TIME-WAIT's own.
pub tcp_timeout_lem :
    (params : Params) (nst : State)
    → nst.nst_state < Fsm.tcp_nstates
    → length params.timeouts ≡ tcpt_count
    → tcp_timeout params nst ≡ some (get_or params.timeouts (timeout_class nst.nst_state) 0)
unfolding tcp_timeout timeout_entry
tcp_timeout_lem params nst hs hl = ground (
  arith,
  holds_below_at timeout_entry Fsm.tcp_nstates nst.nst_state hs timeout_entries,
  get_elem?-total params.timeouts (timeout_class nst.nst_state),
)
