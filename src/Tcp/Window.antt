-- ===== src/Tcp/Window.antt =====
-- The window check of src/kern/npf_state_tcp.c, `npf_tcp_inwindow`, in its stages: the first packet,
-- the reply to a SYN, the adjustments of ACK and RST, the four boundaries, and the update.
pub mod Verdicts
pub mod Bounds
pub mod Spec
use npf.Prelude.{
  ℕ, ◌+◌, ◌%◌, Bool, true, false, not, ◌&&◌, ◌||◌, Option, none, some, ltb, ◌==◌, if◌then◌else◌, ℤ,
  pos, sub_ℕ, ltb_ℤ, bit_and, bit_or, add32, sub32, shl32, signed32, u32_mod, List,
}
use npf.Packet.{
  Flow, forw, back, opposite, Cache, has_flag, tcp_data_len, th_syn, th_fin, th_rst, th_ack,
}
use npf.Packet.Options.{fetch_tcpopts, Found}
use npf.Tcp.Fsm.{tcps_syn_sent}

-- `npf_tcpstate_t`
pub record Side : Type 0 where
  pub nst_end : ℕ
  pub nst_maxend : ℕ
  pub nst_maxwin : ℕ
  pub nst_wscale : ℕ

-- `npf_state_t`: the two elements of `nst_tcpst` are `of_forw` and `of_back`.
pub record State : Type 0 where
  pub nst_state : ℕ
  pub of_forw : Side
  pub of_back : Side

abbrev pub side : Flow → State → Side
side forw nst = nst.of_forw
side back nst = nst.of_back

abbrev pub set_side : Flow → Side → State → State
set_side forw s nst = record nst { of_forw = s }
set_side back s nst = record nst { of_back = s }

-- `npf_state_tcp_params_t`; the parameters are `int`s that are not negative.
pub record Params : Type 0 where
  pub max_ack_win : ℕ
  pub strict_order_rst : ℕ
  pub timeouts : List ℕ

-- The statistics counters that the check increments.
pub data Stat : Type 0 where
  invalid_state_tcp1 invalid_state_tcp2 invalid_state_tcp3 : Stat

-- The macros compare the difference, read as an `int`, with 0.
abbrev pub seq_leq : ℕ → ℕ → Bool
seq_leq a b = not (ltb_ℤ (pos 0) (signed32 (sub32 a b)))

abbrev pub seq_gt : ℕ → ℕ → Bool
seq_gt a b = ltb_ℤ (pos 0) (signed32 (sub32 a b))

abbrev pub seq_geq : ℕ → ℕ → Bool
seq_geq a b = not (ltb_ℤ (signed32 (sub32 a b)) (pos 0))

-- SEQ, ACK, the end of the data and the scaled window of a segment.
pub record Segment : Type 0 where
  pub seq : ℕ
  pub ack : ℕ
  pub stop : ℕ
  pub win : ℕ

unfoldable pub segment : Cache → Side → Segment
segment npc fstate = record {
  seq = npc.th_seq;
  ack = npc.th_ack_no;
  stop = add32 (add32 (add32 npc.th_seq (tcp_data_len npc)) (one th_syn)) (one th_fin);
  win = if npc.th_win == 0 then 1 else shl32 npc.th_win fstate.nst_wscale;
}
  where
    one : ℕ → ℕ
    one flag = if has_flag npc.th_flags flag then 1 else 0

-- What the window check hands to `npf_fetch_tcpopts`: no place for an MSS, and a window scale of 0.
abbrev pub nothing_found : Found
nothing_found = record { mss = none; wscale = 0 }

-- The window scale after `npf_fetch_tcpopts` was given a pointer to a 0. The scan does end:
-- `fetch_tcpopts` is never `none`.
unfoldable pub fetched_wscale : Cache → ℕ
fetched_wscale npc = elim (fetch_tcpopts npc.th_off npc.tcp_opts nothing_found).1 [
  | none ↦ 0
  | some f ↦ f.wscale
]

unfoldable pub first_packet : Cache → State → Flow → Segment → State
first_packet npc nst flow g =
    set_side (opposite flow)
      (record { nst_end = 0; nst_maxend = 0; nst_maxwin = 1; nst_wscale = 0 })
      (set_side flow
        (record {
          nst_end = g.stop;
          nst_maxend = g.stop;
          nst_maxwin = g.win;
          nst_wscale = fetched_wscale npc;
        })
        nst)

-- The sender's side once its first segment is seen.
unfoldable pub reply_side : Cache → Side → Segment → Side
reply_side npc fstate g =
    if fstate.nst_end == 0
    then record {
      nst_end = g.stop;
      nst_maxend = add32 g.stop 1;
      nst_maxwin = g.win;
      nst_wscale = if has_flag npc.th_flags th_syn then fetched_wscale npc else 0;
    }
    else fstate

unfoldable pub adjust_ack : ℕ → ℕ → Side → ℕ
adjust_ack tcpfl ack tstate =
    if not (has_flag tcpfl th_ack)
    then tstate.nst_end
    else if bit_and tcpfl (bit_or th_ack th_rst) == bit_or th_ack th_rst && ack == 0
    then tstate.nst_end
    else ack

-- RST to the initial SYN may have a zero SEQ.
unfoldable pub adjust_rst : ℕ → ℕ → Side → Segment → Segment
adjust_rst tcpfl state fstate g =
    if has_flag tcpfl th_rst && (g.seq == 0 && state == tcps_syn_sent)
    then record g { seq = fstate.nst_end; stop = fstate.nst_end }
    else g

unfoldable pub bad_rst : Params → ℕ → Side → Segment → Bool
bad_rst params tcpfl fstate g =
    has_flag tcpfl th_rst
    && (not (params.strict_order_rst == 0) && ltb 1 (sub32 fstate.nst_end g.seq))

abbrev pub ack_skew : Side → Segment → ℤ
ack_skew tstate g = signed32 (sub32 tstate.nst_end g.ack)

abbrev pub bad_ack : Params → Side → Side → Segment → Bool
bad_ack params fstate tstate g =
    ltb_ℤ (ack_skew tstate g) (sub_ℕ 0 params.max_ack_win)
    || ltb_ℤ (signed32 (shl32 params.max_ack_win fstate.nst_wscale)) (ack_skew tstate g)

-- The four boundaries: the counter of the first that is violated.
unfoldable pub violated : Params → Side → Side → Segment → Option Stat
violated params fstate tstate g =
    if not (seq_leq g.stop fstate.nst_maxend)
    then some invalid_state_tcp1
    else if not (seq_geq g.seq (sub32 fstate.nst_end tstate.nst_maxwin))
    then some invalid_state_tcp2
    else if bad_ack params fstate tstate g
    then some invalid_state_tcp3
    else none

unfoldable pub passed_from : Side → Segment → Side
passed_from fstate g = record fstate {
  nst_maxwin = if ltb fstate.nst_maxwin g.win then g.win else fstate.nst_maxwin;
  nst_end = if seq_gt g.stop fstate.nst_end then g.stop else fstate.nst_end;
}

unfoldable pub passed_to : Side → Segment → Side
passed_to tstate g = record tstate {
  nst_end = if ltb_ℤ (ack_skew tstate g) (pos 0) then g.ack else tstate.nst_end;
  nst_maxend =
      if seq_geq (add32 g.ack g.win) tstate.nst_maxend
      then add32 g.ack g.win
      else tstate.nst_maxend;
}

-- The return value, the state, and the counter that is incremented.
pub record Verdict : Type 0 where
  pub accepted : Bool
  pub state : State
  pub stat : Option Stat

-- From the RST check on, with the sender's side `fstate` as it is by then in `nst`.
unfoldable pub check_bounds : Params → ℕ → State → Flow → Segment → Verdict
check_bounds params tcpfl nst flow g =
    if bad_rst params tcpfl fstate g
    then record { accepted = false; state = nst; stat = none }
    else elim (violated params fstate tstate g) [
      | some counter ↦ record { accepted = false; state = nst; stat = some counter }
      | none ↦ record {
        accepted = true;
        state =
            set_side (opposite flow) (passed_to tstate g)
              (set_side flow (passed_from fstate g) nst);
        stat = none;
      }
    ]
  where
    fstate : Side
    fstate = side flow nst

    tstate : Side
    tstate = side (opposite flow) nst

-- The state after the sender's side is initialised by its first segment.
unfoldable pub replied : Cache → State → Flow → State
replied npc nst flow =
    let fstate = side flow nst in set_side flow (reply_side npc fstate (segment npc fstate)) nst

-- The segment with its ACK and, for an RST, its SEQ adjusted.
unfoldable pub adjusted : Cache → State → Flow → Segment
adjusted npc nst flow =
    let fstate = side flow nst in
    let g = segment npc fstate in
    let acked = record g { ack = adjust_ack npc.th_flags g.ack (side (opposite flow) nst) } in
    adjust_rst npc.th_flags nst.nst_state (reply_side npc fstate g) acked

-- `npf_tcp_inwindow`
unfoldable pub inwindow : Params → Cache → State → Flow → Verdict
inwindow params npc nst flow =
    if (side flow nst).nst_maxwin == 0
    then record {
      accepted = true;
      state = first_packet npc nst flow (segment npc (side flow nst));
      stat = none;
    }
    else check_bounds params npc.th_flags (replied npc nst flow) flow (adjusted npc nst flow)
