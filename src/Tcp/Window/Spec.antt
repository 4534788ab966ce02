-- ===== src/Tcp/Window/Spec.antt =====
-- The window check of src/kern/npf_state_tcp.c against its four boundaries, stated over true integers.
use npf.Prelude.{
  ℕ, ◌+◌, ◌*◌, ◌^◌, ◌≤◌, ◌<◌, ◌≡◌, ◌≢◌, ◌↔◌, refl, Bool, true, false, ◌||◌, not, arith, ◌==◌,
  bit_and, bit_or, holds_below, holds_below_at, none,
}
use npf.Packet.{Flow, opposite, Cache, has_flag, th_ack, th_rst}
use npf.Tcp.Window.Verdicts.{replied-same}
use npf.Tcp.Window.{
  Params, State, Side, Segment, side, inwindow, check_bounds, segment, adjusted, adjust_rst,
  adjust_ack, violated, bad_rst,
}

-- The four boundaries, with no wrapping: the data ends by the receiver's window (I), starts no more
-- than a window back (II), and acknowledges no more than `max_ack_win` above (III) and a scaled
-- `max_ack_win` below (IV) what the receiver has sent. III and IV are those of the code; the comment
-- before it has III without `max_ack_win` and IV without the scale.
pub record IsWithin (params : Params) (f t : Side) (g : Segment) : Type 0 where
  pub upper : g.stop ≤ f.nst_maxend
  pub lower : f.nst_end ≤ g.seq + t.nst_maxwin
  pub ack_upper : g.ack ≤ t.nst_end + params.max_ack_win
  pub ack_lower : t.nst_end ≤ g.ack + params.max_ack_win * 2 ^ f.nst_wscale

-- No sequence number, window or skew is so large that a difference turns its sign.
pub record IsSmall (params : Params) (f t : Side) (g : Segment) : Type 0 where
  pub stop_small : g.stop < 2 ^ 30
  pub seq_small : g.seq < 2 ^ 30
  pub ack_small : g.ack < 2 ^ 30
  pub from_end_small : f.nst_end < 2 ^ 30
  pub from_maxend_small : f.nst_maxend < 2 ^ 30
  pub to_end_small : t.nst_end < 2 ^ 30
  pub to_maxwin_small : t.nst_maxwin < 2 ^ 30
  pub skew_small : params.max_ack_win * 2 ^ f.nst_wscale < 2 ^ 31
  pub max_ack_win_small : params.max_ack_win < 2 ^ 31

violated_iff :
    (params : Params) (f t : Side) (g : Segment)
    → IsSmall params f t g
    → (violated params f t g ≡ none) ↔ IsWithin params f t g
unfolding violated
violated_iff params f t g h = ground arith

no_rst : ℕ → Bool
no_rst f = has_flag f th_rst || not (bit_and f (bit_or th_ack th_rst) == bit_or th_ack th_rst)

no_rst_table : holds_below no_rst 256 ≡ true
unfolding holds_below no_rst
no_rst_table = refl

-- A segment that acknowledges and does not reset is checked as it came.
adjusted_lem :
    (npc : Cache) (nst : State) (flow : Flow)
    → npc.th_flags < 256
    → has_flag npc.th_flags th_ack ≡ true
    → has_flag npc.th_flags th_rst ≡ false
    → adjusted npc nst flow ≡ segment npc (side flow nst)
unfolding adjusted adjust_rst adjust_ack no_rst
adjusted_lem npc nst flow h ack rst =
    ground (arith, holds_below_at no_rst 256 npc.th_flags h no_rst_table)

check_bounds_iff :
    (params : Params) (tcpfl : ℕ) (nst : State) (flow : Flow) (g : Segment)
    → has_flag tcpfl th_rst ≡ false
    → ((check_bounds params tcpfl nst flow g).accepted ≡ true)
      ↔ (violated params (side flow nst) (side (opposite flow) nst) g ≡ none)
unfolding check_bounds bad_rst
check_bounds_iff params tcpfl nst flow g rst = ground arith

-- For a segment of a tracked connection, both sides seen, that has ACK and not RST, and while the
-- numbers are small enough that none wraps, `npf_tcp_inwindow` accepts exactly the segments
-- whose data ends by the receiver's window and starts no more than a window back, and which
-- acknowledge at most `max_ack_win` above and at most `max_ack_win` times the power of two of the
-- sender's window scale below the end of what the receiver has sent.
pub inwindow_iff :
    (params : Params) (npc : Cache) (nst : State) (flow : Flow)
    → (side flow nst).nst_maxwin ≢ 0
    → (side flow nst).nst_end ≢ 0
    → npc.th_flags < 256
    → has_flag npc.th_flags th_ack ≡ true
    → has_flag npc.th_flags th_rst ≡ false
    → IsSmall params (side flow nst) (side (opposite flow) nst) (segment npc (side flow nst))
    → ((inwindow params npc nst flow).accepted ≡ true)
      ↔ IsWithin params (side flow nst) (side (opposite flow) nst) (segment npc (side flow nst))
unfolding inwindow
inwindow_iff params npc nst flow maxwin seen flags ack rst small =
    let same = replied-same npc nst flow seen in
    let g = adjusted_lem npc nst flow flags ack rst in
    let s = segment npc (side flow nst) in
    let v = violated_iff params (side flow nst) (side (opposite flow) nst) s small in
    let c = check_bounds_iff params npc.th_flags nst flow s rst in ground (arith, same, g, v, c)
