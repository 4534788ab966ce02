-- ===== src/Tcp/Window/Bounds.antt =====
-- The ranges of what the window check keeps: no window scale above 14, so that no scaled window
-- wraps around.
use npf.Prelude.{
  ℕ, ◌*◌, ◌^◌, ◌≤◌, ◌<◌, ◌≡◌, ◌≢◌, refl, true, arith, leb, leb→le, ◌==◌, Bool-cases, inl, inr,
  holds_below, holds_below_at, u32_mod, Bool,
}
use npf.Packet.{Flow, forw, back, opposite, Cache}
use npf.Packet.Options.{tcp_max_winshift}
use npf.Packet.Options.Scan.{fetch_tcpopts-wscale}
use npf.Tcp.Window.{
  Params, State, Side, Segment, side, set_side, inwindow, check_bounds, first_packet, reply_side,
  segment, replied, adjusted, adjust_rst, adjust_ack, passed_from, passed_to, fetched_wscale,
  nothing_found,
}

abbrev pub max_window : ℕ
max_window = 65535 * 2 ^ 14

pub record IsBounded (s : Side) : Type 0 where
  pub end_fits : s.nst_end < u32_mod
  pub maxend_fits : s.nst_maxend < u32_mod
  pub window : s.nst_maxwin ≤ max_window
  pub scale : s.nst_wscale ≤ tcp_max_winshift

pub record AreBounded (nst : State) : Type 0 where
  pub forw_bounded : IsBounded nst.of_forw
  pub back_bounded : IsBounded nst.of_back

-- The ranges of the header fields.
pub record IsWire (npc : Cache) : Type 0 where
  pub seq_fits : npc.th_seq < u32_mod
  pub ack_fits : npc.th_ack_no < u32_mod
  pub win_fits : npc.th_win < 65536

record Fits (g : Segment) : Type 0 where
  seq_in : g.seq < u32_mod
  ack_in : g.ack < u32_mod
  stop_in : g.stop < u32_mod
  win_in : g.win ≤ max_window

small_power : ℕ → Bool
small_power k = leb (2 ^ k) (2 ^ 14)

small_powers : holds_below small_power 15 ≡ true
unfolding holds_below small_power
small_powers = refl

pow_le : (k : ℕ) → k ≤ 14 → 2 ^ k ≤ 2 ^ 14
unfolding small_power
pow_le k h = leb→le _ _ (holds_below_at small_power 15 k (omega arith) small_powers)

scaled_le : (w k : ℕ) → w < 65536 → k ≤ 14 → w * 2 ^ k ≤ max_window
scaled_le w k hw hk = product w (2 ^ k) hw (pow_le k hk)
  where
    product : (a b : ℕ) → a < 65536 → b ≤ 16384 → a * b ≤ 65535 * 16384
    product a b ha hb = grind arith

-- For a segment whose header fields fit their widths, a side within its bounds and a window that is not
-- zero, the shift by the window scale does not wrap: the window of the segment is the exact product.
pub scaled_window :
    (npc : Cache) (s : Side)
    → IsWire npc
    → IsBounded s
    → npc.th_win ≢ 0
    → (segment npc s).win ≡ npc.th_win * 2 ^ s.nst_wscale
unfolding segment
scaled_window npc s w b ne = ground (arith, scaled_le npc.th_win s.nst_wscale w.win_fits b.scale)

segment-Fits : (npc : Cache) (s : Side) → IsWire npc → IsBounded s → Fits (segment npc s)
unfolding segment
segment-Fits npc s w b = ground (arith, scaled_le npc.th_win s.nst_wscale w.win_fits b.scale)

fetched_wscale-le : (npc : Cache) → fetched_wscale npc ≤ tcp_max_winshift
unfolding fetched_wscale
fetched_wscale-le npc =
    ground (arith, fetch_tcpopts-wscale npc.th_off npc.tcp_opts nothing_found (omega arith))

first_packet-AreBounded :
    (npc : Cache) (nst : State) (flow : Flow) (g : Segment)
    → AreBounded nst
    → Fits g
    → AreBounded (first_packet npc nst flow g)
unfolding first_packet
first_packet-AreBounded npc nst forw g b f = omega (arith, fetched_wscale-le npc)
first_packet-AreBounded npc nst back g b f = omega (arith, fetched_wscale-le npc)

side-IsBounded : (nst : State) (flow : Flow) → AreBounded nst → IsBounded (side flow nst)
side-IsBounded nst forw b = b.forw_bounded
side-IsBounded nst back b = b.back_bounded

set_side-AreBounded :
    (nst : State) (flow : Flow) (s : Side)
    → AreBounded nst
    → IsBounded s
    → AreBounded (set_side flow s nst)
set_side-AreBounded nst forw s b h = record { forw_bounded = h; back_bounded = b.back_bounded }
set_side-AreBounded nst back s b h = record { forw_bounded = b.forw_bounded; back_bounded = h }

reply_side-IsBounded :
    (npc : Cache) (s : Side) (g : Segment) → IsBounded s → Fits g → IsBounded (reply_side npc s g)
unfolding reply_side
reply_side-IsBounded npc s g b f = ground (arith, fetched_wscale-le npc)

adjust_ack-Fits :
    (tcpfl ack : ℕ) (t : Side) → ack < u32_mod → IsBounded t → adjust_ack tcpfl ack t < u32_mod
unfolding adjust_ack
adjust_ack-Fits tcpfl ack t h b = ground arith

adjust_rst-Fits :
    (tcpfl state : ℕ) (s : Side) (g : Segment)
    → IsBounded s
    → Fits g
    → Fits (adjust_rst tcpfl state s g)
unfolding adjust_rst
adjust_rst-Fits tcpfl state s g b f = ground arith

passed_from-IsBounded :
    (s : Side) (g : Segment) → IsBounded s → Fits g → IsBounded (passed_from s g)
unfolding passed_from
passed_from-IsBounded s g b f = ground arith

passed_to-IsBounded : (s : Side) (g : Segment) → IsBounded s → Fits g → IsBounded (passed_to s g)
unfolding passed_to
passed_to-IsBounded s g b f = ground arith

check_bounds-AreBounded :
    (params : Params) (tcpfl : ℕ) (nst : State) (flow : Flow) (g : Segment)
    → AreBounded nst
    → Fits g
    → AreBounded (check_bounds params tcpfl nst flow g).state
unfolding check_bounds
check_bounds-AreBounded params tcpfl nst flow g b f =
    let from = passed_from-IsBounded (side flow nst) g (side-IsBounded nst flow b) f in
    let to =
      passed_to-IsBounded (side (opposite flow) nst) g (side-IsBounded nst (opposite flow) b) f in
    let half = set_side-AreBounded nst flow (passed_from (side flow nst) g) b from in
    ground (
      arith,
      set_side-AreBounded (set_side flow (passed_from (side flow nst) g) nst) (opposite flow)
          (passed_to (side (opposite flow) nst) g) half to,
    )

-- The window check keeps every sequence number below 2^32, every window scale at most 14 and every
-- window at most 65535 * 2^14, for each segment whose header fields fit their widths, accepted or
-- not.
pub inwindow-AreBounded :
    (params : Params) (npc : Cache) (nst : State) (flow : Flow)
    → IsWire npc
    → AreBounded nst
    → AreBounded (inwindow params npc nst flow).state
unfolding inwindow replied adjusted
inwindow-AreBounded params npc nst flow w b =
    let s = side flow nst in
    let t = side (opposite flow) nst in
    let bs = side-IsBounded nst flow b in
    let g = segment npc s in
    let fit = segment-Fits npc s w bs in
    let reply = reply_side-IsBounded npc s g bs fit in
    let acked : Segment = record g { ack = adjust_ack npc.th_flags g.ack t } in
    let acked_fit : Fits acked = record {
      seq_in = fit.seq_in;
      ack_in =
          adjust_ack-Fits npc.th_flags g.ack t fit.ack_in (side-IsBounded nst (opposite flow) b);
      stop_in = fit.stop_in;
      win_in = fit.win_in;
    } in
    let fits =
      adjust_rst-Fits npc.th_flags nst.nst_state (reply_side npc s g) acked reply acked_fit in
    let states = set_side-AreBounded nst flow (reply_side npc s g) b reply in
    elim (Bool-cases (s.nst_maxwin == 0)) [
      | inl e ↦ rw e (first_packet-AreBounded npc nst flow g b fit)
      | inr e ↦ rw e (
          check_bounds-AreBounded params npc.th_flags (set_side flow (reply_side npc s g) nst) flow
            (adjust_rst npc.th_flags nst.nst_state (reply_side npc s g) acked) states fits)
    ]
