-- ===== src/Tcp/Window/Verdicts.antt =====
-- What the window check changes when it rejects a segment, and what it never changes.
use npf.Prelude.{ℕ, ◌≡◌, ◌≢◌, refl, false, arith, ◌==◌, ◌∙◌, Bool-cases, inl, inr, ◌⊎◌, ==→eq}
use npf.Packet.{Flow, forw, back, opposite, Cache}
use npf.Tcp.Window.{
  Params, State, Segment, side, inwindow, check_bounds, first_packet, reply_side, segment, replied,
  adjusted,
}

-- The bounds check leaves the connection state alone.
check_bounds-state :
    (params : Params) (tcpfl : ℕ) (nst : State) (flow : Flow) (g : Segment)
    → (check_bounds params tcpfl nst flow g).state.nst_state ≡ nst.nst_state
unfolding check_bounds
check_bounds-state params tcpfl nst forw g = ground arith
check_bounds-state params tcpfl nst back g = ground arith

check_bounds-rejects :
    (params : Params) (tcpfl : ℕ) (nst : State) (flow : Flow) (g : Segment)
    → (check_bounds params tcpfl nst flow g).accepted ≡ false
    → (check_bounds params tcpfl nst flow g).state ≡ nst
unfolding check_bounds
check_bounds-rejects params tcpfl nst flow g h = ground arith

pub first_packet-state :
    (npc : Cache) (nst : State) (flow : Flow) (g : Segment)
    → (first_packet npc nst flow g).nst_state ≡ nst.nst_state
unfolding first_packet
first_packet-state npc nst forw g = refl
first_packet-state npc nst back g = refl

replied-state :
    (npc : Cache) (nst : State) (flow : Flow) → (replied npc nst flow).nst_state ≡ nst.nst_state
unfolding replied
replied-state npc nst forw = refl
replied-state npc nst back = refl

replied-other :
    (npc : Cache) (nst : State) (flow : Flow)
    → side (opposite flow) (replied npc nst flow) ≡ side (opposite flow) nst
unfolding replied
replied-other npc nst forw = refl
replied-other npc nst back = refl

pub replied-same :
    (npc : Cache) (nst : State) (flow : Flow)
    → (side flow nst).nst_end ≢ 0
    → replied npc nst flow ≡ nst
unfolding replied reply_side
replied-same npc nst forw h = ground arith
replied-same npc nst back h = ground arith

-- The window check never changes the number of the connection's state.
pub inwindow-state :
    (params : Params) (npc : Cache) (nst : State) (flow : Flow)
    → (inwindow params npc nst flow).state.nst_state ≡ nst.nst_state
unfolding inwindow
inwindow-state params npc nst flow = ground (
  arith,
  first_packet-state npc nst flow (segment npc (side flow nst)),
  replied-state npc nst flow,
  check_bounds-state params npc.th_flags (replied npc nst flow) flow (adjusted npc nst flow),
)

-- A rejected segment leaves the receiver's side as it was, and the sender's side too unless that
-- side had not been seen before.
pub inwindow-rejects :
    (params : Params) (npc : Cache) (nst : State) (flow : Flow)
    → (inwindow params npc nst flow).accepted ≡ false
    → (side (opposite flow) (inwindow params npc nst flow).state ≡ side (opposite flow) nst)
      × (((side flow nst).nst_end ≡ 0) ⊎ ((inwindow params npc nst flow).state ≡ nst))
unfolding inwindow
inwindow-rejects params npc nst flow h = elim (Bool-cases ((side flow nst).nst_maxwin == 0)) [
  | inl first ↦ absurd (ground arith)
  | inr later ↦
      let e =
        check_bounds-rejects params npc.th_flags (replied npc nst flow) flow (adjusted npc nst flow)
          (rw later at h) in
      (
        rw (later, e) (replied-other npc nst flow),
        elim (Bool-cases ((side flow nst).nst_end == 0)) [
          | inl z ↦ inl (==→eq _ _ z)
          | inr ne ↦ inr (rw later (e ∙ replied-same npc nst flow (ground arith)))
        ],
      )
]
