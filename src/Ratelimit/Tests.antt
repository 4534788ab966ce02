-- ===== src/Ratelimit/Tests.antt =====
-- The rate limiter at a concrete sequence of packets.
use npf.Prelude.{ℕ, ◌+◌, ◌-◌, ◌*◌, ◌≤◌, arith, List, [], ◌∷◌, pos}
use npf.Ratelimit.{Car, police}
use npf.Ratelimit.Step.{IsSane}
use npf.Ratelimit.Rate.{police-le, last_time}

abbrev bucket : Car
bucket = record { tc = pos 0; tslast = 1000; compounded = 0; cir_tok = 125; cbs = 3000; ebs = 6000 }

-- A packet at each of three times: two that pass, and one that finds the bucket empty.
abbrev packets : List (ℕ × ℕ)
packets = (1010, 1000) ∷ (1012, 1500) ∷ (1012, 9000) ∷ []

bucket-IsSane : IsSane bucket
bucket-IsSane = record {
  below = omega arith;
  above = omega arith;
  cbs_small = omega arith;
  ebs_small = omega arith;
  compounded_small = omega arith;
}

police-le_example : (police bucket packets).0 ≤ 3000 + 6000 + (last_time 1000 packets - 1000) * 125
police-le_example = police-le bucket packets bucket-IsSane (
  omega arith,
  omega arith,
  omega arith,
  (omega arith, omega arith, omega arith, (omega arith, omega arith, omega arith, tt)),
)
