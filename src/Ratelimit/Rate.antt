-- ===== src/Ratelimit/Rate.antt =====
-- The rate that the limiter lets through over a sequence of packets.
use npf.Prelude.{
  ℕ, ◌+◌, ◌-◌, ◌*◌, ◌^◌, ◌≤◌, ◌<◌, ◌≡◌, refl, ap, ap₂, sym, ◌∙◌, arith, if◌then◌else◌, List, [],
  ◌∷◌, pos_part, neg_part,
}
use mathlib.Core.Path.{subst₂}
use npf.Ratelimit.{Car, refill, spend, car_ratelimit, police}
use npf.Ratelimit.Step.{IsSane, refill_lem, spend_lem}

-- The time does not go back, and the packets and the tokens of each interval are small.
abbrev pub IsTimed : ℕ → ℕ → List (ℕ × ℕ) → Type 0
IsTimed cir now [] = Unit
IsTimed cir now ((tsnow, nbytes) ∷ rest) =
    (now ≤ tsnow) × ((tsnow - now) * cir < 2 ^ 61) × (nbytes < 2 ^ 61) × IsTimed cir tsnow rest

abbrev pub last_time : ℕ → List (ℕ × ℕ) → ℕ
last_time now [] = now
last_time now ((tsnow, nbytes) ∷ rest) = last_time tsnow rest

refill-fixed :
    (car : Car) (tsnow : ℕ)
    → car.tslast ≤ tsnow
    → ((refill car tsnow).tslast ≡ tsnow)
      × ((refill car tsnow).cir_tok ≡ car.cir_tok)
      × ((refill car tsnow).cbs ≡ car.cbs)
      × ((refill car tsnow).ebs ≡ car.ebs)
unfolding refill
refill-fixed car tsnow h = ground arith

spend-fixed :
    (car : Car) (nbytes : ℕ)
    → ((spend car nbytes).1.tslast ≡ car.tslast)
      × ((spend car nbytes).1.cir_tok ≡ car.cir_tok)
      × ((spend car nbytes).1.cbs ≡ car.cbs)
      × ((spend car nbytes).1.ebs ≡ car.ebs)
unfolding spend
spend-fixed car nbytes = ground arith

last_time-le : (cir now : ℕ) (rest : List (ℕ × ℕ)) → IsTimed cir now rest → now ≤ last_time now rest
last_time-le cir now [] t = omega arith
last_time-le cir now ((tsnow, nbytes) ∷ rest) t = omega (arith, last_time-le cir tsnow rest t.3)

elapsed : (a b c k : ℕ) → a ≤ b → b ≤ c → (b - a) * k + (c - b) * k ≡ (c - a) * k
elapsed a b c k h i =
    omega (arith, ap (λ (t : ℕ). t * k) {x = b - a + (c - b)} {y = c - a} (omega arith))

-- What one packet leaves: a sane bucket at the packet's time, paid for by the tokens of the time since
-- the last one.
record Paid (car : Car) (tsnow nbytes : ℕ) : Type 0 where
  sane : IsSane (car_ratelimit car tsnow nbytes).1
  time : (car_ratelimit car tsnow nbytes).1.tslast ≡ tsnow
  rate : (car_ratelimit car tsnow nbytes).1.cir_tok ≡ car.cir_tok
  same_ebs : (car_ratelimit car tsnow nbytes).1.ebs ≡ car.ebs
  paid :
      pos_part (car_ratelimit car tsnow nbytes).1.tc
        + neg_part car.tc
        + (if (car_ratelimit car tsnow nbytes).0 then nbytes else 0)
      ≤ pos_part car.tc
        + neg_part (car_ratelimit car tsnow nbytes).1.tc
        + (tsnow - car.tslast) * car.cir_tok

step-Paid :
    (car : Car) (tsnow nbytes : ℕ)
    → IsSane car
    → car.tslast ≤ tsnow
    → (tsnow - car.tslast) * car.cir_tok < 2 ^ 61
    → nbytes < 2 ^ 61
    → Paid car tsnow nbytes
unfolding car_ratelimit
step-Paid car tsnow nbytes s h k n =
    let r = refill_lem car tsnow s k in
    let p = spend_lem (refill car tsnow) nbytes r.0 n in
    let f = refill-fixed car tsnow h in
    let g = spend-fixed (refill car tsnow) nbytes in
    record {
      sane = p.0;
      time = g.0 ∙ f.0;
      rate = g.1 ∙ f.1;
      same_ebs = g.3 ∙ f.3;
      paid = omega (arith, r.1, p.1);
    }

police_paid :
    (car : Car) (packets : List (ℕ × ℕ))
    → IsSane car
    → IsTimed car.cir_tok car.tslast packets
    → IsSane (police car packets).1
      × ((police car packets).1.ebs ≡ car.ebs)
      × ((police car packets).0 + pos_part (police car packets).1.tc + neg_part car.tc
          ≤ pos_part car.tc
            + neg_part (police car packets).1.tc
            + (last_time car.tslast packets - car.tslast) * car.cir_tok)
unfolding police
police_paid car [] s t = (s, refl, omega arith)
police_paid car ((tsnow, nbytes) ∷ rest) s t =
    let step = step-Paid car tsnow nbytes s t.0 t.1 t.2 in
    let next = (car_ratelimit car tsnow nbytes).1 in
    let timed : IsTimed next.cir_tok next.tslast rest =
      subst₂ (λ x y. IsTimed x y rest) (sym step.rate) (sym step.time) t.3 in
    let more = police_paid next rest step.sane timed in
    let span =
      elapsed car.tslast tsnow (last_time tsnow rest) car.cir_tok t.0
        (last_time-le car.cir_tok tsnow rest t.3) in
    let rest_cost = ap₂ (λ x y. (last_time x rest - x) * y) step.time step.rate in
    (more.0, more.1 ∙ step.same_ebs, omega (arith, step.paid, more.2, span, rest_cost))

-- From a bucket within its bounds, and over packets whose times do not go back and whose lengths and
-- intervals are below 2^61, the bytes that pass are no more than the two bursts and the tokens of the
-- time from the last refill to the last packet.
pub police-le :
    (car : Car) (packets : List (ℕ × ℕ))
    → IsSane car
    → IsTimed car.cir_tok car.tslast packets
    → (police car packets).0
      ≤ car.cbs + car.ebs + (last_time car.tslast packets - car.tslast) * car.cir_tok
police-le car packets s t = let p = police_paid car packets s t in omega (arith, p.0, p.1, p.2, s)
