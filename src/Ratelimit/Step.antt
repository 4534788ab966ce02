-- ===== src/Ratelimit/Step.antt =====
-- One packet at the rate limiter: what it costs, and the bounds of the bucket.
use npf.Prelude.{
  ℕ, ◌+◌, ◌-◌, ◌*◌, ◌^◌, ◌≤◌, ◌<◌, ◌≡◌, arith, if◌then◌else◌, ℤ, pos, negsuc, pos_part, neg_part,
  ◌-ℤ◌,
}
use npf.Ratelimit.{Car, refill, spend}

-- The bucket is between the extended burst below zero and the normal burst, and the numbers are
-- small enough that no 64-bit sum wraps around.
pub record IsSane (car : Car) : Type 0 where
  pub below : pos_part car.tc ≤ car.cbs
  pub above : neg_part car.tc ≤ car.ebs
  pub cbs_small : car.cbs < 2 ^ 61
  pub ebs_small : car.ebs < 2 ^ 61
  pub compounded_small : car.compounded ≤ car.ebs

-- A refill adds no more than the tokens of the elapsed time.
pub refill_lem :
    (car : Car) (tsnow : ℕ)
    → IsSane car
    → (tsnow - car.tslast) * car.cir_tok < 2 ^ 61
    → IsSane (refill car tsnow)
      × (pos_part (refill car tsnow).tc + neg_part car.tc
          ≤ pos_part car.tc + neg_part (refill car tsnow).tc + (tsnow - car.tslast) * car.cir_tok)
unfolding refill
refill_lem car tsnow s h = ground arith

spend-IsSane_at :
    (z : ℤ) (car : Car) (nbytes : ℕ)
    → IsSane (record car { tc = z })
    → nbytes < 2 ^ 61
    → IsSane (spend (record car { tc = z }) nbytes).1
unfolding spend ◌-ℤ◌
spend-IsSane_at (pos n) car nbytes s h = ground arith
spend-IsSane_at (negsuc n) car nbytes s h = ground arith

spend_cost_pos :
    (n : ℕ) (car : Car) (nbytes : ℕ)
    → IsSane (record car { tc = pos n })
    → nbytes < 2 ^ 61
    → pos_part (spend (record car { tc = pos n }) nbytes).1.tc
        + neg_part (pos n)
        + (if (spend (record car { tc = pos n }) nbytes).0 then nbytes else 0)
      ≡ pos_part (pos n) + neg_part (spend (record car { tc = pos n }) nbytes).1.tc
unfolding spend ◌-ℤ◌
spend_cost_pos n car nbytes s h = ground arith

spend_cost_neg :
    (n : ℕ) (car : Car) (nbytes : ℕ)
    → IsSane (record car { tc = negsuc n })
    → nbytes < 2 ^ 61
    → pos_part (spend (record car { tc = negsuc n }) nbytes).1.tc
        + neg_part (negsuc n)
        + (if (spend (record car { tc = negsuc n }) nbytes).0 then nbytes else 0)
      ≡ pos_part (negsuc n) + neg_part (spend (record car { tc = negsuc n }) nbytes).1.tc
unfolding spend ◌-ℤ◌
spend_cost_neg n car nbytes s h = ground arith

spend_cost_at :
    (z : ℤ) (car : Car) (nbytes : ℕ)
    → IsSane (record car { tc = z })
    → nbytes < 2 ^ 61
    → pos_part (spend (record car { tc = z }) nbytes).1.tc
        + neg_part z
        + (if (spend (record car { tc = z }) nbytes).0 then nbytes else 0)
      ≡ pos_part z + neg_part (spend (record car { tc = z }) nbytes).1.tc
spend_cost_at (pos n) car nbytes s h = spend_cost_pos n car nbytes s h
spend_cost_at (negsuc n) car nbytes s h = spend_cost_neg n car nbytes s h

-- A packet that passes costs its length, and one that is dropped costs nothing.
pub spend_lem :
    (car : Car) (nbytes : ℕ)
    → IsSane car
    → nbytes < 2 ^ 61
    → IsSane (spend car nbytes).1
      × (pos_part (spend car nbytes).1.tc
            + neg_part car.tc
            + (if (spend car nbytes).0 then nbytes else 0)
          ≡ pos_part car.tc + neg_part (spend car nbytes).1.tc)
spend_lem car nbytes s h =
    (spend-IsSane_at car.tc car nbytes s h, spend_cost_at car.tc car nbytes s h)
