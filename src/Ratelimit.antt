-- ===== src/Ratelimit.antt =====
-- Rate limiting by committed access rate, src/kern/npf_ext_ratelimit.c.
pub mod Step
pub mod Rate
mod Tests
use npf.Prelude.{
  ℕ, ◌+◌, ◌-◌, ◌*◌, ◌/◌, ◌%◌, ◌^◌, Bool, true, false, ltb, ◌==◌, if◌then◌else◌, ℤ, pos, negsuc,
  ◌-ℤ◌, ltb_ℤ, u64_mod, shr, List, [], ◌∷◌,
}

-- The 64-bit pattern of an `int64_t`, and the `int64_t` of a pattern.
abbrev pub to_u64 : ℤ → ℕ
to_u64 (pos n) = n
to_u64 (negsuc n) = u64_mod - 1 - n

abbrev pub signed64 : ℕ → ℤ
signed64 w = if ltb w (2 ^ 63) then pos w else negsuc (u64_mod - w - 1)

abbrev pub add64 : ℕ → ℕ → ℕ
add64 a b = (a + b) % u64_mod

abbrev pub sub64 : ℕ → ℕ → ℕ
sub64 a b = (a + u64_mod - b) % u64_mod

-- `car_state_t`
pub record Car : Type 0 where
  pub tc : ℤ
  pub tslast : ℕ
  pub compounded : ℕ
  pub cir_tok : ℕ
  pub cbs : ℕ
  pub ebs : ℕ

-- `npf_ext_ratelimit_ctor`: the state from the three parameters, 0 where one is not given.
unfoldable pub ratelimit_ctor : ℕ → ℕ → ℕ → Car
ratelimit_ctor bitrate normal_burst extended_burst =
    let cbs = if normal_burst == 0 then add64 (shr bitrate 3) (shr bitrate 4) else normal_burst in
    record {
      tc = pos 0;
      tslast = 0;
      compounded = 0;
      cir_tok = shr bitrate 3 / 1000;
      cbs = cbs;
      ebs = if extended_burst == 0 then (cbs * 2) % u64_mod else extended_burst;
    }

abbrev min_ℤ : ℤ → ℤ → ℤ
min_ℤ a b = if ltb_ℤ a b then a else b

-- The refill of the committed bucket.
unfoldable pub refill : Car → ℕ → Car
refill car tsnow =
    if ltb car.tslast tsnow
    then (let tokens = ((tsnow - car.tslast) * car.cir_tok) % u64_mod in
        record car {
          tc = min_ℤ (signed64 (add64 (to_u64 car.tc) tokens)) (signed64 car.cbs);
          tslast = tsnow;
        })
    else car

-- `car_ratelimit` after the refill: whether the packet may pass, and the new state.
unfoldable pub spend : Car → ℕ → Bool × Car
spend car nbytes =
    if ltb_ℤ (car.tc -ℤ pos nbytes) (pos 0)
    then (let actual_debt = add64 (sub64 0 (to_u64 car.tc)) nbytes in
        let compounded_debt = add64 car.compounded actual_debt in
        if ltb car.ebs actual_debt
        then (false, record car { compounded = 0 })
        else if ltb car.ebs compounded_debt
        then (false, record car { compounded = 0 })
        else (
          true,
          record car { tc = pos 0 -ℤ signed64 actual_debt; compounded = compounded_debt },
        ))
    else (true, record car { tc = signed64 (sub64 (to_u64 car.tc) nbytes) })

-- `car_ratelimit`
unfoldable pub car_ratelimit : Car → ℕ → ℕ → Bool × Car
car_ratelimit car tsnow nbytes = spend (refill car tsnow) nbytes

pub data Decision : Type 0 where
  pass block : Decision

-- `npf_ext_ratelimit`: the decision and the state afterwards. `ts_msec` is the time, and `pktlen` the
-- length of the packet.
unfoldable pub ratelimit : Car → ℕ → ℕ → Decision → Decision × Car
ratelimit car ts_msec pktlen block = (block, car)
ratelimit car ts_msec pktlen pass =
    let (ok, car') = car_ratelimit car ts_msec pktlen in (if ok then pass else block, car')

-- The bytes that pass of a sequence of packets, each with its time, and the state afterwards.
unfoldable pub police : Car → List (ℕ × ℕ) → ℕ × Car
police car [] = (0, car)
police car ((tsnow, nbytes) ∷ rest) =
    let step = car_ratelimit car tsnow nbytes in
    let (passed, car') = police step.1 rest in ((if step.0 then nbytes else 0) + passed, car')
