-- ===== src/Prelude/Word.antt =====
-- Machine words as native numbers below a power of two: `uint32_t`, `uint64_t`, `int`.
use Prim.Native.Nat.{ℕ, ◌+◌, ◌-◌, ◌*◌, ◌/◌, ◌%◌, ◌^◌}
use npf.Prelude.Tests.{ltb, if◌then◌else◌}
use npf.Prelude.Int.{ℤ, pos, negsuc}

abbrev pub u16_mod : ℕ
u16_mod = 2 ^ 16

abbrev pub u32_mod : ℕ
u32_mod = 2 ^ 32

abbrev pub u64_mod : ℕ
u64_mod = 2 ^ 64

abbrev pub add32 : ℕ → ℕ → ℕ
add32 a b = (a + b) % u32_mod

-- `-` on ℕ stops at 0, so the modulus is added first.
abbrev pub sub32 : ℕ → ℕ → ℕ
sub32 a b = (a + u32_mod - b) % u32_mod

abbrev pub shl32 : ℕ → ℕ → ℕ
shl32 a k = (a * 2 ^ k) % u32_mod

abbrev pub shr : ℕ → ℕ → ℕ
shr a k = a / 2 ^ k

-- ~a as a `uint32_t`.
abbrev pub not32 : ℕ → ℕ
not32 a = u32_mod - 1 - a

-- The `int` that a 32-bit pattern stands for.
abbrev pub signed32 : ℕ → ℤ
signed32 w = if ltb w (2 ^ 31) then pos w else negsuc (u32_mod - w - 1)
