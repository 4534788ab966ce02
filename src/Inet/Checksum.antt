-- ===== src/Inet/Checksum.antt =====
-- The incremental updates of a checksum keep it right, in the arithmetic of RFC 1071: modulo 65535.
use npf.Prelude.{ℕ, ◌+◌, ◌-◌, ◌%◌, ◌<◌, ◌≡◌, refl, arith, List, [], ◌∷◌, length, u32_mod}
use npf.Inet.{fixup16_cksum, fixup32_cksum, addr_cksum}

-- For a checksum and data of 16 bits, `npf_fixup16_cksum` keeps the checksum right: modulo 65535, the
-- sum that it stands for (65535 less the checksum) loses the old datum and gains the new one.
pub fixup16-mod :
    (cksum odatum ndatum : ℕ)
    → cksum < 65536
    → odatum < 65536
    → ndatum < 65536
    → (65535 - fixup16_cksum cksum odatum ndatum + odatum) % 65535
      ≡ (65535 - cksum + ndatum) % 65535
unfolding fixup16_cksum
fixup16-mod cksum odatum ndatum h i j = omega arith

fixup32-mod :
    (cksum odatum ndatum : ℕ)
    → cksum < 65536
    → odatum < u32_mod
    → ndatum < u32_mod
    → (65535 - fixup32_cksum cksum odatum ndatum + odatum) % 65535
      ≡ (65535 - cksum + ndatum) % 65535
unfolding fixup32_cksum
fixup32-mod cksum odatum ndatum h i j = omega arith

pub fixup32-lt : (cksum odatum ndatum : ℕ) → fixup32_cksum cksum odatum ndatum < 65536
unfolding fixup32_cksum
fixup32-lt cksum odatum ndatum = omega arith

abbrev pub sum : List ℕ → ℕ
sum [] = 0
sum (w ∷ rest) = w + sum rest

abbrev pub AreWords : List ℕ → Type 0
AreWords [] = Unit
AreWords (w ∷ rest) = (w < u32_mod) × AreWords rest

-- For a checksum of 16 bits and two addresses of 32-bit words and the same length, `npf_addr_cksum`
-- keeps the checksum right: modulo 65535, the sum that it stands for loses the old words and gains
-- the new ones.
pub addr_cksum-mod :
    (cksum : ℕ) (oaddr naddr : List ℕ)
    → cksum < 65536
    → length oaddr ≡ length naddr
    → AreWords oaddr
    → AreWords naddr
    → (65535 - addr_cksum cksum oaddr naddr + sum oaddr) % 65535
      ≡ (65535 - cksum + sum naddr) % 65535
unfolding addr_cksum
addr_cksum-mod cksum [] [] h l o n = refl
addr_cksum-mod cksum [] (y ∷ ns) h l o n = absurd (omega arith)
addr_cksum-mod cksum (x ∷ os) [] h l o n = absurd (omega arith)
addr_cksum-mod cksum (x ∷ os) (y ∷ ns) h l o n = omega (
  arith,
  fixup32-mod cksum x y h o.0 n.0,
  addr_cksum-mod (fixup32_cksum cksum x y) os ns (fixup32-lt cksum x y) (omega arith) o.1 n.1,
)
