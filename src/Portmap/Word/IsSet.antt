-- ===== src/Portmap/Word/IsSet.antt =====
-- The search for a value in a packed word, by arithmetic on all fields at once, finds exactly the
-- values that are there.
use npf.Prelude.{
  ℕ, zero, suc, ◌+◌, ◌-◌, ◌*◌, ◌/◌, ◌%◌, ◌^◌, ◌<◌, ◌≡◌, ◌≢◌, ◌↔◌, ap, ap₂, ◌∙◌, arith, not, ◌||◌,
  ◌==◌, bit_and, bit_xor, shr, u64_mod,
}
use native.Mathlib.Nat.{div-add-mod', mod-lt}
use npf.Prelude.Bits.{and_fields, xor_fields, and_zero, and_mask, xor_lt, xor_self, xor_zero_eq}
use native.Mathlib.Decide.{dec_lt}
use npf.Portmap.Word.{word_isset, field_ones, field_tops, sub64, not64}

-- A word from its five fields, the highest first, and the unused bits left out.
abbrev pub fields60 : ℕ → ℕ → ℕ → ℕ → ℕ → ℕ
fields60 f4 f3 f2 f1 f0 = (((f4 * 2 ^ 12 + f3) * 2 ^ 12 + f2) * 2 ^ 12 + f1) * 2 ^ 12 + f0

xor_fields60 :
    (a4 a3 a2 a1 a0 b4 b3 b2 b1 b0 : ℕ)
    → a3 < 2 ^ 12
    → a2 < 2 ^ 12
    → a1 < 2 ^ 12
    → a0 < 2 ^ 12
    → b3 < 2 ^ 12
    → b2 < 2 ^ 12
    → b1 < 2 ^ 12
    → b0 < 2 ^ 12
    → bit_xor (fields60 a4 a3 a2 a1 a0) (fields60 b4 b3 b2 b1 b0)
      ≡ fields60 (bit_xor a4 b4) (bit_xor a3 b3) (bit_xor a2 b2) (bit_xor a1 b1) (bit_xor a0 b0)
xor_fields60 a4 a3 a2 a1 a0 b4 b3 b2 b1 b0 h3 h2 h1 h0 k3 k2 k1 k0 = omega (
  arith,
  xor_fields 12 (((a4 * 2 ^ 12 + a3) * 2 ^ 12 + a2) * 2 ^ 12 + a1) a0
      (((b4 * 2 ^ 12 + b3) * 2 ^ 12 + b2) * 2 ^ 12 + b1) b0 h0 k0,
  xor_fields 12 ((a4 * 2 ^ 12 + a3) * 2 ^ 12 + a2) a1 ((b4 * 2 ^ 12 + b3) * 2 ^ 12 + b2) b1 h1 k1,
  xor_fields 12 (a4 * 2 ^ 12 + a3) a2 (b4 * 2 ^ 12 + b3) b2 h2 k2,
  xor_fields 12 a4 a3 b4 b3 h3 k3,
)

top_bit : (d : ℕ) → bit_and d 0x800 ≡ (d / 2048 % 2) * 2048
top_bit d = omega (
  arith,
  and_fields 11 (d / 2048) (d % 2048) 1 0 (omega arith) (omega arith),
  and_mask 1 (d / 2048),
  and_zero (d % 2048) (d % 2048),
  ap (λ t. bit_and t 0x800) {x = d / 2048 * 2 ^ 11 + d % 2048} {y = d} (omega arith),
)

mod_of_sum : (m q s : ℕ) → s < m → (q * m + s) % m ≡ s
mod_of_sum m q s h = grind arith

-- One field of the search: the difference with the ones `o`, modulo `p`, at the tops `t`.
abbrev hits : ℕ → ℕ → ℕ → ℕ → ℕ
hits p o t m = bit_and ((m + p - o) % p) t

module _ (p o t u : ℕ) (fits : o < p) (pos : 0 < p) where
  -- The borrow stops at a field that is not 0.
  minus_field :
      (g : ℕ)
      → 0 < g
      → g < 2 ^ 12
      → (u * 2 ^ 12 + g + p * 2 ^ 12 - (o * 2 ^ 12 + 1)) % (p * 2 ^ 12)
        ≡ ((u + p - o) % p) * 2 ^ 12 + (g - 1)
  minus_field g h k =
      let y = u + p - o in
      let split = div-add-mod' y p in
      let whole : u * 2 ^ 12 + g + p * 2 ^ 12 - (o * 2 ^ 12 + 1)
          ≡ (y / p) * (p * 2 ^ 12) + ((y % p) * 2 ^ 12 + (g - 1)) =
        omega (arith, split) in
      ap (λ (x : ℕ). x % (p * 2 ^ 12)) whole
      ∙ mod_of_sum (p * 2 ^ 12) (y / p) ((y % p) * 2 ^ 12 + (g - 1)) (omega (arith, mod-lt y pos))

  hits_nonzero :
      (g : ℕ)
      → 0 < g
      → g < 2048
      → hits (p * 2 ^ 12) (o * 2 ^ 12 + 1) (t * 2 ^ 12 + 0x800) (u * 2 ^ 12 + g)
        ≡ hits p o t u * 2 ^ 12
  hits_nonzero g h k =
      ap (λ x. bit_and x (t * 2 ^ 12 + 0x800)) (minus_field g h (omega arith))
      ∙ omega (
        arith,
        and_fields 12 ((u + p - o) % p) (g - 1) t 0x800 (omega arith) (omega arith),
        top_bit (g - 1),
      )

  hits_zero : hits (p * 2 ^ 12) (o * 2 ^ 12 + 1) (t * 2 ^ 12 + 0x800) (u * 2 ^ 12 + 0) ≢ 0
  hits_zero e =
      let y = u + p - o - 1 in
      let split = div-add-mod' y p in
      let whole : u * 2 ^ 12 + 0 + p * 2 ^ 12 - (o * 2 ^ 12 + 1)
          ≡ (y / p) * (p * 2 ^ 12) + ((y % p) * 2 ^ 12 + 4095) =
        omega (arith, split) in
      let rest =
        ap (λ (x : ℕ). x % (p * 2 ^ 12)) whole
        ∙ mod_of_sum (p * 2 ^ 12) (y / p) ((y % p) * 2 ^ 12 + 4095) (omega (arith, mod-lt y pos)) in
      omega (
        arith,
        e,
        ap (λ x. bit_and x (t * 2 ^ 12 + 0x800)) rest,
        and_fields 12 (y % p) 4095 t 0x800 (omega arith) (omega arith),
        top_bit 4095,
      )

  -- Nothing is hit exactly when the lowest field is not 0 and nothing is hit above it.
  hits_iff :
      (g : ℕ)
      → g < 2048
      → (hits (p * 2 ^ 12) (o * 2 ^ 12 + 1) (t * 2 ^ 12 + 0x800) (u * 2 ^ 12 + g) ≡ 0)
        ↔ ((0 < g) × (hits p o t u ≡ 0))
  hits_iff zero k = ((λ e. absurd (hits_zero e)), λ e. absurd (omega arith))
  hits_iff (suc g) k = (
    (λ e. (omega arith, omega (arith, hits_nonzero (suc g)))),
    λ e. omega (arith, hits_nonzero (suc g), e.1),
  )

hits_last : (g : ℕ) → g < 2048 → (hits (2 ^ 16) 1 0x800 g ≡ 0) ↔ (0 < g)
hits_last zero k = ((λ e. absurd (omega (arith, e, top_bit 65535))), λ e. absurd (omega arith))
hits_last (suc g) k = (
  (λ e. omega arith),
  λ e. ap (λ x. bit_and x 0x800) {y = g} (omega arith) ∙ omega (arith, top_bit g),
)

-- The whole word: the top bits of its complement are set, and nothing is hit exactly when no field
-- is 0.
hits_word :
    (g4 g3 g2 g1 g0 : ℕ)
    → g4 < 2048
    → g3 < 2048
    → g2 < 2048
    → g1 < 2048
    → g0 < 2048
    → (hits (2 ^ 64) field_ones field_tops (fields60 g4 g3 g2 g1 g0) ≡ 0)
      ↔ ((0 < g0) × (0 < g1) × (0 < g2) × (0 < g3) × (0 < g4))
hits_word g4 g3 g2 g1 g0 h4 h3 h2 h1 h0 =
    let u3 = g4 * 2 ^ 12 + g3 in
    let u2 = u3 * 2 ^ 12 + g2 in
    let u1 = u2 * 2 ^ 12 + g1 in
    let a = hits_iff (2 ^ 52) 0x1001001001 0x800800800800 u1 (omega arith) (omega arith) g0 h0 in
    let b = hits_iff (2 ^ 40) 0x1001001 0x800800800 u2 (omega arith) (omega arith) g1 h1 in
    let c = hits_iff (2 ^ 28) 0x1001 0x800800 u3 (omega arith) (omega arith) g2 h2 in
    let d = hits_iff (2 ^ 16) 1 0x800 g4 (omega arith) (omega arith) g3 h3 in
    let e = hits_last g4 h4 in
    (
      (λ n.
          let n1 = (a.0 n) in
          let n2 = (b.0 n1.1) in
          let n3 = (c.0 n2.1) in let n4 = (d.0 n3.1) in (n1.0, n2.0, n3.0, n4.0, e.0 n4.1)),
      λ p. a.1 (p.0, b.1 (p.1, c.1 (p.2, d.1 (p.3, e.1 p.4)))),
    )

complement_tops :
    (g4 g3 g2 g1 g0 : ℕ)
    → g4 < 2048
    → g3 < 2048
    → g2 < 2048
    → g1 < 2048
    → g0 < 2048
    → bit_and (not64 (fields60 g4 g3 g2 g1 g0)) field_tops ≡ field_tops
complement_tops g4 g3 g2 g1 g0 h4 h3 h2 h1 h0 =
    let c3 = (65535 - g4) * 2 ^ 12 + (4095 - g3) in
    let c2 = c3 * 2 ^ 12 + (4095 - g2) in
    let c1 = c2 * 2 ^ 12 + (4095 - g1) in
    let whole : not64 (fields60 g4 g3 g2 g1 g0) ≡ c1 * 2 ^ 12 + (4095 - g0) = omega arith in
    ap (λ x. bit_and x field_tops) whole
    ∙ omega (
      arith,
      and_fields 12 c1 (4095 - g0) 0x800800800800 0x800 (omega arith) (omega arith),
      and_fields 12 c2 (4095 - g1) 0x800800800 0x800 (omega arith) (omega arith),
      and_fields 12 c3 (4095 - g2) 0x800800 0x800 (omega arith) (omega arith),
      and_fields 12 (65535 - g4) (4095 - g3) 0x800 0x800 (omega arith) (omega arith),
      top_bit (4095 - g0),
      top_bit (4095 - g1),
      top_bit (4095 - g2),
      top_bit (4095 - g3),
      top_bit (65535 - g4),
    )

-- A packed word: five fields in the upper 60 bits.
abbrev pub packed : ℕ → ℕ → ℕ → ℕ → ℕ → ℕ
packed f4 f3 f2 f1 f0 = fields60 f4 f3 f2 f1 f0 * 2 ^ 4

xor_iff : (f b : ℕ) → f < 2 ^ 11 → b < 2 ^ 11 → (0 < bit_xor f b) ↔ (f ≢ b)
xor_iff f b h i = (
  (λ p e. absurd (omega (arith, p, xor_self f f, ap (λ t. bit_xor f t) e))),
  λ ne. elim (dec_lt 0 (bit_xor f b)) [
    | yes p ↦ p
    | no n ↦ absurd (ne (xor_zero_eq 11 f b h i (omega arith)))
  ],
)

masked_word :
    (f4 f3 f2 f1 f0 b : ℕ)
    → f4 < 2048
    → f3 < 2048
    → f2 < 2048
    → f1 < 2048
    → f0 < 2048
    → b < 2048
    → bit_xor (shr (packed f4 f3 f2 f1 f0) 4) ((field_ones * b) % u64_mod)
      ≡ fields60 (bit_xor f4 b) (bit_xor f3 b) (bit_xor f2 b) (bit_xor f1 b) (bit_xor f0 b)
masked_word f4 f3 f2 f1 f0 b h4 h3 h2 h1 h0 hb =
    let left : shr (packed f4 f3 f2 f1 f0) 4 ≡ fields60 f4 f3 f2 f1 f0 = omega arith in
    let right : (field_ones * b) % u64_mod ≡ fields60 b b b b b = omega arith in
    ap₂ bit_xor left right
    ∙ xor_fields60 f4 f3 f2 f1 f0 b b b b b (omega arith) (omega arith) (omega arith) (omega arith)
        (omega arith) (omega arith) (omega arith) (omega arith)

found :
    (r f4 f3 f2 f1 f0 b : ℕ) {p4 p3 p2 p1 p0 : ℕ}
    → (r ≡ 0) ↔ ((0 < p0) × (0 < p1) × (0 < p2) × (0 < p3) × (0 < p4))
    → (0 < p4) ↔ (f4 ≢ b)
    → (0 < p3) ↔ (f3 ≢ b)
    → (0 < p2) ↔ (f2 ≢ b)
    → (0 < p1) ↔ (f1 ≢ b)
    → (0 < p0) ↔ (f0 ≢ b)
    → not (r == 0) ≡ (f4 == b || (f3 == b || (f2 == b || (f1 == b || f0 == b))))
found r f4 f3 f2 f1 f0 b w i4 i3 i2 i1 i0 = ground arith

-- For a packed word of fields below 2048 and a value below 1024, `bitmap_word_isset` says exactly
-- whether one of the five fields is the value plus one.
pub word_isset_iff :
    (f4 f3 f2 f1 f0 bit : ℕ)
    → f4 < 2048
    → f3 < 2048
    → f2 < 2048
    → f1 < 2048
    → f0 < 2048
    → bit < 1024
    → word_isset (packed f4 f3 f2 f1 f0) bit
      ≡ (f4 == bit + 1 || (f3 == bit + 1 || (f2 == bit + 1 || (f1 == bit + 1 || f0 == bit + 1))))
unfolding word_isset
word_isset_iff f4 f3 f2 f1 f0 bit h4 h3 h2 h1 h0 hb =
    let b = bit + 1 in
    let g4 = bit_xor f4 b in
    let g3 = bit_xor f3 b in
    let g2 = bit_xor f2 b in
    let g1 = bit_xor f1 b in
    let g0 = bit_xor f0 b in
    let l4 = xor_lt 11 f4 b h4 (omega arith) in
    let l3 = xor_lt 11 f3 b h3 (omega arith) in
    let l2 = xor_lt 11 f2 b h2 (omega arith) in
    let l1 = xor_lt 11 f1 b h1 (omega arith) in
    let l0 = xor_lt 11 f0 b h0 (omega arith) in
    let m = fields60 g4 g3 g2 g1 g0 in
    let masked = masked_word f4 f3 f2 f1 f0 b h4 h3 h2 h1 h0 (omega arith) in
    let tops = complement_tops g4 g3 g2 g1 g0 l4 l3 l2 l1 l0 in
    ap (λ x. not (bit_and (sub64 x field_ones) (bit_and (not64 x) field_tops) == 0)) masked
    ∙ (ap (λ t. not (bit_and (sub64 m field_ones) t == 0)) tops
        ∙ found (hits (2 ^ 64) field_ones field_tops m) f4 f3 f2 f1 f0 b
            (hits_word g4 g3 g2 g1 g0 l4 l3 l2 l1 l0) (xor_iff f4 b h4 (omega arith))
            (xor_iff f3 b h3 (omega arith)) (xor_iff f2 b h2 (omega arith))
            (xor_iff f1 b h1 (omega arith)) (xor_iff f0 b h0 (omega arith)))
