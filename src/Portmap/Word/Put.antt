-- ===== src/Portmap/Word/Put.antt =====
-- Putting a value into a free field of a packed word: `bitmap_word_cax`.
use npf.Prelude.{
  ℕ, zero, suc, ◌+◌, ◌*◌, ◌/◌, ◌%◌, ◌^◌, ◌≤◌, ◌<◌, ◌≡◌, ap, ap₂, ◌∙◌, arith, true, ◌||◌, ◌==◌,
  if◌then◌else◌, bit_xor, shr, u64_mod,
}
use Prim.Native.Nat.{bit_xor-bitwise}
use npf.Prelude.Bits.{differ_bits, xor_fields, xor_digit, and_mask}
use npf.Portmap.Word.{word_isset, word_cax, field, xor_at}
use npf.Portmap.Word.IsSet.{packed, word_isset_iff}

xor_zero : (n a : ℕ) → a ≤ n → bit_xor a 0 ≡ a
xor_zero n zero h = omega (arith, bit_xor-bitwise 0 0)
xor_zero zero (suc a) h = absurd (omega arith)
xor_zero (suc n) (suc a) h = omega (
  arith,
  xor_digit (suc a) 0,
  differ_bits (suc a % 2) 0 (omega arith) (omega arith),
  xor_zero n (suc a / 2) (omega arith),
)

zero_xor : (b : ℕ) → bit_xor 0 b ≡ b
zero_xor b = bit_xor-bitwise 0 b

-- A field of a word, with what is above and below it.
xor_field :
    (k hi f lo b : ℕ)
    → lo < 2 ^ k
    → f < 2 ^ 12
    → b < 2 ^ 12
    → bit_xor ((hi * 2 ^ 12 + f) * 2 ^ k + lo) (b * 2 ^ k)
      ≡ (hi * 2 ^ 12 + bit_xor f b) * 2 ^ k + lo
xor_field k hi f lo b l h i =
    let upper : bit_xor (hi * 2 ^ 12 + f) b ≡ hi * 2 ^ 12 + bit_xor f b =
      ap (λ (t : ℕ). bit_xor (hi * 2 ^ 12 + f) t) {x = b} {y = 0 * 2 ^ 12 + b} (omega arith)
      ∙ (xor_fields 12 hi f 0 b h i
          ∙ ap (λ (t : ℕ). t * 2 ^ 12 + bit_xor f b) (xor_zero hi hi (omega arith))) in
    ap (λ t. bit_xor ((hi * 2 ^ 12 + f) * 2 ^ k + lo) t) {x = b * 2 ^ k} {y = b * 2 ^ k + 0}
      (omega arith)
    ∙ (xor_fields k (hi * 2 ^ 12 + f) lo b 0 l (omega arith)
        ∙ ap₂ (λ (x y : ℕ). x * 2 ^ k + y) upper (xor_zero lo lo (omega arith)))

field_lem : (x shift : ℕ) → field x shift ≡ shr x shift % 2 ^ 12
field_lem x shift = and_mask 12 (shr x shift)

-- The fields of a packed word.
field_52 :
    (f4 f3 f2 f1 f0 : ℕ)
    → f4 < 2048
    → f3 < 2048
    → f2 < 2048
    → f1 < 2048
    → f0 < 2048
    → field (packed f4 f3 f2 f1 f0) 52 ≡ f4
field_52 f4 f3 f2 f1 f0 h4 h3 h2 h1 h0 = omega (arith, field_lem (packed f4 f3 f2 f1 f0) 52)

field_40 :
    (f4 f3 f2 f1 f0 : ℕ)
    → f4 < 2048
    → f3 < 2048
    → f2 < 2048
    → f1 < 2048
    → f0 < 2048
    → field (packed f4 f3 f2 f1 f0) 40 ≡ f3
field_40 f4 f3 f2 f1 f0 h4 h3 h2 h1 h0 = omega (arith, field_lem (packed f4 f3 f2 f1 f0) 40)

field_28 :
    (f4 f3 f2 f1 f0 : ℕ)
    → f4 < 2048
    → f3 < 2048
    → f2 < 2048
    → f1 < 2048
    → f0 < 2048
    → field (packed f4 f3 f2 f1 f0) 28 ≡ f2
field_28 f4 f3 f2 f1 f0 h4 h3 h2 h1 h0 = omega (arith, field_lem (packed f4 f3 f2 f1 f0) 28)

field_16 :
    (f4 f3 f2 f1 f0 : ℕ)
    → f4 < 2048
    → f3 < 2048
    → f2 < 2048
    → f1 < 2048
    → f0 < 2048
    → field (packed f4 f3 f2 f1 f0) 16 ≡ f1
field_16 f4 f3 f2 f1 f0 h4 h3 h2 h1 h0 = omega (arith, field_lem (packed f4 f3 f2 f1 f0) 16)

field_4 :
    (f4 f3 f2 f1 f0 : ℕ)
    → f4 < 2048
    → f3 < 2048
    → f2 < 2048
    → f1 < 2048
    → f0 < 2048
    → field (packed f4 f3 f2 f1 f0) 4 ≡ f0
field_4 f4 f3 f2 f1 f0 h4 h3 h2 h1 h0 = omega (arith, field_lem (packed f4 f3 f2 f1 f0) 4)

-- A write to a field of a packed word.
put_at :
    (k hi f lo x b : ℕ)
    → lo < 2 ^ k
    → f < 2048
    → b < 2048
    → (b * 2 ^ k) % u64_mod ≡ b * 2 ^ k
    → x ≡ (hi * 2 ^ 12 + f) * 2 ^ k + lo
    → xor_at x k b ≡ (hi * 2 ^ 12 + bit_xor f b) * 2 ^ k + lo
put_at k hi f lo x b l h i w e =
    ap₂ bit_xor e w ∙ xor_field k hi f lo b l (omega arith) (omega arith)

-- What `bitmap_word_cax` does to the first field that holds `e`.
pub word_cax_lem :
    (f4 f3 f2 f1 f0 e bit : ℕ)
    → f4 < 2048
    → f3 < 2048
    → f2 < 2048
    → f1 < 2048
    → f0 < 2048
    → bit < 1024
    → word_cax (packed f4 f3 f2 f1 f0) e bit ≡ (
        if f4 == e
        then packed (bit_xor f4 (bit + 1)) f3 f2 f1 f0
        else if f3 == e
        then packed f4 (bit_xor f3 (bit + 1)) f2 f1 f0
        else if f2 == e
        then packed f4 f3 (bit_xor f2 (bit + 1)) f1 f0
        else if f1 == e
        then packed f4 f3 f2 (bit_xor f1 (bit + 1)) f0
        else if f0 == e
        then packed f4 f3 f2 f1 (bit_xor f0 (bit + 1))
        else 0)
unfolding word_cax
word_cax_lem f4 f3 f2 f1 f0 e bit h4 h3 h2 h1 h0 hb =
    let b = bit + 1 in
    let w = packed f4 f3 f2 f1 f0 in
    let q4 : xor_at w 52 b ≡ packed (bit_xor f4 b) f3 f2 f1 f0 = omega (
      arith,
      put_at 52 0 f4 (w % 2 ^ 52) w b (omega arith) h4 (omega arith) (omega arith) (omega arith),
    ) in
    let q3 : xor_at w 40 b ≡ packed f4 (bit_xor f3 b) f2 f1 f0 = omega (
      arith,
      put_at 40 f4 f3 (w % 2 ^ 40) w b (omega arith) h3 (omega arith) (omega arith) (omega arith),
    ) in
    let q2 : xor_at w 28 b ≡ packed f4 f3 (bit_xor f2 b) f1 f0 = omega (
      arith,
      put_at 28 (f4 * 2 ^ 12 + f3) f2 (w % 2 ^ 28) w b (omega arith) h2 (omega arith) (omega arith)
          (omega arith),
    ) in
    let q1 : xor_at w 16 b ≡ packed f4 f3 f2 (bit_xor f1 b) f0 = omega (
      arith,
      put_at 16 ((f4 * 2 ^ 12 + f3) * 2 ^ 12 + f2) f1 (w % 2 ^ 16) w b (omega arith) h1
          (omega arith) (omega arith) (omega arith),
    ) in
    let q0 : xor_at w 4 b ≡ packed f4 f3 f2 f1 (bit_xor f0 b) = omega (
      arith,
      put_at 4 (((f4 * 2 ^ 12 + f3) * 2 ^ 12 + f2) * 2 ^ 12 + f1) f0 0 w b (omega arith) h0
          (omega arith) (omega arith) (omega arith),
    ) in
    rw (
      field_52 f4 f3 f2 f1 f0 h4 h3 h2 h1 h0,
      field_40 f4 f3 f2 f1 f0 h4 h3 h2 h1 h0,
      field_28 f4 f3 f2 f1 f0 h4 h3 h2 h1 h0,
      field_16 f4 f3 f2 f1 f0 h4 h3 h2 h1 h0,
      field_4 f4 f3 f2 f1 f0 h4 h3 h2 h1 h0,
      q4,
      q3,
      q2,
      q1,
      q0,
    )

-- For a packed word of fields below 2048 of which one is free, and values below 1024, putting a value
-- into the word makes the test hold of that value, and of the values of which it held before.
pub word_isset-word_cax :
    (f4 f3 f2 f1 f0 bit v : ℕ)
    → f4 < 2048
    → f3 < 2048
    → f2 < 2048
    → f1 < 2048
    → f0 < 2048
    → bit < 1024
    → v < 1024
    → (f4 == 0 || (f3 == 0 || (f2 == 0 || (f1 == 0 || f0 == 0)))) ≡ true
    → word_isset (word_cax (packed f4 f3 f2 f1 f0) 0 bit) v
      ≡ (bit == v || word_isset (packed f4 f3 f2 f1 f0) v)
word_isset-word_cax f4 f3 f2 f1 f0 bit v h4 h3 h2 h1 h0 hb hv free =
    let b = bit + 1 in
    let c = word_cax_lem f4 f3 f2 f1 f0 0 bit h4 h3 h2 h1 h0 hb in
    let i = word_isset_iff f4 f3 f2 f1 f0 v h4 h3 h2 h1 h0 hv in
    let i4 = word_isset_iff b f3 f2 f1 f0 v (omega arith) h3 h2 h1 h0 hv in
    let i3 = word_isset_iff f4 b f2 f1 f0 v h4 (omega arith) h2 h1 h0 hv in
    let i2 = word_isset_iff f4 f3 b f1 f0 v h4 h3 (omega arith) h1 h0 hv in
    let i1 = word_isset_iff f4 f3 f2 b f0 v h4 h3 h2 (omega arith) h0 hv in
    let i0 = word_isset_iff f4 f3 f2 f1 b v h4 h3 h2 h1 (omega arith) hv in
    ground (arith, c, i, i4, i3, i2, i1, i0, zero_xor b)
