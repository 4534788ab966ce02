-- ===== src/Portmap/Word.antt =====
-- The packed words of the port map: `bitmap_word_isset`, `bitmap_word_cax` and `bitmap_word_unpack` of
-- src/kern/npf_portmap.c. A word holds five values in its upper 60 bits, 12 bits each, as value + 1.
pub mod IsSet
pub mod Put
use npf.Prelude.{
  ℕ, ◌+◌, ◌-◌, ◌*◌, ◌/◌, ◌%◌, ◌^◌, Bool, not, List, [], ◌∷◌, ◌==◌, if◌then◌else◌, bit_and, bit_xor,
  shr, u64_mod,
}

-- A one in each of the five fields, and the top bit of each.
abbrev pub field_ones : ℕ
field_ones = 0x1001001001001

abbrev pub field_tops : ℕ
field_tops = 0x800800800800800

abbrev pub sub64 : ℕ → ℕ → ℕ
sub64 a b = (a + u64_mod - b) % u64_mod

abbrev pub not64 : ℕ → ℕ
not64 a = u64_mod - 1 - a

-- `bitmap_word_isset`
unfoldable pub word_isset : ℕ → ℕ → Bool
word_isset x bit =
    let m = bit_xor (shr x 4) ((field_ones * (bit + 1)) % u64_mod) in
    let r = bit_and (sub64 m field_ones) (bit_and (not64 m) field_tops) in not (r == 0)

-- The field at a shift.
abbrev pub field : ℕ → ℕ → ℕ
field x shift = bit_and (shr x shift) 0xfff

-- `x ^ ((uint64_t)bit << shift)`
abbrev pub xor_at : ℕ → ℕ → ℕ → ℕ
xor_at x shift bit = bit_xor x ((bit * 2 ^ shift) % u64_mod)

-- `bitmap_word_cax`; `e` is `exp + 1`, so that the `exp` of -1 is 0.
unfoldable pub word_cax : ℕ → ℕ → ℕ → ℕ
word_cax x e bit =
    let b = bit + 1 in
    if field x 52 == e
    then xor_at x 52 b
    else if field x 40 == e
    then xor_at x 40 b
    else if field x 28 == e
    then xor_at x 28 b
    else if field x 16 == e
    then xor_at x 16 b
    else if field x 4 == e
    then xor_at x 4 b
    else 0

abbrev pub push_value : ℕ → List ℕ → List ℕ
push_value v rest = if v == 0 then rest else (v - 1) ∷ rest

-- `bitmap_word_unpack`: the values in the order in which they are stored.
unfoldable pub word_unpack : ℕ → List ℕ
word_unpack x = push_value (field x 52) (
    push_value (field x 40)
      (push_value (field x 28) (push_value (field x 16) (push_value (field x 4) []))))
