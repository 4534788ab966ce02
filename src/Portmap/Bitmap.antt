-- ===== src/Portmap/Bitmap.antt =====
-- The two-level bitmap of src/kern/npf_portmap.c: `bitmap_set` and `bitmap_clr`, run by one thread, so
-- that every compare-and-swap succeeds. A word of level 0 with `PORTMAP_L1_TAG` owns its block.
use npf.Prelude.{
  ℕ, ◌+◌, ◌^◌, Bool, true, false, not, List, [], ◌∷◌, ◌==◌, if◌then◌else◌, bit_and, bit_or, shr,
  get_or, set, replicate,
}
use npf.Portmap.Word.{word_isset, word_cax, word_unpack, not64}

-- A word of level 0: five packed values, or the block of level 1 that it points to.
pub data Chunk : Type 0 where
  values : ℕ → Chunk
  block : List ℕ → Chunk

-- `bitmap_t`: `bits0`.
abbrev pub Bitmap : Type 0
Bitmap = List Chunk

abbrev pub l0_words : ℕ
l0_words = 64

abbrev pub l1_words : ℕ
l1_words = 16

-- `bit >> PORTMAP_L0_SHIFT` and `bit & PORTMAP_L0_MASK`
abbrev pub chunk_index : ℕ → ℕ
chunk_index bit = shr bit 10

abbrev pub chunk_bit : ℕ → ℕ
chunk_bit bit = bit_and bit 0x3ff

-- `chunk_bit >> PORTMAP_L1_SHIFT` and `1 << (chunk_bit & PORTMAP_L1_MASK)`
abbrev pub l1_index : ℕ → ℕ
l1_index cb = shr cb 6

abbrev pub l1_bit : ℕ → ℕ
l1_bit cb = 2 ^ bit_and cb 0x3f

abbrev pub empty_block : List ℕ
empty_block = replicate l1_words 0

abbrev pub mark : List ℕ → ℕ → List ℕ
mark bits1 v = set bits1 (l1_index v) (bit_or (get_or bits1 (l1_index v) 0) (l1_bit v))

-- The loop that copies the packed values into a fresh block, the last value first.
unfoldable pub copy_values : List ℕ → List ℕ
copy_values [] = empty_block
copy_values (v ∷ rest) = mark (copy_values rest) v

-- The part of `bitmap_set` on a block.
unfoldable pub block_set : List ℕ → ℕ → Bool × List ℕ
block_set bits1 cb =
    if not (bit_and (get_or bits1 (l1_index cb) 0) (l1_bit cb) == 0)
    then (false, bits1)
    else (true, mark bits1 cb)

-- `bitmap_set` on one chunk. `memory` says whether the allocation of a block succeeds.
unfoldable pub chunk_set : Bool → Chunk → ℕ → Bool × Chunk
chunk_set memory (values w) cb =
    if word_isset w cb
    then (false, values w)
    else (let nval = word_cax w 0 cb in
        if not (nval == 0)
        then (true, values nval)
        else if memory
        then (let (done, bits1) = block_set (copy_values (word_unpack w)) cb in (done, block bits1))
        else (false, values w))
chunk_set memory (block bits1) cb = let (done, bits1') = block_set bits1 cb in (done, block bits1')

-- The part of `bitmap_clr` on a block.
unfoldable pub block_clr : List ℕ → ℕ → Bool × List ℕ
block_clr bits1 cb =
    let oval = get_or bits1 (l1_index cb) 0 in
    if bit_and oval (l1_bit cb) == 0
    then (false, bits1)
    else (true, set bits1 (l1_index cb) (bit_and oval (not64 (l1_bit cb))))

unfoldable pub chunk_clr : Chunk → ℕ → Bool × Chunk
chunk_clr (values w) cb =
    if word_isset w cb then (true, values (word_cax w (cb + 1) cb)) else (false, values w)
chunk_clr (block bits1) cb = let (done, bits1') = block_clr bits1 cb in (done, block bits1')

abbrev pub chunk_at : Bitmap → ℕ → Chunk
chunk_at bm bit = get_or bm (chunk_index bit) (values 0)

-- `bitmap_set`
unfoldable pub bitmap_set : Bool → Bitmap → ℕ → Bool × Bitmap
bitmap_set memory bm bit =
    let (done, c) = chunk_set memory (chunk_at bm bit) (chunk_bit bit) in
    (done, set bm (chunk_index bit) c)

-- `bitmap_clr`
unfoldable pub bitmap_clr : Bitmap → ℕ → Bool × Bitmap
bitmap_clr bm bit =
    let (done, c) = chunk_clr (chunk_at bm bit) (chunk_bit bit) in
    (done, set bm (chunk_index bit) c)
