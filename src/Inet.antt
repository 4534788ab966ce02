-- ===== src/Inet.antt =====
-- Checksums and addresses of src/kern/npf_inet.c. An address is the list of its 32-bit words, each read
-- as a number in host order: the byte swaps of the source cancel.
pub mod Checksum
pub mod Address
pub mod Rewrite
pub mod Npt66
mod Tests
use Prim.Native.Nat.{compare, Ordering}
use npf.Prelude.{
  ℕ, suc, ◌+◌, ◌-◌, ◌*◌, ◌%◌, ◌^◌, Bool, true, false, not, ◌&&◌, List, [], ◌∷◌, leb, ltb, ◌==◌,
  if◌then◌else◌, bit_and, bit_or, bit_xor, add32, not32, shl32, shr, u32_mod,
}

-- `x & 0xffff`
abbrev pub low16 : ℕ → ℕ
low16 x = x % 2 ^ 16

-- The last steps of both updates: fold twice, and complement.
abbrev pub fold_cksum : ℕ → ℕ
fold_cksum sum =
    let once = add32 (shr sum 16) (low16 sum) in low16 (not32 (add32 once (shr once 16)))

-- `npf_fixup16_cksum`
unfoldable pub fixup16_cksum : ℕ → ℕ → ℕ → ℕ
fixup16_cksum cksum odatum ndatum =
    fold_cksum (add32 (low16 (not32 cksum)) (add32 (low16 (not32 odatum)) ndatum))

-- `npf_fixup32_cksum`
unfoldable pub fixup32_cksum : ℕ → ℕ → ℕ → ℕ
fixup32_cksum cksum odatum ndatum =
    let sum = add32 (low16 (not32 cksum)) (add32 (low16 (not32 odatum)) (low16 ndatum)) in
    fold_cksum (add32 sum (add32 (shr (not32 odatum) 16) (shr ndatum 16)))

-- `npf_addr_cksum`: the loop over the words of both addresses.
unfoldable pub addr_cksum : ℕ → List ℕ → List ℕ → ℕ
addr_cksum cksum [] nip = cksum
addr_cksum cksum (o ∷ oip) [] = cksum
addr_cksum cksum (o ∷ oip) (n ∷ nip) = addr_cksum (fixup32_cksum cksum o n) oip nip

-- `npf_addr_mix`: the loop from `mix` on.
unfoldable pub addr_mix : ℕ → List ℕ → List ℕ → ℕ
addr_mix mix [] a2 = mix
addr_mix mix (x ∷ a1) [] = mix
addr_mix mix (x ∷ a1) (y ∷ a2) = addr_mix (bit_xor (bit_xor mix x) y) a1 a2

-- `NPF_NO_NETMASK`
abbrev pub no_netmask : ℕ
no_netmask = 255

-- The mask of one word, and the length that is left for the next ones.
abbrev pub wordmask : ℕ → ℕ
wordmask length =
    if leb 32 length
    then 0xffff_ffff
    else if length == 0
    then 0
    else shl32 0xffff_ffff (32 - length)

abbrev pub length_left : ℕ → ℕ
length_left length = if leb 32 length then length - 32 else 0

-- `npf_addr_mask`
unfoldable pub addr_mask : List ℕ → ℕ → List ℕ
addr_mask [] length = []
addr_mask (w ∷ rest) length = bit_and w (wordmask length) ∷ addr_mask rest (length_left length)

-- `npf_addr_bitor`: `out` is what is there before.
unfoldable pub addr_bitor : List ℕ → ℕ → List ℕ → List ℕ
addr_bitor [] length out = out
addr_bitor (w ∷ rest) length [] = []
addr_bitor (w ∷ rest) length (o ∷ out) =
    bit_or o (bit_and w (not32 (wordmask length))) ∷ addr_bitor rest (length_left length) out

-- `memcmp` of two addresses of the same length.
unfoldable pub compare_words : List ℕ → List ℕ → Ordering
compare_words [] b = Ordering.eq
compare_words (x ∷ a) [] = Ordering.eq
compare_words (x ∷ a) (y ∷ b) = elim (compare x y) [
  | Ordering.lt ↦ Ordering.lt
  | Ordering.gt ↦ Ordering.gt
  | Ordering.eq ↦ compare_words a b
]

abbrev pub maybe_mask : List ℕ → ℕ → List ℕ
maybe_mask addr mask = if mask == no_netmask then addr else addr_mask addr mask

-- `npf_addr_cmp`
unfoldable pub addr_cmp : List ℕ → ℕ → List ℕ → ℕ → Ordering
addr_cmp addr1 mask1 addr2 mask2 = compare_words (maybe_mask addr1 mask1) (maybe_mask addr2 mask2)

-- `npf_netmask_check`: whether the mask is valid for the address length.
unfoldable pub netmask_check : ℕ → ℕ → Bool
netmask_check alen mask =
    if alen == 4
    then not (ltb 32 mask && not (mask == no_netmask))
    else if alen == 16
    then not (ltb 128 mask && not (mask == no_netmask))
    else false
