-- ===== src/Inet/Npt66.antt =====
-- The IPv6 prefix translation, `npf_npt66_rwr` of src/kern/npf_inet.c. The 16-bit words of an address are
-- numbers in network order, as on a big-endian machine.
use npf.Prelude.{
  ℕ, zero, suc, ◌+◌, ◌-◌, ◌*◌, ◌/◌, ◌%◌, ◌^◌, Bool, true, false, not, ◌&&◌, List, [], ◌∷◌, ◌++◌,
  Option, none, some, ◌==◌, if◌then◌else◌, leb, get_or, set, take, drop, bit_and, bit_or, shr,
}
use npf.Packet.{iscached, npc_ip6}
use npf.Connkey.{Which}
use npf.Inet.Rewrite.{Headers, addr_of, rwrip}

-- The 16-bit words of an address, and the address of such words.
abbrev pub halves : List ℕ → List ℕ
halves [] = []
halves (w ∷ rest) = w / 2 ^ 16 ∷ w % 2 ^ 16 ∷ halves rest

abbrev pub joined : List ℕ → List ℕ
joined [] = []
joined (h ∷ []) = []
joined (h ∷ l ∷ rest) = (h * 2 ^ 16 + l) ∷ joined rest

-- The first of `left` words from `word` on that is not 0xffff.
abbrev pub adjustable : List ℕ → ℕ → ℕ → ℕ
adjustable words word zero = word
adjustable words word (suc left) =
    let later = adjustable words (word + 1) left in
    if get_or words word 0 == 0xffff then later else word

-- The word to adjust, if the address can be translated.
unfoldable pub npt66_word : List ℕ → ℕ → Option ℕ
npt66_word words len =
    if leb len 48
    then (if get_or words 3 0 == 0xffff then none else some 3)
    else (let host = drop 4 words in
        if (get_or host 0 0 == 0)
          && (get_or host 1 0 == 0)
          && (get_or host 2 0 == 0)
          && (get_or host 3 0 == 0)
        then none
        else if (get_or host 0 0 == 0xffff)
            && (get_or host 1 0 == 0xffff)
            && (get_or host 2 0 == 0xffff)
            && (get_or host 3 0 == 0xffff)
        then none
        else some (adjustable words 4 4))

-- The words with the prefix rewritten: whole words, and the masked part of one more.
unfoldable pub npt66_prefix : List ℕ → List ℕ → ℕ → List ℕ
npt66_prefix words pref len =
    let preflen = shr len 4 in
    let remnant = len - preflen * 16 in
    let whole = take preflen pref ++ drop preflen words in
    let mask = 2 ^ remnant - 1 in
    let mixed =
      bit_or (bit_and (get_or pref preflen 0) mask)
        (bit_and (get_or whole preflen 0) (0xffff - mask)) in
    if remnant == 0 then whole else set whole preflen mixed

-- The 1's complement sum; a sum of two 16-bit words needs one fold.
unfoldable pub npt66_sum : ℕ → ℕ → ℕ
npt66_sum x adj =
    let sum = x + adj in
    let folded = sum / 2 ^ 16 + sum % 2 ^ 16 in if folded == 0xffff then 0 else folded

-- `npf_npt66_rwr`: whether the address is translated.
unfoldable pub npt66_rwr : Headers → Which → List ℕ → ℕ → ℕ → Bool × Headers
npt66_rwr h which pref len adj =
    let words = halves (addr_of h.npc which) in
    if not (iscached h.npc npc_ip6) then (false, h) else elim (npt66_word words len) [
      | none ↦ (false, h)
      | some word ↦
          let prefixed = npt66_prefix words (halves pref) len in
          let adjusted = set prefixed word (npt66_sum (get_or prefixed word 0) adj) in
          (true, rwrip h which (joined adjusted))
    ]
