-- ===== src/Connkey/Layout.antt =====
-- The words that `npf_connkey_setkey` writes, as numbers.
use npf.Prelude.{
  ℕ, ◌+◌, ◌*◌, ◌^◌, ◌<◌, ◌≡◌, ◌⊎◌, inl, inr, refl, ap, ap₂, ◌∙◌, arith, List, [], ◌∷◌, ◌++◌, bit_or,
  shl32, shr, get_or, length, take_all,
}
use npf.Prelude.Bits.{or_apart}
use npf.Packet.{Flow, forw, back}
use npf.Connkey.{Ends, oriented, swap_ends, setkey}

-- The addresses have `alen` bytes, and the ports 16 bits.
pub record IsEnds (alen : ℕ) (e : Ends) : Type 0 where
  pub saddr_length : length e.saddr ≡ shr alen 2
  pub daddr_length : length e.daddr ≡ shr alen 2
  pub sid_fits : e.sid < 2 ^ 16
  pub did_fits : e.did < 2 ^ 16

abbrev pub IsAlen : ℕ → Type 0
IsAlen alen = (alen ≡ 4) ⊎ (alen ≡ 16)

abbrev pub header_word : ℕ → ℕ → ℕ
header_word alen proto = shr alen 2 * 2 ^ 28 + proto * 2 ^ 20

pub header_lem :
    (alen proto : ℕ)
    → IsAlen alen
    → proto < 256
    → bit_or (shl32 (shr alen 2) 28) (shl32 proto 20) ≡ header_word alen proto
header_lem alen proto a p =
    ap₂ bit_or (shifted alen a) (proto_shifted proto p)
    ∙ or_apart 28 (shr alen 2) (proto * 2 ^ 20) (omega arith)
  where
    shifted : (n : ℕ) → IsAlen n → shl32 (shr n 2) 28 ≡ shr n 2 * 2 ^ 28
    shifted n (inl e) = omega arith
    shifted n (inr e) = omega arith

    proto_shifted : (n : ℕ) → n < 256 → shl32 n 20 ≡ n * 2 ^ 20
    proto_shifted n h = omega arith

abbrev pub ports_word : ℕ → ℕ → ℕ
ports_word a b = a * 2 ^ 16 + b

pub ports_lem : (a b : ℕ) → a < 2 ^ 16 → b < 2 ^ 16 → bit_or (shl32 a 16) b ≡ ports_word a b
ports_lem a b h k = ap (λ t. bit_or t b) shifted ∙ or_apart 16 a b k
  where
    shifted : shl32 a 16 ≡ a * 2 ^ 16
    shifted = omega arith

one_word : (xs : List ℕ) → length xs ≡ 1 → get_or xs 0 0 ∷ [] ≡ xs
one_word [] h = absurd (omega arith)
one_word (x ∷ []) h = refl
one_word (x ∷ (y ∷ xs)) h = absurd (omega arith)

abbrev pub key_words : ℕ → ℕ → Ends → List ℕ
key_words alen proto e = header_word alen proto ∷ ports_word e.sid e.did ∷ (e.saddr ++ e.daddr)

pub swap-IsEnds :
    (alen : ℕ) (e : Ends) (flow : Flow) → IsEnds alen e → IsEnds alen (oriented flow e)
swap-IsEnds alen e forw h = h
swap-IsEnds alen e back h = omega arith

words_lem :
    (alen proto : ℕ) (e : Ends)
    → IsAlen alen
    → proto < 256
    → IsEnds alen e
    → (setkey alen proto e forw).0 ≡ key_words alen proto e
unfolding setkey
words_lem alen proto e (inl a) p h = ground (
  arith,
  header_lem alen proto (inl a) p,
  ports_lem e.sid e.did h.sid_fits h.did_fits,
  ap₂ ◌++◌ (one_word e.saddr (omega arith)) (one_word e.daddr (omega arith)),
)
words_lem alen proto e (inr a) p h = ground (
  arith,
  header_lem alen proto (inr a) p,
  ports_lem e.sid e.did h.sid_fits h.did_fits,
  take_all (shr alen 2) e.saddr,
  take_all (shr alen 2) e.daddr,
)

-- A backwards key is the forwards key of the swapped ends.
pub setkey-back :
    (alen proto : ℕ) (e : Ends) → setkey alen proto e back ≡ setkey alen proto (swap_ends e) forw
unfolding setkey
setkey-back alen proto e = refl

-- For an address length of 4 or 16, a protocol below 256 and ends that fit, the key is the header word, the ports and the
-- two addresses, without overlap.
pub setkey_words :
    (alen proto : ℕ) (e : Ends) (flow : Flow)
    → IsAlen alen
    → proto < 256
    → IsEnds alen e
    → (setkey alen proto e flow).0 ≡ key_words alen proto (oriented flow e)
setkey_words alen proto e forw a p h = words_lem alen proto e a p h
setkey_words alen proto e back a p h =
    ap (λ t. t.0) (setkey-back alen proto e)
    ∙ words_lem alen proto (swap_ends e) a p (swap-IsEnds alen e back h)
