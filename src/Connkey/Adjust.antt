-- ===== src/Connkey/Adjust.antt =====
-- `npf_conn_adjkey` and `npf_connkey_copy`.
use npf.Prelude.{
  ℕ, suc, ◌+◌, ◌*◌, ◌^◌, ◌<◌, ◌≡◌, ◌↔◌, inl, inr, refl, ap, ap₂, ◌∙◌, sym, arith, List, ◌∷◌, ◌++◌,
  bit_and, bit_or, shl32, shr, take, drop, length, take_all, take-append, drop-append, drop_all,
  length-append, ◌==◌, if◌then◌else◌, true, false,
}
use Prim.Native.Nat.{bit_or-bitwise}
use mathlib.Core.List.{append-nil}
use npf.Prelude.Bits.{or_apart, or_fields, and_fields, or_zero, and_zero, and_mask}
use npf.Packet.{forw, back}
use npf.Connkey.{
  Ends, Which, src, dst, adjkey, set_address, set_port, connkey_copy, connkey_alen, word, overwrite,
  setkey,
}
use npf.Connkey.Layout.{IsEnds, IsAlen, header_word, ports_word, key_words, setkey_words}
use npf.Connkey.Fields.{with_ckey, alen_back}

-- The ends after an adjustment: a zero port leaves the port as it is.
pub adjusted_ends : Ends → List ℕ → ℕ → Which → Ends
adjusted_ends e naddr id src = record e { saddr = naddr; sid = if id == 0 then e.sid else id }
adjusted_ends e naddr id dst = record e { daddr = naddr; did = if id == 0 then e.did else id }

set_saddr :
    (k0 k1 : ℕ) (s d new : List ℕ)
    → length new ≡ length s
    → overwrite (k0 ∷ k1 ∷ (s ++ d)) 2 new ≡ k0 ∷ k1 ∷ (new ++ d)
set_saddr k0 k1 s d new h =
    ap (λ t. k0 ∷ k1 ∷ (new ++ t))
      (ap (λ n. drop n (k0 ∷ k1 ∷ (s ++ d))) {y = suc (suc (length s))} (omega arith)
        ∙ drop-append (length s) s d refl)

set_daddr :
    (k0 k1 n : ℕ) (s d new : List ℕ)
    → length s ≡ n
    → length d ≡ n
    → length new ≡ n
    → overwrite (k0 ∷ k1 ∷ (s ++ d)) (2 + n * 1) new ≡ k0 ∷ k1 ∷ (s ++ new)
set_daddr k0 k1 n s d new hs hd hn =
    let before =
      ap (λ m. take m (k0 ∷ k1 ∷ (s ++ d))) {x = 2 + n * 1} {y = suc (suc n)} (omega arith)
      ∙ ap (λ t. k0 ∷ k1 ∷ t) (take-append n s d (sym hs)) in
    let after =
      ap (λ m. drop m (k0 ∷ k1 ∷ (s ++ d))) {x = 2 + n * 1 + length new} {y = suc (suc (n + n))}
        (omega arith)
      ∙ drop_all (n + n) (s ++ d) (omega (arith, length-append s d)) in
    ap₂ (λ x y. x ++ (new ++ y)) before after ∙ ap (λ t. k0 ∷ k1 ∷ (s ++ t)) (append-nil new)

src_port :
    (a b id : ℕ)
    → b < 2 ^ 16
    → id < 2 ^ 16
    → bit_or (shl32 id 16) (bit_and (ports_word a b) 0xffff) ≡ ports_word id b
src_port a b id h i =
    let low : bit_and (ports_word a b) 0xffff ≡ b = omega (arith, and_mask 16 (ports_word a b)) in
    let high : shl32 id 16 ≡ id * 2 ^ 16 = omega arith in ap₂ bit_or high low ∙ or_apart 16 id b h

dst_port :
    (a b id : ℕ)
    → a < 2 ^ 16
    → b < 2 ^ 16
    → id < 2 ^ 16
    → bit_or (shl32 id 0) (bit_and (ports_word a b) 0xffff0000) ≡ ports_word a id
dst_port a b id g h i =
    let id_low : shl32 id 0 ≡ 0 * 2 ^ 16 + id = omega arith in
    let masked : bit_and (ports_word a b) 0xffff0000 ≡ a * 2 ^ 16 + 0 =
      omega (arith, and_fields 16 a b 0xffff 0 h (omega arith), and_mask 16 a, and_zero b b) in
    ap₂ bit_or id_low masked
    ∙ omega (arith, or_fields 16 0 id a 0 i (omega arith), or_zero id id, bit_or-bitwise 0 a)

set_address_lem :
    (alen proto ckey : ℕ) (naddr : List ℕ) (which : Which) (e : Ends)
    → IsAlen alen
    → proto < 256
    → ckey < 2 ^ 20
    → IsEnds alen e
    → length naddr ≡ shr alen 2
    → set_address (with_ckey alen proto ckey e) naddr which
      ≡ with_ckey alen proto ckey (adjusted_ends e naddr 0 which)
unfolding set_address adjusted_ends
set_address_lem alen proto ckey naddr src e a p c h n =
    let words = alen_back alen proto ckey (ports_word e.sid e.did ∷ (e.saddr ++ e.daddr)) a p c in
    ap (λ m. overwrite (with_ckey alen proto ckey e) (2 + shr m 2 * 0) (take (shr m 2) naddr)) words
    ∙ (ap₂ (λ x y. overwrite (with_ckey alen proto ckey e) x y) {y = 2} (omega arith)
          (take_all (shr alen 2) naddr (sym n))
        ∙ set_saddr (header_word alen proto + ckey) (ports_word e.sid e.did) e.saddr e.daddr naddr
            (n ∙ sym h.saddr_length))
set_address_lem alen proto ckey naddr dst e a p c h n =
    let words = alen_back alen proto ckey (ports_word e.sid e.did ∷ (e.saddr ++ e.daddr)) a p c in
    ap (λ m. overwrite (with_ckey alen proto ckey e) (2 + shr m 2 * 1) (take (shr m 2) naddr)) words
    ∙ (ap (λ x. overwrite (with_ckey alen proto ckey e) (2 + shr alen 2 * 1) x)
          (take_all (shr alen 2) naddr (sym n))
        ∙ set_daddr (header_word alen proto + ckey) (ports_word e.sid e.did) (shr alen 2) e.saddr
            e.daddr naddr h.saddr_length h.daddr_length n)

set_port_src :
    (k0 id : ℕ) (e : Ends)
    → e.did < 2 ^ 16
    → id < 2 ^ 16
    → set_port (k0 ∷ ports_word e.sid e.did ∷ (e.saddr ++ e.daddr)) id src
      ≡ k0 ∷ ports_word id e.did ∷ (e.saddr ++ e.daddr)
unfolding set_port
set_port_src k0 id e d i = ap (λ w. k0 ∷ w ∷ (e.saddr ++ e.daddr)) (src_port e.sid e.did id d i)

set_port_dst :
    (k0 id : ℕ) (e : Ends)
    → e.sid < 2 ^ 16
    → e.did < 2 ^ 16
    → id < 2 ^ 16
    → set_port (k0 ∷ ports_word e.sid e.did ∷ (e.saddr ++ e.daddr)) id dst
      ≡ k0 ∷ ports_word e.sid id ∷ (e.saddr ++ e.daddr)
unfolding set_port
set_port_dst k0 id e s d i = ap (λ w. k0 ∷ w ∷ (e.saddr ++ e.daddr)) (dst_port e.sid e.did id s d i)

-- For a key of an address length of 4 or 16, a protocol below 256, any configurable area and ends that
-- fit, and a new address of that length and a port below 2^16, `npf_conn_adjkey` replaces the address of the end that it is
-- asked for, and its port unless the new one is zero, and nothing else: the result is the key of
-- the adjusted ends.
pub adjkey_lem :
    (alen proto ckey id : ℕ) (naddr : List ℕ) (which : Which) (e : Ends)
    → IsAlen alen
    → proto < 256
    → ckey < 2 ^ 20
    → IsEnds alen e
    → length naddr ≡ shr alen 2
    → id < 2 ^ 16
    → adjkey (with_ckey alen proto ckey e) naddr id which
      ≡ with_ckey alen proto ckey (adjusted_ends e naddr id which)
unfolding adjkey adjusted_ends
adjkey_lem alen proto ckey id naddr src e a p c h n i = ground (
  arith,
  set_address_lem alen proto ckey naddr src e a p c h n,
  set_port_src (header_word alen proto + ckey) id (record e { saddr = naddr }) h.did_fits i,
)
adjkey_lem alen proto ckey id naddr dst e a p c h n i = ground (
  arith,
  set_address_lem alen proto ckey naddr dst e a p c h n,
  set_port_dst (header_word alen proto + ckey) id (record e { daddr = naddr }) h.sid_fits h.did_fits
      i,
)

words_alen :
    (alen proto : ℕ) (rest : List ℕ)
    → IsAlen alen
    → proto < 256
    → connkey_alen (header_word alen proto ∷ rest) ≡ alen
words_alen alen proto rest (inl a) p = omega arith
words_alen alen proto rest (inr a) p = omega arith

swapped_ports :
    (a b : ℕ)
    → a < 2 ^ 16
    → b < 2 ^ 16
    → bit_or (shr (ports_word a b) 16) (shl32 (ports_word a b) 16) ≡ ports_word b a
swapped_ports a b h i =
    let high : shr (ports_word a b) 16 ≡ 0 * 2 ^ 16 + a = omega arith in
    let low : shl32 (ports_word a b) 16 ≡ b * 2 ^ 16 + 0 = omega arith in
    ap₂ bit_or high low
    ∙ omega (arith, or_fields 16 0 a b 0 h (omega arith), or_zero a a, bit_or-bitwise 0 b)

inverted_copy :
    (alen proto : ℕ) (e : Ends)
    → IsAlen alen
    → proto < 256
    → IsEnds alen e
    → (connkey_copy (key_words alen proto e) true).0
      ≡ ports_word e.sid e.did ∷ ports_word e.did e.sid ∷ (e.daddr ++ e.saddr)
unfolding connkey_copy
inverted_copy alen proto e a p h =
    let k = key_words alen proto e in
    let n = words_alen alen proto (ports_word e.sid e.did ∷ (e.saddr ++ e.daddr)) a p in
    let far =
      ap (λ m. drop (2 + shr m 2) k) n
      ∙ (ap (λ m. drop m k) {x = 2 + shr alen 2} {y = suc (suc (shr alen 2))} (omega arith)
          ∙ drop-append (shr alen 2) e.saddr e.daddr (sym h.saddr_length)) in
    let daddr =
      ap₂ (λ m t. take (shr m 2) t) n far ∙ take_all (shr alen 2) e.daddr (sym h.daddr_length) in
    let saddr =
      ap (λ m. take (shr m 2) (e.saddr ++ e.daddr)) n
      ∙ take-append (shr alen 2) e.saddr e.daddr (sym h.saddr_length) in
    ap₂ (λ w t. ports_word e.sid e.did ∷ w ∷ t) (swapped_ports e.sid e.did h.sid_fits h.did_fits)
      (ap₂ ◌++◌ daddr saddr)

plain_copy :
    (alen proto : ℕ) (e : Ends)
    → IsAlen alen
    → proto < 256
    → IsEnds alen e
    → (connkey_copy (key_words alen proto e) false).0 ≡ key_words alen proto e
unfolding connkey_copy
plain_copy alen proto e a p h =
    let n = words_alen alen proto (ports_word e.sid e.did ∷ (e.saddr ++ e.daddr)) a p in
    ap (λ m. take (shr (8 + m * 2) 2) (key_words alen proto e)) n
    ∙ take_all (shr (8 + alen * 2) 2) (key_words alen proto e)
        (four_words alen a ∙ omega (arith, length-append e.saddr e.daddr, h))
  where
    four_words : (n : ℕ) → IsAlen n → shr (8 + n * 2) 2 ≡ 2 + (shr n 2 + shr n 2)
    four_words n (inl q) = omega arith
    four_words n (inr q) = omega arith

-- For an address length of 4 or 16, a protocol below 256 and ends that fit, a plain copy of a forwards
-- key without configurable area is the key itself, and an inverted copy is the backwards key exactly
-- when the header word happens to equal the word of the ports.
pub connkey_copy_lem :
    (alen proto : ℕ) (e : Ends)
    → IsAlen alen
    → proto < 256
    → IsEnds alen e
    → ((connkey_copy (setkey alen proto e forw).0 false).0 ≡ (setkey alen proto e forw).0)
      × (((connkey_copy (setkey alen proto e forw).0 true).0 ≡ (setkey alen proto e back).0)
          ↔ (header_word alen proto ≡ ports_word e.sid e.did))
unfolding connkey_copy
connkey_copy_lem alen proto e a p h =
    let words = setkey_words alen proto e forw a p h in
    let plain =
      ap (λ k. (connkey_copy k false).0) words ∙ (plain_copy alen proto e a p h ∙ sym words) in
    let inverted = ap (λ k. (connkey_copy k true).0) words ∙ inverted_copy alen proto e a p h in
    let wanted = setkey_words alen proto e back a p h in
    (
      plain,
      (
        λ same. sym (ap (λ k. word k 0) (sym inverted ∙ (same ∙ wanted))),
        λ same.
            inverted
            ∙ (ap (λ w. w ∷ ports_word e.did e.sid ∷ (e.daddr ++ e.saddr)) (sym same) ∙ sym wanted),
      ),
    )
