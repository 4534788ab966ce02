-- ===== src/Connkey/Fields.antt =====
-- What can be read back from a key: `npf_connkey_getkey`, `npf_connkey_setckey` and
-- `npf_connkey_getckey`.
use npf.Prelude.{
  ℕ, ◌+◌, ◌-◌, ◌*◌, ◌/◌, ◌%◌, ◌^◌, ◌<◌, ◌≡◌, inl, inr, ap, ap₂, ◌∙◌, sym, arith, List, ◌∷◌, ◌++◌,
  bit_and, bit_or, shl32, shr, take, drop, length, take_all, take-append, drop-append, some,
}
use npf.Prelude.Bits.{or_apart, or_fields, or_zero, and_mask}
use npf.Packet.{forw}
use npf.Connkey.{Ends, Parts, setkey, getkey, setckey, getckey, pfil_all, word, connkey_alen}
use npf.Connkey.Layout.{IsEnds, IsAlen, header_word, ports_word, key_words, setkey_words}

-- A key with `ckey` in the low 20 bits of its header word.
abbrev pub with_ckey : ℕ → ℕ → ℕ → Ends → List ℕ
with_ckey alen proto ckey e =
    (header_word alen proto + ckey) ∷ ports_word e.sid e.did ∷ (e.saddr ++ e.daddr)

low_byte : (x : ℕ) → bit_and x 0xff ≡ x % 256
low_byte x = and_mask 8 x

low_word : (x : ℕ) → bit_and x 0xffff ≡ x % 2 ^ 16
low_word x = and_mask 16 x

daddr_words : (n : ℕ) (s d : List ℕ) → n ≡ length s → n ≡ length d → take n (drop n (s ++ d)) ≡ d
daddr_words n s d hs hd = ap (λ t. take n t) (drop-append n s d hs) ∙ take_all n d hd

pub alen_back :
    (alen proto ckey : ℕ) (rest : List ℕ)
    → IsAlen alen
    → proto < 256
    → ckey < 2 ^ 20
    → connkey_alen ((header_word alen proto + ckey) ∷ rest) ≡ alen
alen_back alen proto ckey rest (inl a) p c = omega arith
alen_back alen proto ckey rest (inr a) p c = omega arith

getkey_words :
    (alen proto ckey : ℕ) (e : Ends)
    → IsAlen alen
    → proto < 256
    → ckey < 2 ^ 20
    → IsEnds alen e
    → getkey (with_ckey alen proto ckey e)
      ≡ some (record { alen = alen; proto = (proto * 16 + ckey / 2 ^ 16) % 256; ends = e })
unfolding getkey
getkey_words alen proto ckey e a p c h =
    let w = header_word alen proto + ckey in
    ground (
      arith,
      alen_back alen proto ckey (ports_word e.sid e.did ∷ (e.saddr ++ e.daddr)) a p c,
      low_byte (shr w 16),
      low_word (ports_word e.sid e.did),
      take-append (shr alen 2) e.saddr e.daddr,
      daddr_words (shr alen 2) e.saddr e.daddr,
    )

-- The identification of interface and direction.
abbrev pub ckey_of : ℕ → ℕ → ℕ
ckey_of ifid di = di * 2 ^ 18 + ifid

or_ifid :
    (alen proto ifid : ℕ)
    → IsAlen alen
    → proto < 256
    → ifid < 2 ^ 18
    → bit_or (header_word alen proto) ifid ≡ header_word alen proto + ifid
or_ifid alen proto ifid a p i =
    let high = shr alen 2 * 2 ^ 10 + proto * 2 ^ 2 in
    ap (λ t. bit_or t ifid) {y = high * 2 ^ 18} (omega arith)
    ∙ (or_apart 18 high ifid i ∙ omega arith)

or_ckey :
    (alen proto ifid di : ℕ)
    → IsAlen alen
    → proto < 256
    → ifid < 2 ^ 18
    → di < 4
    → bit_or (header_word alen proto + ifid) (shl32 di 18)
      ≡ header_word alen proto + ckey_of ifid di
or_ckey alen proto ifid di a p i d =
    let t = shr alen 2 * 2 ^ 8 + proto in
    let left : header_word alen proto + ifid ≡ t * 2 ^ 2 * 2 ^ 18 + ifid = omega arith in
    let right : shl32 di 18 ≡ di * 2 ^ 18 + 0 = omega arith in
    ap₂ bit_or left right
    ∙ (or_fields 18 (t * 2 ^ 2) ifid di 0 i (omega arith)
        ∙ omega (arith, or_apart 2 t di d, or_zero ifid ifid))

setckey_words :
    (alen proto ifid di : ℕ) (e : Ends)
    → IsAlen alen
    → proto < 256
    → ifid < 2 ^ 18
    → di < 4
    → setckey (key_words alen proto e) ifid di ≡ with_ckey alen proto (ckey_of ifid di) e
unfolding setckey
setckey_words alen proto ifid di e a p i d =
    ground (arith, or_ifid alen proto ifid a p i, or_ckey alen proto ifid di a p i d)

-- For an address length of 4 or 16, a protocol below 256, an interface below 2^18, a direction below 4
-- and ends that fit, reading a forwards key back gives the address length and the ends as set. The
-- protocol comes back shifted: as its value times 16 plus the four top bits of the configurable area,
-- modulo 256.
pub getkey-setckey :
    (alen proto ifid di : ℕ) (e : Ends)
    → IsAlen alen
    → proto < 256
    → ifid < 2 ^ 18
    → di < 4
    → IsEnds alen e
    → getkey (setckey (setkey alen proto e forw).0 ifid di)
      ≡ some
          (record { alen = alen; proto = (proto * 16 + ckey_of ifid di / 2 ^ 16) % 256; ends = e })
getkey-setckey alen proto ifid di e a p i d h =
    ap (λ k. getkey (setckey k ifid di)) (setkey_words alen proto e forw a p h)
    ∙ (ap getkey (setckey_words alen proto ifid di e a p i d)
        ∙ getkey_words alen proto (ckey_of ifid di) e a p (omega arith) h)

-- For an address length of 4 or 16, a protocol below 256, an interface below 2^18, a direction below 4
-- and ends that fit, the direction is read back as it was set, and the interface with the direction
-- added above its 18 bits.
pub getckey-setckey :
    (alen proto ifid di : ℕ) (e : Ends)
    → IsAlen alen
    → proto < 256
    → ifid < 2 ^ 18
    → di < 4
    → IsEnds alen e
    → getckey (setckey (setkey alen proto e forw).0 ifid di) ≡ (di * 2 ^ 18 + ifid, di)
unfolding getckey
getckey-setckey alen proto ifid di e a p i d h =
    let w = header_word alen proto + ckey_of ifid di in
    let key =
      ap (λ k. setckey k ifid di) (setkey_words alen proto e forw a p h)
      ∙ setckey_words alen proto ifid di e a p i d in
    let low : bit_and w (2 ^ 20 - 1) ≡ di * 2 ^ 18 + ifid = omega (arith, and_mask 20 w) in
    let high : bit_and (shr w 18) pfil_all ≡ di = omega (arith, and_mask 2 (shr w 18)) in
    ap getckey key ∙ ap₂ (λ x y. (x, y)) low high

ckey_words :
    (alen proto ifid di : ℕ) (e : Ends)
    → IsAlen alen
    → proto < 256
    → ifid < 2 ^ 18
    → di < 4
    → IsEnds alen e
    → setckey (setkey alen proto e forw).0 ifid di ≡ with_ckey alen proto (ckey_of ifid di) e
ckey_words alen proto ifid di e a p i d h =
    ap (λ k. setckey k ifid di) (setkey_words alen proto e forw a p h)
    ∙ setckey_words alen proto ifid di e a p i d

same_parts : {r s : Parts} → some r ≡ some s → r.ends ≡ s.ends
same_parts q = ap (λ (t : Parts). t.ends) (same_some q)
  where
    same_some : {r s : Parts} → some r ≡ some s → r ≡ s
    same_some q = cc

header_alen :
    (n n' p p' c c' : ℕ)
    → IsAlen n
    → IsAlen n'
    → p < 256
    → p' < 256
    → c < 2 ^ 20
    → c' < 2 ^ 20
    → header_word n p + c ≡ header_word n' p' + c'
    → n ≡ n'
header_alen n n' p p' c c' a a' hp hp' hc hc' same = omega arith

header_proto :
    (n n' p p' c c' : ℕ)
    → IsAlen n
    → IsAlen n'
    → p < 256
    → p' < 256
    → c < 2 ^ 20
    → c' < 2 ^ 20
    → header_word n p + c ≡ header_word n' p' + c'
    → p ≡ p'
header_proto n n' p p' c c' a a' hp hp' hc hc' same = omega arith

header_ckey :
    (n n' p p' c c' : ℕ)
    → IsAlen n
    → IsAlen n'
    → p < 256
    → p' < 256
    → c < 2 ^ 20
    → c' < 2 ^ 20
    → header_word n p + c ≡ header_word n' p' + c'
    → c ≡ c'
header_ckey n n' p p' c c' a a' hp hp' hc hc' same = omega arith

-- For address lengths of 4 or 16, protocols below 256, interfaces below 2^18, directions below 4 and
-- ends that fit, two equal forwards keys have the same address length, protocol, interface, direction
-- and ends.
pub setkey-injective :
    (alen alen' proto proto' ifid ifid' di di' : ℕ) (e e' : Ends)
    → IsAlen alen
    → IsAlen alen'
    → proto < 256
    → proto' < 256
    → ifid < 2 ^ 18
    → ifid' < 2 ^ 18
    → di < 4
    → di' < 4
    → IsEnds alen e
    → IsEnds alen' e'
    → setckey (setkey alen proto e forw).0 ifid di
      ≡ setckey (setkey alen' proto' e' forw).0 ifid' di'
    → (alen ≡ alen') × (proto ≡ proto') × (ifid ≡ ifid') × (di ≡ di') × (e ≡ e')
setkey-injective alen alen' proto proto' ifid ifid' di di' e e' a a' p p' i i' d d' h h' same =
    let words = ckey_words alen proto ifid di e a p i d h in
    let words' = ckey_words alen' proto' ifid' di' e' a' p' i' d' h' in
    let headers = ap (λ k. word k 0) (sym words ∙ (same ∙ words')) in
    let read = getkey-setckey alen proto ifid di e a p i d h in
    let read' = getkey-setckey alen' proto' ifid' di' e' a' p' i' d' h' in
    let ends = same_parts (sym read ∙ (ap getkey same ∙ read')) in
    (
      header_alen alen alen' proto proto' (ckey_of ifid di) (ckey_of ifid' di') a a' (omega arith)
          (omega arith) (omega arith) (omega arith) headers,
      header_proto alen alen' proto proto' (ckey_of ifid di) (ckey_of ifid' di') a a' (omega arith)
          (omega arith) (omega arith) (omega arith) headers,
      omega (
        arith,
        header_ckey alen alen' proto proto' (ckey_of ifid di) (ckey_of ifid' di') a a' (omega arith)
            (omega arith) (omega arith) (omega arith) headers,
      ),
      omega (
        arith,
        header_ckey alen alen' proto proto' (ckey_of ifid di) (ckey_of ifid' di') a a' (omega arith)
            (omega arith) (omega arith) (omega arith) headers,
      ),
      ends,
    )
