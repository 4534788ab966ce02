-- ===== src/Inet/Address.antt =====
-- Masked addresses: a mask acts once, and the comparison is equality of the masked addresses.
use Prim.Native.Nat.{Ordering}
use npf.Prelude.{ℕ, ◌≡◌, ◌↔◌, refl, ap, ap₂, arith, List, [], ◌∷◌, length, suc}
use npf.Prelude.Bits.{and_again}
use npf.Inet.{addr_mask, wordmask, length_left, compare_words, addr_cmp, maybe_mask}

-- Masking a masked address changes nothing.
pub addr_mask-addr_mask :
    (addr : List ℕ) (mask : ℕ) → addr_mask (addr_mask addr mask) mask ≡ addr_mask addr mask
unfolding addr_mask
addr_mask-addr_mask [] mask = refl
addr_mask-addr_mask (w ∷ rest) mask =
    ap₂ (λ x y. x ∷ y) (and_again w w (wordmask mask) (omega arith))
      (addr_mask-addr_mask rest (length_left mask))

length-addr_mask : (addr : List ℕ) (mask : ℕ) → length (addr_mask addr mask) ≡ length addr
unfolding addr_mask
length-addr_mask [] mask = refl
length-addr_mask (w ∷ rest) mask = ap suc (length-addr_mask rest (length_left mask))

compare_words_iff :
    (a b : List ℕ) → length a ≡ length b → (compare_words a b ≡ Ordering.eq) ↔ (a ≡ b)
unfolding compare_words
compare_words_iff [] [] h = ((λ e. refl), λ e. refl)
compare_words_iff [] (y ∷ b) h = absurd (omega arith)
compare_words_iff (x ∷ a) [] h = absurd (omega arith)
compare_words_iff (x ∷ a) (y ∷ b) h = ground (arith, compare_words_iff a b)

length-maybe_mask : (addr : List ℕ) (mask : ℕ) → length (maybe_mask addr mask) ≡ length addr
length-maybe_mask addr mask = ground (arith, length-addr_mask addr mask)

-- Two addresses of the same length compare as equal exactly when they are equal after their masks, of
-- which 255 stands for none.
pub addr_cmp_iff :
    (a b : List ℕ) (m n : ℕ)
    → length a ≡ length b
    → (addr_cmp a m b n ≡ Ordering.eq) ↔ (maybe_mask a m ≡ maybe_mask b n)
unfolding addr_cmp
addr_cmp_iff a b m n h =
    compare_words_iff (maybe_mask a m) (maybe_mask b n)
      (omega (arith, length-maybe_mask a m, length-maybe_mask b n))
