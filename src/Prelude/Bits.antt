-- ===== src/Prelude/Bits.antt =====
-- The bit operations at variables: one digit at a time, on fields that do not overlap, and under a
-- mask of low ones.
use Prim.Native.Nat.{
  ℕ, zero, suc, ◌+◌, ◌-◌, ◌*◌, ◌/◌, ◌%◌, ◌^◌, ◌≤◌, ◌<◌, min, max, bit_and, bit_or, bit_xor, differ,
  digits, bitwise, bit_and-bitwise, bit_or-bitwise, bit_xor-bitwise,
}
use mathlib.Core.Path.{◌≡◌, refl, ◌∙◌, ap, ap₂}
use native.Mathlib.Nat.{pow-suc, one-le-pow, mod-lt, div-add-mod'}
use native.Mathlib.Omega.{arith}

module _ (rest : ℕ → ℕ) (op : ℕ → ℕ → ℕ) where
  -- The fuel of the library's recursion does not matter, once it covers the first number.
  enough :
      (a b fuel more : ℕ)
      → a ≤ fuel
      → fuel ≤ more
      → digits rest op more a b ≡ digits rest op fuel a b
  enough zero b zero zero h k = refl
  enough zero b zero (suc more) h k = refl
  enough zero b (suc fuel) zero h k = refl
  enough zero b (suc fuel) (suc more) h k = refl
  enough (suc a) b zero more h k = absurd (omega arith)
  enough (suc a) b (suc fuel) zero h k = absurd (omega arith)
  enough (suc a) b (suc fuel) (suc more) h k =
      ap (λ t. t * 2 + op (suc a % 2) (b % 2))
        (enough (suc a / 2) (b / 2) fuel more (omega arith) (omega arith))

  digit :
      (a b : ℕ)
      → bitwise rest op (suc a) b ≡ bitwise rest op (suc a / 2) (b / 2) * 2 + op (suc a % 2) (b % 2)
  digit a b =
      ap (λ t. t * 2 + op (suc a % 2) (b % 2))
        (enough (suc a / 2) (b / 2) (suc a / 2) a (omega arith) (omega arith))

pub and_digit : (a b : ℕ) → bit_and a b ≡ bit_and (a / 2) (b / 2) * 2 + min (a % 2) (b % 2)
and_digit zero b = omega (arith, bit_and-bitwise 0 b, bit_and-bitwise 0 (b / 2))
and_digit (suc a) b =
    omega (
      arith,
      bit_and-bitwise (suc a) b,
      bit_and-bitwise (suc a / 2) (b / 2),
      digit (λ _. 0) min a b,
    )

pub or_digit : (a b : ℕ) → bit_or a b ≡ bit_or (a / 2) (b / 2) * 2 + max (a % 2) (b % 2)
or_digit zero b = omega (arith, bit_or-bitwise 0 b, bit_or-bitwise 0 (b / 2))
or_digit (suc a) b =
    omega
      (arith, bit_or-bitwise (suc a) b, bit_or-bitwise (suc a / 2) (b / 2), digit (λ y. y) max a b)

pub xor_digit : (a b : ℕ) → bit_xor a b ≡ bit_xor (a / 2) (b / 2) * 2 + differ (a % 2) (b % 2)
xor_digit zero b = omega (arith, bit_xor-bitwise 0 b, bit_xor-bitwise 0 (b / 2))
xor_digit (suc a) b = omega (
  arith,
  bit_xor-bitwise (suc a) b,
  bit_xor-bitwise (suc a / 2) (b / 2),
  digit (λ y. y) differ a b,
)

pub and_zero : (n a : ℕ) → a ≤ n → bit_and a 0 ≡ 0
and_zero n zero h = refl
and_zero zero (suc a) h = absurd (omega arith)
and_zero (suc n) (suc a) h =
    omega (arith, and_digit (suc a) 0, and_zero n (suc a / 2) (omega arith))

pub or_zero : (n a : ℕ) → a ≤ n → bit_or a 0 ≡ a
or_zero n zero h = refl
or_zero zero (suc a) h = absurd (omega arith)
or_zero (suc n) (suc a) h = omega (arith, or_digit (suc a) 0, or_zero n (suc a / 2) (omega arith))

twice_pow : (k a : ℕ) → a * 2 ^ suc k ≡ 2 * (a * 2 ^ k)
twice_pow k a = ap (λ (t : ℕ). a * t) (pow-suc 2 k) ∙ omega arith

half_shift : (k a : ℕ) → (a * 2 ^ suc k) / 2 ≡ a * 2 ^ k
half_shift k a = omega (arith, twice_pow k a)

-- Numbers whose ones lie apart: the upper one is a multiple of 2 ^ k, the lower one is below it.
pub or_apart : (k a b : ℕ) → b < 2 ^ k → bit_or (a * 2 ^ k) b ≡ a * 2 ^ k + b
or_apart zero a b h = ground (arith, or_zero a a)
or_apart (suc k) a b h = omega (
  arith,
  or_digit (a * 2 ^ suc k) b,
  twice_pow k a,
  pow-suc 2 k,
  ap (λ t. bit_or t (b / 2)) (half_shift k a),
  or_apart k a (b / 2) (omega (arith, pow-suc 2 k)),
)

low_half : (k a b : ℕ) → (a * 2 ^ suc k + b) / 2 ≡ a * 2 ^ k + b / 2
low_half k a b = omega (arith, twice_pow k a)

mask_half : (k : ℕ) → (2 ^ suc k - 1) / 2 ≡ 2 ^ k - 1
mask_half k = omega (arith, pow-suc 2 k)

-- A mask of k low ones keeps the remainder by 2 ^ k.
pub and_low : (k a b : ℕ) → b < 2 ^ k → bit_and (a * 2 ^ k + b) (2 ^ k - 1) ≡ b
and_low zero a b h = omega (arith, and_zero (a * 1 + b) (a * 1 + b))
and_low (suc k) a b h = omega (
  arith,
  and_digit (a * 2 ^ suc k + b) (2 ^ suc k - 1),
  twice_pow k a,
  pow-suc 2 k,
  one-le-pow k 2,
  ap₂ bit_and (low_half k a b) (mask_half k),
  and_low k a (b / 2) (omega (arith, pow-suc 2 k)),
)

pub and_mask : (k a : ℕ) → bit_and a (2 ^ k - 1) ≡ a % 2 ^ k
and_mask k a = omega (
  arith,
  and_low k (a / 2 ^ k) (a % 2 ^ k) (mod-lt a (one-le-pow k 2 (omega arith))),
  ap (λ t. bit_and t (2 ^ k - 1)) (div-add-mod' a (2 ^ k)),
)

whole : (a : ℕ) → a * 1 + 0 ≡ a
whole a = omega arith

odd_part : (k a b : ℕ) → (a * 2 ^ suc k + b) % 2 ≡ b % 2
odd_part k a b = omega (arith, twice_pow k a)

-- The operations work on the fields of two words apart.
pub or_fields :
    (k a b c d : ℕ)
    → b < 2 ^ k
    → d < 2 ^ k
    → bit_or (a * 2 ^ k + b) (c * 2 ^ k + d) ≡ bit_or a c * 2 ^ k + bit_or b d
or_fields zero a b c d h i =
    let none_left : b ≡ 0 = omega arith in
    let none_right : d ≡ 0 = omega arith in
    rw (none_left, none_right) (omega (arith, ap₂ bit_or (whole a) (whole c)))
or_fields (suc k) a b c d h i = omega (
  arith,
  or_digit (a * 2 ^ suc k + b) (c * 2 ^ suc k + d),
  or_digit b d,
  twice_pow k a,
  twice_pow k c,
  twice_pow k (bit_or a c),
  pow-suc 2 k,
  ap₂ bit_or (low_half k a b) (low_half k c d),
  or_fields k a (b / 2) c (d / 2) (omega (arith, pow-suc 2 k)) (omega (arith, pow-suc 2 k)),
  ap₂ max (odd_part k a b) (odd_part k c d),
)

pub and_fields :
    (k a b c d : ℕ)
    → b < 2 ^ k
    → d < 2 ^ k
    → bit_and (a * 2 ^ k + b) (c * 2 ^ k + d) ≡ bit_and a c * 2 ^ k + bit_and b d
and_fields zero a b c d h i =
    let none_left : b ≡ 0 = omega arith in
    let none_right : d ≡ 0 = omega arith in
    rw (none_left, none_right) (omega (arith, ap₂ bit_and (whole a) (whole c)))
and_fields (suc k) a b c d h i = omega (
  arith,
  and_digit (a * 2 ^ suc k + b) (c * 2 ^ suc k + d),
  and_digit b d,
  twice_pow k a,
  twice_pow k c,
  twice_pow k (bit_and a c),
  pow-suc 2 k,
  ap₂ bit_and (low_half k a b) (low_half k c d),
  and_fields k a (b / 2) c (d / 2) (omega (arith, pow-suc 2 k)) (omega (arith, pow-suc 2 k)),
  ap₂ min (odd_part k a b) (odd_part k c d),
)

pub xor_fields :
    (k a b c d : ℕ)
    → b < 2 ^ k
    → d < 2 ^ k
    → bit_xor (a * 2 ^ k + b) (c * 2 ^ k + d) ≡ bit_xor a c * 2 ^ k + bit_xor b d
xor_fields zero a b c d h i =
    let none_left : b ≡ 0 = omega arith in
    let none_right : d ≡ 0 = omega arith in
    rw (none_left, none_right) (omega (arith, ap₂ bit_xor (whole a) (whole c)))
xor_fields (suc k) a b c d h i = omega (
  arith,
  xor_digit (a * 2 ^ suc k + b) (c * 2 ^ suc k + d),
  xor_digit b d,
  twice_pow k a,
  twice_pow k c,
  twice_pow k (bit_xor a c),
  pow-suc 2 k,
  ap₂ bit_xor (low_half k a b) (low_half k c d),
  xor_fields k a (b / 2) c (d / 2) (omega (arith, pow-suc 2 k)) (omega (arith, pow-suc 2 k)),
  ap₂ differ (odd_part k a b) (odd_part k c d),
)

-- A field of a packed word, given what lies above and below it.
pub shr_fields : (k a b : ℕ) → b < 2 ^ k → (a * 2 ^ k + b) / 2 ^ k ≡ a
shr_fields k a b h = grind (arith, one-le-pow k 2)

-- Two bits differ when their sum is odd.
pub differ_bits : (a b : ℕ) → a < 2 → b < 2 → differ a b ≡ (a + b) % 2
differ_bits zero b h k = omega arith
differ_bits (suc zero) zero h k = refl
differ_bits (suc zero) (suc zero) h k = refl
differ_bits (suc zero) (suc (suc b)) h k = absurd (omega arith)
differ_bits (suc (suc a)) b h k = absurd (omega arith)

pub xor_lt : (k a b : ℕ) → a < 2 ^ k → b < 2 ^ k → bit_xor a b < 2 ^ k
xor_lt zero zero zero h i = omega arith
xor_lt zero zero (suc b) h i = absurd (omega arith)
xor_lt zero (suc a) b h i = absurd (omega arith)
xor_lt (suc k) a b h i = omega (
  arith,
  xor_digit a b,
  pow-suc 2 k,
  differ_bits (a % 2) (b % 2) (omega arith) (omega arith),
  xor_lt k (a / 2) (b / 2) (omega (arith, pow-suc 2 k)) (omega (arith, pow-suc 2 k)),
)

-- Equal numbers cancel, and only they do.
pub xor_self : (n a : ℕ) → a ≤ n → bit_xor a a ≡ 0
xor_self n zero h = refl
xor_self zero (suc a) h = absurd (omega arith)
xor_self (suc n) (suc a) h = omega (
  arith,
  xor_digit (suc a) (suc a),
  differ_bits (suc a % 2) (suc a % 2) (omega arith) (omega arith),
  xor_self n (suc a / 2) (omega arith),
)

pub xor_zero_eq : (k a b : ℕ) → a < 2 ^ k → b < 2 ^ k → bit_xor a b ≡ 0 → a ≡ b
xor_zero_eq zero a b h i e = omega arith
xor_zero_eq (suc k) a b h i e =
    let bits = differ_bits (a % 2) (b % 2) (omega arith) (omega arith) in
    let high : bit_xor (a / 2) (b / 2) ≡ 0 = omega (arith, xor_digit a b) in
    omega (
      arith,
      xor_digit a b,
      bits,
      xor_zero_eq k (a / 2) (b / 2) (omega (arith, pow-suc 2 k)) (omega (arith, pow-suc 2 k)) high,
    )

-- A mask that is applied twice acts once.
pub and_again : (n a m : ℕ) → a ≤ n → bit_and (bit_and a m) m ≡ bit_and a m
and_again n zero m h =
    let nought : bit_and 0 m ≡ 0 = omega (arith, bit_and-bitwise 0 m) in
    ap (λ t. bit_and t m) nought
and_again zero (suc a) m h = absurd (omega arith)
and_again (suc n) (suc a) m h =
    let x = bit_and (suc a) m in
    let half : x / 2 ≡ bit_and (suc a / 2) (m / 2) = omega (arith, and_digit (suc a) m) in
    omega (
      arith,
      and_digit x m,
      and_digit (suc a) m,
      ap (λ t. bit_and t (m / 2)) half,
      and_again n (suc a / 2) (m / 2) (omega arith),
    )
