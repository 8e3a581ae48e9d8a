-- ===== src/Base/Bits.antt =====
-- The bit operations digit by digit: `bit k n` is digit `k` of `n`, and numbers with the same
-- digits are equal. Laws of `bit_and` and `bit_or` follow by looking at one digit.
use Prim.Native.Nat.{ℕ, zero, suc, ◌+◌, ◌*◌, ◌/◌, ◌%◌, ◌^◌, ◌≤◌, ◌<◌, min, max}
use Prim.Native.Nat.{bit_and, bit_or, digits, bit_and-bitwise, bit_or-bitwise}
use mathlib.Core.Path.{◌≡◌, refl, ◌∙◌, ap}
use mathlib.Core.Logic.{◌≢◌}
use native.Mathlib.Omega.{arith}
use native.Mathlib.Nat.{pow-suc}

unfoldable pub bit : ℕ → ℕ → ℕ
bit zero n = n % 2
bit (suc k) n = bit k (n / 2)

-- Any two bounds on the digits to go give the same result.
module _ (last : ℕ → ℕ) (op : ℕ → ℕ → ℕ) where
  same_digits : (m n a b : ℕ) → a ≤ m → a ≤ n → digits last op m a b ≡ digits last op n a b
  same_digits zero zero a b h k = refl
  same_digits (suc m) zero zero b h k = refl
  same_digits zero (suc n) zero b h k = refl
  same_digits (suc m) (suc n) zero b h k = refl
  same_digits zero n (suc a) b h k = absurd (omega arith)
  same_digits (suc m) zero (suc a) b h k = absurd (omega arith)
  same_digits (suc m) (suc n) (suc a) b h k =
      ap (λ (t : ℕ). t * 2 + op (suc a % 2) (b % 2))
        (same_digits m n (suc a / 2) (b / 2) (omega arith) (omega arith))

pub bit_and_low : (a b : ℕ) → bit_and a b ≡ bit_and (a / 2) (b / 2) * 2 + min (a % 2) (b % 2)
bit_and_low zero b = omega (arith, bit_and-bitwise 0 b, bit_and-bitwise 0 (b / 2))
bit_and_low (suc a) b = omega (
  arith,
  bit_and-bitwise (suc a) b,
  bit_and-bitwise (suc a / 2) (b / 2),
  same_digits (λ y. 0) min a (suc a / 2) (suc a / 2) (b / 2) (omega arith) (omega arith),
)

pub bit_or_low : (a b : ℕ) → bit_or a b ≡ bit_or (a / 2) (b / 2) * 2 + max (a % 2) (b % 2)
bit_or_low zero b = omega (arith, bit_or-bitwise 0 b, bit_or-bitwise 0 (b / 2))
bit_or_low (suc a) b = omega (
  arith,
  bit_or-bitwise (suc a) b,
  bit_or-bitwise (suc a / 2) (b / 2),
  same_digits (λ y. y) max a (suc a / 2) (suc a / 2) (b / 2) (omega arith) (omega arith),
)

bit_and_half : (a b : ℕ) → bit_and a b / 2 ≡ bit_and (a / 2) (b / 2)
bit_and_half a b = omega (arith, bit_and_low a b)

bit_or_half : (a b : ℕ) → bit_or a b / 2 ≡ bit_or (a / 2) (b / 2)
bit_or_half a b = omega (arith, bit_or_low a b)

pub bit-lt : (k n : ℕ) → bit k n < 2
unfolding bit
bit-lt zero n = omega arith
bit-lt (suc k) n = bit-lt k (n / 2)

pub bit-bit_and : (k a b : ℕ) → bit k (bit_and a b) ≡ min (bit k a) (bit k b)
unfolding bit
bit-bit_and zero a b = omega (arith, bit_and_low a b)
bit-bit_and (suc k) a b = ap (bit k) (bit_and_half a b) ∙ bit-bit_and k (a / 2) (b / 2)

pub bit-bit_or : (k a b : ℕ) → bit k (bit_or a b) ≡ max (bit k a) (bit k b)
unfolding bit
bit-bit_or zero a b = omega (arith, bit_or_low a b)
bit-bit_or (suc k) a b = ap (bit k) (bit_or_half a b) ∙ bit-bit_or k (a / 2) (b / 2)

-- Extensionality, over the digits below a width.
pub bit_ext : (w a b : ℕ) → a < 2 ^ w → b < 2 ^ w → ((k : ℕ) → k < w → bit k a ≡ bit k b) → a ≡ b
unfolding bit
bit_ext zero a b ha hb h = omega arith
bit_ext (suc w) a b ha hb h = omega (
  arith,
  h 0 (omega arith),
  bit_ext w (a / 2) (b / 2) (omega (arith, pow-suc 2 w)) (omega (arith, pow-suc 2 w))
      (λ k hk. h (suc k) (omega arith)),
)

pub bit_or-lt : (w a b : ℕ) → a < 2 ^ w → b < 2 ^ w → bit_or a b < 2 ^ w
bit_or-lt zero zero zero ha hb = omega arith
bit_or-lt zero zero (suc b) ha hb = absurd (omega arith)
bit_or-lt zero (suc a) b ha hb = absurd (omega arith)
bit_or-lt (suc w) a b ha hb = omega (
  arith,
  bit_or_low a b,
  pow-suc 2 w,
  bit_or-lt w (a / 2) (b / 2) (omega (arith, pow-suc 2 w)) (omega (arith, pow-suc 2 w)),
)

bit_and-zero_upto : (n a : ℕ) → a ≤ n → bit_and a 0 ≡ 0
bit_and-zero_upto n zero h = refl
bit_and-zero_upto zero (suc a) h = absurd (omega arith)
bit_and-zero_upto (suc n) (suc a) h =
    omega (arith, bit_and_low (suc a) 0, bit_and-zero_upto n (suc a / 2) (omega arith))

pub bit_and-zero : (a : ℕ) → bit_and a 0 ≡ 0
bit_and-zero a = bit_and-zero_upto a a (omega arith)

pub bit_and-le : (w a b : ℕ) → b < 2 ^ w → bit_and a b ≤ b
bit_and-le zero a zero h = omega (arith, bit_and-zero a)
bit_and-le zero a (suc b) h = absurd (omega arith)
bit_and-le (suc w) a b h =
    omega (arith, bit_and_low a b, bit_and-le w (a / 2) (b / 2) (omega (arith, pow-suc 2 w)))

half_pow : (j : ℕ) → 2 ^ suc j / 2 ≡ 2 ^ j
half_pow j = omega (arith, pow-suc 2 j)

-- The test of one flag.
pub bit_and-pow : (k a : ℕ) → bit_and a (2 ^ k) ≡ bit k a * 2 ^ k
unfolding bit
bit_and-pow zero a = omega (arith, bit_and_low a 1, bit_and-zero (a / 2))
bit_and-pow (suc k) a = omega (
  arith,
  bit_and_low a (2 ^ suc k),
  pow-suc 2 k,
  ap (λ (t : ℕ). bit k (a / 2) * t) (pow-suc 2 k),
  ap (bit_and (a / 2)) (half_pow k),
  bit_and-pow k (a / 2),
)

-- A flag that is set, and setting another one.
pub flag_set : (k a b : ℕ) → bit_and a (2 ^ k) ≢ 0 → bit_and (bit_or a b) (2 ^ k) ≢ 0
flag_set k a b h e =
    let le : bit k a ≤ bit k (bit_or a b) = omega (arith, bit-bit_or k a b) in
    let grows : bit k a * 2 ^ k ≤ bit k (bit_or a b) * 2 ^ k = mul_mono _ _ (2 ^ k) le in
    h (omega (arith, grows, bit_and-pow k a, bit_and-pow k (bit_or a b)))
  where
    mul_mono : (x y p : ℕ) → x ≤ y → x * p ≤ y * p
    mul_mono x y p h = grind arith

bit_and_self_upto : (n a : ℕ) → a ≤ n → bit_and a a ≡ a
bit_and_self_upto n zero h = refl
bit_and_self_upto zero (suc a) h = absurd (omega arith)
bit_and_self_upto (suc n) (suc a) h =
    omega (arith, bit_and_low (suc a) (suc a), bit_and_self_upto n (suc a / 2) (omega arith))

pub bit_and_self : (a : ℕ) → bit_and a a ≡ a
bit_and_self a = bit_and_self_upto a a (omega arith)
