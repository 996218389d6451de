-- ===== src/Common/Bits.antt =====
-- The operators `&`, `|` and `^` of the source as arithmetic, where one side is a mask or the two
-- sides share no bit.
use Prim.Native.Nat.{ℕ, zero, suc, ◌+◌, ◌-◌, ◌*◌, ◌/◌, ◌%◌, ◌^◌, ◌<◌, ◌≤◌, min, max, differ}
use Prim.Native.Nat.{bit_and, bit_or, bit_xor, digits, bitwise}
use Prim.Native.Nat.{bit_xor-bitwise, bit_or-bitwise, bit_and-bitwise}
use mathlib.Core.Path.{◌≡◌, refl, ap}
use mathlib.Core.Bool.{Bool, true, ◌&&◌}
use native.Mathlib.Omega.{arith}
use native.Mathlib.Nat.{pow-suc, one-le-pow}

-- The count of digits to go does not matter once it covers the first number.
module _ (z : ℕ → ℕ) (f : ℕ → ℕ → ℕ) where
  digits-eq : (n k a b : ℕ) → a ≤ n → a ≤ k → digits z f n a b ≡ digits z f k a b
  digits-eq n k zero b hn hk = rw (out n, out k)
    where
      out : (i : ℕ) → digits z f i zero b ≡ z b
      out zero = refl
      out (suc i) = refl
  digits-eq zero k (suc a) b hn hk = absurd (omega arith)
  digits-eq (suc n) zero (suc a) b hn hk = absurd (omega arith)
  digits-eq (suc n) (suc k) (suc a) b hn hk =
      ap (λ t. t * 2 + f (suc a % 2) (b % 2))
        (digits-eq n k (suc a / 2) (b / 2) (omega arith) (omega arith))

  lowest_digit :
      (a b : ℕ)
      → bitwise z f (suc a) b ≡ bitwise z f (suc a / 2) (b / 2) * 2 + f (suc a % 2) (b % 2)
  lowest_digit a b =
      ap (λ t. t * 2 + f (suc a % 2) (b % 2))
        (digits-eq a (suc a / 2) (suc a / 2) (b / 2) (omega arith) (omega arith))

pub bit_and_digit : (a b : ℕ) → bit_and a b ≡ bit_and (a / 2) (b / 2) * 2 + min (a % 2) (b % 2)
bit_and_digit zero b = simp bit_and-bitwise (omega arith)
bit_and_digit (suc a) b = simp bit_and-bitwise (lowest_digit (λ _. 0) min a b)

pub bit_or_digit : (a b : ℕ) → bit_or a b ≡ bit_or (a / 2) (b / 2) * 2 + max (a % 2) (b % 2)
bit_or_digit zero b = simp bit_or-bitwise (omega arith)
bit_or_digit (suc a) b = simp bit_or-bitwise (lowest_digit (λ y. y) max a b)

zero-differ : (b : ℕ) → b ≡ b / 2 * 2 + differ (0 % 2) (b % 2)
zero-differ b = omega arith

pub bit_xor_digit : (a b : ℕ) → bit_xor a b ≡ bit_xor (a / 2) (b / 2) * 2 + differ (a % 2) (b % 2)
bit_xor_digit zero b = simp bit_xor-bitwise (zero-differ b)
bit_xor_digit (suc a) b = simp bit_xor-bitwise (lowest_digit (λ y. y) differ a b)

-- With nothing on one side, by recursion on a bound of the other.
bit_and_none : (n a : ℕ) → a ≤ n → bit_and a 0 ≡ 0
bit_and_none n zero h = bit_and-bitwise 0 0
bit_and_none zero (suc a) h = absurd (omega arith)
bit_and_none (suc n) (suc a) h =
    omega (arith, bit_and_digit (suc a) 0, bit_and_none n (suc a / 2) (omega arith))

bit_or_none : (n a : ℕ) → a ≤ n → bit_or a 0 ≡ a
bit_or_none n zero h = bit_or-bitwise 0 0
bit_or_none zero (suc a) h = absurd (omega arith)
bit_or_none (suc n) (suc a) h =
    omega (arith, bit_or_digit (suc a) 0, bit_or_none n (suc a / 2) (omega arith))

differ-zero : (d : ℕ) → differ d 0 ≡ d
differ-zero zero = refl
differ-zero (suc d) = refl

bit_xor_none : (n a : ℕ) → a ≤ n → bit_xor a 0 ≡ a
bit_xor_none n zero h = bit_xor-bitwise 0 0
bit_xor_none zero (suc a) h = absurd (omega arith)
bit_xor_none (suc n) (suc a) h = omega (
  arith,
  bit_xor_digit (suc a) 0,
  differ-zero (suc a % 2),
  bit_xor_none n (suc a / 2) (omega arith),
)

pub bit_xor-zero : (a : ℕ) → bit_xor a 0 ≡ a
bit_xor-zero a = bit_xor_none a a (omega arith)

pub bit_or-zero : (a : ℕ) → bit_or a 0 ≡ a
bit_or-zero a = bit_or_none a a (omega arith)

-- The digit above the lowest in a number that ends in `k + 1` zeros.
double_pow : (k q : ℕ) → q * 2 ^ suc k ≡ q * 2 ^ k * 2
double_pow k q = omega (arith, ap (λ (t : ℕ). q * t) (pow-suc 2 k))

low_part : (k q r : ℕ) → r < 2 ^ k → bit_and (q * 2 ^ k + r) (2 ^ k - 1) ≡ r
low_part zero q r h = omega (arith, bit_and_none (q * 1 + r) (q * 1 + r) (omega arith))
low_part (suc k) q r h = ground (
  arith,
  double_pow k q,
  pow-suc 2 k,
  bit_and_digit (q * 2 ^ suc k + r) (2 ^ suc k - 1),
  low_part k q (r / 2) (omega (arith, pow-suc 2 k)),
)

-- A mask of `k` ones is the remainder by `2 ^ k`.
pub bit_and-ones : (k a : ℕ) → bit_and a (2 ^ k - 1) ≡ a % 2 ^ k
bit_and-ones k a = ground (arith, one-le-pow k 2, low_part k (a / 2 ^ k) (a % 2 ^ k))

-- `|` of numbers that share no bit is their sum.
pub bit_or-low_high : (k q r : ℕ) → r < 2 ^ k → bit_or r (q * 2 ^ k) ≡ r + q * 2 ^ k
bit_or-low_high zero q zero h = omega (arith, bit_or-bitwise 0 (q * 1))
bit_or-low_high zero q (suc r) h = absurd (omega arith)
bit_or-low_high (suc k) q r h = ground (
  arith,
  double_pow k q,
  bit_or_digit r (q * 2 ^ suc k),
  bit_or-low_high k q (r / 2) (omega (arith, pow-suc 2 k)),
)

pub bit_or-high_low : (k q r : ℕ) → r < 2 ^ k → bit_or (q * 2 ^ k) r ≡ q * 2 ^ k + r
bit_or-high_low zero q zero h = omega (arith, bit_or-zero (q * 1))
bit_or-high_low zero q (suc r) h = absurd (omega arith)
bit_or-high_low (suc k) q r h = ground (
  arith,
  double_pow k q,
  bit_or_digit (q * 2 ^ suc k) r,
  bit_or-high_low k q (r / 2) (omega (arith, pow-suc 2 k)),
)

differ-one : (d : ℕ) → d < 2 → differ d 1 ≡ 1 - d
differ-one zero h = refl
differ-one (suc zero) h = refl
differ-one (suc (suc d)) h = absurd (omega arith)

-- `^` with a mask of `k` ones flips all the bits.
pub bit_xor-ones : (k a : ℕ) → a < 2 ^ k → bit_xor a (2 ^ k - 1) ≡ 2 ^ k - 1 - a
bit_xor-ones zero a h = omega (arith, bit_xor-zero a)
bit_xor-ones (suc k) a h = omega (
  arith,
  pow-suc 2 k,
  differ-one (a % 2) (omega arith),
  bit_xor_digit a (2 ^ suc k - 1),
  ap (λ (t : ℕ). differ (a % 2) t) odd,
  bit_xor-ones k (a / 2) (omega (arith, pow-suc 2 k)),
  ap (λ (t : ℕ). bit_xor (a / 2) t) half,
)
  where
    half : (2 ^ suc k - 1) / 2 ≡ 2 ^ k - 1
    half = omega (arith, pow-suc 2 k, one-le-pow k 2 (omega arith))

    odd : (2 ^ suc k - 1) % 2 ≡ 1
    odd = omega (arith, pow-suc 2 k, one-le-pow k 2 (omega arith))

-- Over a small range, check every value by evaluation.
unfoldable pub below : ℕ → (ℕ → Bool) → Bool
below zero p = true
below (suc n) p = p n && below n p

pub below→ : (n : ℕ) (p : ℕ → Bool) (x : ℕ) → below n p ≡ true → x < n → p x ≡ true
unfolding below
below→ zero p x h lt = absurd (omega arith)
below→ (suc n) p x h lt = ground (arith, below→ n p x)
