-- ===== src/Common/Bits.antt =====
-- Facts about `bit_and` and `bit_or` at variables, by the binary digits of their results.
use Prim.Native.Nat.{
  ℕ, zero, suc, ◌+◌, ◌*◌, ◌/◌, ◌%◌, ◌≤◌, min, max, bit_and, bit_or, digits, bitwise,
  bit_and-bitwise, bit_or-bitwise,
}
use mathlib.Core.Path.{◌≡◌, refl}
use mathlib.Core.Logic.{◌≢◌}
use native.Mathlib.Decide.{ℕ_discrete}
use native.Mathlib.Omega.{arith}

-- `bitwise`, for what it does at 0 and on each pair of digits.
module _ (at_zero : ℕ → ℕ) (op : ℕ → ℕ → ℕ) where
  -- More rounds than the first number needs make no difference.
  rounds : (j k a b : ℕ) → a ≤ j → a ≤ k → digits at_zero op j a b ≡ digits at_zero op k a b
  rounds zero zero zero b hj hk = refl
  rounds zero (suc k) zero b hj hk = refl
  rounds (suc j) zero zero b hj hk = refl
  rounds (suc j) (suc k) zero b hj hk = refl
  rounds (suc j) (suc k) (suc a) b hj hk =
      omega (arith, rounds j k (suc a / 2) (b / 2) (omega arith) (omega arith))
  rounds zero k (suc a) b hj hk = absurd (omega arith)
  rounds (suc j) zero (suc a) b hj hk = absurd (omega arith)

  -- The lowest digits apart.
  bitwise_step :
      ((b : ℕ) → at_zero b ≡ at_zero (b / 2) * 2 + op 0 (b % 2))
      → (a b : ℕ)
      → bitwise at_zero op a b ≡ bitwise at_zero op (a / 2) (b / 2) * 2 + op (a % 2) (b % 2)
  bitwise_step hz zero b = hz b
  bitwise_step hz (suc a) b =
      omega (arith, rounds a (suc a / 2) (suc a / 2) (b / 2) (omega arith) (omega arith))

pub bit_and_step : (a b : ℕ) → bit_and a b ≡ bit_and (a / 2) (b / 2) * 2 + min (a % 2) (b % 2)
bit_and_step a b = omega (
  arith,
  bit_and-bitwise a b,
  bit_and-bitwise (a / 2) (b / 2),
  bitwise_step (λ _. 0) min (λ b. omega arith) a b,
)

pub bit_or_step : (a b : ℕ) → bit_or a b ≡ bit_or (a / 2) (b / 2) * 2 + max (a % 2) (b % 2)
bit_or_step a b = omega (
  arith,
  bit_or-bitwise a b,
  bit_or-bitwise (a / 2) (b / 2),
  bitwise_step (λ b. b) max (λ b. omega arith) a b,
)

-- Bit k of a number, 0 or 1.
abbrev pub bit : ℕ → ℕ → ℕ
bit a zero = a % 2
bit a (suc k) = bit (a / 2) k

pub bit-le : (a k : ℕ) → bit a k ≤ 1
bit-le a zero = omega arith
bit-le a (suc k) = bit-le (a / 2) k

pub bit-bit_and : (a b k : ℕ) → bit (bit_and a b) k ≡ min (bit a k) (bit b k)
bit-bit_and a b zero = omega (arith, bit_and_step a b)
bit-bit_and a b (suc k) = rw half (bit-bit_and (a / 2) (b / 2) k)
  where
    half : bit_and a b / 2 ≡ bit_and (a / 2) (b / 2)
    half = omega (arith, bit_and_step a b)

pub bit-bit_or : (a b k : ℕ) → bit (bit_or a b) k ≡ max (bit a k) (bit b k)
bit-bit_or a b zero = omega (arith, bit_or_step a b)
bit-bit_or a b (suc k) = rw half (bit-bit_or (a / 2) (b / 2) k)
  where
    half : bit_or a b / 2 ≡ bit_or (a / 2) (b / 2)
    half = omega (arith, bit_or_step a b)

pub bit-zero : (k : ℕ) → bit 0 k ≡ 0
bit-zero zero = refl
bit-zero (suc k) = bit-zero k

ext_fuel : (n a b : ℕ) → a ≤ n → b ≤ n → ((k : ℕ) → bit a k ≡ bit b k) → a ≡ b
ext_fuel zero a b ha hb same = omega arith
ext_fuel (suc n) a b ha hb same =
    omega
      (arith, same 0, ext_fuel n (a / 2) (b / 2) (omega arith) (omega arith) (λ k. same (suc k)))

-- Numbers with the same bits are equal.
pub bit_ext : (a b : ℕ) → ((k : ℕ) → bit a k ≡ bit b k) → a ≡ b
bit_ext a b = ext_fuel (a + b) a b (omega arith) (omega arith)

-- A number that is not 0 has a bit, at a place that a search finds.
first_bit_fuel : (n a : ℕ) → a ≤ n → a ≢ 0 → (k : ℕ) × (bit a k ≡ 1)
first_bit_fuel zero a h ne = absurd (omega arith)
first_bit_fuel (suc n) a h ne = elim (ℕ_discrete (a % 2) 1) [
  | yes odd ↦ (0, odd)
  | no even ↦ let (k, e) = first_bit_fuel n (a / 2) (omega arith) (omega arith) in (suc k, e)
]

pub first_bit : (a : ℕ) → a ≢ 0 → (k : ℕ) × (bit a k ≡ 1)
first_bit a = first_bit_fuel a a (omega arith)
