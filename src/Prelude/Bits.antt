-- ===== src/Prelude/Bits.antt =====
-- The lowest binary digit of the native bitwise operations, at variables.
use Prim.Native.Nat.{
  ℕ, zero, suc, ◌+◌, ◌*◌, ◌/◌, ◌%◌, ◌≤◌, ◌<◌, min, max, bit_and, bit_or, bit_xor, digits,
  bit_and-bitwise, bit_or-bitwise, bit_xor-bitwise, differ,
}
use mathlib.Core.Path.{◌≡◌, refl}
use native.Mathlib.Omega.{arith}

-- More fuel than the number itself changes nothing; the surplus is counted apart.
module _ (alone : ℕ → ℕ) (combine : ℕ → ℕ → ℕ) where
  surplus_fuel :
      (fuel a b n : ℕ)
      → a ≤ n
      → n ≤ fuel
      → digits alone combine fuel a b ≡ digits alone combine n a b
  surplus_fuel zero zero b zero low high = refl
  surplus_fuel (suc fuel) zero b zero low high = refl
  surplus_fuel (suc fuel) zero b (suc n) low high = refl
  surplus_fuel (suc fuel) (suc a) b (suc n) low high =
      omega (arith, surplus_fuel fuel (suc a / 2) (b / 2) n (omega arith) (omega arith))
  surplus_fuel zero a b (suc n) low high = absurd (omega arith)
  surplus_fuel zero (suc a) b zero low high = absurd (omega arith)
  surplus_fuel (suc fuel) (suc a) b zero low high = absurd (omega arith)

  halved :
      (a b : ℕ)
      → digits alone combine a (suc a / 2) (b / 2)
        ≡ digits alone combine (suc a / 2) (suc a / 2) (b / 2)
  halved a b = surplus_fuel a (suc a / 2) (b / 2) (suc a / 2) (omega arith) (omega arith)

pub bit_or_step : (a b : ℕ) → bit_or a b ≡ bit_or (a / 2) (b / 2) * 2 + max (a % 2) (b % 2)
bit_or_step zero b = omega (arith, bit_or-bitwise zero b, bit_or-bitwise zero (b / 2))
bit_or_step (suc a) b =
    omega
      (arith, halved (λ y. y) max a b, bit_or-bitwise (suc a) b, bit_or-bitwise (suc a / 2) (b / 2))

pub bit_xor_step : (a b : ℕ) → bit_xor a b ≡ bit_xor (a / 2) (b / 2) * 2 + differ (a % 2) (b % 2)
bit_xor_step zero b = omega (
  arith,
  bit_xor-bitwise zero b,
  bit_xor-bitwise zero (b / 2),
  differ_digit (b % 2) (omega arith),
)
  where
    differ_digit : (d : ℕ) → d < 2 → differ 0 d ≡ d
    differ_digit zero h = refl
    differ_digit (suc zero) h = refl
    differ_digit (suc (suc d)) h = absurd (omega arith)
bit_xor_step (suc a) b = omega (
  arith,
  halved (λ y. y) differ a b,
  bit_xor-bitwise (suc a) b,
  bit_xor-bitwise (suc a / 2) (b / 2),
)

pub bit_and_step : (x y : ℕ) → bit_and x y ≡ bit_and (x / 2) (y / 2) * 2 + min (x % 2) (y % 2)
bit_and_step zero b = omega (arith, bit_and-bitwise zero b, bit_and-bitwise zero (b / 2))
bit_and_step (suc a) b = omega (
  arith,
  halved (λ y. zero) min a b,
  bit_and-bitwise (suc a) b,
  bit_and-bitwise (suc a / 2) (b / 2),
)
