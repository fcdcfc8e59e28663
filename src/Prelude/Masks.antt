-- ===== src/Prelude/Masks.antt =====
-- Sets of digits as 16-bit masks: puzzle.cc and game.cc keep digit d in bit d - 1.
use Prim.Native.Nat.{
  ℕ, zero, suc, ◌+◌, ◌-◌, ◌*◌, ◌/◌, ◌%◌, ◌^◌, ◌≤◌, ◌<◌, min, max, bit_and, bit_or, bit_xor, differ,
  bit_and-bitwise,
}
use native.Mathlib.Decide.{dec_lt, ℕ_discrete}
use native.Mathlib.Nat.{pow-suc}
use mathlib.Core.Path.{◌≡◌, refl, ◌∙◌, subst}
use mathlib.Core.Bool.{Bool, true, false, not, ◌&&◌, ◌||◌}
use native.Mathlib.Omega.{arith}
use phone.Prelude.Tests.{◌==◌, if◌then◌else◌}
use phone.Prelude.Bits.{bit_and_step, bit_or_step, bit_xor_step}

-- Bit k of a word, as 0 or 1.
test_bit : ℕ → ℕ → ℕ
test_bit a zero = a % 2
test_bit a (suc k) = test_bit (a / 2) k

-- uint16_t(1u << (digit - 1))
unfoldable pub bit : ℕ → ℕ
bit digit = 2 ^ (digit - 1) % 65536

-- mask & bit(digit), as a condition
unfoldable pub has : ℕ → ℕ → Bool
unfolding bit
has mask digit = not (bit_and mask (bit digit) == 0)

-- a & ~b on uint16_t
unfoldable pub and_not : ℕ → ℕ → ℕ
and_not a b = bit_and a (bit_xor b 0xffff)

-- The population count of the low n bits.
unfoldable pub popcount : ℕ → ℕ → ℕ
popcount zero a = 0
popcount (suc n) a = a % 2 + popcount n (a / 2)

test_bit-lt : (a k : ℕ) → test_bit a k < 2
unfolding test_bit
test_bit-lt a zero = omega arith
test_bit-lt a (suc k) = test_bit-lt (a / 2) k

test_bit-bit_and : (a b k : ℕ) → test_bit (bit_and a b) k ≡ min (test_bit a k) (test_bit b k)
unfolding test_bit
test_bit-bit_and a b zero = omega (arith, bit_and_step a b)
test_bit-bit_and a b (suc k) =
    let half : bit_and a b / 2 ≡ bit_and (a / 2) (b / 2) = omega (arith, bit_and_step a b) in
    rw half (test_bit-bit_and (a / 2) (b / 2) k)

test_bit-bit_or : (a b k : ℕ) → test_bit (bit_or a b) k ≡ max (test_bit a k) (test_bit b k)
unfolding test_bit
test_bit-bit_or a b zero = omega (arith, bit_or_step a b)
test_bit-bit_or a b (suc k) =
    let half : bit_or a b / 2 ≡ bit_or (a / 2) (b / 2) = omega (arith, bit_or_step a b) in
    rw half (test_bit-bit_or (a / 2) (b / 2) k)

differ_lem : (a b : ℕ) → a < 2 → b < 2 → differ a b ≡ (a + b) % 2
differ_lem zero zero p q = refl
differ_lem zero (suc zero) p q = refl
differ_lem (suc zero) zero p q = refl
differ_lem (suc zero) (suc zero) p q = refl
differ_lem zero (suc (suc b)) p q = absurd (omega arith)
differ_lem (suc zero) (suc (suc b)) p q = absurd (omega arith)
differ_lem (suc (suc a)) zero p q = absurd (omega arith)
differ_lem (suc (suc a)) (suc b) p q = absurd (omega arith)

xor_step : (a b : ℕ) → bit_xor a b ≡ bit_xor (a / 2) (b / 2) * 2 + (a % 2 + b % 2) % 2
xor_step a b =
    omega (arith, bit_xor_step a b, differ_lem (a % 2) (b % 2) (omega arith) (omega arith))

test_bit-bit_xor : (a b k : ℕ) → test_bit (bit_xor a b) k ≡ (test_bit a k + test_bit b k) % 2
unfolding test_bit
test_bit-bit_xor a b zero = omega (arith, xor_step a b)
test_bit-bit_xor a b (suc k) =
    let half : bit_xor a b / 2 ≡ bit_xor (a / 2) (b / 2) = omega (arith, xor_step a b) in
    rw half (test_bit-bit_xor (a / 2) (b / 2) k)

-- Words with the same bits are the same word.
test_bit_ext : (n a b : ℕ) → a ≤ n → b ≤ n → ((k : ℕ) → test_bit a k ≡ test_bit b k) → a ≡ b
unfolding test_bit
test_bit_ext zero a b p q h = omega arith
test_bit_ext (suc n) a b p q h =
    omega (arith, h 0, test_bit_ext n (a / 2) (b / 2) (omega arith) (omega arith) (λ k. h (suc k)))

test_bit-zero : (k : ℕ) → test_bit 0 k ≡ 0
unfolding test_bit
test_bit-zero zero = refl
test_bit-zero (suc k) = test_bit-zero k

-- A word below 2 ^ n has no bit from n on.
test_bit_above : (n a k : ℕ) → a < 2 ^ n → n ≤ k → test_bit a k ≡ 0
unfolding test_bit
test_bit_above zero a k h p = let e : a ≡ 0 = omega arith in rw e (test_bit-zero k)
test_bit_above (suc n) a zero h p = absurd (omega arith)
test_bit_above (suc n) a (suc k) h p =
    test_bit_above n (a / 2) k (omega (arith, pow-suc 2 n)) (omega arith)

test_bit_pow : (j k : ℕ) → test_bit (2 ^ j) k ≡ (if j == k then 1 else 0)
unfolding test_bit
test_bit_pow zero zero = refl
test_bit_pow zero (suc k) = test_bit-zero k ∙ ground arith
test_bit_pow (suc j) zero = ground (arith, pow-suc 2 j)
test_bit_pow (suc j) (suc k) =
    let half : 2 ^ suc j / 2 ≡ 2 ^ j = omega (arith, pow-suc 2 j) in
    rw half (test_bit_pow j k ∙ ground arith)

bit_and_zero_left : (b : ℕ) → bit_and 0 b ≡ 0
bit_and_zero_left b = bit_and-bitwise 0 b

-- No bit is shared with 0: on a number below a bound, by its half.
bit_and-zero : (bound number : ℕ) → number ≤ bound → bit_and number 0 ≡ 0
bit_and-zero bound zero small = bit_and-bitwise 0 0
bit_and-zero zero (suc number) small = absurd (omega arith)
bit_and-zero (suc bound) (suc number) small =
    let half : bit_and (suc number / 2) 0 ≡ 0 = bit_and-zero bound (suc number / 2) (omega arith) in
    omega (arith, half, bit_and_step (suc number) 0)

bit_and_pow : (a k : ℕ) → bit_and a (2 ^ k) ≡ test_bit a k * 2 ^ k
unfolding test_bit
bit_and_pow a zero = omega (arith, bit_and_step a 1, bit_and-zero a (a / 2) (omega arith))
bit_and_pow a (suc k) =
    let half : 2 ^ suc k / 2 ≡ 2 ^ k = omega (arith, pow-suc 2 k) in
    let step : bit_and a (2 ^ suc k) ≡ bit_and (a / 2) (2 ^ k) * 2 =
      rw (← half) (omega (arith, bit_and_step a (2 ^ suc k), pow-suc 2 k)) in
    rw (step, bit_and_pow (a / 2) k, pow-suc 2 k) (grind arith)

pow_mono : (j k : ℕ) → j ≤ k → 2 ^ j ≤ 2 ^ k
pow_mono zero zero h = omega arith
pow_mono zero (suc k) h = omega (arith, pow-suc 2 k, pow_mono zero k (omega arith))
pow_mono (suc j) zero h = absurd (omega arith)
pow_mono (suc j) (suc k) h = omega (arith, pow-suc 2 j, pow-suc 2 k, pow_mono j k (omega arith))

bit_lem : (d : ℕ) → d ≤ 16 → bit d ≡ 2 ^ (d - 1)
unfolding bit
bit_lem d h = omega (arith, pow_mono (d - 1) 15 (omega arith))

pow_pos : (k : ℕ) → 0 < 2 ^ k
pow_pos k = pow_mono 0 k (omega arith)

-- A word of n ones.
test_bit_full : (n a k : ℕ) → a + 1 ≡ 2 ^ n → k < n → test_bit a k ≡ 1
unfolding test_bit
test_bit_full zero a k e h = absurd (omega arith)
test_bit_full (suc n) a zero e h = omega (arith, pow-suc 2 n)
test_bit_full (suc n) a (suc k) e h =
    test_bit_full n (a / 2) k (omega (arith, pow-suc 2 n)) (omega arith)

test_bit_ones : (k : ℕ) → k < 16 → test_bit 65535 k ≡ 1
test_bit_ones k h = test_bit_full 16 65535 k refl h

nonzero_product : (t p : ℕ) → t < 2 → 0 < p → not (t * p == 0) ≡ (t == 1)
nonzero_product zero p h q = ground arith
nonzero_product (suc zero) p h q = ground arith
nonzero_product (suc (suc t)) p h q = absurd (omega arith)

has_lem : (m d : ℕ) → d ≤ 16 → has m d ≡ (test_bit m (d - 1) == 1)
unfolding has
has_lem m d h =
    rw (bit_lem d h, bit_and_pow m (d - 1))
      (nonzero_product _ _ (test_bit-lt m (d - 1)) (pow_pos (d - 1)))

pub has-bit_or : (a b d : ℕ) → d ≤ 16 → has (bit_or a b) d ≡ has a d || has b d
has-bit_or a b d h = ground (
  arith,
  has_lem (bit_or a b) d h,
  has_lem a d h,
  has_lem b d h,
  test_bit-bit_or a b (d - 1),
  test_bit-lt a (d - 1),
  test_bit-lt b (d - 1),
)

pub has-and_not : (a b d : ℕ) → d ≤ 16 → has (and_not a b) d ≡ has a d && not (has b d)
unfolding and_not
has-and_not a b d h = ground (
  arith,
  has_lem (bit_and a (bit_xor b 0xffff)) d h,
  has_lem a d h,
  has_lem b d h,
  test_bit-bit_and a (bit_xor b 0xffff) (d - 1),
  test_bit-bit_xor b 0xffff (d - 1),
  test_bit_ones (d - 1) (omega arith),
  test_bit-lt a (d - 1),
  test_bit-lt b (d - 1),
)

pub has-bit : (d e : ℕ) → 0 < d → 0 < e → d ≤ 16 → e ≤ 16 → has (bit d) e ≡ (d == e)
has-bit d e p q h k = ground (arith, has_lem (bit d) e k, bit_lem d h, test_bit_pow (d - 1) (e - 1))

-- Setting a free digit and clearing it again restores the mask.
pub and_not-bit_or :
    (m d : ℕ)
    → m < 65536
    → 0 < d
    → d ≤ 16
    → has m d ≡ false
    → and_not (bit_or m (bit d)) (bit d) ≡ m
unfolding and_not
and_not-bit_or m d h p q free = test_bit_ext (u + m) u m (omega arith) (omega arith) same
  where
    u : ℕ
    u = bit_and (bit_or m (bit d)) (bit_xor (bit d) 65535)

    value :
        (k : ℕ)
        → test_bit u k
          ≡ min
              (max (test_bit m k) (test_bit (bit d) k))
              ((test_bit (bit d) k + test_bit 65535 k) % 2)
    value k = omega (
      arith,
      test_bit-bit_and (bit_or m (bit d)) (bit_xor (bit d) 65535) k,
      test_bit-bit_or m (bit d) k,
      test_bit-bit_xor (bit d) 65535 k,
    )

    single : (k : ℕ) → test_bit (bit d) k ≡ (if d - 1 == k then 1 else 0)
    single k = rw (bit_lem d q) (test_bit_pow (d - 1) k)

    clear : test_bit m (d - 1) ≡ 0
    clear = ground (arith, has_lem m d q, test_bit-lt m (d - 1))

    same : (k : ℕ) → test_bit u k ≡ test_bit m k
    same k = elim (dec_lt k 16) [
      | yes low ↦ elim (ℕ_discrete (d - 1) k) [
        | yes here ↦ ground (
          arith,
          value k,
          single k,
          subst (λ (j : ℕ). test_bit m j ≡ 0) here clear,
          test_bit_ones k low,
        )
        | no other ↦ ground (arith, value k, single k, test_bit_ones k low, test_bit-lt m k)
      ]
      | no high ↦ ground (arith, value k, single k, test_bit_above 16 m k h (omega arith))
    ]

-- Masks of n bits stay masks of n bits.
pub bit_or-lt : (n a b : ℕ) → a < 2 ^ n → b < 2 ^ n → bit_or a b < 2 ^ n
bit_or-lt zero a b p q =
    let e : a ≡ 0 = omega arith in let f : b ≡ 0 = omega arith in rw (e, f) (omega arith)
bit_or-lt (suc n) a b p q = omega (
  arith,
  pow-suc 2 n,
  bit_or_step a b,
  bit_or-lt n (a / 2) (b / 2) (omega (arith, pow-suc 2 n)) (omega (arith, pow-suc 2 n)),
)

pub bit-lt : (d : ℕ) → bit d < 65536
unfolding bit
bit-lt d = omega arith

bit_and-le_fuel : (n a b : ℕ) → a ≤ n → bit_and a b ≤ a
bit_and-le_fuel zero a b h =
    let e : a ≡ 0 = omega arith in rw e (omega (arith, bit_and_step 0 b, bit_and_zero_left (b / 2)))
bit_and-le_fuel (suc n) zero b h = omega (arith, bit_and_zero_left b)
bit_and-le_fuel (suc n) (suc a) b h =
    omega (arith, bit_and_step (suc a) b, bit_and-le_fuel n (suc a / 2) (b / 2) (omega arith))

pub and_not-le : (a b : ℕ) → and_not a b ≤ a
unfolding and_not
and_not-le a b = bit_and-le_fuel a a (bit_xor b 0xffff) (omega arith)

pub popcount-le : (n k a : ℕ) → a < 2 ^ k → popcount n a ≤ k
unfolding popcount
popcount-le zero k a h = omega arith
popcount-le (suc n) zero a h =
    let e : a ≡ 0 = omega arith in rw e (omega (arith, popcount-le n zero 0 (omega arith)))
popcount-le (suc n) (suc k) a h =
    omega (arith, popcount-le n k (a / 2) (omega (arith, pow-suc 2 k)))

pub has-zero : (d : ℕ) → d ≤ 16 → has 0 d ≡ false
has-zero d h = ground (arith, has_lem 0 d h, test_bit-zero (d - 1))

pub has_all : (d : ℕ) → 0 < d → d ≤ 9 → has 0x1ff d ≡ true
has_all d p h =
    ground (arith, has_lem 511 d (omega arith), test_bit_full 9 511 (d - 1) refl (omega arith))
