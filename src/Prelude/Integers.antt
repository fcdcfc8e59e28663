-- ===== src/Prelude/Integers.antt =====
-- Integers over the native natural numbers, and the int of the source.
use Prim.Native.Nat.{ℕ, ◌-◌, ◌%◌, ◌^◌}
use mathlib.Core.Path.{◌≡◌, ap}
use mathlib.Core.Bool.{Bool, true, false}
use phone.Prelude.Tests.{ltb, ◌==◌, ==→≡, if◌then◌else◌}

-- `negsuc n` is -(n + 1).
pub data ℤ : Type 0 where
  pos : ℕ → ℤ
  negsuc : ℕ → ℤ

unfoldable pub same_int : ℤ → ℤ → Bool
same_int (pos m) (pos n) = m == n
same_int (pos m) (negsuc n) = false
same_int (negsuc m) (pos n) = false
same_int (negsuc m) (negsuc n) = m == n

pub same_int→≡ : (a b : ℤ) → same_int a b ≡ true → a ≡ b
unfolding same_int
same_int→≡ (pos m) (pos n) h = ap pos (==→≡ m n h)
same_int→≡ (pos m) (negsuc n) h = absurd cc
same_int→≡ (negsuc m) (pos n) h = absurd cc
same_int→≡ (negsuc m) (negsuc n) h = ap negsuc (==→≡ m n h)

-- a < b
unfoldable pub less_int : ℤ → ℤ → Bool
less_int (pos m) (pos n) = ltb m n
less_int (pos m) (negsuc n) = false
less_int (negsuc m) (pos n) = true
less_int (negsuc m) (negsuc n) = ltb n m

-- The 32-bit word read as an int.
unfoldable pub of_word : ℕ → ℤ
of_word w = if ltb w (2 ^ 31) then pos w else negsuc (2 ^ 32 - w - 1)

-- The conversion of a longer integer to an int, which keeps its lowest 32 bits.
unfoldable pub to_int : ℤ → ℤ
unfolding of_word
to_int (pos n) = of_word (n % 2 ^ 32)
to_int (negsuc n) = of_word (2 ^ 32 - 1 - n % 2 ^ 32)
