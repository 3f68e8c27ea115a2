-- ===== src/Bits/Digits.antt =====
-- The native bit operations, one binary digit at a time.
use Prim.Native.Nat.{
  min, max, differ, digits, bitwise, bit_and-bitwise, bit_or-bitwise, bit_xor-bitwise,
}
use smarty.Base.{ℕ, zero, suc, ◌+◌, ◌*◌, ◌/◌, ◌%◌, ◌≤◌, ◌≡◌, refl, arith, bit_and, bit_or, bit_xor}

module _ (z : ℕ → ℕ) (f : ℕ → ℕ → ℕ) where
  -- The fuel of the recursion does not matter once it covers the first argument.
  enough_fuel : (m k a b : ℕ) → a ≤ m → a ≤ k → digits z f m a b ≡ digits z f k a b
  enough_fuel zero zero a b p q = refl
  enough_fuel zero (suc k) zero b p q = refl
  enough_fuel zero (suc k) (suc a) b p q = absurd (omega arith)
  enough_fuel (suc m) zero zero b p q = refl
  enough_fuel (suc m) zero (suc a) b p q = absurd (omega arith)
  enough_fuel (suc m) (suc k) zero b p q = refl
  enough_fuel (suc m) (suc k) (suc a) b p q =
      let half = enough_fuel m k (suc a / 2) (b / 2) (omega arith) (omega arith) in rw half

  -- The lowest digit, and the digits above it.
  lowest_digit :
      (n m : ℕ)
      → bitwise z f (suc n) m ≡ f (suc n % 2) (m % 2) + 2 * bitwise z f (suc n / 2) (m / 2)
  lowest_digit n m =
      let half = enough_fuel n (suc n / 2) (suc n / 2) (m / 2) (omega arith) (omega arith) in
      rw half (omega arith)

pub bit_xor_step : (n m : ℕ) → bit_xor n m ≡ differ (n % 2) (m % 2) + 2 * bit_xor (n / 2) (m / 2)
bit_xor_step zero m = simp bit_xor-bitwise (omega arith)
bit_xor_step (suc n) m = simp bit_xor-bitwise (lowest_digit (λ y. y) differ n m)

pub bit_or_step : (n m : ℕ) → bit_or n m ≡ max (n % 2) (m % 2) + 2 * bit_or (n / 2) (m / 2)
bit_or_step zero m = simp bit_or-bitwise (omega arith)
bit_or_step (suc n) m = simp bit_or-bitwise (lowest_digit (λ y. y) max n m)

pub bit_and_step : (n m : ℕ) → bit_and n m ≡ min (n % 2) (m % 2) + 2 * bit_and (n / 2) (m / 2)
bit_and_step zero m = simp bit_and-bitwise (omega arith)
bit_and_step (suc n) m = simp bit_and-bitwise (lowest_digit (λ y. 0) min n m)

pub zero-bit_and : (b : ℕ) → bit_and 0 b ≡ 0
zero-bit_and b = simp bit_and-bitwise
