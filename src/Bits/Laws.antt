-- ===== src/Bits/Laws.antt =====
-- What the bit operations do to each bit, at every width.
use Prim.Native.Nat.{differ}
use mathlib.Core.Bool.{xor}
use native.Mathlib.Nat.{pow-suc}
use smarty.Base.{
  ℕ, zero, suc, ◌+◌, ◌*◌, ◌/◌, ◌%◌, ◌^◌, ◌≤◌, ◌<◌, ◌≡◌, refl, arith, bit_and, bit_or, bit_xor,
  false, ◌&&◌, ◌||◌, ◌==◌, if◌then◌else◌,
}
use smarty.Bits.Digits.{bit_and_step, bit_or_step, bit_xor_step}
use smarty.Bits.{test_bit}

differ_digits : (x y : ℕ) → x < 2 → y < 2 → differ x y ≡ (x + y) % 2
differ_digits zero y p q = omega arith
differ_digits (suc zero) zero p q = refl
differ_digits (suc zero) (suc zero) p q = refl
differ_digits (suc zero) (suc (suc y)) p q = absurd (omega arith)
differ_digits (suc (suc x)) y p q = absurd (omega arith)

xor_step : (a b : ℕ) → bit_xor a b ≡ bit_xor (a / 2) (b / 2) * 2 + (a % 2 + b % 2) % 2
xor_step a b =
    omega (arith, bit_xor_step a b, differ_digits (a % 2) (b % 2) (omega arith) (omega arith))

half-bit_xor : (a b : ℕ) → bit_xor a b / 2 ≡ bit_xor (a / 2) (b / 2)
half-bit_xor a b = omega (arith, xor_step a b)

half-bit_or : (a b : ℕ) → bit_or a b / 2 ≡ bit_or (a / 2) (b / 2)
half-bit_or a b = omega (arith, bit_or_step a b)

half-bit_and : (a b : ℕ) → bit_and a b / 2 ≡ bit_and (a / 2) (b / 2)
half-bit_and a b = omega (arith, bit_and_step a b)

pub test_bit-bit_xor : (a b i : ℕ) → test_bit (bit_xor a b) i ≡ xor (test_bit a i) (test_bit b i)
unfolding test_bit xor
test_bit-bit_xor a b zero = ground (arith, xor_step a b)
test_bit-bit_xor a b (suc i) = rw half-bit_xor (test_bit-bit_xor (a / 2) (b / 2) i)

pub test_bit-bit_or : (a b i : ℕ) → test_bit (bit_or a b) i ≡ (test_bit a i || test_bit b i)
unfolding test_bit
test_bit-bit_or a b zero = ground (arith, bit_or_step a b)
test_bit-bit_or a b (suc i) = rw half-bit_or (test_bit-bit_or (a / 2) (b / 2) i)

pub test_bit-bit_and : (a b i : ℕ) → test_bit (bit_and a b) i ≡ (test_bit a i && test_bit b i)
unfolding test_bit
test_bit-bit_and a b zero = ground (arith, bit_and_step a b)
test_bit-bit_and a b (suc i) = rw half-bit_and (test_bit-bit_and (a / 2) (b / 2) i)

pub test_bit-zero : (i : ℕ) → test_bit 0 i ≡ false
unfolding test_bit
test_bit-zero zero = refl
test_bit-zero (suc i) = test_bit-zero i

half-pow : (k : ℕ) → 2 ^ suc k / 2 ≡ 2 ^ k
half-pow k = omega (arith, pow-suc 2 k)

-- The only bit of a power of two.
pub test_bit-pow : (k i : ℕ) → test_bit (2 ^ k) i ≡ (k == i)
unfolding test_bit
test_bit-pow zero zero = refl
test_bit-pow zero (suc i) = ground (arith, test_bit-zero i)
test_bit-pow (suc k) zero = ground (arith, pow-suc 2 k)
test_bit-pow (suc k) (suc i) = rw half-pow (ground (arith, test_bit-pow k i))

bit_and-zero : (n a : ℕ) → a ≤ n → bit_and a 0 ≡ 0
bit_and-zero zero zero h = refl
bit_and-zero zero (suc a) h = absurd (omega arith)
bit_and-zero (suc n) zero h = refl
bit_and-zero (suc n) (suc a) h =
    omega (arith, bit_and_step (suc a) 0, bit_and-zero n (suc a / 2) (omega arith))

-- A mask of one bit picks that bit.
pub bit_and-pow : (k a : ℕ) → bit_and a (2 ^ k) ≡ (if test_bit a k then 2 ^ k else 0)
unfolding test_bit
bit_and-pow zero a = ground (arith, bit_and_step a 1, bit_and-zero (a / 2) (a / 2) (omega arith))
bit_and-pow (suc k) a =
    ground (arith, bit_and_step a (2 ^ suc k), half-pow k, pow-suc 2 k, bit_and-pow k (a / 2))

-- Two numbers with the same bits are equal.
same_bits : (n a b : ℕ) → a ≤ n → b ≤ n → ((i : ℕ) → test_bit a i ≡ test_bit b i) → a ≡ b
unfolding test_bit
same_bits zero a b p q h = omega arith
same_bits (suc n) a b p q h =
    ground (arith, h 0, same_bits n (a / 2) (b / 2) (omega arith) (omega arith) (λ i. h (suc i)))

pub eq_of_bits : (a b : ℕ) → ((i : ℕ) → test_bit a i ≡ test_bit b i) → a ≡ b
eq_of_bits a b h = same_bits (a + b) a b (omega arith) (omega arith) h

pub bit_and_comm : (a b : ℕ) → bit_and a b ≡ bit_and b a
bit_and_comm a b =
    eq_of_bits _ _ (λ i. ground (arith, test_bit-bit_and a b i, test_bit-bit_and b a i))

-- A word of n bits has no bit at n or above.
pub test_bit-above : (n x i : ℕ) → x < 2 ^ n → n ≤ i → test_bit x i ≡ false
unfolding test_bit
test_bit-above zero zero i h l = test_bit-zero i
test_bit-above zero (suc x) i h l = absurd (omega arith)
test_bit-above (suc n) x zero h l = absurd (omega arith)
test_bit-above (suc n) x (suc i) h l =
    test_bit-above n (x / 2) i (omega (arith, pow-suc 2 n)) (omega arith)
