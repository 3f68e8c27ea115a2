-- ===== src/Bits/Sizes.antt =====
-- The bit operations keep to the width of their arguments.
use native.Mathlib.Nat.{pow-suc}
use native.Mathlib.Decide.{dec_lt}
use smarty.Base.{ℕ, zero, suc, ◌/◌, ◌^◌, ◌<◌, ◌≡◌, sym, ◌∙◌, arith, bit_and, bit_or}
use smarty.Bits.Digits.{bit_and_step, bit_or_step, zero-bit_and}
use smarty.Bits.{test_bit}
use smarty.Bits.Laws.{eq_of_bits, test_bit-above}

pub bit_or-small : (n a b : ℕ) → a < 2 ^ n → b < 2 ^ n → bit_or a b < 2 ^ n
bit_or-small zero zero zero h l = omega arith
bit_or-small zero zero (suc b) h l = absurd (omega arith)
bit_or-small zero (suc a) b h l = absurd (omega arith)
bit_or-small (suc n) a b h l =
    let p = pow-suc 2 n in
    omega (arith, bit_or_step a b, bit_or-small n (a / 2) (b / 2) (omega arith) (omega arith))

pub bit_and-small : (n a b : ℕ) → a < 2 ^ n → bit_and a b < 2 ^ n
bit_and-small zero zero b h = omega (arith, zero-bit_and b)
bit_and-small zero (suc a) b h = absurd (omega arith)
bit_and-small (suc n) a b h =
    let p = pow-suc 2 n in
    omega (arith, bit_and_step a b, bit_and-small n (a / 2) (b / 2) (omega arith))

-- Two words of n bits are equal if their n bits are.
pub eq_of_low_bits :
    (n a b : ℕ) → a < 2 ^ n → b < 2 ^ n → ((i : ℕ) → i < n → test_bit a i ≡ test_bit b i) → a ≡ b
eq_of_low_bits n a b h l same = eq_of_bits a b λ i. elim (dec_lt i n) [
  | yes low ↦ same i low
  | no up ↦ test_bit-above n a i h (omega arith) ∙ sym (test_bit-above n b i l (omega arith))
]
