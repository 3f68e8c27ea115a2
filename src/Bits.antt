-- ===== src/Bits.antt =====
-- The 32-bit words that hold the states of lights, buttons, sensors and modes, bit by bit.
-- C++ writes `x & ( 1 << k )`, `x |= 1 << k`, `x &= ~( 1 << k )` and `x ^ y` on them.
mod Digits
pub mod Laws
pub mod Words
pub mod Sizes
use smarty.Base.{ℕ, zero, suc, ◌/◌, ◌%◌, Bool, true, false, ◌==◌}

-- Bit `i` of `x`, the lowest being bit 0.
unfoldable pub test_bit : ℕ → ℕ → Bool
test_bit x zero = x % 2 == 1
test_bit x (suc i) = test_bit (x / 2) i
