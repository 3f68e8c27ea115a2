-- ===== src/Bits/Words.antt =====
-- Masks of 32-bit words: `1 << k`, `~x`, and setting and clearing one bit.
use native.Mathlib.Nat.{pow-suc, one-le-pow, pow-le-pow_right}
use smarty.Base.{
  ℕ, zero, suc, ◌+◌, ◌-◌, ◌/◌, ◌%◌, ◌^◌, ◌<◌, ◌≡◌, arith, bit_and, bit_or, bit_xor, true, not, ◌&&◌,
  ◌||◌, ◌==◌, ◌/=◌, ltb, if◌then◌else◌,
}
use mathlib.Core.Bool.{xor}
use smarty.Bits.{test_bit}
use smarty.Bits.Laws.{
  test_bit-bit_xor, test_bit-bit_or, test_bit-bit_and, test_bit-pow, bit_and-pow,
}

-- `( uint )-1`, a word of ones.
abbrev pub all_ones : ℕ
all_ones = 4294967295

-- `1 << k`. C++ leaves a shift by 32 or more undefined; it reads 0 here, and what depends on
-- the value of a shift asks for k < 32.
unfoldable pub shl_one : ℕ → ℕ
shl_one k = if ltb k 32 then 2 ^ k else 0

-- `~x` on 32 bits.
unfoldable pub bit_not : ℕ → ℕ
bit_not x = bit_xor x all_ones

-- `k - 1` on 32 bits.
unfoldable pub dec_u32 : ℕ → ℕ
dec_u32 k = (k + all_ones) % 4294967296

pub shl_one-eq-pow : (k : ℕ) → k < 32 → shl_one k ≡ 2 ^ k
unfolding shl_one
shl_one-eq-pow k h = ground arith

pub test_bit-shl_one : (k i : ℕ) → k < 32 → test_bit (shl_one k) i ≡ (k == i)
test_bit-shl_one k i h = rw (shl_one-eq-pow k h) (test_bit-pow k i)

pub bit_and-shl_one :
    (k a : ℕ) → k < 32 → bit_and a (shl_one k) ≡ (if test_bit a k then 2 ^ k else 0)
bit_and-shl_one k a h = rw (shl_one-eq-pow k h) (bit_and-pow k a)

test_bit-ones : (n i : ℕ) → i < n → test_bit (2 ^ n - 1) i ≡ true
unfolding test_bit
test_bit-ones zero i h = absurd (omega arith)
test_bit-ones (suc n) zero h = ground (arith, pow-suc 2 n, one-le-pow n 2)
test_bit-ones (suc n) (suc i) h =
    let half : (2 ^ suc n - 1) / 2 ≡ 2 ^ n - 1 = omega (arith, pow-suc 2 n, one-le-pow n 2) in
    rw half (test_bit-ones n i (omega arith))

pub test_bit-bit_not : (x i : ℕ) → i < 32 → test_bit (bit_not x) i ≡ not (test_bit x i)
unfolding bit_not xor
test_bit-bit_not x i h = ground (arith, test_bit-bit_xor x all_ones i, test_bit-ones 32 i h)

pub test_bit-all_ones : (i : ℕ) → i < 32 → test_bit all_ones i ≡ true
test_bit-all_ones i h = test_bit-ones 32 i h

-- `x |= 1 << k` sets bit k and leaves the others.
pub test_bit-set :
    (x k i : ℕ) → k < 32 → test_bit (bit_or x (shl_one k)) i ≡ (test_bit x i || (k == i))
test_bit-set x k i h = rw (test_bit-bit_or, test_bit-shl_one k i h)

-- `x &= ~( 1 << k )` clears bit k and leaves the others of a word.
pub test_bit-clear :
    (x k i : ℕ)
    → k < 32
    → i < 32
    → test_bit (bit_and x (bit_not (shl_one k))) i ≡ (test_bit x i && not (k == i))
test_bit-clear x k i h l =
    rw (test_bit-bit_and, test_bit-bit_not (shl_one k) i l, test_bit-shl_one k i h)

-- The test `( ( x ^ y ) & ( 1 << k ) ) != 0` says whether bit k differs.
pub changed_bit :
    (x y k : ℕ)
    → k < 32
    → (bit_and (bit_xor x y) (shl_one k) /= 0) ≡ xor (test_bit x k) (test_bit y k)
changed_bit x y k h =
    ground (arith, bit_and-shl_one k (bit_xor x y) h, test_bit-bit_xor x y k, one-le-pow k 2)

-- The test `( x & ( 1 << k ) ) != 0` reads bit k.
pub masked_bit : (x k : ℕ) → k < 32 → (bit_and x (shl_one k) /= 0) ≡ test_bit x k
masked_bit x k h = ground (arith, bit_and-shl_one k x h, one-le-pow k 2)

pub dec_u32-suc : (k : ℕ) → k < 32 → dec_u32 (suc k) ≡ k
unfolding dec_u32
dec_u32-suc k h = omega arith

pub shl_one-small : (k : ℕ) → k < 32 → shl_one k < 2 ^ 32
shl_one-small k h =
    rw (shl_one-eq-pow k h)
      (omega (arith, pow-le-pow_right {n = 2} (omega arith) {i = k} {j = 31} (omega arith)))
