-- ===== src/Creation/Offset.antt =====
-- `get_bit_offset` of src/server/event/event_handler.cpp finds the lowest bit that is set.
use mathlib.Core.Path.{subst}
use native.Mathlib.Nat.{one-le-pow}
use smarty.Base.{
  ℕ, zero, suc, refl, Bool, ◌&&◌, ◌+◌, ◌/◌, ◌%◌, ◌^◌, ◌≤◌, ◌<◌, ◌≡◌, arith, true, false, ◌==◌,
  Bool-cases, inl, inr,
}
use smarty.Bits.{test_bit}
use smarty.Bits.Laws.{test_bit-pow}
use smarty.Creation.{bit_offset_loop, get_bit_offset}

-- The lowest `d` bits of `param` are clear.
abbrev pub clear_below : ℕ → ℕ → Bool
clear_below zero param = true
clear_below (suc d) param = param % 2 == 0 && clear_below d (param / 2)

-- `d` is the lowest bit set in `param`.
pub record IsLowest (param d : ℕ) : Type 0 where
  pub is_set : test_bit param d ≡ true
  pub below_clear : clear_below d param ≡ true

clear_below-test_bit :
    (i d param : ℕ) → clear_below d param ≡ true → i < d → test_bit param i ≡ false
unfolding test_bit
clear_below-test_bit i zero param h l = elim l [ ]
clear_below-test_bit zero (suc d) param h l = ground arith
clear_below-test_bit (suc i) (suc d) param h l =
    ground (arith, clear_below-test_bit i d (param / 2))

IsLowest-half : (param d : ℕ) → param % 2 ≡ 0 → IsLowest (param / 2) d → IsLowest param (suc d)
unfolding test_bit
IsLowest-half param d even l = record {
  is_set = l.is_set;
  below_clear = ground (arith, l.below_clear);
}

-- With fuel for the parameter, the loop adds the lowest bit's index to its counter.
offset_loop :
    (fuel param result : ℕ)
    → param ≤ fuel
    → 0 < param
    → (d : ℕ) × (bit_offset_loop fuel param result ≡ result + d) × IsLowest param d
unfolding bit_offset_loop test_bit
offset_loop zero param result h p = absurd (omega arith)
offset_loop (suc fuel) param result h p = elim (Bool-cases (param % 2 == 0)) [
  | inl even ↦
      let (d, found, lowest) =
        offset_loop fuel (param / 2) (result + 1) (ground arith) (ground arith) in
      (suc d, ground arith, IsLowest-half param d (ground arith) lowest)
  | inr odd ↦ (0, ground arith, record { is_set = ground arith; below_clear = refl })
]

-- For a parameter other than 0 the offset is the index of its lowest bit.
pub get_bit_offset-IsLowest : (param : ℕ) → 0 < param → IsLowest param (get_bit_offset param)
unfolding get_bit_offset
get_bit_offset-IsLowest param p =
    let (d, found, lowest) = offset_loop param param 0 (omega arith) p in
    subst (IsLowest param) (omega arith) lowest

-- The parameter `1 << k` that the server builds for light k leads back to light k.
pub get_bit_offset-pow : (k : ℕ) → get_bit_offset (2 ^ k) ≡ k
get_bit_offset-pow k =
    let lowest = get_bit_offset-IsLowest (2 ^ k) (one-le-pow k 2 (omega arith)) in
    ground (arith, lowest.is_set, test_bit-pow k (get_bit_offset (2 ^ k)))
