-- ===== src/Event/Firing.antt =====
-- When the events of src/server/event fire, in terms of single bits.
use mathlib.Core.Bool.{xor}
use native.Mathlib.Nat.{one-le-pow}
use smarty.Base.{
  ℕ, suc, ◌%◌, ◌+◌, ◌^◌, ◌<◌, ◌≡◌, arith, bit_and, bit_xor, Bool, true, false, ◌&&◌, ◌/=◌, [],
  if◌then◌else◌,
}
use smarty.Bits.{test_bit}
use smarty.Bits.Laws.{test_bit-bit_xor, bit_and-pow, bit_and_comm}
use smarty.Bits.Words.{dec_u32, bit_and-shl_one, changed_bit, masked_bit}
use smarty.Common.{TriggerState, low, high}
use smarty.Event.{DeviceEvent, fired, on_change, ModeEvent, bool_eq, on_mode_event}

-- The level that a trigger waits for.
abbrev pub wanted : TriggerState → Bool
wanted low = false
wanted high = true

fired_bit :
    (pin current previous : ℕ)
    → pin < 32
    → fired pin current previous
      ≡ (if xor (test_bit current pin) (test_bit previous pin) then 2 ^ pin else 0)
unfolding fired
fired_bit pin current previous h =
    ground (
      arith,
      bit_and-shl_one pin (bit_xor current previous) h,
      test_bit-bit_xor current previous pin,
    )

-- The level that the source computes as `fired & state`.
level_bit : (pin current : ℕ) → (bit_and (2 ^ pin) current /= 0) ≡ test_bit current pin
level_bit pin current =
    ground (arith, bit_and_comm (2 ^ pin) current, bit_and-pow pin current, one-le-pow pin 2)

-- An event on pin below 32 adds its actions exactly when its bit changed to the level it waits for.
pub on_change_lem :
    (e : DeviceEvent) (current previous : ℕ)
    → e.pin < 32
    → on_change e current previous ≡ (
        if xor (test_bit current e.pin) (test_bit previous e.pin)
          && bool_eq (test_bit current e.pin) (wanted e.trigger_state)
        then e.actions
        else [])
unfolding on_change
on_change_lem e current previous h =
    ground (arith, fired_bit e.pin current previous h, level_bit e.pin current, one-le-pow e.pin 2)

-- A mode event for mode 1 to 32 fires exactly when bit `mode - 1` changed to the state it waits for.
pub on_mode_event_lem :
    (bitset k : ℕ) (e : ModeEvent)
    → e.mode ≡ suc k
    → k < 32
    → (on_mode_event bitset e).1 ≡ (
        if xor (test_bit bitset k) (test_bit e.prev_bitset k)
          && bool_eq (test_bit bitset k) e.is_enabled
        then e.actions
        else [])
unfolding on_mode_event dec_u32
on_mode_event_lem bitset k e m h =
    let bit : (e.mode + 4294967295) % 4294967296 ≡ k = omega arith in
    ground (arith, changed_bit bitset e.prev_bitset k h, masked_bit bitset k h)
