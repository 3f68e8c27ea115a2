-- ===== src/Handler/Modes.antt =====
-- The mode bits of src/server/event/event_handler.cpp: mode n has bit n - 1.
use mathlib.Core.Bool.{xor}
use native.Mathlib.Nat.{pow-suc, one-le-pow}
use smarty.Base.{
  ℕ, zero, suc, ◌-◌, ◌^◌, ◌≤◌, ◌<◌, ◌≡◌, refl, ap, arith, Bool, true, false, not, ◌&&◌, ◌==◌, ◌/=◌,
  List, [], ◌∷◌, ◌++◌, some, if◌then◌else◌, map, All,
}
use smarty.Bits.{test_bit}
use smarty.Bits.Laws.{bit_and-pow}
use smarty.Bits.Sizes.{bit_or-small, bit_and-small, eq_of_low_bits}
use smarty.Bits.Words.{shl_one, shl_one-small, test_bit-set, test_bit-clear, dec_u32-suc}
use smarty.Command.{Command}
use smarty.Event.{ModeEvent, on_mode_event, bool_eq}
use smarty.Event.Firing.{on_mode_event_lem}
use smarty.Handler.{
  EventHandler, update_modes_request, pushes, check_mode, fire_mode_events, update_modes,
  mode_bit_set, set_mode_bit,
}

-- A mode that has a bit
abbrev pub HasBit : ℕ → Type 0
HasBit mode = (0 < mode) × (mode ≤ 32)

-- The bit of a mode event changed to the state that the event waits for.
abbrev pub mode_due : ℕ → ModeEvent → Bool
mode_due bitset e =
    xor (test_bit bitset (e.mode - 1)) (test_bit e.prev_bitset (e.mode - 1))
    && bool_eq (test_bit bitset (e.mode - 1)) e.is_enabled

abbrev pub mode_actions : ℕ → List ModeEvent → List Command
mode_actions bitset [] = []
mode_actions bitset (e ∷ es) =
    (if mode_due bitset e then e.actions else []) ++ mode_actions bitset es

abbrev pub see_modes : ℕ → ModeEvent → ModeEvent
see_modes bitset e = record e { prev_bitset = bitset }

on_one :
    (bitset : ℕ) (e : ModeEvent)
    → HasBit e.mode
    → on_mode_event bitset e ≡ (see_modes bitset e, if mode_due bitset e then e.actions else [])
unfolding on_mode_event
on_one bitset e b =
    λ i. (see_modes bitset e, on_mode_event_lem bitset (e.mode - 1) e (omega arith) (omega arith) i)

fire_mode_events_lem :
    (bitset : ℕ) (es : List ModeEvent)
    → All (λ e. HasBit e.mode) es
    → fire_mode_events bitset es ≡ (map (see_modes bitset) es, mode_actions bitset es)
unfolding fire_mode_events
fire_mode_events_lem bitset [] h = refl
fire_mode_events_lem bitset (e ∷ es) h =
    rw (on_one bitset e h.0, fire_mode_events_lem bitset es h.1)

-- With the clients set and every mode event on a mode from 1 to 32, so that it has a bit: a request
-- for the present modes changes nothing. Any other stores them,
-- queues the actions of the mode events whose bit changed to the state they wait for, and then
-- tells the clients.
pub update_modes_lem :
    (bitset : ℕ) (h : EventHandler)
    → All (λ e. HasBit e.mode) h.mode_events
    → h.has_clients ≡ true
    → update_modes bitset h ≡ (
        if bitset == h.event_modes_bitset
        then some (h, [])
        else some (
          record h {
            event_modes_bitset = bitset;
            mode_events = map (see_modes bitset) h.mode_events;
          },
          pushes (mode_actions bitset h.mode_events) ++ update_modes_request bitset ∷ [],
        ))
unfolding update_modes
update_modes_lem bitset h m c = ground (arith, fire_mode_events_lem bitset h.mode_events m)

-- The bit of mode k + 1 gets the value asked for, and the other bits of the word stay.
pub mode_bit_set-bits :
    (k i bitset : ℕ) (on_off : Bool)
    → k < 32
    → i < 32
    → test_bit (mode_bit_set (suc k) on_off bitset) i
      ≡ (if k == i then on_off else test_bit bitset i)
unfolding mode_bit_set
mode_bit_set-bits k i bitset true h l =
    rw (dec_u32-suc k h) (ground (arith, test_bit-set bitset k i h))
mode_bit_set-bits k i bitset false h l =
    rw (dec_u32-suc k h) (ground (arith, test_bit-clear bitset k i h l))

mode_bit_set-small :
    (k bitset : ℕ) (on_off : Bool)
    → k < 32
    → bitset < 2 ^ 32
    → mode_bit_set (suc k) on_off bitset < 2 ^ 32
unfolding mode_bit_set shl_one
mode_bit_set-small k bitset true h l =
    rw (dec_u32-suc k h) (bit_or-small 32 bitset (shl_one k) l (shl_one-small k h))
mode_bit_set-small k bitset false h l = bit_and-small 32 bitset _ l

-- Writing the value that the bit has leaves the word as it is.
mode_bit_set_same :
    (k bitset : ℕ) (on_off : Bool)
    → k < 32
    → bitset < 2 ^ 32
    → test_bit bitset k ≡ on_off
    → mode_bit_set (suc k) on_off bitset ≡ bitset
mode_bit_set_same k bitset on_off h l e =
    eq_of_low_bits 32 _ bitset (mode_bit_set-small k bitset on_off h l) l
      λ i low. ground (arith, mode_bit_set-bits k i bitset on_off h low)

-- The bitset changes exactly when the bit had another value.
mode_bit_set-changes :
    (k bitset : ℕ) (on_off : Bool)
    → k < 32
    → bitset < 2 ^ 32
    → (mode_bit_set (suc k) on_off bitset /= bitset) ≡ not (bool_eq (test_bit bitset k) on_off)
mode_bit_set-changes k bitset on_off h l =
    ground (arith, mode_bit_set_same k bitset on_off h l, mode_bit_set-bits k k bitset on_off h h)

-- Switching mode k + 1 gives its bit the value asked for and keeps the others, bit i being any bit of
-- the word; the clients, which are set, are told the new bitset if the bit had another value, and
-- nothing else happens.
pub set_mode_bit_lem :
    (k i : ℕ) (on_off : Bool) (h : EventHandler)
    → k < 32
    → i < 32
    → h.event_modes_bitset < 2 ^ 32
    → h.has_clients ≡ true
    → let bitset = mode_bit_set (suc k) on_off h.event_modes_bitset in
      (set_mode_bit (suc k) on_off h
        ≡ some (
          record h { event_modes_bitset = bitset },
          if bool_eq (test_bit h.event_modes_bitset k) on_off
              then []
              else update_modes_request bitset ∷ [],
        ))
      × (test_bit bitset i ≡ (if k == i then on_off else test_bit h.event_modes_bitset i))
unfolding set_mode_bit
set_mode_bit_lem k i on_off h small low word clients =
    let old = h.event_modes_bitset in
    (
      ground (
        arith,
        mode_bit_set_same k old on_off small word,
        mode_bit_set-changes k old on_off small word,
      ),
      mode_bit_set-bits k i old on_off small low,
    )

pow-grows : (k : ℕ) → suc (suc (suc k)) < 2 ^ suc (suc k)
pow-grows zero = omega arith
pow-grows (suc k) = omega (arith, pow-grows k, pow-suc 2 (suc (suc k)))

-- An event of the mode 2 ^ k looks at bit k.
pub check_mode-pow : (k bitset : ℕ) → check_mode bitset (2 ^ k) ≡ test_bit bitset k
unfolding check_mode
check_mode-pow k bitset = ground (arith, bit_and-pow k bitset, one-le-pow k 2)

-- `check_mode` takes a mode number for a mask, while mode n has bit n - 1. For each mode 2 ^ k from
-- mode 4 to mode 32, switching the mode on does not change whether its events may run.
pub check_mode-mode_bit_set :
    (j bitset : ℕ)
    → let k = suc (suc j) in
      2 ^ k ≤ 32 → check_mode (mode_bit_set (2 ^ k) true bitset) (2 ^ k) ≡ check_mode bitset (2 ^ k)
check_mode-mode_bit_set j bitset fits =
    let k = suc (suc j) in
    let above = pow-grows j in
    let before : 2 ^ k ≡ suc (2 ^ k - 1) = omega arith in
    rw (check_mode-pow k (mode_bit_set (2 ^ k) true bitset), check_mode-pow k bitset)
      (ground (
        arith,
        ap (λ m. mode_bit_set m true bitset) before,
        mode_bit_set-bits (2 ^ k - 1) k bitset true (omega arith) (omega arith),
      ))
