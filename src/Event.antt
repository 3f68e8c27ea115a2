-- ===== src/Event.antt =====
-- The events of src/server/event: device_event.cpp, mode_event.cpp, double_click_event.cpp and the
-- base class of event.h. The references that an event holds into its handler, to the device state,
-- the modes bitset and the last double click, are arguments of `on_event`; the commands that it
-- hands to `m_command_handler.add_command` are its result, in order.
pub mod Firing
use smarty.Base.{
  ℕ, suc, ◌≡◌, bit_and, bit_xor, Bool, true, false, ◌==◌, ◌/=◌, not, List, [], ◌∷◌, Option, none,
  some, if◌then◌else◌,
}
use smarty.Bits.Words.{shl_one, dec_u32}
use smarty.Common.{
  DeviceState, DeviceEventType, sensor, button, light, double_click, unknown, TriggerState, low,
  high,
}
use smarty.Command.{Command}

pub record DeviceEvent : Type 0 where
  pub mode : ℕ  -- uint
  pub actions : List Command
  pub type : DeviceEventType
  pub pin : ℕ  -- uint
  pub trigger_state : TriggerState
  pub prev_state : DeviceState

unfoldable pub new_device_event : DeviceEventType → ℕ → TriggerState → ℕ → DeviceState → DeviceEvent
new_device_event type pin trigger_state mode device_state = record {
  mode = mode;
  actions = [];
  type = type;
  pin = pin;
  trigger_state = trigger_state;
  prev_state = device_state;
}

-- The word of the state that an event of this type looks at; the two other types fail an ASSERT.
abbrev pub watched : DeviceEventType → Option (DeviceState → ℕ)
watched DeviceEventType.sensor = some (λ s. s.sensors)
watched DeviceEventType.button = some (λ s. s.buttons)
watched DeviceEventType.light = some (λ s. s.lights)
watched DeviceEventType.double_click = none
watched DeviceEventType.unknown = none

-- `( current ^ previous ) & ( 1 << m_pin )`
unfoldable pub fired : ℕ → ℕ → ℕ → ℕ
fired pin current previous = bit_and (bit_xor current previous) (shl_one pin)

abbrev pub trigger_eq : TriggerState → TriggerState → Bool
trigger_eq low low = true
trigger_eq low high = false
trigger_eq high low = false
trigger_eq high high = true

-- What follows the switch: the commands of an event that looks at the words `current`, `previous`.
unfoldable pub on_change : DeviceEvent → ℕ → ℕ → List Command
on_change e current previous =
    let f = fired e.pin current previous in
    let actual = if bit_and f current /= 0 then high else low in
    if f == 0 then [] else if not (trigger_eq actual e.trigger_state) then [] else e.actions

-- device_event_t::on_event; `none` where an ASSERT fails.
unfoldable pub on_device_event : DeviceState → DeviceEvent → Option (DeviceEvent × List Command)
unfolding on_change
on_device_event state e = elim (watched e.type) [
  | none ↦ none
  | some word ↦ some (record e { prev_state = state }, on_change e (word state) (word e.prev_state))
]

pub record ModeEvent : Type 0 where
  pub mode : ℕ  -- uint
  pub actions : List Command
  pub is_enabled : Bool
  pub prev_bitset : ℕ  -- uint

unfoldable pub new_mode_event : ℕ → Bool → ℕ → ModeEvent
new_mode_event mode enabled bitset = record {
  mode = mode;
  actions = [];
  is_enabled = enabled;
  prev_bitset = bitset;
}

abbrev pub bool_eq : Bool → Bool → Bool
bool_eq true b = b
bool_eq false b = not b

-- mode_event_t::on_event
unfoldable pub on_mode_event : ℕ → ModeEvent → ModeEvent × List Command
on_mode_event bitset e =
    let mode_bit = shl_one (dec_u32 e.mode) in
    let changed = bit_and (bit_xor bitset e.prev_bitset) mode_bit /= 0 in
    let current_state = bit_and bitset mode_bit /= 0 in
    (
      record e { prev_bitset = bitset },
      if not changed
          then []
          else if not (bool_eq current_state e.is_enabled)
          then []
          else e.actions,
    )

pub record DoubleClickEvent : Type 0 where
  pub mode : ℕ  -- uint
  pub actions : List Command
  pub pin : ℕ  -- uint

unfoldable pub new_double_click_event : ℕ → ℕ → DoubleClickEvent
new_double_click_event pin mode = record { mode = mode; actions = []; pin = pin }

-- double_click_event_t::on_event
unfoldable pub on_double_click_event : ℕ → DoubleClickEvent → List Command
on_double_click_event last_dblclick e = if last_dblclick /= e.pin then [] else e.actions
