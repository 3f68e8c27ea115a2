-- ===== src/Creation.antt =====
-- How event_handler_t of src/server/event/event_handler.cpp makes events and commands, and
-- `set_actions` of src/server/event/event.h.
pub mod Offset
pub mod Events
pub mod Built
use smarty.Base.{
  ℕ, zero, suc, ◌+◌, ◌/◌, ◌%◌, ◌<◌, ◌≡◌, bit_and, bit_or, Bool, true, false, not, ◌&&◌, ◌||◌, ◌==◌,
  ◌/=◌, ltb, leb, List, [], ◌∷◌, ◌++◌, Option, none, some, if◌then◌else◌, length, get_elem?, set,
}
use smarty.Bits.Words.{shl_one, bit_not, dec_u32, all_ones}
use smarty.Common.{
  ErrorCode, error_ok, DeviceCommand, DeviceState, DeviceEventType, sensor, button, light,
  double_click, unknown, TriggerState, ec_turnoff,
}
use smarty.Command.{
  Command, ModeCmd, LightObject, set_turnoff_time, clear_turnoff_time, get_turnoff_timeout,
}
use smarty.Event.{
  DeviceEvent, new_device_event, on_device_event, ModeEvent, new_mode_event, on_mode_event,
  DoubleClickEvent, new_double_click_event, on_double_click_event,
}
use smarty.Handler.{
  EventHandler, Output, push, update_modes_request, execute_command, Result, ◌>>=◌, set_mode_bit,
}

-- get_bit_offset: the loop runs while the low bit is 0. The parameter shrinks at each round, so
-- itself serves as fuel (`offset_steps`).
unfoldable pub bit_offset_loop : ℕ → ℕ → ℕ → ℕ
bit_offset_loop zero param result = result
bit_offset_loop (suc fuel) param result =
    let rest = bit_offset_loop fuel (param / 2) (result + 1) in
    if param /= 0 && param % 2 == 0 then rest else result

unfoldable pub get_bit_offset : ℕ → ℕ
unfolding bit_offset_loop
get_bit_offset param = bit_offset_loop param param 0

unfoldable pub create_device_command : DeviceCommand → ℕ → EventHandler → Option Command
create_device_command cmd timeout h =
    let idx = get_bit_offset cmd.param in
    if ltb idx (length h.lights) then some (Command.device cmd timeout idx) else none

unfoldable pub create_mode_command : ℕ → Bool → ℕ → Command
create_mode_command pin turn_on timeout =
    Command.mode (record { mode_bit = pin; on_off = turn_on }) timeout

abbrev pub add_command : Command → Output
add_command c = push c

-- event_handler_t::create_device_event. The event that the source returns is named by the list that
-- holds it and its index there.
pub data EventRef : Type 0 where
  in_lights in_buttons in_sensors in_modes in_double_clicks : ℕ → EventRef

unfoldable pub create_device_event :
    DeviceEventType → ℕ → TriggerState → ℕ → EventHandler → Option (EventHandler × EventRef)
create_device_event DeviceEventType.light pin state mode h =
    let e = new_device_event DeviceEventType.light pin state mode h.device_state in
    some (record h { light_events = h.light_events ++ e ∷ [] }, in_lights (length h.light_events))
create_device_event DeviceEventType.button pin state mode h =
    let e = new_device_event DeviceEventType.button pin state mode h.device_state in
    some
      (record h { button_events = h.button_events ++ e ∷ [] }, in_buttons (length h.button_events))
create_device_event DeviceEventType.sensor pin state mode h =
    let e = new_device_event DeviceEventType.sensor pin state mode h.device_state in
    some
      (record h { sensor_events = h.sensor_events ++ e ∷ [] }, in_sensors (length h.sensor_events))
create_device_event DeviceEventType.double_click pin state mode h = some (
  record h { double_click_events = h.double_click_events ++ new_double_click_event pin mode ∷ [] },
  in_double_clicks (length h.double_click_events),
)
create_device_event DeviceEventType.unknown pin state mode h = none

unfoldable pub create_mode_event : ℕ → Bool → EventHandler → EventHandler × EventRef
create_mode_event mode enabled h = (
  record h { mode_events = h.mode_events ++ new_mode_event mode enabled h.event_modes_bitset ∷ [] },
  in_modes (length h.mode_events),
)

-- A change to the entry at an index
abbrev pub modify {ℓ} : {A : Type ℓ} → (A → A) → List A → ℕ → List A
modify f [] i = []
modify f (x ∷ xs) zero = f x ∷ xs
modify f (x ∷ xs) (suc i) = x ∷ modify f xs i

-- event_t::set_actions, on the event that a reference names
unfoldable pub set_actions : List Command → EventRef → EventHandler → EventHandler
set_actions acts (in_lights i) h = record h {
  light_events = modify (λ e. record e { actions = acts }) h.light_events i;
}
set_actions acts (in_buttons i) h = record h {
  button_events = modify (λ e. record e { actions = acts }) h.button_events i;
}
set_actions acts (in_sensors i) h = record h {
  sensor_events = modify (λ e. record e { actions = acts }) h.sensor_events i;
}
set_actions acts (in_modes i) h = record h {
  mode_events = modify (λ e. record e { actions = acts }) h.mode_events i;
}
set_actions acts (in_double_clicks i) h = record h {
  double_click_events = modify (λ e. record e { actions = acts }) h.double_click_events i;
}
