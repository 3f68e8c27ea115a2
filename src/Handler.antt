-- ===== src/Handler.antt =====
-- event_handler_t of src/server/event/event_handler.h and event_handler.cpp.
-- The command queue (`lock_queue_t`), the clients and the device stand outside: what the handler
-- sends them is a list of outputs, in order, and what it takes from them is an argument. `none`
-- stands for a failed ASSERT, after which the C++ code has no defined behaviour.
pub mod Modes
pub mod Hearing
pub mod Notify
use smarty.Base.{
  ℕ, zero, suc, ◌+◌, ◌/◌, ◌%◌, ◌<◌, ◌≡◌, bit_and, bit_or, Bool, true, false, not, ◌&&◌, ◌||◌, ◌==◌,
  ◌/=◌, ltb, leb, List, [], ◌∷◌, ◌++◌, Option, none, some, if◌then◌else◌, length, get_elem?, set,
}
use smarty.Bits.Words.{shl_one, bit_not, dec_u32, all_ones}
use smarty.Common.{
  ErrorCode, error_ok, DeviceCommand, DeviceState, DeviceEventType, sensor, button, light,
  double_click, unknown, TriggerState, ec_turnoff,
}
use smarty.Command.{
  Command, ModeCmd, LightObject, set_turnoff_time, clear_turnoff_time, get_turnoff_timeout,
}
use smarty.Event.{
  DeviceEvent, new_device_event, on_device_event, ModeEvent, new_mode_event, on_mode_event,
  DoubleClickEvent, new_double_click_event, on_double_click_event,
}

pub record EventHandler : Type 0 where
  pub has_clients : Bool  -- m_clients is set
  pub device_state : DeviceState
  pub last_dblclck_pin : ℕ  -- uint
  pub light_events : List DeviceEvent
  pub button_events : List DeviceEvent
  pub sensor_events : List DeviceEvent
  pub mode_events : List ModeEvent
  pub double_click_events : List DoubleClickEvent
  pub event_modes_bitset : ℕ  -- uint
  pub lights : List LightObject

-- What the handler does to the objects around it.
pub data Output : Type 0 where
  -- m_cmd_queue.push
  push : Command → Output
  -- m_clients->on_update_modes_request
  update_modes_request : ℕ → Output
  -- m_device.execute_command
  execute_command : DeviceCommand → Output

-- The result of an operation: `none` is a failed ASSERT.
abbrev pub Result : Type 0
Result = Option (EventHandler × List Output)

infixl 5 ◌>>=◌
abbrev pub ◌>>=◌ {ℓ κ} : {A : Type ℓ} {B : Type κ} → Option A → (A → Option B) → Option B
none >>= f = none
some a >>= f = f a

-- event_handler_t::event_handler_t, with the state that the device has then
unfoldable pub new_event_handler : DeviceState → EventHandler
new_event_handler state = record {
  has_clients = false;
  device_state = state;
  last_dblclck_pin = all_ones;
  light_events = [];
  button_events = [];
  sensor_events = [];
  mode_events = [];
  double_click_events = [];
  event_modes_bitset = 0;
  lights = [];
}

unfoldable pub set_client_register : EventHandler → EventHandler
set_client_register h = record h { has_clients = true }

unfoldable pub get_modes_bitset : EventHandler → ℕ
get_modes_bitset h = h.event_modes_bitset

unfoldable pub check_mode : ℕ → ℕ → Bool
check_mode bitset mode = bit_and bitset mode /= 0 || mode == 0

abbrev pub pushes : List Command → List Output
pushes [] = []
pushes (c ∷ cs) = push c ∷ pushes cs

-- `for ( auto& event_handler : m_mode_events ) event_handler->on_event( );`
unfoldable pub fire_mode_events : ℕ → List ModeEvent → List ModeEvent × List Command
fire_mode_events bitset [] = ([], [])
fire_mode_events bitset (e ∷ es) =
    let (e', now) = on_mode_event bitset e in
    let (es', later) = fire_mode_events bitset es in (e' ∷ es', now ++ later)

unfoldable pub update_modes : ℕ → EventHandler → Result
update_modes bitset h =
    if bitset == h.event_modes_bitset
    then some (h, [])
    else (let (events, commands) = fire_mode_events bitset h.mode_events in
        if h.has_clients
        then some (
          record h { event_modes_bitset = bitset; mode_events = events },
          pushes commands ++ update_modes_request bitset ∷ [],
        )
        else none)

-- The bitset after `set_mode_bit`
unfoldable pub mode_bit_set : ℕ → Bool → ℕ → ℕ
mode_bit_set bit on_off bitset =
    let mask = shl_one (dec_u32 bit) in
    if on_off then bit_or bitset mask else bit_and bitset (bit_not mask)

unfoldable pub set_mode_bit : ℕ → Bool → EventHandler → Result
set_mode_bit bit on_off h =
    let bitset = mode_bit_set bit on_off h.event_modes_bitset in
    if bitset /= h.event_modes_bitset
    then if h.has_clients
      then some (record h { event_modes_bitset = bitset }, update_modes_request bitset ∷ [])
      else none
    else some (h, [])

-- The loop over the events of one kind in `on_light_changed` and its two siblings
unfoldable pub fire_device_events :
    ℕ → DeviceState → List DeviceEvent → Option (List DeviceEvent × List Command)
fire_device_events bitset state [] = some ([], [])
fire_device_events bitset state (e ∷ es) =
    (if check_mode bitset e.mode then on_device_event state e else some (e, [])) >>= λ first.
    fire_device_events bitset state es >>= λ rest. some (first.0 ∷ rest.0, first.1 ++ rest.1)

unfoldable pub on_light_changed : ℕ → EventHandler → Result
on_light_changed lights h =
    let state = record h.device_state { lights = lights } in
    fire_device_events h.event_modes_bitset state h.light_events >>= λ r.
    some (record h { device_state = state; light_events = r.0 }, pushes r.1)

unfoldable pub on_button_pressed : ℕ → EventHandler → Result
on_button_pressed buttons h =
    let state = record h.device_state { buttons = buttons } in
    fire_device_events h.event_modes_bitset state h.button_events >>= λ r.
    some (record h { device_state = state; button_events = r.0 }, pushes r.1)

unfoldable pub on_sensor_triggered : ℕ → EventHandler → Result
on_sensor_triggered sensors h =
    let state = record h.device_state { sensors = sensors } in
    fire_device_events h.event_modes_bitset state h.sensor_events >>= λ r.
    some (record h { device_state = state; sensor_events = r.0 }, pushes r.1)

unfoldable pub fire_double_clicks : ℕ → ℕ → List DoubleClickEvent → List Command
fire_double_clicks bitset pin [] = []
fire_double_clicks bitset pin (e ∷ es) =
    (if check_mode bitset e.mode then on_double_click_event pin e else [])
    ++ fire_double_clicks bitset pin es

unfoldable pub on_double_click : ℕ → EventHandler → EventHandler × List Output
on_double_click pin h = (
  record h { last_dblclck_pin = pin },
  pushes (fire_double_clicks h.event_modes_bitset pin h.double_click_events),
)
