-- ===== src/Device.antt =====
-- device_t of src/server/device/device.h and device.cpp. The driver, the observers and the update
-- event stand outside: what the device asks of them is a list of outputs, in order.
pub mod Changes
pub mod Races
pub mod Observers
use smarty.Base.{
  ℕ, ◌%◌, Bool, true, false, ◌/=◌, List, [], ◌∷◌, ◌++◌, Option, none, some, if◌then◌else◌,
}
use smarty.Bits.Words.{all_ones}
use smarty.Common.{ErrorCode, error_ok, DeviceCommand, DeviceState, ec_status, ec_turnall}
use smarty.Observer.{
  Notice, light_changed, button_pressed, sensor_triggered, double_click, insert, erase,
}

pub record Device : Type 0 where
  pub device_state : DeviceState
  pub prev_device_state : DeviceState
  pub double_click_pin : ℕ  -- uint
  pub observers : List ℕ

pub data Output : Type 0 where
  -- m_driver.execute_command
  execute : DeviceCommand → Output
  -- a call of an observer
  notify : ℕ → Notice → Output
  -- m_update_event.set, .reset
  set_update_event reset_update_event : Output
  -- m_driver.add_observer( *this ), remove_observer( *this )
  observe unobserve : Output

-- PIN_NOT_SET
abbrev pub pin_not_set : ℕ
pin_not_set = all_ones

abbrev pub zero_state : DeviceState
zero_state = record { lights = 0; buttons = 0; sensors = 0 }

-- device_t::device_t
unfoldable pub new_device : Device
new_device = record {
  device_state = zero_state;
  prev_device_state = zero_state;
  double_click_pin = pin_not_set;
  observers = [];
}

-- What `init` meets: the answer of `m_driver.get_state`, and the option `off_on_start` of the
-- configuration, if it is an unsigned number.
pub record Startup : Type 0 where
  pub code : ErrorCode
  pub state : DeviceState
  pub off_on_start : Option ℕ

-- `ushort off_on_start`
abbrev pub off_on_start_value : Option ℕ → ℕ
off_on_start_value none = 0
off_on_start_value (some n) = n % 65536

unfoldable pub turn_off_on_start : ℕ → List Output
turn_off_on_start off =
    if off /= 0 then execute (record { cmd = ec_turnall; param = 0 }) ∷ [] else []

-- What `init` does with the answer of the driver
unfoldable pub init_state : ErrorCode → Startup → Device → Device × List Output × Bool
unfolding turn_off_on_start
init_state error_ok s d = (
  record d { device_state = s.state; prev_device_state = s.state },
  execute (record { cmd = ec_status; param = 0 })
      ∷ turn_off_on_start (off_on_start_value s.off_on_start),
  true,
)
init_state _ s d = (d, execute (record { cmd = ec_status; param = 0 }) ∷ [], false)

-- device_t::init
unfoldable pub init : Startup → Device → Device × List Output × Bool
unfolding init_state
init s d = init_state s.code s d

unfoldable pub on_light_changed : ℕ → Device → Device × List Output
on_light_changed state d =
    (record d { device_state = record d.device_state { lights = state } }, set_update_event ∷ [])

unfoldable pub on_button_pressed : ℕ → Device → Device × List Output
on_button_pressed state d =
    (record d { device_state = record d.device_state { buttons = state } }, set_update_event ∷ [])

unfoldable pub on_sensor_triggered : ℕ → Device → Device × List Output
on_sensor_triggered state d =
    (record d { device_state = record d.device_state { sensors = state } }, set_update_event ∷ [])

unfoldable pub on_double_click : ℕ → Device → Device × List Output
on_double_click button_pin d = (record d { double_click_pin = button_pin }, set_update_event ∷ [])

unfoldable pub get_lights_state : Device → ℕ
get_lights_state d = d.device_state.lights

unfoldable pub execute_command : DeviceCommand → Device → List Output
execute_command cmd d = execute cmd ∷ []

unfoldable pub add_observer : ℕ → Device → Device
add_observer observer d = record d { observers = insert observer d.observers }

unfoldable pub remove_observer : ℕ → Device → Device
remove_observer observer d = record d { observers = erase observer d.observers }

-- `for ( auto& observer : m_observers )`
abbrev pub notify_all : List ℕ → Notice → List Output
notify_all [] n = []
notify_all (o ∷ os) n = notify o n ∷ notify_all os n

unfoldable pub check_lights_changes : Device → List Output
check_lights_changes d =
    if d.prev_device_state.lights /= d.device_state.lights
    then notify_all d.observers (light_changed d.device_state.lights)
    else []

unfoldable pub check_buttons_changes : Device → List Output
check_buttons_changes d =
    if d.prev_device_state.buttons /= d.device_state.buttons
    then notify_all d.observers (button_pressed d.device_state.buttons)
    else []

unfoldable pub check_sensors_changes : Device → List Output
check_sensors_changes d =
    if d.prev_device_state.sensors /= d.device_state.sensors
    then notify_all d.observers (sensor_triggered d.device_state.sensors)
    else []

unfoldable pub check_double_click : Device → List Output
check_double_click d =
    if d.double_click_pin /= pin_not_set
    then notify_all d.observers (double_click d.double_click_pin)
    else []

-- The two assignments that end `check_for_changes`
unfoldable pub take_over : Device → Device
take_over d = record d { prev_device_state = d.device_state; double_click_pin = pin_not_set }

unfoldable pub check_for_changes : Device → Device × List Output
check_for_changes d = (
  take_over d,
  check_lights_changes d
      ++ check_buttons_changes d
      ++ check_sensors_changes d
      ++ check_double_click d,
)

-- A call that the driver makes of the device as its observer
unfoldable pub deliver : Notice → Device → Device × List Output
unfolding on_light_changed on_button_pressed on_sensor_triggered on_double_click
deliver (light_changed state) d = on_light_changed state d
deliver (button_pressed state) d = on_button_pressed state d
deliver (sensor_triggered state) d = on_sensor_triggered state d
deliver (double_click pin) d = on_double_click pin d

unfoldable pub deliver_all : List Notice → Device → Device × List Output
deliver_all [] d = (d, [])
deliver_all (n ∷ ns) d =
    let (d', first) = deliver n d in let (d'', rest) = deliver_all ns d' in (d'', first ++ rest)

-- The loop of `do_run` over the rounds before it is stopped: for each, the calls of the driver that
-- come before the device wakes, where none comes between the check and the end of the round.
unfoldable pub run_rounds : List (List Notice) → Device → Device × List Output
run_rounds [] d = (d, [])
run_rounds (ns ∷ rounds) d =
    let (d', calls) = deliver_all ns d in
    let (d'', notices) = check_for_changes d' in
    let (last, rest) = run_rounds rounds d'' in
    (last, calls ++ notices ++ reset_update_event ∷ rest)

unfoldable pub do_run : List (List Notice) → Device → Device × List Output
do_run rounds d = let (last, out) = run_rounds rounds d in (last, observe ∷ (out ++ unobserve ∷ []))

unfoldable pub do_stop : List Output
do_stop = set_update_event ∷ []

-- `check_for_changes` with the calls that the driver's thread makes in each gap between its steps;
-- the source takes no lock. The outputs are those of the check.
unfoldable pub interleaved_check :
    (after_lights after_buttons after_sensors after_click : List Notice)
    → Device
    → Device × List Output
interleaved_check after_lights after_buttons after_sensors after_click d =
    let d1 = (deliver_all after_lights d).0 in
    let d2 = (deliver_all after_buttons d1).0 in
    let d3 = (deliver_all after_sensors d2).0 in
    let d4 = (deliver_all after_click d3).0 in
    (
      take_over d4,
      check_lights_changes d
          ++ check_buttons_changes d1
          ++ check_sensors_changes d2
          ++ check_double_click d3,
    )
