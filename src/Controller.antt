-- ===== src/Controller.antt =====
-- device_controller_t of src/driver/device_controller.h and device_controller.cpp, over the
-- interface driver_t of src/driver/driver.h. A driver is what it answers: for the n-th call of one
-- command, the result and the state that it leaves where the caller had `state`.
-- The clock (`time( nullptr )`) is an argument, one reading for each light.
pub mod Commands
pub mod Clicks
pub mod Heard
pub mod Kept
use smarty.Base.{
  ℕ, zero, suc, ◌+◌, ◌-◌, Bool, true, false, ◌&&◌, ◌==◌, ◌/=◌, ltb, List, [], ◌∷◌, ◌++◌, bit_and,
  bit_xor, if◌then◌else◌, replicate,
}
use smarty.Bits.Words.{shl_one}
use smarty.Common.{ErrorCode, error_ok, DeviceCommand, DeviceState, state_ne, ec_status}
use smarty.Observer.{
  Notice, light_changed, button_pressed, sensor_triggered, double_click, insert, erase,
}

abbrev pub max_light_count : ℕ
max_light_count = 8

pub record Controller : Type 0 where
  pub observers : List ℕ
  pub device_state : DeviceState
  pub light_times : List ℕ  -- time_t

pub data Output : Type 0 where
  -- m_device.execute_command
  execute : DeviceCommand → Output
  -- a call of an observer
  notify : ℕ → Notice → Output

-- driver_t::execute_command
abbrev pub Driver : Type 0
Driver = ℕ → DeviceCommand → DeviceState → Bool × DeviceState

-- device_controller_t::device_controller_t
unfoldable pub new_controller : Controller
new_controller = record {
  observers = [];
  device_state = record { lights = 0; buttons = 0; sensors = 0 };
  light_times = replicate max_light_count 0;
}

unfoldable pub get_state : Controller → ErrorCode × DeviceState
get_state c = (error_ok, c.device_state)

unfoldable pub add_observer : ℕ → Controller → Controller × ErrorCode
add_observer observer c = (record c { observers = insert observer c.observers }, error_ok)

unfoldable pub remove_observer : ℕ → Controller → Controller × ErrorCode
remove_observer observer c = (record c { observers = erase observer c.observers }, error_ok)

-- `for ( auto& observer : m_observers_list )`
abbrev pub notify_all : List ℕ → Notice → List Output
notify_all [] n = []
notify_all (o ∷ os) n = notify o n ∷ notify_all os n

-- The body of the loop of `update_light_times` for a light whose bit is set: the calls to observers.
-- The clock does not run backwards, so `difftime` is not negative.
unfoldable pub click : ℕ → ℕ → ℕ → List ℕ → List Output
click idx now time observers =
    if ltb (now - time) 2 then notify_all observers (double_click idx) else []

-- The loop of `update_light_times` from light `idx` on, over the times that are left
unfoldable pub update_times_from : (ℕ → ℕ) → ℕ → List ℕ → ℕ → List ℕ → List ℕ × List Output
update_times_from clock bitset observers idx [] = ([], [])
update_times_from clock bitset observers idx (t ∷ ts) =
    let (times, out) = update_times_from clock bitset observers (idx + 1) ts in
    if bit_and bitset (shl_one idx) /= 0
    then (clock idx ∷ times, click idx (clock idx) t observers ++ out)
    else (t ∷ times, out)

unfoldable pub update_light_times : (ℕ → ℕ) → ℕ → Controller → Controller × List Output
update_light_times clock bitset c =
    let (times, out) = update_times_from clock bitset c.observers 0 c.light_times in
    (record c { light_times = times }, out)

-- `if ( m_device_state.w != state.w ) for ( auto& observer : … )`, for one of the three words
unfoldable pub notify_change : List ℕ → (ℕ → Notice) → ℕ → ℕ → List Output
notify_change observers kind old new = if old /= new then notify_all observers (kind new) else []

-- The double clicks of a change of the lights
unfoldable pub check_clicks : (ℕ → ℕ) → ℕ → Controller → Controller × List Output
check_clicks clock lights c =
    let old = c.device_state.lights in
    if old /= lights then update_light_times clock (bit_xor old lights) c else (c, [])

-- The three tests for a changed word, and the assignment of the state
unfoldable pub take_state : (ℕ → ℕ) → DeviceState → Controller → Controller × List Output
take_state clock state c =
    let old = c.device_state in
    let (c', clicks) = check_clicks clock state.lights c in
    (
      record c' { device_state = state },
      clicks
          ++ notify_change c.observers light_changed old.lights state.lights
          ++ notify_change c.observers button_pressed old.buttons state.buttons
          ++ notify_change c.observers sensor_triggered old.sensors state.sensors,
    )

-- The second half of `do_execute_command`: the driver's n-th call, with `state` passed in
unfoldable pub execute_stage :
    Driver → (ℕ → ℕ) → ℕ → DeviceCommand → DeviceState → Controller → Controller × List Output
execute_stage driver clock n cmd state c =
    let (done, state') = driver n cmd state in
    let (c', out) = take_state clock state' c in
    if done && state_ne c.device_state state'
    then (c', execute cmd ∷ out)
    else (c, execute cmd ∷ [])

-- device_controller_t::do_execute_command. The local `state` is not initialised: `junk` is what
-- stands in it.
unfoldable pub do_execute_command :
    Driver → (ℕ → ℕ) → DeviceState → DeviceCommand → Controller → Controller × List Output
do_execute_command driver clock junk command c =
    if command.param == 0xFF
    then (let half = record command { param = 0x0F } in
        let (done, state) = driver 0 half junk in
        let (c', out) = execute_stage driver clock 1 (record command { param = 0xF0 }) state c in
        (c', execute half ∷ out))
    else execute_stage driver clock 0 command junk c

-- device_controller_t::execute_command; the drivers of its two commands are given one by one, since
-- a driver's answers may change between them. So are the clocks and the uninitialised states.
unfoldable pub execute_command :
    Driver
    → Driver
    → (ℕ → ℕ)
    → (ℕ → ℕ)
    → DeviceState
    → DeviceState
    → DeviceCommand
    → Controller
    → Controller × List Output × ErrorCode
execute_command driver driver' clock clock' junk junk' command c =
    let (c1, out1) = do_execute_command driver clock junk command c in
    let (c2, out2) =
      do_execute_command driver' clock' junk' (record { cmd = ec_status; param = 0 }) c1 in
    (c2, out1 ++ out2, error_ok)

-- What one round of the polling loop of `do_run` meets
pub record Poll : Type 0 where
  pub driver : Driver
  pub clock : ℕ → ℕ
  pub junk : DeviceState

-- device_controller_t::do_run over the rounds before it is stopped
unfoldable pub do_run : List Poll → Controller → Controller × List Output
do_run [] c = (c, [])
do_run (p ∷ ps) c =
    let (c', first) =
      do_execute_command p.driver p.clock p.junk (record { cmd = ec_status; param = 0 }) c in
    let (c'', rest) = do_run ps c' in (c'', first ++ rest)
