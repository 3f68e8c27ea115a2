-- ===== src/Tests/Handlers.antt =====
-- Runs of the event handler (src/server/event).
use smarty.Base.{List, get_elem?, ◌^◌, ◌≡◌, refl, arith, true, List, [], ◌∷◌, ◌++◌, none, some, map}
use smarty.Common.{DeviceState, DeviceEventType, high, low, error_ok, ec_turnon}
use smarty.Command.{Command}
use smarty.Event.{DeviceEvent, ModeEvent, on_change, fired, on_device_event}
use smarty.Handler.{
  Output, EventHandler, push, update_modes_request, pushes, check_mode, fire_device_events,
  on_sensor_triggered, update_modes, mode_bit_set,
}
use smarty.Handler.Notify.{IsWired, callbacks_lem, due_actions, look}
use smarty.Handler.Modes.{update_modes_lem, check_mode-mode_bit_set, mode_actions, see_modes}
use smarty.Bits.Words.{shl_one}
use smarty.Creation.Built.{IsBuilt}
use smarty.Creation.Events.{created, with_event, set_actions-create_device_event}
use smarty.Worker.{check_light_objects, execute_device, Round}
use smarty.Worker.Lights.{
  check_light_objects_lem, turns_off, delayed_turns_off, reset, turn_offs, turn_off,
}

abbrev dark : DeviceState
dark = record { lights = 0; buttons = 0; sensors = 0 }

abbrev turn_on : Command
turn_on = Command.device (record { cmd = ec_turnon; param = 4 }) 0 2

-- Waits for sensor 2 to go high, in any mode.
abbrev on_motion : DeviceEvent
on_motion = record {
  mode = 0;
  actions = turn_on ∷ [];
  type = DeviceEventType.sensor;
  pin = 1;
  trigger_state = high;
  prev_state = dark;
}

abbrev on_night : ModeEvent
on_night = record { mode = 2; actions = turn_on ∷ []; is_enabled = true; prev_bitset = 0 }

-- Three lights, the second to be turned off at time 100
abbrev home : EventHandler
home = record {
  has_clients = true;
  device_state = dark;
  last_dblclck_pin = 0;
  light_events = [];
  button_events = [];
  sensor_events = on_motion ∷ [];
  mode_events = on_night ∷ [];
  double_click_events = [];
  event_modes_bitset = 0;
  lights =
      record { turnoff_time = 0 }
      ∷ record { turnoff_time = 100 }
      ∷ record { turnoff_time = 0 }
      ∷ [];
}

home-IsWired : IsWired home
home-IsWired = record {
  lights_wired = tt;
  buttons_wired = tt;
  sensors_wired = ((refl, omega arith), tt);
}

motion_turns_on :
    (on_sensor_triggered 2 home
      ≡ some (
        record home {
          device_state = record dark { sensors = 2 };
          sensor_events = record on_motion { prev_state = record dark { sensors = 2 } } ∷ [];
        },
        push turn_on ∷ [],
      ))
unfolding on_sensor_triggered fire_device_events check_mode on_device_event on_change fired shl_one
motion_turns_on = refl

callbacks_lem_example :
    on_sensor_triggered 2 home
    ≡ some (
      record home {
        device_state = record dark { sensors = 2 };
        sensor_events = map (look 0 (record dark { sensors = 2 })) (on_motion ∷ []);
      },
      pushes (due_actions 0 (λ s. s.sensors) (record dark { sensors = 2 }) (on_motion ∷ [])),
    )
callbacks_lem_example = (callbacks_lem 2 home home-IsWired).2

update_modes_lem_example :
    update_modes 2 home
    ≡ some (
      record home { event_modes_bitset = 2; mode_events = map (see_modes 2) (on_night ∷ []) },
      pushes (mode_actions 2 (on_night ∷ [])) ++ update_modes_request 2 ∷ [],
    )
update_modes_lem_example = update_modes_lem 2 home ((omega arith, omega arith), tt) refl

check_mode-mode_bit_set_example :
    check_mode (mode_bit_set (2 ^ 2) true 0) (2 ^ 2) ≡ check_mode 0 (2 ^ 2)
check_mode-mode_bit_set_example = check_mode-mode_bit_set 0 0 (omega arith)

set_actions-create_device_event_example :
    created DeviceEventType.sensor 3 low 1 (turn_on ∷ []) home
    ≡ some (with_event DeviceEventType.sensor 3 low 1 (turn_on ∷ []) home)
set_actions-create_device_event_example =
    set_actions-create_device_event DeviceEventType.sensor 3 low 1 (turn_on ∷ []) home (λ e. cc)

check_light_objects_lem_example :
    check_light_objects 100 home
    ≡ some (record home { lights = map (reset 100) home.lights }, turn_offs 100 0 home.lights)
check_light_objects_lem_example = check_light_objects_lem 100 home (omega arith)

turns_second_off : turn_offs 100 0 home.lights ≡ push (turn_off 1) ∷ []
turns_second_off = refl

delayed_turns_off_example :
    (h' : EventHandler) × (h'' : EventHandler) × (out : List Output) × (execute_device 50 error_ok
        (record { cmd = ec_turnon; param = 4 })
        30
        2
        home
      ≡ some (h', [], error_ok))
    × (check_light_objects 90 h' ≡ some (h'', out))
    × (turns_off 2 out ≡ true)
    × (get_elem? h''.lights 2 ≡ some (record { turnoff_time = 0 }))
delayed_turns_off_example =
    delayed_turns_off 50 90 30 2 error_ok (record { cmd = ec_turnon; param = 4 }) home
      (record { turnoff_time = 0 }) (λ e. omega arith) (omega arith) refl

abbrev rounds : List Round
rounds =
    record { popped = some turn_on; answer = error_ok; execute_time = 90; check_time = 90 }
    ∷ record { popped = none; answer = error_ok; execute_time = 101; check_time = 101 }
    ∷ []

home-IsBuilt : IsBuilt 3 home
home-IsBuilt = record {
  count = refl;
  lights_fit = tt;
  buttons_fit = tt;
  sensors_fit = ((refl, (omega arith, tt)), tt);
  modes_fit = ((omega arith, tt), tt);
  clicks_fit = tt;
}
