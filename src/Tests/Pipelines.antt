-- ===== src/Tests/Pipelines.antt =====
-- A run from the controller of the hardware (src/driver) to the event handler (src/server/event).
use smarty.Base.{◌≡◌, refl, arith, true, false, [], ◌∷◌, some, replicate}
use smarty.Common.{DeviceState, DeviceEventType, high, ec_turnon, ec_status}
use smarty.Command.{Command}
use smarty.Event.{DeviceEvent, DoubleClickEvent}
use smarty.Controller.{Controller}
use smarty.Device.{pin_not_set}
use smarty.Handler.{EventHandler, push}
use smarty.Pipeline.{Pipeline, Pass, passes}
use smarty.Pipeline.Agreement.{IsAgreed, results, passes_lem}

abbrev quiet : DeviceState
quiet = record { lights = 1; buttons = 0; sensors = 0 }

abbrev light_up : Command
light_up = Command.device (record { cmd = ec_turnon; param = 4 }) 0 2

abbrev hush : Command
hush = Command.fake

-- Waits for sensor 2 to go high, in any mode.
abbrev on_motion : DeviceEvent
on_motion = record {
  mode = 0;
  actions = light_up ∷ [];
  type = DeviceEventType.sensor;
  pin = 1;
  trigger_state = high;
  prev_state = quiet;
}

abbrev on_click : DoubleClickEvent
on_click = record { mode = 0; actions = hush ∷ []; pin = 0 }

-- Light 1 has changed at time 100. The device is at address 5 and has two observers, of which the
-- handler is at address 8.
abbrev house : Pipeline
house = record {
  controller = record {
    observers = 5 ∷ [];
    device_state = quiet;
    light_times = 100 ∷ replicate 7 0;
  };
  device = record {
    device_state = quiet;
    prev_device_state = quiet;
    double_click_pin = pin_not_set;
    observers = 3 ∷ 8 ∷ [];
  };
  handler = record {
    has_clients = true;
    device_state = quiet;
    last_dblclck_pin = 0;
    light_events = [];
    button_events = [];
    sensor_events = on_motion ∷ [];
    mode_events = [];
    double_click_events = on_click ∷ [];
    event_modes_bitset = 0;
    lights = [];
  };
  device_address = 5;
  handler_address = 8;
}

house-IsAgreed : IsAgreed house
house-IsAgreed = record {
  settled = (refl, refl);
  device_knows = refl;
  handler_knows = refl;
  wired = record {
    lights_wired = tt;
    buttons_wired = tt;
    sensors_wired = ((refl, omega arith), tt);
  };
  eight = refl;
  controller_ascends = ground arith;
  device_listens = refl;
  device_ascends = ground arith;
  handler_listens = refl;
}

-- Someone moves.
abbrev moved : Pass
moved = record {
  command = record { cmd = ec_status; param = 0 };
  driver = λ n cmd state. (true, record { lights = 1; buttons = 0; sensors = 2 });
  clock = λ n. 100;
  junk = quiet;
}

-- The driver fails.
abbrev failed : Pass
failed = record moved { driver = λ n cmd state. (false, quiet) }

-- Light 1 goes off at time 101.
abbrev switched : Pass
switched = record moved {
  driver = λ n cmd state. (true, record { lights = 0; buttons = 0; sensors = 2 });
  clock = λ n. 101;
}

passes_lem_example :
    let qs = moved ∷ failed ∷ switched ∷ [] in
    (passes qs house ≡ some (results qs house, push light_up ∷ push hush ∷ []))
    × IsAgreed (results qs house)
    × ((results qs house).controller.device_state ≡ record { lights = 0; buttons = 0; sensors = 2 })
unfolding smarty.Handler.check_mode mathlib.Core.Bool.xor smarty.Bits.test_bit
    smarty.Controller.do_execute_command smarty.Controller.execute_stage smarty.Common.state_ne
    smarty.Controller.take_state smarty.Controller.check_clicks smarty.Handler.fire_double_clicks
    smarty.Event.on_double_click_event
passes_lem_example = passes_lem (moved ∷ failed ∷ switched ∷ []) house house-IsAgreed
