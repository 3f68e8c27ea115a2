-- ===== src/Tests/Devices.antt =====
-- Runs of the device (src/server/device) and of its controller (src/driver).
use smarty.Base.{ℕ, ◌≡◌, ◌≢◌, refl, true, List, [], ◌∷◌, some, replicate, get_elem?, length, All}
use smarty.Bits.{test_bit}
use smarty.Common.{DeviceCommand, ec_status, ec_turnon}
use smarty.Observer.{Notice, light_changed, button_pressed, double_click}
use smarty.Device.{Device, notify, pin_not_set, deliver_all, check_for_changes, zero_state}
use smarty.Device.Changes.{check_for_changes-deliver_all}
use smarty.Controller.{
  Controller, Driver, update_light_times, max_light_count, do_execute_command, execute_command,
}
use smarty.Controller.Commands.{sent, sent-execute_command, device_driver, junk-do_execute_command}
use smarty.Controller.Clicks.{update_light_times_lem}

-- Two observers, nothing to report
abbrev settled : Device
settled = record {
  device_state = zero_state;
  prev_device_state = zero_state;
  double_click_pin = pin_not_set;
  observers = 7 ∷ 9 ∷ [];
}

-- The lights flicker and end as they were, and a button changes.
abbrev calls : List Notice
calls = light_changed 1 ∷ button_pressed 4 ∷ light_changed 0 ∷ []

check_for_changes-deliver_all_example :
    (check_for_changes (deliver_all calls settled).0).1
    ≡ notify 7 (button_pressed 4) ∷ notify 9 (button_pressed 4) ∷ []
check_for_changes-deliver_all_example = (check_for_changes-deliver_all calls settled (refl, refl)).0

-- The controller with one light changed a moment ago, at time 100
abbrev controller : Controller
controller = record {
  observers = 3 ∷ [];
  device_state = record { lights = 1; buttons = 0; sensors = 0 };
  light_times = 100 ∷ replicate 7 0;
}

-- A driver that turns on the lights of the parameter
abbrev lamp : Driver
lamp n cmd state = (true, record { lights = cmd.param; buttons = 0; sensors = 0 })

abbrev at_101 : ℕ → ℕ
at_101 n = 101

abbrev all_on : DeviceCommand
all_on = record { cmd = ec_turnon; param = 0xFF }

sent-execute_command_example :
    let low : DeviceCommand = record { cmd = ec_turnon; param = 0x0F } in
    let high : DeviceCommand = record { cmd = ec_turnon; param = 0xF0 } in
    let status : DeviceCommand = record { cmd = ec_status; param = 0 } in
    let out =
      sent (execute_command lamp lamp at_101 at_101 zero_state zero_state all_on controller).1 in
    (out ≡ low ∷ high ∷ status ∷ []) × All (λ cmd. cmd.param ≢ 0xFF) out
sent-execute_command_example =
    sent-execute_command lamp lamp at_101 at_101 zero_state zero_state all_on controller

junk-do_execute_command_example :
    (do_execute_command device_driver at_101
      (record { lights = 77; buttons = 5; sensors = 6 })
      all_on
      controller).0.device_state
    ≡ record { lights = 77; buttons = 5; sensors = 6 }
junk-do_execute_command_example =
    junk-do_execute_command at_101 (record { lights = 77; buttons = 5; sensors = 6 }) all_on
      controller

update_light_times_lem_example :
    (length (update_light_times at_101 3 controller).0.light_times ≡ max_light_count)
    × (get_elem? (update_light_times at_101 3 controller).0.light_times 1 ≡ some 101)
    × ((update_light_times at_101 3 controller).1
        ≡ smarty.Controller.notify 3 (double_click 0) ∷ [])
unfolding test_bit
update_light_times_lem_example = update_light_times_lem at_101 3 1 0 controller refl refl
