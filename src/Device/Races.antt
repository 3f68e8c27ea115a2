-- ===== src/Device/Races.antt =====
-- What happens when the driver's thread calls the device in the middle of `check_for_changes`
-- (src/server/device/device.cpp); nothing there holds a lock.
use smarty.Base.{◌≡◌, refl, arith, List, []}
use smarty.Observer.{button_pressed, sensor_triggered, double_click, Notice, light_changed}
use smarty.Device.{
  Device, deliver_all, check_for_changes, interleaved_check, take_over, check_lights_changes,
  check_buttons_changes, check_sensors_changes, check_double_click,
}
use smarty.Device.Changes.{IsSettled}

-- A settled device has nothing to report.
check_settled : (d : Device) → IsSettled d → (check_for_changes d).1 ≡ []
unfolding check_for_changes check_lights_changes check_buttons_changes check_sensors_changes
    check_double_click
check_settled d (settled, unset) = ground arith

-- Whatever calls come between the steps of a check, the next check, with no further call before it,
-- reports nothing.
check_for_changes-interleaved_check :
    (ns1 ns2 ns3 ns4 : List Notice) (d : Device)
    → (check_for_changes (interleaved_check ns1 ns2 ns3 ns4 d).0).1 ≡ []
unfolding interleaved_check take_over
check_for_changes-interleaved_check ns1 ns2 ns3 ns4 d = check_settled _ (refl, refl)

-- With no calls in between this is the check itself.
interleaved_check-alone : (d : Device) → interleaved_check [] [] [] [] d ≡ check_for_changes d
unfolding interleaved_check check_for_changes deliver_all
interleaved_check-alone d = refl

-- Calls that tell a change of the lights
abbrev pub IsLight : Notice → Type 0
IsLight (light_changed lights) = Unit {0}
IsLight (button_pressed buttons) = ⊥
IsLight (sensor_triggered sensors) = ⊥
IsLight (double_click pin) = ⊥
