-- ===== src/Device/Changes.antt =====
-- What the observers of device_t (src/server/device/device.cpp) hear.
use smarty.Base.{ℕ, ◌≡◌, refl, arith, ◌/=◌, List, [], ◌∷◌, ◌++◌, Option, none, some, if◌then◌else◌}
use smarty.Observer.{Notice, light_changed, button_pressed, sensor_triggered, double_click}
use smarty.Device.{
  Device, Output, notify_all, pin_not_set, deliver, deliver_all, check_for_changes, take_over,
  check_lights_changes, check_buttons_changes, check_sensors_changes, check_double_click,
}

-- All that the device knows has been reported.
abbrev pub IsSettled : Device → Type 0
IsSettled d = (d.prev_device_state ≡ d.device_state) × (d.double_click_pin ≡ pin_not_set)

abbrev pub light_of : Notice → Option ℕ
light_of (light_changed w) = some w
light_of _ = none

abbrev pub button_of : Notice → Option ℕ
button_of (button_pressed w) = some w
button_of _ = none

abbrev pub sensor_of : Notice → Option ℕ
sensor_of (sensor_triggered w) = some w
sensor_of _ = none

abbrev pub pin_of : Notice → Option ℕ
pin_of (double_click pin) = some pin
pin_of _ = none

abbrev pub or_else : Option ℕ → ℕ → ℕ
or_else none v = v
or_else (some w) v = w

-- The last value of one kind in a series of calls, `v` if there is none
abbrev pub last : (Notice → Option ℕ) → ℕ → List Notice → ℕ
last pick v [] = v
last pick v (n ∷ ns) = last pick (or_else (pick n) v) ns

abbrev pub after_all : List Notice → Device → Device
after_all ns d = record d {
  device_state = record {
    lights = last light_of d.device_state.lights ns;
    buttons = last button_of d.device_state.buttons ns;
    sensors = last sensor_of d.device_state.sensors ns;
  };
  double_click_pin = last pin_of d.double_click_pin ns;
}

pub deliver_all-state : (ns : List Notice) (d : Device) → (deliver_all ns d).0 ≡ after_all ns d
unfolding deliver_all deliver
deliver_all-state [] d = refl
deliver_all-state (light_changed w ∷ ns) d = deliver_all-state ns _
deliver_all-state (button_pressed w ∷ ns) d = deliver_all-state ns _
deliver_all-state (sensor_triggered w ∷ ns) d = deliver_all-state ns _
deliver_all-state (double_click pin ∷ ns) d = deliver_all-state ns _

-- One notice to each observer, if the value is another than before
abbrev pub report : List ℕ → (ℕ → Notice) → ℕ → ℕ → List Output
report os kind old new = if old /= new then notify_all os (kind new) else []

pub ne_comm : (a b : ℕ) → (a /= b) ≡ (b /= a)
ne_comm a b = ground arith

-- From a settled device, after any series of calls by the driver, one check tells every observer the
-- last value of each kind that differs from the one reported before, in the order lights, buttons,
-- sensors, double click, and nothing else; then the device is settled again.
pub check_for_changes-deliver_all :
    (ns : List Notice) (d : Device)
    → IsSettled d
    → let s = d.device_state in
      let r = check_for_changes (deliver_all ns d).0 in
      (r.1
        ≡ report d.observers light_changed s.lights (last light_of s.lights ns)
          ++ report d.observers button_pressed s.buttons (last button_of s.buttons ns)
          ++ report d.observers sensor_triggered s.sensors (last sensor_of s.sensors ns)
          ++ report d.observers double_click pin_not_set (last pin_of pin_not_set ns))
      × IsSettled r.0
unfolding check_for_changes check_lights_changes check_buttons_changes check_sensors_changes
    check_double_click take_over
check_for_changes-deliver_all ns d (settled, unset) =
    rw (deliver_all-state ns d)
      (simp (settled, unset, ne_comm (last pin_of pin_not_set ns) pin_not_set), (refl, refl))
