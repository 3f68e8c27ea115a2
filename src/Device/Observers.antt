-- ===== src/Device/Observers.antt =====
-- The observers of device_t (src/server/device/device.cpp), and what each of them hears of a check.
use smarty.Base.{
  ◌+◌, ◌<◌, ℕ, ◌≡◌, refl, arith, true, not, ◌&&◌, ◌||◌, ◌==◌, ◌/=◌, List, [], ◌∷◌, ◌++◌,
  if◌then◌else◌,
}
use smarty.Observer.{Notice, light_changed, button_pressed, sensor_triggered, double_click}
use smarty.Observer.Laws.{
  news, Ascends, contains, insert-Ascends, contains-insert, contains-erase, erase-Ascends,
}
use smarty.Device.{
  Device, Output, execute, notify, set_update_event, reset_update_event, observe, unobserve,
  notify_all, pin_not_set, add_observer, remove_observer, check_for_changes, check_lights_changes,
  check_buttons_changes, check_sensors_changes, check_double_click,
}

-- Adding and removing an observer: the set has it, or has it no longer, the others stay as they are,
-- and none stands in the set twice.
pub observers_lem :
    (a b : ℕ) (d : Device)
    → Ascends 0 d.observers
    → (contains (add_observer a d).observers b ≡ (b == a || contains d.observers b))
      × (contains (remove_observer a d).observers b ≡ (not (b == a) && contains d.observers b))
      × Ascends 0 (add_observer a d).observers
      × Ascends 0 (remove_observer a d).observers
unfolding add_observer remove_observer
observers_lem a b d s = (
  contains-insert a b d.observers,
  contains-erase a b d.observers,
  insert-Ascends a 0 d.observers (omega arith) s,
  erase-Ascends a 0 d.observers s,
)

-- What one observer hears
abbrev pub heard_by : ℕ → List Output → List Notice
heard_by o [] = []
heard_by o (notify p n ∷ out) = if p == o then n ∷ heard_by o out else heard_by o out
heard_by o (execute cmd ∷ out) = heard_by o out
heard_by o (set_update_event ∷ out) = heard_by o out
heard_by o (reset_update_event ∷ out) = heard_by o out
heard_by o (observe ∷ out) = heard_by o out
heard_by o (unobserve ∷ out) = heard_by o out

heard_by-append :
    (o : ℕ) (xs ys : List Output) → heard_by o (xs ++ ys) ≡ heard_by o xs ++ heard_by o ys
heard_by-append o [] ys = refl
heard_by-append o (notify p n ∷ xs) ys = ground (arith, heard_by-append o xs ys)
heard_by-append o (execute cmd ∷ xs) ys = heard_by-append o xs ys
heard_by-append o (set_update_event ∷ xs) ys = heard_by-append o xs ys
heard_by-append o (reset_update_event ∷ xs) ys = heard_by-append o xs ys
heard_by-append o (observe ∷ xs) ys = heard_by-append o xs ys
heard_by-append o (unobserve ∷ xs) ys = heard_by-append o xs ys

below_silent :
    (o low : ℕ) (os : List ℕ) (n : Notice)
    → Ascends low os
    → o < low
    → heard_by o (notify_all os n) ≡ []
below_silent o low [] n s h = refl
below_silent o low (p ∷ os) n s h = ground (arith, below_silent o (p + 1) os n s.1)

heard_by-notify_all :
    (o low : ℕ) (os : List ℕ) (n : Notice)
    → Ascends low os
    → contains os o ≡ true
    → heard_by o (notify_all os n) ≡ n ∷ []
heard_by-notify_all o low [] n s known = cc
heard_by-notify_all o low (p ∷ os) n s known =
    ground (arith, heard_by-notify_all o (p + 1) os n s.1, below_silent o (p + 1) os n s.1)

heard_by-report :
    (o : ℕ) (os : List ℕ) (kind : ℕ → Notice) (old new : ℕ)
    → Ascends 0 os
    → contains os o ≡ true
    → heard_by o (if old /= new then notify_all os (kind new) else []) ≡ news kind old new
heard_by-report o os kind old new s known =
    ground (arith, heard_by-notify_all o 0 os (kind new) s known)

heard_by-click :
    (o : ℕ) (d : Device)
    → Ascends 0 d.observers
    → contains d.observers o ≡ true
    → heard_by o (
        if d.double_click_pin /= pin_not_set
        then notify_all d.observers (double_click d.double_click_pin)
        else [])
      ≡ (if d.double_click_pin /= pin_not_set then double_click d.double_click_pin ∷ [] else [])
heard_by-click o d s known =
    ground (arith, heard_by-notify_all o 0 d.observers (double_click d.double_click_pin) s known)

-- In one check each observer hears of each word that differs from the one reported before, and of a
-- double click that is set, once: the lights first, then the buttons, the sensors and the click.
pub heard_by-check_for_changes :
    (o : ℕ) (d : Device)
    → Ascends 0 d.observers
    → contains d.observers o ≡ true
    → let old = d.prev_device_state in
      let new = d.device_state in
      heard_by o (check_for_changes d).1
      ≡ news light_changed old.lights new.lights
        ++ news button_pressed old.buttons new.buttons
        ++ news sensor_triggered old.sensors new.sensors
        ++ (if d.double_click_pin /= pin_not_set then double_click d.double_click_pin ∷ [] else [])
unfolding check_for_changes check_lights_changes check_buttons_changes check_sensors_changes
    check_double_click
heard_by-check_for_changes o d s known =
    let old = d.prev_device_state in
    let new = d.device_state in
    rw (
      heard_by-append,
      heard_by-append,
      heard_by-append,
      heard_by-report o d.observers light_changed old.lights new.lights s known,
      heard_by-report o d.observers button_pressed old.buttons new.buttons s known,
      heard_by-report o d.observers sensor_triggered old.sensors new.sensors s known,
      heard_by-click o d s known,
    )
