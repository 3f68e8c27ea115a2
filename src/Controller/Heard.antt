-- ===== src/Controller/Heard.antt =====
-- What one observer of device_controller_t (src/driver/device_controller.cpp) hears of a command.
use mathlib.Core.List.{append_assoc}
use smarty.Base.{
  ℕ, ◌+◌, ◌≤◌, ◌≡◌, refl, arith, bit_xor, true, ◌==◌, ◌/=◌, List, [], ◌∷◌, ◌++◌, if◌then◌else◌,
  length,
}
use smarty.Common.{DeviceCommand, DeviceState}
use smarty.Observer.{Notice, light_changed, button_pressed, sensor_triggered, double_click}
use smarty.Observer.Laws.{news, Ascends, contains}
use smarty.Controller.{
  Controller, Output, execute, notify, Driver, notify_all, notify_change, check_clicks,
  update_light_times, take_state, execute_stage, do_execute_command, max_light_count,
}
use smarty.Controller.Clicks.{is_double, double_clicks, update_times_from_lem}
use smarty.Controller.Commands.{last_answer, state_ne-false}

-- What one observer hears
abbrev pub heard_from : ℕ → List Output → List Notice
heard_from o [] = []
heard_from o (notify p n ∷ out) = if p == o then n ∷ heard_from o out else heard_from o out
heard_from o (execute cmd ∷ out) = heard_from o out

-- The double clicks among the lights whose bit is set
abbrev pub clicked : (ℕ → ℕ) → ℕ → ℕ → List ℕ → List Notice
clicked clock bitset idx [] = []
clicked clock bitset idx (t ∷ ts) =
    (if is_double clock bitset idx t then double_click idx ∷ [] else [])
    ++ clicked clock bitset (idx + 1) ts

-- The double clicks of a change of the lights
abbrev pub clicks_of : (ℕ → ℕ) → ℕ → Controller → List Notice
clicks_of clock lights c =
    if c.device_state.lights /= lights
    then clicked clock (bit_xor c.device_state.lights lights) 0 c.light_times
    else []

-- The words that differ
abbrev pub changes : DeviceState → DeviceState → List Notice
changes old new =
    news light_changed old.lights new.lights
    ++ news button_pressed old.buttons new.buttons
    ++ news sensor_triggered old.sensors new.sensors

-- Everything that is new of a state
abbrev pub told : (ℕ → ℕ) → DeviceState → Controller → List Notice
told clock new c = clicks_of clock new.lights c ++ changes c.device_state new

heard_from-append :
    (o : ℕ) (xs ys : List Output) → heard_from o (xs ++ ys) ≡ heard_from o xs ++ heard_from o ys
heard_from-append o [] ys = refl
heard_from-append o (notify p n ∷ xs) ys = ground (arith, heard_from-append o xs ys)
heard_from-append o (execute cmd ∷ xs) ys = heard_from-append o xs ys

below_unheard :
    (o low : ℕ) (os : List ℕ) (n : Notice)
    → Ascends low os
    → o + 1 ≤ low
    → heard_from o (notify_all os n) ≡ []
below_unheard o low [] n s h = refl
below_unheard o low (p ∷ os) n s h = ground (arith, below_unheard o (p + 1) os n s.1)

heard_from-notify_all :
    (o low : ℕ) (os : List ℕ) (n : Notice)
    → Ascends low os
    → contains os o ≡ true
    → heard_from o (notify_all os n) ≡ n ∷ []
heard_from-notify_all o low [] n s known = cc
heard_from-notify_all o low (p ∷ os) n s known =
    ground (arith, heard_from-notify_all o (p + 1) os n s.1, below_unheard o (p + 1) os n s.1)

module _ (o : ℕ) (os : List ℕ) (s : Ascends 0 os) (known : contains os o ≡ true) where
  heard_from-notify_change :
      (kind : ℕ → Notice) (old new : ℕ)
      → heard_from o (notify_change os kind old new) ≡ news kind old new
  unfolding notify_change
  heard_from-notify_change kind old new =
      ground (arith, heard_from-notify_all o 0 os (kind new) s known)

  heard_from-double_clicks :
      (clock : ℕ → ℕ) (bitset idx : ℕ) (ts : List ℕ)
      → heard_from o (double_clicks clock bitset os idx ts) ≡ clicked clock bitset idx ts
  heard_from-double_clicks clock bitset idx [] = refl
  heard_from-double_clicks clock bitset idx (t ∷ ts) =
      rw (heard_from-append, heard_from-double_clicks clock bitset (idx + 1) ts)
        (ground (arith, heard_from-notify_all o 0 os (double_click idx) s known))

module _ (o : ℕ) (c : Controller) (s : Ascends 0 c.observers)
    (known : contains c.observers o ≡ true) (eight : length c.light_times ≡ max_light_count) where
  heard_from-check_clicks :
      (clock : ℕ → ℕ) (lights : ℕ)
      → heard_from o (check_clicks clock lights c).1 ≡ clicks_of clock lights c
  unfolding check_clicks update_light_times
  heard_from-check_clicks clock lights =
      let bitset = bit_xor c.device_state.lights lights in
      rw (update_times_from_lem clock bitset c.observers 0 c.light_times (omega arith)) (
        ground (arith, heard_from-double_clicks o c.observers s known clock bitset 0 c.light_times))

  heard_from-take_state :
      (clock : ℕ → ℕ) (state : DeviceState)
      → heard_from o (take_state clock state c).1 ≡ told clock state c
  unfolding take_state
  heard_from-take_state clock state =
      rw
        (
          heard_from-append,
          heard_from-append,
          heard_from-append,
          heard_from-check_clicks clock state.lights,
          heard_from-notify_change o c.observers s known light_changed c.device_state.lights
              state.lights,
          heard_from-notify_change o c.observers s known button_pressed c.device_state.buttons
              state.buttons,
          heard_from-notify_change o c.observers s known sensor_triggered c.device_state.sensors
              state.sensors,
        )
        (simp append_assoc)

  told_same : (clock : ℕ → ℕ) → told clock c.device_state c ≡ []
  told_same clock = ground arith

  heard_from-execute_stage :
      (driver : Driver) (clock : ℕ → ℕ) (n : ℕ) (cmd : DeviceCommand) (state : DeviceState)
      → let answer = driver n cmd state in
        heard_from o (execute_stage driver clock n cmd state c).1
        ≡ told clock (if answer.0 then answer.1 else c.device_state) c
  unfolding execute_stage
  heard_from-execute_stage driver clock n cmd state = ground (
    arith,
    told_same clock,
    state_ne-false c.device_state (driver n cmd state).1,
    heard_from-take_state clock (driver n cmd state).1,
  )

  -- Of a command an observer hears what the last answer of the driver has new, and nothing if that
  -- call failed.
  pub heard_from-do_execute_command :
      (driver : Driver) (clock : ℕ → ℕ) (junk : DeviceState) (command : DeviceCommand)
      → let answer = last_answer driver junk command in
        heard_from o (do_execute_command driver clock junk command c).1
        ≡ told clock (if answer.0 then answer.1 else c.device_state) c
  unfolding do_execute_command
  heard_from-do_execute_command driver clock junk command =
      let low = record command { param = 0x0F } in
      let high = record command { param = 0xF0 } in
      ground (
        arith,
        heard_from-execute_stage driver clock 0 command junk,
        heard_from-execute_stage driver clock 1 high (driver 0 low junk).1,
      )
