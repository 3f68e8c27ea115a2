-- ===== src/Handler/Hearing.antt =====
-- event_handler_t as an observer of the device (src/server/event/event_handler.cpp): the calls that
-- the device makes of it, one after another, against a description that cannot fail.
use smarty.Base.{ℕ, ◌≡◌, refl, arith, List, [], ◌∷◌, ◌++◌, some, map, All}
use smarty.Common.{DeviceState}
use smarty.Command.{Command}
use smarty.Event.{DeviceEvent}
use smarty.Observer.{Notice, light_changed, button_pressed, sensor_triggered, double_click}
use smarty.Handler.{
  EventHandler, Result, ◌>>=◌, pushes, push, fire_double_clicks, on_light_changed,
  on_button_pressed, on_sensor_triggered, on_double_click,
}
use smarty.Handler.Notify.{IsWired, Watches, look, due_actions, callbacks_lem}

-- A call of the device
unfoldable pub hear : Notice → EventHandler → Result
hear (light_changed w) h = on_light_changed w h
hear (button_pressed w) h = on_button_pressed w h
hear (sensor_triggered w) h = on_sensor_triggered w h
hear (double_click pin) h = some (on_double_click pin h)

unfoldable pub hear_all : List Notice → EventHandler → Result
hear_all [] h = some (h, [])
hear_all (n ∷ ns) h =
    hear n h >>= λ first. hear_all ns first.0 >>= λ rest. some (rest.0, first.1 ++ rest.1)

-- What a call leaves of the handler
abbrev pub heeds : Notice → EventHandler → EventHandler
heeds (light_changed w) h =
    let state = record h.device_state { lights = w } in
    record h {
      device_state = state;
      light_events = map (look h.event_modes_bitset state) h.light_events;
    }
heeds (button_pressed w) h =
    let state = record h.device_state { buttons = w } in
    record h {
      device_state = state;
      button_events = map (look h.event_modes_bitset state) h.button_events;
    }
heeds (sensor_triggered w) h =
    let state = record h.device_state { sensors = w } in
    record h {
      device_state = state;
      sensor_events = map (look h.event_modes_bitset state) h.sensor_events;
    }
heeds (double_click pin) h = record h { last_dblclck_pin = pin }

-- What a call queues
abbrev pub due_at : Notice → EventHandler → List Command
due_at (light_changed w) h =
    due_actions h.event_modes_bitset (λ s. s.lights) (record h.device_state { lights = w })
      h.light_events
due_at (button_pressed w) h =
    due_actions h.event_modes_bitset (λ s. s.buttons) (record h.device_state { buttons = w })
      h.button_events
due_at (sensor_triggered w) h =
    due_actions h.event_modes_bitset (λ s. s.sensors) (record h.device_state { sensors = w })
      h.sensor_events
due_at (double_click pin) h = fire_double_clicks h.event_modes_bitset pin h.double_click_events

abbrev pub heeds_all : List Notice → EventHandler → EventHandler
heeds_all [] h = h
heeds_all (n ∷ ns) h = heeds_all ns (heeds n h)

abbrev pub due_in : List Notice → EventHandler → List Command
due_in [] h = []
due_in (n ∷ ns) h = due_at n h ++ due_in ns (heeds n h)

All-look :
    (word : DeviceState → ℕ) (bitset : ℕ) (state : DeviceState) (es : List DeviceEvent)
    → All (Watches word) es
    → All (Watches word) (map (look bitset state) es)
All-look word bitset state [] ws = tt
All-look word bitset state (e ∷ es) ws = ground (arith, All-look word bitset state es ws.1)

heeds-IsWired : (n : Notice) (h : EventHandler) → IsWired h → IsWired (heeds n h)
heeds-IsWired (light_changed w) h wired = record {
  lights_wired = All-look _ _ _ h.light_events wired.lights_wired;
  buttons_wired = wired.buttons_wired;
  sensors_wired = wired.sensors_wired;
}
heeds-IsWired (button_pressed w) h wired = record {
  lights_wired = wired.lights_wired;
  buttons_wired = All-look _ _ _ h.button_events wired.buttons_wired;
  sensors_wired = wired.sensors_wired;
}
heeds-IsWired (sensor_triggered w) h wired = record {
  lights_wired = wired.lights_wired;
  buttons_wired = wired.buttons_wired;
  sensors_wired = All-look _ _ _ h.sensor_events wired.sensors_wired;
}
heeds-IsWired (double_click pin) h wired = record {
  lights_wired = wired.lights_wired;
  buttons_wired = wired.buttons_wired;
  sensors_wired = wired.sensors_wired;
}

hear_lem :
    (n : Notice) (h : EventHandler) → IsWired h → hear n h ≡ some (heeds n h, pushes (due_at n h))
unfolding hear on_double_click
hear_lem (light_changed w) h wired = (callbacks_lem w h wired).0
hear_lem (button_pressed w) h wired = (callbacks_lem w h wired).1
hear_lem (sensor_triggered w) h wired = (callbacks_lem w h wired).2
hear_lem (double_click pin) h wired = refl

pub pushes-append : (xs ys : List Command) → pushes (xs ++ ys) ≡ pushes xs ++ pushes ys
pushes-append [] ys = refl
pushes-append (c ∷ xs) ys = λ i. push c ∷ pushes-append xs ys i

pub heeds_all-IsWired : (ns : List Notice) (h : EventHandler) → IsWired h → IsWired (heeds_all ns h)
heeds_all-IsWired [] h wired = wired
heeds_all-IsWired (n ∷ ns) h wired = heeds_all-IsWired ns _ (heeds-IsWired n h wired)

-- A wired handler takes any series of calls: it queues what is due at each of them, in order.
pub hear_all_lem :
    (ns : List Notice) (h : EventHandler)
    → IsWired h
    → hear_all ns h ≡ some (heeds_all ns h, pushes (due_in ns h))
unfolding hear_all
hear_all_lem [] h wired = refl
hear_all_lem (n ∷ ns) h wired =
    rw (hear_lem n h wired, hear_all_lem ns (heeds n h) (heeds-IsWired n h wired), pushes-append)
