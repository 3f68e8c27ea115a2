-- ===== src/Creation/Events.antt =====
-- Creating an event and giving it its actions (src/server/event/event_handler.cpp, event.h).
use smarty.Base.{ℕ, ◌<◌, ◌≡◌, ◌≢◌, refl, List, [], ◌∷◌, ◌++◌, Option, some, All-append, length}
use smarty.Common.{DeviceEventType, TriggerState}
use smarty.Command.{Command}
use smarty.Event.{DeviceEvent, new_device_event, new_double_click_event}
use smarty.Handler.{EventHandler, ◌>>=◌}
use smarty.Handler.Notify.{IsWired}
use smarty.Creation.{create_device_event, modify, set_actions}

modify-last {ℓ} :
    {A : Type ℓ} (f : A → A) (xs : List A) (a : A)
    → modify f (xs ++ a ∷ []) (length xs) ≡ xs ++ f a ∷ []
modify-last f [] a = refl
modify-last f (x ∷ xs) a = λ i. x ∷ modify-last f xs a i

-- The handler with one more event of the type, its actions set
abbrev pub with_event :
    DeviceEventType → ℕ → TriggerState → ℕ → List Command → EventHandler → EventHandler
with_event DeviceEventType.light pin state mode acts h =
    let e = new_device_event DeviceEventType.light pin state mode h.device_state in
    record h { light_events = h.light_events ++ record e { actions = acts } ∷ [] }
with_event DeviceEventType.button pin state mode acts h =
    let e = new_device_event DeviceEventType.button pin state mode h.device_state in
    record h { button_events = h.button_events ++ record e { actions = acts } ∷ [] }
with_event DeviceEventType.sensor pin state mode acts h =
    let e = new_device_event DeviceEventType.sensor pin state mode h.device_state in
    record h { sensor_events = h.sensor_events ++ record e { actions = acts } ∷ [] }
with_event DeviceEventType.double_click pin state mode acts h =
    let e = new_double_click_event pin mode in
    record h { double_click_events = h.double_click_events ++ record e { actions = acts } ∷ [] }
with_event DeviceEventType.unknown pin state mode acts h = h

abbrev set_device : List Command → DeviceEvent → DeviceEvent
set_device acts e = record e { actions = acts }

abbrev pub created :
    DeviceEventType → ℕ → TriggerState → ℕ → List Command → EventHandler → Option EventHandler
created type pin state mode acts h =
    create_device_event type pin state mode h >>= λ r. some (set_actions acts r.1 r.0)

-- For every type but the unknown one, creating an event succeeds and returns the event that
-- `set_actions` then changes: the handler ends with that event, with those actions, at the end of
-- the type's list, and with all else as it was.
pub set_actions-create_device_event :
    (type : DeviceEventType) (pin : ℕ) (state : TriggerState) (mode : ℕ) (acts : List Command)
    (h : EventHandler)
    → type ≢ DeviceEventType.unknown
    → created type pin state mode acts h ≡ some (with_event type pin state mode acts h)
unfolding create_device_event set_actions
set_actions-create_device_event DeviceEventType.light pin state mode acts h k = λ i.
    some (record h {
      light_events =
          modify-last (set_device acts) h.light_events
            (new_device_event DeviceEventType.light pin state mode h.device_state) i;
    })
set_actions-create_device_event DeviceEventType.button pin state mode acts h k = λ i.
    some (record h {
      button_events =
          modify-last (set_device acts) h.button_events
            (new_device_event DeviceEventType.button pin state mode h.device_state) i;
    })
set_actions-create_device_event DeviceEventType.sensor pin state mode acts h k = λ i.
    some (record h {
      sensor_events =
          modify-last (set_device acts) h.sensor_events
            (new_device_event DeviceEventType.sensor pin state mode h.device_state) i;
    })
set_actions-create_device_event DeviceEventType.double_click pin state mode acts h k = λ i.
    some (record h {
      double_click_events =
          modify-last (λ e. record e { actions = acts }) h.double_click_events
            (new_double_click_event pin mode) i;
    })
set_actions-create_device_event DeviceEventType.unknown pin state mode acts h k = absurd (k refl)

-- A new event on a pin below 32 looks at the word of its list, so the handler stays wired.
with_event-IsWired :
    (type : DeviceEventType) (pin : ℕ) (state : TriggerState) (mode : ℕ) (acts : List Command)
    (h : EventHandler)
    → pin < 32
    → IsWired h
    → IsWired (with_event type pin state mode acts h)
unfolding new_device_event
with_event-IsWired DeviceEventType.light pin state mode acts h small w = record {
  lights_wired = All-append _ h.light_events _ w.lights_wired ((refl, small), tt);
  buttons_wired = w.buttons_wired;
  sensors_wired = w.sensors_wired;
}
with_event-IsWired DeviceEventType.button pin state mode acts h small w = record {
  lights_wired = w.lights_wired;
  buttons_wired = All-append _ h.button_events _ w.buttons_wired ((refl, small), tt);
  sensors_wired = w.sensors_wired;
}
with_event-IsWired DeviceEventType.sensor pin state mode acts h small w = record {
  lights_wired = w.lights_wired;
  buttons_wired = w.buttons_wired;
  sensors_wired = All-append _ h.sensor_events _ w.sensors_wired ((refl, small), tt);
}
with_event-IsWired DeviceEventType.double_click pin state mode acts h small w = record {
  lights_wired = w.lights_wired;
  buttons_wired = w.buttons_wired;
  sensors_wired = w.sensors_wired;
}
with_event-IsWired DeviceEventType.unknown pin state mode acts h small w = w
