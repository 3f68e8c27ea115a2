-- ===== src/Worker/Callbacks.antt =====
-- The callbacks of event_handler_t (src/server/event/event_handler.cpp) fail no ASSERT on a handler
-- that is built, and keep it so.
use smarty.Base.{
  ℕ, ◌≡◌, refl, arith, Bool, true, false, not, ◌==◌, List, [], ◌∷◌, ◌++◌, Option, bit_and, bit_xor,
  ◌/=◌, some, if◌then◌else◌, All, All-append, Bool-cases, inl, inr,
}
use smarty.Common.{DeviceState}
use smarty.Command.{Command}
use smarty.Bits.Words.{shl_one, dec_u32}
use smarty.Handler.Notify.{on_device_event_lem}
use smarty.Event.{
  bool_eq, DeviceEvent, on_change, on_device_event, ModeEvent, on_mode_event, DoubleClickEvent,
  on_double_click_event,
}
use smarty.Handler.{
  EventHandler, update_modes_request, pushes, check_mode, fire_device_events, on_light_changed,
  on_button_pressed, on_sensor_triggered, fire_double_clicks, on_double_click, fire_mode_events,
  update_modes,
}
use smarty.Creation.Built.{
  CommandFits, EventFits, IsBuilt-lights, IsBuilt-buttons, IsBuilt-sensors, IsBuilt-modes, remoded,
}
use smarty.Worker.Run.{OutputFits, IsReady, Returns}

on_change-Fits :
    (n : ℕ) (e : DeviceEvent) (current previous : ℕ)
    → All (CommandFits n) e.actions
    → All (CommandFits n) (on_change e current previous)
unfolding on_change
on_change-Fits n e current previous fit = ground (arith, fit)

pushes-Fit : (n : ℕ) (cs : List Command) → All (CommandFits n) cs → All (OutputFits n) (pushes cs)
pushes-Fit n [] fit = tt
pushes-Fit n (c ∷ cs) (this, these) = (this, pushes-Fit n cs these)

-- The events that the loop leaves, and the commands that it gives, fit.
abbrev Fires : ℕ → (DeviceState → ℕ) → Option (List DeviceEvent × List Command) → Type 0
Fires n word r =
    (es : List DeviceEvent) × (cs : List Command) × (r ≡ some (es, cs))
    × All (EventFits n word) es
    × All (CommandFits n) cs

fire_one :
    (n bitset : ℕ) (word : DeviceState → ℕ) (state : DeviceState) (e : DeviceEvent)
    → EventFits n word e
    → (e' : DeviceEvent) × (cs : List Command) × ((if check_mode bitset e.mode
          then on_device_event state e
          else some (e, []))
        ≡ some (e', cs))
      × EventFits n word e'
      × All (CommandFits n) cs
fire_one n bitset word state e (looks, fit) = elim (Bool-cases (check_mode bitset e.mode)) [
  | inl on ↦ (
    record e { prev_state = state },
    on_change e (word state) (word e.prev_state),
    rw (on, on_device_event_lem word state e looks),
    (looks, fit),
    on_change-Fits n e (word state) (word e.prev_state) fit,
  )
  | inr off ↦ (e, [], rw off, (looks, fit), tt)
]

fire_device_events-Fires :
    (n bitset : ℕ) (word : DeviceState → ℕ) (state : DeviceState) (es : List DeviceEvent)
    → All (EventFits n word) es
    → Fires n word (fire_device_events bitset state es)
unfolding fire_device_events
fire_device_events-Fires n bitset word state [] fit = ([], [], refl, tt, tt)
fire_device_events-Fires n bitset word state (e ∷ es) (this, these) =
    let (e', now, one, looks, fits) = fire_one n bitset word state e this in
    let (es', later, rest, look, fit) = fire_device_events-Fires n bitset word state es these in
    (e' ∷ es', now ++ later, rw (one, rest), (looks, look), All-append _ now later fits fit)

-- The actions, unless one of two tests says no
unless_Fits :
    (n : ℕ) (b c : Bool) (acts : List Command)
    → All (CommandFits n) acts
    → All (CommandFits n) (if b then [] else if c then [] else acts)
unless_Fits n true c acts fit = tt
unless_Fits n false true acts fit = tt
unless_Fits n false false acts fit = fit

on_mode_event-Fits :
    (n bitset : ℕ) (e : ModeEvent)
    → All (CommandFits n) e.actions
    → All (CommandFits n) (on_mode_event bitset e).1
unfolding on_mode_event
on_mode_event-Fits n bitset e fit =
    let mode_bit = shl_one (dec_u32 e.mode) in
    unless_Fits n (not (bit_and (bit_xor bitset e.prev_bitset) mode_bit /= 0))
      (not (bool_eq (bit_and bitset mode_bit /= 0) e.is_enabled)) e.actions fit

fire_mode_events-Fits :
    (n bitset : ℕ) (es : List ModeEvent)
    → All (λ e. All (CommandFits n) e.actions) es
    → All (λ e. All (CommandFits n) e.actions) (fire_mode_events bitset es).0
      × All (CommandFits n) (fire_mode_events bitset es).1
unfolding fire_mode_events on_mode_event
fire_mode_events-Fits n bitset [] fit = (tt, tt)
fire_mode_events-Fits n bitset (e ∷ es) (this, these) =
    let (look, fits) = fire_mode_events-Fits n bitset es these in
    (
      (this, look),
      All-append _ (on_mode_event bitset e).1 _ (on_mode_event-Fits n bitset e this) fits,
    )

-- The actions, if one test says yes and another no
when_Fits :
    (n : ℕ) (b c : Bool) (acts : List Command)
    → All (CommandFits n) acts
    → All (CommandFits n) (if b then (if c then [] else acts) else [])
when_Fits n true true acts fit = tt
when_Fits n true false acts fit = fit
when_Fits n false c acts fit = tt

fire_double_clicks-Fits :
    (n bitset pin : ℕ) (es : List DoubleClickEvent)
    → All (λ e. All (CommandFits n) e.actions) es
    → All (CommandFits n) (fire_double_clicks bitset pin es)
unfolding fire_double_clicks on_double_click_event
fire_double_clicks-Fits n bitset pin [] fit = tt
fire_double_clicks-Fits n bitset pin (e ∷ es) (this, these) =
    All-append _ (if check_mode bitset e.mode then on_double_click_event pin e else []) _
      (when_Fits n (check_mode bitset e.mode) (pin /= e.pin) e.actions this)
      (fire_double_clicks-Fits n bitset pin es these)

module _ (n word : ℕ) (h : EventHandler) (ready : IsReady n h) where
  pub on_light_changed-Returns : Returns n (on_light_changed word h)
  unfolding on_light_changed
  on_light_changed-Returns =
      let state = record h.device_state { lights = word } in
      let (es, cs, fires, look, fit) =
        fire_device_events-Fires n h.event_modes_bitset (λ s. s.lights) state h.light_events
          ready.built.lights_fit in
      (
        record h { device_state = state; light_events = es },
        pushes cs,
        rw fires,
        record {
          clients = ready.clients;
          built = IsBuilt-lights ready.built state es look;
          few = ready.few;
        },
        pushes-Fit n cs fit,
      )

  pub on_button_pressed-Returns : Returns n (on_button_pressed word h)
  unfolding on_button_pressed
  on_button_pressed-Returns =
      let state = record h.device_state { buttons = word } in
      let (es, cs, fires, look, fit) =
        fire_device_events-Fires n h.event_modes_bitset (λ s. s.buttons) state h.button_events
          ready.built.buttons_fit in
      (
        record h { device_state = state; button_events = es },
        pushes cs,
        rw fires,
        record {
          clients = ready.clients;
          built = IsBuilt-buttons ready.built state es look;
          few = ready.few;
        },
        pushes-Fit n cs fit,
      )

  pub on_sensor_triggered-Returns : Returns n (on_sensor_triggered word h)
  unfolding on_sensor_triggered
  on_sensor_triggered-Returns =
      let state = record h.device_state { sensors = word } in
      let (es, cs, fires, look, fit) =
        fire_device_events-Fires n h.event_modes_bitset (λ s. s.sensors) state h.sensor_events
          ready.built.sensors_fit in
      (
        record h { device_state = state; sensor_events = es },
        pushes cs,
        rw fires,
        record {
          clients = ready.clients;
          built = IsBuilt-sensors ready.built state es look;
          few = ready.few;
        },
        pushes-Fit n cs fit,
      )

  pub on_double_click-Returns : Returns n (some (on_double_click word h))
  unfolding on_double_click
  on_double_click-Returns =
      let cs = fire_double_clicks h.event_modes_bitset word h.double_click_events in
      let b = ready.built in
      (
        record h { last_dblclck_pin = word },
        pushes cs,
        refl,
        record {
          clients = ready.clients;
          built = record {
            count = b.count;
            lights_fit = b.lights_fit;
            buttons_fit = b.buttons_fit;
            sensors_fit = b.sensors_fit;
            modes_fit = b.modes_fit;
            clicks_fit = b.clicks_fit;
          };
          few = ready.few;
        },
        pushes-Fit n cs (
            fire_double_clicks-Fits n h.event_modes_bitset word h.double_click_events b.clicks_fit),
      )

  pub update_modes-Returns : Returns n (update_modes word h)
  unfolding update_modes
  update_modes-Returns = elim (Bool-cases (word == h.event_modes_bitset)) [
    | inl same ↦ (h, [], rw same, ready, tt)
    | inr other ↦
        let es = (fire_mode_events word h.mode_events).0 in
        let cs = (fire_mode_events word h.mode_events).1 in
        let (look, fit) = fire_mode_events-Fits n word h.mode_events ready.built.modes_fit in
        (
          record h { event_modes_bitset = word; mode_events = es },
          pushes cs ++ update_modes_request word ∷ [],
          ground (arith, ready.clients),
          record {
            clients = ready.clients;
            built =
                remoded n word (record h { mode_events = es })
                  (IsBuilt-modes ready.built h.device_state es look);
            few = ready.few;
          },
          All-append _ (pushes cs) _ (pushes-Fit n cs fit) (tt, tt),
        )
  ]
