-- ===== src/Creation/Built.antt =====
-- The invariant of event_handler_t (src/server/event/event_handler.cpp) that its configuration
-- establishes, and how the creation of events and commands keeps it.
use smarty.Base.{
  ℕ, zero, suc, Bool, ◌<◌, ◌≡◌, refl, arith, ltb, List, [], ◌∷◌, Option, none, some, length, All,
  All-append, Bool-cases, inl, inr,
}
use smarty.Common.{DeviceCommand, DeviceState, DeviceEventType, TriggerState}
use smarty.Command.{Command, LightObject, fake}
use smarty.Event.{
  DeviceEvent, ModeEvent, DoubleClickEvent, watched, new_device_event, new_mode_event,
  new_double_click_event,
}
use smarty.Handler.{◌>>=◌, EventHandler}
use smarty.Creation.{
  create_device_command, create_device_event, create_mode_event, EventRef, in_lights, in_buttons,
  in_sensors, in_modes, in_double_clicks, modify, set_actions, get_bit_offset,
}

-- A command for one of the n lights, if it is for a light.
abbrev pub CommandFits : ℕ → Command → Type 0
CommandFits n (Command.device cmd timeout idx) = idx < n
CommandFits n (Command.mode cmd delay) = Unit {0}
CommandFits n fake = Unit {0}

-- An event that looks at the word `word` of the state, whose actions fit.
abbrev pub EventFits : ℕ → (DeviceState → ℕ) → DeviceEvent → Type 0
EventFits n word e = (watched e.type ≡ some word) × All (CommandFits n) e.actions

-- There are n lights, each list of events looks at its word, and every action fits.
pub record IsBuilt (n : ℕ) (h : EventHandler) : Type 0 where
  pub count : length h.lights ≡ n
  pub lights_fit : All (EventFits n (λ s. s.lights)) h.light_events
  pub buttons_fit : All (EventFits n (λ s. s.buttons)) h.button_events
  pub sensors_fit : All (EventFits n (λ s. s.sensors)) h.sensor_events
  pub modes_fit : All (λ e. All (CommandFits n) e.actions) h.mode_events
  pub clicks_fit : All (λ e. All (CommandFits n) e.actions) h.double_click_events

-- What holds of the value, if there is one.
abbrev pub IfSome {ℓ} : {A : Type ℓ} → (A → Type 0) → Option A → Type 0
IfSome R none = Unit {0}
IfSome R (some a) = R a

pub IfSome-bind {ℓ κ} :
    {A : Type ℓ} {B : Type κ} (R : A → Type 0) (S : B → Type 0) (o : Option A) (f : A → Option B)
    → IfSome R o
    → ((a : A) → R a → IfSome S (f a))
    → IfSome S (o >>= f)
IfSome-bind R S none f h k = tt
IfSome-bind R S (some a) f h k = k a h

pub any_some {ℓ} : {A : Type ℓ} (o : Option A) → IfSome (λ a. Unit {0}) o
any_some none = tt
any_some (some a) = tt

pub create_device_command-CommandFits :
    (n : ℕ) (cmd : DeviceCommand) (timeout : ℕ) (h : EventHandler)
    → IsBuilt n h
    → IfSome (CommandFits n) (create_device_command cmd timeout h)
unfolding create_device_command
create_device_command-CommandFits n cmd timeout h b =
    elim (Bool-cases (ltb (get_bit_offset cmd.param) (length h.lights))) [
      | inl known ↦ rw known (ground (arith, b.count))
      | inr beyond ↦ rw beyond tt
    ]

-- Another list of events of one kind, for any state of the device
module _ {n : ℕ} {h : EventHandler} (b : IsBuilt n h) where
  pub IsBuilt-lights :
      (state : DeviceState) (es : List DeviceEvent)
      → All (EventFits n (λ s. s.lights)) es
      → IsBuilt n (record h { device_state = state; light_events = es })
  IsBuilt-lights state es fit = record {
    count = b.count;
    lights_fit = fit;
    buttons_fit = b.buttons_fit;
    sensors_fit = b.sensors_fit;
    modes_fit = b.modes_fit;
    clicks_fit = b.clicks_fit;
  }

  pub IsBuilt-buttons :
      (state : DeviceState) (es : List DeviceEvent)
      → All (EventFits n (λ s. s.buttons)) es
      → IsBuilt n (record h { device_state = state; button_events = es })
  IsBuilt-buttons state es fit = record {
    count = b.count;
    lights_fit = b.lights_fit;
    buttons_fit = fit;
    sensors_fit = b.sensors_fit;
    modes_fit = b.modes_fit;
    clicks_fit = b.clicks_fit;
  }

  pub IsBuilt-sensors :
      (state : DeviceState) (es : List DeviceEvent)
      → All (EventFits n (λ s. s.sensors)) es
      → IsBuilt n (record h { device_state = state; sensor_events = es })
  IsBuilt-sensors state es fit = record {
    count = b.count;
    lights_fit = b.lights_fit;
    buttons_fit = b.buttons_fit;
    sensors_fit = fit;
    modes_fit = b.modes_fit;
    clicks_fit = b.clicks_fit;
  }

  pub IsBuilt-modes :
      (state : DeviceState) (es : List ModeEvent)
      → All (λ e. All (CommandFits n) e.actions) es
      → IsBuilt n (record h { device_state = state; mode_events = es })
  IsBuilt-modes state es fit = record {
    count = b.count;
    lights_fit = b.lights_fit;
    buttons_fit = b.buttons_fit;
    sensors_fit = b.sensors_fit;
    modes_fit = fit;
    clicks_fit = b.clicks_fit;
  }

  pub IsBuilt-clicks :
      (state : DeviceState) (es : List DoubleClickEvent)
      → All (λ e. All (CommandFits n) e.actions) es
      → IsBuilt n (record h { device_state = state; double_click_events = es })
  IsBuilt-clicks state es fit = record {
    count = b.count;
    lights_fit = b.lights_fit;
    buttons_fit = b.buttons_fit;
    sensors_fit = b.sensors_fit;
    modes_fit = b.modes_fit;
    clicks_fit = fit;
  }

-- Other lights, as many, and other modes
pub relit :
    (n : ℕ) (h : EventHandler) (lights : List LightObject)
    → IsBuilt n h
    → length lights ≡ n
    → IsBuilt n (record h { lights = lights })
relit n h lights b same = record {
  count = same;
  lights_fit = b.lights_fit;
  buttons_fit = b.buttons_fit;
  sensors_fit = b.sensors_fit;
  modes_fit = b.modes_fit;
  clicks_fit = b.clicks_fit;
}

pub remoded :
    (n bitset : ℕ) (h : EventHandler)
    → IsBuilt n h
    → IsBuilt n (record h { event_modes_bitset = bitset })
remoded n bitset h b = record {
  count = b.count;
  lights_fit = b.lights_fit;
  buttons_fit = b.buttons_fit;
  sensors_fit = b.sensors_fit;
  modes_fit = b.modes_fit;
  clicks_fit = b.clicks_fit;
}

pub create_device_event-IsBuilt :
    (n : ℕ) (type : DeviceEventType) (pin : ℕ) (state : TriggerState) (mode : ℕ) (h : EventHandler)
    → IsBuilt n h
    → IfSome (λ r. IsBuilt n r.0) (create_device_event type pin state mode h)
unfolding create_device_event new_device_event new_double_click_event
create_device_event-IsBuilt n DeviceEventType.light pin state mode h b =
    IsBuilt-lights b h.device_state _ (All-append _ h.light_events _ b.lights_fit ((refl, tt), tt))
create_device_event-IsBuilt n DeviceEventType.button pin state mode h b =
    IsBuilt-buttons b h.device_state _
      (All-append _ h.button_events _ b.buttons_fit ((refl, tt), tt))
create_device_event-IsBuilt n DeviceEventType.sensor pin state mode h b =
    IsBuilt-sensors b h.device_state _
      (All-append _ h.sensor_events _ b.sensors_fit ((refl, tt), tt))
create_device_event-IsBuilt n DeviceEventType.double_click pin state mode h b =
    IsBuilt-clicks b h.device_state _ (All-append _ h.double_click_events _ b.clicks_fit (tt, tt))
create_device_event-IsBuilt n DeviceEventType.unknown pin state mode h b = tt

pub create_mode_event-IsBuilt :
    (n mode : ℕ) (enabled : Bool) (h : EventHandler)
    → IsBuilt n h
    → IsBuilt n (create_mode_event mode enabled h).0
unfolding create_mode_event new_mode_event
create_mode_event-IsBuilt n mode enabled h b =
    IsBuilt-modes b h.device_state _ (All-append _ h.mode_events _ b.modes_fit (tt, tt))

All-modify {ℓ κ} :
    {A : Type ℓ} (P : A → Type κ) (f : A → A) (xs : List A) (i : ℕ)
    → ((a : A) → P a → P (f a))
    → All P xs
    → All P (modify f xs i)
All-modify P f [] i keeps all = tt
All-modify P f (x ∷ xs) zero keeps (this, these) = (keeps x this, these)
All-modify P f (x ∷ xs) (suc i) keeps (this, these) = (this, All-modify P f xs i keeps these)

pub set_actions-IsBuilt :
    (n : ℕ) (acts : List Command) (event : EventRef) (h : EventHandler)
    → All (CommandFits n) acts
    → IsBuilt n h
    → IsBuilt n (set_actions acts event h)
unfolding set_actions
set_actions-IsBuilt n acts (in_lights i) h fit b =
    IsBuilt-lights b h.device_state _
      (All-modify _ _ h.light_events i (λ e w. (w.0, fit)) b.lights_fit)
set_actions-IsBuilt n acts (in_buttons i) h fit b =
    IsBuilt-buttons b h.device_state _
      (All-modify _ _ h.button_events i (λ e w. (w.0, fit)) b.buttons_fit)
set_actions-IsBuilt n acts (in_sensors i) h fit b =
    IsBuilt-sensors b h.device_state _
      (All-modify _ _ h.sensor_events i (λ e w. (w.0, fit)) b.sensors_fit)
set_actions-IsBuilt n acts (in_modes i) h fit b =
    IsBuilt-modes b h.device_state _ (All-modify _ _ h.mode_events i (λ e w. fit) b.modes_fit)
set_actions-IsBuilt n acts (in_double_clicks i) h fit b =
    IsBuilt-clicks b h.device_state _
      (All-modify _ _ h.double_click_events i (λ e w. fit) b.clicks_fit)
