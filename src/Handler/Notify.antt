-- ===== src/Handler/Notify.antt =====
-- What the callbacks of `device_observer_t` in src/server/event/event_handler.cpp queue, against a
-- description by single bits.
use mathlib.Core.Bool.{xor}
use native.Mathlib.Nat.{pow-suc, one-le-pow}
use smarty.Bits.Laws.{test_bit-bit_and, test_bit-zero, bit_and_comm}
use smarty.Bits.Sizes.{bit_and-small, eq_of_low_bits}
use smarty.Base.{
  zero, suc, ◌^◌, false, ◌||◌, ◌==◌, ◌/=◌, bit_and, sym, ◌∙◌, ap, Bool-cases, inl, inr, ℕ, ◌<◌, ◌≡◌,
  refl, arith, Bool, ◌&&◌, List, [], ◌∷◌, ◌++◌, some, if◌then◌else◌, map, All,
}
use smarty.Bits.{test_bit}
use smarty.Common.{DeviceState}
use smarty.Command.{Command}
use smarty.Event.{DeviceEvent, watched, bool_eq, on_change, on_device_event}
use smarty.Event.Firing.{wanted, on_change_lem}
use smarty.Handler.{
  EventHandler, pushes, check_mode, fire_device_events, on_light_changed, on_button_pressed,
  on_sensor_triggered,
}

-- An event that looks at the word `word` of the state, on a pin that a word has.
abbrev pub Watches : (DeviceState → ℕ) → DeviceEvent → Type 0
Watches word e = (watched e.type ≡ some word) × (e.pin < 32)

-- Some bit below `width` is set in both.
abbrev pub share_bit : (width : ℕ) → ℕ → ℕ → Bool
share_bit zero a b = false
share_bit (suc w) a b = (test_bit a w && test_bit b w) || share_bit w a b

-- The event has no mode, or its mode, read as a set of bits, meets the modes that are on.
abbrev pub may_run : (bitset mode : ℕ) → Bool
may_run bitset mode = mode == 0 || share_bit mode bitset mode

-- The event may run, its bit differs from what it saw last, and is at the level it waits for.
abbrev pub due : ℕ → (DeviceState → ℕ) → DeviceState → DeviceEvent → Bool
due bitset word state e =
    may_run bitset e.mode
    && xor (test_bit (word state) e.pin) (test_bit (word e.prev_state) e.pin)
    && bool_eq (test_bit (word state) e.pin) (wanted e.trigger_state)

abbrev pub due_actions : ℕ → (DeviceState → ℕ) → DeviceState → List DeviceEvent → List Command
due_actions bitset word state [] = []
due_actions bitset word state (e ∷ es) =
    (if due bitset word state e then e.actions else []) ++ due_actions bitset word state es

-- Only an event that may run takes notice of the new state.
abbrev pub look : ℕ → DeviceState → DeviceEvent → DeviceEvent
look bitset state e = if may_run bitset e.mode then record e { prev_state = state } else e

pub on_device_event_lem :
    (word : DeviceState → ℕ) (state : DeviceState) (e : DeviceEvent)
    → watched e.type ≡ some word
    → on_device_event state e
      ≡ some (record e { prev_state = state }, on_change e (word state) (word e.prev_state))
unfolding on_device_event
on_device_event_lem word state e h = rw (h, on_device_event)

pow-above : (k : ℕ) → k < 2 ^ k
pow-above zero = omega arith
pow-above (suc k) = omega (arith, pow-above k, pow-suc 2 k)

no_shared_bit :
    (width a b i : ℕ)
    → i < width
    → share_bit width a b ≡ false
    → (test_bit a i && test_bit b i) ≡ false
no_shared_bit zero a b i low none_shared = absurd (omega arith)
no_shared_bit (suc w) a b i low none_shared = elim (Bool-cases (i == w)) [
  | inl top ↦ (let at_w : i ≡ w = ground arith in rw at_w (ground arith))
  | inr below ↦ no_shared_bit w a b i (ground arith) (ground arith)
]

meets : (width a b : ℕ) → bit_and a b ≡ 0 → share_bit width a b ≡ false
meets zero a b apart = refl
meets (suc w) a b apart =
    let bit : (test_bit a w && test_bit b w) ≡ false =
      sym (test_bit-bit_and a b w) ∙ ap (λ x. test_bit x w) apart ∙ test_bit-zero w in
    ground (arith, bit, meets w a b apart)

share_bit_lem : (a b : ℕ) → (bit_and a b /= 0) ≡ share_bit b a b
share_bit_lem a b = elim (Bool-cases (share_bit b a b)) [
  | inl shared ↦ ground (arith, meets b a b)
  | inr apart ↦
      (let small : bit_and a b < 2 ^ b =
          rw (bit_and_comm a b) (bit_and-small b b a (pow-above b)) in
        let gone : bit_and a b ≡ 0 =
          eq_of_low_bits b (bit_and a b) 0 small (omega (arith, one-le-pow b 2)) (λ i low.
            test_bit-bit_and a b i ∙ no_shared_bit b a b i low apart ∙ sym (test_bit-zero i)) in
        ground (arith, gone))
]

check_mode_lem : (bitset mode : ℕ) → check_mode bitset mode ≡ may_run bitset mode
unfolding check_mode
check_mode_lem bitset mode = ground (arith, share_bit_lem bitset mode)

fire_one :
    (bitset : ℕ) (word : DeviceState → ℕ) (state : DeviceState) (e : DeviceEvent)
    → Watches word e
    → (if check_mode bitset e.mode then on_device_event state e else some (e, []))
      ≡ some (look bitset state e, if due bitset word state e then e.actions else [])
fire_one bitset word state e w = ground (
  arith,
  check_mode_lem bitset e.mode,
  on_device_event_lem word state e w.0,
  on_change_lem e (word state) (word e.prev_state) w.1,
)

fire_device_events_lem :
    (bitset : ℕ) (word : DeviceState → ℕ) (state : DeviceState) (es : List DeviceEvent)
    → All (Watches word) es
    → fire_device_events bitset state es
      ≡ some (map (look bitset state) es, due_actions bitset word state es)
unfolding fire_device_events
fire_device_events_lem bitset word state [] ws = refl
fire_device_events_lem bitset word state (e ∷ es) ws =
    rw (fire_one bitset word state e ws.0, fire_device_events_lem bitset word state es ws.1)

-- The three lists hold events that look at their own word.
pub record IsWired (h : EventHandler) : Type 0 where
  pub lights_wired : All (Watches (λ s. s.lights)) h.light_events
  pub buttons_wired : All (Watches (λ s. s.buttons)) h.button_events
  pub sensors_wired : All (Watches (λ s. s.sensors)) h.sensor_events

-- On a wired handler each of the three callbacks returns, stores the new word, and in each event that
-- may run the new state; it queues, in order, the actions of exactly the events that may run and
-- whose bit of the word changed, since they last looked, to the level they wait for; and it changes
-- nothing else. An event may run if it has mode 0 or if its mode, read as a set of bits, has a bit in
-- common with the bits of the modes that are on.
pub callbacks_lem :
    (word : ℕ) (h : EventHandler)
    → IsWired h
    → let bitset = h.event_modes_bitset in
      let by_lights = record h.device_state { lights = word } in
      let by_buttons = record h.device_state { buttons = word } in
      let by_sensors = record h.device_state { sensors = word } in
      (on_light_changed word h
        ≡ some (
          record h {
            device_state = by_lights;
            light_events = map (look bitset by_lights) h.light_events;
          },
          pushes (due_actions bitset (λ s. s.lights) by_lights h.light_events),
        ))
      × (on_button_pressed word h
          ≡ some (
            record h {
              device_state = by_buttons;
              button_events = map (look bitset by_buttons) h.button_events;
            },
            pushes (due_actions bitset (λ s. s.buttons) by_buttons h.button_events),
          ))
      × (on_sensor_triggered word h
          ≡ some (
            record h {
              device_state = by_sensors;
              sensor_events = map (look bitset by_sensors) h.sensor_events;
            },
            pushes (due_actions bitset (λ s. s.sensors) by_sensors h.sensor_events),
          ))
unfolding on_light_changed on_button_pressed on_sensor_triggered
callbacks_lem word h w = (
  rw (
      fire_device_events_lem h.event_modes_bitset (λ s. s.lights)
        (record h.device_state { lights = word }) h.light_events w.lights_wired),
  rw (
      fire_device_events_lem h.event_modes_bitset (λ s. s.buttons)
        (record h.device_state { buttons = word }) h.button_events w.buttons_wired),
  rw (
      fire_device_events_lem h.event_modes_bitset (λ s. s.sensors)
        (record h.device_state { sensors = word }) h.sensor_events w.sensors_wired),
)
