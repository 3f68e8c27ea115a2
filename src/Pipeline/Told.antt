-- ===== src/Pipeline/Told.antt =====
-- What the device and the handler come to know of a new state: the last value of each kind among the
-- calls of device_controller_t (src/driver/device_controller.cpp) and of device_t
-- (src/server/device/device.cpp).
use smarty.Base.{bit_xor, ℕ, ◌+◌, ◌≡◌, refl, arith, List, [], ◌∷◌, ◌++◌, Option, All}
use smarty.Common.{DeviceState}
use smarty.Observer.{Notice, light_changed, button_pressed, sensor_triggered, double_click}
use smarty.Observer.Laws.{news}
use smarty.Controller.{Controller}
use smarty.Controller.Heard.{told, changes, clicked, clicks_of}
use smarty.Device.{pin_not_set}
use smarty.Device.Changes.{last, light_of, button_of, sensor_of, pin_of}
use smarty.Handler.{EventHandler}
use smarty.Handler.Hearing.{heeds_all}

last-append :
    (pick : Notice → Option ℕ) (v : ℕ) (xs ys : List Notice)
    → last pick v (xs ++ ys) ≡ last pick (last pick v xs) ys
last-append pick v [] ys = refl
last-append pick v (n ∷ xs) ys = last-append pick _ xs ys

-- The last value of each kind in what tells two states apart
last-changes :
    (pin : ℕ) (old new : DeviceState)
    → (last light_of old.lights (changes old new) ≡ new.lights)
      × (last button_of old.buttons (changes old new) ≡ new.buttons)
      × (last sensor_of old.sensors (changes old new) ≡ new.sensors)
      × (last pin_of pin (changes old new) ≡ pin)
last-changes pin old new = ground arith

abbrev IsClick : Notice → Type 0
IsClick (double_click pin) = Unit {0}
IsClick (light_changed w) = ⊥
IsClick (button_pressed w) = ⊥
IsClick (sensor_triggered w) = ⊥

last-clicks :
    (v : ℕ) (ns : List Notice)
    → All IsClick ns
    → (last light_of v ns ≡ v) × (last button_of v ns ≡ v) × (last sensor_of v ns ≡ v)
last-clicks v [] all = (refl, refl, refl)
last-clicks v (light_changed w ∷ ns) all = absurd all.0
last-clicks v (button_pressed w ∷ ns) all = absurd all.0
last-clicks v (sensor_triggered w ∷ ns) all = absurd all.0
last-clicks v (double_click pin ∷ ns) all = last-clicks v ns all.1

clicked-IsClick :
    (clock : ℕ → ℕ) (bitset idx : ℕ) (ts : List ℕ) → All IsClick (clicked clock bitset idx ts)
clicked-IsClick clock bitset idx [] = tt
clicked-IsClick clock bitset idx (t ∷ ts) =
    ground (arith, clicked-IsClick clock bitset (idx + 1) ts)

clicks_of-IsClick :
    (clock : ℕ → ℕ) (lights : ℕ) (c : Controller) → All IsClick (clicks_of clock lights c)
clicks_of-IsClick clock lights c =
    let lit = clicked-IsClick clock (bit_xor c.device_state.lights lights) 0 c.light_times in
    ground (arith, lit)

-- The light of the last double click
abbrev pub last_click : (ℕ → ℕ) → DeviceState → Controller → ℕ
last_click clock new c = last pin_of pin_not_set (clicks_of clock new.lights c)

-- What the handler hears of a new state
abbrev pub reported : (ℕ → ℕ) → DeviceState → Controller → List Notice
reported clock new c =
    changes c.device_state new ++ news double_click pin_not_set (last_click clock new c)

module _ (clock : ℕ → ℕ) (new : DeviceState) (c : Controller) where
  -- The device knows the new state once it has been told.
  pub last-told :
      let old = c.device_state in
      let all = told clock new c in
      (last light_of old.lights all ≡ new.lights)
      × (last button_of old.buttons all ≡ new.buttons)
      × (last sensor_of old.sensors all ≡ new.sensors)
      × (last pin_of pin_not_set all ≡ last_click clock new c)
  last-told =
      let old = c.device_state in
      let clicks = clicks_of-IsClick clock new.lights c in
      let first = clicks_of clock new.lights c in
      let differ = changes old new in
      let words = last-changes (last_click clock new c) old new in
      (
        rw (last-append light_of old.lights first differ, (last-clicks old.lights first clicks).0)
            words.0,
        rw
            (
              last-append button_of old.buttons first differ,
              (last-clicks old.buttons first clicks).1,
            )
            words.1,
        rw
            (
              last-append sensor_of old.sensors first differ,
              (last-clicks old.sensors first clicks).2,
            )
            words.2,
        rw (last-append pin_of pin_not_set first differ) words.3,
      )

  -- So does the handler once the device has reported.
  pub last-reported :
      let old = c.device_state in
      let all = reported clock new c in
      (last light_of old.lights all ≡ new.lights)
      × (last button_of old.buttons all ≡ new.buttons)
      × (last sensor_of old.sensors all ≡ new.sensors)
  last-reported =
      let old = c.device_state in
      let differ = changes old new in
      let click = news double_click pin_not_set (last_click clock new c) in
      let words = last-changes 0 old new in
      (
        rw (last-append light_of old.lights differ click, words.0) (ground arith),
        rw (last-append button_of old.buttons differ click, words.1) (ground arith),
        rw (last-append sensor_of old.sensors differ click, words.2) (ground arith),
      )

-- The state of the handler after a series of calls
pub state-heeds_all :
    (ns : List Notice) (h : EventHandler)
    → let s = h.device_state in
      (heeds_all ns h).device_state ≡ record {
        lights = last light_of s.lights ns;
        buttons = last button_of s.buttons ns;
        sensors = last sensor_of s.sensors ns;
      }
state-heeds_all [] h = refl
state-heeds_all (light_changed w ∷ ns) h = state-heeds_all ns _
state-heeds_all (button_pressed w ∷ ns) h = state-heeds_all ns _
state-heeds_all (sensor_triggered w ∷ ns) h = state-heeds_all ns _
state-heeds_all (double_click pin ∷ ns) h = state-heeds_all ns _
