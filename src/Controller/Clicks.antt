-- ===== src/Controller/Clicks.antt =====
-- Double clicks: `update_light_times` of src/driver/device_controller.cpp.
use smarty.Base.{
  ℕ, zero, suc, ◌+◌, ◌-◌, ◌≤◌, ◌≡◌, ◌∙◌, refl, arith, ap, Bool, ◌&&◌, ltb, List, [], ◌∷◌, ◌++◌,
  some, if◌then◌else◌, length, get_elem?,
}
use smarty.Bits.{test_bit}
use smarty.Bits.Words.{masked_bit}
use smarty.Observer.{double_click}
use smarty.Controller.{
  Controller, Output, notify_all, click, update_times_from, update_light_times, max_light_count,
}

-- The time of a light after a change of the lights in `bitset`
abbrev new_time : (ℕ → ℕ) → ℕ → ℕ → ℕ → ℕ
new_time clock bitset idx t = if test_bit bitset idx then clock idx else t

abbrev pub new_times : (ℕ → ℕ) → ℕ → ℕ → List ℕ → List ℕ
new_times clock bitset idx [] = []
new_times clock bitset idx (t ∷ ts) =
    new_time clock bitset idx t ∷ new_times clock bitset (idx + 1) ts

-- A light whose bit is set, and whose last change is less than two seconds old
abbrev pub is_double : (ℕ → ℕ) → ℕ → ℕ → ℕ → Bool
is_double clock bitset idx t = test_bit bitset idx && ltb (clock idx - t) 2

abbrev pub double_clicks : (ℕ → ℕ) → ℕ → List ℕ → ℕ → List ℕ → List Output
double_clicks clock bitset os idx [] = []
double_clicks clock bitset os idx (t ∷ ts) =
    (if is_double clock bitset idx t then notify_all os (double_click idx) else [])
    ++ double_clicks clock bitset os (idx + 1) ts

pub update_times_from_lem :
    (clock : ℕ → ℕ) (bitset : ℕ) (os : List ℕ) (idx : ℕ) (ts : List ℕ)
    → idx + length ts ≤ 32
    → update_times_from clock bitset os idx ts
      ≡ (new_times clock bitset idx ts, double_clicks clock bitset os idx ts)
unfolding update_times_from click
update_times_from_lem clock bitset os idx [] h = refl
update_times_from_lem clock bitset os idx (t ∷ ts) h =
    rw (update_times_from_lem clock bitset os (idx + 1) ts (omega arith))
      (ground (arith, masked_bit bitset idx (omega arith)))

get_elem?-new_times :
    (clock : ℕ → ℕ) (bitset i idx t : ℕ) (ts : List ℕ)
    → get_elem? ts i ≡ some t
    → get_elem? (new_times clock bitset idx ts) i
      ≡ some (if test_bit bitset (idx + i) then clock (idx + i) else t)
get_elem?-new_times clock bitset i idx t [] h = cc
get_elem?-new_times clock bitset zero idx t (x ∷ ts) h = ground arith
get_elem?-new_times clock bitset (suc i) idx t (x ∷ ts) h =
    let shift : idx + suc i ≡ idx + 1 + i = omega arith in
    rw shift (get_elem?-new_times clock bitset i (idx + 1) t ts h)

pub length-new_times :
    (clock : ℕ → ℕ) (bitset idx : ℕ) (ts : List ℕ)
    → length (new_times clock bitset idx ts) ≡ length ts
length-new_times clock bitset idx [] = refl
length-new_times clock bitset idx (t ∷ ts) = ap suc (length-new_times clock bitset (idx + 1) ts)

-- A change of the lights in `bitset`, with the eight times in place: a light i whose bit is set gets
-- the time of the change, another keeps its time t, and the eight stay in place; the observers hear
-- of a double click of exactly the lights that had changed less than two seconds before.
pub update_light_times_lem :
    (clock : ℕ → ℕ) (bitset i t : ℕ) (c : Controller)
    → length c.light_times ≡ max_light_count
    → get_elem? c.light_times i ≡ some t
    → let r = update_light_times clock bitset c in
      (length r.0.light_times ≡ max_light_count)
      × (get_elem? r.0.light_times i ≡ some (if test_bit bitset i then clock i else t))
      × (r.1 ≡ double_clicks clock bitset c.observers 0 c.light_times)
unfolding update_light_times
update_light_times_lem clock bitset i t c eight known =
    let all = update_times_from_lem clock bitset c.observers 0 c.light_times (omega arith) in
    let same : length (new_times clock bitset 0 c.light_times) ≡ max_light_count =
      length-new_times clock bitset 0 c.light_times ∙ eight in
    let start : 0 + i ≡ i = omega arith in
    rw all (same, (rw start at (get_elem?-new_times clock bitset i 0 t c.light_times known)), refl)
