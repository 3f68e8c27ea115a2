-- ===== src/Timer.antt =====
-- timer_t of src/server/event/timer.cpp with timer_event_t of timer_event.cpp. An event is its number;
-- what is done with events is listed.
use smarty.Base.{ℕ, ◌≡◌, refl, Bool, true, List, [], ◌∷◌, ◌++◌}

pub data Output : Type 0 where
  -- on_event
  fire : ℕ → Output
  -- the last pointer to the event goes
  destroy : ℕ → Output

abbrev pub Timer : Type 0
Timer = List ℕ

-- timer_event_t::expired; on_event of that class is empty.
unfoldable pub expired : ℕ → Bool
expired event = true

unfoldable pub add_event : ℕ → Timer → Timer
add_event event t = t ++ event ∷ []

-- The loop of check_event_expiration: each event is taken from the queue and dropped.
unfoldable pub check_event_expiration : Timer → Timer × List Output
check_event_expiration [] = ([], [])
check_event_expiration (event ∷ events) =
    let (rest, out) = check_event_expiration events in (rest, destroy event ∷ out)

abbrev pub add_all : List ℕ → Timer → Timer
unfolding add_event
add_all [] t = t
add_all (e ∷ es) t = add_all es (add_event e t)

-- timer_t::do_run, for any number of rounds with the events that are added before each
unfoldable pub do_run : List (List ℕ) → Timer → Timer × List Output
unfolding check_event_expiration add_all
do_run [] t = (t, [])
do_run (es ∷ rounds) t =
    let (kept, out) = check_event_expiration (add_all es t) in
    let (last, outs) = do_run rounds kept in (last, out ++ outs)

abbrev fired : List Output → List ℕ
fired [] = []
fired (fire e ∷ os) = e ∷ fired os
fired (destroy e ∷ os) = fired os

fired-append : (xs ys : List Output) → fired xs ≡ [] → fired ys ≡ [] → fired (xs ++ ys) ≡ []
fired-append [] ys h k = k
fired-append (fire e ∷ xs) ys h k = cc
fired-append (destroy e ∷ xs) ys h k = fired-append xs ys h k

fired-check : (t : Timer) → fired (check_event_expiration t).1 ≡ []
unfolding check_event_expiration
fired-check [] = refl
fired-check (e ∷ t) = fired-check t

-- Whatever events are added, the timer never calls on_event of one.
pub fired-do_run : (rounds : List (List ℕ)) (t : Timer) → fired (do_run rounds t).1 ≡ []
unfolding do_run
fired-do_run [] t = refl
fired-do_run (es ∷ rounds) t =
    let checked = check_event_expiration (add_all es t) in
    fired-append checked.1 (do_run rounds checked.0).1 (fired-check (add_all es t))
      (fired-do_run rounds checked.0)
