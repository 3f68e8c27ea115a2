-- ===== src/Startup/Balance.antt =====
-- Who is left running when the thread of the network server has ended
-- (src/server/server/net_server.cpp).
use smarty.Base.{
  Option, ℕ, ◌+◌, ◌≡◌, refl, arith, Bool, true, false, not, List, [], ◌∷◌, ◌++◌, none, some,
  if◌then◌else◌,
}
use smarty.Creation.Built.{IfSome}
use smarty.Startup.{
  Part, mobile_register, desktop_register, Call, start, stop, wait, add_observer, remove_observer,
  Answers,
}
use smarty.Startup.Network.{
  NetServer, new_net_server, do_run, accept_all, Ending, gave_up, waits, finished,
}
use smarty.Startup.Counts.{
  count, is_start, is_stop, is_wait, is_add, is_remove, Balanced, LeftRunning, all_start,
  starts_from, start_handlers_lem, count-append, stops_from, all_end, stops_until,
  stop_handlers_lem, handlers_lem, until-OnlyClients, from-OnlyClients, KeepsRegisters,
  starts_clients,
}

-- The calls of a thread that has run to its end
abbrev whole_run : ℕ → List Call
whole_run n =
    (start mobile_register ∷ add_observer mobile_register ∷ [])
    ++ ((start desktop_register ∷ []) ++ starts_from 0 n)
    ++ (stops_from 0 n
        ++ ((stop desktop_register ∷ wait desktop_register ∷ [])
            ++ (remove_observer mobile_register
                ∷ stop mobile_register
                ∷ wait mobile_register
                ∷ [])))

abbrev last_calls : List Call
last_calls =
    stop desktop_register
    ∷ wait desktop_register
    ∷ remove_observer mobile_register
    ∷ stop mobile_register
    ∷ wait mobile_register
    ∷ []

count-whole_run :
    (test : Call → Bool) (n : ℕ)
    → count test (whole_run n)
      ≡ count test
          (start mobile_register ∷ add_observer mobile_register ∷ start desktop_register ∷ [])
        + count test (starts_from 0 n)
        + count test (stops_from 0 n)
        + count test last_calls
count-whole_run test n = omega (
  arith,
  count-append test (starts_from 0 n) (stops_from 0 n ++ last_calls),
  count-append test (stops_from 0 n) last_calls,
)

whole_run-Balanced : (p : Part) (n : ℕ) → Balanced p (whole_run n)
whole_run-Balanced p n =
    let h = handlers_lem p 0 n in
    record {
      stopped = omega (arith, count-whole_run (is_stop p) n, count-whole_run (is_start p) n);
      waited = omega (arith, count-whole_run (is_wait p) n, count-whole_run (is_start p) n);
      removed = omega (arith, count-whole_run (is_remove p) n, count-whole_run (is_add p) n);
    }

abbrev deaf_run_short : List Call
deaf_run_short = start mobile_register ∷ add_observer mobile_register ∷ []

short-LeftRunning : LeftRunning deaf_run_short
short-LeftRunning = record {
  none_stopped = λ p. omega arith;
  none_removed = λ p. omega arith;
  mobile_started = omega arith;
  mobile_observes = omega arith;
}

-- The calls of a thread whose socket does not listen
abbrev deaf_run : ℕ → List Call
deaf_run n =
    (start mobile_register ∷ add_observer mobile_register ∷ [])
    ++ ((start desktop_register ∷ []) ++ starts_from 0 n)

deaf_run-LeftRunning : (n : ℕ) → LeftRunning (deaf_run n)
deaf_run-LeftRunning n = record {
  none_stopped = λ p. omega (arith, (handlers_lem p 0 n).no_stops);
  none_removed = λ p. omega (arith, (handlers_lem p 0 n).none_removed);
  mobile_started = omega (arith, starts_clients 0 n);
  mobile_observes = omega (arith, (handlers_lem mobile_register 0 n).no_adds);
}

-- The calls of a thread that waits for a client thread for ever
abbrev stuck_run : (ℕ → Bool) → ℕ → List Call
stuck_run ends n = deaf_run n ++ stops_until ends 0 n

stuck_run-KeepsRegisters : (ends : ℕ → Bool) (n : ℕ) → KeepsRegisters (stuck_run ends n)
stuck_run-KeepsRegisters ends n =
    let first = from-OnlyClients 0 n in
    let last = until-OnlyClients ends 0 n in
    let split =
      λ (test : Call → Bool). count-append test (starts_from 0 n) (stops_until ends 0 n) in
    record {
      mobile_stopped =
          omega (arith, split (is_stop mobile_register), first.mobile_stops, last.mobile_stops);
      desktop_stopped =
          omega (arith, split (is_stop desktop_register), first.desktop_stops, last.desktop_stops);
      mobile_removed =
          omega (arith, split (is_remove mobile_register), first.removes, last.removes);
      mobile_started =
          omega (arith, split (is_start mobile_register), first.mobile_starts, last.mobile_starts);
      desktop_started =
          omega
            (arith, split (is_start desktop_register), first.desktop_starts, last.desktop_starts);
      mobile_observes = omega (arith, split (is_add mobile_register), first.adds, last.adds);
    }

running : List ℕ → NetServer
running queue = record {
  has_mobile_register = true;
  has_client_handlers = true;
  clients_queue = queue;
}

-- No null pointer among the clients
abbrev pub all_there : List (Option ℕ) → Bool
all_there [] = true
all_there (none ∷ cs) = false
all_there (some c ∷ cs) = all_there cs

abbrev queue_of : List (Option ℕ) → List ℕ → List ℕ
queue_of [] queue = queue
queue_of (none ∷ cs) queue = queue
queue_of (some c ∷ cs) queue = queue_of cs (queue ++ c ∷ [])

accept_all_lem :
    (cs : List (Option ℕ)) (queue : List ℕ)
    → accept_all cs queue ≡ (if all_there cs then some (queue_of cs queue) else none)
unfolding accept_all
accept_all_lem [] queue = refl
accept_all_lem (none ∷ cs) queue = refl
accept_all_lem (some c ∷ cs) queue = accept_all_lem cs (queue ++ c ∷ [])

-- What is left of a run, by what is met on the way
abbrev run_of :
    (mobile desktop handlers listens there end : Bool)
    → (ℕ → Bool)
    → ℕ
    → List ℕ
    → Option (NetServer × List Call × Ending)
run_of mobile desktop handlers listens there end ends n queue =
    if mobile
    then (if desktop
        then (if handlers
            then (if listens
                then (if there
                    then (if end
                        then some (running [], whole_run n, finished)
                        else some (running queue, stuck_run ends n, waits))
                    else none)
                else some (running [], deaf_run n, gave_up))
            else none)
        else some (record (running []) { has_client_handlers = false }, deaf_run_short, gave_up))
    else none

do_run_cases :
    (a : Answers) (listens : Bool) (ends : ℕ → Bool) (n : ℕ) (accepted : List (Option ℕ))
    → do_run a listens ends n accepted new_net_server
      ≡ run_of
          (a.starts mobile_register)
          (a.starts desktop_register)
          (all_start a 0 n)
          listens
          (all_there accepted)
          (all_end ends 0 n)
          ends
          n
          (queue_of accepted [])
unfolding do_run new_net_server running
do_run_cases a listens ends n accepted =
    ground (arith, start_handlers_lem a 0 n, stop_handlers_lem ends 0 n, accept_all_lem accepted [])

-- Where the thread has given up, where it waits for ever, and where it has run to its end
abbrev pub Outcome : NetServer × List Call × Ending → Type 0
Outcome (n, calls, gave_up) = LeftRunning calls
Outcome (n, calls, waits) = KeepsRegisters calls
Outcome (n, calls, finished) = (p : Part) → Balanced p calls

Outcome_cases :
    (mobile desktop handlers listens there end : Bool) (ends : ℕ → Bool) (n : ℕ) (queue : List ℕ)
    → IfSome Outcome (run_of mobile desktop handlers listens there end ends n queue)
Outcome_cases false desktop handlers listens there end ends n queue = tt
Outcome_cases true false handlers listens there end ends n queue = short-LeftRunning
Outcome_cases true true false listens there end ends n queue = tt
Outcome_cases true true true false there end ends n queue = deaf_run-LeftRunning n
Outcome_cases true true true true false end ends n queue = tt
Outcome_cases true true true true true true ends n queue = λ p. whole_run-Balanced p n
Outcome_cases true true true true true false ends n queue = stuck_run-KeepsRegisters ends n

-- How a result ends, `none` being a failed ASSERT
abbrev pub ending_of : Option (NetServer × List Call × Ending) → Option Ending
ending_of none = none
ending_of (some r) = some r.2

-- What the end depends on
abbrev pub expected_ending :
    Answers → (listens : Bool) → (ℕ → Bool) → ℕ → List (Option ℕ) → Option Ending
expected_ending a listens ends n accepted =
    if not (a.starts mobile_register)
    then none
    else if not (a.starts desktop_register)
    then some gave_up
    else if not (all_start a 0 n)
    then none
    else if not listens
    then some gave_up
    else if not (all_there accepted)
    then none
    else if all_end ends 0 n
    then some finished
    else some waits

-- The thread of the network server, with any number of client threads and of clients: it fails an
-- ASSERT exactly if the mobile register does not start, or a client thread does not, where the
-- desktop register did, or `accept` gives a null pointer before the stop. If the desktop register
-- does not start or the socket does not listen it gives up: nothing has been stopped, and the
-- mobile register is left running and observes the device. If some client thread does not end once
-- it is stopped, it waits for ever: both registers run on, and the mobile register observes the
-- device. In every other case it comes to its end: every part has been stopped and waited for as
-- often as it was started, and taken from the observers of the device as often as added.
pub do_run-Outcome :
    (a : Answers) (listens : Bool) (ends : ℕ → Bool) (n : ℕ) (accepted : List (Option ℕ))
    → (ending_of (do_run a listens ends n accepted new_net_server)
        ≡ expected_ending a listens ends n accepted)
      × IfSome Outcome (do_run a listens ends n accepted new_net_server)
do_run-Outcome a listens ends n accepted = rw (do_run_cases a listens ends n accepted) (
  ground arith,
  Outcome_cases (a.starts mobile_register) (a.starts desktop_register) (all_start a 0 n) listens
      (all_there accepted) (all_end ends 0 n) ends n (queue_of accepted []),
)
