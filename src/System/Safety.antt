-- ===== src/System/Safety.antt =====
-- The event handler with its queue (src/server/event/event_handler.cpp) fails no ASSERT, whatever
-- calls come in whatever order, if clients name lights that exist.
use smarty.Creation.{create_device_command, get_bit_offset, add_command}
use smarty.Base.{
  ◌<◌, length, arith, ℕ, ◌≡◌, refl, List, [], ◌∷◌, ◌++◌, Option, none, some, All, All-append,
}
use smarty.Common.{ErrorCode, DeviceCommand}
use smarty.Command.{Command}
use smarty.Creation.Built.{CommandFits, IfSome}
use smarty.Handler.{
  EventHandler, Output, push, update_modes_request, execute_command, Result, ◌>>=◌, on_double_click,
}
use smarty.Worker.{do_stop}
use smarty.Worker.Run.{OutputFits, IsReady, Returns, run_round-Returns}
use smarty.Worker.Callbacks.{
  on_light_changed-Returns, on_button_pressed-Returns, on_sensor_triggered-Returns,
  on_double_click-Returns, update_modes-Returns,
}
use smarty.System.{
  Queue, Call, light_changed, button_pressed, sensor_triggered, double_clicked, modes_updated,
  command_added, stop, round, System, queued, after, round_of, step, run,
}

-- A command that a client adds is for one of n lights; any other would fail the ASSERT of
-- create_device_command.
abbrev pub IsKnown : ℕ → Call → Type 0
IsKnown n (command_added cmd timeout) = get_bit_offset cmd.param < n
IsKnown n (light_changed w) = Unit {0}
IsKnown n (button_pressed w) = Unit {0}
IsKnown n (sensor_triggered w) = Unit {0}
IsKnown n (double_clicked pin) = Unit {0}
IsKnown n (modes_updated bitset) = Unit {0}
IsKnown n stop = Unit {0}
IsKnown n (round answer execute_time check_time) = Unit {0}

create_known :
    (cmd : DeviceCommand) (timeout n : ℕ) (h : EventHandler)
    → length h.lights ≡ n
    → get_bit_offset cmd.param < n
    → create_device_command cmd timeout h
      ≡ some (Command.device cmd timeout (get_bit_offset cmd.param))
unfolding create_device_command
create_known cmd timeout n h same known = ground arith

module _ (queue : Queue) (n : ℕ) where
  open queue use {Carrier, add, take, Every, every_add, every_take}

  -- The handler has its clients and is built with n lights, at most 32, and so every command in the
  -- queue is for a light that exists.
  pub record IsSafe (s : System queue) : Type 0 where
    pub ready : IsReady n s.handler
    pub fit : Every (CommandFits n) s.commands

  -- It returns, to a safe system, and every command that it put out fits.
  abbrev pub StaysSafe : Option (System queue × List Output) → Type 0
  StaysSafe r =
      (s : System queue) × (out : List Output) × (r ≡ some (s, out))
      × IsSafe s
      × All (OutputFits n) out

  queued-Every :
      (out : List Output) (q : Carrier)
      → All (OutputFits n) out
      → Every (CommandFits n) q
      → Every (CommandFits n) (queued queue out q)
  unfolding queued
  queued-Every [] q fit every = every
  queued-Every (push c ∷ out) q (this, these) every =
      queued-Every out (add c q) these (every_add (CommandFits n) c q this every)
  queued-Every (update_modes_request bitset ∷ out) q (this, these) every =
      queued-Every out q these every
  queued-Every (execute_command cmd ∷ out) q (this, these) every = queued-Every out q these every

  after-StaysSafe :
      (q : Carrier) (r : Result)
      → Every (CommandFits n) q
      → Returns n r
      → StaysSafe (r >>= λ x. some (after queue q x))
  unfolding after
  after-StaysSafe q r every (h, out, returns, ready, fit) = (
    record { handler = h; commands = queued queue out q },
    out,
    rw returns,
    record { ready = ready; fit = queued-Every out q fit every },
    fit,
  )

  round_of-StaysSafe :
      (answer : ErrorCode) (execute_time check_time : ℕ) (q : Carrier)
      (taken : Option (Command × Carrier)) (h : EventHandler)
      → IsReady n h
      → Every (CommandFits n) q
      → IfSome (λ r. CommandFits n r.0 × Every (CommandFits n) r.1) taken
      → StaysSafe (round_of queue answer execute_time check_time q taken h)
  unfolding round_of
  round_of-StaysSafe answer execute_time check_time q none h ready every t =
      after-StaysSafe q _ every (run_round-Returns n _ h ready tt)
  round_of-StaysSafe answer execute_time check_time q (some (c, q')) h ready every (fits, rest) =
      after-StaysSafe q' _ rest (run_round-Returns n _ h ready fits)

  pub step-StaysSafe :
      (c : Call) (s : System queue) → IsSafe s → IsKnown n c → StaysSafe (step queue c s)
  unfolding step do_stop
  step-StaysSafe (light_changed w) s i known =
      after-StaysSafe s.commands _ i.fit (on_light_changed-Returns n w s.handler i.ready)
  step-StaysSafe (button_pressed w) s i known =
      after-StaysSafe s.commands _ i.fit (on_button_pressed-Returns n w s.handler i.ready)
  step-StaysSafe (sensor_triggered w) s i known =
      after-StaysSafe s.commands _ i.fit (on_sensor_triggered-Returns n w s.handler i.ready)
  step-StaysSafe (double_clicked pin) s i known =
      after-StaysSafe s.commands (some (on_double_click pin s.handler)) i.fit
        (on_double_click-Returns n pin s.handler i.ready)
  step-StaysSafe (command_added cmd timeout) s i known =
      let added : create_device_command cmd timeout s.handler
          ≡ some (Command.device cmd timeout (get_bit_offset cmd.param)) =
        create_known cmd timeout n s.handler i.ready.built.count known in
      rw added (
        after-StaysSafe s.commands
          (some
            (s.handler, add_command (Command.device cmd timeout (get_bit_offset cmd.param)) ∷ []))
          i.fit (s.handler, _, refl, i.ready, (known, tt)))
  step-StaysSafe (modes_updated bitset) s i known =
      after-StaysSafe s.commands _ i.fit (update_modes-Returns n bitset s.handler i.ready)
  step-StaysSafe stop s i known =
      after-StaysSafe s.commands (some (s.handler, do_stop)) i.fit
        (s.handler, do_stop, refl, i.ready, (tt, tt))
  step-StaysSafe (round answer execute_time check_time) s i known =
      round_of-StaysSafe answer execute_time check_time s.commands (take s.commands) s.handler
        i.ready i.fit (every_take (CommandFits n) s.commands i.fit)

  -- From a safe system, with a queue that gives only what it was given, any calls of the handler and
  -- any rounds of its thread, in any order, return, if the commands that clients add are for lights
  -- that exist: then no ASSERT fails, the system stays safe, and every command that is queued is for a
  -- light that exists.
  pub run-StaysSafe :
      (calls : List Call) (s : System queue)
      → IsSafe s
      → All (IsKnown n) calls
      → StaysSafe (run queue calls s)
  unfolding run
  run-StaysSafe [] s i known = (s, [], refl, i, tt)
  run-StaysSafe (c ∷ cs) s i known =
      let (s1, out1, step1, safe1, fit1) = step-StaysSafe c s i known.0 in
      let (s2, out2, run2, safe2, fit2) = run-StaysSafe cs s1 safe1 known.1 in
      (s2, out1 ++ out2, rw (step1, run2), safe2, All-append (OutputFits n) out1 out2 fit1 fit2)
