-- ===== src/System.antt =====
-- The event handler (src/server/event/event_handler.h) at work: its queue of commands, which is filled
-- by its callbacks in the device's thread, by the mobile clients' handlers and by its own thread, and
-- emptied by its own thread. The locked queue (`lock_queue_t`) is code that the repository uses and
-- does not hold.
pub mod Safety
pub mod Start
pub mod Executed
pub mod Fifo
pub mod Order
use smarty.Base.{ℕ, List, [], ◌∷◌, ◌++◌, Option, none, some}
use smarty.Common.{ErrorCode, DeviceCommand}
use smarty.Creation.{create_device_command, add_command}
use smarty.Command.{Command}
use smarty.Creation.Built.{IfSome}
use smarty.Handler.{
  EventHandler, Output, push, update_modes_request, execute_command, Result, ◌>>=◌,
  on_light_changed, on_button_pressed, on_sensor_triggered, on_double_click, update_modes,
}
use smarty.Worker.{run_round, do_stop}

-- What is asked of `lock_queue_t`: it gives nothing that it was not given.
pub record Queue : Type 1 where
  pub Carrier : Type 0
  pub empty : Carrier
  pub add : Command → Carrier → Carrier
  pub take : Carrier → Option (Command × Carrier)
  -- every command in the queue has the property
  pub Every : (Command → Type 0) → Carrier → Type 0
  pub every_empty : (P : Command → Type 0) → Every P empty
  pub every_add :
      (P : Command → Type 0) (c : Command) (q : Carrier) → P c → Every P q → Every P (add c q)
  pub every_take :
      (P : Command → Type 0) (q : Carrier) → Every P q → IfSome (λ r. P r.0 × Every P r.1) (take q)

-- A call of the event handler from outside, or a round of its thread with the device's answer and
-- the two readings of the clock
pub data Call : Type 0 where
  light_changed button_pressed sensor_triggered double_clicked : ℕ → Call
  modes_updated : ℕ → Call
  -- a client's command, with its delay: create_device_command and add_command
  command_added : DeviceCommand → (timeout : ℕ) → Call
  stop : Call
  round : ErrorCode → (execute_time check_time : ℕ) → Call

module _ (queue : Queue) where
  open queue use {Carrier, add, take}

  pub record System : Type 0 where
    pub handler : EventHandler
    pub commands : Carrier

  -- The queue after what an operation put out
  unfoldable pub queued : List Output → Carrier → Carrier
  queued [] q = q
  queued (push c ∷ out) q = queued out (add c q)
  queued (update_modes_request bitset ∷ out) q = queued out q
  queued (execute_command cmd ∷ out) q = queued out q

  unfoldable pub after : Carrier → EventHandler × List Output → System × List Output
  after q (h, out) = (record { handler = h; commands = queued out q }, out)

  -- The round pops a command if there is one.
  unfoldable pub round_of :
      ErrorCode
      → ℕ
      → ℕ
      → Carrier
      → Option (Command × Carrier)
      → EventHandler
      → Option (System × List Output)
  round_of answer execute_time check_time q none h =
      run_round
        (record {
          popped = none;
          answer = answer;
          execute_time = execute_time;
          check_time = check_time;
        })
        h
      >>= λ r. some (after q r)
  round_of answer execute_time check_time q (some (c, q')) h =
      run_round
        (record {
          popped = some c;
          answer = answer;
          execute_time = execute_time;
          check_time = check_time;
        })
        h
      >>= λ r. some (after q' r)

  unfoldable pub step : Call → System → Option (System × List Output)
  step (light_changed w) s = on_light_changed w s.handler >>= λ r. some (after s.commands r)
  step (button_pressed w) s = on_button_pressed w s.handler >>= λ r. some (after s.commands r)
  step (sensor_triggered w) s = on_sensor_triggered w s.handler >>= λ r. some (after s.commands r)
  step (double_clicked pin) s = some (after s.commands (on_double_click pin s.handler))
  step (modes_updated bitset) s = update_modes bitset s.handler >>= λ r. some (after s.commands r)
  step (command_added cmd timeout) s = create_device_command cmd timeout s.handler >>= λ c.
      some (after s.commands (s.handler, add_command c ∷ []))
  step stop s = some (after s.commands (s.handler, do_stop))
  step (round answer execute_time check_time) s =
      round_of answer execute_time check_time s.commands (take s.commands) s.handler

  -- Calls and rounds in any order
  unfoldable pub run : List Call → System → Option (System × List Output)
  run [] s = some (s, [])
  run (c ∷ cs) s = step c s >>= λ first. run cs first.0 >>= λ rest. some (rest.0, first.1 ++ rest.1)
