-- ===== src/Worker.antt =====
-- The thread of event_handler_t (src/server/event/event_handler.cpp): it executes the queued commands
-- (src/server/command) and watches over the lights that are to be turned off.
pub mod Lights
pub mod Run
pub mod Callbacks
use smarty.Base.{
  ℕ, zero, suc, ◌+◌, ◌/◌, ◌%◌, ◌<◌, ◌≡◌, bit_and, bit_or, Bool, true, false, not, ◌&&◌, ◌||◌, ◌==◌,
  ◌/=◌, ltb, leb, List, [], ◌∷◌, ◌++◌, Option, none, some, if◌then◌else◌, length, get_elem?, set,
}
use smarty.Bits.Words.{shl_one, bit_not, dec_u32, all_ones}
use smarty.Common.{
  ErrorCode, error_ok, DeviceCommand, DeviceState, DeviceEventType, sensor, button, light,
  double_click, unknown, TriggerState, ec_turnoff,
}
use smarty.Command.{
  Command, ModeCmd, LightObject, set_turnoff_time, clear_turnoff_time, get_turnoff_timeout,
}
use smarty.Event.{
  DeviceEvent, new_device_event, on_device_event, ModeEvent, new_mode_event, on_mode_event,
  DoubleClickEvent, new_double_click_event, on_double_click_event,
}
use smarty.Handler.{
  EventHandler, Output, push, update_modes_request, execute_command, Result, ◌>>=◌, set_mode_bit,
}
use smarty.Creation.{create_device_command, add_command}

-- command_device_t::execute, at time `now`; `answer` is what `m_device.execute_command` returns.
unfoldable pub execute_device :
    ℕ
    → ErrorCode
    → DeviceCommand
    → ℕ
    → ℕ
    → EventHandler
    → Option (EventHandler × List Output × ErrorCode)
execute_device now answer cmd timeout idx h =
    if timeout /= 0
    then elim (get_elem? h.lights idx) [
      | none ↦ none
      | some l ↦ some (
        record h { lights = set h.lights idx (set_turnoff_time (now + timeout) l) },
        [],
        error_ok,
      )
    ]
    else some (h, execute_command cmd ∷ [], answer)

-- command_t::execute, in each class
unfoldable pub execute :
    ℕ → ErrorCode → Command → EventHandler → Option (EventHandler × List Output × ErrorCode)
execute now answer (Command.device cmd timeout idx) h = execute_device now answer cmd timeout idx h
execute now answer (Command.mode cmd delay) h =
    set_mode_bit cmd.mode_bit cmd.on_off h >>= λ r. some (r.0, r.1, error_ok)
execute now answer Command.fake h = some (h, [], error_ok)

-- event_handler_t::process_command, for the command that the queue gave. The code of a failed
-- command goes to the log alone.
unfoldable pub process_command : ℕ → ErrorCode → Command → EventHandler → Result
unfolding execute
process_command now answer c h = execute now answer c h >>= λ r. some (r.0, r.1)

-- The body of the loop of `check_light_objects` for light `idx`: whether it is due, and the command
-- that this queues.
unfoldable pub check_light : ℕ → EventHandler → ℕ → LightObject → Option (LightObject × List Output)
check_light now h idx l =
    let timeout = get_turnoff_timeout l in
    if timeout /= 0 && leb timeout now
    then elim (create_device_command (record { cmd = ec_turnoff; param = shl_one idx }) 0 h) [
      | none ↦ none
      | some c ↦ some (clear_turnoff_time l, add_command c ∷ [])
    ]
    else some (l, [])

-- The loop from light `idx` on, over the lights that are left
unfoldable pub check_lights :
    ℕ → EventHandler → ℕ → List LightObject → Option (List LightObject × List Output)
check_lights now h idx [] = some ([], [])
check_lights now h idx (l ∷ ls) = check_light now h idx l >>= λ first.
    check_lights now h (idx + 1) ls >>= λ rest. some (first.0 ∷ rest.0, first.1 ++ rest.1)

unfoldable pub check_light_objects : ℕ → EventHandler → Result
check_light_objects now h =
    check_lights now h 0 h.lights >>= λ r. some (record h { lights = r.0 }, r.1)

-- What one round of `do_run` meets: what the queue holds at its front, if anything, the device's
-- answer to it, and the two readings of the clock.
pub record Round : Type 0 where
  pub popped : Option Command
  pub answer : ErrorCode
  pub execute_time : ℕ
  pub check_time : ℕ

-- `if ( !m_cmd_queue.empty( ) ) process_command( )`
unfoldable pub process_queue : Round → EventHandler → Result
process_queue r h = elim r.popped [
  | none ↦ some (h, [])
  | some c ↦ process_command r.execute_time r.answer c h
]

-- One round of the loop of `do_run`, after the sleep and the test for stopping
unfoldable pub run_round : Round → EventHandler → Result
run_round r h = process_queue r h >>= λ first.
    check_light_objects r.check_time first.0 >>= λ rest. some (rest.0, first.1 ++ rest.1)

-- `do_run` over the rounds before it is stopped
unfoldable pub do_run : List Round → EventHandler → Result
do_run [] h = some (h, [])
do_run (r ∷ rs) h =
    run_round r h >>= λ first. do_run rs first.0 >>= λ rest. some (rest.0, first.1 ++ rest.1)

-- do_stop wakes the thread by a command that does nothing.
unfoldable pub do_stop : List Output
do_stop = push Command.fake ∷ []
