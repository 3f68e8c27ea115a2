-- ===== src/Controller/Commands.antt =====
-- What device_controller_t (src/driver/device_controller.cpp) sends to the driver and what it keeps
-- of the answers, and what comes of it with the driver of src/driver/device_driver.cpp.
use smarty.Base.{
  ◌+◌, bit_xor, ℕ, ◌≡◌, ◌≢◌, refl, arith, Bool, true, false, ◌==◌, List, [], ◌∷◌, ◌++◌,
  if◌then◌else◌, All, All-append,
}
use smarty.Common.{DeviceCommand, DeviceState, state_ne, ec_status}
use smarty.Observer.{Notice}
use smarty.Controller.{
  Controller, Output, execute, notify, Driver, notify_all, notify_change, check_clicks, click,
  update_times_from, update_light_times, take_state, execute_stage, do_execute_command,
  execute_command,
}

-- The commands among the outputs
abbrev pub sent : List Output → List DeviceCommand
sent [] = []
sent (execute cmd ∷ out) = cmd ∷ sent out
sent (notify o n ∷ out) = sent out

sent-append : (xs ys : List Output) → sent (xs ++ ys) ≡ sent xs ++ sent ys
sent-append [] ys = refl
sent-append (execute cmd ∷ xs) ys = λ i. cmd ∷ sent-append xs ys i
sent-append (notify o n ∷ xs) ys = sent-append xs ys

sent-notify_all : (os : List ℕ) (n : Notice) → sent (notify_all os n) ≡ []
sent-notify_all [] n = refl
sent-notify_all (o ∷ os) n = sent-notify_all os n

sent-notify_change :
    (os : List ℕ) (kind : ℕ → Notice) (old new : ℕ) → sent (notify_change os kind old new) ≡ []
unfolding notify_change
sent-notify_change os kind old new = ground (arith, sent-notify_all os (kind new))

sent-click : (idx now t : ℕ) (os : List ℕ) → sent (click idx now t os) ≡ []
unfolding click
sent-click idx now t os = ground (arith, sent-notify_all os (Notice.double_click idx))

sent-update_times_from :
    (clock : ℕ → ℕ) (bitset : ℕ) (os : List ℕ) (idx : ℕ) (ts : List ℕ)
    → sent (update_times_from clock bitset os idx ts).1 ≡ []
unfolding update_times_from
sent-update_times_from clock bitset os idx [] = refl
sent-update_times_from clock bitset os idx (t ∷ ts) =
    let rest = sent-update_times_from clock bitset os (idx + 1) ts in
    ground (
      arith,
      rest,
      sent-click idx (clock idx) t os,
      sent-append (click idx (clock idx) t os) (update_times_from clock bitset os (idx + 1) ts).1,
    )

sent-check_clicks :
    (clock : ℕ → ℕ) (lights : ℕ) (c : Controller) → sent (check_clicks clock lights c).1 ≡ []
unfolding check_clicks update_light_times
sent-check_clicks clock lights c = ground (
  arith,
  sent-update_times_from clock (bit_xor c.device_state.lights lights) c.observers 0 c.light_times,
)

sent-take_state :
    (clock : ℕ → ℕ) (state : DeviceState) (c : Controller) → sent (take_state clock state c).1 ≡ []
unfolding take_state
sent-take_state clock state c = simp (sent-append, sent-check_clicks, sent-notify_change)

-- `0xFF` goes out in two halves, any other parameter in one command.
abbrev pub stages : DeviceCommand → List DeviceCommand
stages command =
    if command.param == 0xFF
    then record command { param = 0x0F } ∷ record command { param = 0xF0 } ∷ []
    else command ∷ []

sent-execute_stage :
    (driver : Driver) (clock : ℕ → ℕ) (n : ℕ) (cmd : DeviceCommand) (state : DeviceState)
    (c : Controller)
    → sent (execute_stage driver clock n cmd state c).1 ≡ cmd ∷ []
unfolding execute_stage
sent-execute_stage driver clock n cmd state c =
    ground (arith, sent-take_state clock (driver n cmd state).1 c)

sent-do_execute_command :
    (driver : Driver) (clock : ℕ → ℕ) (junk : DeviceState) (command : DeviceCommand)
    (c : Controller)
    → sent (do_execute_command driver clock junk command c).1 ≡ stages command
unfolding do_execute_command
sent-do_execute_command driver clock junk command c =
    let low = record command { param = 0x0F } in
    let high = record command { param = 0xF0 } in
    ground (
      arith,
      sent-execute_stage driver clock 0 command junk c,
      sent-execute_stage driver clock 1 high (driver 0 low junk).1 c,
    )

stages_fit : (command : DeviceCommand) → All (λ cmd. cmd.param ≢ 0xFF) (stages command)
stages_fit command = ground arith

-- Executing a command sends it in its stages and then asks for the status, whatever the driver
-- answers; so no parameter 0xFF ever reaches the driver.
pub sent-execute_command :
    (driver driver' : Driver) (clock clock' : ℕ → ℕ) (junk junk' : DeviceState)
    (command : DeviceCommand) (c : Controller)
    → let out = sent (execute_command driver driver' clock clock' junk junk' command c).1 in
      (out ≡ stages command ++ record { cmd = ec_status; param = 0 } ∷ [])
      × All (λ cmd. cmd.param ≢ 0xFF) out
unfolding execute_command
sent-execute_command driver driver' clock clock' junk junk' command c =
    let status : DeviceCommand = record { cmd = ec_status; param = 0 } in
    let c1 = (do_execute_command driver clock junk command c).0 in
    let out1 = (do_execute_command driver clock junk command c).1 in
    let out2 = (do_execute_command driver' clock' junk' status c1).1 in
    let all : sent (out1 ++ out2) ≡ stages command ++ status ∷ [] = rw (
      sent-append,
      sent-do_execute_command driver clock junk command c,
      sent-do_execute_command driver' clock' junk' status c1,
    ) in
    (all, rw all (All-append _ (stages command) _ (stages_fit command) (omega arith)))

pub state_ne-false : (a b : DeviceState) → state_ne a b ≡ false → a ≡ b
unfolding state_ne
state_ne-false a b h = ground arith

-- The state that the driver's last call gives, and whether it succeeded
abbrev pub last_answer : Driver → DeviceState → DeviceCommand → Bool × DeviceState
last_answer driver junk command =
    if command.param == 0xFF
    then driver 1 (record command { param = 0xF0 })
        (driver 0 (record command { param = 0x0F }) junk).1
    else driver 0 command junk

-- A controller knows the state of the last call that succeeded: a failed call changes nothing.
pub device_state-do_execute_command :
    (driver : Driver) (clock : ℕ → ℕ) (junk : DeviceState) (command : DeviceCommand)
    (c : Controller)
    → let answer = last_answer driver junk command in
      (do_execute_command driver clock junk command c).0.device_state
      ≡ (if answer.0 then answer.1 else c.device_state)
unfolding do_execute_command execute_stage take_state
device_state-do_execute_command driver clock junk command c =
    let low = record command { param = 0x0F } in
    let high = record command { param = 0xF0 } in
    ground (
      arith,
      state_ne-false c.device_state (driver 0 command junk).1,
      state_ne-false c.device_state (driver 1 high (driver 0 low junk).1).1,
    )

-- device_driver_t::execute_command of device_driver.cpp, whose body is commented out
unfoldable pub device_driver : Driver
device_driver n cmd state = (true, state)

-- With that driver every command leaves the controller with what stood in the local variable that
-- the source does not initialise.
pub junk-do_execute_command :
    (clock : ℕ → ℕ) (junk : DeviceState) (command : DeviceCommand) (c : Controller)
    → (do_execute_command device_driver clock junk command c).0.device_state ≡ junk
unfolding device_driver
junk-do_execute_command clock junk command c =
    ground (arith, device_state-do_execute_command device_driver clock junk command c)
