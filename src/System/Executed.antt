-- ===== src/System/Executed.antt =====
-- The commands that the event handler's thread (src/server/event/event_handler.cpp) sends to the device:
-- those of src/server/command/command_device.cpp that it takes from the queue and that have no delay.
use mathlib.Core.List.{append-nil}
use smarty.Base.{
  ℕ, ◌+◌, ◌≡◌, refl, arith, Bool, List, [], ◌∷◌, ◌++◌, Option, none, some, if◌then◌else◌, ◌==◌,
}
use smarty.Common.{ErrorCode, error_ok, DeviceCommand}
use smarty.Command.{Command, LightObject}
use smarty.Event.{DeviceEvent}
use smarty.Creation.Built.{IfSome}
use smarty.Handler.{
  EventHandler, Output, push, update_modes_request, execute_command, Result, ◌>>=◌, pushes,
  on_double_click, on_light_changed, on_button_pressed, on_sensor_triggered, update_modes,
  set_mode_bit, fire_mode_events, fire_double_clicks,
}
use smarty.Worker.{
  execute_device, execute, process_command, check_light, check_lights, check_light_objects,
  process_queue, run_round, Round,
}

-- The commands that go to the device
abbrev pub sent : List Output → List DeviceCommand
sent [] = []
sent (push c ∷ out) = sent out
sent (update_modes_request bitset ∷ out) = sent out
sent (execute_command cmd ∷ out) = cmd ∷ sent out

-- The device commands that have no delay
abbrev pub direct : List Command → List DeviceCommand
direct [] = []
direct (Command.device cmd timeout idx ∷ cs) = if timeout == 0 then cmd ∷ direct cs else direct cs
direct (Command.mode cmd delay ∷ cs) = direct cs
direct (Command.fake ∷ cs) = direct cs

pub sent-append : (xs ys : List Output) → sent (xs ++ ys) ≡ sent xs ++ sent ys
sent-append [] ys = refl
sent-append (push c ∷ xs) ys = sent-append xs ys
sent-append (update_modes_request bitset ∷ xs) ys = sent-append xs ys
sent-append (execute_command cmd ∷ xs) ys = λ i. cmd ∷ sent-append xs ys i

pub direct-append : (xs ys : List Command) → direct (xs ++ ys) ≡ direct xs ++ direct ys
direct-append [] ys = refl
direct-append (Command.device cmd timeout idx ∷ xs) ys = ground (arith, direct-append xs ys)
direct-append (Command.mode cmd delay ∷ xs) ys = direct-append xs ys
direct-append (Command.fake ∷ xs) ys = direct-append xs ys

sent-pushes : (cs : List Command) → sent (pushes cs) ≡ []
sent-pushes [] = refl
sent-pushes (c ∷ cs) = sent-pushes cs

-- If it returns, these commands went to the device.
abbrev pub Sends {ℓ} : {A : Type ℓ} → List DeviceCommand → Option (A × List Output) → Type 0
Sends cmds r = IfSome (λ x. sent x.1 ≡ cmds) r

-- A loop over events, and then its commands
loop-Sends :
    (o : Option (List DeviceEvent × List Command)) (f : List DeviceEvent → EventHandler)
    → Sends [] (o >>= λ r. some (f r.0, pushes r.1))
loop-Sends none f = tt
loop-Sends (some r) f = sent-pushes r.1

without_code-Sends :
    (cmds : List DeviceCommand) (o : Option (EventHandler × List Output × ErrorCode))
    → IfSome (λ x. sent x.1 ≡ cmds) o
    → Sends cmds (o >>= λ r. some (r.0, r.1))
without_code-Sends cmds none e = tt
without_code-Sends cmds (some r) e = e

with_ok-Sends :
    (o : Result)
    → Sends [] o
    → IfSome
        (λ (x : EventHandler × List Output × ErrorCode). sent x.1 ≡ [])
        (o >>= λ r. some (r.0, r.1, error_ok))
with_ok-Sends none e = tt
with_ok-Sends (some r) e = e

-- Two steps, of which the second sends nothing
then_rest-Sends {κ μ} :
    {B : Type κ} {C : Type μ} (cmds : List DeviceCommand) (out : List Output)
    (r : Option (B × List Output)) (g : B → C)
    → sent out ≡ cmds
    → Sends [] r
    → Sends cmds (r >>= λ rest. some (g rest.0, out ++ rest.1))
then_rest-Sends cmds out none g e h = tt
then_rest-Sends cmds out (some (b, out')) g e h = rw (sent-append, e, h) (append-nil cmds)

both_steps-Sends {ℓ κ μ} :
    {A : Type ℓ} {B : Type κ} {C : Type μ} (cmds : List DeviceCommand)
    (o : Option (A × List Output)) (f : A → Option (B × List Output)) (g : A → B → C)
    → Sends cmds o
    → ((a : A) → Sends [] (f a))
    → Sends cmds (o >>= λ first. f first.0 >>= λ rest. some (g first.0 rest.0, first.1 ++ rest.1))
both_steps-Sends cmds none f g e k = tt
both_steps-Sends cmds (some (a, out)) f g e k = then_rest-Sends cmds out (f a) (g a) e (k a)

pub on_light_changed-Sends : (w : ℕ) (h : EventHandler) → Sends [] (on_light_changed w h)
unfolding on_light_changed
on_light_changed-Sends w h = loop-Sends _ _

pub on_button_pressed-Sends : (w : ℕ) (h : EventHandler) → Sends [] (on_button_pressed w h)
unfolding on_button_pressed
on_button_pressed-Sends w h = loop-Sends _ _

pub on_sensor_triggered-Sends : (w : ℕ) (h : EventHandler) → Sends [] (on_sensor_triggered w h)
unfolding on_sensor_triggered
on_sensor_triggered-Sends w h = loop-Sends _ _

pub on_double_click-Sends : (pin : ℕ) (h : EventHandler) → Sends [] (some (on_double_click pin h))
unfolding on_double_click
on_double_click-Sends pin h =
    sent-pushes (fire_double_clicks h.event_modes_bitset pin h.double_click_events)

pub update_modes-Sends : (bitset : ℕ) (h : EventHandler) → Sends [] (update_modes bitset h)
unfolding update_modes
update_modes-Sends bitset h =
    let commands = (fire_mode_events bitset h.mode_events).1 in
    let quiet : sent (pushes commands ++ update_modes_request bitset ∷ []) ≡ [] =
      rw (sent-append, sent-pushes commands) in
    ground (arith, quiet)

set_mode_bit-Sends :
    (bit : ℕ) (on_off : Bool) (h : EventHandler) → Sends [] (set_mode_bit bit on_off h)
unfolding set_mode_bit
set_mode_bit-Sends bit on_off h = ground arith

execute_device-Sends :
    (now : ℕ) (answer : ErrorCode) (cmd : DeviceCommand) (timeout idx : ℕ) (h : EventHandler)
    → IfSome
        (λ x. sent x.1 ≡ direct (Command.device cmd timeout idx ∷ []))
        (execute_device now answer cmd timeout idx h)
unfolding execute_device
execute_device-Sends now answer cmd timeout idx h = ground arith

process_command-Sends :
    (now : ℕ) (answer : ErrorCode) (c : Command) (h : EventHandler)
    → Sends (direct (c ∷ [])) (process_command now answer c h)
unfolding process_command execute
process_command-Sends now answer (Command.device cmd timeout idx) h =
    without_code-Sends _ _ (execute_device-Sends now answer cmd timeout idx h)
process_command-Sends now answer (Command.mode cmd delay) h =
    without_code-Sends [] _ (with_ok-Sends _ (set_mode_bit-Sends cmd.mode_bit cmd.on_off h))
process_command-Sends now answer Command.fake h = refl

check_light-Sends :
    (now : ℕ) (h : EventHandler) (idx : ℕ) (l : LightObject) → Sends [] (check_light now h idx l)
unfolding check_light
check_light-Sends now h idx l = ground (arith, tt)

check_lights-Sends :
    (now : ℕ) (h : EventHandler) (idx : ℕ) (ls : List LightObject)
    → Sends [] (check_lights now h idx ls)
unfolding check_lights
check_lights-Sends now h idx [] = refl
check_lights-Sends now h idx (l ∷ ls) =
    both_steps-Sends [] _ _ (λ a b. a ∷ b) (check_light-Sends now h idx l)
      (λ a. check_lights-Sends now h (idx + 1) ls)

lights-Sends :
    (h : EventHandler) (o : Option (List LightObject × List Output))
    → Sends [] o
    → Sends [] (o >>= λ r. some (record h { lights = r.0 }, r.1))
lights-Sends h none e = tt
lights-Sends h (some r) e = e

check_light_objects-Sends : (now : ℕ) (h : EventHandler) → Sends [] (check_light_objects now h)
unfolding check_light_objects
check_light_objects-Sends now h = lights-Sends h _ (check_lights-Sends now h 0 h.lights)

abbrev pub listed : Option Command → List Command
listed none = []
listed (some c) = c ∷ []

process_queue-Sends :
    (r : Round) (h : EventHandler) → Sends (direct (listed r.popped)) (process_queue r h)
unfolding process_queue
process_queue-Sends r h =
    elim r.popped
      as (λ o.
        Sends (direct (listed o))
          (elim o [ none ↦ some (h, []) | some c ↦ process_command r.execute_time r.answer c h ])) [
            | none ↦ refl
            | some c ↦ process_command-Sends r.execute_time r.answer c h
          ]

-- A round sends the command that it takes from the queue, if that is for the device and has no delay.
pub run_round-Sends :
    (r : Round) (h : EventHandler) → Sends (direct (listed r.popped)) (run_round r h)
unfolding run_round
run_round-Sends r h =
    both_steps-Sends _ _ _ (λ a b. b) (process_queue-Sends r h)
      (λ a. check_light_objects-Sends r.check_time a)
