-- ===== src/System/Fifo.antt =====
-- The queue of the event handler (src/server/event/event_handler.cpp) as a line: what is asked of
-- `lock_queue_t` beyond System.Queue is that the oldest command comes out first.
use mathlib.Core.List.{append_assoc, append-nil}
use mathlib.Core.Path.{subst}
use smarty.Base.{
  ℕ, ◌+◌, ◌≡◌, sym, refl, Bool, true, false, List, [], ◌∷◌, ◌++◌, Option, none, some, if◌then◌else◌,
}
use smarty.Common.{ErrorCode, DeviceCommand}
use smarty.System.Executed.{
  Sends, sent, direct, run_round-Sends, on_light_changed-Sends, on_button_pressed-Sends,
  on_sensor_triggered-Sends, on_double_click-Sends, update_modes-Sends,
}
use smarty.Command.{Command}
use smarty.Creation.Built.{IfSome}
use smarty.Creation.{create_device_command, add_command}
use smarty.Handler.{
  EventHandler, Output, push, update_modes_request, execute_command, Result, ◌>>=◌, on_double_click,
}
use smarty.Worker.{do_stop}
use smarty.System.{
  Queue, Call, light_changed, button_pressed, sensor_triggered, double_clicked, modes_updated,
  command_added, stop, round, System, queued, after, round_of, step,
}

module _ (queue : Queue) where
  open queue use {Carrier, empty, add, take}

  -- What `take` gives of a line of commands
  abbrev pub Takes : (Carrier → List Command) → List Command → Option (Command × Carrier) → Type 0
  Takes contents line none = line ≡ []
  Takes contents line (some (c, q)) = line ≡ c ∷ contents q

  pub record Fifo : Type 0 where
    pub contents : Carrier → List Command
    pub contents_empty : contents empty ≡ []
    pub contents_add : (c : Command) (q : Carrier) → contents (add c q) ≡ contents q ++ c ∷ []
    pub contents_take : (q : Carrier) → Takes contents (contents q) (take q)

-- The commands that an operation queues
abbrev pub pushed : List Output → List Command
pushed [] = []
pushed (push c ∷ out) = c ∷ pushed out
pushed (update_modes_request bitset ∷ out) = pushed out
pushed (execute_command cmd ∷ out) = pushed out

pushed-append : (xs ys : List Output) → pushed (xs ++ ys) ≡ pushed xs ++ pushed ys
pushed-append [] ys = refl
pushed-append (push c ∷ xs) ys = λ i. c ∷ pushed-append xs ys i
pushed-append (update_modes_request bitset ∷ xs) ys = pushed-append xs ys
pushed-append (execute_command cmd ∷ xs) ys = pushed-append xs ys

abbrev pub is_round : Call → Bool
is_round (round answer execute_time check_time) = true
is_round (light_changed w) = false
is_round (button_pressed w) = false
is_round (sensor_triggered w) = false
is_round (double_clicked pin) = false
is_round (modes_updated bitset) = false
is_round (command_added cmd timeout) = false
is_round stop = false

abbrev pub rounds_in : List Call → ℕ
rounds_in [] = 0
rounds_in (c ∷ cs) = (if is_round c then 1 else 0) + rounds_in cs

module _ (queue : Queue) where
  open queue use {Carrier, add, take}

  abbrev pub first_of : Option (Command × Carrier) → List Command
  first_of none = []
  first_of (some (c, q)) = c ∷ []

  -- The command that a call executes, if it is a round and there is one
  abbrev pub executed : Call → System queue → List Command
  executed c s = if is_round c then first_of (take s.commands) else []

  abbrev pub later :
      (System queue → List Command) → Option (System queue × List Output) → List Command
  later f none = []
  later f (some (s, out)) = f s

  -- The commands that a run executes, in order
  abbrev pub all_executed : List Call → System queue → List Command
  all_executed [] s = []
  all_executed (c ∷ cs) s = executed c s ++ later (all_executed cs) (step queue c s)

  after-Sends :
      (cmds : List DeviceCommand) (q : Carrier) (o : Result)
      → Sends cmds o
      → Sends cmds (o >>= λ x. some (after queue q x))
  unfolding after
  after-Sends cmds q none e = tt
  after-Sends cmds q (some (h, out)) e = e

  round_of-Sends :
      (answer : ErrorCode) (execute_time check_time : ℕ) (q : Carrier)
      (taken : Option (Command × Carrier)) (h : EventHandler)
      → Sends (direct (first_of taken)) (round_of queue answer execute_time check_time q taken h)
  unfolding round_of
  round_of-Sends answer execute_time check_time q none h = after-Sends [] q _ (run_round-Sends _ h)
  round_of-Sends answer execute_time check_time q (some (c, q')) h =
      after-Sends (direct (c ∷ [])) q' _ (run_round-Sends _ h)

  added-Sends :
      (q : Carrier) (h : EventHandler) (o : Option Command)
      → Sends [] (o >>= λ c. some (after queue q (h, add_command c ∷ [])))
  added-Sends q h none = tt
  added-Sends q h (some c) = after-Sends [] q (some (h, add_command c ∷ [])) refl

  step-Sends : (c : Call) (s : System queue) → Sends (direct (executed c s)) (step queue c s)
  unfolding step do_stop
  step-Sends (light_changed w) s = after-Sends [] s.commands _ (on_light_changed-Sends w s.handler)
  step-Sends (button_pressed w) s =
      after-Sends [] s.commands _ (on_button_pressed-Sends w s.handler)
  step-Sends (sensor_triggered w) s =
      after-Sends [] s.commands _ (on_sensor_triggered-Sends w s.handler)
  step-Sends (double_clicked pin) s =
      after-Sends [] s.commands (some (on_double_click pin s.handler))
        (on_double_click-Sends pin s.handler)
  step-Sends (modes_updated bitset) s =
      after-Sends [] s.commands _ (update_modes-Sends bitset s.handler)
  step-Sends (command_added cmd timeout) s =
      added-Sends s.commands s.handler (create_device_command cmd timeout s.handler)
  step-Sends stop s = after-Sends [] s.commands (some (s.handler, do_stop)) refl
  step-Sends (round answer execute_time check_time) s =
      round_of-Sends answer execute_time check_time s.commands (take s.commands) s.handler

  -- What a step that returns sends to the device is what it executes of commands without delay.
  pub sent-step :
      (c : Call) (s s1 : System queue) (out : List Output)
      → step queue c s ≡ some (s1, out)
      → sent out ≡ direct (executed c s)
  sent-step c s s1 out returns =
      subst (λ (o : Option (System queue × List Output)). Sends (direct (executed c s)) o) returns
        (step-Sends c s)

module _ (queue : Queue) (fifo : Fifo queue) where
  open queue use {Carrier, add, take}
  open fifo use {contents, contents_add, contents_take}

  contents-queued :
      (out : List Output) (q : Carrier) → contents (queued queue out q) ≡ contents q ++ pushed out
  unfolding queued
  contents-queued [] q = sym (append-nil (contents q))
  contents-queued (push c ∷ out) q =
      rw (contents-queued out (add c q), contents_add c q, append_assoc)
  contents-queued (update_modes_request bitset ∷ out) q = contents-queued out q
  contents-queued (execute_command cmd ∷ out) q = contents-queued out q

  -- What has been executed and what is left are what there was and what has been queued.
  abbrev pub Keeps : List Command → List Command → System queue × List Output → Type 0
  Keeps done before (s, out) = done ++ contents s.commands ≡ before ++ pushed out

  after-Keeps :
      (first : List Command) (q q' : Carrier) (r : Result)
      → contents q ≡ first ++ contents q'
      → IfSome (Keeps first (contents q)) (r >>= λ x. some (after queue q' x))
  unfolding after
  after-Keeps first q q' none same = tt
  after-Keeps first q q' (some (h, out)) same = rw (contents-queued out q', same, append_assoc)

  round_of-Keeps :
      (answer : ErrorCode) (execute_time check_time : ℕ) (q : Carrier)
      (taken : Option (Command × Carrier)) (h : EventHandler)
      → Takes queue contents (contents q) taken
      → IfSome
          (Keeps (first_of queue taken) (contents q))
          (round_of queue answer execute_time check_time q taken h)
  unfolding round_of
  round_of-Keeps answer execute_time check_time q none h t = after-Keeps [] q q _ refl
  round_of-Keeps answer execute_time check_time q (some (c, q')) h t = after-Keeps (c ∷ []) q q' _ t

  added-Keeps :
      (q : Carrier) (h : EventHandler) (o : Option Command)
      → IfSome (Keeps [] (contents q)) (o >>= λ c. some (after queue q (h, add_command c ∷ [])))
  added-Keeps q h none = tt
  added-Keeps q h (some c) = after-Keeps [] q q (some (h, add_command c ∷ [])) refl

  step-Keeps :
      (c : Call) (s : System queue)
      → IfSome (Keeps (executed queue c s) (contents s.commands)) (step queue c s)
  unfolding step
  step-Keeps (light_changed w) s = after-Keeps [] s.commands s.commands _ refl
  step-Keeps (button_pressed w) s = after-Keeps [] s.commands s.commands _ refl
  step-Keeps (sensor_triggered w) s = after-Keeps [] s.commands s.commands _ refl
  step-Keeps (double_clicked pin) s = after-Keeps [] s.commands s.commands (some _) refl
  step-Keeps (modes_updated bitset) s = after-Keeps [] s.commands s.commands _ refl
  step-Keeps (command_added cmd timeout) s =
      added-Keeps s.commands s.handler (create_device_command cmd timeout s.handler)
  step-Keeps stop s = after-Keeps [] s.commands s.commands (some _) refl
  step-Keeps (round answer execute_time check_time) s =
      round_of-Keeps answer execute_time check_time s.commands (take s.commands) s.handler
        (contents_take s.commands)

  pub Keeps-step :
      (c : Call) (s : System queue) (r : System queue × List Output)
      → step queue c s ≡ some r
      → Keeps (executed queue c s) (contents s.commands) r
  Keeps-step c s r returns =
      subst (IfSome (Keeps (executed queue c s) (contents s.commands))) returns (step-Keeps c s)

  pub Keeps-append :
      (xs ys before : List Command) (s1 s2 : System queue) (out1 out2 : List Output)
      → Keeps xs before (s1, out1)
      → Keeps ys (contents s1.commands) (s2, out2)
      → Keeps (xs ++ ys) before (s2, out1 ++ out2)
  Keeps-append xs ys before s1 s2 out1 out2 now rest = rw (
    append_assoc xs ys (contents s2.commands),
    rest,
    ← append_assoc xs (contents s1.commands) (pushed out2),
    now,
    append_assoc before (pushed out1) (pushed out2),
    pushed-append out1 out2,
  )
