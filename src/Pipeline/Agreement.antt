-- ===== src/Pipeline/Agreement.antt =====
-- The three copies of the state of the hardware agree after each command, and the event handler
-- (src/server/event/event_handler.cpp) queues what is due.
use smarty.Base.{sym, ◌∙◌, ℕ, ◌≡◌, refl, true, List, [], ◌∷◌, ◌++◌, some, if◌then◌else◌, length}
use smarty.Common.{DeviceState}
use smarty.Command.{Command}
use smarty.Observer.{Notice}
use smarty.Observer.Laws.{Ascends, contains}
use smarty.Controller.{Controller, do_execute_command, max_light_count}
use smarty.Controller.Heard.{told, heard_from-do_execute_command}
use smarty.Controller.Kept.{do_execute_command-IsKept}
use smarty.Controller.Commands.{last_answer, device_state-do_execute_command}
use smarty.Device.{take_over, Device, pin_not_set, deliver_all, check_for_changes}
use smarty.Device.Changes.{ne_comm, IsSettled, deliver_all-state}
use smarty.Device.Observers.{heard_by, heard_by-check_for_changes}
use smarty.Handler.{pushes}
use smarty.Handler.Notify.{IsWired}
use smarty.Handler.Hearing.{pushes-append, heeds_all, due_in, heeds_all-IsWired, hear_all_lem}
use smarty.Pipeline.Told.{last_click, reported, last-told, last-reported, state-heeds_all}
use smarty.Pipeline.{Pipeline, Pass, pass, passes}

-- The three copies of the state are the same, nothing waits in the device, and the device and the
-- handler are among the observers.
pub record IsAgreed (p : Pipeline) : Type 0 where
  pub settled : IsSettled p.device
  pub device_knows : p.device.device_state ≡ p.controller.device_state
  pub handler_knows : p.handler.device_state ≡ p.controller.device_state
  pub wired : IsWired p.handler
  pub eight : length p.controller.light_times ≡ max_light_count
  pub controller_ascends : Ascends 0 p.controller.observers
  pub device_listens : contains p.controller.observers p.device_address ≡ true
  pub device_ascends : Ascends 0 p.device.observers
  pub handler_listens : contains p.device.observers p.handler_address ≡ true

-- What the controller knows after the command: the answer of the last call that succeeded
abbrev pub known : Pass → Controller → DeviceState
known q c =
    let answer = last_answer q.driver q.junk q.command in
    if answer.0 then answer.1 else c.device_state

abbrev pub heard : Pass → Pipeline → List Notice
heard q p = reported q.clock (known q p.controller) p.controller

abbrev pub result : Pass → Pipeline → Pipeline
result q p = record p {
  controller = (do_execute_command q.driver q.clock q.junk q.command p.controller).0;
  device = record p.device {
    device_state = known q p.controller;
    prev_device_state = known q p.controller;
    double_click_pin = pin_not_set;
  };
  handler = heeds_all (heard q p) p.handler;
}

woken :
    (clock : ℕ → ℕ) (new : DeviceState) (c : Controller) (d : Device)
    → IsSettled d
    → d.device_state ≡ c.device_state
    → (deliver_all (told clock new c) d).0
      ≡ record d { device_state = new; double_click_pin = last_click clock new c }
woken clock new c d (settled, unset) knows =
    let all = last-told clock new c in
    rw (deliver_all-state (told clock new c) d, knows, unset, all.0, all.1, all.2, all.3) refl

reported-check :
    (o : ℕ) (clock : ℕ → ℕ) (new : DeviceState) (c : Controller) (d : Device)
    → Ascends 0 d.observers
    → contains d.observers o ≡ true
    → d.prev_device_state ≡ c.device_state
    → heard_by o
        (check_for_changes
          (record d { device_state = new; double_click_pin = last_click clock new c })).1
      ≡ reported clock new c
reported-check o clock new c d s listens knows = rw (
  heard_by-check_for_changes o
      (record d { device_state = new; double_click_pin = last_click clock new c }) s listens,
  knows,
  ne_comm (last_click clock new c) pin_not_set,
)

module _ (q : Pass) (p : Pipeline) (agreed : IsAgreed p) where
  pass-result : pass q p ≡ some (result q p, pushes (due_in (heard q p) p.handler))
  unfolding pass check_for_changes take_over
  pass-result =
      let new = known q p.controller in
      let settled : p.device.prev_device_state ≡ p.device.device_state = agreed.settled.0 in
      rw (
        heard_from-do_execute_command p.device_address p.controller agreed.controller_ascends
            agreed.device_listens agreed.eight q.driver q.clock q.junk q.command,
        woken q.clock new p.controller p.device agreed.settled agreed.device_knows,
        reported-check p.handler_address q.clock new p.controller p.device agreed.device_ascends
            agreed.handler_listens (settled ∙ agreed.device_knows),
        hear_all_lem (heard q p) p.handler agreed.wired,
      )

  controller_knows : (result q p).controller.device_state ≡ known q p.controller
  controller_knows = device_state-do_execute_command q.driver q.clock q.junk q.command p.controller

  handler_hears : (heeds_all (heard q p) p.handler).device_state ≡ known q p.controller
  handler_hears =
      let all = last-reported q.clock (known q p.controller) p.controller in
      rw (state-heeds_all (heard q p) p.handler, agreed.handler_knows, all.0, all.1, all.2) refl

  result-IsAgreed : IsAgreed (result q p)
  result-IsAgreed =
      let kept =
        do_execute_command-IsKept p.controller agreed.eight q.driver q.clock q.junk q.command in
      record {
        settled = (refl, refl);
        device_knows = sym controller_knows;
        handler_knows = handler_hears ∙ sym controller_knows;
        wired = heeds_all-IsWired (heard q p) p.handler agreed.wired;
        eight = kept.1;
        controller_ascends = rw kept.0 agreed.controller_ascends;
        device_listens = rw kept.0 agreed.device_listens;
        device_ascends = agreed.device_ascends;
        handler_listens = agreed.handler_listens;
      }

abbrev pub results : List Pass → Pipeline → Pipeline
results [] p = p
results (q ∷ qs) p = results qs (result q p)

-- What is due in each pass, by what the driver's answer has new
abbrev pub due_over : List Pass → Pipeline → List Command
due_over [] p = []
due_over (q ∷ qs) p = due_in (heard q p) p.handler ++ due_over qs (result q p)

-- The last answer of a call that succeeded, `s` if there is none
abbrev pub last_known : List Pass → DeviceState → DeviceState
last_known [] s = s
last_known (q ∷ qs) s =
    let answer = last_answer q.driver q.junk q.command in
    last_known qs (if answer.0 then answer.1 else s)

-- Once the controller, the device and a wired handler agree on the state, any series of commands, each
-- seen by all three before the next, whatever the driver answers, comes to its end without a failed
-- ASSERT: the handler has queued what was due in each pass by the words and the double click that
-- were new then, and all three agree again, on the last answer of the driver that was a success.
pub passes_lem :
    (qs : List Pass) (p : Pipeline)
    → IsAgreed p
    → (passes qs p ≡ some (results qs p, pushes (due_over qs p)))
      × IsAgreed (results qs p)
      × ((results qs p).controller.device_state ≡ last_known qs p.controller.device_state)
unfolding passes
passes_lem [] p agreed = (refl, agreed, refl)
passes_lem (q ∷ qs) p agreed =
    let rest = passes_lem qs (result q p) (result-IsAgreed q p agreed) in
    (
      rw (pass-result q p agreed, rest.0, pushes-append),
      rest.1,
      rw (← controller_knows q p agreed) rest.2,
    )
