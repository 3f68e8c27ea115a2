-- ===== src/Parser/Upkeep.antt =====
-- The parts of event_parser_t (src/server/event/event_parser.cpp) that need no configuration keep the
-- event handler built, and every action that they add is for a light that exists.
pub mod Lookup
pub mod Actions
pub mod Conditions
use smarty.Base.{ℕ, Bool, List, [], ◌∷◌, ◌++◌, Text, All, All-append}
use smarty.Common.{DeviceEventType, TriggerState}
use smarty.Command.{Command}
use smarty.Creation.{create_mode_command}
use smarty.Creation.Built.{
  CommandFits, IsBuilt, create_device_command-CommandFits, create_device_event-IsBuilt,
  create_mode_event-IsBuilt,
}
use smarty.Parser.Words.{
  ThenActionType, enable_button, turn_light, change_mode, unknown_action, WhenEventType,
  mode_changed, sensor_triggered, button_pressed, light_turned, double_clicked, unknown_event,
}
use smarty.Parser.State.{Parser}
use smarty.Parser.Ends.{
  Keeps, Any, bind-Keeps, get-Keeps, put-Keeps, return-Keeps, check-Keeps, lift-Keeps, reject-Keeps,
}
use smarty.Parser.Actions.{add_device_command, add_mode_command, text_action, parse_action_words}
use smarty.Parser.Conditions.{
  add_device_event, add_mode_event, text_condition, parse_condition_words,
}

module _ (n : ℕ) where
  -- The parser's event handler is built, with n lights.
  abbrev pub Built : Parser → Type 0
  Built p = IsBuilt n p.event_handler

  abbrev pub Fit : List Command → Type 0
  Fit acts = All (CommandFits n) acts

  pub add_device_command-Keeps :
      (acts : List Command) (cmd param timeout : ℕ)
      → Fit acts
      → Keeps Built Fit (add_device_command acts cmd param timeout)
  unfolding add_device_command
  add_device_command-Keeps acts cmd param timeout fit = bind-Keeps get-Keeps λ p b.
      bind-Keeps
        (lift-Keeps {R = CommandFits n} _ (
          create_device_command-CommandFits n (record { cmd = cmd; param = param }) timeout
            p.event_handler b))
        λ c fits. return-Keeps (acts ++ c ∷ []) (All-append _ acts _ fit (fits, tt))

  pub add_mode_command-Keeps :
      (acts : List Command) (turn_on : Bool) (pin timeout : ℕ)
      → Fit acts
      → Keeps Built Fit (add_mode_command acts turn_on pin timeout)
  unfolding add_mode_command create_mode_command
  add_mode_command-Keeps acts turn_on pin timeout fit =
      return-Keeps _ (All-append _ acts _ fit (tt, tt))

  text_action-Keeps :
      (action : ThenActionType) (name : Text) (on : Bool) (timeout : ℕ) (acts : List Command)
      → Fit acts
      → Keeps Built Fit (text_action action name on timeout acts)
  unfolding text_action
  text_action-Keeps enable_button name on timeout acts fit =
      bind-Keeps get-Keeps
        λ p b. bind-Keeps (check-Keeps _) λ _ _. add_device_command-Keeps acts _ _ timeout fit
  text_action-Keeps turn_light name on timeout acts fit =
      bind-Keeps get-Keeps
        λ p b. bind-Keeps (check-Keeps _) λ _ _. add_device_command-Keeps acts _ _ timeout fit
  text_action-Keeps change_mode name on timeout acts fit =
      bind-Keeps get-Keeps
        λ p b. bind-Keeps (check-Keeps _) λ _ _. add_mode_command-Keeps acts on _ timeout fit
  text_action-Keeps unknown_action name on timeout acts fit = reject-Keeps

  pub parse_action_words-Keeps :
      (text : Text) (acts : List Command)
      → Fit acts
      → Keeps Built Fit (parse_action_words text acts)
  unfolding parse_action_words
  parse_action_words-Keeps text acts fit =
      bind-Keeps (check-Keeps _)
        λ _ _. bind-Keeps (check-Keeps _) λ _ _. text_action-Keeps _ _ _ _ acts fit

  pub add_device_event-Keeps :
      (type : DeviceEventType) (pin : ℕ) (state : TriggerState) (mode : ℕ)
      → Keeps Built Any (add_device_event type pin state mode)
  unfolding add_device_event
  add_device_event-Keeps type pin state mode = bind-Keeps get-Keeps λ p b.
      bind-Keeps
        (lift-Keeps {R = λ r. IsBuilt n r.0} _
          (create_device_event-IsBuilt n type pin state mode p.event_handler b))
        λ r built. bind-Keeps (put-Keeps _ built) λ _ _. return-Keeps _ tt

  pub add_mode_event-Keeps :
      (mode : ℕ) (enabled : Bool) → Keeps Built Any (add_mode_event mode enabled)
  unfolding add_mode_event
  add_mode_event-Keeps mode enabled = bind-Keeps get-Keeps λ p b.
      bind-Keeps (put-Keeps _ (create_mode_event-IsBuilt n mode enabled p.event_handler b))
        λ _ _. return-Keeps _ tt

  text_condition-Keeps :
      (event : WhenEventType) (name : Text) (on : Bool) (mode : ℕ)
      → Keeps Built Any (text_condition event name on mode)
  unfolding text_condition
  text_condition-Keeps mode_changed name on mode =
      bind-Keeps get-Keeps λ p b. bind-Keeps (check-Keeps _) λ _ _. add_mode_event-Keeps _ on
  text_condition-Keeps sensor_triggered name on mode =
      bind-Keeps get-Keeps
        λ p b. bind-Keeps (check-Keeps _) λ _ _. add_device_event-Keeps _ _ _ mode
  text_condition-Keeps button_pressed name on mode =
      bind-Keeps get-Keeps
        λ p b. bind-Keeps (check-Keeps _) λ _ _. add_device_event-Keeps _ _ _ mode
  text_condition-Keeps light_turned name on mode =
      bind-Keeps get-Keeps
        λ p b. bind-Keeps (check-Keeps _) λ _ _. add_device_event-Keeps _ _ _ mode
  text_condition-Keeps double_clicked name on mode =
      bind-Keeps get-Keeps
        λ p b. bind-Keeps (check-Keeps _) λ _ _. add_device_event-Keeps _ _ _ mode
  text_condition-Keeps unknown_event name on mode = reject-Keeps

  pub parse_condition_words-Keeps : (text : Text) → Keeps Built Any (parse_condition_words text)
  unfolding parse_condition_words
  parse_condition_words-Keeps text = bind-Keeps get-Keeps λ p b.
      bind-Keeps (check-Keeps _)
        λ _ _. bind-Keeps (check-Keeps _) λ _ _. text_condition-Keeps _ _ _ _
