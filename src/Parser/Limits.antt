-- ===== src/Parser/Limits.antt =====
-- What event_parser_t (src/server/event/event_parser.cpp) never does.
use smarty.Base.{
  ℕ, is_empty, ◌&&◌, Bool-cases, inl, inr, ◌≡◌, refl, Bool, true, false, List, [], ◌∷◌, Text,
}
use smarty.Common.{DeviceEventType, TriggerState}
use smarty.Command.{Command}
use smarty.Event.{DeviceEvent}
use smarty.Creation.{create_device_event, create_mode_event}
use smarty.Creation.Built.{IfSome}
use smarty.Parser.Words.{
  ThenActionType, enable_button, turn_light, change_mode, unknown_action, WhenEventType,
  mode_changed, sensor_triggered, button_pressed, light_turned, double_clicked, unknown_event,
}
use smarty.Parser.Json.{Json}
use smarty.Parser.State.{
  Parser, Outcome, crashed, out_of_fuel, rejected, parsed, M, ◌>>=◌, reject, crash,
}
use smarty.Parser.Ends.{
  Ends, Keeps, Any, bind-Keeps, get-Keeps, put-Keeps, return-Keeps, check-Keeps, lift-Keeps,
  reject-Keeps,
}
use smarty.Parser.Actions.{json_action, parse_action_json, each_action_json, parse_actions_json}
use smarty.Parser.Conditions.{
  trigger_of, add_device_event, add_mode_event, text_condition, parse_condition_words,
}

-- The method returned true.
abbrev pub is_parsed {ℓ} : {A : Type ℓ} → Outcome A → Bool
is_parsed (parsed a p) = true
is_parsed _ = false

record Never {ℓ} {A : Type ℓ} (m : M A) : Type 0 where
  run : (p : Parser) → is_parsed (m p) ≡ false

Never-parsed {ℓ κ} :
    {A : Type ℓ} {B : Type κ} (o : Outcome A) (f : A → M B)
    → ((a : A) → Never (f a))
    → is_parsed (elim o [
      | crashed ↦ crashed
      | out_of_fuel ↦ out_of_fuel
      | rejected p ↦ rejected p
      | parsed a p ↦ f a p
    ])
      ≡ false
Never-parsed crashed f h = refl
Never-parsed out_of_fuel f h = refl
Never-parsed (rejected p) f h = refl
Never-parsed (parsed a p) f h = (h a).run p

bind-Never {ℓ κ} :
    {A : Type ℓ} {B : Type κ} (m : M A) (f : A → M B) (p : Parser)
    → ((a : A) → Never (f a))
    → is_parsed ((m >>= f) p) ≡ false
unfolding ◌>>=◌
bind-Never m f p h = Never-parsed (m p) f h

-- What comes after decides.
then-Never {ℓ κ} :
    {A : Type ℓ} {B : Type κ} (m : M A) {f : A → M B} → ((a : A) → Never (f a)) → Never (m >>= f)
then-Never m {f} h = record { run = λ p. bind-Never m f p h }

reject-Never {ℓ} : {A : Type ℓ} → Never (reject {A = A})
reject-Never = record { run = λ p. refl }

crash-Never {ℓ} : {A : Type ℓ} → Never (crash {A = A})
crash-Never = record { run = λ p. refl }

-- What does not return true is the end.
first-Never {ℓ κ} :
    {A : Type ℓ} {B : Type κ} (o : Outcome A) (f : A → M B)
    → is_parsed o ≡ false
    → is_parsed (elim o [
      | crashed ↦ crashed
      | out_of_fuel ↦ out_of_fuel
      | rejected p ↦ rejected p
      | parsed a p ↦ f a p
    ])
      ≡ false
first-Never crashed f e = refl
first-Never out_of_fuel f e = refl
first-Never (rejected p) f e = refl
first-Never (parsed a p) f e = absurd cc

module _ (json : Json) where
  open json use {Value, elements, is_array}

  json_action-Never :
      (action : ThenActionType) (v on : Value) (delay : ℕ) (acts : List Command)
      → Never (json_action json action v on delay acts)
  unfolding json_action
  json_action-Never turn_light v on delay acts = then-Never _ λ p.
      then-Never _ λ pin. then-Never _ λ _. then-Never _ λ cmd. then-Never _ λ more. reject-Never
  json_action-Never enable_button v on delay acts =
      then-Never _ λ p.
        then-Never _ λ pin. then-Never _ λ _. then-Never _ λ b. then-Never _ λ more. reject-Never
  json_action-Never change_mode v on delay acts = crash-Never
  json_action-Never unknown_action v on delay acts = crash-Never

  parse_action_json-Never :
      (v : Value) (acts : List Command) → Never (parse_action_json json v acts)
  unfolding parse_action_json
  parse_action_json-Never v acts = then-Never _ λ target. then-Never _ λ _. then-Never _ λ on.
      then-Never _ λ _.
        then-Never _ λ delay. then-Never _ λ d. then-Never _ λ t. json_action-Never _ v on d acts

  each_action_json-parsed :
      (vs : List Value) (acts : List Command) (p : Parser)
      → is_parsed (each_action_json json vs acts p) ≡ is_empty vs
  unfolding each_action_json ◌>>=◌
  each_action_json-parsed [] acts p = refl
  each_action_json-parsed (v ∷ vs) acts p =
      first-Never _ (each_action_json json vs) ((parse_action_json-Never v acts).run p)

  -- Actions in JSON form are only accepted if there is none: `parse_actions_json` returns true exactly
  -- for an array without elements, since `parse_action_json` never does.
  pub parse_actions_json-empty :
      (node : Value) (acts : List Command) (p : Parser)
      → is_parsed (parse_actions_json json node acts p)
        ≡ (is_array node && is_empty (elements node))
  unfolding parse_actions_json ◌>>=◌
  parse_actions_json-empty node acts p = elim (Bool-cases (is_array node)) [
    | inl array ↦ rw array (each_action_json-parsed (elements node) acts p)
    | inr other ↦ rw other refl
  ]

-- The events of lights are these.
abbrev LightEvents : List DeviceEvent → Parser → Type 0
LightEvents es p = p.event_handler.light_events ≡ es

module _ (es : List DeviceEvent) where
  add_device_event-Keeps :
      (type : DeviceEventType) (pin : ℕ) (state : TriggerState) (mode : ℕ)
      → ((p : Parser)
          → LightEvents es p
          → IfSome
              (λ r. r.0.light_events ≡ es)
              (create_device_event type pin state mode p.event_handler))
      → Keeps (LightEvents es) Any (add_device_event type pin state mode)
  unfolding add_device_event
  add_device_event-Keeps type pin state mode h = bind-Keeps get-Keeps λ p q.
      bind-Keeps (lift-Keeps {R = λ r. r.0.light_events ≡ es} _ (h p q))
        λ r kept. bind-Keeps (put-Keeps _ kept) λ _ _. return-Keeps _ tt

  add_mode_event-Keeps :
      (mode : ℕ) (enabled : Bool) → Keeps (LightEvents es) Any (add_mode_event mode enabled)
  unfolding add_mode_event create_mode_event
  add_mode_event-Keeps mode enabled =
      bind-Keeps get-Keeps λ p q. bind-Keeps (put-Keeps _ q) λ _ _. return-Keeps _ tt

  text_condition-Keeps :
      (event : WhenEventType) (name : Text) (on : Bool) (mode : ℕ)
      → Keeps (LightEvents es) Any (text_condition event name on mode)
  unfolding text_condition create_device_event
  text_condition-Keeps mode_changed name on mode =
      bind-Keeps get-Keeps λ p q. bind-Keeps (check-Keeps _) λ _ _. add_mode_event-Keeps _ on
  text_condition-Keeps sensor_triggered name on mode = bind-Keeps get-Keeps λ p q.
      bind-Keeps (check-Keeps _)
        λ _ _. add_device_event-Keeps DeviceEventType.sensor _ _ mode (λ p' q'. q')
  text_condition-Keeps button_pressed name on mode = bind-Keeps get-Keeps λ p q.
      bind-Keeps (check-Keeps _)
        λ _ _. add_device_event-Keeps DeviceEventType.button _ _ mode (λ p' q'. q')
  text_condition-Keeps light_turned name on mode = bind-Keeps get-Keeps λ p q.
      bind-Keeps (check-Keeps _)
        λ _ _. add_device_event-Keeps DeviceEventType.button _ _ mode (λ p' q'. q')
  text_condition-Keeps double_clicked name on mode = bind-Keeps get-Keeps λ p q.
      bind-Keeps (check-Keeps _) λ _ _.
        add_device_event-Keeps DeviceEventType.double_click _ (trigger_of on) mode (λ p' q'. q')
  text_condition-Keeps unknown_event name on mode = reject-Keeps

-- However the reading of a condition in text form ends, also of one about a light, the events of
-- lights are as they were.
pub parse_condition_words-light_events :
    (text : Text) (p : Parser)
    → Ends
        (λ p'. p'.event_handler.light_events ≡ p.event_handler.light_events)
        Any
        (parse_condition_words text p)
unfolding parse_condition_words
parse_condition_words-light_events text p = (kept text).run p refl
  where
    kept :
        (t : Text) → Keeps (LightEvents p.event_handler.light_events) Any (parse_condition_words t)
    kept t = bind-Keeps get-Keeps λ p' q. bind-Keeps (check-Keeps _) λ _ _.
        bind-Keeps (check-Keeps _) λ _ _. text_condition-Keeps p.event_handler.light_events _ _ _ _
