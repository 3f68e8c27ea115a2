-- ===== src/Parser/Upkeep/Actions.antt =====
-- Reading actions from the configuration (src/server/event/event_parser.cpp) keeps the event handler
-- built; the actions that it finds fit, and fuel above the depth of the value is enough.
use smarty.Base.{ℕ, zero, suc, ◌<◌, arith, not, List, [], ◌∷◌, All}
use smarty.Command.{Command}
use smarty.Parser.Words.{ThenActionType, enable_button, turn_light, change_mode, unknown_action}
use smarty.Parser.Json.{Json}
use smarty.Parser.State.{M}
use smarty.Parser.Ends.{
  Keeps, Any, bind-Keeps, get-Keeps, return-Keeps, check-Keeps, take-Keeps, reject-Keeps,
  crash-Keeps, if_Keeps,
}
use smarty.Parser.Upkeep.{Built, Fit, add_device_command-Keeps, parse_action_words-Keeps}
use smarty.Parser.Actions.{
  get_device_cmd, json_action, delay_value, parse_action_json, each_action_json, parse_actions_json,
  parse_action_text, each_action_text, parse_actions_text, parse_actions,
}
use smarty.Parser.Upkeep.Lookup.{parse_pin-Keeps}

module _ (json : Json) (n : ℕ) where
  open json use {Value, is_null, is_string, is_array, member, elements, at, size}

  get_device_cmd-Keeps : (v : Value) → Keeps (Built n) Any (get_device_cmd json v)
  unfolding get_device_cmd
  get_device_cmd-Keeps v =
      if_Keeps (is_string v) (bind-Keeps (take-Keeps _) λ s _. return-Keeps _ tt)
        (bind-Keeps (take-Keeps _) λ k _. return-Keeps _ tt)

  json_action-Keeps :
      (action : ThenActionType) (v on : Value) (delay : ℕ) (acts : List Command)
      → Fit n acts
      → Keeps (Built n) (Fit n) (json_action json action v on delay acts)
  unfolding json_action
  json_action-Keeps turn_light v on delay acts fit = bind-Keeps get-Keeps λ p b.
      bind-Keeps (parse_pin-Keeps json n _ _) λ pin _. bind-Keeps (check-Keeps _) λ _ _.
        bind-Keeps (get_device_cmd-Keeps _)
          λ cmd _. bind-Keeps (add_device_command-Keeps n acts _ _ delay fit) λ more _. reject-Keeps
  json_action-Keeps enable_button v on delay acts fit = bind-Keeps get-Keeps λ p b.
      bind-Keeps (parse_pin-Keeps json n _ _) λ pin _. bind-Keeps (check-Keeps _) λ _ _.
        bind-Keeps (take-Keeps _)
          λ cmd _. bind-Keeps (add_device_command-Keeps n acts _ _ delay fit) λ more _. reject-Keeps
  json_action-Keeps change_mode v on delay acts fit = crash-Keeps
  json_action-Keeps unknown_action v on delay acts fit = crash-Keeps

  delay_value-Keeps : (v : Value) → Keeps (Built n) Any (delay_value json v)
  unfolding delay_value
  delay_value-Keeps v = if_Keeps (is_null v) (return-Keeps _ tt) (take-Keeps _)

  pub parse_action_json-Keeps :
      (v : Value) (acts : List Command)
      → Fit n acts
      → Keeps (Built n) (Fit n) (parse_action_json json v acts)
  unfolding parse_action_json
  parse_action_json-Keeps v acts fit = bind-Keeps (take-Keeps _) λ target _.
      bind-Keeps (check-Keeps _) λ _ _. bind-Keeps (take-Keeps _) λ on _.
        bind-Keeps (check-Keeps _) λ _ _. bind-Keeps (take-Keeps _) λ delay _.
          bind-Keeps (delay_value-Keeps _)
            λ d _. bind-Keeps (take-Keeps _) λ t _. json_action-Keeps _ v on d acts fit

  each_action_json-Keeps :
      (vs : List Value) (acts : List Command)
      → Fit n acts
      → Keeps (Built n) (Fit n) (each_action_json json vs acts)
  unfolding each_action_json
  each_action_json-Keeps [] acts fit = return-Keeps acts fit
  each_action_json-Keeps (v ∷ vs) acts fit =
      bind-Keeps (parse_action_json-Keeps v acts fit) (each_action_json-Keeps vs)

  pub parse_action_text-Keeps :
      (v : Value) (acts : List Command)
      → Fit n acts
      → Keeps (Built n) (Fit n) (parse_action_text json v acts)
  unfolding parse_action_text
  parse_action_text-Keeps v acts fit =
      bind-Keeps (check-Keeps _)
        λ _ _. bind-Keeps (take-Keeps _) λ text _. parse_action_words-Keeps n text acts fit

  each_action_text-Keeps :
      (each : Value → List Command → M (List Command)) (vs : List Value) (acts : List Command)
      → All (λ v. (more : List Command) → Fit n more → Keeps (Built n) (Fit n) (each v more)) vs
      → Fit n acts
      → Keeps (Built n) (Fit n) (each_action_text json each vs acts)
  unfolding each_action_text
  each_action_text-Keeps each [] acts h fit = return-Keeps acts fit
  each_action_text-Keeps each (v ∷ vs) acts h fit =
      bind-Keeps (h.0 acts fit) λ more fits. each_action_text-Keeps each vs more h.1 fits

  All-weaken {ℓ} :
      {A : Type ℓ} (P R : A → Type 0) (xs : List A) → ((a : A) → P a → R a) → All P xs → All R xs
  All-weaken P R [] f all = tt
  All-weaken P R (x ∷ xs) f (this, these) = (f x this, All-weaken P R xs f these)

  -- Fuel above the depth of the value is enough.
  pub parse_actions_text-Keeps :
      (fuel : ℕ) (v : Value) (acts : List Command)
      → json.depth v < fuel
      → Fit n acts
      → Keeps (Built n) (Fit n) (parse_actions_text json fuel v acts)
  unfolding parse_actions_text
  parse_actions_text-Keeps zero v acts h fit = absurd (omega arith)
  parse_actions_text-Keeps (suc fuel) v acts h fit =
      if_Keeps (is_string v) (parse_action_text-Keeps v acts fit) (
        if_Keeps (is_array v)
          (each_action_text-Keeps (parse_actions_text json fuel) (elements v) acts
            (All-weaken _ _ (elements v)
              (λ e below more fits. parse_actions_text-Keeps fuel e more (omega arith) fits)
              (json.elements_below v))
            fit)
          reject-Keeps)

  pub parse_actions-Keeps : (v : Value) → Keeps (Built n) (Fit n) (parse_actions json v)
  unfolding parse_actions parse_actions_json
  parse_actions-Keeps v = bind-Keeps (take-Keeps _) λ actions _.
      if_Keeps (not (is_null actions))
        (bind-Keeps (check-Keeps _) λ _ _. each_action_json-Keeps _ [] tt)
        (bind-Keeps (take-Keeps _) λ then_node _.
          if_Keeps (not (is_null then_node))
            (parse_actions_text-Keeps (suc (json.depth then_node)) then_node [] (omega arith) tt)
            reject-Keeps)
