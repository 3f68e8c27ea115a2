-- ===== src/Parser/Upkeep/Conditions.antt =====
-- Reading conditions from the configuration (src/server/event/event_parser.cpp) keeps the event
-- handler built.
use smarty.Base.{ℕ, not}
use smarty.Common.{DeviceEventType}
use smarty.Parser.Json.{Json}
use smarty.Parser.Ends.{
  Keeps, Any, bind-Keeps, get-Keeps, return-Keeps, check-Keeps, take-Keeps, reject-Keeps,
  crash-Keeps, if_Keeps,
}
use smarty.Parser.Upkeep.{
  Built, add_device_event-Keeps, add_mode_event-Keeps, parse_condition_words-Keeps,
}
use smarty.Parser.Conditions.{
  parse_condition_text, get_sensor_state, condition_pin, parse_device_condition,
  parse_mode_condition, parse_condition_json, parse_condition,
}
use smarty.Parser.Upkeep.Lookup.{parse_pin-Keeps, parse_mode-Keeps}

module _ (json : Json) (n : ℕ) where
  open json use {Value, is_null, is_string, is_array, member, elements, at, size}

  condition_pin-Keeps :
      (type : DeviceEventType) (v : Value) → Keeps (Built n) Any (condition_pin json type v)
  unfolding condition_pin
  condition_pin-Keeps DeviceEventType.sensor v =
      bind-Keeps get-Keeps λ p b. parse_pin-Keeps json n _ _
  condition_pin-Keeps DeviceEventType.button v =
      bind-Keeps get-Keeps λ p b. parse_pin-Keeps json n _ _
  condition_pin-Keeps DeviceEventType.light v =
      bind-Keeps get-Keeps λ p b. parse_pin-Keeps json n _ _
  condition_pin-Keeps DeviceEventType.double_click v =
      bind-Keeps get-Keeps λ p b. parse_pin-Keeps json n _ _
  condition_pin-Keeps DeviceEventType.unknown v = crash-Keeps

  get_sensor_state-Keeps : (v : Value) → Keeps (Built n) Any (get_sensor_state json v)
  unfolding get_sensor_state
  get_sensor_state-Keeps v =
      if_Keeps (is_string v) (bind-Keeps (take-Keeps _) λ s _. return-Keeps _ tt)
        (bind-Keeps (take-Keeps _) λ k _. return-Keeps _ tt)

  pub parse_device_condition-Keeps :
      (v : Value) (mode : ℕ) → Keeps (Built n) Any (parse_device_condition json v mode)
  unfolding parse_device_condition
  parse_device_condition-Keeps v mode = bind-Keeps (take-Keeps _) λ type _.
      bind-Keeps (check-Keeps _) λ _ _. bind-Keeps (take-Keeps _) λ name _.
        bind-Keeps (check-Keeps _) λ _ _. bind-Keeps (condition_pin-Keeps _ _) λ pin _.
          bind-Keeps (check-Keeps _) λ _ _. bind-Keeps (take-Keeps _) λ s _.
            bind-Keeps (check-Keeps _) λ _ _.
              bind-Keeps (get_sensor_state-Keeps _) λ state _. add_device_event-Keeps n _ _ _ _

  pub parse_mode_condition-Keeps : (v : Value) → Keeps (Built n) Any (parse_mode_condition json v)
  unfolding parse_mode_condition
  parse_mode_condition-Keeps v = bind-Keeps (take-Keeps _) λ name _.
      bind-Keeps (check-Keeps _) λ _ _. bind-Keeps (take-Keeps _) λ s _. bind-Keeps get-Keeps λ p b.
        bind-Keeps (check-Keeps _) λ _ _. bind-Keeps (take-Keeps _) λ to _.
          bind-Keeps (check-Keeps _)
            λ _ _. bind-Keeps (take-Keeps _) λ t _. add_mode_event-Keeps n _ _

  pub parse_condition-Keeps : (v : Value) → Keeps (Built n) Any (parse_condition json v)
  unfolding parse_condition parse_condition_json parse_condition_text
  parse_condition-Keeps v = bind-Keeps (take-Keeps _) λ condition _.
      if_Keeps (not (is_null condition))
        (bind-Keeps (parse_mode-Keeps json n _) λ mode _. bind-Keeps (take-Keeps _) λ device _.
          if_Keeps (not (is_null device)) (parse_device_condition-Keeps _ _) (
            bind-Keeps (take-Keeps _) λ mode_node _.
              if_Keeps (not (is_null mode_node)) (parse_mode_condition-Keeps _) reject-Keeps))
        (bind-Keeps (take-Keeps _) λ when_node _.
          if_Keeps (not (is_null when_node))
            (bind-Keeps (check-Keeps _)
              λ _ _. bind-Keeps (take-Keeps _) λ text _. parse_condition_words-Keeps n text)
            reject-Keeps)
