-- ===== src/Parser/Conditions.antt =====
-- The conditions of an event in src/server/event/event_parser.cpp, in JSON form and as text. The
-- event that a condition creates is named by its reference.
use smarty.Base.{
  ℕ, ◌-◌, Bool, true, false, not, ◌==◌, ltb, List, [], ◌∷◌, Option, none, some, if◌then◌else◌, Text,
  codes, length, get_or, text_eq,
}
use smarty.Common.{DeviceEventType, TriggerState, low, high}
use smarty.Common.Names.{device_event_type_by_name}
use smarty.Creation.{EventRef, create_device_event, create_mode_event}
use smarty.Parser.Words.{
  is_turned_on, space, split, find, drop, WhenEventType, mode_changed, sensor_triggered,
  button_pressed, light_turned, double_clicked, unknown_event, get_event_type,
}
use smarty.Parser.Json.{Json}
use smarty.Parser.State.{M, ◌>>=◌, ◌>>◌, return, reject, crash, check_return, lift, get, put}
use smarty.Parser.Lookup.{invalid, get_mode_id, pin_by_name, parse_pin, parse_mode}

-- What `condition.find( " in " )` leads to: the condition without the mode, and the number of the
-- mode, invalid if it has fewer than two words or no such mode
unfoldable pub mode_of : List Text → Option (Text × Text) → Text → Text × ℕ
mode_of modes none condition = (condition, 0)
mode_of modes (some (before, from)) condition =
    let words = split space (drop 4 from) in
    (before, if ltb (length words) 2 then invalid else get_mode_id (get_or words 0 []) modes)

unfoldable pub parse_mode_text : List Text → Text → Text × ℕ
unfolding mode_of
parse_mode_text modes [] = ([], invalid)
parse_mode_text modes (c ∷ cs) = mode_of modes (find (codes " in ") (c ∷ cs)) (c ∷ cs)

abbrev pub trigger_of : Bool → TriggerState
trigger_of true = high
trigger_of false = low

-- m_event_handler.create_device_event
unfoldable pub add_device_event : DeviceEventType → ℕ → TriggerState → ℕ → M EventRef
add_device_event type pin state mode = do
  p ← get
  r ← lift (create_device_event type pin state mode p.event_handler)
  put (record p { event_handler = r.0 })
  return r.1

-- m_event_handler.create_mode_event
unfoldable pub add_mode_event : ℕ → Bool → M EventRef
add_mode_event mode enabled = do
  p ← get
  let r = create_mode_event mode enabled p.event_handler
  put (record p { event_handler = r.0 })
  return r.1

-- The switch of `parse_condition_text`
unfoldable pub text_condition : WhenEventType → Text → Bool → ℕ → M EventRef
unfolding add_device_event add_mode_event
text_condition mode_changed name turned_on mode = do
  p ← get
  let id = get_mode_id name p.modes
  check_return (id == invalid)
  add_mode_event id turned_on
text_condition sensor_triggered name turned_on mode = do
  p ← get
  let pin = pin_by_name name p.sensors
  check_return (pin == invalid)
  add_device_event DeviceEventType.sensor pin (trigger_of turned_on) mode
text_condition button_pressed name turned_on mode = do
  p ← get
  let pin = pin_by_name name p.lights
  check_return (pin == invalid)
  add_device_event DeviceEventType.button pin (trigger_of turned_on) mode
text_condition light_turned name turned_on mode = do
  p ← get
  let pin = pin_by_name name p.lights
  check_return (pin == invalid)
  add_device_event DeviceEventType.button pin (trigger_of turned_on) mode
text_condition double_clicked name turned_on mode = do
  p ← get
  let pin = pin_by_name name p.lights
  check_return (pin == invalid)
  add_device_event DeviceEventType.double_click pin (trigger_of turned_on) mode
text_condition unknown_event name turned_on mode = reject

-- parse_condition_text, from the text on
unfoldable pub parse_condition_words : Text → M EventRef
unfolding parse_mode_text text_condition
parse_condition_words text = do
  p ← get
  let (condition, mode) = parse_mode_text p.modes text
  check_return (mode == invalid)
  let words = split space condition
  check_return (ltb (length words) 3)
  text_condition (get_event_type (get_or words 1 [])) (get_or words 0 [])
      (is_turned_on (get_or words (length words - 1) [])) mode

module _ (json : Json) where
  open json use {Value, is_null, is_string, member, as_string, as_uint}

  unfoldable pub parse_condition_text : Value → M EventRef
  unfolding parse_condition_words
  parse_condition_text node = do
    check_return (not (is_string node))
    text ← lift (as_string node)
    parse_condition_words text

  -- get_sensor_state
  unfoldable pub get_sensor_state : Value → M TriggerState
  get_sensor_state node =
      if is_string node
      then (do s ← lift (as_string node); return (trigger_of (is_turned_on s)))
      else (do n ← lift (as_uint node); return (trigger_of (n == 1)))

  -- The switch of `parse_device_condition`; it is not reached with an unknown type.
  unfoldable pub condition_pin : DeviceEventType → Value → M ℕ
  condition_pin DeviceEventType.sensor node = do p ← get; parse_pin json p.sensors node
  condition_pin DeviceEventType.button node = do p ← get; parse_pin json p.lights node
  condition_pin DeviceEventType.light node = do p ← get; parse_pin json p.lights node
  condition_pin DeviceEventType.double_click node = do p ← get; parse_pin json p.lights node
  condition_pin DeviceEventType.unknown node = crash

  abbrev pub is_unknown : DeviceEventType → Bool
  is_unknown DeviceEventType.unknown = true
  is_unknown _ = false

  unfoldable pub parse_device_condition : Value → ℕ → M EventRef
  unfolding condition_pin get_sensor_state add_device_event
  parse_device_condition node mode = do
    type_node ← lift (member (codes "type") node)
    check_return (is_null type_node)
    name ← lift (as_string type_node)
    let type = device_event_type_by_name name
    check_return (is_unknown type)
    pin ← condition_pin type node
    check_return (pin == invalid)
    state_node ← lift (member (codes "state") node)
    check_return (is_null state_node)
    state ← get_sensor_state state_node
    add_device_event type pin state mode

  unfoldable pub parse_mode_condition : Value → M EventRef
  unfolding add_mode_event
  parse_mode_condition node = do
    name_node ← lift (member (codes "name") node)
    check_return (is_null name_node)
    name ← lift (as_string name_node)
    p ← get
    let id = get_mode_id name p.modes
    check_return (id == invalid)
    changed_to ← lift (member (codes "to") node)
    check_return (is_null changed_to)
    to ← lift (as_string changed_to)
    add_mode_event id (text_eq to (codes "on"))

  unfoldable pub parse_condition_json : Value → M EventRef
  unfolding parse_device_condition parse_mode_condition
  parse_condition_json node = do
    mode ← parse_mode json node
    device ← lift (member (codes "device") node)
    if not (is_null device) then parse_device_condition device mode else (do
      mode_node ← lift (member (codes "mode_change") node)
      if not (is_null mode_node) then parse_mode_condition mode_node else reject)

  unfoldable pub parse_condition : Value → M EventRef
  unfolding parse_condition_json parse_condition_text
  parse_condition node = do
    condition ← lift (member (codes "condition") node)
    if not (is_null condition) then parse_condition_json condition else (do
      when_node ← lift (member (codes "when") node)
      if not (is_null when_node) then parse_condition_text when_node else reject)
