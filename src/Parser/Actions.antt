-- ===== src/Parser/Actions.antt =====
-- The actions of an event in src/server/event/event_parser.cpp, in JSON form and as text. `actions`
-- is the list that the methods add to.
use smarty.Base.{
  ℕ, zero, suc, ◌-◌, Bool, not, ◌==◌, ltb, List, [], ◌∷◌, ◌++◌, Option, none, some, if◌then◌else◌,
  Text, codes, length, get_or,
}
use smarty.Bits.Words.{shl_one}
use smarty.Common.{ec_turnon, ec_turnoff, ec_turnonbutton, ec_turnoffbutton}
use smarty.Command.{Command}
use smarty.Creation.{create_device_command, create_mode_command}
use smarty.Parser.Words.{
  is_turned_on, space, split, find, drop, atol, ThenActionType, enable_button, turn_light,
  change_mode, unknown_action, get_action_type,
}
use smarty.Parser.Json.{Json}
use smarty.Parser.State.{
  out_of_fuel, M, ◌>>=◌, ◌>>◌, return, reject, crash, check_return, lift, get,
}
use smarty.Parser.Lookup.{invalid, get_mode_id, pin_by_name, parse_pin}

-- What `action.find( " with delay " )` leads to: the action without the delay, and the delay in
-- seconds, invalid if it has fewer than two words
unfoldable pub delay_of : Option (Text × Text) → Text → Text × ℕ
delay_of none action = (action, 0)
delay_of (some (before, from)) action =
    let words = split space (drop 12 from) in
    (before, if ltb (length words) 2 then invalid else atol (get_or words 0 []))

unfoldable pub parse_timeout_text : Text → Text × ℕ
unfolding delay_of
parse_timeout_text [] = ([], invalid)
parse_timeout_text (c ∷ cs) = delay_of (find (codes " with delay ") (c ∷ cs)) (c ∷ cs)

unfoldable pub add_device_command : List Command → ℕ → ℕ → ℕ → M (List Command)
add_device_command actions cmd param timeout = do
  p ← get
  c ← lift (create_device_command (record { cmd = cmd; param = param }) timeout p.event_handler)
  return (actions ++ c ∷ [])

unfoldable pub add_mode_command : List Command → Bool → ℕ → ℕ → M (List Command)
add_mode_command actions turn_on pin timeout =
    return (actions ++ create_mode_command pin turn_on timeout ∷ [])

-- The switch of `parse_action_text`
unfoldable pub text_action : ThenActionType → Text → Bool → ℕ → List Command → M (List Command)
unfolding add_device_command add_mode_command
text_action enable_button name turned_on timeout actions = do
  p ← get
  let pin = pin_by_name name p.lights
  check_return (pin == invalid)
  add_device_command actions (if turned_on then ec_turnonbutton else ec_turnoffbutton) (shl_one pin)
      timeout
text_action turn_light name turned_on timeout actions = do
  p ← get
  let pin = pin_by_name name p.lights
  check_return (pin == invalid)
  add_device_command actions (if turned_on then ec_turnon else ec_turnoff) (shl_one pin) timeout
text_action change_mode name turned_on timeout actions = do
  p ← get
  let pin = get_mode_id name p.modes
  check_return (pin == invalid)
  add_mode_command actions turned_on pin timeout
text_action unknown_action name turned_on timeout actions = reject

-- parse_action_text, from the text on
unfoldable pub parse_action_words : Text → List Command → M (List Command)
unfolding parse_timeout_text text_action
parse_action_words text actions = do
  let (action, timeout) = parse_timeout_text text
  check_return (timeout == invalid)
  let words = split space action
  check_return (ltb (length words) 3)
  let last = length words - 1
  text_action (get_action_type (get_or words last [])) (get_or words (last - 1) [])
      (is_turned_on (get_or words (last - 2) [])) timeout actions

module _ (json : Json) where
  open json use {Value, is_null, is_string, is_array, member, elements, as_string, as_uint, as_bool}

  -- get_device_cmd
  unfoldable pub get_device_cmd : Value → M ℕ
  get_device_cmd node =
      if is_string node
      then (do s ← lift (as_string node); return (if is_turned_on s then ec_turnon else ec_turnoff))
      else (do n ← lift (as_uint node); return (if n == 1 then ec_turnon else ec_turnoff))

  -- The switch of `parse_action_json`: after a light or a button it breaks, and what follows the
  -- switch is `return false`; a mode and an unknown target fail an ASSERT.
  unfoldable pub json_action : ThenActionType → Value → Value → ℕ → List Command → M (List Command)
  unfolding get_device_cmd add_device_command
  json_action turn_light action turn_on delay actions = do
    p ← get
    pin ← parse_pin json p.lights action
    check_return (pin == invalid)
    cmd ← get_device_cmd turn_on
    add ← add_device_command actions cmd (shl_one pin) delay
    reject
  json_action enable_button action turn_on delay actions = do
    p ← get
    pin ← parse_pin json p.lights action
    check_return (pin == invalid)
    b ← lift (as_bool turn_on)
    add ←
        add_device_command actions (if b then ec_turnonbutton else ec_turnoffbutton) (shl_one pin)
          delay
    reject
  json_action change_mode action turn_on delay actions = crash
  json_action unknown_action action turn_on delay actions = crash

  -- `_delay.isNull( ) ? 0 : _delay.asUInt( )`
  unfoldable pub delay_value : Value → M ℕ
  delay_value delay = if is_null delay then return 0 else lift (as_uint delay)

  unfoldable pub parse_action_json : Value → List Command → M (List Command)
  unfolding json_action delay_value
  parse_action_json action actions = do
    target ← lift (member (codes "target") action)
    check_return (is_null target)
    turn_on ← lift (member (codes "turn on") action)
    check_return (is_null turn_on)
    delay ← lift (member (codes "delay") action)
    d ← delay_value delay
    t ← lift (as_string target)
    json_action (get_action_type t) action turn_on d actions

  -- The loop of `parse_actions_json`
  unfoldable pub each_action_json : List Value → List Command → M (List Command)
  unfolding parse_action_json
  each_action_json [] actions = return actions
  each_action_json (v ∷ vs) actions = do
    more ← parse_action_json v actions
    each_action_json vs more

  unfoldable pub parse_actions_json : Value → List Command → M (List Command)
  unfolding each_action_json
  parse_actions_json node actions = do
    check_return (not (is_array node))
    each_action_json (elements node) actions

  unfoldable pub parse_action_text : Value → List Command → M (List Command)
  unfolding parse_action_words
  parse_action_text node actions = do
    check_return (not (is_string node))
    text ← lift (as_string node)
    parse_action_words text actions

  -- The loop of `parse_actions_array_text`, over what each element leads to
  unfoldable pub each_action_text :
      (Value → List Command → M (List Command)) → List Value → List Command → M (List Command)
  each_action_text parse [] actions = return actions
  each_action_text parse (v ∷ vs) actions = do
    more ← parse v actions
    each_action_text parse vs more

  -- parse_actions_text with parse_actions_array_text; the fuel bounds how deep arrays are nested.
  unfoldable pub parse_actions_text : ℕ → Value → List Command → M (List Command)
  unfolding parse_action_text each_action_text
  parse_actions_text zero node actions = λ p. out_of_fuel
  parse_actions_text (suc fuel) node actions =
      let nested = each_action_text (parse_actions_text fuel) (elements node) actions in
      if is_string node
      then parse_action_text node actions
      else if is_array node
      then nested
      else reject

  -- parse_actions
  unfoldable pub parse_actions : Value → M (List Command)
  unfolding parse_actions_json parse_actions_text
  parse_actions node = do
    actions ← lift (member (codes "actions") node)
    if not (is_null actions) then parse_actions_json actions [] else (do
      then_node ← lift (member (codes "then") node)
      if not (is_null then_node)
          then parse_actions_text (suc (json.depth then_node)) then_node []
          else reject)
