-- ===== src/Parser/Lookup.antt =====
-- Names and what they stand for in src/server/event/event_parser.cpp: modes, sensors and lights.
use smarty.Base.{
  ℕ, ◌+◌, ◌&&◌, ◌||◌, not, ◌==◌, List, [], ◌∷◌, ◌++◌, Option, none, some, if◌then◌else◌, Text,
  codes, text_eq,
}
use smarty.Bits.Words.{all_ones, dec_u32}
use smarty.Parser.Json.{Json}
use smarty.Parser.State.{Parser, M, ◌>>=◌, ◌>>◌, return, check_return, lift, get, put}

-- INVALID_MODE, INVALID_PIN and INVALID_TIMEOUT
abbrev pub invalid : ℕ
invalid = all_ones

-- map::find and map::insert, which keeps the entry of a name that is there
unfoldable pub find_name : Text → List (Text × ℕ) → Option ℕ
find_name name [] = none
find_name name ((n, v) ∷ m) = if text_eq n name then some v else find_name name m

unfoldable pub insert_name : Text → ℕ → List (Text × ℕ) → List (Text × ℕ)
insert_name name v m = elim (find_name name m) [ none ↦ m ++ (name, v) ∷ [] | some w ↦ m ]

-- The loop of `get_mode_id`
unfoldable pub mode_index : Text → ℕ → List Text → ℕ
mode_index name idx [] = invalid
mode_index name idx (m ∷ ms) =
    let rest = mode_index name (idx + 1) ms in if text_eq m name then idx else rest

unfoldable pub get_mode_id : Text → List Text → ℕ
unfolding mode_index
get_mode_id name modes = mode_index name 0 modes

-- parse_sensor_pin and parse_light_pin by name, with the map that each of them looks in
unfoldable pub pin_by_name : Text → List (Text × ℕ) → ℕ
unfolding find_name dec_u32
pin_by_name name m = elim (find_name name m) [ none ↦ invalid | some v ↦ dec_u32 v ]

module _ (json : Json) where
  open json use {Value, is_null, is_string, member, elements, as_string, as_uint}

  -- The loop of `parse_pin_names`; `write` stores the map `pin_map` refers to, `m_sensors` or
  -- `m_lights`, and `m` is what stands there.
  unfoldable pub parse_pins :
      (List (Text × ℕ) → Parser → Parser) → List Value → List (Text × ℕ) → M (Unit {0})
  unfolding insert_name
  parse_pins write [] m = return tt
  parse_pins write (v ∷ vs) m = do
    name ← lift (member (codes "name") v)
    pin ← lift (member (codes "pin") v)
    check_return (is_null name || is_null pin || not (is_string name))
    n ← lift (as_string name)
    k ← lift (as_uint pin)
    let m' = insert_name n k m
    p ← get
    put (write m' p)
    parse_pins write vs m'

  unfoldable pub parse_pin_names : (List (Text × ℕ) → Parser → Parser) → Value → M (Unit {0})
  unfolding parse_pins
  parse_pin_names write node = do
    check_return (is_null node)
    p ← get
    put (write [] p)
    parse_pins write (elements node) []

  -- The loop of `parse_modes`
  unfoldable pub parse_mode_names : List Value → M (Unit {0})
  parse_mode_names [] = return tt
  parse_mode_names (v ∷ vs) = do
    name ← lift (member (codes "name") v)
    check_return (is_null name || not (is_string name))
    n ← lift (as_string name)
    p ← get
    put (record p { modes = p.modes ++ n ∷ [] })
    parse_mode_names vs

  unfoldable pub parse_modes : Value → M (Unit {0})
  unfolding parse_mode_names
  parse_modes node = do
    check_return (is_null node)
    p ← get
    put (record p { modes = codes "all" ∷ [] })
    parse_mode_names (elements node)

  -- parse_sensor_pin and parse_light_pin of a node
  unfoldable pub parse_pin : List (Text × ℕ) → Value → M ℕ
  unfolding pin_by_name
  parse_pin m node = do
    pin ← lift (member (codes "pin") node)
    name ← lift (member (codes "name") node)
    if not (is_null pin)
        then (do v ← lift (as_uint pin); return (dec_u32 v))
        else if not (is_null name) && is_string name
        then (do n ← lift (as_string name); return (pin_by_name n m))
        else return invalid

  -- parse_mode; the number of the mode, 0 if none is set
  unfoldable pub parse_mode : Value → M ℕ
  unfolding get_mode_id
  parse_mode node = do
    check_return (is_null node)
    mode ← lift (member (codes "mode") node)
    if is_null mode then return 0 else (do
      name ← lift (as_string mode)
      p ← get
      let id = get_mode_id name p.modes
      check_return (id == invalid)
      return id)
