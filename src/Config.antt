-- ===== src/Config.antt =====
-- config_t of src/common/config.h and config.cpp: the names of lights and sensors by their pins. A map
-- from pins to names is a list ascending in the pins; `none` stands for a failed ASSERT or an
-- exception of the JSON library.
pub mod Names
pub mod Pins
pub mod LightInfo
use smarty.Base.{
  ℕ, zero, suc, ◌+◌, Bool, true, false, not, ◌&&◌, ◌==◌, ltb, List, [], ◌∷◌, ◌++◌, Option, none,
  some, if◌then◌else◌, Text, codes, text_eq, is_empty,
}
use smarty.Bits.{test_bit}
use smarty.Bits.Words.{all_ones}
use smarty.Handler.{◌>>=◌}
use smarty.Parser.Json.{Json}

-- pin_config_t
abbrev pub PinConfig : Type 0
PinConfig = List (ℕ × Text)

pub record Config : Type 0 where
  pub light_pins_map : PinConfig
  pub sensor_pins_map : PinConfig

unfoldable pub new_config : Config
new_config = record { light_pins_map = []; sensor_pins_map = [] }

-- `map[ pin ] = name`
unfoldable pub assign_pin : ℕ → Text → PinConfig → PinConfig
assign_pin pin name [] = (pin, name) ∷ []
assign_pin pin name ((p, n) ∷ m) =
    let rest = (p, n) ∷ assign_pin pin name m in
    if ltb pin p then (pin, name) ∷ (p, n) ∷ m else if p == pin then (pin, name) ∷ m else rest

-- The loop of get_light_pin; -1 as a `uint` where it ends
unfoldable pub pin_of : Text → PinConfig → ℕ
pin_of name [] = all_ones
pin_of name ((p, n) ∷ m) = let rest = pin_of name m in if text_eq n name then p else rest

unfoldable pub get_light_pin : Text → Config → ℕ
unfolding pin_of
get_light_pin name c = pin_of name c.light_pins_map

-- map::find, with the name for a pin that is not there
unfoldable pub name_of : ℕ → PinConfig → Text
name_of pin [] = codes "UNKNOWN"
name_of pin ((p, n) ∷ m) = let rest = name_of pin m in if p == pin then n else rest

unfoldable pub get_light_name : ℕ → Config → Text
unfolding name_of
get_light_name pin c = name_of pin c.light_pins_map

unfoldable pub get_sensor_name : ℕ → Config → Text
unfolding name_of
get_sensor_name pin c = name_of pin c.sensor_pins_map

-- One name more in the result
unfoldable pub add_name : Text → Text → Text
add_name result name =
    if not (is_empty name)
    then (if not (is_empty result) then result ++ codes ", " else result) ++ name
    else result

-- The loop of get_light_names and get_sensor_names from bit i on, `left` bits
unfoldable pub add_names : PinConfig → ℕ → ℕ → ℕ → Text → Text
unfolding add_name name_of
add_names m pins i zero result = result
add_names m pins i (suc left) result =
    add_names m pins (i + 1) left
      (if not (test_bit pins i) then result else add_name result (name_of (i + 1) m))

unfoldable pub get_light_names : ℕ → Config → Text
unfolding add_names
get_light_names pins c = add_names c.light_pins_map pins 0 32 []

unfoldable pub get_sensor_names : ℕ → Config → Text
unfolding add_names
get_sensor_names pins c = add_names c.sensor_pins_map pins 0 32 []

module _ (json : Json) where
  open json use {Value, is_null, is_string, is_array, is_int, member, at, size, as_string, as_uint}

  -- One entry of the array: an entry without a name or a pin of the right type is left out.
  unfoldable pub parse_pin_entry : Value → PinConfig → Option PinConfig
  unfolding assign_pin
  parse_pin_entry info m = member (codes "name") info >>= λ name.
      if not (is_string name)
      then some m
      else (member (codes "pin") info >>= λ pin.
          if not (is_int pin)
          then some m
          else (as_uint pin >>= λ p. as_string name >>= λ n. some (assign_pin p n m)))

  -- The loop of parse_lights and parse_sensors, over the entries from `idx` on, `left` of them
  unfoldable pub parse_entries : Value → ℕ → ℕ → PinConfig → Option PinConfig
  unfolding parse_pin_entry
  parse_entries node idx zero m = some m
  parse_entries node idx (suc left) m =
      at idx node >>= λ info. parse_pin_entry info m >>= λ m'. parse_entries node (idx + 1) left m'

  -- parse_lights and parse_sensors, on the map that each of them fills; false leaves it as it is.
  -- A null value is no array, so the test for null in parse_sensors is part of the other.
  unfoldable pub parse_node : Text → Value → PinConfig → Option (PinConfig × Bool)
  unfolding parse_entries
  parse_node name root m = member name root >>= λ node.
      if not (is_array node)
      then some (m, false)
      else (parse_entries node 0 (size node) m >>= λ m'. some (m', true))

  -- do_parse
  unfoldable pub do_parse : Value → Config → Option (Config × Bool)
  unfolding parse_node
  do_parse root c =
      if is_null root
      then none
      else (parse_node (codes "lights") root c.light_pins_map >>= λ l.
          if not l.1
          then some (record c { light_pins_map = l.0 }, false)
          else (parse_node (codes "sensors") root c.sensor_pins_map >>= λ s.
              some (record c { light_pins_map = l.0; sensor_pins_map = s.0 }, s.1)))
