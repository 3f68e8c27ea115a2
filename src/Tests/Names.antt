-- ===== src/Tests/Names.antt =====
-- Runs of the names and pins of the configuration (src/common/config.cpp).
use smarty.Base.{arith, List, length, false, ◌≡◌, refl, true, [], ◌∷◌, some, Text, codes}
use smarty.Config.{
  Config, new_config, do_parse, get_light_pin, get_light_name, get_light_names, name_of, add_name,
  add_names, parse_node, parse_entries, parse_pin_entry, assign_pin, get_sensor_name,
}
use smarty.Config.Pins.{do_parse-get_light_pin}
use smarty.Config.LightInfo.{LightInfo, ConfigParser, get_lights_count, get_light_info}
use smarty.Config.LightInfo.Bounds.{NullsAreEmpty, get_light_info_end}
use smarty.Bits.{test_bit}
use smarty.Tests.Config.{
  Value, number, text, array, object, last, item, closed, entry, small_json, nth, elements_of, null,
}

abbrev named : Text → Value → Value
named name pin = object (entry (codes "name") (text name) (entry (codes "pin") pin closed))

-- Two lights out of order, one whose pin is no number, and a sensor
abbrev root : Value
root = object (
    entry (codes "lights")
      (array (
        item (named (codes "desk") (number 3)) (
          item (named (codes "bed") (text (codes "x")))
            (item (named (codes "lamp") (number 1)) last))))
      (entry (codes "sensors") (array (item (named (codes "hall") (number 2)) last)) closed))

abbrev two_lights : Config
two_lights = record {
  light_pins_map = (1, codes "lamp") ∷ (3, codes "desk") ∷ [];
  sensor_pins_map = (2, codes "hall") ∷ [];
}

parsed_root : do_parse small_json root new_config ≡ some (two_lights, true)
unfolding do_parse parse_node parse_entries parse_pin_entry assign_pin new_config
parsed_root = refl

hall_sensor : get_sensor_name 2 two_lights ≡ codes "hall"
unfolding get_sensor_name name_of
hall_sensor = refl

names_of_lights : get_light_names 7 two_lights ≡ codes "lamp, UNKNOWN, desk"
unfolding get_light_names add_names add_name name_of test_bit
names_of_lights = refl

do_parse-get_light_pin_example :
    get_light_name (get_light_pin (codes "desk") two_lights) two_lights ≡ codes "desk"
do_parse-get_light_pin_example =
    do_parse-get_light_pin small_json root two_lights true (codes "desk") parsed_root refl

nth-length : (vs : List Value) → nth vs (length vs) ≡ null
nth-length [] = refl
nth-length (v ∷ vs) = nth-length vs

small_json-NullsAreEmpty : NullsAreEmpty small_json
small_json-NullsAreEmpty = record {
  null_value = null;
  null_is_null = refl;
  null_is_no_string = refl;
  null_is_no_int = refl;
  member-null = λ name. refl;
  at-size = λ v _. rw (nth-length (elements_of v));
}

abbrev two_light_parser : ConfigParser small_json
two_light_parser = record {
  lights =
      array (item (named (codes "desk") (number 3)) (item (named (codes "lamp") (number 1)) last));
  parsed = true;
  config = [];
}

abbrev stale : LightInfo
stale = record { name = codes "lamp"; pin = 1; automatic_set = true }

two_lights_counted : get_lights_count small_json two_light_parser ≡ 2
unfolding get_lights_count
two_lights_counted = refl

get_light_info_end_example :
    (get_light_info small_json 3 stale two_light_parser ≡ some (stale, false))
    × (get_light_info small_json
          (get_lights_count small_json two_light_parser)
          stale
          two_light_parser
        ≡ some (record stale { automatic_set = false }, true))
get_light_info_end_example =
    get_light_info_end small_json small_json-NullsAreEmpty two_light_parser 3 stale refl refl
      (rw two_lights_counted (omega arith))
