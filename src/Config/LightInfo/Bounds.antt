-- ===== src/Config/LightInfo/Bounds.antt =====
-- Which indices of lights are accepted (src/common/config_parser.cpp).
use smarty.Base.{ℕ, ◌<◌, ◌≡◌, arith, true, false, ltb, some, Text, codes}
use smarty.Parser.Json.{Json}
use smarty.Config.LightInfo.{
  LightInfo, ConfigParser, get_lights_count, get_light_info, read_name, read_pin, read_automatic,
}

ltb_irrefl : (n : ℕ) → ltb n n ≡ false
ltb_irrefl n = ground arith

module _ (json : Json) where
  open json use {Value, is_null, is_string, is_array, is_int, member, at, size, as_string, as_uint}

  -- What the JSON library documents of the null value: it is of no other type, its members are null
  -- too, and so is what stands behind the end of an array.
  pub record NullsAreEmpty : Type 0 where
    pub null_value : Value
    pub null_is_null : is_null null_value ≡ true
    pub null_is_no_string : is_string null_value ≡ false
    pub null_is_no_int : is_int null_value ≡ false
    pub member-null : (name : Text) → member name null_value ≡ some null_value
    pub at-size : (v : Value) → is_array v ≡ true → at (size v) v ≡ some null_value

  -- With a JSON library whose null value is empty, and a parsed configuration with an array of lights: an
  -- index beyond the number of lights is refused, and the caller's record stays as it is; but the
  -- number of lights itself is accepted as an index, with the name and the pin that stood in the
  -- record before.
  pub get_light_info_end :
      (nulls : NullsAreEmpty) (p : ConfigParser json) (index : ℕ) (info : LightInfo)
      → p.parsed ≡ true
      → is_array p.lights ≡ true
      → get_lights_count json p < index
      → (get_light_info json index info p ≡ some (info, false))
        × (get_light_info json (get_lights_count json p) info p
            ≡ some (record info { automatic_set = false }, true))
  unfolding get_light_info get_lights_count read_name read_pin read_automatic
  get_light_info_end nulls p index info parsed an_array beyond = (
    ground arith,
    rw parsed (
        rw an_array (
          rw (ltb_irrefl (size p.lights)) (
            rw (nulls.at-size p.lights an_array) (
              rw (nulls.member-null (codes "name"), nulls.null_is_no_string)
                (rw (nulls.member-null (codes "pin"), nulls.null_is_no_int)
                  (rw (nulls.member-null (codes "automatic"), nulls.null_is_null))))))),
  )
