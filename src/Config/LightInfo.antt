-- ===== src/Config/LightInfo.antt =====
-- config_parser_t of src/common/config_parser.h and config_parser.cpp: the lights of a configuration
-- by their index. `none` stands for an exception of the JSON library; its reader is an argument.
pub mod Bounds
use smarty.Base.{
  ℕ, Bool, true, false, not, ◌&&◌, ◌||◌, ltb, Option, none, some, if◌then◌else◌, Text, codes,
}
use smarty.Handler.{◌>>=◌}
use smarty.Parser.Json.{Json}

-- light_info_t
pub record LightInfo : Type 0 where
  pub name : Text
  pub pin : ℕ  -- sizeint
  pub automatic_set : Bool

module _ (json : Json) where
  open json use {Value, is_null, is_string, is_array, is_int, member, at, size, as_string, as_uint}

  pub record ConfigParser : Type 0 where
    pub lights : Value
    pub parsed : Bool
    pub config : Text

  -- config_parser_t::parse; `read` is Json::Reader::parse.
  unfoldable pub parse : (Text → Option Value) → ConfigParser → Option (ConfigParser × Bool)
  parse read p = elim (read p.config) [
    | none ↦ some (p, p.parsed)
    | some v ↦
        (if is_null v
          then some (p, p.parsed)
          else (member (codes "lights") v >>= λ l.
              some (record p { parsed = true; lights = l }, true)))
  ]

  unfoldable pub get_lights_count : ConfigParser → ℕ
  get_lights_count p = if not p.parsed || not (is_array p.lights) then 0 else size p.lights

  -- `if ( light_info[ NAME ].isString( ) ) info.name = …`
  unfoldable pub read_name : Value → LightInfo → Option LightInfo
  read_name light info = member (codes "name") light >>= λ v.
      if is_string v then (as_string v >>= λ n. some (record info { name = n })) else some info

  unfoldable pub read_pin : Value → LightInfo → Option LightInfo
  read_pin light info = member (codes "pin") light >>= λ v.
      if is_int v then (as_uint v >>= λ n. some (record info { pin = n })) else some info

  unfoldable pub read_automatic : Value → LightInfo → Option LightInfo
  read_automatic light info = member (codes "automatic") light >>= λ v.
      some (record info { automatic_set = not (is_null v) })

  -- config_parser_t::get_light_info
  unfoldable pub get_light_info : ℕ → LightInfo → ConfigParser → Option (LightInfo × Bool)
  unfolding get_lights_count read_name read_pin read_automatic
  get_light_info index info p =
      if not p.parsed
      then some (info, false)
      else if ltb (get_lights_count p) index
      then some (info, false)
      else (at index p.lights >>= λ light. read_name light info >>= λ named.
          read_pin light named >>= λ pinned.
          read_automatic light pinned >>= λ done. some (done, true))
