-- ===== src/Parser/Words.antt =====
-- The text helpers of src/server/event/event_parser.cpp, and the parts of the C++ library that they
-- use: `find`, `substr` and `atol`. Texts are lists of bytes.
pub mod Laws
use smarty.Base.{
  ℕ, zero, suc, ◌+◌, ◌-◌, ◌*◌, ◌%◌, Bool, true, false, ◌&&◌, ◌||◌, ◌==◌, ltb, leb, List, [], ◌∷◌,
  ◌++◌, Option, none, some, if◌then◌else◌, Text, codes, text_eq,
}

unfoldable pub is_turned_on : Text → Bool
is_turned_on value =
    text_eq value (codes "high")
    || text_eq value (codes "on")
    || text_eq value (codes "enabled")
    || text_eq value (codes "enable")

abbrev pub space : ℕ
space = 32

-- `c` in front of the first of the words
abbrev pub extend_first : ℕ → List Text → List Text
extend_first c [] = (c ∷ []) ∷ []
extend_first c (w ∷ ws) = (c ∷ w) ∷ ws

-- The words of a text from one position on: the loop of `split` with its last `substr`
unfoldable pub split_from : ℕ → Text → List Text
split_from delim [] = [] ∷ []
split_from delim (c ∷ cs) =
    let rest = split_from delim cs in if c == delim then [] ∷ rest else extend_first c rest

unfoldable pub split : ℕ → Text → List Text
split delim [] = []
split delim (c ∷ cs) = split_from delim (c ∷ cs)

abbrev pub starts_with : Text → Text → Bool
starts_with s [] = true
starts_with [] (p ∷ ps) = false
starts_with (c ∷ cs) (p ∷ ps) = c == p && starts_with cs ps

-- `s.find( pattern )` with both `substr` around it: what stands before the first occurrence, and
-- the text from there on
unfoldable pub find : Text → Text → Option (Text × Text)
find pattern [] = if starts_with [] pattern then some ([], []) else none
find pattern (c ∷ cs) =
    let rest : Option (Text × Text) = elim (find pattern cs) [
      | none ↦ none
      | some (before, from) ↦ some (c ∷ before, from)
    ] in
    if starts_with (c ∷ cs) pattern then some ([], c ∷ cs) else rest

abbrev pub drop : ℕ → Text → Text
drop zero cs = cs
drop (suc n) [] = []
drop (suc n) (c ∷ cs) = drop n cs

abbrev pub is_digit : ℕ → Bool
is_digit c = leb b'0' c && leb c b'9'

abbrev pub is_blank : ℕ → Bool
is_blank c = c == 32 || (leb 9 c && leb c 13)

unfoldable pub digits_value : ℕ → Text → ℕ
digits_value acc [] = acc
digits_value acc (c ∷ cs) =
    let rest = digits_value (acc * 10 + (c - b'0')) cs in if is_digit c then rest else acc

unfoldable pub signed_value : Text → ℕ
unfolding digits_value
signed_value [] = 0
signed_value (c ∷ cs) =
    if c == b'-'
    then (4294967296 - digits_value 0 cs % 4294967296) % 4294967296
    else if c == b'+'
    then digits_value 0 cs % 4294967296
    else digits_value 0 (c ∷ cs) % 4294967296

-- `atol` stored into a `uint`, for numbers that a `long` holds
unfoldable pub atol : Text → ℕ
unfolding signed_value
atol [] = 0
atol (c ∷ cs) = let rest = atol cs in if is_blank c then rest else signed_value (c ∷ cs)

pub data WhenEventType : Type 0 where
  mode_changed sensor_triggered button_pressed light_turned double_clicked unknown_event :
      WhenEventType

pub data ThenActionType : Type 0 where
  enable_button turn_light change_mode unknown_action : ThenActionType

unfoldable pub get_event_type : Text → WhenEventType
get_event_type name =
    if text_eq name (codes "mode")
    then mode_changed
    else if text_eq name (codes "sensor")
    then sensor_triggered
    else if text_eq name (codes "button")
    then button_pressed
    else if text_eq name (codes "light")
    then light_turned
    else if text_eq name (codes "double")
    then double_clicked
    else unknown_event

unfoldable pub get_action_type : Text → ThenActionType
get_action_type name =
    if text_eq name (codes "button")
    then enable_button
    else if text_eq name (codes "light")
    then turn_light
    else if text_eq name (codes "mode")
    then change_mode
    else unknown_action
