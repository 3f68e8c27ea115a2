-- ===== src/Parser/Json.antt =====
-- The JSON library (`Json::Value` of jsoncpp), which the repository uses and does not hold: what
-- src/server/event/event_parser.cpp and src/common/config.cpp ask of it. `none` is an exception.
use smarty.Base.{ℕ, ◌<◌, Bool, List, Option, Text, All}

pub record Json : Type 1 where
  pub Value : Type 0
  -- isNull, isString (or `type( ) == Json::stringValue`), isArray, isInt
  pub is_null : Value → Bool
  pub is_string : Value → Bool
  pub is_array : Value → Bool
  pub is_int : Value → Bool
  -- operator[] with a name; a name that is not there gives the null value
  pub member : Text → Value → Option Value
  -- operator[] with an index, and size
  pub at : ℕ → Value → Option Value
  pub size : Value → ℕ
  -- what a `for` over the value visits
  pub elements : Value → List Value
  pub as_string : Value → Option Text
  pub as_uint : Value → Option ℕ
  pub as_bool : Value → Option Bool
  -- a value is a finite tree
  pub depth : Value → ℕ
  pub elements_below : (v : Value) → All (λ e. depth e < depth v) (elements v)
