-- ===== src/Parser/Upkeep/Lookup.antt =====
-- Reading pins and modes from the configuration (src/server/event/event_parser.cpp) keeps the event
-- handler built.
use smarty.Base.{ℕ, not, ◌&&◌, List, [], ◌∷◌, Text}
use smarty.Parser.Json.{Json}
use smarty.Parser.State.{Parser}
use smarty.Parser.Ends.{
  Keeps, Any, bind-Keeps, get-Keeps, put-Keeps, return-Keeps, check-Keeps, take-Keeps, if_Keeps,
}
use smarty.Parser.Upkeep.{Built}
use smarty.Parser.Lookup.{
  parse_pin, parse_pins, parse_pin_names, parse_mode, parse_modes, parse_mode_names,
}

module _ (json : Json) (n : ℕ) where
  open json use {Value, is_null, is_string, is_array, member, elements, at, size}

  pub parse_pin-Keeps : (m : List (Text × ℕ)) (v : Value) → Keeps (Built n) Any (parse_pin json m v)
  unfolding parse_pin
  parse_pin-Keeps m v = bind-Keeps (take-Keeps _) λ pin _. bind-Keeps (take-Keeps _) λ name _.
      if_Keeps (not (is_null pin)) (bind-Keeps (take-Keeps _) λ k _. return-Keeps _ tt) (
        if_Keeps (not (is_null name) && is_string name)
          (bind-Keeps (take-Keeps _) λ k _. return-Keeps _ tt) (return-Keeps _ tt))

  pub parse_pins-Keeps :
      (write : List (Text × ℕ) → Parser → Parser)
      → ((m : List (Text × ℕ)) (p : Parser) → Built n p → Built n (write m p))
      → (vs : List Value) (m : List (Text × ℕ)) → Keeps (Built n) Any (parse_pins json write vs m)
  unfolding parse_pins
  parse_pins-Keeps write kept [] m = return-Keeps _ tt
  parse_pins-Keeps write kept (v ∷ vs) m = bind-Keeps (take-Keeps _) λ name _.
      bind-Keeps (take-Keeps _) λ pin _. bind-Keeps (check-Keeps _) λ _ _.
        bind-Keeps (take-Keeps _) λ s _. bind-Keeps (take-Keeps _) λ k _.
          bind-Keeps get-Keeps
            λ p b. bind-Keeps (put-Keeps _ (kept _ p b)) λ _ _. parse_pins-Keeps write kept vs _

  pub parse_pin_names-Keeps :
      (write : List (Text × ℕ) → Parser → Parser)
      → ((m : List (Text × ℕ)) (p : Parser) → Built n p → Built n (write m p))
      → (v : Value) → Keeps (Built n) Any (parse_pin_names json write v)
  unfolding parse_pin_names
  parse_pin_names-Keeps write kept v = bind-Keeps (check-Keeps _) λ _ _.
      bind-Keeps get-Keeps
        λ p b. bind-Keeps (put-Keeps _ (kept _ p b)) λ _ _. parse_pins-Keeps write kept _ _

  pub parse_mode_names-Keeps : (vs : List Value) → Keeps (Built n) Any (parse_mode_names json vs)
  unfolding parse_mode_names
  parse_mode_names-Keeps [] = return-Keeps _ tt
  parse_mode_names-Keeps (v ∷ vs) = bind-Keeps (take-Keeps _) λ name _.
      bind-Keeps (check-Keeps _) λ _ _. bind-Keeps (take-Keeps _) λ s _.
        bind-Keeps get-Keeps λ p b. bind-Keeps (put-Keeps _ b) λ _ _. parse_mode_names-Keeps vs

  pub parse_modes-Keeps : (v : Value) → Keeps (Built n) Any (parse_modes json v)
  unfolding parse_modes
  parse_modes-Keeps v =
      bind-Keeps (check-Keeps _) λ _ _.
        bind-Keeps get-Keeps λ p b. bind-Keeps (put-Keeps _ b) λ _ _. parse_mode_names-Keeps _

  pub parse_mode-Keeps : (v : Value) → Keeps (Built n) Any (parse_mode json v)
  unfolding parse_mode
  parse_mode-Keeps v = bind-Keeps (check-Keeps _) λ _ _. bind-Keeps (take-Keeps _) λ mode _.
      if_Keeps (is_null mode) (return-Keeps _ tt) (
        bind-Keeps (take-Keeps _)
          λ name _. bind-Keeps get-Keeps λ p b. bind-Keeps (check-Keeps _) λ _ _. return-Keeps _ tt)
