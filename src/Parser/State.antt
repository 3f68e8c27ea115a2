-- ===== src/Parser/State.antt =====
-- The state of event_parser_t (src/server/event/event_parser.h) and how its methods end.
use smarty.Base.{ℕ, Bool, true, false, List, Option, none, some, Text}
use smarty.Handler.{EventHandler}

pub record Parser : Type 0 where
  pub event_handler : EventHandler
  pub modes : List Text
  pub sensors : List (Text × ℕ)
  pub lights : List (Text × ℕ)

-- A method returns true with what it found, or returns false; an exception or a failed ASSERT ends
-- the program. The nesting of arrays is bounded by fuel.
pub data Outcome {ℓ} (A : Type ℓ) : Type ℓ where
  crashed : Outcome A
  out_of_fuel : Outcome A
  rejected : Parser → Outcome A
  parsed : A → Parser → Outcome A

abbrev pub M {ℓ} : Type ℓ → Type ℓ
M A = Parser → Outcome A

infixl 5 ◌>>=◌ ◌>>◌
unfoldable pub ◌>>=◌ {ℓ κ} : {A : Type ℓ} {B : Type κ} → M A → (A → M B) → M B
◌>>=◌ m f p = elim (m p) [
  | crashed ↦ crashed
  | out_of_fuel ↦ out_of_fuel
  | rejected p' ↦ rejected p'
  | parsed a p' ↦ f a p'
]

abbrev pub ◌>>◌ {ℓ} : {B : Type ℓ} → M (Unit {0}) → M B → M B
m >> k = m >>= λ _. k

abbrev pub return {ℓ} : {A : Type ℓ} → A → M A
return a p = parsed a p

-- `return false`
abbrev pub reject {ℓ} : {A : Type ℓ} → M A
reject p = rejected p

-- A failed ASSERT
abbrev pub crash {ℓ} : {A : Type ℓ} → M A
crash p = crashed

-- CHECK_RETURN_MSG and CHECK_RETURN_FALSE
abbrev pub check_return : Bool → M (Unit {0})
check_return true p = rejected p
check_return false p = parsed tt p

-- What throws or fails an ASSERT
abbrev pub lift {ℓ} : {A : Type ℓ} → Option A → M A
lift none p = crashed
lift (some a) p = parsed a p

abbrev pub get : M Parser
get p = parsed p p

abbrev pub put : Parser → M (Unit {0})
put p' p = parsed tt p'
