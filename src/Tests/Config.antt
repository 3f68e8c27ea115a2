-- ===== src/Tests/Config.antt =====
-- A concrete JSON library and queue for runs of the event parser (src/server/event/event_parser.cpp).
use smarty.Base.{
  ℕ, zero, suc, ◌+◌, ◌≤◌, ◌<◌, arith, Bool, true, false, List, [], ◌∷◌, ◌++◌, Option, none, some,
  Text, text_eq, All, if◌then◌else◌, length,
}
use smarty.Command.{Command}
use smarty.Creation.Built.{IfSome}
use smarty.Parser.Json.{Json}
use smarty.System.{Queue}

mutual
  pub data Value : Type 0 where
    null : Value
    number : ℕ → Value
    text : Text → Value
    array : Items → Value
    object : Members → Value

  pub data Items : Type 0 where
    last : Items
    item : Value → Items → Items

  pub data Members : Type 0 where
    closed : Members
    entry : Text → Value → Members → Members

unfoldable mutual
  pub weight : Value → ℕ
  weight null = 0
  weight (number n) = 0
  weight (text t) = 0
  weight (array xs) = suc (weight_items xs)
  weight (object ms) = suc (weight_members ms)

  pub weight_items : Items → ℕ
  weight_items last = 0
  weight_items (item v xs) = weight v + weight_items xs

  pub weight_members : Members → ℕ
  weight_members closed = 0
  weight_members (entry name v ms) = weight v + weight_members ms

abbrev pub items_of : Items → List Value
items_of last = []
items_of (item v xs) = v ∷ items_of xs

abbrev pub values_of : Members → List Value
values_of closed = []
values_of (entry name v ms) = v ∷ values_of ms

abbrev pub elements_of : Value → List Value
elements_of (array xs) = items_of xs
elements_of (object ms) = values_of ms
elements_of _ = []

abbrev pub member_of : Text → Members → Value
member_of name closed = null
member_of name (entry other v ms) = if text_eq other name then v else member_of name ms

items_below :
    (bound : ℕ) (xs : Items)
    → weight_items xs ≤ bound
    → All (λ e. weight e < suc bound) (items_of xs)
unfolding weight_items
items_below bound last h = tt
items_below bound (item v xs) h = (omega arith, items_below bound xs (omega arith))

values_below :
    (bound : ℕ) (ms : Members)
    → weight_members ms ≤ bound
    → All (λ e. weight e < suc bound) (values_of ms)
unfolding weight_members
values_below bound closed h = tt
values_below bound (entry name v ms) h = (omega arith, values_below bound ms (omega arith))

pub elements_of-below : (v : Value) → All (λ e. weight e < weight v) (elements_of v)
unfolding weight
elements_of-below null = tt
elements_of-below (number n) = tt
elements_of-below (text t) = tt
elements_of-below (array xs) = items_below (weight_items xs) xs (omega arith)
elements_of-below (object ms) = values_below (weight_members ms) ms (omega arith)

abbrev pub is_null_value : Value → Bool
is_null_value null = true
is_null_value _ = false

abbrev pub is_text : Value → Bool
is_text (text t) = true
is_text _ = false

abbrev pub is_number : Value → Bool
is_number (number n) = true
is_number _ = false

abbrev pub is_array_value : Value → Bool
is_array_value (array xs) = true
is_array_value _ = false

-- A member of what has none is an exception.
abbrev pub member_of_value : Text → Value → Option Value
member_of_value name null = some null
member_of_value name (object ms) = some (member_of name ms)
member_of_value name _ = none

abbrev pub nth : List Value → ℕ → Value
nth [] i = null
nth (v ∷ vs) zero = v
nth (v ∷ vs) (suc i) = nth vs i

abbrev pub text_of : Value → Option Text
text_of (text t) = some t
text_of _ = none

abbrev pub number_of : Value → Option ℕ
number_of (number n) = some n
number_of _ = none

abbrev pub small_json : Json
small_json = record {
  Value = Value;
  is_null = is_null_value;
  is_string = is_text;
  is_array = is_array_value;
  is_int = is_number;
  member = member_of_value;
  at = λ i v. some (nth (elements_of v) i);
  size = λ v. length (elements_of v);
  elements = elements_of;
  as_string = text_of;
  as_uint = number_of;
  as_bool = λ v. none;
  depth = weight;
  elements_below = elements_of-below;
}

pub every_append :
    (P : Command → Type 0) (c : Command) (q : List Command) → P c → All P q → All P (q ++ c ∷ [])
every_append P c [] this these = (this, tt)
every_append P c (d ∷ q) this (first, rest) = (first, every_append P c q this rest)

abbrev pub take_first : List Command → Option (Command × List Command)
take_first [] = none
take_first (c ∷ q) = some (c, q)

pub take_first-every :
    (P : Command → Type 0) (q : List Command)
    → All P q
    → IfSome (λ r. P r.0 × All P r.1) (take_first q)
take_first-every P [] every = tt
take_first-every P (c ∷ q) every = every

-- First in, first out
abbrev pub list_queue : Queue
list_queue = record {
  Carrier = List Command;
  empty = [];
  add = λ c q. q ++ c ∷ [];
  take = take_first;
  Every = All;
  every_empty = λ P. tt;
  every_add = every_append;
  every_take = take_first-every;
}
