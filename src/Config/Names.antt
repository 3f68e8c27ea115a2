-- ===== src/Config/Names.antt =====
-- Names and pins of src/common/config.cpp.
use smarty.Base.{
  ℕ, zero, suc, ◌+◌, ◌≤◌, ◌≡◌, ◌∙◌, refl, ap, arith, Bool, true, false, not, ◌&&◌, ◌||◌, List, [],
  ◌∷◌, ◌++◌, if◌then◌else◌, Text, codes, text_eq, text_eq_sound, is_empty,
}
use mathlib.Core.List.{append_assoc}
use smarty.Bits.{test_bit}
use smarty.Config.{
  PinConfig, Config, pin_of, get_light_pin, name_of, get_light_name, add_name, add_names,
  get_light_names,
}

-- The pins ascend from `low` on, so none occurs twice.
abbrev pub Ascends : ℕ → PinConfig → Type 0
Ascends low [] = Unit {0}
Ascends low ((p, n) ∷ m) = (low ≤ p) × Ascends (p + 1) m

abbrev pub has_name : Text → PinConfig → Bool
has_name name [] = false
has_name name ((p, n) ∷ m) = text_eq n name || has_name name m

pin_of-above :
    (name : Text) (low : ℕ) (m : PinConfig)
    → Ascends low m
    → has_name name m ≡ true
    → low ≤ pin_of name m
unfolding pin_of
pin_of-above name low [] s known = cc
pin_of-above name low ((p, n) ∷ m) s known = ground (arith, pin_of-above name (p + 1) m s.1, s.0)

name_of-pin_of :
    (name : Text) (low : ℕ) (m : PinConfig)
    → Ascends low m
    → has_name name m ≡ true
    → name_of (pin_of name m) m ≡ name
unfolding pin_of name_of
name_of-pin_of name low [] s known = cc
name_of-pin_of name low ((p, n) ∷ m) s known = ground (
  arith,
  name_of-pin_of name (p + 1) m s.1,
  pin_of-above name (p + 1) m s.1,
  text_eq_sound n name,
)

-- The texts, with ", " between them
abbrev pub join_names : List Text → Text
join_names [] = []
join_names (n ∷ []) = n
join_names (n ∷ k ∷ ns) = n ++ codes ", " ++ join_names (k ∷ ns)

-- The names for the bits that are set, from bit i on, without empty ones; bit i is pin i + 1.
abbrev pub names_on : PinConfig → ℕ → ℕ → ℕ → List Text
names_on m pins i zero = []
names_on m pins i (suc left) =
    let rest = names_on m pins (i + 1) left in
    if test_bit pins i && not (is_empty (name_of (i + 1) m)) then name_of (i + 1) m ∷ rest else rest

-- What is there already comes first.
abbrev with_first : Text → List Text → List Text
with_first result ns = if is_empty result then ns else result ∷ ns

-- Where the pins of the lights ascend and some light has the name, the pin of that name leads
-- back to the name.
pub get_light_name-get_light_pin :
    (name : Text) (c : Config)
    → Ascends 0 c.light_pins_map
    → has_name name c.light_pins_map ≡ true
    → get_light_name (get_light_pin name c) c ≡ name
unfolding get_light_name get_light_pin
get_light_name-get_light_pin name c = name_of-pin_of name 0 c.light_pins_map

-- One bit, with or without a name
join_names-add_name :
    (result name : Text) (ns : List Text) (on : Bool)
    → join_names (with_first (if not on then result else add_name result name) ns)
      ≡ join_names (with_first result (if on && not (is_empty name) then name ∷ ns else ns))
unfolding add_name
join_names-add_name result name ns false = refl
join_names-add_name result [] ns true = refl
join_names-add_name [] (x ∷ xs) ns true = refl
join_names-add_name (r ∷ rs) (x ∷ xs) [] true = refl
join_names-add_name (r ∷ rs) (x ∷ xs) (n ∷ ns) true =
    let first = r ∷ rs ++ codes ", " in
    ap (λ t. t ++ join_names (n ∷ ns)) (append_assoc first (x ∷ xs) (codes ", "))
    ∙ append_assoc first ((x ∷ xs) ++ codes ", ") (join_names (n ∷ ns))

add_names_lem :
    (m : PinConfig) (pins i left : ℕ) (result : Text)
    → add_names m pins i left result ≡ join_names (with_first result (names_on m pins i left))
unfolding add_names add_name
add_names_lem m pins i zero [] = refl
add_names_lem m pins i zero (r ∷ rs) = refl
add_names_lem m pins i (suc left) result =
    add_names_lem m pins (i + 1) left _
    ∙ join_names-add_name result (name_of (i + 1) m) (names_on m pins (i + 1) left)
        (test_bit pins i)

-- For any set of pins, the text for the lights is the names of the pins that are set among the
-- first 32, lowest first, with ", " between each two of them; a pin without a name counts as
-- "UNKNOWN" and an empty name is left out.
pub get_light_names_lem :
    (pins : ℕ) (c : Config)
    → get_light_names pins c ≡ join_names (names_on c.light_pins_map pins 0 32)
unfolding get_light_names
get_light_names_lem pins c = add_names_lem c.light_pins_map pins 0 32 []
