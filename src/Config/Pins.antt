-- ===== src/Config/Pins.antt =====
-- The pins that do_parse of src/common/config.cpp leaves behind.
use smarty.Base.{
  ℕ, zero, suc, ◌+◌, ◌≤◌, ◌≡◌, arith, Bool, true, false, not, [], ◌∷◌, Option, none, some,
  if◌then◌else◌, Text, codes,
}
use mathlib.Core.Path.{subst}
use smarty.Creation.Built.{IfSome, IfSome-bind, any_some}
use smarty.Parser.Json.{Json}
use smarty.Config.{
  PinConfig, Config, assign_pin, parse_pin_entry, parse_entries, parse_node, do_parse,
  get_light_pin, get_light_name, new_config,
}
use smarty.Config.Names.{Ascends, has_name, get_light_name-get_light_pin}

assign_pin-Ascends :
    (pin : ℕ) (name : Text) (low : ℕ) (m : PinConfig)
    → low ≤ pin
    → Ascends low m
    → Ascends low (assign_pin pin name m)
unfolding assign_pin
assign_pin-Ascends pin name low [] above s = (above, s)
assign_pin-Ascends pin name low ((p, n) ∷ m) above s =
    ground (arith, assign_pin-Ascends pin name (p + 1) m)

IfSome-if {ℓ} :
    {A : Type ℓ} (R : A → Type 0) (test : Bool) (o₁ o₂ : Option A)
    → IfSome R o₁
    → IfSome R o₂
    → IfSome R (if test then o₁ else o₂)
IfSome-if R true o₁ o₂ h k = h
IfSome-if R false o₁ o₂ h k = k

abbrev BothAscend : Config × Bool → Type 0
BothAscend r = Ascends 0 (r.0).light_pins_map × Ascends 0 (r.0).sensor_pins_map

module _ (json : Json) where
  open json use {Value, is_null, is_string, is_array, is_int, member, at, size, as_string, as_uint}

  parse_pin_entry-Ascends :
      (info : Value) (m : PinConfig)
      → Ascends 0 m
      → IfSome (Ascends 0) (parse_pin_entry json info m)
  unfolding parse_pin_entry
  parse_pin_entry-Ascends info m s =
      IfSome-bind _ (Ascends 0) (member (codes "name") info) _ (any_some _) (λ name _.
        IfSome-if (Ascends 0) (not (is_string name)) (some m) _ s (
          IfSome-bind _ (Ascends 0) (member (codes "pin") info) _ (any_some _) (λ pin _.
            IfSome-if (Ascends 0) (not (is_int pin)) (some m) _ s (
              IfSome-bind _ (Ascends 0) (as_uint pin) _ (any_some _) (λ p _.
                IfSome-bind _ (Ascends 0) (as_string name) _ (any_some _)
                  (λ n _. assign_pin-Ascends p n 0 m (omega arith) s))))))

  parse_entries-Ascends :
      (node : Value) (idx left : ℕ) (m : PinConfig)
      → Ascends 0 m
      → IfSome (Ascends 0) (parse_entries json node idx left m)
  unfolding parse_entries
  parse_entries-Ascends node idx zero m s = s
  parse_entries-Ascends node idx (suc left) m s =
      IfSome-bind _ (Ascends 0) (at idx node) _ (any_some _) (λ info _.
        IfSome-bind (Ascends 0) (Ascends 0) (parse_pin_entry json info m) _
          (parse_pin_entry-Ascends info m s)
          (λ m' s'. parse_entries-Ascends node (idx + 1) left m' s'))

  parse_node-Ascends :
      (name : Text) (root : Value) (m : PinConfig)
      → Ascends 0 m
      → IfSome (λ r. Ascends 0 r.0) (parse_node json name root m)
  unfolding parse_node
  parse_node-Ascends name root m s =
      IfSome-bind _ (λ r. Ascends 0 r.0) (member name root) _ (any_some _)
        (λ node _.
          IfSome-if (λ r. Ascends 0 r.0) (not (is_array node)) (some (m, false)) _ s
            (IfSome-bind (Ascends 0) (λ r. Ascends 0 r.0) (parse_entries json node 0 (size node) m)
              _ (parse_entries-Ascends node 0 (size node) m s) (λ m' s'. s')))

  do_parse-BothAscend :
      (root : Value) (c : Config) → BothAscend (c, true) → IfSome BothAscend (do_parse json root c)
  unfolding do_parse
  do_parse-BothAscend root c s = IfSome-if BothAscend (is_null root) none _ tt (
      IfSome-bind (λ r. Ascends 0 r.0) BothAscend
        (parse_node json (codes "lights") root c.light_pins_map) _
        (parse_node-Ascends (codes "lights") root c.light_pins_map s.0)
        (λ l lights.
          IfSome-if BothAscend (not l.1) (some (record c { light_pins_map = l.0 }, false)) _
            (lights, s.1)
            (IfSome-bind (λ r. Ascends 0 r.0) BothAscend
              (parse_node json (codes "sensors") root c.sensor_pins_map) _
              (parse_node-Ascends (codes "sensors") root c.sensor_pins_map s.1)
              (λ r sensors. (lights, sensors)))))

  -- For any JSON library and any configuration that is parsed into a new object, completely or
  -- not: if some light has a name, the pin that is found for the name leads back to the name.
  pub do_parse-get_light_pin :
      (root : Value) (c : Config) (complete : Bool) (name : Text)
      → do_parse json root new_config ≡ some (c, complete)
      → has_name name c.light_pins_map ≡ true
      → get_light_name (get_light_pin name c) c ≡ name
  unfolding new_config
  do_parse-get_light_pin root c complete name parsed known =
      get_light_name-get_light_pin name c
        (subst (IfSome BothAscend) parsed (do_parse-BothAscend root new_config (tt, tt))).0 known
