-- ===== src/Parser/Total.antt =====
-- The whole of event_parser_t (src/server/event/event_parser.cpp), and event_handler_t::init: it
-- comes to an end for every configuration and leaves the event handler built.
use mathlib.Core.Path.{subst, sym}
use smarty.Base.{replicate, ℕ, zero, suc, ◌+◌, ◌≡◌, refl, Bool, ◌==◌, List, [], Text, length}
use smarty.Common.{DeviceState}
use smarty.Command.{LightObject, new_light_object}
use smarty.Handler.{new_event_handler}
use smarty.Creation.Built.{IsBuilt, set_actions-IsBuilt}
use smarty.Parser.Json.{Json}
use smarty.Parser.State.{Parser, M}
use smarty.Parser.Ends.{
  Ends, ends_weaken, bind_ends, Keeps, Any, bind-Keeps, get-Keeps, put-Keeps, return-Keeps,
  check-Keeps, take-Keeps, crash-Keeps, if_Keeps,
}
use smarty.Parser.Upkeep.{Built}
use smarty.Parser.Whole.{parse_event, parse_events, parse, init_light_objects, init}
use smarty.Parser.Upkeep.Lookup.{parse_pin_names-Keeps, parse_modes-Keeps}
use smarty.Parser.Upkeep.Actions.{parse_actions-Keeps}
use smarty.Parser.Upkeep.Conditions.{parse_condition-Keeps}

module _ (json : Json) (n : ℕ) where
  open json use {Value, is_null, is_string, is_array, member, elements, at, size}

  parse_event-Keeps : (v : Value) → Keeps (Built n) Any (parse_event json v)
  unfolding parse_event
  parse_event-Keeps v = bind-Keeps (parse_condition-Keeps json n v) λ event _.
      bind-Keeps (parse_actions-Keeps json n v) λ acts fit.
        bind-Keeps get-Keeps
          λ p b. put-Keeps _ (set_actions-IsBuilt n acts event p.event_handler fit b)

  parse_events-Keeps :
      (v : Value) (idx left : ℕ) → Keeps (Built n) Any (parse_events json v idx left)
  unfolding parse_events
  parse_events-Keeps v idx zero = return-Keeps _ tt
  parse_events-Keeps v idx (suc left) =
      bind-Keeps (take-Keeps _)
        λ event _. bind-Keeps (parse_event-Keeps event) λ _ _. parse_events-Keeps v (idx + 1) left

  parse-Keeps : (config : Value) → Keeps (Built n) Any (parse json config)
  unfolding parse
  parse-Keeps config = bind-Keeps (take-Keeps _) λ modes _.
      bind-Keeps (parse_modes-Keeps json n modes) λ _ _. bind-Keeps (take-Keeps _) λ sensors _.
        bind-Keeps (parse_pin_names-Keeps json n _ (λ m p b. b) sensors) λ _ _.
          bind-Keeps (take-Keeps _) λ lights _.
            bind-Keeps (parse_pin_names-Keeps json n _ (λ m p b. b) lights) λ _ _.
              bind-Keeps (take-Keeps _) λ events _.
                if_Keeps (is_null events) (return-Keeps _ tt)
                  (parse_events-Keeps events 0 (size events))

-- Some number of lights.
abbrev pub IsSafe : Parser → Type 0
IsSafe p = (n : ℕ) × Built n p

-- No event yet.
abbrev IsBare : DeviceState → Parser → Type 0
IsBare state p =
    (lights : List LightObject) × (p.event_handler
      ≡ record (new_event_handler state) { lights = lights })

init_light_objects-Keeps :
    (json : Json) (state : DeviceState) (config : json.Value)
    → Keeps (IsBare state) Any (init_light_objects json config)
unfolding init_light_objects
init_light_objects-Keeps json state config = bind-Keeps (take-Keeps _) λ lights _.
    bind-Keeps (check-Keeps _) λ _ _. if_Keeps (json.size lights == 0) crash-Keeps (
      bind-Keeps get-Keeps λ p b. put-Keeps _ (
        replicate (json.size lights) new_light_object,
        λ i. record (b.1 i) { lights = replicate (json.size lights) new_light_object },
      ))

new-IsBuilt :
    (state : DeviceState) (lights : List LightObject)
    → IsBuilt (length lights) (record (new_event_handler state) { lights = lights })
unfolding new_event_handler
new-IsBuilt state lights = record {
  count = refl;
  lights_fit = tt;
  buttons_fit = tt;
  sensors_fit = tt;
  modes_fit = tt;
  clicks_fit = tt;
}

bare_IsSafe : (state : DeviceState) (p : Parser) → IsBare state p → IsSafe p
bare_IsSafe state p (lights, same) =
    (length lights, subst (IsBuilt (length lights)) (sym same) (new-IsBuilt state lights))

some-Keeps {ℓ} :
    {A : Type ℓ} {R : A → Type 0} {m : M A} → ((n : ℕ) → Keeps (Built n) R m) → Keeps IsSafe R m
some-Keeps {R = R} {m = m} h = record {
  run = λ p safe. ends_weaken (λ p' b. (safe.0, b)) R (m p) ((h safe.0).run p safe.1);
}

-- For every configuration `init`, with the state of the device and the modes of an earlier parser,
-- returns true, returns false or fails an ASSERT or the JSON library throws: the fuel for nested
-- arrays is enough. Where it returns, every event looks at the word of its list and every action is
-- for a light that exists.
pub init-IsSafe :
    (json : Json) (state : DeviceState) (modes : List Text) (timer_started : Bool)
    (config : json.Value)
    → Ends IsSafe Any (
        init json timer_started config (record {
          event_handler = new_event_handler state;
          modes = modes;
          sensors = [];
          lights = [];
        }))
unfolding init new_event_handler
init-IsSafe json state modes timer_started config =
    bind_ends (bare_IsSafe state) Any Any (init_light_objects json config) _ _
      ((init_light_objects-Keeps json state config).run _ (([], refl)))
      λ _ _. bind-Keeps (some-Keeps (λ n. parse-Keeps json n config)) λ _ _. check-Keeps _
