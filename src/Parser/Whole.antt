-- ===== src/Parser/Whole.antt =====
-- `parse` and `parse_event` of src/server/event/event_parser.cpp, and `init` of
-- src/server/event/event_handler.cpp, which begins with it.
use smarty.Base.{ℕ, zero, suc, ◌+◌, Bool, not, ◌==◌, if◌then◌else◌, codes, replicate}
use smarty.Command.{new_light_object}
use smarty.Creation.{set_actions}
use smarty.Parser.Json.{Json}
use smarty.Parser.State.{M, ◌>>=◌, ◌>>◌, return, crash, check_return, lift, get, put}
use smarty.Parser.Lookup.{parse_modes, parse_pin_names}
use smarty.Parser.Actions.{parse_actions}
use smarty.Parser.Conditions.{parse_condition}

module _ (json : Json) where
  open json use {Value, is_null, member, at, size}

  unfoldable pub parse_event : Value → M (Unit {0})
  parse_event node = do
    event ← parse_condition json node
    actions ← parse_actions json node
    p ← get
    put (record p { event_handler = set_actions actions event p.event_handler })

  -- The loop of `parse`, over the events from `idx` on, `left` of them
  unfoldable pub parse_events : Value → ℕ → ℕ → M (Unit {0})
  unfolding parse_event
  parse_events node idx zero = return tt
  parse_events node idx (suc left) = do
    event ← lift (at idx node)
    done ← parse_event event
    parse_events node (idx + 1) left

  unfoldable pub parse : Value → M (Unit {0})
  unfolding parse_events
  parse config = do
    modes ← lift (member (codes "modes") config)
    parse_modes json modes
    sensors ← lift (member (codes "sensors") config)
    parse_pin_names json (λ m p. record p { sensors = m }) sensors
    lights ← lift (member (codes "lights") config)
    parse_pin_names json (λ m p. record p { lights = m }) lights
    events ← lift (member (codes "events") config)
    if is_null events then return tt else parse_events events 0 (size events)

  -- init_light_objects
  unfoldable pub init_light_objects : Value → M (Unit {0})
  init_light_objects config = do
    lights ← lift (member (codes "lights") config)
    check_return (is_null lights)
    if size lights == 0 then crash else (do
      p ← get
      put (record p {
        event_handler = record p.event_handler {
          lights = replicate (size lights) new_light_object;
        };
      }))

  -- event_handler_t::init, up to the start of the timer, whose success is an argument
  unfoldable pub init : Bool → Value → M (Unit {0})
  unfolding parse init_light_objects
  init timer_started config = do
    init_light_objects config
    parse config
    check_return (not timer_started)
