-- ===== src/Tests/Parsing.antt =====
-- Runs of the event parser (src/server/event/event_parser.cpp) and of what it leads to.
use smarty.Base.{List, ◌++◌, some, ℕ, ◌≡◌, refl, arith, true, false, [], ◌∷◌, Text, codes}
use smarty.Common.{DeviceState, DeviceEventType, high, error_ok}
use smarty.Command.{Command}
use smarty.Parser.State.{Parser, Outcome, parsed}
use smarty.Parser.Whole.{init}
use smarty.System.{
  Call, command_added, System, modes_updated, stop, Queue, sensor_triggered, round, run,
}
use smarty.Handler.{Output, new_event_handler}
use smarty.Parser.Words.{split}
use smarty.Parser.Actions.{parse_actions_json}
use smarty.Parser.Conditions.{parse_condition_words}
use smarty.Parser.Limits.{is_parsed, parse_actions_json-empty, parse_condition_words-light_events}
use smarty.Parser.Ends.{Ends, Any}
use smarty.Parser.Total.{IsSafe, init-IsSafe}
use smarty.System.Safety.{StaysSafe, run-StaysSafe}
use smarty.System.Fifo.{Takes, Fifo, pushed, all_executed}
use smarty.System.Executed.{sent, direct}
use smarty.System.Order.{run-served}
use smarty.System.Start.{new_parser, started, run-init}
use smarty.Tests.Config.{
  Value, number, text, array, object, last, item, closed, entry, weight, weight_items, small_json,
  take_first, list_queue,
}

abbrev named : Text → ℕ → Value
named name pin = object (entry (codes "name") (text name) (entry (codes "pin") (number pin) closed))

-- One light, one sensor, one mode, and an event in text form
abbrev config : Value
config = object (
    entry (codes "modes")
      (array (item (object (entry (codes "name") (text (codes "night")) closed)) last))
      (entry (codes "sensors") (array (item (named (codes "hall") 2) last)) (
        entry (codes "lights") (array (item (named (codes "lamp") 1) last)) (
          entry (codes "events")
            (array (
              item
                (object (
                  entry (codes "when") (text (codes "hall sensor on in night mode")) (
                    entry (codes "then")
                      (array (item (text (codes "turn on lamp light with delay 5 seconds")) last))
                      closed)))
                last))
            closed))))

abbrev quiet : DeviceState
quiet = record { lights = 0; buttons = 0; sensors = 0 }

abbrev loaded : Parser
loaded = record {
  event_handler = record {
    has_clients = false;
    device_state = quiet;
    last_dblclck_pin = 4294967295;
    light_events = [];
    button_events = [];
    sensor_events =
        record {
          mode = 1;
          actions = Command.device (record { cmd = 1; param = 1 }) 5 0 ∷ [];
          type = DeviceEventType.sensor;
          pin = 1;
          trigger_state = high;
          prev_state = quiet;
        }
        ∷ [];
    mode_events = [];
    double_click_events = [];
    event_modes_bitset = 0;
    lights = record { turnoff_time = 0 } ∷ [];
  };
  modes = codes "all" ∷ codes "night" ∷ [];
  sensors = (codes "hall", 2) ∷ [];
  lights = (codes "lamp", 1) ∷ [];
}

config_loads : init small_json true config (new_parser quiet []) ≡ parsed tt loaded
unfolding smarty.Parser.State.◌>>=◌ smarty.Parser.Words.is_turned_on smarty.Parser.Words.split_from
    smarty.Parser.Words.split smarty.Parser.Words.find smarty.Parser.Words.digits_value
    smarty.Parser.Words.signed_value smarty.Parser.Words.atol smarty.Parser.Words.get_event_type
    smarty.Parser.Words.get_action_type smarty.Parser.Lookup.find_name
    smarty.Parser.Lookup.insert_name smarty.Parser.Lookup.mode_index
    smarty.Parser.Lookup.get_mode_id smarty.Parser.Lookup.pin_by_name
    smarty.Parser.Lookup.parse_pins smarty.Parser.Lookup.parse_pin_names
    smarty.Parser.Lookup.parse_mode_names smarty.Parser.Lookup.parse_modes
    smarty.Parser.Lookup.parse_pin smarty.Parser.Lookup.parse_mode smarty.Parser.Actions.delay_of
    smarty.Parser.Actions.parse_timeout_text smarty.Parser.Actions.add_device_command
    smarty.Parser.Actions.add_mode_command smarty.Parser.Actions.text_action
    smarty.Parser.Actions.parse_action_words smarty.Parser.Actions.get_device_cmd
    smarty.Parser.Actions.json_action smarty.Parser.Actions.delay_value
    smarty.Parser.Actions.parse_action_json smarty.Parser.Actions.each_action_json
    smarty.Parser.Actions.parse_actions_json smarty.Parser.Actions.parse_action_text
    smarty.Parser.Actions.each_action_text smarty.Parser.Actions.parse_actions_text
    smarty.Parser.Actions.parse_actions smarty.Parser.Conditions.mode_of
    smarty.Parser.Conditions.parse_mode_text smarty.Parser.Conditions.add_device_event
    smarty.Parser.Conditions.add_mode_event smarty.Parser.Conditions.text_condition
    smarty.Parser.Conditions.parse_condition_words smarty.Parser.Conditions.parse_condition_text
    smarty.Parser.Conditions.get_sensor_state smarty.Parser.Conditions.condition_pin
    smarty.Parser.Conditions.parse_device_condition smarty.Parser.Conditions.parse_mode_condition
    smarty.Parser.Conditions.parse_condition_json smarty.Parser.Conditions.parse_condition
    smarty.Parser.Whole.parse_event smarty.Parser.Whole.parse_events smarty.Parser.Whole.parse
    smarty.Parser.Whole.init_light_objects init smarty.Creation.create_device_command
    smarty.Creation.create_device_event smarty.Creation.create_mode_command
    smarty.Creation.set_actions smarty.Creation.get_bit_offset smarty.Creation.bit_offset_loop
    smarty.Bits.Words.shl_one smarty.Bits.Words.dec_u32 smarty.Command.new_light_object
    smarty.Event.new_device_event smarty.Handler.new_event_handler weight weight_items
config_loads = refl

run-init_example : StaysSafe list_queue 1 (
    run list_queue
      (sensor_triggered 2 ∷ round error_ok 10 10 ∷ round error_ok 20 20 ∷ [])
      (started list_queue loaded.event_handler))
run-init_example =
    run-init small_json list_queue quiet [] true config loaded
      (sensor_triggered 2 ∷ round error_ok 10 10 ∷ round error_ok 20 20 ∷ []) config_loads
      (omega arith) (tt, (tt, (tt, tt)))

init-IsSafe_example : Ends IsSafe Any (init small_json true config (new_parser quiet []))
init-IsSafe_example = init-IsSafe small_json quiet [] true config

-- A handler with its clients, one light and no event, and one command in the queue
abbrev idle : System list_queue
idle = record {
  handler = record (new_event_handler quiet) {
    has_clients = true;
    lights = record { turnoff_time = 15 } ∷ [];
  };
  commands = Command.device (record { cmd = 1; param = 1 }) 5 0 ∷ [];
}

idle-IsSafe : smarty.System.Safety.IsSafe list_queue 1 idle
unfolding new_event_handler
idle-IsSafe = record {
  ready = record {
    clients = refl;
    built = record {
      count = refl;
      lights_fit = tt;
      buttons_fit = tt;
      sensors_fit = tt;
      modes_fit = tt;
      clicks_fit = tt;
    };
    few = omega arith;
  };
  fit = (omega arith, tt);
}

run-StaysSafe_example : StaysSafe list_queue 1 (
    run list_queue
      (round error_ok 10 10 ∷ command_added (record { cmd = 1; param = 1 }) 5 ∷ stop ∷ [])
      idle)
unfolding smarty.Creation.get_bit_offset
run-StaysSafe_example =
    run-StaysSafe list_queue 1
      (round error_ok 10 10 ∷ command_added (record { cmd = 1; param = 1 }) 5 ∷ stop ∷ []) idle
      idle-IsSafe (tt, (omega arith, (tt, tt)))

-- The same with two commands that wait, of which the first has no delay
abbrev busy : System list_queue
busy = record idle {
  commands =
      Command.device (record { cmd = 1; param = 1 }) 0 0
      ∷ Command.device (record { cmd = 1; param = 1 }) 5 0
      ∷ [];
}

busy-IsSafe : smarty.System.Safety.IsSafe list_queue 1 busy
busy-IsSafe = record { ready = idle-IsSafe.ready; fit = (omega arith, (omega arith, tt)) }

contents_take_first : (q : List Command) → Takes list_queue (λ line. line) q (take_first q)
contents_take_first [] = refl
contents_take_first (c ∷ q) = refl

abbrev list_fifo : Fifo list_queue
list_fifo = record {
  contents = λ q. q;
  contents_empty = refl;
  contents_add = λ c q. refl;
  contents_take = contents_take_first;
}

-- Light 1 is to go off at 25, and the command for that is queued at 30 and executed at 40.
abbrev busy_calls : List Call
busy_calls =
    round error_ok 10 10
    ∷ command_added (record { cmd = 1; param = 1 }) 0
    ∷ round error_ok 20 20
    ∷ round error_ok 30 30
    ∷ round error_ok 40 40
    ∷ []

run-served_example :
    (s' : System list_queue) × (out : List Output) × (more : List Command) × (run list_queue
        busy_calls busy
      ≡ some (s', out))
    × (all_executed list_queue busy_calls busy ≡ busy.commands ++ more)
    × (more ++ s'.commands ≡ pushed out)
    × (sent out ≡ direct (busy.commands ++ more))
unfolding smarty.Creation.get_bit_offset
run-served_example =
    run-served list_queue list_fifo 1 busy_calls busy busy-IsSafe
      (tt, (omega arith, (tt, (tt, (tt, tt))))) (omega arith)

parse_actions_json-empty_example :
    is_parsed (
      parse_actions_json small_json
        (array (
          item
            (object (
              entry (codes "target") (text (codes "light")) (
                entry
                  (codes "name")
                  (text (codes "lamp"))
                  (entry (codes "turn on") (text (codes "on")) closed))))
            last))
        []
        loaded)
    ≡ false
parse_actions_json-empty_example =
    parse_actions_json-empty small_json
      (array (
        item
          (object (
            entry (codes "target") (text (codes "light")) (
              entry (codes "name") (text (codes "lamp"))
                (entry (codes "turn on") (text (codes "on")) closed))))
          last))
      [] loaded

parse_condition_words-light_events_example :
    Ends
      (λ p. p.event_handler.light_events ≡ [])
      Any
      (parse_condition_words (codes "lamp light on") loaded)
parse_condition_words-light_events_example =
    parse_condition_words-light_events (codes "lamp light on") loaded
