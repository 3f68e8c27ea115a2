-- ===== src/System/Start.antt =====
-- The event handler from its configuration on: `init` and `set_client_register` of
-- src/server/event/event_handler.cpp, then its thread and its callbacks.
use mathlib.Core.Path.{subst, sym}
use smarty.Base.{All, ◌≡◌, ◌≤◌, refl, List, [], Bool, Text, length}
use smarty.Common.{DeviceState}
use smarty.Handler.{EventHandler, new_event_handler, set_client_register}
use smarty.Creation.Built.{IsBuilt}
use smarty.Parser.Json.{Json}
use smarty.Parser.State.{Parser, parsed}
use smarty.Parser.Ends.{Ends, Any}
use smarty.Parser.Whole.{init}
use smarty.Parser.Total.{init-IsSafe}
use smarty.System.{Queue, Call, System, run}
use smarty.System.Safety.{StaysSafe, IsKnown, run-StaysSafe}

-- The parser before `init`: nothing has been read but the modes of an earlier one.
abbrev pub new_parser : DeviceState → List Text → Parser
new_parser state modes = record {
  event_handler = new_event_handler state;
  modes = modes;
  sensors = [];
  lights = [];
}

-- The handler with its clients and no command yet
abbrev pub started : (queue : Queue) → EventHandler → System queue
started queue h = record { handler = set_client_register h; commands = queue.empty }

-- Once `init` has returned true on some configuration with at most 32 lights, and the clients are
-- set, no ASSERT fails in any calls of the handler and rounds of its thread, in any order, if the
-- commands that clients add are for lights of the configuration; and every command that is queued is
-- for a light that exists.
pub run-init :
    (json : Json) (queue : Queue) (state : DeviceState) (modes : List Text) (timer_started : Bool)
    (config : json.Value) (p : Parser) (calls : List Call)
    → init json timer_started config (new_parser state modes) ≡ parsed tt p
    → length p.event_handler.lights ≤ 32
    → All (IsKnown (length p.event_handler.lights)) calls
    → StaysSafe queue
        (length p.event_handler.lights)
        (run queue calls (started queue p.event_handler))
unfolding set_client_register
run-init json queue state modes timer_started config p calls done few known =
    let ((n, b), _) = subst (Ends _ Any) done (init-IsSafe json state modes timer_started config) in
    let same : IsBuilt (length p.event_handler.lights) p.event_handler =
      subst (λ m. IsBuilt m p.event_handler) (sym b.count) b in
    run-StaysSafe queue (length p.event_handler.lights) calls _
      (record {
        ready = record {
          clients = refl;
          built = record {
            count = refl;
            lights_fit = same.lights_fit;
            buttons_fit = same.buttons_fit;
            sensors_fit = same.sensors_fit;
            modes_fit = same.modes_fit;
            clicks_fit = same.clicks_fit;
          };
          few = few;
        };
        fit = queue.every_empty _;
      })
      known
