-- ===== src/Startup/Order.antt =====
-- Starts and stops of the whole server (src/server/server/smarty_server.cpp).
use smarty.Base.{◌≡◌, refl, arith, Bool, true, not, ◌&&◌, List, [], ◌∷◌, none, some, if◌then◌else◌}
use smarty.Common.{error_ok}
use smarty.Startup.{
  device, event_handler, net_server, Call, init, start, stop, wait, add_observer, remove_observer,
  Answers, SmartyServer, start_server, stop_server,
}

-- All that `start` asks of its arguments, of the parts and of the server
abbrev pub can_start : Answers → (has_driver has_config : Bool) → SmartyServer → Bool
can_start a has_driver has_config s =
    has_config
    && (has_driver
        && (a.inits device
            && (a.starts device
                && (a.inits event_handler
                    && (a.starts event_handler && (not s.has_net_server && a.starts net_server))))))

-- A server that has been started
abbrev pub started : SmartyServer
started = record {
  has_config = true;
  has_device = true;
  has_net_server = true;
  has_event_handler = true;
}

abbrev pub up : List Call
up =
    init device
    ∷ start device
    ∷ init event_handler
    ∷ start event_handler
    ∷ add_observer event_handler
    ∷ start net_server
    ∷ []

abbrev pub down : List Call
down =
    stop net_server
    ∷ wait net_server
    ∷ remove_observer event_handler
    ∷ stop event_handler
    ∷ wait event_handler
    ∷ stop device
    ∷ wait device
    ∷ []

-- `start` either fails an ASSERT or returns ErrorCode::OK, never OPERATION_FAILED: it returns exactly
-- if it has a driver and a configuration, no network server stands from an earlier start, and every
-- part answers true; then it has made and started the device, the event handler, which observes the
-- device, and the network server, in this order. `stop` then stops and waits for each of them in the
-- reverse order. Since it leaves the network server in place, no later start returns.
pub start_server_lem :
    (a b : Answers) (has_driver has_config has_driver' has_config' : Bool) (s : SmartyServer)
    → (start_server a has_driver has_config s
        ≡ (if can_start a has_driver has_config s then some (started, up, error_ok) else none))
      × (stop_server started ≡ some (down, error_ok))
      × (start_server b has_driver' has_config' started ≡ none)
unfolding start_server stop_server
start_server_lem a b has_driver has_config has_driver' has_config' s =
    (ground arith, refl, ground arith)
