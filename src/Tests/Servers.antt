-- ===== src/Tests/Servers.antt =====
-- Runs of the starts and stops of the server (src/server/server), of the program (src/smarty) and of the
-- client library (src/common/client_lib.cpp).
use smarty.Base.{
  ◌≡◌, refl, arith, Bool, true, false, not, ◌&&◌, ◌==◌, List, [], ◌∷◌, none, some, if◌then◌else◌,
}
use smarty.Common.{error_ok}
use smarty.Creation.Built.{IfSome}
use smarty.Startup
use smarty.Startup.{Answers, SmartyServer, new_smarty_server, start_server, stop_server}
use smarty.Startup.Order.{can_start, started, up, down, start_server_lem}
use smarty.Startup.Network.{new_net_server, do_run, waits}
use smarty.Startup.Balance.{ending_of, Outcome, do_run-Outcome}
use smarty.Serving.Stopping.{Pool, Steps, idle_pool, Deadlocked, stop_client_handlers-Deadlocked}
use smarty.Application
use smarty.Application.Run.{run}
use smarty.ClientLib
use smarty.ClientLib.{ClientLib, Function, Call, new_client_lib, do_initialize, load_functions}
use smarty.ClientLib.Calls.{Ends, uses_server_command, run-connected}

abbrev all_well : Answers
all_well = record { inits = λ p. true; starts = λ p. true }

abbrev no_desktops : Answers
no_desktops = record {
  inits = λ p. true;
  starts = λ p. elim p [ Startup.desktop_register ↦ false | _ ↦ true ];
}

start_server_lem_example :
    (start_server all_well true true new_smarty_server ≡ (
      if can_start all_well true true new_smarty_server
      then some (started, up, error_ok)
      else none))
    × (stop_server started ≡ some (down, error_ok))
    × (start_server all_well true true started ≡ none)
start_server_lem_example = start_server_lem all_well all_well true true true true new_smarty_server

do_run-Outcome_example :
    (ending_of (do_run all_well true (λ i. not (i == 3)) 10 (some 4 ∷ []) new_net_server)
      ≡ some waits)
    × IfSome Outcome (do_run all_well true (λ i. not (i == 3)) 10 (some 4 ∷ []) new_net_server)
do_run-Outcome_example = do_run-Outcome all_well true (λ i. not (i == 3)) 10 (some 4 ∷ [])

stop_client_handlers-Deadlocked_example : (p : Pool) × Steps (idle_pool 10) p × Deadlocked p
stop_client_handlers-Deadlocked_example = stop_client_handlers-Deadlocked 10 (omega arith)

abbrev plain : Application.Answers
plain = record {
  finds_binary_dir = true;
  reads_config = true;
  loads = λ l. true;
  unloads = λ l. true;
  has_function = λ f. true;
  creates_driver = true;
  gets_server = true;
  parts = all_well;
}

-- A library without server_command
abbrev older : Function → Bool
older Function.server_command = false
older _ = true

abbrev initialized : ClientLib
initialized = record {
  library = record { has_lib = true; loaded = true };
  functions = older;
  light_changed_callback = true;
  notification_callback = false;
  connected = false;
  active = false;
}

abbrev calls : List Call
calls =
    Call.call_turn_light true
    ∷ Call.disconnect
    ∷ Call.call_turn_light true
    ∷ Call.call_server_command error_ok
    ∷ []

initialized_lem : do_initialize true older true false new_client_lib ≡ some (initialized, true)
unfolding do_initialize new_client_lib
initialized_lem = refl

run-connected_example :
    Ends
      (uses_server_command calls && not (older Function.server_command))
      (ClientLib.run (Call.connect true ∷ calls) initialized)
run-connected_example = run-connected true older true false initialized calls initialized_lem
