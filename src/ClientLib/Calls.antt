-- ===== src/ClientLib/Calls.antt =====
-- Which calls of a client library are defined (src/common/client_lib.cpp).
use smarty.Base.{
  ◌≡◌, refl, arith, Bool, true, false, not, ◌&&◌, ◌||◌, List, [], ◌∷◌, Option, none, some,
  if◌then◌else◌,
}
use smarty.Handler.{◌>>=◌}
use smarty.ClientLib.{
  Function, initialize, finalize, turn_light, desktop_command, server_command, get_last_error,
  get_config, ClientLib, new_client_lib, do_initialize, Call, connect, disconnect, call_turn_light,
  call_desktop_command, call_server_command, call_get_config, Result, step, run, do_connect,
}

abbrev is_server_command : Call → Bool
is_server_command (call_server_command error) = true
is_server_command _ = false

abbrev pub uses_server_command : List Call → Bool
uses_server_command [] = false
uses_server_command (call ∷ calls) = is_server_command call || uses_server_command calls

-- A connected object with all functions but perhaps server_command
record IsReady (has : Function → Bool) (c : ClientLib) : Type 0 where
  connected : c.connected ≡ true
  functions : c.functions ≡ has

record HasAll (has : Function → Bool) : Type 0 where
  initializes : has initialize ≡ true
  finalizes : has finalize ≡ true
  turns_lights : has turn_light ≡ true
  commands : has desktop_command ≡ true
  tells_error : has get_last_error ≡ true
  gets_config : has get_config ≡ true

-- A sequence of calls fails, or ends in a connected object.
abbrev pub Ends : (fails : Bool) → Option (ClientLib × List Result) → Type 0
Ends true r = r ≡ none
Ends false none = ⊥
Ends false (some r) = r.0.connected ≡ true

Ends-bind :
    (fails : Bool) (o : Option (ClientLib × List Result)) (x : Result)
    → Ends fails o
    → Ends fails (o >>= λ rest. some (rest.0, x ∷ rest.1))
Ends-bind true none x h = refl
Ends-bind true (some r) x h = absurd (cc)
Ends-bind false none x h = h
Ends-bind false (some r) x h = h

-- The object after a call that is defined, and what the call returns
abbrev after : Call → ClientLib → ClientLib × Result
after (connect false) c = (record c { active = true }, Result.is_connected false)
after (connect true) c = (record c { active = true; connected = true }, Result.is_connected true)
after disconnect c = (record c { active = false }, Result.nothing)
after (call_turn_light result) c = (c, Result.bool result)
after call_desktop_command c = (c, Result.nothing)
after (call_server_command error) c = (c, Result.error_code error)
after (call_get_config text) c = (c, Result.config text)

Ends-step :
    (own others present : Bool) (a : ClientLib × Result)
    (k : ClientLib × Result → Option (ClientLib × List Result))
    → Ends (others && not present) (k a)
    → Ends ((own || others) && not present) ((if own && not present then none else some a) >>= k)
Ends-step true others false a k h = refl
Ends-step true true true a k h = h
Ends-step true false true a k h = h
Ends-step false others present a k h = h

module _ {has : Function → Bool} (all : HasAll has) where
  step-after :
      (call : Call) (c : ClientLib)
      → IsReady has c
      → step call c
        ≡ (if is_server_command call && not (has server_command) then none else some (after call c))
  unfolding step
  step-after (connect false) c r = rw r.functions (rw (all.initializes, all.tells_error))
  step-after (connect true) c r = rw r.functions (rw (all.initializes, all.tells_error))
  step-after disconnect c r = rw r.functions (rw (r.connected, all.finalizes))
  step-after (call_turn_light result) c r = rw r.functions (rw (r.connected, all.turns_lights))
  step-after call_desktop_command c r = rw r.functions (rw (r.connected, all.commands))
  step-after (call_server_command error) c r = rw r.functions (rw r.connected (ground arith))
  step-after (call_get_config text) c r = rw r.functions (rw all.gets_config)

  after-IsReady : (call : Call) (c : ClientLib) → IsReady has c → IsReady has (after call c).0
  after-IsReady (connect false) c r = record { connected = r.connected; functions = r.functions }
  after-IsReady (connect true) c r = record { connected = refl; functions = r.functions }
  after-IsReady disconnect c r = record { connected = r.connected; functions = r.functions }
  after-IsReady (call_turn_light result) c r = r
  after-IsReady call_desktop_command c r = r
  after-IsReady (call_server_command error) c r = r
  after-IsReady (call_get_config text) c r = r

  run-Ends :
      (calls : List Call) (c : ClientLib)
      → IsReady has c
      → Ends (uses_server_command calls && not (has server_command)) (run calls c)
  unfolding run
  run-Ends [] c r = r.connected
  run-Ends (call ∷ calls) c r =
      let missing = not (has server_command) in
      rw (step-after call c r) (
        Ends-step (is_server_command call) (uses_server_command calls) (has server_command)
          (after call c) (λ r'. run calls r'.0 >>= λ rest. some (rest.0, r'.1 ∷ rest.1))
          (Ends-bind (uses_server_command calls && missing) (run calls (after call c).0)
            (after call c).1 (run-Ends calls (after call c).0 (after-IsReady call c r))))

initialize-HasAll :
    (loads : Bool) (has : Function → Bool) (light notification : Bool) (c : ClientLib)
    → do_initialize loads has light notification new_client_lib ≡ some (c, true)
    → HasAll has × (c.functions ≡ has)
unfolding do_initialize new_client_lib
initialize-HasAll loads has light notification c done = (ground arith, ground arith)

do_connect-after :
    {has : Function → Bool} (all : HasAll has) (c : ClientLib)
    → c.functions ≡ has
    → do_connect true c ≡ some (after (connect true) c)
unfolding do_connect
do_connect-after all c same = rw same (rw (all.initializes, all.tells_error))

-- After `initialize` and `connect` have returned true, any calls are defined, unless server_command is
-- among them and the library has no such function, which `initialize` does not check: then an ASSERT
-- fails. The object counts as connected to the end, also after `disconnect`.
pub run-connected :
    (loads : Bool) (has : Function → Bool) (light notification : Bool) (c : ClientLib)
    (calls : List Call)
    → do_initialize loads has light notification new_client_lib ≡ some (c, true)
    → Ends (uses_server_command calls && not (has server_command)) (run (connect true ∷ calls) c)
unfolding run
run-connected loads has light notification c calls done =
    let (all, same) = initialize-HasAll loads has light notification c done in
    let first = do_connect-after all c same in
    rw first (
      Ends-bind (uses_server_command calls && not (has server_command))
        (run calls (after (connect true) c).0) (Result.is_connected true)
        (run-Ends all calls (after (connect true) c).0
          (record { connected = refl; functions = same })))
