-- ===== src/ClientLib.antt =====
-- client_lib_t of src/common/client_lib.cpp, with which a client program uses libclient.so: the functions
-- that it looks up and the calls that it passes on. `none` stands for a failed ASSERT or a call through
-- a null pointer. What the loader and the functions answer is an argument.
pub mod Calls
use smarty.Base.{
  ℕ, Bool, true, false, not, ◌&&◌, ◌||◌, List, [], ◌∷◌, ◌++◌, Option, none, some, if◌then◌else◌,
  Text,
}
use smarty.Common.{ErrorCode}
use smarty.Handler.{◌>>=◌}
use smarty.Application.{Library}

pub data Function : Type 0 where
  initialize finalize turn_light desktop_command server_command get_last_error get_config
        set_loggers :
      Function

pub record ClientLib : Type 0 where
  pub library : Library
  -- which of the function pointers are set
  pub functions : Function → Bool
  -- which of the two callbacks are set
  pub light_changed_callback : Bool
  pub notification_callback : Bool
  pub connected : Bool
  -- whether g_active_client_instance is this object
  pub active : Bool

unfoldable pub new_client_lib : ClientLib
new_client_lib = record {
  library = record { has_lib = false; loaded = false };
  functions = λ f. false;
  light_changed_callback = false;
  notification_callback = false;
  connected = false;
  active = false;
}

-- load_functions; each lookup that fails gives a null pointer.
unfoldable pub load_functions : (Function → Bool) → ClientLib → Option (ClientLib × Bool)
load_functions has c =
    if not c.library.has_lib
    then none
    else some (
      record c { functions = has },
      has initialize
          && (has finalize
              && (has turn_light
                  && (has desktop_command
                      && (has get_last_error && (has get_config && has set_loggers))))),
    )

-- client_lib_t::initialize
unfoldable pub do_initialize :
    (loads : Bool)
    → (Function → Bool)
    → (light notification : Bool) → ClientLib
    → Option (ClientLib × Bool)
unfolding load_functions
do_initialize loads has light notification c =
    if not loads
    then some (record c { library = record (c.library) { has_lib = false } }, false)
    else (load_functions has (record c {
      library = record (c.library) { has_lib = true };
      light_changed_callback = light;
      notification_callback = notification;
    })
        >>= λ f.
            if not f.1
            then some f
            else some (record (f.0) { library = record (f.0.library) { loaded = true } }, true))

-- A call of the object, with what the library's function returns
pub data Call : Type 0 where
  connect : (accepted : Bool) → Call
  disconnect : Call
  call_turn_light : (result : Bool) → Call
  call_desktop_command : Call
  call_server_command : ErrorCode → Call
  call_get_config : Text → Call

-- What a call returns
pub data Result : Type 0 where
  nothing : Result
  -- `connect`, with the text of the last error where it is false
  is_connected : Bool → Result
  bool : Bool → Result
  error_code : ErrorCode → Result
  config : Text → Result

unfoldable pub do_connect : (accepted : Bool) → ClientLib → Option (ClientLib × Result)
do_connect accepted c =
    if not (c.functions initialize && c.functions get_last_error)
    then none
    else if not accepted
    then some (record c { active = true }, is_connected false)
    else some (record c { active = true; connected = true }, is_connected true)

unfoldable pub do_disconnect : ClientLib → Option (ClientLib × Result)
do_disconnect c =
    if not (c.connected && c.functions finalize)
    then none
    else some (record c { active = false }, nothing)

-- `ASSERT( m_connected ); ASSERT( m_function != NULL );` and the call
unfoldable pub pass_on : Function → Result → ClientLib → Option (ClientLib × Result)
pass_on function result c =
    if not (c.connected && c.functions function) then none else some (c, result)

-- get_config has no ASSERT, but a null pointer to call.
unfoldable pub do_get_config : Text → ClientLib → Option (ClientLib × Result)
do_get_config text c = if not (c.functions get_config) then none else some (c, config text)

unfoldable pub step : Call → ClientLib → Option (ClientLib × Result)
unfolding do_connect do_disconnect pass_on do_get_config
step (connect accepted) = do_connect accepted
step disconnect = do_disconnect
step (call_turn_light result) = pass_on turn_light (bool result)
step call_desktop_command = pass_on desktop_command nothing
step (call_server_command error) = pass_on server_command (error_code error)
step (call_get_config text) = do_get_config text

-- light_change_callback and notification_callback: whether the program's callback is called
unfoldable pub on_light_changed : ClientLib → Bool
on_light_changed c = if c.active then c.light_changed_callback else false

unfoldable pub on_notification : ClientLib → Bool
on_notification c = if c.active then c.notification_callback else false

-- Calls one after another
unfoldable pub run : List Call → ClientLib → Option (ClientLib × List Result)
unfolding step
run [] c = some (c, [])
run (call ∷ calls) c = step call c >>= λ r. run calls r.0 >>= λ rest. some (rest.0, r.1 ∷ rest.1)
