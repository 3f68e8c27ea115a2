-- ===== src/Application/Modules.antt =====
-- driver_module_t and server_module_t (src/smarty/driver_module.cpp, src/smarty/server_module.cpp).
use smarty.Base.{
  Bool, true, false, not, ◌||◌, List, [], ◌∷◌, ◌++◌, Option, none, some, if◌then◌else◌,
}
use smarty.Common.{ErrorCode, error_ok, not_loaded, operation_failed, DeviceState}
use smarty.Handler.{◌>>=◌}
use smarty.Application.{
  driver_lib, server_lib, create_driver, free_driver, get_server, Event, call, start_server,
  stop_server, Answers, Library, new_library, load_library, unload_events, destroy_library,
}

-- driver_module_t: which of its pointers are set
pub record DriverModule : Type 0 where
  pub library : Library
  pub has_create_driver : Bool
  pub has_free_driver : Bool
  pub has_driver : Bool

unfoldable pub new_driver_module : DriverModule
new_driver_module = record {
  library = new_library;
  has_create_driver = false;
  has_free_driver = false;
  has_driver = false;
}

-- driver_module_t::load_functions
unfoldable pub load_driver_functions : Answers → DriverModule → Option (DriverModule × Bool)
load_driver_functions a m =
    if not m.library.has_lib || m.has_create_driver
    then none
    else if not (a.has_function create_driver)
    then some (m, false)
    else if m.has_free_driver
    then none
    else if not (a.has_function free_driver)
    then some (record m { has_create_driver = true }, false)
    else some (record m { has_create_driver = true; has_free_driver = true }, true)

-- The rest of `load`, once library and functions are there
unfoldable pub make_driver : Answers → DriverModule → DriverModule × List Event × ErrorCode
make_driver a m =
    if not a.creates_driver
    then (record m { has_driver = false }, call create_driver ∷ [], operation_failed)
    else (
      record m { has_driver = true; library = record (m.library) { loaded = true } },
      call create_driver ∷ [],
      error_ok,
    )

-- driver_module_t::load
unfoldable pub load_driver_module :
    Answers → DriverModule → Option (DriverModule × List Event × ErrorCode)
unfolding load_library load_driver_functions make_driver
load_driver_module a m =
    let (library, events, done) = load_library a driver_lib m.library in
    if not done
    then some (record m { library = library }, events, not_loaded)
    else (load_driver_functions a (record m { library = library }) >>= λ f.
        if not f.1
        then some (f.0, events, not_loaded)
        else (let r = make_driver a f.0 in some (r.0, events ++ r.1, r.2)))

-- driver_module_t::unload
unfoldable pub unload_driver_module : Answers → DriverModule → Option (List Event × ErrorCode)
unload_driver_module a m =
    if not m.library.has_lib
    then none
    else some
        (unload_events a driver_lib, if a.unloads driver_lib then error_ok else operation_failed)

-- driver_module_t::~driver_module_t, with that of library_intf_t
unfoldable pub destroy_driver_module : Answers → DriverModule → List Event
unfolding destroy_library
destroy_driver_module a m =
    (if m.has_free_driver then call free_driver ∷ [] else [])
    ++ destroy_library a driver_lib m.library

-- execute_command, add_observer and remove_observer: a module that is not loaded does not reach the
-- driver, whose answer is an argument.
unfoldable pub forward : DriverModule → ErrorCode → Option ErrorCode
forward m answer =
    if not m.library.loaded then some not_loaded else if not m.has_driver then none else some answer

-- get_state, which leaves the state of the caller as it is where the module is not loaded
unfoldable pub forward_state :
    DriverModule → (ErrorCode × DeviceState) → DeviceState → Option (ErrorCode × DeviceState)
forward_state m answer state =
    if not m.library.loaded
    then some (not_loaded, state)
    else if not m.has_driver
    then none
    else some answer

-- server_module_t
pub record ServerModule : Type 0 where
  pub library : Library
  pub has_server : Bool

unfoldable pub new_server_module : ServerModule
new_server_module = record { library = new_library; has_server = false }

-- server_module_t::load_functions: everything in it is an ASSERT.
unfoldable pub load_server_functions : Answers → ServerModule → Option (ServerModule × List Event)
load_server_functions a m =
    if not m.library.has_lib || not (a.has_function get_server)
    then none
    else if not a.gets_server
    then none
    else some (record m { has_server = true }, call get_server ∷ [])

-- server_module_t::load
unfoldable pub load_server_module :
    Answers → ServerModule → Option (ServerModule × List Event × ErrorCode)
unfolding load_library load_server_functions
load_server_module a m =
    let (library, events, done) = load_library a server_lib m.library in
    if not done
    then some (record m { library = library }, events, not_loaded)
    else (load_server_functions a (record m { library = library }) >>= λ f. some (
      record (f.0) { library = record (f.0.library) { loaded = true } },
      events ++ f.1,
      error_ok,
    ))

-- server_module_t::start, with smarty_server_t::start of an object that has not been started before; driver
-- and configuration are there when the program comes to it.
unfoldable pub start_server_module : Answers → ServerModule → Option (List Event × ErrorCode)
start_server_module a m =
    if not m.library.loaded
    then some ([], not_loaded)
    else if not m.has_server
    then none
    else (smarty.Startup.start_server a.parts true true smarty.Startup.new_smarty_server >>= λ r.
        some (start_server ∷ [], r.2))

-- server_module_t::stop; smarty_server_t::stop always returns OK.
unfoldable pub stop_server_module : ServerModule → Option (List Event × ErrorCode)
stop_server_module m =
    if not m.library.loaded
    then some ([], not_loaded)
    else if not m.has_server
    then none
    else some (stop_server ∷ [], error_ok)

-- server_module_t::unload
unfoldable pub unload_server_module : Answers → ServerModule → Option (List Event × ErrorCode)
unload_server_module a m =
    if not m.library.has_lib
    then none
    else some
        (unload_events a server_lib, if a.unloads server_lib then error_ok else operation_failed)

-- server_module_t::~server_module_t, with that of library_intf_t
unfoldable pub destroy_server_module : Answers → ServerModule → List Event
unfolding destroy_library
destroy_server_module a m = destroy_library a server_lib m.library
