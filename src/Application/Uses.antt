-- ===== src/Application/Uses.antt =====
-- Whether code of a library runs while the library is loaded (src/smarty/smarty_app.cpp).
use smarty.Base.{
  ℕ, ◌≡◌, Bool, true, false, not, ◌&&◌, ◌||◌, List, [], ◌∷◌, Option, none, some, if◌then◌else◌,
}
use smarty.Application.{
  Lib, driver_lib, server_lib, create_driver, free_driver, get_server, Event, load, unload, delete,
  call, start_server, stop_server, Answers,
}
use smarty.Startup.{new_smarty_server}
use smarty.Startup.Order.{can_start}

abbrev lib_eq : Lib → Lib → Bool
lib_eq driver_lib driver_lib = true
lib_eq server_lib server_lib = true
lib_eq _ _ = false

-- Whether the code of a library that is not loaded never runs, from a state of the library on
abbrev pub safe : Lib → (loaded : Bool) → List Event → Bool
safe lib loaded [] = true
safe lib loaded (load l ∷ es) = safe lib (loaded || lib_eq l lib) es
safe lib loaded (unload l ∷ es) = safe lib (loaded && not (lib_eq l lib)) es
safe lib loaded (delete l ∷ es) = safe lib loaded es
safe lib loaded (call create_driver ∷ es) =
    (not (lib_eq driver_lib lib) || loaded) && safe lib loaded es
safe lib loaded (call free_driver ∷ es) =
    (not (lib_eq driver_lib lib) || loaded) && safe lib loaded es
safe lib loaded (call get_server ∷ es) =
    (not (lib_eq server_lib lib) || loaded) && safe lib loaded es
safe lib loaded (start_server ∷ es) = (not (lib_eq server_lib lib) || loaded) && safe lib loaded es
safe lib loaded (stop_server ∷ es) = (not (lib_eq server_lib lib) || loaded) && safe lib loaded es

-- What the run of the program needs for each of its steps
abbrev pub configured : Answers → Bool
configured a = a.finds_binary_dir && a.reads_config

abbrev pub driver_loads : Answers → Bool
driver_loads a =
    a.loads driver_lib
    && (a.has_function create_driver && (a.has_function free_driver && a.creates_driver))

-- The parts of the server answer true to all that its start asks of them.
abbrev pub server_starts : Answers → Bool
server_starts a = can_start a.parts true true new_smarty_server

-- What a run comes to: a failed ASSERT, or its exit code and whether it kept to loaded code of
-- server.so and of driver.so
abbrev pub RunsTo : (fails : Bool) → ℕ → (server driver : Bool) → Option (ℕ × List Event) → Type 0
RunsTo true code server driver r = r ≡ none
RunsTo false code server driver none = ⊥
RunsTo false code server driver (some r) =
    (r.0 ≡ code) × (safe server_lib false r.1 ≡ server) × (safe driver_lib false r.1 ≡ driver)

-- An ASSERT: server.so is loaded and its function is not there, or returns no object, or the server
-- does not start.
abbrev pub blocked : Answers → Bool
blocked a =
    configured a
    && (driver_loads a
        && (a.loads server_lib
            && not (a.has_function get_server && (a.gets_server && server_starts a))))

abbrev pub exit_code : Answers → ℕ
exit_code a =
    if not (configured a) then 1 else if driver_loads a && a.loads server_lib then 0 else 2
