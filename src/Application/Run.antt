-- ===== src/Application/Run.antt =====
-- smarty_app_t (src/smarty/smarty_app.cpp): a run from the start of the program to the destruction of
-- its object. The loop of do_run ends when a signal comes; what server and driver do meanwhile is
-- another part's.
use smarty.Base.{ℕ, Bool, true, false, not, List, [], ◌++◌, Option, none, some, if◌then◌else◌}
use smarty.Common.{ErrorCode, error_ok}
use smarty.Handler.{◌>>=◌}
use smarty.Application.{Event, Answers}
use smarty.Application.Modules.{
  DriverModule, new_driver_module, load_driver_module, unload_driver_module, destroy_driver_module,
  ServerModule, new_server_module, load_server_module, start_server_module, stop_server_module,
  unload_server_module, destroy_server_module,
}

-- smarty_app_t: `none` is a null pointer.
pub record App : Type 0 where
  pub driver : Option DriverModule
  pub server : Option ServerModule

unfoldable pub new_app : App
new_app = record { driver = none; server = none }

abbrev pub is_ok : ErrorCode → Bool
is_ok error_ok = true
is_ok _ = false

abbrev pub Loaded : Type 0
Loaded = Option (App × List Event × Bool)

-- load_configs
unfoldable pub load_configs : Answers → Bool
load_configs a = if not a.finds_binary_dir then false else a.reads_config

unfoldable pub load_driver : Answers → App → Loaded
unfolding load_driver_module new_driver_module
load_driver a app = load_driver_module a new_driver_module >>= λ r.
    some (record app { driver = some r.0 }, r.1, is_ok r.2)

unfoldable pub load_server : Answers → App → Loaded
unfolding load_server_module start_server_module new_server_module
load_server a app = load_server_module a new_server_module >>= λ r.
    if not (is_ok r.2)
    then some (record app { server = some r.0 }, r.1, false)
    else (start_server_module a r.0 >>= λ s.
        some (record app { server = some r.0 }, r.1 ++ s.0, is_ok s.1))

-- `load_driver( ) && load_server( )`
unfoldable pub load_plugins : Answers → App → Loaded
unfolding load_driver load_server
load_plugins a app = load_driver a app >>= λ d.
    if not d.2 then some d else (load_server a d.0 >>= λ s. some (s.0, d.1 ++ s.1, s.2))

unfoldable pub unload_driver : Answers → App → Option (App × List Event)
unfolding unload_driver_module destroy_driver_module
unload_driver a app = app.driver >>= λ m. unload_driver_module a m >>= λ u.
    some (record app { driver = none }, u.0 ++ destroy_driver_module a m)

unfoldable pub unload_server : Answers → App → Option (App × List Event)
unfolding stop_server_module unload_server_module destroy_server_module
unload_server a app = app.server >>= λ m. stop_server_module m >>= λ s.
    unload_server_module a m >>= λ u.
    some (record app { server = none }, s.0 ++ (u.0 ++ destroy_server_module a m))

unfoldable pub unload_plugins : Answers → App → Option (App × List Event)
unfolding unload_server unload_driver
unload_plugins a app =
    unload_server a app >>= λ s. unload_driver a s.0 >>= λ d. some (d.0, s.1 ++ d.1)

-- smarty_app_t::~smarty_app_t: the members go in the reverse order of their declaration.
unfoldable pub destroy_app : Answers → App → List Event
unfolding destroy_server_module destroy_driver_module
destroy_app a app =
    elim app.server [ none ↦ [] | some m ↦ destroy_server_module a m ]
    ++ elim app.driver [ none ↦ [] | some m ↦ destroy_driver_module a m ]

-- smarty_app_t::run and the end of `main`: the exit code, and all that was done with the libraries
unfoldable pub run : Answers → Option (ℕ × List Event)
unfolding load_configs load_plugins unload_plugins destroy_app new_app
run a =
    if not (load_configs a)
    then some (1, destroy_app a new_app)
    else (load_plugins a new_app >>= λ l.
        if not l.2
        then some (2, l.1 ++ destroy_app a l.0)
        else (unload_plugins a l.0 >>= λ u. some (0, l.1 ++ (u.1 ++ destroy_app a u.0))))
