-- ===== src/Application.antt =====
-- smarty_app_t of src/smarty/smarty_app.cpp with the two libraries that it loads: library_intf_t
-- (src/common/library_intf.cpp), driver_module_t and server_module_t (src/smarty/driver_module.cpp,
-- server_module.cpp). `none` stands for a failed ASSERT. What the dynamic loader, the file system and the
-- functions in the libraries answer is an argument.
pub mod Modules
pub mod Run
pub mod Uses
use smarty.Base.{
  ℕ, Bool, true, false, not, ◌&&◌, ◌||◌, List, [], ◌∷◌, ◌++◌, Option, none, some, if◌then◌else◌,
}
use smarty.Common.{ErrorCode}

-- driver.so and server.so
pub data Lib : Type 0 where
  driver_lib server_lib : Lib

-- The functions that are looked up in them
pub data Function : Type 0 where
  create_driver free_driver get_server : Function

-- What is done with the libraries: `load` and `unload` are those that succeed; a call runs code of
-- the library, `start` and `stop` being those of the server object in server.so.
pub data Event : Type 0 where
  load unload delete : Lib → Event
  call : Function → Event
  start_server stop_server : Event

pub record Answers : Type 0 where
  -- FileUtils::GetBinaryDir and config_t::read_config
  pub finds_binary_dir : Bool
  pub reads_config : Bool
  pub loads : Lib → Bool
  pub unloads : Lib → Bool
  pub has_function : Function → Bool
  -- whether create_driver and get_server return an object
  pub creates_driver : Bool
  pub gets_server : Bool
  -- what the parts of the server answer to their calls in smarty_server_t::start
  pub parts : smarty.Startup.Answers

-- library_intf_t
pub record Library : Type 0 where
  pub has_lib : Bool
  pub loaded : Bool

unfoldable pub new_library : Library
new_library = record { has_lib = false; loaded = false }

-- library_intf_t::load
unfoldable pub load_library : Answers → Lib → Library → Library × List Event × Bool
load_library a lib l =
    if not (a.loads lib)
    then (record l { has_lib = false }, [], false)
    else (record l { has_lib = true }, load lib ∷ [], true)

-- What m_lib->unload( ) leaves
abbrev pub unload_events : Answers → Lib → List Event
unload_events a lib = if a.unloads lib then unload lib ∷ [] else []

-- library_intf_t::~library_intf_t
unfoldable pub destroy_library : Answers → Lib → Library → List Event
destroy_library a lib l = if l.has_lib then unload_events a lib ++ delete lib ∷ [] else []
