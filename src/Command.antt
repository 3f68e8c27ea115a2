-- ===== src/Command.antt =====
-- The commands that events and clients queue: src/server/command and the light objects of
-- src/server/device/light_object.h, light_object.cpp. A command is immutable after its creation, so
-- a `shared_ptr` to one is its value; the reference to a light object is the object's index in
-- `m_lights` of the event handler, which is resized before any command exists.
use smarty.Base.{ℕ, Bool}
use smarty.Common.{DeviceCommand}

-- mode_cmd_t
pub record ModeCmd : Type 0 where
  pub mode_bit : ℕ  -- uint
  pub on_off : Bool

-- The classes that implement `command_t::execute`. `fake` is the local class of
-- `event_handler_t::do_stop`.
pub data Command : Type 0 where
  device : DeviceCommand → (timeout light_object : ℕ) → Command
  mode : ModeCmd → (delay : ℕ) → Command
  fake : Command

-- light_object_t; time 0 stands for none.
pub record LightObject : Type 0 where
  pub turnoff_time : ℕ  -- time_t

unfoldable pub new_light_object : LightObject
new_light_object = record { turnoff_time = 0 }

unfoldable pub set_turnoff_time : ℕ → LightObject → LightObject
set_turnoff_time time l = record l { turnoff_time = time }

unfoldable pub clear_turnoff_time : LightObject → LightObject
clear_turnoff_time l = record l { turnoff_time = 0 }

unfoldable pub get_turnoff_timeout : LightObject → ℕ
get_turnoff_timeout l = l.turnoff_time
