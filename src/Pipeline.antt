-- ===== src/Pipeline.antt =====
-- The way of a change of the hardware to the commands that it causes: the controller of
-- src/driver/device_controller.cpp tells the device of src/server/device/device.cpp, whose thread tells
-- the event handler of src/server/event/event_handler.cpp. The device is woken after each command,
-- before the next one.
pub mod Told
pub mod Agreement
use smarty.Base.{ℕ, List, [], ◌∷◌, ◌++◌, Option, some}
use smarty.Common.{DeviceCommand, DeviceState}
use smarty.Controller.{Controller, Driver, do_execute_command}
use smarty.Controller.Heard.{heard_from}
use smarty.Device.{Device, deliver_all, check_for_changes}
use smarty.Device.Observers.{heard_by}
use smarty.Handler.{EventHandler, Output, ◌>>=◌}
use smarty.Handler.Hearing.{hear_all}

-- The three copies of the state, with the addresses of the device and of the handler
pub record Pipeline : Type 0 where
  pub controller : Controller
  pub device : Device
  pub handler : EventHandler
  pub device_address : ℕ
  pub handler_address : ℕ

-- A command, with what it meets: the driver, the clock and the state that is not initialised
pub record Pass : Type 0 where
  pub command : DeviceCommand
  pub driver : Driver
  pub clock : ℕ → ℕ
  pub junk : DeviceState

-- The controller executes the command, the device hears of what has changed and checks, and the
-- handler hears of it.
unfoldable pub pass : Pass → Pipeline → Option (Pipeline × List Output)
pass q p =
    let (c, said) = do_execute_command q.driver q.clock q.junk q.command p.controller in
    let woken = (deliver_all (heard_from p.device_address said) p.device).0 in
    let (d, reported) = check_for_changes woken in
    hear_all (heard_by p.handler_address reported) p.handler >>= λ r.
    some (record p { controller = c; device = d; handler = r.0 }, r.1)

unfoldable pub passes : List Pass → Pipeline → Option (Pipeline × List Output)
passes [] p = some (p, [])
passes (q ∷ qs) p =
    pass q p >>= λ first. passes qs first.0 >>= λ rest. some (rest.0, first.1 ++ rest.1)
