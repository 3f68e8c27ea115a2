-- ===== src/Controller/Kept.antt =====
-- What a command leaves as it was in device_controller_t (src/driver/device_controller.cpp).
use smarty.Base.{ℕ, ◌≡◌, arith, bit_xor, length}
use smarty.Common.{DeviceCommand, DeviceState}
use smarty.Controller.{
  Controller, Driver, check_clicks, update_light_times, take_state, execute_stage,
  do_execute_command, max_light_count,
}
use smarty.Controller.Clicks.{update_times_from_lem, length-new_times}

-- The observers, and the number of the times
abbrev IsKept : Controller → Controller → Type 0
IsKept c c' = (c'.observers ≡ c.observers) × (length c'.light_times ≡ max_light_count)

module _ (c : Controller) (eight : length c.light_times ≡ max_light_count) where
  check_clicks-IsKept : (clock : ℕ → ℕ) (lights : ℕ) → IsKept c (check_clicks clock lights c).0
  unfolding check_clicks update_light_times
  check_clicks-IsKept clock lights =
      let bitset = bit_xor c.device_state.lights lights in
      rw (update_times_from_lem clock bitset c.observers 0 c.light_times (omega arith))
        (ground (arith, length-new_times clock bitset 0 c.light_times, eight))

  take_state-IsKept : (clock : ℕ → ℕ) (state : DeviceState) → IsKept c (take_state clock state c).0
  unfolding take_state
  take_state-IsKept clock state = check_clicks-IsKept clock state.lights

  execute_stage-IsKept :
      (driver : Driver) (clock : ℕ → ℕ) (n : ℕ) (cmd : DeviceCommand) (state : DeviceState)
      → IsKept c (execute_stage driver clock n cmd state c).0
  unfolding execute_stage
  execute_stage-IsKept driver clock n cmd state =
      ground (arith, eight, take_state-IsKept clock (driver n cmd state).1)

  -- A command leaves the observers as they are, and a time for each light.
  pub do_execute_command-IsKept :
      (driver : Driver) (clock : ℕ → ℕ) (junk : DeviceState) (command : DeviceCommand)
      → IsKept c (do_execute_command driver clock junk command c).0
  unfolding do_execute_command
  do_execute_command-IsKept driver clock junk command =
      let low = record command { param = 0x0F } in
      let high = record command { param = 0xF0 } in
      ground (
        arith,
        execute_stage-IsKept driver clock 0 command junk,
        execute_stage-IsKept driver clock 1 high (driver 0 low junk).1,
      )
