-- ===== src/Common.antt =====
-- What every part shares: src/driver/driver.h, src/common/errors.h, src/common/mc_enum.h and the
-- enumerations of src/common/enums.h. Each enumeration is a data type with the source's values;
-- the command of a device is the byte that travels (`device_cmd_t`), so it stays a number.
pub mod Names
use smarty.Base.{ℕ, Bool, ◌/=◌, ◌||◌}

pub data ErrorCode : Type 0 where
  error_ok not_loaded operation_failed not_ready : ErrorCode

-- ECOMMAND
abbrev pub ec_status : ℕ
ec_status = 0

abbrev pub ec_turnon : ℕ
ec_turnon = 1

abbrev pub ec_turnoff : ℕ
ec_turnoff = 2

abbrev pub ec_turnall : ℕ
ec_turnall = 3

abbrev pub ec_turnequal : ℕ
ec_turnequal = 4

abbrev pub ec_turnoffbutton : ℕ
ec_turnoffbutton = 5

abbrev pub ec_turnonbutton : ℕ
ec_turnonbutton = 6

abbrev pub ec_max : ℕ
ec_max = 7

pub record DeviceCommand : Type 0 where
  pub cmd : ℕ  -- uchar
  pub param : ℕ  -- uint

pub record DeviceState : Type 0 where
  pub lights : ℕ  -- uint
  pub buttons : ℕ  -- uint
  pub sensors : ℕ  -- uint

-- device_state_t::operator!=
unfoldable pub state_ne : DeviceState → DeviceState → Bool
state_ne a b = a.lights /= b.lights || a.buttons /= b.buttons || a.sensors /= b.sensors

pub data TriggerState : Type 0 where
  low high : TriggerState

pub data DeviceEventType : Type 0 where
  sensor button light double_click unknown : DeviceEventType

pub data TargetType : Type 0 where
  light button sensor unknown : TargetType
