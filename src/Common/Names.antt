-- ===== src/Common/Names.antt =====
-- The name tables of src/common/enums.cpp and the searches through them.
pub mod Laws
use smarty.Base.{
  ℕ, zero, suc, ◌+◌, Bool, List, [], ◌∷◌, Text, codes, text_eq, get_or, leb, if◌then◌else◌,
}
use smarty.Common.{DeviceEventType, TargetType, ec_max}

-- g_aszMicrocontrollerCommandNames
abbrev pub mc_command_names : List Text
mc_command_names =
    codes "STATUS"
    ∷ codes "TURN ON"
    ∷ codes "TURN OFF"
    ∷ codes "TURN ALL"
    ∷ codes "TURN EQUAL"
    ∷ codes "TURN OFF BUTTON"
    ∷ codes "TURN ON BUTTON"
    ∷ []

unfoldable pub get_mc_command_name : ℕ → Text
get_mc_command_name cmd =
    if leb ec_max cmd then codes "invalid command" else get_or mc_command_names cmd []

abbrev pub edc_max : ℕ
edc_max = 10

-- g_aszDesktopCommandNames
abbrev pub desktop_command_names : List Text
desktop_command_names =
    codes "display off"
    ∷ codes "display on"
    ∷ codes "sound off"
    ∷ codes "refresh desktops"
    ∷ codes "turn off"
    ∷ codes "lock desktop"
    ∷ codes "get play list"
    ∷ codes "play track"
    ∷ codes "player pause"
    ∷ codes "change volume"
    ∷ []

unfoldable pub get_desktop_command_name : ℕ → Text
get_desktop_command_name cmd =
    if leb edc_max cmd then codes "invalid command" else get_or desktop_command_names cmd []

abbrev pub emn_min : ℕ
emn_min = 0

abbrev pub emn_max : ℕ
emn_max = 11

-- g_aszMobileNotificationNames
abbrev pub mobile_notification_names : List Text
mobile_notification_names =
    codes "invalid type"
    ∷ codes "desktop connected"
    ∷ codes "desktop disconnected"
    ∷ codes "volume changed"
    ∷ codes "desktop locked"
    ∷ codes "display off"
    ∷ codes "shutdown"
    ∷ codes "reconnected"
    ∷ codes "play list"
    ∷ codes "track changed"
    ∷ codes "volume changed"
    ∷ []

unfoldable pub get_mobile_notification_name : ℕ → Text
get_mobile_notification_name type =
    get_or mobile_notification_names (if leb emn_max type then emn_min else type) []

abbrev pub sc_unknown : ℕ
sc_unknown = 2

abbrev pub sc_max : ℕ
sc_max = 3

-- g_aszServerCommandNames
abbrev pub server_command_names : List Text
server_command_names = codes "DELAYED" ∷ codes "LIGHT" ∷ codes "UNKNOWN" ∷ []

unfoldable pub get_server_command_name : ℕ → Text
get_server_command_name type =
    get_or server_command_names (if leb sc_max type then sc_unknown else type) []

-- g_aszDeviceEventTypeNames
abbrev pub device_event_type_names : List Text
device_event_type_names =
    codes "sensor" ∷ codes "button" ∷ codes "light" ∷ codes "double click" ∷ []

-- g_aszTargetTypeNames
abbrev pub target_type_names : List Text
target_type_names = codes "light" ∷ codes "button" ∷ codes "sensor" ∷ []

-- The loop of both searches: the first index from `idx` on whose name fits, or where it ends.
unfoldable pub index_by_name : List Text → ℕ → Text → ℕ
index_by_name [] idx name = idx
index_by_name (n ∷ ns) idx name =
    let rest = index_by_name ns (idx + 1) name in if text_eq n name then idx else rest

-- The cast `(DeviceEventType)idx`
abbrev pub device_event_type_of : ℕ → DeviceEventType
device_event_type_of zero = DeviceEventType.sensor
device_event_type_of (suc zero) = DeviceEventType.button
device_event_type_of (suc (suc zero)) = DeviceEventType.light
device_event_type_of (suc (suc (suc zero))) = DeviceEventType.double_click
device_event_type_of _ = DeviceEventType.unknown

unfoldable pub device_event_type_by_name : Text → DeviceEventType
unfolding index_by_name
device_event_type_by_name name = device_event_type_of (index_by_name device_event_type_names 0 name)

-- The cast `(TargetType)idx`
abbrev pub target_type_of : ℕ → TargetType
target_type_of zero = TargetType.light
target_type_of (suc zero) = TargetType.button
target_type_of (suc (suc zero)) = TargetType.sensor
target_type_of _ = TargetType.unknown

unfoldable pub target_type_by_name : Text → TargetType
unfolding index_by_name
target_type_by_name name = target_type_of (index_by_name target_type_names 0 name)
