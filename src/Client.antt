-- ===== src/Client.antt =====
-- What the clients' registers share: src/common/client_protocol.h (the packets that the registers
-- send), src/server/client/client_info.h and client_heartbeat.h, client_heartbeat.cpp. A socket is
-- its address; whether a send succeeds is for the network to say.
use smarty.Base.{ℕ, ◌-◌, Bool, ltb, Text}

-- EDC_REFRESH_DESKTOPS; the command of a request is the number that came over the wire.
abbrev pub edc_refresh_desktops : ℕ
edc_refresh_desktops = 3

-- EMN_DESKTOP_CONNECTED and EMN_DESKTOP_DISCONNECTED of EMOBILENOTIFICATION, a number too
abbrev pub emn_desktop_connected : ℕ
emn_desktop_connected = 1

abbrev pub emn_desktop_disconnected : ℕ
emn_desktop_disconnected = 2

-- desktop_command_request_t
pub record DesktopCommandRequest : Type 0 where
  pub desktop_index : ℕ  -- uint
  pub command : ℕ  -- EDESKTOPCOMMAND
  pub params : Text

-- mobile_notification_t
pub record MobileNotification : Type 0 where
  pub desktop_index : ℕ  -- uint
  pub type : ℕ  -- EMOBILENOTIFICATION
  pub params : Text

-- CHECK_PERIOD_DEF, which is what `get_timeout` returns: seconds between two checks
abbrev pub get_timeout : ℕ
get_timeout = 5

-- `is_alive` of client_info_t and of desktop_info_t, at time `now`, which is not before `last_time`
unfoldable pub is_alive : ℕ → ℕ → ℕ → Bool
is_alive now last_time max_time = ltb (now - last_time) max_time
