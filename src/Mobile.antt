-- ===== src/Mobile.antt =====
-- mobile_register_t of src/server/mobile/mobile_register.h and mobile_register.cpp. What it sends is
-- a list of outputs, in order; `net` says which sockets take what is sent to them in one call.
pub mod Broadcast
pub mod Liveness
use smarty.Base.{
  ℕ, is_empty, ◌+◌, ◌*◌, Bool, true, false, not, ◌==◌, ◌/=◌, List, [], ◌∷◌, ◌++◌, Option, none,
  some, if◌then◌else◌, Text,
}
use smarty.Client.{
  edc_refresh_desktops, DesktopCommandRequest, MobileNotification, get_timeout, is_alive,
}
use smarty.Observer.{Notice, light_changed, button_pressed, sensor_triggered, double_click}

-- client_info_t
pub record ClientInfo : Type 0 where
  pub endpoint : Text
  pub socket : ℕ
  pub last_time : ℕ  -- time_t

pub record MobileRegister : Type 0 where
  pub client_list : List ClientInfo
  pub prev_lights : ℕ  -- the lights of m_prev_state

-- The packets that the register sends
pub data Packet : Type 0 where
  heartbeat_request : Packet
  notification : MobileNotification → Packet
  modes_update light_state : ℕ → Packet
  config_update : Text → Packet

pub data Output : Type 0 where
  send : ℕ → Packet → Output
  close : ℕ → Output
  -- m_clients.on_execute_desktop_command
  execute_desktop_command : DesktopCommandRequest → Output

unfoldable pub new_mobile_register : MobileRegister
new_mobile_register = record { client_list = []; prev_lights = 0 }

-- The loop of `notify_clients`, `notify_modes_update` and `update_clients`: a client whose send
-- fails is dropped, that is closed and erased.
unfoldable pub broadcast : (ℕ → Bool) → Packet → List ClientInfo → List ClientInfo × List Output
broadcast net packet [] = ([], [])
broadcast net packet (c ∷ cs) =
    let (kept, out) = broadcast net packet cs in
    if not (net c.socket)
    then (kept, send c.socket packet ∷ close c.socket ∷ out)
    else (c ∷ kept, send c.socket packet ∷ out)

unfoldable pub notify_clients :
    (ℕ → Bool) → MobileNotification → MobileRegister → MobileRegister × List Output
notify_clients net n r =
    let (kept, out) = broadcast net (notification n) r.client_list in
    (record r { client_list = kept }, out)

unfoldable pub notify_modes_update : (ℕ → Bool) → ℕ → MobileRegister → MobileRegister × List Output
notify_modes_update net modes r =
    let (kept, out) = broadcast net (modes_update modes) r.client_list in
    (record r { client_list = kept }, out)

unfoldable pub update_clients : (ℕ → Bool) → ℕ → MobileRegister → MobileRegister × List Output
update_clients net state r =
    let (kept, out) = broadcast net (light_state state) r.client_list in
    (record r { client_list = kept; prev_lights = state }, out)

-- The four callbacks of device_observer_t; three are stubs.
unfoldable pub on_notice : (ℕ → Bool) → Notice → MobileRegister → MobileRegister × List Output
unfolding update_clients
on_notice net (light_changed state) r =
    if not (is_empty r.client_list) then update_clients net state r else (r, [])
on_notice net (button_pressed state) r = (r, [])
on_notice net (sensor_triggered state) r = (r, [])
on_notice net (double_click pin) r = (r, [])

-- The loop of `check_liveness`; whether a heartbeat request goes out is not looked at.
unfoldable pub check_clients : ℕ → List ClientInfo → List ClientInfo × List Output
check_clients now [] = ([], [])
check_clients now (c ∷ cs) =
    let (kept, out) = check_clients now cs in
    if not (is_alive now c.last_time (2 * get_timeout))
    then (kept, close c.socket ∷ out)
    else (c ∷ kept, send c.socket heartbeat_request ∷ out)

unfoldable pub check_liveness : ℕ → MobileRegister → MobileRegister × List Output
check_liveness now r =
    let (kept, out) = check_clients now r.client_list in (record r { client_list = kept }, out)

-- update_config: whether the configuration has the nodes `lights` and `modes`, and the text that
-- the JSON writer makes of the two
unfoldable pub update_config : Bool → Bool → Text → (ℕ → Bool) → ℕ → List Output × Bool
update_config has_lights has_modes config net client =
    if not has_lights
    then ([], false)
    else if not has_modes
    then ([], false)
    else (send client (config_update config) ∷ [], net client)

-- add_client with on_client_connected
unfoldable pub add_client : ℕ → ℕ → Text → MobileRegister → MobileRegister × List Output
add_client now client end_point r = (
  record r {
    client_list =
        r.client_list ++ record { endpoint = end_point; socket = client; last_time = now } ∷ [];
  },
  execute_desktop_command
        (record { desktop_index = 0; command = edc_refresh_desktops; params = [] })
      ∷ [],
)

-- `find_mobile` and the erasure of what it finds
unfoldable pub erase_client : ℕ → List ClientInfo → List ClientInfo
erase_client s [] = []
erase_client s (c ∷ cs) = let rest = c ∷ erase_client s cs in if c.socket == s then cs else rest

unfoldable pub remove_client : ℕ → MobileRegister → MobileRegister
remove_client s r = record r { client_list = erase_client s r.client_list }

-- `find_mobile` and the write to what it finds
unfoldable pub touch_client : ℕ → ℕ → List ClientInfo → List ClientInfo
touch_client now s [] = []
touch_client now s (c ∷ cs) =
    let rest = c ∷ touch_client now s cs in
    if c.socket == s then record c { last_time = now } ∷ cs else rest

unfoldable pub set_heartbeat_lasttime : ℕ → ℕ → MobileRegister → MobileRegister
set_heartbeat_lasttime now s r = record r { client_list = touch_client now s r.client_list }
