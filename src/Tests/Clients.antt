-- ===== src/Tests/Clients.antt =====
-- Runs of the clients' registers (src/server/desktop and src/server/mobile).
use smarty.Base.{
  if◌then◌else◌, ◌&&◌, ℕ, ◌≡◌, arith, Bool, not, ◌==◌, List, [], ◌∷◌, none, some, codes,
}
use smarty.Client.{emn_desktop_connected, MobileNotification, DesktopCommandRequest, is_alive}
use smarty.Observer.{light_changed}
use smarty.Desktop.{
  DesktopInfo, DesktopInfoList, find, add_desktop, remove_desktop, check_liveness, send_heartbeat,
  send_command, set_heartbeat_lasttime, execute_desktop_command, on_desktop_connected,
  on_desktop_disconnected,
}
use smarty.Desktop.Table.{kept, Ascends}
use smarty.Desktop.Removal.{check_liveness_lem, execute_desktop_command_lem, has_failed}
use smarty.Mobile.{
  ClientInfo, MobileRegister, Packet, notification, modes_update, light_state, notify_clients,
  notify_modes_update, on_notice, send, close,
}
use smarty.Mobile.Broadcast.{broadcasts_lem}

abbrev office : DesktopInfo
office = record { socket = 11; name = codes "office"; last_time = 40 }

abbrev attic : DesktopInfo
attic = record { socket = 12; name = codes "attic"; last_time = 48 }

abbrev desktops : DesktopInfoList
desktops = (1, office) ∷ (4, attic) ∷ []

desktops-Ascends : Ascends 0 desktops
desktops-Ascends = (omega arith, (omega arith, tt))

check_liveness_lem_example :
    (check_liveness 50 desktops ≡ some ((4, attic) ∷ [], send_heartbeat 12 ∷ []))
    × (find 1 (kept 50 desktops) ≡ none)
    × Ascends 0 (kept 50 desktops)
unfolding find is_alive
check_liveness_lem_example = check_liveness_lem 50 1 desktops desktops-Ascends

abbrev refresh : DesktopCommandRequest
refresh = record { desktop_index = 4; command = 9; params = [] }

-- Only the socket 12 is broken.
abbrev not_12 : ℕ → Bool
not_12 socket = not (socket == 12)

execute_desktop_command_lem_example :
    (m' : DesktopInfoList) × (out : List smarty.Desktop.Output) × (execute_desktop_command not_12
        refresh desktops
      ≡ some (m', out))
    × ((i : ℕ)
        → find i m'
          ≡ (if i == 4 && has_failed not_12 (find 4 desktops) then none else find i desktops))
    × (out ≡ send_command 12 refresh ∷ on_desktop_disconnected 4 ∷ [])
unfolding find
execute_desktop_command_lem_example =
    execute_desktop_command_lem not_12 refresh desktops desktops-Ascends (omega arith)

abbrev phone : ClientInfo
phone = record { endpoint = codes "phone"; socket = 21; last_time = 40 }

abbrev tablet : ClientInfo
tablet = record { endpoint = codes "tablet"; socket = 12; last_time = 45 }

abbrev mobiles : MobileRegister
mobiles = record { client_list = phone ∷ tablet ∷ []; prev_lights = 0 }

abbrev connected : MobileNotification
connected = record { desktop_index = 1; type = emn_desktop_connected; params = codes "office" }

broadcasts_lem_example :
    let kept = phone ∷ [] in
    let out = λ (packet : Packet). send 21 packet ∷ send 12 packet ∷ close 12 ∷ [] in
    (notify_clients not_12 connected mobiles
      ≡ (record mobiles { client_list = kept }, out (notification connected)))
    × (notify_modes_update not_12 6 mobiles
        ≡ (record mobiles { client_list = kept }, out (modes_update 6)))
    × ((on_notice not_12 (light_changed 3) mobiles).0.client_list ≡ kept)
    × ((on_notice not_12 (light_changed 3) mobiles).1 ≡ out (light_state 3))
broadcasts_lem_example = broadcasts_lem not_12 connected 6 3 mobiles
