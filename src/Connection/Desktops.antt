-- ===== src/Connection/Desktops.antt =====
-- The packets of a desktop client: process_client of src/server/desktop/desktop_handler.cpp. `none`
-- stands for undefined behaviour.
use smarty.Base.{
  ℕ, Bool, true, false, not, ◌||◌, ◌==◌, List, [], ◌∷◌, ◌++◌, Option, some, if◌then◌else◌, Text,
}
use smarty.Client.{MobileNotification}
use smarty.Handler.{◌>>=◌}
use smarty.Desktop.{DesktopInfoList, add_desktop, remove_desktop}
use smarty.Connection.{Output, notify_mobile_clients, by_desktops, all_of}

-- What the loop of a desktop client receives
pub data DesktopReceived : Type 0 where
  mobile_notification : MobileNotification → DesktopReceived
  desktop_heartbeat_response : (now desktop_index : ℕ) → DesktopReceived
  disconnect broken_packet : DesktopReceived

-- The loop of desktop_handler_t::process_client
unfoldable pub process_desktop_packets :
    ℕ → List DesktopReceived → DesktopInfoList → Option (DesktopInfoList × List Output × Bool)
process_desktop_packets socket [] m = some (m, [], true)
process_desktop_packets socket (mobile_notification n ∷ rs) m =
    process_desktop_packets socket rs m >>= λ r. some (r.0, notify_mobile_clients n ∷ r.1, r.2)
process_desktop_packets socket (desktop_heartbeat_response now index ∷ rs) m =
    process_desktop_packets socket rs (smarty.Desktop.set_heartbeat_lasttime now index m)
process_desktop_packets socket (disconnect ∷ rs) m =
    remove_desktop socket m >>= λ r. some (r.0, all_of by_desktops r.1, false)
process_desktop_packets socket (broken_packet ∷ rs) m =
    remove_desktop socket m >>= λ r. some (r.0, all_of by_desktops r.1, false)

-- `m_end_point.find( ':' )`
abbrev pub has_colon : Text → Bool
has_colon [] = false
has_colon (c ∷ cs) = c == b':' || has_colon cs

-- desktop_handler_t::process_client
unfoldable pub process_desktop_client :
    (now socket index : ℕ)
    → (name end_point : Text) → List DesktopReceived
    → DesktopInfoList
    → Option (DesktopInfoList × List Output × Bool)
process_desktop_client now socket index name end_point rs m =
    let (added, out) = add_desktop now socket index name m in
    if not (has_colon end_point)
    then some (m, [], false)
    else (process_desktop_packets socket rs added >>= λ r.
        some (r.0, all_of by_desktops out ++ r.1, r.2))
