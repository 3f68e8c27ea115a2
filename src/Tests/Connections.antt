-- ===== src/Tests/Connections.antt =====
-- Runs of the connections of clients (src/server/mobile/mobile_handler.cpp,
-- src/server/desktop/desktop_handler.cpp).
use smarty.Base.{ℕ, Bool, not, ◌==◌, ◌≡◌, refl, true, false, List, [], ◌∷◌, none, some, codes}
use smarty.Handler.{EventHandler, new_event_handler}
use smarty.Client.{MobileNotification}
use smarty.Mobile.{ClientInfo, config_update, modes_update, notification}
use smarty.Desktop.{DesktopInfoList}
use smarty.Connection.{
  Peer, Shared, Received, config_update_request, command_request, heartbeat_response,
  disconnect_request, process_client, heartbeat_period, make_handshake, make_desktop_handshake,
  accepted, invalid_password, Output, by_register, by_server, execute,
}
use smarty.Connection.Desktops.{disconnect, broken_packet, process_desktop_packets}
use smarty.Server.{Server, Sent, connect_mobile}
use smarty.Server.Arrivals.{heard, heard-connect_mobile}
use smarty.Mobile.Liveness.{has_client}
use smarty.Connection.Handshake.{make_handshake_lem}
use smarty.Connection.Remaining.{IsLeftOf}
use smarty.Connection.Ending.{
  process_client-client_list, process_desktop_packets-none, after_notifications,
}

make_handshake_lem_example :
    (make_handshake true (some (codes "secret")) (some 3) 257 5 (codes "secret")
      ≡ (accepted 1 60 5 ∷ [], true))
    × (make_desktop_handshake true (some (codes "secret")) (codes "secret") ≡ (true ∷ [], true))
unfolding heartbeat_period smarty.Connection.adjust_heartbeat_period
make_handshake_lem_example =
    make_handshake_lem true (some (codes "secret")) (some 3) 257 5 (codes "secret")

-- Only the tablet's socket is broken.
abbrev not_12 : ℕ → Bool
not_12 socket = not (socket == 12)

abbrev phone : Peer
phone = record {
  socket = 21;
  end_point = codes "phone";
  net = not_12;
  has_lights = true;
  has_modes = true;
  config = codes "config";
  split = λ text. [];
}

abbrev tablet : ClientInfo
tablet = record { endpoint = codes "tablet"; socket = 12; last_time = 45 }

abbrev radio : ClientInfo
radio = record { endpoint = codes "radio"; socket = 13; last_time = 46 }

abbrev handler : EventHandler
handler = record (new_event_handler (record { lights = 0; buttons = 0; sensors = 0 })) {
  has_clients = true;
}

abbrev before : Shared
before = record {
  server = record {
    mobile_register = record { client_list = tablet ∷ radio ∷ []; prev_lights = 0 };
    desktop_register = [];
  };
  event_handler = handler;
}

-- The tablet does not take the new modes, which the phone asks for.
abbrev after : Shared
after = record {
  server = record {
    mobile_register = record { client_list = radio ∷ []; prev_lights = 0 };
    desktop_register = [];
  };
  event_handler = record handler { event_modes_bitset = 2 };
}

abbrev packets : List Received
packets =
    config_update_request
    ∷ command_request 1 4
    ∷ heartbeat_response 50
    ∷ Received.update_modes_request 2
    ∷ disconnect_request
    ∷ []

abbrev phone_outputs : List Output
phone_outputs =
    by_register (smarty.Mobile.send 21 (config_update (codes "config")))
    ∷ execute (record { cmd = 1; param = 4 })
    ∷ by_server (smarty.Server.to_mobile (smarty.Mobile.send 12 (modes_update 2)))
    ∷ by_server (smarty.Server.to_mobile (smarty.Mobile.close 12))
    ∷ by_server (smarty.Server.to_mobile (smarty.Mobile.send 13 (modes_update 2)))
    ∷ by_server (smarty.Server.to_mobile (smarty.Mobile.send 21 (modes_update 2)))
    ∷ []

phone_leaves : process_client phone 40 packets before ≡ some (after, phone_outputs, false)
unfolding process_client smarty.Connection.send_config_update_response smarty.Mobile.update_config
    connect_mobile smarty.Server.pass_back smarty.Mobile.add_client
    smarty.Server.on_execute_desktop_command smarty.Desktop.execute_command
    smarty.Connection.process_packets smarty.Connection.process_packet smarty.Handler.update_modes
    new_event_handler smarty.Mobile.remove_client smarty.Connection.pass_handler
    smarty.Handler.fire_mode_events smarty.Server.pass_on smarty.Mobile.erase_client
    smarty.Server.on_update_modes_request smarty.Desktop.refresh_desktops_info
    smarty.Mobile.notify_modes_update smarty.Mobile.broadcast smarty.Mobile.set_heartbeat_lasttime
    smarty.Mobile.touch_client
phone_leaves = refl

process_client-client_list_example :
    IsLeftOf not_12 (radio ∷ []) (tablet ∷ radio ∷ []) × (has_client 21 (radio ∷ []) ≡ false)
process_client-client_list_example =
    process_client-client_list phone 40 packets before after phone_outputs refl phone_leaves

abbrev desktops : DesktopInfoList
desktops = (1, record { socket = 11; name = codes "office"; last_time = 40 }) ∷ []

abbrev volume : MobileNotification
volume = record { desktop_index = 1; type = 3; params = codes "70" }

process_desktop_packets-none_example :
    (process_desktop_packets 11 (after_notifications (volume ∷ []) disconnect) desktops ≡ none)
    × (process_desktop_packets 11 (after_notifications (volume ∷ []) broken_packet) desktops ≡ none)
process_desktop_packets-none_example = process_desktop_packets-none 11 (volume ∷ []) desktops refl

abbrev server : Server
server = record {
  mobile_register = record { client_list = tablet ∷ []; prev_lights = 0 };
  desktop_register = desktops;
}

heard-connect_mobile_example :
    (s' : Server) × (out : List Sent) × (connect_mobile not_12 60 21 (codes "phone") server
      ≡ some (s', out))
    × (heard 21 out
        ≡ notification (record { desktop_index = 1; type = 1; params = codes "office" }) ∷ [])
    × (s'.desktop_register ≡ desktops)
heard-connect_mobile_example = heard-connect_mobile not_12 60 21 (codes "phone") server refl refl
