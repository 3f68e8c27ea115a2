-- ===== src/Connection.antt =====
-- mobile_handler_t and desktop_handler_t (src/server/mobile/mobile_handler.cpp,
-- src/server/desktop/desktop_handler.cpp): the handshake of a client, and the loop over the packets
-- that it sends. The packets come as a list; the connection waits where the list ends. `none` stands
-- for a failed ASSERT or undefined behaviour.
pub mod Handshake
pub mod Desktops
pub mod Remaining
pub mod Ending
use smarty.Base.{
  ℕ, ◌%◌, Bool, true, false, not, ◌||◌, ◌==◌, ltb, List, [], ◌∷◌, ◌++◌, Option, none, some,
  if◌then◌else◌, Text, text_eq, length, get_or,
}
use smarty.Common.{DeviceCommand, ec_turnoff}
use smarty.Client.{DesktopCommandRequest, MobileNotification}
use smarty.Handler.{EventHandler, ◌>>=◌, get_modes_bitset, update_modes, push, execute_command}
use smarty.Server.{
  Server, Sent, on_update_modes_request, on_execute_desktop_command, connect_mobile,
}
use smarty.Creation.{create_device_command, add_command}
use smarty.Parser.Words.{atol}
use smarty.Mobile.{MobileRegister, add_client, remove_client, set_heartbeat_lasttime, update_config}
use smarty.Desktop.{DesktopInfoList, add_desktop, remove_desktop}

-- DEFAULT_HEARTBEAT_PERIOD, MIN_HEARTBEAT_PERIOD, MAX_HEARTBEAT_PERIOD
abbrev pub default_heartbeat_period : ℕ
default_heartbeat_period = 60

abbrev pub min_heartbeat_period : ℕ
min_heartbeat_period = 5

abbrev pub max_heartbeat_period : ℕ
max_heartbeat_period = 600

-- ADJUST_HEARTBEAT_PERIOD; a negative `int` is a word above the maximum, with the same outcome.
unfoldable pub adjust_heartbeat_period : ℕ → ℕ
adjust_heartbeat_period value =
    if ltb max_heartbeat_period value || ltb value min_heartbeat_period
    then default_heartbeat_period
    else value

-- The period of the configuration, if it has an integer there
unfoldable pub heartbeat_period : Option ℕ → ℕ
heartbeat_period none = default_heartbeat_period
heartbeat_period (some value) = adjust_heartbeat_period value

-- mobile_handshake_response_t; with an invalid password the other members are not set.
pub data MobileResponse : Type 0 where
  accepted : (light_state heartbeat_timeout event_modes : ℕ) → MobileResponse
  invalid_password : MobileResponse

-- What both handshakes begin with: the password, if the configuration has a string that is not empty
unfoldable pub server_password : Option Text → Option Text
server_password none = none
server_password (some []) = none
server_password (some (c ∷ cs)) = some (c ∷ cs)

-- The answer to a password, and whether it is ES_OK
unfoldable pub mobile_response : ℕ → ℕ → Option ℕ → Bool → MobileResponse
mobile_response lights modes period fits =
    if fits then accepted (lights % 256) (heartbeat_period period) modes else invalid_password

-- mobile_handler_t::make_handshake: what it sends, and what it returns if the socket takes it
unfoldable pub make_handshake :
    (sends : Bool)
    → (configured : Option Text) → (period : Option ℕ) → (lights modes : ℕ) → Text
    → List MobileResponse × Bool
make_handshake sends configured period lights modes password = elim (server_password configured) [
  | none ↦ ([], false)
  | some expected ↦
      (let fits = text_eq expected password in
        (mobile_response lights modes period fits ∷ [], if not sends then false else fits))
]

-- desktop_handler_t::make_handshake; the response holds but the state, here whether it is ES_OK.
unfoldable pub make_desktop_handshake :
    (sends : Bool) → (configured : Option Text) → Text → List Bool × Bool
make_desktop_handshake sends configured password = elim (server_password configured) [
  | none ↦ ([], false)
  | some expected ↦
      (let fits = text_eq expected password in (fits ∷ [], if not sends then false else fits))
]

-- What the loop of a mobile client receives; `broken` is a packet that cannot be read, or is not one
-- of these.
pub data Received : Type 0 where
  command_request : (command param : ℕ) → Received
  config_update_request : Received
  desktop_command_request : DesktopCommandRequest → Received
  server_command_request : (command : ℕ) → Text → Received
  heartbeat_response : (now : ℕ) → Received
  update_modes_request : ℕ → Received
  disconnect_request broken : Received

-- What it does to the parts around it
pub data Output : Type 0 where
  -- m_device.execute_command
  execute : DeviceCommand → Output
  -- m_clients.on_notify_mobile_clients
  notify_mobile_clients : MobileNotification → Output
  -- what the registers sent through `m_clients`, which is the network server
  by_server : Sent → Output
  -- what an operation of the event handler, of a register put out
  by_handler : smarty.Handler.Output → Output
  by_register : smarty.Mobile.Output → Output
  by_desktops : smarty.Desktop.Output → Output

abbrev pub all_of {ℓ} : {A : Type ℓ} → (A → Output) → List A → List Output
all_of f [] = []
all_of f (x ∷ xs) = f x ∷ all_of f xs

-- The client's side: its socket and end point, which sockets take what is sent to them, the
-- configuration as `update_config` reads it, and the split of a text at colons (`StrUtils::split`),
-- which the repository uses and does not hold.
pub record Peer : Type 0 where
  pub socket : ℕ
  pub end_point : Text
  pub net : ℕ → Bool
  pub has_lights : Bool
  pub has_modes : Bool
  pub config : Text
  pub split : Text → List Text

pub record Shared : Type 0 where
  pub server : Server
  pub event_handler : EventHandler

-- add_command_delay
unfoldable pub add_command_delay : (Text → List Text) → Text → EventHandler → Option (List Output)
add_command_delay split params h =
    let options = split params in
    if length options == 2
    then (create_device_command (record { cmd = ec_turnoff; param = atol (get_or options 0 []) })
          (atol (get_or options 1 [])) h
        >>= λ c. some (by_handler (add_command c) ∷ []))
    else none

-- add_server_command with add_command_light, which is an ASSERT
unfoldable pub add_server_command :
    (Text → List Text) → ℕ → Text → EventHandler → Option (List Output)
add_server_command split command params h =
    if command == 0
    then add_command_delay split params h
    else if command == 1
    then none
    else some []

-- send_config_update_response
unfoldable pub send_config_update_response : Peer → List smarty.Mobile.Output × Bool
send_config_update_response peer =
    update_config peer.has_lights peer.has_modes peer.config peer.net peer.socket

-- Another register of mobile clients
abbrev pub with_mobile : (MobileRegister → MobileRegister) → Shared → Shared
with_mobile f s = record s {
  server = record (s.server) { mobile_register = f s.server.mobile_register };
}

-- What the event handler puts out: the new modes go through the network server to all clients.
unfoldable pub pass_handler :
    (ℕ → Bool) → List smarty.Handler.Output → Server → Server × List Output
pass_handler net [] s = (s, [])
pass_handler net (smarty.Handler.update_modes_request bitset ∷ os) s =
    let (s', now) = on_update_modes_request net bitset s in
    let (s'', later) = pass_handler net os s' in (s'', all_of by_server now ++ later)
pass_handler net (push c ∷ os) s =
    let (s', later) = pass_handler net os s in (s', by_handler (push c) ∷ later)
pass_handler net (execute_command cmd ∷ os) s =
    let (s', later) = pass_handler net os s in (s', by_handler (execute_command cmd) ∷ later)

-- One packet: the new state, the outputs, and whether the loop goes on
unfoldable pub process_packet : Peer → Received → Shared → Option (Shared × List Output × Bool)
process_packet peer (command_request command param) s =
    some (s, execute (record { cmd = command; param = param }) ∷ [], true)
process_packet peer Received.config_update_request s =
    let (out, done) = send_config_update_response peer in
    some (
      if not done
      then (with_mobile (remove_client peer.socket) s, all_of by_register out, false)
      else (s, all_of by_register out, true))
process_packet peer (desktop_command_request c) s =
    on_execute_desktop_command peer.net c s.server >>= λ r.
    some (record s { server = r.0 }, all_of by_server r.1, true)
process_packet peer (server_command_request command params) s =
    add_server_command peer.split command params s.event_handler >>= λ out. some (s, out, true)
process_packet peer (heartbeat_response now) s =
    some (with_mobile (set_heartbeat_lasttime now peer.socket) s, [], true)
process_packet peer (Received.update_modes_request state) s =
    update_modes state s.event_handler >>= λ r.
    let (server, out) = pass_handler peer.net r.1 s.server in
    some (record { server = server; event_handler = r.0 }, out, true)
process_packet peer disconnect_request s =
    some (with_mobile (remove_client peer.socket) s, [], false)
process_packet peer broken s = some (with_mobile (remove_client peer.socket) s, [], false)

-- The loop of `process_client`; the last component says whether it still waits for a packet.
unfoldable pub process_packets :
    Peer → List Received → Shared → Option (Shared × List Output × Bool)
process_packets peer [] s = some (s, [], true)
process_packets peer (r ∷ rs) s = process_packet peer r s >>= λ first.
    if first.2
    then (process_packets peer rs first.0 >>= λ rest. some (rest.0, first.1 ++ rest.1, rest.2))
    else some first

-- mobile_handler_t::process_client: a request for the configuration comes first
-- (`update_mobile_config`); `now` is the time at which the client is added.
unfoldable pub process_client :
    Peer → ℕ → List Received → Shared → Option (Shared × List Output × Bool)
process_client peer now [] s = some (s, [], true)
process_client peer now (Received.config_update_request ∷ rs) s =
    let (sent, done) = send_config_update_response peer in
    if not done
    then some (s, all_of by_register sent, false)
    else (connect_mobile peer.net now peer.socket peer.end_point s.server >>= λ added.
        process_packets peer rs (record s { server = added.0 }) >>= λ r.
        some (r.0, all_of by_register sent ++ all_of by_server added.1 ++ r.1, r.2))
process_client peer now (r ∷ rs) s = some (s, [], false)
