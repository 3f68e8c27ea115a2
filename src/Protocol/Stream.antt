-- ===== src/Protocol/Stream.antt =====
-- A mobile client's connection as bytes: the RECV_PACKET_SWITCH of mobile_handler_t::process_client
-- (src/server/mobile/mobile_handler.cpp), called again and again.
use smarty.Base.{
  ℕ, zero, suc, ◌+◌, ◌<◌, ◌≡◌, ◌∙◌, refl, ap, arith, true, List, [], ◌∷◌, ◌++◌, Text, if◌then◌else◌,
  length, All,
}
use smarty.Protocol.{
  mobile_handshake_response, Packet, mobile_heartbeat_response, command_request, disconnect_request,
  config_update_request, desktop_command_request, server_command_request, update_modes_request,
  magic,
}
use smarty.Protocol.Wire.{
  Serializer, send, packet, unable_recv_data, invalid_packet_type, has_case, recv_packet,
}
use smarty.Protocol.RoundTrip.{IsFaithful, IsValid, received, receive-send}
use smarty.Connection.{Received, heartbeat_response, broken}

-- The cases of the loop
abbrev pub mobile_cases : List ℕ
mobile_cases = 6 ∷ 9 ∷ 13 ∷ 16 ∷ 4 ∷ 17 ∷ 7 ∷ []

-- A packet of one of the cases, that comes at time `now`, as the handler sees it
unfoldable pub to_received : ℕ → Packet → Received
to_received now (command_request c p) = Received.command_request c p
to_received now config_update_request = Received.config_update_request
to_received now (desktop_command_request c) = Received.desktop_command_request c
to_received now (server_command_request c p) = Received.server_command_request c p
to_received now mobile_heartbeat_response = heartbeat_response now
to_received now (update_modes_request s) = Received.update_modes_request s
to_received now disconnect_request = Received.disconnect_request
to_received now p = broken

-- What the loop receives from the n-th packet on, with readings of the clock, if nothing ends it
-- before an error does; the bytes end where the client closes the connection.
unfoldable pub read_packets : Serializer → (ℕ → ℕ) → (fuel n : ℕ) → Text → List Received
unfolding to_received
read_packets z clock zero n bytes = []
read_packets z clock (suc fuel) n bytes = elim (recv_packet z mobile_cases bytes) [
  | packet p rest ↦ to_received (clock n) p ∷ read_packets z clock fuel (n + 1) rest
  | unable_recv_data ↦ broken ∷ []
  | invalid_packet_type m ↦ broken ∷ []
]

abbrev pub send_all : Serializer → List Packet → Text
send_all z [] = []
send_all z (p ∷ ps) = (send z true true p).0 ++ send_all z ps

-- Each kind of request has a reception of its own, with the same contents; what is no request is an
-- error.
abbrev pub as_sent : ℕ → Packet → Received
as_sent now (command_request c p) = Received.command_request c p
as_sent now (desktop_command_request c) = Received.desktop_command_request c
as_sent now (server_command_request c p) = Received.server_command_request c p
as_sent now (update_modes_request s) = Received.update_modes_request s
as_sent now config_update_request = Received.config_update_request
as_sent now disconnect_request = Received.disconnect_request
as_sent now mobile_heartbeat_response = heartbeat_response now
as_sent now p = broken

to_received-as_sent : (now : ℕ) (p : Packet) → to_received now p ≡ as_sent now p
unfolding to_received
to_received-as_sent now (command_request c p) = refl
to_received-as_sent now (desktop_command_request c) = refl
to_received-as_sent now (server_command_request c p) = refl
to_received-as_sent now (update_modes_request s) = refl
to_received-as_sent now config_update_request = refl
to_received-as_sent now disconnect_request = refl
to_received-as_sent now mobile_heartbeat_response = refl
to_received-as_sent now p = refl

abbrev pub all_received : (ℕ → ℕ) → ℕ → List Packet → List Received
all_received clock n [] = broken ∷ []
all_received clock n (p ∷ ps) = as_sent (clock n) p ∷ all_received clock (n + 1) ps

-- A valid packet of one of the cases
abbrev pub IsRequest : Packet → Type 0
IsRequest p = IsValid p × (has_case (magic p) mobile_cases ≡ true)

to_received-received : (now : ℕ) (p : Packet) → to_received now (received 0 p) ≡ to_received now p
unfolding to_received
to_received-received now (mobile_handshake_response s l h e) = refl
to_received-received now p = refl

closed : (z : Serializer) → recv_packet z mobile_cases [] ≡ unable_recv_data
unfolding recv_packet
closed z = refl

arrival :
    (z : Serializer) (p : Packet) (rest : Text)
    → IsFaithful z
    → IsRequest p
    → recv_packet z mobile_cases ((send z true true p).0 ++ rest) ≡ packet (received 0 p) rest
arrival z p rest faithful request =
    (receive-send z faithful mobile_cases 0 0 p rest request.0).0
    ∙ ap (λ b. if b then packet (received 0 p) rest else invalid_packet_type (magic p)) request.1

-- With a serializer that reads back what it wrote, valid packets, each of a kind for which the loop
-- of a mobile client has a case, are received as they were sent, each as its own kind with its
-- contents unchanged, one after another and in order, a heartbeat response with its reading of the
-- clock; then the end of the connection is an error. The fuel is enough
-- if it exceeds the number of packets.
pub read_packets-send_all :
    (z : Serializer) (clock : ℕ → ℕ) (ps : List Packet) (fuel n : ℕ)
    → IsFaithful z
    → All IsRequest ps
    → length ps < fuel
    → read_packets z clock fuel n (send_all z ps) ≡ all_received clock n ps
unfolding read_packets
read_packets-send_all z clock ps zero n faithful valid low = absurd (omega arith)
read_packets-send_all z clock [] (suc fuel) n faithful valid low = rw (closed z, read_packets)
read_packets-send_all z clock (p ∷ ps) (suc fuel) n faithful valid low =
    rw (arrival z p (send_all z ps) faithful valid.0, read_packets)
      (rw (to_received-received (clock n) p, to_received-as_sent (clock n) p)
        (rw (read_packets-send_all z clock ps fuel (n + 1) faithful valid.1 (omega arith))))
