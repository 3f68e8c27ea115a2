-- ===== src/Serving.antt =====
-- client_thread_t of src/server/client/client_thread.cpp: a thread that takes clients from the queue
-- one by one, makes a handler of the kind that the first packet asks for, and serves the client.
pub mod Clients
pub mod Stopping
use smarty.Base.{
  ℕ, Bool, true, false, not, List, [], ◌∷◌, ◌++◌, Option, none, some, Text, if◌then◌else◌,
}
use smarty.Protocol.{Packet, mobile_handshake_request, desktop_handshake_request}
use smarty.Protocol.Wire.{
  Serializer, Arrival, packet, unable_recv_data, invalid_packet_type, recv_packet,
}

-- The handler that a factory makes: create_mobile_handler or create_desktop_handler
pub data HandlerKind : Type 0 where
  mobile_handler desktop_handler : HandlerKind

-- The switch of create_client_handler has these two cases.
unfoldable pub handler_for : Packet → Option HandlerKind
handler_for (mobile_handshake_request password version) = some mobile_handler
handler_for (desktop_handshake_request password name index) = some desktop_handler
handler_for p = none

abbrev pub handshake_cases : List ℕ
handshake_cases = 0 ∷ 11 ∷ []

-- create_client_handler, for the bytes that the client sends
unfoldable pub create_client_handler : Serializer → Text → Option HandlerKind
unfolding handler_for
create_client_handler z bytes = elim (recv_packet z handshake_cases bytes) [
  | packet p rest ↦ handler_for p
  | unable_recv_data ↦ none
  | invalid_packet_type m ↦ none
]

-- A client from the queue: its socket, what it sends, and what the handshake of its handler returns
pub record Client : Type 0 where
  pub socket : ℕ
  pub bytes : Text
  pub shakes : Bool

pub data Action : Type 0 where
  make_handshake process_client : (socket : ℕ) → HandlerKind → Action
  finish_connection : (socket : ℕ) → Action

-- What a turn of the loop does once create_client_handler has returned
unfoldable pub serve_with : Option HandlerKind → (socket : ℕ) → (shakes : Bool) → List Action
serve_with none socket shakes = finish_connection socket ∷ []
serve_with (some kind) socket shakes =
    make_handshake socket kind
    ∷ (if not shakes
        then finish_connection socket ∷ []
        else process_client socket kind ∷ finish_connection socket ∷ [])

-- One turn of the loop
unfoldable pub serve : Serializer → Client → List Action
unfolding serve_with
serve z c = serve_with (create_client_handler z c.bytes) c.socket c.shakes

-- client_thread_t::do_run, for the clients that are taken before the thread is stopped
unfoldable pub do_run : Serializer → List Client → List Action
unfolding serve
do_run z [] = []
do_run z (c ∷ cs) = serve z c ++ do_run z cs
