-- ===== src/Serving/Clients.antt =====
-- Which clients a thread serves (src/server/client/client_thread.cpp).
use smarty.Base.{
  ℕ, ◌≡◌, ◌∙◌, refl, ap, Bool, true, false, List, [], ◌∷◌, ◌++◌, Option, none, some, Text,
  if◌then◌else◌,
}
use smarty.Protocol.{
  Packet, mobile_handshake_request, desktop_handshake_request, mobile_handshake_response, magic,
}
use smarty.Protocol.Wire.{
  Serializer, send, Arrival, packet, unable_recv_data, invalid_packet_type, has_case, recv_packet,
}
use smarty.Protocol.RoundTrip.{IsFaithful, IsValid, received, receive-send}
use smarty.Serving.{
  serve_with, HandlerKind, mobile_handler, desktop_handler, handler_for, handshake_cases,
  create_client_handler, Client, Action, make_handshake, process_client, finish_connection, serve,
  do_run,
}

-- A client that has sent a packet, with anything behind it
pub record Visitor : Type 0 where
  pub socket : ℕ
  pub first : Packet
  pub rest : Text
  pub shakes : Bool

abbrev pub client_of : Serializer → Visitor → Client
client_of z v = record {
  socket = v.socket;
  bytes = (send z true true v.first).0 ++ v.rest;
  shakes = v.shakes;
}

abbrev pub clients_of : Serializer → List Visitor → List Client
clients_of z [] = []
clients_of z (v ∷ vs) = client_of z v ∷ clients_of z vs

-- The sockets that are closed, and those that are served
abbrev pub closed : List Action → List ℕ
closed [] = []
closed (make_handshake s k ∷ acts) = closed acts
closed (process_client s k ∷ acts) = closed acts
closed (finish_connection s ∷ acts) = s ∷ closed acts

abbrev pub served : List Action → List (ℕ × HandlerKind)
served [] = []
served (make_handshake s k ∷ acts) = served acts
served (process_client s k ∷ acts) = (s, k) ∷ served acts
served (finish_connection s ∷ acts) = served acts

abbrev pub sockets : List Visitor → List ℕ
sockets [] = []
sockets (v ∷ vs) = v.socket ∷ sockets vs

-- Those that begin with a request for a handshake, and whose handshake succeeds
abbrev pub with_welcome :
    Option HandlerKind → (shakes : Bool) → ℕ → List (ℕ × HandlerKind) → List (ℕ × HandlerKind)
with_welcome none shakes socket others = others
with_welcome (some kind) true socket others = (socket, kind) ∷ others
with_welcome (some kind) false socket others = others

-- The kind of client that a packet introduces: one of the phone's or one of the desktop's handshake
abbrev pub asks_for : Packet → Option HandlerKind
asks_for (mobile_handshake_request password version) = some mobile_handler
asks_for (desktop_handshake_request password name index) = some desktop_handler
asks_for p = none

handler_for-asks : (p : Packet) → handler_for p ≡ asks_for p
unfolding handler_for
handler_for-asks (mobile_handshake_request password version) = refl
handler_for-asks (desktop_handshake_request password name index) = refl
handler_for-asks p = refl

abbrev pub welcome : List Visitor → List (ℕ × HandlerKind)
welcome [] = []
welcome (v ∷ vs) = with_welcome (asks_for v.first) v.shakes v.socket (welcome vs)

abbrev pub AllValid : List Visitor → Type 0
AllValid [] = Unit
AllValid (v ∷ vs) = IsValid v.first × AllValid vs

handler_for-received :
    (p : Packet)
    → (if has_case (magic p) handshake_cases then handler_for (received 0 p) else none)
      ≡ handler_for p
unfolding handler_for magic
handler_for-received (mobile_handshake_response s l h e) = refl
handler_for-received p = refl

abbrev handler_of : Arrival → Option HandlerKind
handler_of (packet p rest) = handler_for p
handler_of unable_recv_data = none
handler_of (invalid_packet_type m) = none

create_client_handler_lem :
    (z : Serializer) (bytes : Text)
    → create_client_handler z bytes ≡ handler_of (recv_packet z handshake_cases bytes)
unfolding create_client_handler
create_client_handler_lem z bytes =
    elim (recv_packet z handshake_cases bytes)
      as (λ a.
        (elim a as (λ _. Option HandlerKind) [
          | packet p rest ↦ handler_for p
          | unable_recv_data ↦ none
          | invalid_packet_type m ↦ none
        ])
        ≡ handler_of a) [
          | packet p rest ↦ refl
          | unable_recv_data ↦ refl
          | invalid_packet_type m ↦ refl
        ]

handler_of-if :
    (known : Bool) (p : Packet) (rest : Text) (m : ℕ)
    → handler_of (if known then packet p rest else invalid_packet_type m)
      ≡ (if known then handler_for p else none)
handler_of-if true p rest m = refl
handler_of-if false p rest m = refl

create_client_handler-send :
    (z : Serializer) (p : Packet) (rest : Text)
    → IsFaithful z
    → IsValid p
    → create_client_handler z ((send z true true p).0 ++ rest) ≡ handler_for p
create_client_handler-send z p rest faithful valid =
    create_client_handler_lem z ((send z true true p).0 ++ rest)
    ∙ ap handler_of (receive-send z faithful handshake_cases 0 0 p rest valid).0
    ∙ handler_of-if (has_case (magic p) handshake_cases) (received 0 p) rest (magic p)
    ∙ handler_for-received p

serve_with_lem :
    (handler : Option HandlerKind) (socket : ℕ) (shakes : Bool) (acts : List Action)
    → (closed (serve_with handler socket shakes ++ acts) ≡ socket ∷ closed acts)
      × (served (serve_with handler socket shakes ++ acts)
          ≡ with_welcome handler shakes socket (served acts))
unfolding serve_with
serve_with_lem none socket shakes acts = (refl, refl)
serve_with_lem (some kind) socket true acts = (refl, refl)
serve_with_lem (some kind) socket false acts = (refl, refl)

-- With a serializer that reads back what it wrote, and clients whose first packet is valid, whatever
-- follows it: a thread closes the connection of every client that it takes, once and in order, and it
-- serves exactly those whose first packet is a request for the handshake of a mobile client or of a
-- desktop, and whose handshake succeeds, the first with a mobile handler, the second with a desktop
-- handler.
pub served-do_run :
    (z : Serializer) (vs : List Visitor)
    → IsFaithful z
    → AllValid vs
    → (closed (do_run z (clients_of z vs)) ≡ sockets vs)
      × (served (do_run z (clients_of z vs)) ≡ welcome vs)
unfolding do_run serve
served-do_run z [] faithful valid = (refl, refl)
served-do_run z (v ∷ vs) faithful valid =
    let rest = served-do_run z vs faithful valid.1 in
    let one = serve_with_lem (asks_for v.first) v.socket v.shakes (do_run z (clients_of z vs)) in
    rw (create_client_handler-send z v.first v.rest faithful valid.0, handler_for-asks v.first)
      (
        one.0 ∙ ap (λ (t : List ℕ). v.socket ∷ t) rest.0,
        one.1 ∙ ap (λ t. with_welcome (asks_for v.first) v.shakes v.socket t) rest.1,
      )
