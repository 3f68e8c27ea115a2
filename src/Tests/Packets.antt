-- ===== src/Tests/Packets.antt =====
-- A concrete serializer, and runs of the protocol (src/common/client_protocol.h) and of the client threads
-- (src/server/client/client_thread.cpp).
use smarty.Base.{
  ℕ, zero, suc, ◌+◌, ◌*◌, ◌/◌, ◌%◌, ◌<◌, ◌≡◌, refl, arith, true, false, List, [], ◌∷◌, ◌++◌, Option,
  none, some, Text, codes, if◌then◌else◌, length, All, ◌==◌,
}
use smarty.Handler.{◌>>=◌}
use smarty.Protocol.{
  Packet, Field, string, uint, uchar, enum, FieldType, a_string, a_uint, a_uchar, an_enum, magic,
  fields, layout, assemble,
}
use smarty.Protocol.Wire.{
  Serializer, send, recv, recv_packet, packet, invalid_packet_type, has_case,
}
use smarty.Protocol.RoundTrip.{IsFaithful, received, receive-send}
use smarty.Protocol.Stream.{IsRequest, read_packets, send_all, all_received, read_packets-send_all}
use smarty.Serving.{mobile_handler, handler_for, do_run}
use smarty.Serving.Clients.{
  Visitor, clients_of, AllValid, closed, served, sockets, welcome, served-do_run,
}

abbrev word : ℕ → Text
word n = n % 256 ∷ n / 256 % 256 ∷ n / 65536 % 256 ∷ n / 16777216 % 256 ∷ []

abbrev read_word : Text → Option (ℕ × Text)
read_word (a ∷ b ∷ c ∷ d ∷ rest) = some (a + 256 * b + 65536 * c + 16777216 * d, rest)
read_word _ = none

abbrev read_text : ℕ → Text → Option (Text × Text)
read_text zero bytes = some ([], bytes)
read_text (suc n) [] = none
read_text (suc n) (c ∷ cs) = read_text n cs >>= λ r. some (c ∷ r.0, r.1)

abbrev put_field : Field → Text
put_field (string t) = word (length t) ++ t
put_field (uint n) = word n
put_field (uchar n) = n ∷ []
put_field (enum n) = word n

abbrev get_field : FieldType → Text → Option (Field × Text)
get_field a_string bytes =
    read_word bytes >>= λ n. read_text n.0 n.1 >>= λ t. some (string t.0, t.1)
get_field a_uint bytes = read_word bytes >>= λ n. some (uint n.0, n.1)
get_field a_uchar [] = none
get_field a_uchar (c ∷ cs) = some (uchar c, cs)
get_field an_enum bytes = read_word bytes >>= λ n. some (enum n.0, n.1)

-- Numbers and lengths as four bytes, the lowest first
abbrev pub little_endian : Serializer
little_endian = record { put = put_field; get = get_field }

word-value :
    (n : ℕ)
    → n < 4294967296
    → n % 256 + 256 * (n / 256 % 256) + 65536 * (n / 65536 % 256) + 16777216 * (n / 16777216 % 256)
      ≡ n
word-value n h = omega arith

read_text-append : (t rest : Text) → read_text (length t) (t ++ rest) ≡ some (t, rest)
read_text-append [] rest = refl
read_text-append (c ∷ t) rest = rw (read_text-append t rest)

pub little_endian-IsFaithful : IsFaithful little_endian
little_endian-IsFaithful (string t) rest h =
    rw (word-value (length t) h) (rw (read_text-append t rest))
little_endian-IsFaithful (uint n) rest h = rw (word-value n h)
little_endian-IsFaithful (uchar n) rest h = refl
little_endian-IsFaithful (enum n) rest h = rw (word-value n h)

abbrev request : Packet
request = Packet.mobile_handshake_request (codes "pw") 3

abbrev response : Packet
response = Packet.mobile_handshake_response 0 5 60 1

-- The heartbeat timeout of 60 seconds does not arrive.
response_arrives :
    recv_packet little_endian (1 ∷ []) (send little_endian true true response).0
    ≡ packet (Packet.mobile_handshake_response 0 5 0 1) []
unfolding recv_packet send magic fields layout assemble
response_arrives = refl

receive-send_example :
    (recv_packet little_endian (0 ∷ 11 ∷ []) ((send little_endian true true request).0 ++ 7 ∷ [])
      ≡ (if has_case (magic request) (0 ∷ 11 ∷ [])
          then packet (received 0 request) (7 ∷ [])
          else invalid_packet_type (magic request)))
    × (recv little_endian 0 11 ((send little_endian true true request).0 ++ 7 ∷ [])
        ≡ (if magic request == 11 then some (received 0 request, 7 ∷ []) else none))
receive-send_example =
    receive-send little_endian little_endian-IsFaithful (0 ∷ 11 ∷ []) 0 11 request (7 ∷ [])
      (unfold fields in omega arith)

abbrev session : List Packet
session =
    Packet.command_request 1 4 ∷ Packet.mobile_heartbeat_response ∷ Packet.disconnect_request ∷ []

session-IsRequest : All IsRequest session
unfolding fields magic
session-IsRequest = ((omega arith, refl), ((tt, refl), ((tt, refl), tt)))

read_packets-send_all_example :
    read_packets little_endian (λ n. n) 4 0 (send_all little_endian session)
    ≡ all_received (λ n. n) 0 session
read_packets-send_all_example =
    read_packets-send_all little_endian (λ n. n) session 4 0 little_endian-IsFaithful
      session-IsRequest (omega arith)

-- A mobile client, a client that sends another packet first, and a desktop whose handshake fails
abbrev visitors : List Visitor
visitors =
    record { socket = 4; first = request; rest = []; shakes = true }
    ∷ record { socket = 5; first = Packet.state_request; rest = []; shakes = true }
    ∷ record {
      socket = 6;
      first = Packet.desktop_handshake_request (codes "pw") (codes "pc") 1;
      rest = [];
      shakes = false;
    }
    ∷ []

visitors-AllValid : AllValid visitors
unfolding fields
visitors-AllValid = (omega arith, (tt, (omega arith, tt)))

one_is_welcome : welcome visitors ≡ (4, mobile_handler) ∷ []
unfolding handler_for
one_is_welcome = refl

served-do_run_example :
    (closed (do_run little_endian (clients_of little_endian visitors)) ≡ sockets visitors)
    × (served (do_run little_endian (clients_of little_endian visitors)) ≡ welcome visitors)
served-do_run_example =
    served-do_run little_endian visitors little_endian-IsFaithful visitors-AllValid
