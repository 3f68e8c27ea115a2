-- ===== src/Protocol/Wire.antt =====
-- Sending and receiving of packets: packet_base_t and RECV_PACKET_SWITCH of
-- src/common/client_protocol.h. The serializer of a member (`struct_serializer_ms.h`), which the
-- repository uses and does not hold, is a parameter; a connection is the bytes that are still to come.
use smarty.Base.{
  ℕ, ◌+◌, ◌*◌, ◌/◌, ◌%◌, Bool, true, false, not, ◌||◌, ◌==◌, List, [], ◌∷◌, ◌++◌, Option, none,
  some, Text, if◌then◌else◌,
}
use smarty.Handler.{◌>>=◌}
use smarty.Protocol.{Packet, magic, Field, FieldType, fields, layout, assemble}

-- How a member becomes bytes, and is read from the bytes that have come
pub record Serializer : Type 0 where
  pub put : Field → Text
  pub get : FieldType → Text → Option (Field × Text)

-- A number of type EPACKETMAGIC as the four bytes of its object, the lowest first
unfoldable pub magic_bytes : ℕ → Text
magic_bytes m = m % 256 ∷ m / 256 % 256 ∷ m / 65536 % 256 ∷ m / 16777216 % 256 ∷ []

-- recv( &packet_magic, sizeof( EPACKETMAGIC ) ); fewer bytes are an error.
unfoldable pub recv_magic : Text → Option (ℕ × Text)
recv_magic (a ∷ b ∷ c ∷ d ∷ rest) = some (a + 256 * b + 65536 * c + 16777216 * d, rest)
recv_magic _ = none

-- What RECV_PACKET_SWITCH comes to: a case, with the bytes behind the packet, or an error
pub data Arrival : Type 0 where
  packet : Packet → Text → Arrival
  unable_recv_data : Arrival
  invalid_packet_type : ℕ → Arrival

-- `case`: is there one for this number?
abbrev pub has_case : ℕ → List ℕ → Bool
has_case m [] = false
has_case m (c ∷ cs) = m == c || has_case m cs

module _ (z : Serializer) where
  -- The members one after another
  unfoldable pub put_all : List Field → Text
  put_all [] = []
  put_all (f ∷ fs) = z.put f ++ put_all fs

  unfoldable pub get_all : List FieldType → Text → Option (List Field × Text)
  get_all [] bytes = some ([], bytes)
  get_all (t ∷ ts) bytes =
      z.get t bytes >>= λ first. get_all ts first.1 >>= λ rest. some (first.0 ∷ rest.0, rest.1)

  -- packet_base_t::send, on a socket that takes the first or the second part or not: what is
  -- sent, and the result
  unfoldable pub send : (takes_magic takes_members : Bool) → Packet → Text × Bool
  unfolding put_all magic_bytes
  send takes_magic takes_members p =
      if not takes_magic
      then ([], false)
      else if not takes_members
      then (magic_bytes (magic p), false)
      else (magic_bytes (magic p) ++ put_all (fields p), true)

  -- The members of the packet that `m` announces
  unfoldable pub recv_members : (unset m : ℕ) → Text → Option (Packet × Text)
  unfolding get_all
  recv_members unset m bytes =
      get_all (layout m) bytes >>= λ r. assemble unset m r.0 >>= λ p. some (p, r.1)

  -- packet_base_t::recv, of the type with the magic `m`
  unfoldable pub recv : (unset m : ℕ) → Text → Option (Packet × Text)
  unfolding recv_magic recv_members
  recv unset m bytes =
      recv_magic bytes >>= λ r. if not (r.0 == m) then none else recv_members unset m r.1

  -- RECV_PACKET_CASE: a packet that cannot be read is an error.
  unfoldable pub recv_case : (m : ℕ) → Text → Arrival
  unfolding recv_members
  recv_case m bytes = elim (recv_members 0 m bytes) [
    | none ↦ unable_recv_data
    | some (p, rest) ↦ packet p rest
  ]

  -- RECV_PACKET_SWITCH, RECV_PACKET_CASE for each of the numbers, RECV_PACKET_ERROR
  unfoldable pub recv_packet : List ℕ → Text → Arrival
  unfolding recv_magic recv_case
  recv_packet cases bytes = elim (recv_magic bytes) [
    | none ↦ unable_recv_data
    | some (m, rest) ↦ (if has_case m cases then recv_case m rest else invalid_packet_type m)
  ]
