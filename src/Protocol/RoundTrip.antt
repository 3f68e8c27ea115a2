-- ===== src/Protocol/RoundTrip.antt =====
-- What is sent is received: packet_base_t and RECV_PACKET_SWITCH of src/common/client_protocol.h.
use mathlib.Core.List.{append_assoc}
use smarty.Base.{
  Bool-cases, inl, inr, ℕ, ◌<◌, ◌≡◌, refl, arith, true, ◌==◌, List, [], ◌∷◌, ◌++◌, map, none, some,
  Text, if◌then◌else◌, length, All,
}
use smarty.Protocol.{
  Packet, mobile_handshake_request, mobile_handshake_response, magic, Field, string, uint, uchar,
  enum, FieldType, a_string, a_uint, a_uchar, an_enum, fields, layout, assemble,
}
use smarty.Protocol.Wire.{
  Serializer, magic_bytes, recv_magic, put_all, get_all, send, recv_members, recv, packet,
  invalid_packet_type, has_case, recv_case, recv_packet,
}

abbrev pub type_of : Field → FieldType
type_of (string t) = a_string
type_of (uint n) = a_uint
type_of (uchar n) = a_uchar
type_of (enum n) = an_enum

-- A value of the member's type
abbrev pub IsInRange : Field → Type 0
IsInRange (string t) = length t < 4294967296
IsInRange (uint n) = n < 4294967296
IsInRange (uchar n) = n < 256
IsInRange (enum n) = n < 4294967296

-- What is asked of the serializer: it reads back the value of a member, and leaves what follows.
abbrev pub IsFaithful : Serializer → Type 0
IsFaithful z =
    (f : Field) (rest : Text) → IsInRange f → z.get (type_of f) (z.put f ++ rest) ≡ some (f, rest)

-- All members that are sent have values of their types.
abbrev pub IsValid : Packet → Type 0
IsValid p = All IsInRange (fields p)

-- The packet as it arrives: a handshake response has lost its heartbeat_timeout.
abbrev pub received : ℕ → Packet → Packet
received unset (mobile_handshake_response s l h e) = mobile_handshake_response s l unset e
received unset p = p

layout-magic : (p : Packet) → layout (magic p) ≡ map type_of (fields p)
unfolding layout magic fields
layout-magic (mobile_handshake_request p v) = refl
layout-magic p = refl

assemble-fields :
    (unset : ℕ) (p : Packet) → assemble unset (magic p) (fields p) ≡ some (received unset p)
unfolding assemble magic fields
assemble-fields unset (mobile_handshake_response s l h e) = refl
assemble-fields unset p = refl

magic-small : (p : Packet) → magic p < 19
unfolding magic
magic-small (mobile_handshake_request p v) = omega arith
magic-small p = omega arith

recv_magic-magic_bytes :
    (m : ℕ) (rest : Text) → m < 256 → recv_magic (magic_bytes m ++ rest) ≡ some (m, rest)
unfolding recv_magic magic_bytes
recv_magic-magic_bytes m rest small = ground arith

module _ (z : Serializer) (faithful : IsFaithful z) where
  get_all-put_all :
      (fs : List Field) (rest : Text)
      → All IsInRange fs
      → get_all z (map type_of fs) (put_all z fs ++ rest) ≡ some (fs, rest)
  unfolding get_all put_all
  get_all-put_all [] rest valid = refl
  get_all-put_all (f ∷ fs) rest valid =
      rw append_assoc
        (rw (faithful f (put_all z fs ++ rest) valid.0) (rw (get_all-put_all fs rest valid.1)))

  recv_members-put_all :
      (unset : ℕ) (p : Packet) (rest : Text)
      → IsValid p
      → recv_members z unset (magic p) (put_all z (fields p) ++ rest)
        ≡ some (received unset p, rest)
  unfolding recv_members
  recv_members-put_all unset p rest valid =
      rw (layout-magic p)
        (rw (get_all-put_all (fields p) rest valid) (rw (assemble-fields unset p)))

  sent :
      (p : Packet) (rest : Text)
      → (send z true true p).0 ++ rest ≡ magic_bytes (magic p) ++ (put_all z (fields p) ++ rest)
  unfolding send
  sent p rest = append_assoc (magic_bytes (magic p)) (put_all z (fields p)) rest

  recv_packet-sent :
      (cases : List ℕ) (p : Packet) (rest : Text)
      → IsValid p
      → recv_packet z cases (magic_bytes (magic p) ++ (put_all z (fields p) ++ rest)) ≡ (
          if has_case (magic p) cases
          then packet (received 0 p) rest
          else invalid_packet_type (magic p))
  unfolding recv_packet recv_case
  recv_packet-sent cases p rest valid =
      let came =
        recv_magic-magic_bytes (magic p) (put_all z (fields p) ++ rest)
          (omega (arith, magic-small p)) in
      rw (came, recv_packet) (rw (recv_members-put_all 0 p rest valid, recv_case))

  recv-sent :
      (unset m : ℕ) (p : Packet) (rest : Text)
      → IsValid p
      → recv z unset m (magic_bytes (magic p) ++ (put_all z (fields p) ++ rest))
        ≡ (if magic p == m then some (received unset p, rest) else none)
  unfolding recv
  recv-sent unset m p rest valid =
      rw
        (recv_magic-magic_bytes (magic p) (put_all z (fields p) ++ rest)
          (omega (arith, magic-small p)))
        (elim (Bool-cases (magic p == m)) [
          | inr other ↦ rw other
          | inl own ↦
              (let at : magic p ≡ m = ground arith in
                rw own (rw (← at) (recv_members-put_all unset p rest valid)))
        ])

  -- With a serializer that reads back what it wrote, and a valid packet that a socket has taken, with
  -- anything behind it: RECV_PACKET_SWITCH delivers it to its case, with the heartbeat_timeout of a
  -- handshake response replaced by 0, or says that its type is invalid where it has no case; `recv` of
  -- a packet accepts it exactly if it has the packet's type.
  pub receive-send :
      (cases : List ℕ) (unset m : ℕ) (p : Packet) (rest : Text)
      → IsValid p
      → let bytes = (send z true true p).0 ++ rest in
        (recv_packet z cases bytes ≡ (
          if has_case (magic p) cases
          then packet (received 0 p) rest
          else invalid_packet_type (magic p)))
        × (recv z unset m bytes ≡ (if magic p == m then some (received unset p, rest) else none))
  receive-send cases unset m p rest valid =
      rw (sent p rest) (recv_packet-sent cases p rest valid, recv-sent unset m p rest valid)
