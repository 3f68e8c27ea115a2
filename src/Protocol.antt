-- ===== src/Protocol.antt =====
-- The packets of src/common/client_protocol.h: each with the number that announces it (EPACKETMAGIC
-- of src/common/enums.h) and the members that its serializer lists, in order.
pub mod Wire
pub mod RoundTrip
pub mod Stream
use smarty.Base.{ℕ, ◌==◌, List, [], ◌∷◌, Option, none, some, Text, if◌then◌else◌}
use smarty.Client.{DesktopCommandRequest, MobileNotification}

pub data Packet : Type 0 where
  mobile_handshake_request : (password : Text) (version : ℕ) → Packet
  mobile_handshake_response : (state light_state heartbeat_timeout event_modes : ℕ) → Packet
  mobile_notification : MobileNotification → Packet
  mobile_heartbeat_request mobile_heartbeat_response state_request : Packet
  command_request : (command param : ℕ) → Packet
  disconnect_request : Packet
  light_notification : (lights_state : ℕ) → Packet
  config_update_request : Packet
  config_update_response : (config : Text) → Packet
  desktop_handshake_request : (password name : Text) (index : ℕ) → Packet
  desktop_handshake_response : (state : ℕ) → Packet
  desktop_command_request : DesktopCommandRequest → Packet
  desktop_heartbeat_request : Packet
  desktop_heartbeat_response : (desktop_index : ℕ) → Packet
  server_command_request : (command : ℕ) (params : Text) → Packet
  update_modes_request modes_update_notification : (state : ℕ) → Packet

-- `m_packet_magic`, a value of EPACKETMAGIC
unfoldable pub magic : Packet → ℕ
magic (mobile_handshake_request p v) = 0
magic (mobile_handshake_response s l h e) = 1
magic (mobile_notification n) = 2
magic mobile_heartbeat_request = 3
magic mobile_heartbeat_response = 4
magic state_request = 5
magic (command_request c p) = 6
magic disconnect_request = 7
magic (light_notification l) = 8
magic config_update_request = 9
magic (config_update_response c) = 10
magic (desktop_handshake_request p n i) = 11
magic (desktop_handshake_response s) = 12
magic (desktop_command_request c) = 13
magic desktop_heartbeat_request = 14
magic (desktop_heartbeat_response i) = 15
magic (server_command_request c p) = 16
magic (update_modes_request s) = 17
magic (modes_update_notification s) = 18

-- A member as STRUCT_SERIALIZER_FIELD names it: std::string, uint, uchar or an enumeration
pub data Field : Type 0 where
  string : Text → Field
  uint uchar enum : ℕ → Field

pub data FieldType : Type 0 where
  a_string a_uint a_uchar an_enum : FieldType

-- STRUCT_SERIALIZER_BEGIN … STRUCT_SERIALIZER_END: the members that are sent
unfoldable pub fields : Packet → List Field
fields (mobile_handshake_request p v) = string p ∷ uint v ∷ []
fields (mobile_handshake_response s l h e) = enum s ∷ uchar l ∷ uint e ∷ []
fields (mobile_notification n) = uint n.desktop_index ∷ enum n.type ∷ string n.params ∷ []
fields mobile_heartbeat_request = []
fields mobile_heartbeat_response = []
fields state_request = []
fields (command_request c p) = uchar c ∷ uchar p ∷ []
fields disconnect_request = []
fields (light_notification l) = uint l ∷ []
fields config_update_request = []
fields (config_update_response c) = string c ∷ []
fields (desktop_handshake_request p n i) = string p ∷ string n ∷ uint i ∷ []
fields (desktop_handshake_response s) = enum s ∷ []
fields (desktop_command_request c) = uint c.desktop_index ∷ enum c.command ∷ string c.params ∷ []
fields desktop_heartbeat_request = []
fields (desktop_heartbeat_response i) = uint i ∷ []
fields (server_command_request c p) = enum c ∷ string p ∷ []
fields (update_modes_request s) = uint s ∷ []
fields (modes_update_notification s) = uint s ∷ []

-- The same lists for the packet that a number announces, as a receiver reads them
unfoldable pub layout : ℕ → List FieldType
layout m =
    if m == 0
    then a_string ∷ a_uint ∷ []
    else if m == 1
    then an_enum ∷ a_uchar ∷ a_uint ∷ []
    else if (m == 2)
    then a_uint ∷ an_enum ∷ a_string ∷ []
    else if m == 6
    then a_uchar ∷ a_uchar ∷ []
    else if m == 8
    then a_uint ∷ []
    else if m == 10
    then a_string ∷ []
    else if m == 11
    then a_string ∷ a_string ∷ a_uint ∷ []
    else if m == 12
    then an_enum ∷ []
    else if m == 13
    then a_uint ∷ an_enum ∷ a_string ∷ []
    else if m == 15
    then a_uint ∷ []
    else if m == 16
    then an_enum ∷ a_string ∷ []
    else if m == 17
    then a_uint ∷ []
    else if m == 18
    then a_uint ∷ []
    else []

-- A packet without members
abbrev empty_packet : ℕ → Option Packet
empty_packet m =
    if m == 3
    then some mobile_heartbeat_request
    else if m == 4
    then some mobile_heartbeat_response
    else if m == 5
    then some state_request
    else if m == 7
    then some disconnect_request
    else if m == 9
    then some config_update_request
    else if m == 14
    then some desktop_heartbeat_request
    else none

-- The object that the members are read into; `unset` is what its heartbeat_timeout holds, which no
-- serializer reads.
unfoldable pub assemble : (unset m : ℕ) → List Field → Option Packet
assemble unset m [] = empty_packet m
assemble unset m (string c ∷ []) = if m == 10 then some (config_update_response c) else none
assemble unset m (uint n ∷ []) =
    if m == 8
    then some (light_notification n)
    else if m == 15
    then some (desktop_heartbeat_response n)
    else if m == 17
    then some (update_modes_request n)
    else if m == 18
    then some (modes_update_notification n)
    else none
assemble unset m (enum s ∷ []) = if m == 12 then some (desktop_handshake_response s) else none
assemble unset m (string p ∷ uint v ∷ []) =
    if m == 0 then some (mobile_handshake_request p v) else none
assemble unset m (uchar c ∷ uchar p ∷ []) = if m == 6 then some (command_request c p) else none
assemble unset m (enum c ∷ string p ∷ []) =
    if m == 16 then some (server_command_request c p) else none
assemble unset m (enum s ∷ uchar l ∷ uint e ∷ []) =
    if m == 1 then some (mobile_handshake_response s l unset e) else none
assemble unset m (uint i ∷ enum t ∷ string p ∷ []) =
    if m == 2
    then some (mobile_notification (record { desktop_index = i; type = t; params = p }))
    else if m == 13
    then some (desktop_command_request (record { desktop_index = i; command = t; params = p }))
    else none
assemble unset m (string p ∷ string n ∷ uint i ∷ []) =
    if m == 11 then some (desktop_handshake_request p n i) else none
assemble unset m _ = none
