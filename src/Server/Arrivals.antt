-- ===== src/Server/Arrivals.antt =====
-- What a mobile client hears when it connects (src/server/server/net_server.cpp with both registers).
use smarty.Base.{
  ℕ, ◌≡◌, ◌∙◌, refl, arith, ap, Bool, true, false, ◌==◌, List, [], ◌∷◌, ◌++◌, some, if◌then◌else◌,
  Text,
}
use smarty.Client.{emn_desktop_connected, MobileNotification}
use smarty.Desktop.{
  DesktopInfoList, execute_command, refresh_desktops_info, on_desktop_connected, notify,
  send_heartbeat, send_command,
}
use smarty.Mobile.{
  ClientInfo, Packet, notification, send, close, execute_desktop_command, notify_clients,
  add_client,
}
use smarty.Mobile.Broadcast.{reached, deliveries, broadcasts_lem}
use smarty.Mobile.Liveness.{has_client}
use smarty.Server.{
  Server, Sent, to_mobile, to_desktop, all_to_mobile, on_notify_mobile_clients, pass_on,
  on_execute_desktop_command, pass_back, connect_mobile,
}

-- The packets that go to one socket
abbrev pub heard : ℕ → List Sent → List Packet
heard socket [] = []
heard socket (to_mobile (send s packet) ∷ out) =
    if s == socket then packet ∷ heard socket out else heard socket out
heard socket (to_mobile (close s) ∷ out) = heard socket out
heard socket (to_mobile (execute_desktop_command c) ∷ out) = heard socket out
heard socket (to_desktop o ∷ out) = heard socket out

-- One notification for each desktop, in the order of the indices
abbrev pub announcements : DesktopInfoList → List Packet
announcements [] = []
announcements ((k, d) ∷ m) =
    notification (record { desktop_index = k; type = emn_desktop_connected; params = d.name })
    ∷ announcements m

heard-append :
    (socket : ℕ) (xs ys : List Sent) → heard socket (xs ++ ys) ≡ heard socket xs ++ heard socket ys
heard-append socket [] ys = refl
heard-append socket (to_mobile (send s packet) ∷ xs) ys = ground (arith, heard-append socket xs ys)
heard-append socket (to_mobile (close s) ∷ xs) ys = heard-append socket xs ys
heard-append socket (to_mobile (execute_desktop_command c) ∷ xs) ys = heard-append socket xs ys
heard-append socket (to_desktop o ∷ xs) ys = heard-append socket xs ys

packets_end : (ps : List Packet) → ps ++ [] ≡ ps
packets_end [] = refl
packets_end (p ∷ ps) = ap (λ qs. p ∷ qs) (packets_end ps)

-- Passing on leaves the desktops as they are.
desktop_register-pass_on :
    (net : ℕ → Bool) (os : List smarty.Desktop.Output) (s : Server)
    → (pass_on net os s).0.desktop_register ≡ s.desktop_register
unfolding pass_on on_notify_mobile_clients
desktop_register-pass_on net [] s = refl
desktop_register-pass_on net (notify n ∷ os) s =
    desktop_register-pass_on net os (on_notify_mobile_clients net n s).0
desktop_register-pass_on net (send_heartbeat k ∷ os) s = desktop_register-pass_on net os s
desktop_register-pass_on net (send_command k c ∷ os) s = desktop_register-pass_on net os s

module _ (net : ℕ → Bool) (socket : ℕ) (takes : net socket ≡ true) where
  heard-deliveries :
      (packet : Packet) (c : ClientInfo) (cs : List ClientInfo)
      → c.socket ≡ socket
      → has_client socket cs ≡ false
      → heard socket (all_to_mobile (deliveries net packet (cs ++ c ∷ []))) ≡ packet ∷ []
  heard-deliveries packet c [] same fresh = ground (arith, takes)
  heard-deliveries packet c (x ∷ cs) same fresh = ground (arith, heard-deliveries packet c cs same)

  reached-append :
      (c : ClientInfo) (cs : List ClientInfo)
      → c.socket ≡ socket
      → reached net (cs ++ c ∷ []) ≡ reached net cs ++ c ∷ []
  reached-append c [] same = ground (arith, takes)
  reached-append c (x ∷ cs) same = ground (arith, reached-append c cs same)

  has_client-reached :
      (cs : List ClientInfo)
      → has_client socket cs ≡ false
      → has_client socket (reached net cs) ≡ false
  has_client-reached [] fresh = refl
  has_client-reached (x ∷ cs) fresh = ground (arith, has_client-reached cs)

  -- The client hears each notification once, if it is the last of the list and no other has its socket.
  heard-pass_on :
      (c : ClientInfo) (cs : List ClientInfo) (m : DesktopInfoList) (s : Server)
      → c.socket ≡ socket
      → has_client socket cs ≡ false
      → s.mobile_register.client_list ≡ cs ++ c ∷ []
      → heard socket (pass_on net (refresh_desktops_info m) s).1 ≡ announcements m
  unfolding pass_on refresh_desktops_info on_desktop_connected on_notify_mobile_clients
  heard-pass_on c cs [] s same fresh last = refl
  heard-pass_on c cs ((k, d) ∷ m) s same fresh last =
      let n : MobileNotification = record {
        desktop_index = k;
        type = emn_desktop_connected;
        params = d.name;
      } in
      let told = (broadcasts_lem net n 0 0 s.mobile_register).0 in
      let left : Server = record s {
        mobile_register = (notify_clients net n s.mobile_register).0;
      } in
      let now : heard socket (all_to_mobile (notify_clients net n s.mobile_register).1)
          ≡ notification n ∷ [] =
        rw (told, last) (heard-deliveries (notification n) c cs same fresh) in
      let kept : left.mobile_register.client_list ≡ reached net cs ++ c ∷ [] =
        rw told (ap (reached net) last ∙ reached-append c cs same) in
      let later = heard-pass_on c (reached net cs) m left same (has_client-reached cs fresh) kept in
      heard-append socket (all_to_mobile (notify_clients net n s.mobile_register).1)
        (pass_on net (refresh_desktops_info m) left).1
      ∙ (λ i. now i ++ later i)

-- A mobile client that connects on a socket that no client has, and that takes what is sent to it:
-- the connection is served, and the client hears of each desktop that is in the map, once and in the
-- order of the indices, and of nothing else.
pub heard-connect_mobile :
    (net : ℕ → Bool) (now socket : ℕ) (end_point : Text) (s : Server)
    → net socket ≡ true
    → has_client socket s.mobile_register.client_list ≡ false
    → (s' : Server) × (out : List Sent) × (connect_mobile net now socket end_point s
        ≡ some (s', out))
      × (heard socket out ≡ announcements s.desktop_register)
      × (s'.desktop_register ≡ s.desktop_register)
unfolding connect_mobile add_client pass_back on_execute_desktop_command execute_command
heard-connect_mobile net now socket end_point s takes fresh =
    let c : ClientInfo = record { endpoint = end_point; socket = socket; last_time = now } in
    let added : Server = record s {
      mobile_register = record s.mobile_register {
        client_list = s.mobile_register.client_list ++ c ∷ [];
      };
    } in
    let told = pass_on net (refresh_desktops_info s.desktop_register) added in
    (
      told.0,
      told.1 ++ [],
      refl,
      heard-append socket told.1 []
          ∙ packets_end (heard socket told.1)
          ∙ heard-pass_on net socket takes c s.mobile_register.client_list s.desktop_register added
              refl fresh refl,
      desktop_register-pass_on net (refresh_desktops_info s.desktop_register) added,
    )
