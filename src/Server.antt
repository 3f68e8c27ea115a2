-- ===== src/Server.antt =====
-- The part of net_server_t (src/server/server/net_server.h, net_server.cpp) that joins the registers
-- of the clients: each register's calls of `client_register_t` end in the other one. `none` stands
-- for a failed ASSERT.
pub mod Arrivals
use smarty.Base.{ℕ, Bool, List, [], ◌∷◌, ◌++◌, Option, none, some, Text}
use smarty.Client.{DesktopCommandRequest, MobileNotification}
use smarty.Handler.{◌>>=◌}
use smarty.Mobile.{
  MobileRegister, Output, send, close, execute_desktop_command, notify_clients, notify_modes_update,
  add_client,
}
use smarty.Desktop.{DesktopInfoList, notify, send_heartbeat, send_command, execute_command}

-- The registers, both started
pub record Server : Type 0 where
  pub mobile_register : MobileRegister
  pub desktop_register : DesktopInfoList

-- What leaves through the sockets of mobile and desktop clients
pub data Sent : Type 0 where
  to_mobile : Output → Sent
  to_desktop : smarty.Desktop.Output → Sent

abbrev pub all_to_mobile : List Output → List Sent
all_to_mobile [] = []
all_to_mobile (o ∷ os) = to_mobile o ∷ all_to_mobile os

unfoldable pub on_notify_mobile_clients :
    (ℕ → Bool) → MobileNotification → Server → Server × List Sent
on_notify_mobile_clients net n s =
    let (r, out) = notify_clients net n s.mobile_register in
    (record s { mobile_register = r }, all_to_mobile out)

unfoldable pub on_update_modes_request : (ℕ → Bool) → ℕ → Server → Server × List Sent
on_update_modes_request net modes s =
    let (r, out) = notify_modes_update net modes s.mobile_register in
    (record s { mobile_register = r }, all_to_mobile out)

-- What the register of desktops puts out: its notifications come back as calls.
unfoldable pub pass_on : (ℕ → Bool) → List smarty.Desktop.Output → Server → Server × List Sent
pass_on net [] s = (s, [])
pass_on net (notify n ∷ os) s =
    let (s', now) = on_notify_mobile_clients net n s in
    let (s'', later) = pass_on net os s' in (s'', now ++ later)
pass_on net (send_heartbeat socket ∷ os) s =
    let (s', later) = pass_on net os s in (s', to_desktop (send_heartbeat socket) ∷ later)
pass_on net (send_command socket c ∷ os) s =
    let (s', later) = pass_on net os s in (s', to_desktop (send_command socket c) ∷ later)

unfoldable pub on_execute_desktop_command :
    (ℕ → Bool) → DesktopCommandRequest → Server → Option (Server × List Sent)
on_execute_desktop_command net c s = execute_command net c s.desktop_register >>= λ r.
    some (pass_on net r.1 (record s { desktop_register = r.0 }))

-- What the register of mobile clients puts out: a command for desktops comes back as a call.
unfoldable pub pass_back : (ℕ → Bool) → List Output → Server → Option (Server × List Sent)
pass_back net [] s = some (s, [])
pass_back net (execute_desktop_command c ∷ os) s = on_execute_desktop_command net c s >>= λ first.
    pass_back net os first.0 >>= λ rest. some (rest.0, first.1 ++ rest.1)
pass_back net (send socket packet ∷ os) s =
    pass_back net os s >>= λ rest. some (rest.0, to_mobile (send socket packet) ∷ rest.1)
pass_back net (close socket ∷ os) s =
    pass_back net os s >>= λ rest. some (rest.0, to_mobile (close socket) ∷ rest.1)

-- A mobile client is added to its register.
unfoldable pub connect_mobile :
    (ℕ → Bool) → (now socket : ℕ) → Text → Server → Option (Server × List Sent)
connect_mobile net now socket end_point s =
    let (r, out) = add_client now socket end_point s.mobile_register in
    pass_back net out (record s { mobile_register = r })
