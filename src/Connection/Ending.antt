-- ===== src/Connection/Ending.antt =====
-- What is left of a client when its connection ends (src/server/mobile/mobile_handler.cpp,
-- src/server/desktop/desktop_handler.cpp).
use mathlib.Core.List.{append-nil}
use mathlib.Core.Path.{subst}
use smarty.Base.{
  ◌⊎◌, ℕ, ◌≡◌, refl, ap, Bool, true, false, List, [], ◌∷◌, ◌++◌, none, some, if◌then◌else◌,
  Bool-cases, inl, inr,
}
use smarty.Creation.Built.{IfSome, IfSome-bind, any_some}
use smarty.Handler.{◌>>=◌, update_modes}
use smarty.Mobile.{
  ClientInfo, touch_client, set_heartbeat_lasttime, remove_client, erase_client, add_client,
}
use smarty.Server.{
  Server, Sent, pass_on, pass_back, on_execute_desktop_command, on_notify_mobile_clients,
  on_update_modes_request, connect_mobile,
}
use smarty.Mobile.{send, close, execute_desktop_command}
use smarty.Mobile.Broadcast.{reached, broadcasts_lem}
use smarty.Mobile.Liveness.{has_client, erase_client-append}
use smarty.Client.{MobileNotification, DesktopCommandRequest}
use smarty.Desktop.{DesktopInfoList, execute_command, notify, send_heartbeat, send_command}
use smarty.Desktop.Removal.{has_socket, remove_desktop_lem}
use smarty.Connection.{
  Peer, Shared, Output, Received, command_request, config_update_request, desktop_command_request,
  server_command_request, heartbeat_response, update_modes_request, disconnect_request, broken,
  process_packet, pass_handler, process_packets, process_client, send_config_update_response,
  add_server_command,
}
use smarty.Connection.Desktops.{
  DesktopReceived, mobile_notification, disconnect, broken_packet, process_desktop_packets,
}
use smarty.Connection.Remaining.{
  IsLeftOf, same_left, reached-IsLeftOf, fresh_left, reached-append, touch_client-append,
  touch_fresh, erase_fresh,
}

module _ (peer : Peer) (cs : List ClientInfo) (fresh : has_client peer.socket cs ≡ false) where
  -- The others that are left, and the client behind them if it has not been dropped
  abbrev IsServed : List ClientInfo → Type 0
  IsServed list =
      (left : List ClientInfo) × IsLeftOf peer.net left cs
      × ((list ≡ left) ⊎ ((c : ClientInfo) × (c.socket ≡ peer.socket) × (list ≡ left ++ c ∷ [])))

  -- While the loop goes on, and when it has ended
  abbrev Stands : Shared → Bool → Type 0
  Stands s true = IsServed s.server.mobile_register.client_list
  Stands s false = IsLeftOf peer.net s.server.mobile_register.client_list cs

  abbrev Left : Shared × List Output × Bool → Type 0
  Left r = Stands r.0 r.2

  abbrev Serves : Server → Type 0
  Serves s = IsServed s.mobile_register.client_list

  removed :
      (list : List ClientInfo)
      → IsServed list
      → IsLeftOf peer.net (erase_client peer.socket list) cs
  removed list (left, others, inl e) =
      rw (e, erase_fresh peer.socket left (fresh_left peer.net peer.socket left cs fresh others))
        others
  removed list (left, others, inr (c, same, e)) =
      rw
        (
          e,
          erase_client-append peer.socket c left
              (fresh_left peer.net peer.socket left cs fresh others) same,
        )
        others

  touched :
      (now : ℕ) (list : List ClientInfo)
      → IsServed list
      → IsServed (touch_client now peer.socket list)
  touched now list (left, others, inl e) = (
    left,
    others,
    inl (
        rw e (
          touch_fresh now peer.socket left (fresh_left peer.net peer.socket left cs fresh others))),
  )
  touched now list (left, others, inr (c, same, e)) = (
    left,
    others,
    inr (
      record c { last_time = now },
      same,
      rw e (
          touch_client-append now peer.socket c left
            (fresh_left peer.net peer.socket left cs fresh others) same),
    ),
  )

  told : (list : List ClientInfo) → IsServed list → IsServed (reached peer.net list)
  told list (left, others, inl e) =
      (reached peer.net left, reached-IsLeftOf peer.net left cs others, inl (rw e refl))
  told list (left, others, inr (c, same, e)) = elim (Bool-cases (peer.net c.socket)) [
    | inl takes ↦ (
      reached peer.net left,
      reached-IsLeftOf peer.net left cs others,
      inr (c, same, rw (e, reached-append peer.net c left, takes) refl),
    )
    | inr broken_socket ↦ (
      reached peer.net left,
      reached-IsLeftOf peer.net left cs others,
      inl (
          rw (e, reached-append peer.net c left, broken_socket)
            (append-nil (reached peer.net left))),
    )
  ]

  notified-Serves :
      (n : MobileNotification) (s : Server)
      → Serves s
      → Serves (on_notify_mobile_clients peer.net n s).0
  unfolding on_notify_mobile_clients
  notified-Serves n s i =
      rw ((broadcasts_lem peer.net n 0 0 s.mobile_register).0)
        (told s.mobile_register.client_list i)

  modes_told-Serves :
      (bitset : ℕ) (s : Server) → Serves s → Serves (on_update_modes_request peer.net bitset s).0
  unfolding on_update_modes_request
  modes_told-Serves bitset s i =
      let n : MobileNotification = record { desktop_index = 0; type = 0; params = [] } in
      rw ((broadcasts_lem peer.net n bitset 0 s.mobile_register).1)
        (told s.mobile_register.client_list i)

  pass_on-Serves :
      (os : List smarty.Desktop.Output) (s : Server) → Serves s → Serves (pass_on peer.net os s).0
  unfolding pass_on
  pass_on-Serves [] s i = i
  pass_on-Serves (notify n ∷ os) s i = pass_on-Serves os _ (notified-Serves n s i)
  pass_on-Serves (send_heartbeat k ∷ os) s i = pass_on-Serves os s i
  pass_on-Serves (send_command k c ∷ os) s i = pass_on-Serves os s i

  desktop_command-Serves :
      (c : DesktopCommandRequest) (s : Server)
      → Serves s
      → IfSome (λ (r : Server × List Sent). Serves r.0) (on_execute_desktop_command peer.net c s)
  unfolding on_execute_desktop_command
  desktop_command-Serves c s i =
      IfSome-bind (λ r. Unit) (λ (r : Server × List Sent). Serves r.0)
        (execute_command peer.net c s.desktop_register) _ (any_some _)
        (λ r _. pass_on-Serves r.1 (record s { desktop_register = r.0 }) i)

  pass_back-Serves :
      (os : List smarty.Mobile.Output) (s : Server)
      → Serves s
      → IfSome (λ (r : Server × List Sent). Serves r.0) (pass_back peer.net os s)
  unfolding pass_back
  pass_back-Serves [] s i = i
  pass_back-Serves (execute_desktop_command c ∷ os) s i =
      IfSome-bind (λ (r : Server × List Sent). Serves r.0) (λ (r : Server × List Sent). Serves r.0)
        (on_execute_desktop_command peer.net c s) _ (desktop_command-Serves c s i)
        (λ first now.
          IfSome-bind (λ (r : Server × List Sent). Serves r.0)
            (λ (r : Server × List Sent). Serves r.0) (pass_back peer.net os first.0) _
            (pass_back-Serves os first.0 now) (λ rest later. later))
  pass_back-Serves (send k packet ∷ os) s i =
      IfSome-bind (λ (r : Server × List Sent). Serves r.0) (λ (r : Server × List Sent). Serves r.0)
        (pass_back peer.net os s) _ (pass_back-Serves os s i) (λ rest later. later)
  pass_back-Serves (close k ∷ os) s i =
      IfSome-bind (λ (r : Server × List Sent). Serves r.0) (λ (r : Server × List Sent). Serves r.0)
        (pass_back peer.net os s) _ (pass_back-Serves os s i) (λ rest later. later)

  pass_handler-Serves :
      (os : List smarty.Handler.Output) (s : Server)
      → Serves s
      → Serves (pass_handler peer.net os s).0
  unfolding pass_handler
  pass_handler-Serves [] s i = i
  pass_handler-Serves (smarty.Handler.update_modes_request bitset ∷ os) s i =
      pass_handler-Serves os _ (modes_told-Serves bitset s i)
  pass_handler-Serves (smarty.Handler.push c ∷ os) s i = pass_handler-Serves os s i
  pass_handler-Serves (smarty.Handler.execute_command cmd ∷ os) s i = pass_handler-Serves os s i

  process_packet-Left :
      (r : Received) (s : Shared) → Stands s true → IfSome Left (process_packet peer r s)
  unfolding process_packet remove_client set_heartbeat_lasttime
  process_packet-Left (command_request command param) s i = i
  process_packet-Left config_update_request s i =
      elim (Bool-cases (send_config_update_response peer).1) [
        | inl done ↦ rw done i
        | inr failed ↦ rw failed (removed s.server.mobile_register.client_list i)
      ]
  process_packet-Left (desktop_command_request c) s i =
      IfSome-bind (λ (r : Server × List Sent). Serves r.0) Left
        (on_execute_desktop_command peer.net c s.server) _ (desktop_command-Serves c s.server i)
        (λ r now. now)
  process_packet-Left (server_command_request command params) s i =
      IfSome-bind (λ out. Unit) Left (add_server_command peer.split command params s.event_handler)
        _ (any_some _) (λ out _. i)
  process_packet-Left (heartbeat_response now) s i =
      touched now s.server.mobile_register.client_list i
  process_packet-Left (update_modes_request state) s i =
      IfSome-bind (λ r. Unit) Left (update_modes state s.event_handler) _ (any_some _)
        (λ r _. pass_handler-Serves r.1 s.server i)
  process_packet-Left disconnect_request s i = removed s.server.mobile_register.client_list i
  process_packet-Left broken s i = removed s.server.mobile_register.client_list i

  process_packets-Left :
      (rs : List Received) (s : Shared) → Stands s true → IfSome Left (process_packets peer rs s)
  unfolding process_packets
  process_packets-Left [] s i = i
  process_packets-Left (r ∷ rs) s i =
      IfSome-bind Left Left (process_packet peer r s) _ (process_packet-Left r s i)
        λ first stands. go (process_packets-Left rs) first.0 first.1 first.2 stands
    where
      go :
          ((s' : Shared) → Stands s' true → IfSome Left (process_packets peer rs s'))
          → (s' : Shared) (out : List Output) (on : Bool) → Stands s' on
          → IfSome Left (
              if on
              then (process_packets peer rs s' >>= λ rest. some (rest.0, out ++ rest.1, rest.2))
              else some (s', out, on))
      go rest_left s' out true stands =
          IfSome-bind Left Left (process_packets peer rs s') _ (rest_left s' stands)
            (λ rest left. left)
      go rest_left s' out false stands = stands

  -- The client is added behind the others.
  connected-Serves :
      (now : ℕ) (s : Server)
      → s.mobile_register.client_list ≡ cs
      → IfSome
          (λ (r : Server × List Sent). Serves r.0)
          (connect_mobile peer.net now peer.socket peer.end_point s)
  unfolding connect_mobile add_client
  connected-Serves now s before =
      let c : ClientInfo = record {
        endpoint = peer.end_point;
        socket = peer.socket;
        last_time = now;
      } in
      pass_back-Serves _ _ (cs, same_left peer.net cs, inr (c, refl, ap (λ l. l ++ c ∷ []) before))

-- When the connection has ended, the list is what is left of the one that it began with.
abbrev Restores : (ℕ → Bool) → List ClientInfo → Shared × List Output × Bool → Type 0
Restores net cs (s, out, true) = Unit
Restores net cs (s, out, false) = IsLeftOf net s.server.mobile_register.client_list cs

restores :
    (peer : Peer) (cs : List ClientInfo) (fresh : has_client peer.socket cs ≡ false) (s : Shared)
    (out : List Output) (on : Bool)
    → Stands peer cs fresh s on
    → Restores peer.net cs (s, out, on)
restores peer cs fresh s out true stands = tt
restores peer cs fresh s out false stands = stands

process_client-Restores :
    (peer : Peer) (now : ℕ) (rs : List Received) (s : Shared)
    → has_client peer.socket s.server.mobile_register.client_list ≡ false
    → IfSome (Restores peer.net s.server.mobile_register.client_list) (process_client peer now rs s)
unfolding process_client
process_client-Restores peer now [] s fresh = tt
process_client-Restores peer now (config_update_request ∷ rs) s fresh =
    let before = s.server.mobile_register.client_list in
    elim (Bool-cases (send_config_update_response peer).1) [
      | inl done ↦ rw done (
          IfSome-bind (λ (r : Server × List Sent). Serves peer before fresh r.0)
            (Restores peer.net before)
            (connect_mobile peer.net now peer.socket peer.end_point s.server) _
            (connected-Serves peer before fresh now s.server refl)
            (λ added i.
              IfSome-bind (Left peer before fresh) (Restores peer.net before)
                (process_packets peer rs (record s { server = added.0 })) _
                (process_packets-Left peer before fresh rs (record s { server = added.0 }) i)
                (λ r left. restores peer before fresh r.0 [] r.2 left)))
      | inr failed ↦ rw failed (same_left peer.net before)
    ]
process_client-Restores peer now (command_request command param ∷ rs) s fresh = same_left peer.net _
process_client-Restores peer now (desktop_command_request c ∷ rs) s fresh = same_left peer.net _
process_client-Restores peer now (server_command_request command params ∷ rs) s fresh =
    same_left peer.net _
process_client-Restores peer now (heartbeat_response t ∷ rs) s fresh = same_left peer.net _
process_client-Restores peer now (update_modes_request state ∷ rs) s fresh = same_left peer.net _
process_client-Restores peer now (disconnect_request ∷ rs) s fresh = same_left peer.net _
process_client-Restores peer now (broken ∷ rs) s fresh = same_left peer.net _

-- A mobile client that connects on a socket that no client has, whatever it sends, with what its
-- packets make the registers send to all clients: when its connection has ended, by a request to
-- disconnect, a packet that cannot be read or a response that it does not take, it is gone from the
-- list, nobody is new there, and of the clients that were there before only such are missing whose
-- socket does not take what is sent. No other thread changes the list meanwhile.
pub process_client-client_list :
    (peer : Peer) (now : ℕ) (rs : List Received) (s s' : Shared) (out : List Output)
    → has_client peer.socket s.server.mobile_register.client_list ≡ false
    → process_client peer now rs s ≡ some (s', out, false)
    → IsLeftOf peer.net s'.server.mobile_register.client_list s.server.mobile_register.client_list
      × (has_client peer.socket s'.server.mobile_register.client_list ≡ false)
process_client-client_list peer now rs s s' out fresh ended =
    let before = s.server.mobile_register.client_list in
    let left =
      subst (IfSome (Restores peer.net before)) ended
        (process_client-Restores peer now rs s fresh) in
    (left, fresh_left peer.net peer.socket s'.server.mobile_register.client_list before fresh left)

-- Notifications, and then one more packet
abbrev pub after_notifications : List MobileNotification → DesktopReceived → List DesktopReceived
after_notifications [] r = r ∷ []
after_notifications (n ∷ ns) r = mobile_notification n ∷ after_notifications ns r

-- A desktop client that is in the map, with whatever notifications it sends before, never leaves in
-- order: both ways out of its loop remove it by its socket, which has no defined behaviour.
pub process_desktop_packets-none :
    (socket : ℕ) (before : List MobileNotification) (m : DesktopInfoList)
    → has_socket socket m ≡ true
    → (process_desktop_packets socket (after_notifications before disconnect) m ≡ none)
      × (process_desktop_packets socket (after_notifications before broken_packet) m ≡ none)
unfolding process_desktop_packets
process_desktop_packets-none socket [] m known =
    (rw (remove_desktop_lem socket m, known), rw (remove_desktop_lem socket m, known))
process_desktop_packets-none socket (n ∷ before) m known =
    let (left, cut) = process_desktop_packets-none socket before m known in (rw left, rw cut)
