-- ===== src/Mobile/Liveness.antt =====
-- How long mobile_register_t (src/server/mobile/mobile_register.cpp) keeps a client.
use smarty.Base.{
  ℕ, ◌+◌, ◌-◌, ◌<◌, ◌≡◌, refl, arith, Bool, true, false, ◌||◌, ◌==◌, ltb, List, [], ◌∷◌, ◌++◌,
  if◌then◌else◌, Text,
}
use smarty.Client.{is_alive, edc_refresh_desktops}
use smarty.Mobile.{
  ClientInfo, MobileRegister, heartbeat_request, Output, send, close, execute_desktop_command,
  check_clients, check_liveness, touch_client, set_heartbeat_lasttime, add_client, erase_client,
  remove_client,
}

abbrev pub has_client : ℕ → List ClientInfo → Bool
has_client socket [] = false
has_client socket (c ∷ cs) = c.socket == socket || has_client socket cs

-- The clients heard of less than ten seconds ago
abbrev pub recent : ℕ → List ClientInfo → List ClientInfo
recent now [] = []
recent now (c ∷ cs) = if ltb (now - c.last_time) 10 then c ∷ recent now cs else recent now cs

-- A heartbeat request to each of them; the others are closed.
abbrev pub checks : ℕ → List ClientInfo → List Output
checks now [] = []
checks now (c ∷ cs) =
    (if ltb (now - c.last_time) 10 then send c.socket heartbeat_request else close c.socket)
    ∷ checks now cs

check_clients_lem :
    (now : ℕ) (cs : List ClientInfo) → check_clients now cs ≡ (recent now cs, checks now cs)
unfolding check_clients is_alive
check_clients_lem now [] = refl
check_clients_lem now (c ∷ cs) = ground (arith, check_clients_lem now cs)

-- A check keeps the clients that were heard of less than ten seconds ago, in order, and sends each a
-- heartbeat request; the others are closed and dropped.
pub check_liveness-recent :
    (now : ℕ) (r : MobileRegister)
    → check_liveness now r
      ≡ (record r { client_list = recent now r.client_list }, checks now r.client_list)
unfolding check_liveness
check_liveness-recent now r = rw (check_clients_lem now r.client_list)

has_client-touch_recent :
    (heard now socket : ℕ) (cs : List ClientInfo)
    → has_client socket cs ≡ true
    → now < heard + 10
    → has_client socket (recent now (touch_client heard socket cs)) ≡ true
unfolding touch_client
has_client-touch_recent heard now socket [] known soon = cc
has_client-touch_recent heard now socket (c ∷ cs) known soon =
    ground (arith, has_client-touch_recent heard now socket cs)

-- A client whose heartbeat response came at `heard` is not dropped by a check less than ten seconds
-- later.
pub heartbeat_keeps_client :
    (heard now socket : ℕ) (r : MobileRegister)
    → has_client socket r.client_list ≡ true
    → now < heard + 10
    → has_client socket (check_liveness now (set_heartbeat_lasttime heard socket r)).0.client_list
      ≡ true
unfolding set_heartbeat_lasttime
heartbeat_keeps_client heard now socket r known soon =
    rw (check_liveness-recent now (set_heartbeat_lasttime heard socket r))
      (has_client-touch_recent heard now socket r.client_list known soon)

pub erase_client-append :
    (socket : ℕ) (c : ClientInfo) (cs : List ClientInfo)
    → has_client socket cs ≡ false
    → c.socket ≡ socket
    → erase_client socket (cs ++ c ∷ []) ≡ cs
unfolding erase_client
erase_client-append socket c [] fresh same = ground arith
erase_client-append socket c (x ∷ cs) fresh same = ground (arith, erase_client-append socket c cs)

has_client-append :
    (socket : ℕ) (c : ClientInfo) (cs : List ClientInfo)
    → c.socket ≡ socket
    → has_client socket (cs ++ c ∷ []) ≡ true
has_client-append socket c [] same = ground arith
has_client-append socket c (x ∷ cs) same = ground (arith, has_client-append socket c cs)

-- A client that connects on a socket that no client has, and leaves again, leaves the list as it
-- was; what is sent on its connection is one request to tell of all desktops.
pub remove_client-add_client :
    (now socket : ℕ) (end_point : Text) (r : MobileRegister)
    → has_client socket r.client_list ≡ false
    → let added = add_client now socket end_point r in
      (remove_client socket added.0 ≡ r)
      × (added.1
          ≡ execute_desktop_command
              (record { desktop_index = 0; command = edc_refresh_desktops; params = [] })
            ∷ [])
      × (has_client socket added.0.client_list ≡ true)
unfolding remove_client add_client
remove_client-add_client now socket end_point r fresh =
    let c : ClientInfo = record { endpoint = end_point; socket = socket; last_time = now } in
    (
      λ i. record r { client_list = erase_client-append socket c r.client_list fresh refl i },
      refl,
      has_client-append socket c r.client_list refl,
    )
