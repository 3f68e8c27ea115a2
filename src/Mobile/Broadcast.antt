-- ===== src/Mobile/Broadcast.antt =====
-- What mobile_register_t (src/server/mobile/mobile_register.cpp) sends to every client, and whom it drops.
use smarty.Base.{ℕ, ◌≡◌, refl, arith, Bool, List, [], ◌∷◌, ◌++◌, if◌then◌else◌, ap}
use smarty.Client.{MobileNotification}
use smarty.Observer.{light_changed}
use smarty.Mobile.{
  ClientInfo, MobileRegister, Packet, notification, modes_update, light_state, Output, send, close,
  broadcast, notify_clients, notify_modes_update, update_clients, on_notice,
}

-- The clients whose socket takes what is sent
abbrev pub reached : (ℕ → Bool) → List ClientInfo → List ClientInfo
reached net [] = []
reached net (c ∷ cs) = if net c.socket then c ∷ reached net cs else reached net cs

-- The packet to each client in turn; one that does not take it is closed at once.
abbrev pub deliveries : (ℕ → Bool) → Packet → List ClientInfo → List Output
deliveries net packet [] = []
deliveries net packet (c ∷ cs) =
    send c.socket packet ∷ (if net c.socket then [] else close c.socket ∷ [])
    ++ deliveries net packet cs

broadcast_lem :
    (net : ℕ → Bool) (packet : Packet) (cs : List ClientInfo)
    → broadcast net packet cs ≡ (reached net cs, deliveries net packet cs)
unfolding broadcast
broadcast_lem net packet [] = refl
broadcast_lem net packet (c ∷ cs) = ground (arith, broadcast_lem net packet cs)

on_light :
    (net : ℕ → Bool) (state prev : ℕ) (cs : List ClientInfo)
    → let r =
        on_notice net (light_changed state) (record { client_list = cs; prev_lights = prev }) in
      (r.0.client_list ≡ reached net cs) × (r.1 ≡ deliveries net (light_state state) cs)
unfolding on_notice update_clients
on_light net state prev [] = (refl, refl)
on_light net state prev (c ∷ cs) =
    let all = broadcast_lem net (light_state state) (c ∷ cs) in
    (ap (λ r. r.0) all, ap (λ r. r.1) all)

-- A notification, a change of the modes and a change of the lights each go to all clients in turn;
-- the clients that take it stay, in order, and each that does not is closed and dropped.
pub broadcasts_lem :
    (net : ℕ → Bool) (n : MobileNotification) (modes state : ℕ) (r : MobileRegister)
    → let kept = reached net r.client_list in
      (notify_clients net n r
        ≡ (record r { client_list = kept }, deliveries net (notification n) r.client_list))
      × (notify_modes_update net modes r
          ≡ (record r { client_list = kept }, deliveries net (modes_update modes) r.client_list))
      × ((on_notice net (light_changed state) r).0.client_list ≡ kept)
      × ((on_notice net (light_changed state) r).1
          ≡ deliveries net (light_state state) r.client_list)
unfolding notify_clients notify_modes_update
broadcasts_lem net n modes state r =
    let lit = on_light net state r.prev_lights r.client_list in
    (
      rw (broadcast_lem net (notification n) r.client_list),
      rw (broadcast_lem net (modes_update modes) r.client_list),
      lit.0,
      lit.1,
    )
