-- ===== src/Desktop/Removal.antt =====
-- How desktops leave the map of src/server/desktop/desktop_register.cpp.
use smarty.Base.{
  true, ℕ, ◌-◌, ◌*◌, ◌≡◌, ◌≢◌, refl, arith, Bool, false, not, ◌&&◌, ◌||◌, ◌==◌, ltb, List, [], ◌∷◌,
  ◌++◌, Option, none, some, if◌then◌else◌,
}
use smarty.Client.{is_alive, get_timeout, DesktopCommandRequest}
use smarty.Desktop.{
  DesktopInfo, DesktopInfoList, Output, send_heartbeat, send_command, find, erase,
  do_remove_desktop, check_liveness, remove_desktop, execute_desktop_command,
  on_desktop_disconnected,
}
use smarty.Desktop.Table.{Ascends, alive, kept, find-kept, kept-Ascends, find-erase}

-- Some desktop is connected through this socket.
abbrev pub has_socket : ℕ → DesktopInfoList → Bool
has_socket socket [] = false
has_socket socket ((k, d) ∷ m) = d.socket == socket || has_socket socket m

-- Removing a desktop by its socket has defined behaviour only if no desktop has this socket, and
-- then it does nothing: after an erasure the loop goes on from an iterator that is no longer valid.
pub remove_desktop_lem :
    (socket : ℕ) (m : DesktopInfoList)
    → remove_desktop socket m ≡ (if has_socket socket m then none else some (m, []))
unfolding remove_desktop
remove_desktop_lem socket [] = refl
remove_desktop_lem socket ((k, d) ∷ m) = ground (arith, remove_desktop_lem socket m)

-- The heartbeat requests to the desktops that are alive, and nothing else
abbrev pub heartbeats : ℕ → DesktopInfoList → List Output
heartbeats now [] = []
heartbeats now ((k, d) ∷ m) =
    (if is_alive now d.last_time (2 * get_timeout) then send_heartbeat d.socket ∷ [] else [])
    ++ heartbeats now m

-- The desktop with the highest index, if there is any, is alive.
abbrev pub last_alive : ℕ → DesktopInfoList → Bool
last_alive now [] = true
last_alive now ((k, d) ∷ []) = is_alive now d.last_time (2 * get_timeout)
last_alive now ((k, d) ∷ (e ∷ m)) = last_alive now (e ∷ m)

check_liveness-kept :
    (now : ℕ) (m : DesktopInfoList)
    → check_liveness now m
      ≡ (if last_alive now m then some (kept now m, heartbeats now m) else none)
unfolding check_liveness
check_liveness-kept now [] = refl
check_liveness-kept now ((k, d) ∷ []) = ground arith
check_liveness-kept now ((k, d) ∷ (e ∷ m)) = ground (arith, check_liveness-kept now (e ∷ m))

-- A check has defined behaviour exactly if the desktop with the highest index, if there is any, was
-- heard of less than ten seconds ago: the log of a desktop that is dropped reads the entry behind it. It
-- then keeps exactly the desktops that were heard of less than ten seconds ago, under their indices,
-- and sends a heartbeat request to each of them; of the desktops that it drops it tells nobody.
pub check_liveness_lem :
    (now i : ℕ) (m : DesktopInfoList)
    → Ascends 0 m
    → (check_liveness now m
        ≡ (if last_alive now m then some (kept now m, heartbeats now m) else none))
      × (find i (kept now m) ≡ (elim (find i m) [
        | none ↦ none
        | some d ↦ if ltb (now - d.last_time) 10 then some d else none
      ]))
      × Ascends 0 (kept now m)
unfolding alive is_alive
check_liveness_lem now i m s =
    (check_liveness-kept now m, ground (arith, find-kept now i 0 m s), kept-Ascends now 0 m s)

abbrev pub has_failed : (ℕ → Bool) → Option DesktopInfo → Bool
has_failed net none = false
has_failed net (some d) = not (net d.socket)

abbrev pub told : (ℕ → Bool) → DesktopCommandRequest → Option DesktopInfo → List Output
told net c none = []
told net c (some d) =
    send_command d.socket c
    ∷ (if net d.socket then [] else on_desktop_disconnected c.desktop_index ∷ [])

-- A command for one desktop, from its index other than 0: to an unknown index it does nothing; a
-- known desktop is sent the command, and stays if its socket takes it; if not, it leaves the map,
-- the other indices keep theirs, and the mobile clients hear that it is gone.
pub execute_desktop_command_lem :
    (net : ℕ → Bool) (c : DesktopCommandRequest) (m : DesktopInfoList)
    → Ascends 0 m
    → c.desktop_index ≢ 0
    → (m' : DesktopInfoList) × (out : List Output) × (execute_desktop_command net c m
        ≡ some (m', out))
      × ((i : ℕ)
          → find i m' ≡ (
              if i == c.desktop_index && has_failed net (find c.desktop_index m)
              then none
              else find i m))
      × (out ≡ told net c (find c.desktop_index m))
unfolding execute_desktop_command do_remove_desktop
execute_desktop_command_lem net c m s known =
    let k = c.desktop_index in
    (
      if has_failed net (find k m) then erase k m else m,
      told net c (find k m),
      ground arith,
      λ i. ground (arith, find-erase k i 0 m s),
      refl,
    )
