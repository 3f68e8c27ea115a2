-- ===== src/Desktop.antt =====
-- desktop_register_t of src/server/desktop/desktop_register.h and desktop_register.cpp. The map from
-- an index to the desktop that it owns is a list ascending in the index. What the register sends is
-- a list of outputs, in order; `none` stands for a failed ASSERT or undefined behaviour.
pub mod Table
pub mod Removal
use smarty.Base.{
  ℕ, ◌+◌, ◌*◌, Bool, true, false, not, ◌==◌, ◌/=◌, ltb, List, [], ◌∷◌, ◌++◌, Option, none, some,
  if◌then◌else◌, Text,
}
use smarty.Handler.{◌>>=◌}
use smarty.Client.{
  edc_refresh_desktops, DesktopCommandRequest, emn_desktop_connected, emn_desktop_disconnected,
  MobileNotification, get_timeout, is_alive,
}

-- desktop_info_t
pub record DesktopInfo : Type 0 where
  pub socket : ℕ
  pub name : Text
  pub last_time : ℕ  -- time_t

-- desktop_info_list_t
abbrev pub DesktopInfoList : Type 0
DesktopInfoList = List (ℕ × DesktopInfo)

pub data Output : Type 0 where
  -- m_clients.on_notify_mobile_clients
  notify : MobileNotification → Output
  send_heartbeat : ℕ → Output
  send_command : ℕ → DesktopCommandRequest → Output

-- map::find
unfoldable pub find : ℕ → DesktopInfoList → Option DesktopInfo
find k [] = none
find k ((j, d) ∷ m) = if j == k then some d else find k m

-- map::erase
unfoldable pub erase : ℕ → DesktopInfoList → DesktopInfoList
erase k [] = []
erase k ((j, d) ∷ m) = let rest = (j, d) ∷ erase k m in if j == k then m else rest

-- `m[ k ] = d`
unfoldable pub assign : ℕ → DesktopInfo → DesktopInfoList → DesktopInfoList
assign k d [] = (k, d) ∷ []
assign k d ((j, e) ∷ m) =
    let rest = (j, e) ∷ assign k d m in
    if ltb k j then (k, d) ∷ (j, e) ∷ m else if j == k then (k, d) ∷ m else rest

unfoldable pub on_desktop_connected : ℕ → Text → Output
on_desktop_connected index name =
    notify (record { desktop_index = index; type = emn_desktop_connected; params = name })

unfoldable pub on_desktop_disconnected : ℕ → Output
on_desktop_disconnected index =
    notify (record { desktop_index = index; type = emn_desktop_disconnected; params = [] })

unfoldable pub do_remove_desktop : ℕ → DesktopInfoList → DesktopInfoList
do_remove_desktop index m = erase index m

-- The destructor tells of each desktop that it is gone.
unfoldable pub destroy : DesktopInfoList → List Output
destroy [] = []
destroy ((k, d) ∷ m) = on_desktop_disconnected k ∷ destroy m

-- When a desktop is dropped the log reads the next entry, and behind the last one there is none.
unfoldable pub check_liveness : ℕ → DesktopInfoList → Option (DesktopInfoList × List Output)
check_liveness now [] = some ([], [])
check_liveness now ((k, d) ∷ []) =
    if not (is_alive now d.last_time (2 * get_timeout))
    then none
    else some ((k, d) ∷ [], send_heartbeat d.socket ∷ [])
check_liveness now ((k, d) ∷ (e ∷ m)) =
    let others = check_liveness now (e ∷ m) in
    if not (is_alive now d.last_time (2 * get_timeout))
    then others
    else (others >>= λ r. some ((k, d) ∷ r.0, send_heartbeat d.socket ∷ r.1))

-- client_heartbeat_t::do_run of src/server/client/client_heartbeat.cpp, for the times of the checks
-- before it is stopped, if no other thread calls the register
unfoldable pub do_run : List ℕ → DesktopInfoList → Option (DesktopInfoList × List Output)
unfolding check_liveness
do_run [] m = some (m, [])
do_run (now ∷ times) m = check_liveness now m >>= λ first.
    do_run times first.0 >>= λ rest. some (rest.0, first.1 ++ rest.1)

unfoldable pub add_desktop : ℕ → ℕ → ℕ → Text → DesktopInfoList → DesktopInfoList × List Output
add_desktop now socket index name m = (
  assign index (record { socket = socket; name = name; last_time = now })
      (do_remove_desktop index m),
  on_desktop_connected index name ∷ [],
)

-- remove_desktop( uint )
unfoldable pub remove_desktop_at : ℕ → DesktopInfoList → DesktopInfoList × List Output
remove_desktop_at index m = (do_remove_desktop index m, on_desktop_disconnected index ∷ [])

-- remove_desktop( socket_t* ): once a desktop is found it is erased, and the loop goes on from the
-- iterator of the erased entry, which is undefined.
unfoldable pub remove_desktop : ℕ → DesktopInfoList → Option (DesktopInfoList × List Output)
remove_desktop socket [] = some ([], [])
remove_desktop socket ((k, d) ∷ m) =
    let rest : Option (DesktopInfoList × List Output) = elim (remove_desktop socket m) [
      | none ↦ none
      | some (m', out) ↦ some ((k, d) ∷ m', out)
    ] in
    if d.socket == socket then none else rest

unfoldable pub set_heartbeat_lasttime : ℕ → ℕ → DesktopInfoList → DesktopInfoList
set_heartbeat_lasttime now index [] = []
set_heartbeat_lasttime now index ((k, d) ∷ m) =
    let rest = (k, d) ∷ set_heartbeat_lasttime now index m in
    if k == index then (k, record d { last_time = now }) ∷ m else rest

-- execute_desktop_command; `net` says whether the socket takes the command.
unfoldable pub execute_desktop_command :
    (ℕ → Bool) → DesktopCommandRequest → DesktopInfoList → Option (DesktopInfoList × List Output)
execute_desktop_command net c m =
    if c.desktop_index == 0 then none else elim (find c.desktop_index m) [
      | none ↦ some (m, [])
      | some d ↦ some (
          if not (net d.socket)
          then (
            do_remove_desktop c.desktop_index m,
            send_command d.socket c ∷ on_desktop_disconnected c.desktop_index ∷ [],
          )
          else (m, send_command d.socket c ∷ []))
    ]

unfoldable pub refresh_desktops_info : DesktopInfoList → List Output
refresh_desktops_info [] = []
refresh_desktops_info ((k, d) ∷ m) = on_desktop_connected k d.name ∷ refresh_desktops_info m

unfoldable pub execute_command :
    (ℕ → Bool) → DesktopCommandRequest → DesktopInfoList → Option (DesktopInfoList × List Output)
execute_command net c m =
    if c.command == edc_refresh_desktops
    then some (m, refresh_desktops_info m)
    else execute_desktop_command net c m
