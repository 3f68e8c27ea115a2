-- ===== src/Desktop/Table.antt =====
-- The map of desktops (src/server/desktop/desktop_register.cpp) and what each operation does to it.
use smarty.Base.{
  ℕ, ◌+◌, ◌*◌, ◌≤◌, ◌<◌, ◌≡◌, refl, arith, ◌==◌, [], ◌∷◌, Option, none, some, if◌then◌else◌, Text,
}
use smarty.Client.{is_alive, get_timeout}
use smarty.Desktop.{
  DesktopInfo, DesktopInfoList, find, erase, assign, do_remove_desktop, add_desktop,
  set_heartbeat_lasttime, on_desktop_connected,
}

-- The indices ascend from `low` on, so none occurs twice.
abbrev pub Ascends : ℕ → DesktopInfoList → Type 0
Ascends low [] = Unit {0}
Ascends low ((k, d) ∷ m) = (low ≤ k) × Ascends (k + 1) m

Ascends-mono : (low high : ℕ) (m : DesktopInfoList) → low ≤ high → Ascends high m → Ascends low m
Ascends-mono low high [] h s = tt
Ascends-mono low high ((k, d) ∷ m) h s = (omega arith, s.1)

find-below : (k low : ℕ) (m : DesktopInfoList) → Ascends low m → k < low → find k m ≡ none
unfolding find
find-below k low [] s h = refl
find-below k low ((j, d) ∷ m) s h = ground (arith, find-below k (j + 1) m s.1)

pub erase-Ascends : (k low : ℕ) (m : DesktopInfoList) → Ascends low m → Ascends low (erase k m)
unfolding erase
erase-Ascends k low [] s = tt
erase-Ascends k low ((j, d) ∷ m) s =
    ground (arith, erase-Ascends k (j + 1) m s.1, Ascends-mono low (j + 1) m)

assign-Ascends :
    (k low : ℕ) (d : DesktopInfo) (m : DesktopInfoList)
    → low ≤ k
    → Ascends low m
    → Ascends low (assign k d m)
unfolding assign
assign-Ascends k low d [] h s = (h, tt)
assign-Ascends k low d ((j, e) ∷ m) h s = ground (arith, assign-Ascends k (j + 1) d m)

pub find-erase :
    (k i low : ℕ) (m : DesktopInfoList)
    → Ascends low m
    → find i (erase k m) ≡ (if i == k then none else find i m)
unfolding find erase
find-erase k i low [] s = ground arith
find-erase k i low ((j, d) ∷ m) s =
    ground (arith, find-erase k i (j + 1) m s.1, find-below k (j + 1) m s.1)

find-assign :
    (k i low : ℕ) (d : DesktopInfo) (m : DesktopInfoList)
    → Ascends low m
    → find i (assign k d m) ≡ (if i == k then some d else find i m)
unfolding find assign
find-assign k i low d [] s = ground arith
find-assign k i low d ((j, e) ∷ m) s =
    ground (arith, find-assign k i (j + 1) d m s.1, find-below i (j + 1) m s.1)

-- A desktop that connects takes its index from whoever had it, the other indices keep theirs, the
-- indices still ascend, and the mobile clients hear of exactly this connection.
pub add_desktop_lem :
    (now socket index i : ℕ) (name : Text) (m : DesktopInfoList)
    → Ascends 0 m
    → let r = add_desktop now socket index name m in
      (find i r.0 ≡ (
        if i == index
        then some (record { socket = socket; name = name; last_time = now })
        else find i m))
      × Ascends 0 r.0
      × (r.1 ≡ on_desktop_connected index name ∷ [])
unfolding add_desktop do_remove_desktop
add_desktop_lem now socket index i name m s =
    let d : DesktopInfo = record { socket = socket; name = name; last_time = now } in
    let left = erase-Ascends index 0 m s in
    (
      ground (arith, find-assign index i 0 d (erase index m) left, find-erase index i 0 m s),
      assign-Ascends index 0 d (erase index m) (omega arith) left,
      refl,
    )

pub find-set_heartbeat_lasttime :
    (now k i low : ℕ) (m : DesktopInfoList)
    → Ascends low m
    → find i (set_heartbeat_lasttime now k m) ≡ (elim (find i m) [
      | none ↦ none
      | some d ↦ some (if i == k then record d { last_time = now } else d)
    ])
unfolding find set_heartbeat_lasttime
find-set_heartbeat_lasttime now k i low [] s = refl
find-set_heartbeat_lasttime now k i low ((j, d) ∷ m) s =
    ground (arith, find-set_heartbeat_lasttime now k i (j + 1) m s.1)

unfoldable pub alive : ℕ → Option DesktopInfo → Option DesktopInfo
alive now none = none
alive now (some d) = if is_alive now d.last_time (2 * get_timeout) then some d else none

-- The desktops that are alive
abbrev pub kept : ℕ → DesktopInfoList → DesktopInfoList
kept now [] = []
kept now ((k, d) ∷ m) =
    if is_alive now d.last_time (2 * get_timeout) then (k, d) ∷ kept now m else kept now m

pub kept-Ascends : (now low : ℕ) (m : DesktopInfoList) → Ascends low m → Ascends low (kept now m)
kept-Ascends now low [] s = tt
kept-Ascends now low ((j, d) ∷ m) s =
    ground (arith, kept-Ascends now (j + 1) m s.1, Ascends-mono low (j + 1) (kept now m))

pub find-kept :
    (now i low : ℕ) (m : DesktopInfoList)
    → Ascends low m
    → find i (kept now m) ≡ alive now (find i m)
unfolding find alive
find-kept now i low [] s = refl
find-kept now i low ((j, d) ∷ m) s =
    ground (arith, find-kept now i (j + 1) m s.1, find-below i (j + 1) m s.1)

pub set_heartbeat_lasttime-Ascends :
    (now k low : ℕ) (m : DesktopInfoList)
    → Ascends low m
    → Ascends low (set_heartbeat_lasttime now k m)
unfolding set_heartbeat_lasttime
set_heartbeat_lasttime-Ascends now k low [] s = tt
set_heartbeat_lasttime-Ascends now k low ((j, d) ∷ m) s =
    ground (arith, set_heartbeat_lasttime-Ascends now k (j + 1) m s.1)
