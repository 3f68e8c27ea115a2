-- ===== src/Worker/Lights.antt =====
-- Turning lights off in time: `check_light_objects` of src/server/event/event_handler.cpp with the
-- delayed commands of src/server/command/command_device.cpp.
use smarty.Base.{
  false, zero, suc, ◌||◌, ◌==◌, ◌∙◌, length-set, ℕ, ◌+◌, ◌^◌, ◌≤◌, ◌<◌, ◌≡◌, ◌≢◌, refl, arith, Bool,
  ◌&&◌, ◌/=◌, leb, List, [], ◌∷◌, ◌++◌, some, if◌then◌else◌, map, length, get_elem?, set,
}
use smarty.Bits.Words.{shl_one, shl_one-eq-pow}
use smarty.Common.{ErrorCode, error_ok, DeviceCommand, ec_turnoff}
use smarty.Command.{Command, LightObject, set_turnoff_time, clear_turnoff_time, get_turnoff_timeout}
use smarty.Handler.{EventHandler, Output, push, update_modes_request, execute_command}
use smarty.Creation.{create_device_command}
use smarty.Creation.Offset.{get_bit_offset-pow}
use smarty.Worker.{check_light, check_lights, check_light_objects, execute_device}

-- The command that turns light `idx` off
abbrev pub turn_off : ℕ → Command
turn_off idx = Command.device (record { cmd = ec_turnoff; param = 2 ^ idx }) 0 idx

-- The light's time is set and has come.
abbrev pub is_over : ℕ → LightObject → Bool
is_over now l = l.turnoff_time /= 0 && leb l.turnoff_time now

abbrev pub reset : ℕ → LightObject → LightObject
reset now l = if is_over now l then record l { turnoff_time = 0 } else l

abbrev pub turn_offs : ℕ → ℕ → List LightObject → List Output
turn_offs now idx [] = []
turn_offs now idx (l ∷ ls) =
    (if is_over now l then push (turn_off idx) ∷ [] else []) ++ turn_offs now (idx + 1) ls

-- The command for light `idx` alone is for that light.
create_turn_off :
    (idx : ℕ) (h : EventHandler)
    → idx < 32
    → idx < length h.lights
    → create_device_command (record { cmd = ec_turnoff; param = shl_one idx }) 0 h
      ≡ some (turn_off idx)
unfolding create_device_command
create_turn_off idx h small known =
    rw (shl_one-eq-pow idx small) (ground (arith, get_bit_offset-pow idx))

check_light_lem :
    (now idx : ℕ) (h : EventHandler) (l : LightObject)
    → idx < 32
    → idx < length h.lights
    → check_light now h idx l
      ≡ some (reset now l, if is_over now l then push (turn_off idx) ∷ [] else [])
unfolding check_light get_turnoff_timeout clear_turnoff_time
check_light_lem now idx h l small known = ground (arith, create_turn_off idx h small known)

check_lights_lem :
    (now idx : ℕ) (h : EventHandler) (ls : List LightObject)
    → idx + length ls ≤ 32
    → idx + length ls ≤ length h.lights
    → check_lights now h idx ls ≡ some (map (reset now) ls, turn_offs now idx ls)
unfolding check_lights
check_lights_lem now idx h [] small known = refl
check_lights_lem now idx h (l ∷ ls) small known = rw (
  check_light_lem now idx h l (omega arith) (omega arith),
  check_lights_lem now (idx + 1) h ls (omega arith) (omega arith),
)

-- With at most 32 lights the check returns: for exactly the lights whose time has come it queues, in
-- order, the command that turns that light off, and clears the time; nothing else changes.
pub check_light_objects_lem :
    (now : ℕ) (h : EventHandler)
    → length h.lights ≤ 32
    → check_light_objects now h
      ≡ some (record h { lights = map (reset now) h.lights }, turn_offs now 0 h.lights)
unfolding check_light_objects
check_light_objects_lem now h small =
    rw (check_lights_lem now 0 h h.lights (omega arith) (omega arith))

-- Whether a command that turns light `idx` off is among the outputs
abbrev pub turns_off : ℕ → List Output → Bool
turns_off idx [] = false
turns_off idx (push (Command.device cmd timeout light) ∷ out) =
    (light == idx && (cmd.cmd == ec_turnoff && timeout == 0)) || turns_off idx out
turns_off idx (push (Command.mode cmd delay) ∷ out) = turns_off idx out
turns_off idx (push Command.fake ∷ out) = turns_off idx out
turns_off idx (update_modes_request bitset ∷ out) = turns_off idx out
turns_off idx (execute_command cmd ∷ out) = turns_off idx out

none_below :
    (now i idx : ℕ) (ls : List LightObject) → i < idx → turns_off i (turn_offs now idx ls) ≡ false
none_below now i idx [] low = refl
none_below now i idx (l ∷ ls) low = ground (arith, none_below now i (idx + 1) ls (omega arith))

turns_off-turn_offs :
    (now k idx : ℕ) (l : LightObject) (ls : List LightObject)
    → get_elem? ls k ≡ some l
    → turns_off (idx + k) (turn_offs now idx ls) ≡ is_over now l
turns_off-turn_offs now k idx l [] found = cc
turns_off-turn_offs now zero idx l (x ∷ ls) found =
    let at_idx : idx + 0 ≡ idx = omega arith in
    rw at_idx (ground (arith, none_below now idx (idx + 1) ls (omega arith)))
turns_off-turn_offs now (suc k) idx l (x ∷ ls) found =
    let shift : idx + suc k ≡ idx + 1 + k = omega arith in
    rw shift (ground (arith, turns_off-turn_offs now k (idx + 1) l ls found))

get_elem?-set :
    (ls : List LightObject) (i : ℕ) (l l' : LightObject)
    → get_elem? ls i ≡ some l
    → get_elem? (set ls i l') i ≡ some l'
get_elem?-set [] i l l' found = cc
get_elem?-set (x ∷ ls) zero l l' found = refl
get_elem?-set (x ∷ ls) (suc i) l l' found = get_elem?-set ls i l l' found

get_elem?-map :
    (f : LightObject → LightObject) (ls : List LightObject) (i : ℕ) (l : LightObject)
    → get_elem? ls i ≡ some l
    → get_elem? (map f ls) i ≡ some (f l)
get_elem?-map f [] i l found = cc
get_elem?-map f (x ∷ ls) zero l found = ground arith
get_elem?-map f (x ∷ ls) (suc i) l found = get_elem?-map f ls i l found

-- With at most 32 lights, a device command with a delay for one of them, whatever it asks for, is not
-- sent to the device and queues nothing. A check of the lights at any later or earlier time `now`
-- queues the command that turns this light off exactly if the time of the command and the delay have
-- passed by then, and clears the time of the light; before that the time stands.
pub delayed_turns_off :
    (start now timeout idx : ℕ) (answer : ErrorCode) (cmd : DeviceCommand) (h : EventHandler)
    (l : LightObject)
    → timeout ≢ 0
    → length h.lights ≤ 32
    → get_elem? h.lights idx ≡ some l
    → (h' : EventHandler) × (h'' : EventHandler) × (out : List Output) × (execute_device start
          answer cmd timeout idx h
        ≡ some (h', [], error_ok))
      × (check_light_objects now h' ≡ some (h'', out))
      × (turns_off idx out ≡ leb (start + timeout) now)
      × (get_elem? h''.lights idx
          ≡ some (record l {
            turnoff_time = if leb (start + timeout) now then 0 else start + timeout;
          }))
unfolding execute_device set_turnoff_time
delayed_turns_off start now timeout idx answer cmd h l delayed small found =
    let l' = record l { turnoff_time = start + timeout } in
    let h' = record h { lights = set h.lights idx l' } in
    let at_idx : 0 + idx ≡ idx = omega arith in
    let there = get_elem?-set h.lights idx l l' found in
    let over : is_over now l' ≡ leb (start + timeout) now = ground arith in
    (
      h',
      record h' { lights = map (reset now) h'.lights },
      turn_offs now 0 h'.lights,
      ground arith,
      check_light_objects_lem now h' (omega (arith, length-set h.lights idx l')),
      (rw at_idx at (turns_off-turn_offs now idx 0 l' h'.lights there)) ∙ over,
      get_elem?-map (reset now) h'.lights idx l' there ∙ ground (arith, over),
    )
