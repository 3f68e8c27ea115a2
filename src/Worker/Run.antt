-- ===== src/Worker/Run.antt =====
-- The loop of event_handler_t::do_run (src/server/event/event_handler.cpp) fails no ASSERT.
use smarty.Base.{
  ℕ, zero, suc, ◌+◌, ◌≤◌, ◌<◌, ◌≡◌, refl, ◌∙◌, arith, Bool, true, ◌/=◌, List, [], ◌∷◌, ◌++◌, Option,
  none, some, map, length, get_elem?, set, length-set, All, All-append, Bool-cases, inl, inr,
}
use smarty.Common.{ErrorCode, DeviceCommand}
use smarty.Command.{Command, LightObject, fake, set_turnoff_time}
use smarty.Handler.{
  EventHandler, Output, push, update_modes_request, execute_command, Result, mode_bit_set,
  set_mode_bit,
}
use smarty.Creation.Built.{CommandFits, IsBuilt, relit, remoded}
use smarty.Worker.{execute_device, process_command, process_queue, Round, run_round, do_run}
use smarty.Worker.Lights.{reset, turn_offs, check_light_objects_lem}

abbrev pub OutputFits : ℕ → Output → Type 0
OutputFits n (push c) = CommandFits n c
OutputFits n (update_modes_request bitset) = Unit {0}
OutputFits n (execute_command cmd) = Unit {0}

abbrev pub PoppedFits : ℕ → Option Command → Type 0
PoppedFits n none = Unit {0}
PoppedFits n (some c) = CommandFits n c

-- The clients are set, and the handler is built with n lights, at most 32.
pub record IsReady (n : ℕ) (h : EventHandler) : Type 0 where
  pub clients : h.has_clients ≡ true
  pub built : IsBuilt n h
  pub few : n ≤ 32

-- The operation returns, to a ready handler, and all that it queues fits.
abbrev pub Returns : ℕ → Result → Type 0
Returns n r =
    (h : EventHandler) × (out : List Output) × (r ≡ some (h, out))
    × IsReady n h
    × All (OutputFits n) out

get_elem?-below {ℓ} :
    {A : Type ℓ} (xs : List A) (i : ℕ) → i < length xs → (a : A) × (get_elem? xs i ≡ some a)
get_elem?-below [] i h = elim h [ ]
get_elem?-below (x ∷ xs) zero h = (x, refl)
get_elem?-below (x ∷ xs) (suc i) h = get_elem?-below xs i (omega arith)

length-map {ℓ κ} :
    {A : Type ℓ} {B : Type κ} (f : A → B) (xs : List A) → length (map f xs) ≡ length xs
length-map f [] = refl
length-map f (x ∷ xs) = λ i. suc (length-map f xs i)

process_device :
    (n now : ℕ) (answer : ErrorCode) (cmd : DeviceCommand) (timeout idx : ℕ) (h : EventHandler)
    → IsReady n h
    → idx < n
    → Returns n (process_command now answer (Command.device cmd timeout idx) h)
unfolding process_command execute_device set_turnoff_time
process_device n now answer cmd timeout idx h r fits = elim (Bool-cases (timeout /= 0)) [
  | inl delayed ↦
      let (l, found) = get_elem?-below h.lights idx (omega (arith, r.built.count)) in
      let later = record l { turnoff_time = now + timeout } in
      (
        record h { lights = set h.lights idx later },
        [],
        ground arith,
        record {
          clients = r.clients;
          built =
              relit n h (set h.lights idx later) r.built
                (length-set h.lights idx later ∙ r.built.count);
          few = r.few;
        },
        tt,
      )
  | inr at_once ↦ (h, execute_command cmd ∷ [], ground arith, r, (tt, tt))
]

process_mode :
    (n now : ℕ) (answer : ErrorCode) (cmd : ℕ) (on_off : Bool) (delay : ℕ) (h : EventHandler)
    → IsReady n h
    → Returns n (
        process_command now answer
          (Command.mode (record { mode_bit = cmd; on_off = on_off }) delay)
          h)
unfolding process_command set_mode_bit
process_mode n now answer bit on_off delay h r =
    let bitset = mode_bit_set bit on_off h.event_modes_bitset in
    elim (Bool-cases (bitset /= h.event_modes_bitset)) [
      | inl changed ↦ (
        record h { event_modes_bitset = bitset },
        update_modes_request bitset ∷ [],
        ground arith,
        record { clients = r.clients; built = remoded n bitset h r.built; few = r.few },
        (tt, tt),
      )
      | inr same ↦ (h, [], ground arith, r, tt)
    ]

process_command-Returns :
    (n now : ℕ) (answer : ErrorCode) (c : Command) (h : EventHandler)
    → IsReady n h
    → CommandFits n c
    → Returns n (process_command now answer c h)
unfolding process_command
process_command-Returns n now answer (Command.device cmd timeout idx) h r fits =
    process_device n now answer cmd timeout idx h r fits
process_command-Returns n now answer (Command.mode cmd delay) h r fits =
    process_mode n now answer cmd.mode_bit cmd.on_off delay h r
process_command-Returns n now answer fake h r fits = (h, [], refl, r, tt)

process_queue-Returns :
    (n : ℕ) (popped : Option Command) (round : Round) (h : EventHandler)
    → round.popped ≡ popped
    → IsReady n h
    → PoppedFits n popped
    → Returns n (process_queue round h)
unfolding process_queue
process_queue-Returns n none round h e r fits = (h, [], rw (e, process_queue), r, tt)
process_queue-Returns n (some c) round h e r fits =
    let (h', out, run, ready, fit) =
      process_command-Returns n round.execute_time round.answer c h r fits in
    (h', out, rw (e, process_queue) run, ready, fit)

turn_offs-fit :
    (n now idx : ℕ) (ls : List LightObject)
    → idx + length ls ≤ n
    → All (OutputFits n) (turn_offs now idx ls)
turn_offs-fit n now idx [] b = tt
turn_offs-fit n now idx (l ∷ ls) b = ground (arith, turn_offs-fit n now (idx + 1) ls)

pub run_round-Returns :
    (n : ℕ) (round : Round) (h : EventHandler)
    → IsReady n h
    → PoppedFits n round.popped
    → Returns n (run_round round h)
unfolding run_round
run_round-Returns n round h r fits =
    let (h1, out1, run1, ready1, fit1) = process_queue-Returns n round.popped round h refl r fits in
    let now = round.check_time in
    let lights = map (reset now) h1.lights in
    let turned = turn_offs now 0 h1.lights in
    let few1 : length h1.lights ≤ 32 = omega (arith, ready1.built.count, ready1.few) in
    (
      record h1 { lights = lights },
      out1 ++ turned,
      rw (run1, check_light_objects_lem now h1 few1),
      record {
        clients = ready1.clients;
        built =
            relit n h1 lights ready1.built (length-map (reset now) h1.lights ∙ ready1.built.count);
        few = ready1.few;
      },
      All-append (OutputFits n) out1 turned fit1
          (turn_offs-fit n now 0 h1.lights (omega (arith, ready1.built.count))),
    )

-- A handler with its clients that is built with n lights, at most 32, and is given no command for a
-- light that does not exist, fails no ASSERT in any number of rounds of its thread: it stays such a
-- handler, and every command that it queues is again of that kind.
pub do_run-Returns :
    (n : ℕ) (rounds : List Round) (h : EventHandler)
    → IsReady n h
    → All (λ r. PoppedFits n r.popped) rounds
    → Returns n (do_run rounds h)
unfolding do_run
do_run-Returns n [] h r fits = (h, [], refl, r, tt)
do_run-Returns n (round ∷ rounds) h r fits =
    let (h1, out1, run1, ready1, fit1) = run_round-Returns n round h r fits.0 in
    let (h2, out2, run2, ready2, fit2) = do_run-Returns n rounds h1 ready1 fits.1 in
    (h2, out1 ++ out2, rw (run1, run2), ready2, All-append (OutputFits n) out1 out2 fit1 fit2)
