-- ===== src/Firmware/Refusals.antt =====
-- Bytes that make no command, and the bounds of the two buffers (src/mc/smarty_ir.v2.0.c).
use native.Mathlib.Nat.{zero-add}
use smarty.Base.{
  ◌↔◌, ℕ, zero, suc, ◌+◌, ◌≤◌, ◌<◌, ◌≡◌, ◌∙◌, refl, ap, arith, true, false, List, [], ◌∷◌, ◌++◌,
  get_or, set, length, length-set, none, get_elem?,
}
use smarty.Firmware.{Link, receive_byte, check_command, finish_command}
use smarty.Firmware.Board.{
  Board, Pins, Event, byte, loop, run, step, turn, process_command, set_buffer, read_sensors,
  update_lights, execute_command,
}
use smarty.Firmware.Frames.{
  Holds, Alike, Beside, AllOther, bytes_in, turns_in, bytes-Beside, refresh, refresh_link,
  refresh-Alike, run-append, step_byte-Alike, turn-refresh, same,
}

pub record InBounds (b : Board) : Type 0 where
  pub received : length b.link.recv_buffer ≡ 6
  pub sent : length b.link.send_buffer ≡ 6
  pub position : b.link.pos ≤ 6

refresh-InBounds : (p : Pins) {b : Board} → InBounds b → InBounds (refresh p b)
unfolding set_buffer read_sensors update_lights
refresh-InBounds p h = grind (arith, length-set)

process_command-InBounds : {b : Board} → InBounds b → InBounds (process_command b)
unfolding process_command execute_command finish_command
process_command-InBounds h = grind (arith, length-set)

byte-InBounds : (x : ℕ) {b : Board} → InBounds b → InBounds (step (byte x) b)
unfolding step
byte-InBounds x h = grind (arith, length-set)

turn-InBounds : (p : Pins) {b : Board} → InBounds b → InBounds (turn p b)
unfolding turn
turn-InBounds p h = process_command-InBounds (refresh-InBounds p h)

pub run-InBounds : (es : List Event) (b : Board) → InBounds b → InBounds (run es b)
unfolding run
run-InBounds [] b h = h
run-InBounds (byte x ∷ es) b h = run-InBounds es (step (byte x) b) (byte-InBounds x h)
run-InBounds (loop p ∷ es) b h = run-InBounds es (turn p b) (turn-InBounds p h)

first-set : (xs : List ℕ) (i v : ℕ) → get_or (set xs (suc i) v) 0 0 ≡ get_or xs 0 0
first-set [] i v = refl
first-set (x ∷ xs) i v = refl

-- The two bytes that `finish_command` writes
marks :
    (xs : List ℕ)
    → length xs ≡ 6
    → (get_or (set (set (set xs 1 0xEE) 0 0xEE) 4 0) 0 0 ≡ 0xEE)
      × (get_or (set (set (set xs 1 0xEE) 0 0xEE) 4 0) 1 0 ≡ 0xEE)
marks [] h = absurd (omega arith)
marks (x ∷ []) h = absurd (omega arith)
marks (x ∷ y ∷ xs) h = (refl, refl)

pub record Refused (c b : Board) : Type 0 where
  pub at_start : b.link.pos ≡ 0
  pub ready : b.link.process_it ≡ false
  pub first_byte : get_or b.link.send_buffer 0 0 ≡ 0xEE
  pub second_byte : get_or b.link.send_buffer 1 0 ≡ 0xEE
  pub unchanged : Alike b c

process_command-Refused :
    (k : ℕ) (b c : Board)
    → b.link.pos ≡ k
    → k < 6
    → b.link.process_it ≡ true
    → length b.link.send_buffer ≡ 6
    → Alike b c
    → Refused c (process_command b)
unfolding process_command check_command finish_command
process_command-Refused k b c short low complete long a =
    ground (arith, marks b.link.send_buffer long)

end_byte :
    (k : ℕ) (b : Board)
    → b.link.pos ≡ k
    → k < 6
    → ((step (byte 255) b).link.pos ≡ k + 1) × ((step (byte 255) b).link.process_it ≡ true)
unfolding step
end_byte k b at low = ground arith

end-Refused :
    (buffer : List ℕ) (k : ℕ) (b c : Board) (p : Pins)
    → k < 5
    → Beside buffer k b c
    → InBounds b
    → Refused (turn p c) (turn p (step (byte 255) b))
unfolding turn
end-Refused buffer k b c p low s bounds =
    let filled = step (byte 255) b in
    let kept = refresh_link p filled in
    let ended = end_byte k b s.holds.at_pos (omega arith) in
    rw (turn-refresh p c s.idle) (
      process_command-Refused (k + 1) (refresh p filled) (refresh p c) (kept.1 ∙ ended.0)
        (omega arith) (kept.2 ∙ ended.1) (refresh-InBounds p (byte-InBounds 255 bounds)).sent
        (refresh-Alike p (step_byte-Alike 255 s.alike)))

run-Refused :
    (ws : List (ℕ × List Pins)) (p : Pins) (b : Board)
    → length ws < 5
    → AllOther ws
    → Holds b.link.recv_buffer 0 b
    → InBounds b
    → Refused (run (turns_in ws ++ loop p ∷ []) b) (run (bytes_in ws ++ (byte 255 ∷ loop p ∷ [])) b)
run-Refused ws p b short other h bounds = rw (run-append (turns_in ws) (loop p ∷ []) b) (
    rw (run-append (bytes_in ws) (byte 255 ∷ loop p ∷ []) b) (
      unfold run in
      end-Refused _ (length ws) _ _ p short
        (rw zero-add at (
          bytes-Beside ws b.link.recv_buffer 0 b b (omega arith) other
            (record { holds = h; idle = h.incomplete; alike = same b })))
        (run-InBounds (bytes_in ws) b bounds)))

three_sets : (xs : List ℕ) (u v w : ℕ) → get_or (set (set (set xs 1 u) 2 v) 3 w) 0 0 ≡ get_or xs 0 0
three_sets [] u v w = refl
three_sets (x ∷ xs) u v w = refl

set_buffer_first :
    (b : Board) → get_or (set_buffer b).link.send_buffer 0 0 ≡ get_or b.link.send_buffer 0 0
unfolding set_buffer
set_buffer_first b = three_sets b.link.send_buffer _ _ _

same_link : (p : Pins) (b : Board) → (read_sensors p (update_lights p b)).link ≡ b.link
unfolding read_sensors update_lights
same_link p b = ground arith

refresh_first :
    (p : Pins) (b : Board)
    → get_or (refresh p b).link.send_buffer 0 0 ≡ get_or b.link.send_buffer 0 0
refresh_first p b =
    set_buffer_first (read_sensors p (update_lights p b))
    ∙ ap (λ (l : Link). get_or l.send_buffer 0 0) (same_link p b)

abbrev IsMarked : Board → Type 0
IsMarked b = get_or b.link.send_buffer 0 0 ≡ 0xEE

process_command-IsMarked : {b : Board} → InBounds b → IsMarked b → IsMarked (process_command b)
unfolding process_command finish_command execute_command
process_command-IsMarked {b} bounds marked =
    ground (arith, marks b.link.send_buffer bounds.sent, first-set b.link.send_buffer 3 0)

byte-IsMarked : (x : ℕ) (b : Board) → IsMarked b → IsMarked (step (byte x) b)
unfolding step
byte-IsMarked x b marked = ground arith

turn-IsMarked : (p : Pins) {b : Board} → InBounds b → IsMarked b → IsMarked (turn p b)
unfolding turn
turn-IsMarked p {b} bounds marked =
    process_command-IsMarked (refresh-InBounds p bounds) (refresh_first p b ∙ marked)

run-IsMarked : (es : List Event) (b : Board) → InBounds b → IsMarked b → IsMarked (run es b)
unfolding run
run-IsMarked [] b bounds marked = marked
run-IsMarked (byte x ∷ es) b bounds marked =
    run-IsMarked es (step (byte x) b) (byte-InBounds x bounds) (byte-IsMarked x b marked)
run-IsMarked (loop p ∷ es) b bounds marked =
    run-IsMarked es (turn p b) (turn-InBounds p bounds) (turn-IsMarked p bounds marked)

-- Fewer than five bytes other than 0xFF, with any turns after each, then 0xFF and a turn: the link
-- waits for the next command, the answer begins with two bytes 0xEE, buttons and lights are as the
-- turns alone would have left them; and the first byte stays 0xEE whatever happens from then on.
pub first_byte-run :
    (ws : List (ℕ × List Pins)) (p : Pins) (es : List Event) (b : Board)
    → length ws < 5
    → AllOther ws
    → Holds b.link.recv_buffer 0 b
    → InBounds b
    → let after = run (bytes_in ws ++ (byte 255 ∷ loop p ∷ [])) b in
      Refused (run (turns_in ws ++ loop p ∷ []) b) after
      × (get_or (run es after).link.send_buffer 0 0 ≡ 0xEE)
first_byte-run ws p es b short other h bounds =
    let refused = run-Refused ws p b short other h bounds in
    (
      refused,
      run-IsMarked es _ (run-InBounds (bytes_in ws ++ (byte 255 ∷ loop p ∷ [])) b bounds)
          refused.first_byte,
    )

behind_end :
    (xs : List ℕ) (i : ℕ)
    → (get_elem? xs i ≡ none → length xs ≤ i) × (length xs ≤ i → get_elem? xs i ≡ none)
behind_end [] i = (λ _. omega arith, λ _. refl)
behind_end (x ∷ xs) zero = (λ h. cc, λ h. absurd (omega arith))
behind_end (x ∷ xs) (suc i) =
    let rest = behind_end xs i in (λ h. omega (arith, rest.0 h), λ h. rest.1 (omega arith))

-- Both buffers keep their six bytes and the position stays at most 6, whatever happens from a board
-- within these bounds on; the byte that goes out is read from behind the buffer exactly when the
-- position is 6.
pub receive_byte-InBounds :
    (es : List Event) (b : Board) (x : ℕ)
    → InBounds b
    → InBounds (run es b)
      × (((receive_byte x (run es b).link).1 ≡ none) ↔ ((run es b).link.pos ≡ 6))
unfolding receive_byte
receive_byte-InBounds es b x bounds =
    let after = run-InBounds es b bounds in
    let behind = behind_end (run es b).link.send_buffer (run es b).link.pos in
    let long = after.sent in
    let low = after.position in
    (after, (λ h. omega (arith, behind.0 h), λ full. behind.1 (omega arith)))
