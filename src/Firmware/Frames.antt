-- ===== src/Firmware/Frames.antt =====
-- Six bytes that come in, with turns of the loop between them (src/mc/smarty_ir.v2.0.c).
use smarty.Base.{
  ℕ, suc, ◌+◌, ◌≤◌, ◌<◌, ◌≡◌, ◌≢◌, ◌∙◌, refl, arith, true, false, List, [], ◌∷◌, ◌++◌, get_or, set,
  length,
}
use smarty.Firmware.{check_command, finish_command}
use smarty.Firmware.Board.{
  update_lights, read_sensors, process_command, set_buffer, Board, Pins, Event, byte, loop, step,
  run, turn, execute_command,
}

abbrev pub loops : List Pins → List Event
loops [] = []
loops (p ∷ ps) = loop p ∷ loops ps

-- The link has taken `k` bytes into the buffer, and no command is complete.
pub record Holds (buffer : List ℕ) (k : ℕ) (b : Board) : Type 0 where
  pub buffered : b.link.recv_buffer ≡ buffer
  pub at_pos : b.link.pos ≡ k
  pub incomplete : b.link.process_it ≡ false

-- The same state of buttons, lights and sensors, whatever the links hold
pub record Alike (b c : Board) : Type 0 where
  pub buttons : b.buttons_state ≡ c.buttons_state
  pub disabled : b.buttons_disabled_state ≡ c.buttons_disabled_state
  pub lights : b.lights_state ≡ c.lights_state
  pub sensors : b.sensors_state ≡ c.sensors_state

pub run-append : (es fs : List Event) (b : Board) → run (es ++ fs) b ≡ run fs (run es b)
unfolding run
run-append [] fs b = refl
run-append (e ∷ es) fs b = run-append es fs (step e b)

step_byte-Holds :
    {buffer : List ℕ} {k : ℕ} {b : Board} (x : ℕ)
    → k < 6
    → x ≢ 255
    → Holds buffer k b
    → Holds (set buffer k x) (k + 1) (step (byte x) b)
unfolding step
step_byte-Holds x low other h = ground arith

pub step_byte-Alike : {b c : Board} (x : ℕ) → Alike b c → Alike (step (byte x) b) c
unfolding step
step_byte-Alike x a = ground arith

turn-Holds :
    {buffer : List ℕ} {k : ℕ} {b : Board} (p : Pins) → Holds buffer k b → Holds buffer k (turn p b)
unfolding turn
turn-Holds p h = ground arith

turn-Alike :
    {b c : Board} (p : Pins)
    → b.link.process_it ≡ false
    → c.link.process_it ≡ false
    → Alike b c
    → Alike (turn p b) (turn p c)
unfolding turn
turn-Alike p h k a = ground arith

-- A board in the middle of a frame, beside one that hears nothing
pub record Beside (buffer : List ℕ) (k : ℕ) (b c : Board) : Type 0 where
  pub holds : Holds buffer k b
  pub idle : c.link.process_it ≡ false
  pub alike : Alike b c

turn_idle : (c : Board) (p : Pins) → c.link.process_it ≡ false → (turn p c).link.process_it ≡ false
unfolding turn
turn_idle c p h = ground arith

turn-Beside :
    {buffer : List ℕ} {k : ℕ} {b c : Board} (p : Pins)
    → Beside buffer k b c
    → Beside buffer k (turn p b) (turn p c)
turn-Beside {c} p s = record {
  holds = turn-Holds p s.holds;
  idle = turn_idle c p s.idle;
  alike = turn-Alike p s.holds.incomplete s.idle s.alike;
}

loops-Beside :
    {buffer : List ℕ} {k : ℕ} (ps : List Pins) (b c : Board)
    → Beside buffer k b c
    → Beside buffer k (run (loops ps) b) (run (loops ps) c)
unfolding run
loops-Beside [] b c s = s
loops-Beside (p ∷ ps) b c s = loops-Beside ps (turn p b) (turn p c) (turn-Beside p s)

pub same : (b : Board) → Alike b b
same b = record { buttons = refl; disabled = refl; lights = refl; sensors = refl }

byte-Beside :
    {buffer : List ℕ} {k : ℕ} {b c : Board} (x : ℕ)
    → k < 6
    → x ≢ 255
    → Beside buffer k b c
    → Beside (set buffer k x) (k + 1) (step (byte x) b) c
byte-Beside x low other s = record {
  holds = step_byte-Holds x low other s.holds;
  idle = s.idle;
  alike = step_byte-Alike x s.alike;
}

-- Bytes other than 0xFF, with the turns of the loop after each
abbrev pub bytes_in : List (ℕ × List Pins) → List Event
bytes_in [] = []
bytes_in ((x, ps) ∷ rest) = byte x ∷ (loops ps ++ bytes_in rest)

abbrev pub turns_in : List (ℕ × List Pins) → List Event
turns_in [] = []
turns_in ((x, ps) ∷ rest) = loops ps ++ turns_in rest

abbrev pub fill : List ℕ → ℕ → List (ℕ × List Pins) → List ℕ
fill buffer k [] = buffer
fill buffer k ((x, ps) ∷ rest) = fill (set buffer k x) (k + 1) rest

abbrev pub AllOther : List (ℕ × List Pins) → Type 0
AllOther [] = Unit
AllOther ((x, ps) ∷ rest) = (x ≢ 255) × AllOther rest

pub bytes-Beside :
    (ws : List (ℕ × List Pins)) (buffer : List ℕ) (k : ℕ) (b c : Board)
    → k + length ws ≤ 6
    → AllOther ws
    → Beside buffer k b c
    → Beside (fill buffer k ws) (k + length ws) (run (bytes_in ws) b) (run (turns_in ws) c)
unfolding run
bytes-Beside [] buffer k b c low other s = let none_left : k + 0 ≡ k = omega arith in rw none_left s
bytes-Beside ((x, ps) ∷ rest) buffer k b c low other s =
    let one_more : k + suc (length rest) ≡ k + 1 + length rest = omega arith in
    rw (run-append (loops ps) (bytes_in rest) (step (byte x) b)) (
      rw (run-append (loops ps) (turns_in rest) c) (
        rw one_more (
          bytes-Beside rest (set buffer k x) (k + 1) _ _ (omega arith) other.1
            (loops-Beside ps (step (byte x) b) c (byte-Beside x (omega arith) other.0 s)))))

-- The board with a command in its buffer
abbrev pub with_command : ℕ → ℕ → Board → Board
with_command cmd param c = record c { link = record (c.link) { recv_buffer = cmd ∷ param ∷ [] } }

-- The link waits for the next command, and the board is as after the command on board `c`.
pub record Executed (cmd param : ℕ) (c b : Board) : Type 0 where
  pub at_start : b.link.pos ≡ 0
  pub ready : b.link.process_it ≡ false
  pub obeyed : Alike b (execute_command (with_command cmd param c))

-- A turn before its call of `process_command`
abbrev pub refresh : Pins → Board → Board
refresh p b = set_buffer (read_sensors p (update_lights p b))

pub refresh_link :
    (p : Pins) (b : Board)
    → ((refresh p b).link.recv_buffer ≡ b.link.recv_buffer)
      × ((refresh p b).link.pos ≡ b.link.pos)
      × ((refresh p b).link.process_it ≡ b.link.process_it)
unfolding set_buffer read_sensors update_lights
refresh_link p b = ground arith

pub refresh-Alike : {b c : Board} (p : Pins) → Alike b c → Alike (refresh p b) (refresh p c)
unfolding set_buffer read_sensors update_lights
refresh-Alike p a = ground arith

process_command-Executed :
    (cmd param : ℕ) (b c : Board)
    → b.link.recv_buffer ≡ cmd ∷ param ∷ 0 ∷ 0 ∷ 0 ∷ 255 ∷ []
    → b.link.pos ≡ 6
    → b.link.process_it ≡ true
    → Alike b c
    → Executed cmd param c (process_command b)
unfolding process_command execute_command check_command finish_command
process_command-Executed cmd param b c buffered full complete a = ground arith

pub turn-refresh : (p : Pins) (c : Board) → c.link.process_it ≡ false → turn p c ≡ refresh p c
unfolding turn process_command
turn-refresh p c idle = ground (arith, refresh_link p c)

last_byte :
    (cmd param e : ℕ) (b : Board)
    → Holds (cmd ∷ param ∷ 0 ∷ 0 ∷ 0 ∷ e ∷ []) 5 b
    → ((step (byte 255) b).link.recv_buffer ≡ cmd ∷ param ∷ 0 ∷ 0 ∷ 0 ∷ 255 ∷ [])
      × ((step (byte 255) b).link.pos ≡ 6)
      × ((step (byte 255) b).link.process_it ≡ true)
unfolding step
last_byte cmd param e b h = ground arith

last-Executed :
    (cmd param e : ℕ) (p : Pins) {b c : Board}
    → Beside (cmd ∷ param ∷ 0 ∷ 0 ∷ 0 ∷ e ∷ []) 5 b c
    → Executed cmd param (turn p c) (turn p (step (byte 255) b))
unfolding turn
last-Executed cmd param e p {b} {c} s =
    let filled = step (byte 255) b in
    let kept = refresh_link p filled in
    let last = last_byte cmd param e b s.holds in
    rw (turn-refresh p c s.idle) (
      process_command-Executed cmd param (refresh p filled) (refresh p c) (kept.0 ∙ last.0)
        (kept.1 ∙ last.1) (kept.2 ∙ last.2) (refresh-Alike p (step_byte-Alike 255 s.alike)))

six :
    (x y : ℕ) (xs : List ℕ)
    → length xs ≡ 6
    → set (set (set (set (set xs 0 x) 1 y) 2 0) 3 0) 4 0 ≡ x ∷ y ∷ 0 ∷ 0 ∷ 0 ∷ get_or xs 5 0 ∷ []
six x y [] h = ground arith
six x y (a ∷ []) h = ground arith
six x y (a ∷ b ∷ []) h = ground arith
six x y (a ∷ b ∷ c ∷ []) h = ground arith
six x y (a ∷ b ∷ c ∷ d ∷ []) h = ground arith
six x y (a ∷ b ∷ c ∷ d ∷ e ∷ []) h = ground arith
six x y (a ∷ b ∷ c ∷ d ∷ e ∷ f ∷ []) h = refl
six x y (a ∷ b ∷ c ∷ d ∷ e ∷ f ∷ g ∷ xs) h = absurd (omega arith)

-- The bytes of a command up to the last one, with the turns after each
abbrev pub head_of : ℕ → ℕ → (g₁ g₂ g₃ g₄ g₅ : List Pins) → List (ℕ × List Pins)
head_of cmd param g₁ g₂ g₃ g₄ g₅ = (cmd, g₁) ∷ (param, g₂) ∷ (0, g₃) ∷ (0, g₄) ∷ (0, g₅) ∷ []

-- A command of six bytes, none of the first five being 0xFF, with any turns of the loop after each of
-- them: after the turn that follows the last byte it has been executed once, on what these turns
-- alone would have made of buttons, lights and sensors, and the link waits for the next.
pub run-Executed :
    (cmd param : ℕ) (g₁ g₂ g₃ g₄ g₅ : List Pins) (p : Pins) (b : Board)
    → cmd ≢ 255
    → param ≢ 255
    → Holds b.link.recv_buffer 0 b
    → length b.link.recv_buffer ≡ 6
    → Executed cmd param
        (run (turns_in (head_of cmd param g₁ g₂ g₃ g₄ g₅) ++ loop p ∷ []) b)
        (run (bytes_in (head_of cmd param g₁ g₂ g₃ g₄ g₅) ++ (byte 255 ∷ loop p ∷ [])) b)
run-Executed cmd param g₁ g₂ g₃ g₄ g₅ p b other₁ other₂ h six_bytes =
    let ws = head_of cmd param g₁ g₂ g₃ g₄ g₅ in
    rw (run-append (turns_in ws) (loop p ∷ []) b) (
      rw (run-append (bytes_in ws) (byte 255 ∷ loop p ∷ []) b) (
        unfold run in
        last-Executed cmd param (get_or b.link.recv_buffer 5 0) p (
          rw (six cmd param b.link.recv_buffer six_bytes) at (
            bytes-Beside ws b.link.recv_buffer 0 b b (omega arith) (other₁, (other₂, omega arith))
              (record { holds = h; idle = h.incomplete; alike = same b })))))
