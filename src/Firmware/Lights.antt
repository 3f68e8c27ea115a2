-- ===== src/Firmware/Lights.antt =====
-- What buttons and commands make of the lights (src/mc/smarty_ir.v2.0.c).
use smarty.Base.{
  bit_and, bit_xor, ℕ, ◌%◌, ◌<◌, ◌≡◌, ◌≢◌, ◌∙◌, refl, ap, arith, Bool, false, not, ◌&&◌, ◌||◌, ◌==◌,
  List, [], ◌∷◌, ◌++◌, if◌then◌else◌, length,
}
use mathlib.Core.Bool.{xor}
use smarty.Bits.{test_bit}
use smarty.Bits.Laws.{test_bit-bit_and, test_bit-bit_or, test_bit-bit_xor, test_bit-zero}
use smarty.Bits.Words.{bit_not, test_bit-bit_not, test_bit-all_ones}
use smarty.Firmware.Board.{
  Board, Pins, byte, loop, run, execute_command, update_lights, read_buttons,
}
use smarty.Firmware.Frames.{Holds, head_of, bytes_in, turns_in, run-Executed, with_command}

-- Whether a light is on after a command
abbrev pub lit_after : (cmd param i : ℕ) → Bool → Bool
lit_after cmd param i on =
    if cmd == 1
    then on || test_bit param i
    else if cmd == 2
    then on && not (test_bit param i)
    else if cmd == 3
    then not (param == 0)
    else on

-- Whether a button is disabled after a command
abbrev pub disabled_after : (cmd param i : ℕ) → Bool → Bool
disabled_after cmd param i off =
    if cmd == 5
    then off || test_bit param i
    else if cmd == 6
    then off && not (test_bit param i)
    else off

execute_command_lights :
    (cmd param i : ℕ) (c : Board)
    → i < 32
    → test_bit (execute_command (with_command cmd param c)).lights_state i
      ≡ lit_after cmd param i (test_bit c.lights_state i)
unfolding execute_command
execute_command_lights cmd param i c low = ground (
  arith,
  test_bit-bit_or c.lights_state param i,
  test_bit-bit_and c.lights_state (bit_not param) i,
  test_bit-bit_not param i low,
  test_bit-all_ones i low,
  test_bit-zero i,
)

execute_command_buttons :
    (cmd param i : ℕ) (c : Board)
    → i < 32
    → test_bit (execute_command (with_command cmd param c)).buttons_disabled_state i
      ≡ disabled_after cmd param i (test_bit c.buttons_disabled_state i)
unfolding execute_command
execute_command_buttons cmd param i c low = ground (
  arith,
  test_bit-bit_or c.buttons_disabled_state param i,
  test_bit-bit_and c.buttons_disabled_state (bit_not param) i,
  test_bit-bit_not param i low,
)

-- A command of six bytes, none of the first five being 0xFF, with any turns of the loop after each of
-- them and one after the last: light and button i have become what the command makes of what the
-- turns alone would have left, and the link waits for the next command.
pub lights_state-run :
    (cmd param : ℕ) (g₁ g₂ g₃ g₄ g₅ : List Pins) (p : Pins) (b : Board) (i : ℕ)
    → cmd ≢ 255
    → param ≢ 255
    → Holds b.link.recv_buffer 0 b
    → length b.link.recv_buffer ≡ 6
    → i < 32
    → let after = run (bytes_in (head_of cmd param g₁ g₂ g₃ g₄ g₅) ++ (byte 255 ∷ loop p ∷ [])) b in
      let quiet = run (turns_in (head_of cmd param g₁ g₂ g₃ g₄ g₅) ++ loop p ∷ []) b in
      (test_bit after.lights_state i ≡ lit_after cmd param i (test_bit quiet.lights_state i))
      × (test_bit after.buttons_disabled_state i
          ≡ disabled_after cmd param i (test_bit quiet.buttons_disabled_state i))
      × (after.link.pos ≡ 0)
      × (after.link.process_it ≡ false)
lights_state-run cmd param g₁ g₂ g₃ g₄ g₅ p b i other₁ other₂ h six_bytes low =
    let quiet = run (turns_in (head_of cmd param g₁ g₂ g₃ g₄ g₅) ++ loop p ∷ []) b in
    let done = run-Executed cmd param g₁ g₂ g₃ g₄ g₅ p b other₁ other₂ h six_bytes in
    (
      ap (λ x. test_bit x i) done.obeyed.lights ∙ execute_command_lights cmd param i quiet low,
      ap (λ x. test_bit x i) done.obeyed.disabled ∙ execute_command_buttons cmd param i quiet low,
      done.at_start,
      done.ready,
    )

-- A turn of the loop changes light i exactly when button i has changed and is not disabled, and the
-- lights that are lit are the low eight.
pub update_lights_lem :
    (p : Pins) (b : Board) (i : ℕ)
    → i < 32
    → (test_bit (update_lights p b).lights_state i
        ≡ xor (test_bit b.lights_state i) (
            xor (test_bit b.buttons_state i) (test_bit (read_buttons p) i)
            && not (test_bit b.buttons_disabled_state i)))
      × ((update_lights p b).buttons_state ≡ read_buttons p)
      × ((update_lights p b).lights_port ≡ (update_lights p b).lights_state % 256)
unfolding update_lights xor
update_lights_lem p b i low =
    let current = read_buttons p in
    let changed = bit_xor b.buttons_state current in
    let enabled = bit_not b.buttons_disabled_state in
    (
      ground (
        arith,
        test_bit-bit_xor b.lights_state (bit_and changed enabled) i,
        test_bit-bit_and changed enabled i,
        test_bit-bit_xor b.buttons_state current i,
        test_bit-bit_not b.buttons_disabled_state i low,
        test_bit-zero i,
      ),
      refl,
      refl,
    )
