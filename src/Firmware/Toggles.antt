-- ===== src/Firmware/Toggles.antt =====
-- The commands of src/mc/smarty_ir.v1.0.c, which toggle lights, against those of the later program.
use smarty.Base.{
  Bool-cases, inl, inr, ◌⊎◌, ℕ, zero, suc, ◌+◌, ◌≤◌, ◌<◌, ◌≡◌, ◌∙◌, refl, ap, arith, Bool, false,
  ◌&&◌, ◌==◌, List, bit_xor, get_or,
}
use mathlib.Core.Bool.{xor}
use smarty.Bits.{test_bit}
use smarty.Bits.Laws.{test_bit-bit_xor}
use smarty.Bits.Words.{shl_one, test_bit-shl_one, masked_bit}
use smarty.Firmware.First.{Board, Pins, update_lights, change_light, change_lights, execute_command}
use smarty.Firmware.Lights.{lit_after}

-- Whether a command toggles a light that was sent as on or off
abbrev toggles : (cmd param i : ℕ) → Bool → Bool
toggles cmd param i on = xor on (lit_after cmd param i on)

change_light-bits :
    (cmd param : ℕ) (sent : List ℕ) (pin alter i : ℕ)
    → pin < 32
    → (cmd ≡ 1) ⊎ ((cmd ≡ 2) ⊎ (cmd ≡ 3))
    → test_bit (change_light cmd param sent pin alter) i
      ≡ xor
          (test_bit alter i)
          ((pin == i) && toggles cmd param pin (test_bit (get_or sent 2 0) pin))
unfolding change_light xor
change_light-bits cmd param sent pin alter i low kind = ground (
  arith,
  masked_bit param pin low,
  masked_bit (get_or sent 2 0) pin low,
  test_bit-bit_xor alter (shl_one pin) i,
  test_bit-shl_one pin i low,
)

change_light-other :
    (cmd param : ℕ) (sent : List ℕ) (pin alter i : ℕ)
    → pin < 32
    → (pin == i) ≡ false
    → (cmd ≡ 1) ⊎ ((cmd ≡ 2) ⊎ (cmd ≡ 3))
    → test_bit (change_light cmd param sent pin alter) i ≡ test_bit alter i
unfolding xor
change_light-other cmd param sent pin alter i low other kind =
    ground (arith, change_light-bits cmd param sent pin alter i low kind)

change_lights-below :
    (cmd param : ℕ) (sent : List ℕ) (idx left alter i : ℕ)
    → idx + left ≤ 32
    → i < idx
    → (cmd ≡ 1) ⊎ ((cmd ≡ 2) ⊎ (cmd ≡ 3))
    → test_bit (change_lights cmd param sent idx left alter) i ≡ test_bit alter i
unfolding change_lights xor
change_lights-below cmd param sent idx zero alter i low before kind = refl
change_lights-below cmd param sent idx (suc left) alter i low before kind =
    change_lights-below cmd param sent (idx + 1) left _ i (omega arith) (omega arith) kind
    ∙ ground (arith, change_light-bits cmd param sent idx alter i (omega arith) kind)

change_lights-bits :
    (cmd param : ℕ) (sent : List ℕ) (idx left alter i : ℕ)
    → idx + left ≤ 32
    → idx ≤ i
    → i < idx + left
    → (cmd ≡ 1) ⊎ ((cmd ≡ 2) ⊎ (cmd ≡ 3))
    → test_bit (change_lights cmd param sent idx left alter) i
      ≡ xor (test_bit alter i) (toggles cmd param i (test_bit (get_or sent 2 0) i))
unfolding change_lights
change_lights-bits cmd param sent idx zero alter i low from to kind = absurd (omega arith)
change_lights-bits cmd param sent idx (suc left) alter i low from to kind =
    elim (Bool-cases (idx == i)) [
      | inl here ↦
          (let at_i : idx ≡ i = ground arith in
            change_lights-below cmd param sent (idx + 1) left _ i (omega arith) (omega arith) kind
            ∙ ground (arith, at_i, change_light-bits cmd param sent idx alter i (omega arith) kind))
      | inr later ↦
          (let next : idx + 1 ≤ i = ground arith in
            change_lights-bits cmd param sent (idx + 1) left _ i (omega arith) next (omega arith)
              kind
            ∙ ap (λ v. xor v (toggles cmd param i (test_bit (get_or sent 2 0) i)))
                (change_light-other cmd param sent idx alter i (omega arith) later kind))
    ]

execute_command-alter :
    (b : Board) (i : ℕ)
    → i < 8
    → test_bit (execute_command b).alter_state i
      ≡ xor (test_bit b.alter_state i) (
          toggles
            (get_or b.link.recv_buffer 0 0)
            (get_or b.link.recv_buffer 1 0)
            i
            (test_bit (get_or b.link.send_buffer 2 0) i))
unfolding execute_command xor
execute_command-alter b i low =
    let cmd = get_or b.link.recv_buffer 0 0 in
    let param = get_or b.link.recv_buffer 1 0 in
    ground (
      arith,
      change_lights-bits cmd param b.link.send_buffer 0 8 b.alter_state i (omega arith)
          (omega arith) (omega arith),
    )

update_lights-port :
    (p : Pins) (b : Board) (i : ℕ)
    → test_bit (update_lights p b).light_port i
      ≡ xor (test_bit (update_lights p b).btn_state i) (test_bit b.alter_state i)
unfolding update_lights
update_lights-port p b i = test_bit-bit_xor _ b.alter_state i

-- Where the lights that were sent last are those of the present buttons, and the buttons read as
-- before: the update that follows a command shows each of the eight lights as the command of the
-- later program leaves it.
pub toggled_lights_lem :
    (p : Pins) (b : Board) (i : ℕ)
    → i < 8
    → get_or b.link.send_buffer 2 0 ≡ bit_xor b.btn_state b.alter_state
    → (update_lights p (execute_command b)).btn_state ≡ b.btn_state
    → test_bit (update_lights p (execute_command b)).light_port i
      ≡ lit_after
          (get_or b.link.recv_buffer 0 0)
          (get_or b.link.recv_buffer 1 0)
          i
          (test_bit (get_or b.link.send_buffer 2 0) i)
unfolding xor
toggled_lights_lem p b i low shown steady = ground (
  arith,
  update_lights-port p (execute_command b) i,
  execute_command-alter b i low,
  test_bit-bit_xor b.btn_state b.alter_state i,
  ap (λ x. test_bit x i) steady,
  ap (λ x. test_bit x i) shown,
)
