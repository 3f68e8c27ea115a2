-- ===== src/Tests/Boards.antt =====
-- Runs of the programs of the microcontroller (src/mc/smarty_ir.v2.0.c, src/mc/smarty_ir.v1.0.c).
use smarty.Base.{◌≡◌, ◌↔◌, refl, arith, true, false, [], ◌∷◌, ◌++◌, none, get_or}
use smarty.Bits.{test_bit}
use smarty.Bits.Words.{bit_not, shl_one}
use smarty.Firmware.{new_link, receive_byte, check_command, finish_command}
use smarty.Firmware.Board.{
  Pins, byte, loop, new_board, run, turn, read_buttons, sensors_of, execute_command, update_lights,
  process_command, set_buffer, read_sensors,
}
use smarty.Firmware.Frames.{Holds, head_of, bytes_in, turns_in}
use smarty.Firmware.Lights.{lit_after, disabled_after, lights_state-run}
use smarty.Firmware.Refusals.{InBounds, Refused, first_byte-run, receive_byte-InBounds}
use smarty.Firmware.First
use smarty.Firmware.Toggles.{toggled_lights_lem}

-- No button is pressed, no sensor is set.
abbrev open_pins : Pins
open_pins = record { pinb = 255; pinc = 255; pind = 255 }

-- The button of the lowest light is pressed.
abbrev pressed_pins : Pins
pressed_pins = record { pinb = 255; pinc = 127; pind = 255 }

new_board-Holds : Holds new_board.link.recv_buffer 0 new_board
unfolding new_board new_link
new_board-Holds = record { buffered = refl; at_pos = refl; incomplete = refl }

new_board-InBounds : InBounds new_board
unfolding new_board new_link
new_board-InBounds = omega arith

-- Two turns, then the command to turn the third light on: the first turn after `new_board` sets the
-- high bits of the lights, which no pin shows.
frame_shown :
    (run
      (loop open_pins ∷ bytes_in (head_of 1 4 [] (open_pins ∷ []) [] [] [])
        ++ (byte 255 ∷ loop open_pins ∷ []))
      new_board).lights_state
    ≡ 4294967044
unfolding run new_board new_link turn receive_byte check_command finish_command execute_command
    update_lights process_command set_buffer read_sensors read_buttons sensors_of test_bit bit_not
frame_shown = refl

lights_state-run_example :
    let after =
      run
        (bytes_in (head_of 1 4 [] (pressed_pins ∷ []) [] [] (open_pins ∷ []))
          ++ (byte 255 ∷ loop open_pins ∷ []))
        new_board in
    let quiet =
      run
        (turns_in (head_of 1 4 [] (pressed_pins ∷ []) [] [] (open_pins ∷ []))
          ++ loop open_pins ∷ [])
        new_board in
    (test_bit after.lights_state 2 ≡ lit_after 1 4 2 (test_bit quiet.lights_state 2))
    × (test_bit after.buttons_disabled_state 2
        ≡ disabled_after 1 4 2 (test_bit quiet.buttons_disabled_state 2))
    × (after.link.pos ≡ 0)
    × (after.link.process_it ≡ false)
lights_state-run_example =
    lights_state-run 1 4 [] (pressed_pins ∷ []) [] [] (open_pins ∷ []) open_pins new_board 2
      (omega arith) (omega arith) new_board-Holds new_board-InBounds.received (omega arith)

first_byte-run_example :
    let after =
      run (bytes_in ((1, open_pins ∷ []) ∷ []) ++ (byte 255 ∷ loop open_pins ∷ [])) new_board in
    Refused (run (turns_in ((1, open_pins ∷ []) ∷ []) ++ loop open_pins ∷ []) new_board) after
    × (get_or (run (loop pressed_pins ∷ []) after).link.send_buffer 0 0 ≡ 0xEE)
first_byte-run_example =
    first_byte-run ((1, open_pins ∷ []) ∷ []) open_pins (loop pressed_pins ∷ []) new_board
      (omega arith) (omega arith) new_board-Holds new_board-InBounds

receive_byte-InBounds_example :
    InBounds (run (byte 1 ∷ byte 2 ∷ byte 3 ∷ byte 4 ∷ byte 5 ∷ byte 6 ∷ []) new_board)
    × (((receive_byte 7
            (run (byte 1 ∷ byte 2 ∷ byte 3 ∷ byte 4 ∷ byte 5 ∷ byte 6 ∷ []) new_board).link).1
          ≡ none)
        ↔ ((run (byte 1 ∷ byte 2 ∷ byte 3 ∷ byte 4 ∷ byte 5 ∷ byte 6 ∷ []) new_board).link.pos ≡ 6))
receive_byte-InBounds_example =
    receive_byte-InBounds (byte 1 ∷ byte 2 ∷ byte 3 ∷ byte 4 ∷ byte 5 ∷ byte 6 ∷ []) new_board 7
      new_board-InBounds

seventh_byte :
    (receive_byte 7
      (run (byte 1 ∷ byte 2 ∷ byte 3 ∷ byte 4 ∷ byte 5 ∷ byte 6 ∷ []) new_board).link).1
    ≡ none
unfolding run new_board new_link receive_byte
seventh_byte = refl

-- The board of the older program: the first and the third button are pressed, light 2 is to be
-- turned off.
abbrev old_board : First.Board
old_board = record {
  link = record {
    recv_buffer = 2 ∷ 4 ∷ 0 ∷ 0 ∷ 0 ∷ 255 ∷ [];
    send_buffer = 0 ∷ 0 ∷ 5 ∷ 5 ∷ 0 ∷ 255 ∷ [];
    pos = 6;
    process_it = true;
  };
  btn_state = 5;
  btn_disabled = false;
  alter_state = 0;
  sensor_state = 0;
  light_port = 5;
}

abbrev old_pins : First.Pins
old_pins = record { pina = 250; pinb = 255; pind = 255 }

old_update : (First.update_lights old_pins (First.execute_command old_board)).btn_state ≡ 5
unfolding First.update_lights First.execute_command First.check_btn_bits test_bit shl_one
old_update = refl

toggled_lights_lem_example :
    test_bit (First.update_lights old_pins (First.execute_command old_board)).light_port 2
    ≡ lit_after 2 4 2 (test_bit 5 2)
toggled_lights_lem_example = toggled_lights_lem old_pins old_board 2 (omega arith) refl old_update
