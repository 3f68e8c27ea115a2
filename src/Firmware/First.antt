-- ===== src/Firmware/First.antt =====
-- The program of src/mc/smarty_ir.v1.0.c: lights are the buttons, changed by what the commands have
-- toggled. All states are bytes.
use smarty.Base.{
  ℕ, zero, suc, ◌+◌, Bool, true, false, not, ◌||◌, ◌==◌, ◌/=◌, List, if◌then◌else◌, bit_and, bit_or,
  bit_xor, get_or, set,
}
use smarty.Bits.{test_bit}
use smarty.Bits.Words.{shl_one}
use smarty.Common.{ec_turnon, ec_turnoff, ec_turnall, ec_turnoffbutton, ec_turnonbutton}
use smarty.Firmware.{Link, check_command, finish_command}

pub record Board : Type 0 where
  pub link : Link
  pub btn_state : ℕ
  pub btn_disabled : Bool
  pub alter_state : ℕ
  pub sensor_state : ℕ
  pub light_port : ℕ  -- LIGHT_PORT

-- PINA, PINB and PIND
pub record Pins : Type 0 where
  pub pina : ℕ
  pub pinb : ℕ
  pub pind : ℕ

-- CHECK_BTN_BIT for the pins from `pin` on, `left` of them
unfoldable pub check_btn_bits : ℕ → (pin left : ℕ) → ℕ → ℕ
check_btn_bits port pin zero btn_state = btn_state
check_btn_bits port pin (suc left) btn_state =
    check_btn_bits port (pin + 1) left
      (if not (test_bit port pin) then bit_or btn_state (shl_one pin) else btn_state)

-- `bit_is_clear( port, pin ) ? 0 : value`
unfoldable pub if_set : ℕ → ℕ → ℕ → ℕ
if_set port pin value = if test_bit port pin then value else 0

unfoldable pub read_sensors : Pins → ℕ
unfolding if_set
read_sensors p =
    let b = if_set p.pinb in
    let d = if_set p.pind in
    bit_or
      (bit_or
        (bit_or
          (bit_or (bit_or (bit_or (bit_or (bit_or 0 (b 0 1)) (b 1 2)) (b 2 4)) (b 3 8)) (d 3 16))
          (d 4 32))
        (d 5 64))
      (d 6 128)

unfoldable pub update_lights : Pins → Board → Board
unfolding read_sensors
update_lights p b =
    let buttons = if not b.btn_disabled then check_btn_bits p.pina 0 8 0 else b.btn_state in
    let light_state = bit_xor buttons b.alter_state in
    let sensors = read_sensors p in
    record b {
      link = record (b.link) {
        send_buffer = set (set (set b.link.send_buffer 1 sensors) 2 light_state) 3 buttons;
      };
      btn_state = buttons;
      sensor_state = sensors;
      light_port = light_state;
    }

-- TURN_ON and TURN_OFF: IS_ON reads what was last sent.
unfoldable pub turn_on : List ℕ → ℕ → ℕ → ℕ
turn_on sent pin alter_state =
    if bit_and (get_or sent 2 0) (shl_one pin) /= 0
    then alter_state
    else bit_xor alter_state (shl_one pin)

unfoldable pub turn_off : List ℕ → ℕ → ℕ → ℕ
turn_off sent pin alter_state =
    if bit_and (get_or sent 2 0) (shl_one pin) /= 0
    then bit_xor alter_state (shl_one pin)
    else alter_state

-- TEST_AND_TURN_ON, TEST_AND_TURN_OFF and the choice under EC_TURNALL, for one light
unfoldable pub change_light : (cmd param : ℕ) → List ℕ → ℕ → ℕ → ℕ
unfolding turn_on turn_off
change_light cmd param sent pin alter_state =
    if cmd == ec_turnon
    then (if bit_and param (shl_one pin) /= 0 then turn_on sent pin alter_state else alter_state)
    else if cmd == ec_turnoff
    then (if bit_and param (shl_one pin) /= 0 then turn_off sent pin alter_state else alter_state)
    else if param == 0
    then turn_off sent pin alter_state
    else turn_on sent pin alter_state

-- The loops over the eight lights
unfoldable pub change_lights : (cmd param : ℕ) → List ℕ → (idx left : ℕ) → ℕ → ℕ
unfolding change_light
change_lights cmd param sent idx zero alter_state = alter_state
change_lights cmd param sent idx (suc left) alter_state =
    change_lights cmd param sent (idx + 1) left (change_light cmd param sent idx alter_state)

unfoldable pub execute_command : Board → Board
unfolding change_lights
execute_command b =
    let cmd = get_or b.link.recv_buffer 0 0 in
    let param = get_or b.link.recv_buffer 1 0 in
    if (cmd == ec_turnon) || (cmd == ec_turnoff) || (cmd == ec_turnall)
    then record b { alter_state = change_lights cmd param b.link.send_buffer 0 8 b.alter_state }
    else if cmd == ec_turnoffbutton
    then record b { btn_disabled = true }
    else if cmd == ec_turnonbutton
    then record b { btn_disabled = false }
    else b

unfoldable pub process_command : Board → Board
unfolding execute_command
process_command b =
    let valid = check_command b.link in
    let executed = if valid then execute_command b else b in
    if b.link.process_it then record executed { link = finish_command valid executed.link } else b
