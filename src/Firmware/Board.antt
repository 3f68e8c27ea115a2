-- ===== src/Firmware/Board.antt =====
-- The program of src/mc/smarty_ir.v2.0.c: lights that change with every change of a button that is
-- not disabled, and the commands. A `uint32` is a word of 32 bits.
use smarty.Base.{
  ℕ, ◌%◌, not, ◌==◌, List, [], ◌∷◌, if◌then◌else◌, bit_and, bit_or, bit_xor, get_or, set,
}
use smarty.Bits.{test_bit}
use smarty.Bits.Words.{all_ones, bit_not}
use smarty.Common.{ec_turnon, ec_turnoff, ec_turnall, ec_turnoffbutton, ec_turnonbutton}
use smarty.Firmware.{Link, new_link, receive_byte, check_command, finish_command}

pub record Board : Type 0 where
  pub link : Link
  pub buttons_state : ℕ  -- uint32
  pub buttons_disabled_state : ℕ  -- uint32
  pub lights_state : ℕ  -- uint32
  pub sensors_state : ℕ  -- uint32
  pub lights_port : ℕ  -- LIGHTS_PORT, eight pins

-- The input pins: PINB, PINC and PIND
pub record Pins : Type 0 where
  pub pinb : ℕ
  pub pinc : ℕ
  pub pind : ℕ

-- `bit_is_clear( port, pin ) ? value : 0`
unfoldable pub if_clear : ℕ → ℕ → ℕ → ℕ
if_clear port pin value = if not (test_bit port pin) then value else 0

-- BUTTONS_STATE
unfoldable pub read_buttons : Pins → ℕ
unfolding if_clear
read_buttons p =
    let c = if_clear p.pinc in
    bit_or
      (bit_or
        (bit_or (bit_or (bit_or (bit_or (bit_or (c 0 128) (c 1 64)) (c 2 32)) (c 3 16)) (c 4 8))
          (c 5 4))
        (c 6 2))
      (c 7 1)

-- SENSORS_STATE
unfoldable pub sensors_of : Pins → ℕ
unfolding if_clear
sensors_of p =
    let b = if_clear p.pinb in
    let d = if_clear p.pind in
    bit_or
      (bit_or
        (bit_or (bit_or (bit_or (bit_or (bit_or (b 0 1) (b 1 2)) (b 2 4)) (b 3 8)) (d 4 16))
          (d 5 32))
        (d 6 64))
      (d 7 128)

-- The state when the loop of `main` begins; BUTTONS_PORT has just been set to 0xFF.
unfoldable pub new_board : Board
new_board = record {
  link = new_link;
  buttons_state = bit_not 0xFF;
  buttons_disabled_state = 0;
  lights_state = 0;
  sensors_state = 0;
  lights_port = 0;
}

unfoldable pub read_sensors : Pins → Board → Board
read_sensors p b =
    let current = sensors_of p in
    if not (current == b.sensors_state) then record b { sensors_state = current } else b

unfoldable pub update_lights : Pins → Board → Board
update_lights p b =
    let current = read_buttons p in
    let diff = bit_and (bit_xor b.buttons_state current) (bit_not b.buttons_disabled_state) in
    let lights = if not (diff == 0) then bit_xor b.lights_state diff else b.lights_state in
    record b { buttons_state = current; lights_state = lights; lights_port = lights % 256 }

-- `& 0xFF` of three words
unfoldable pub set_buffer : Board → Board
set_buffer b =
    let buffer =
      set (set (set b.link.send_buffer 1 (b.sensors_state % 256)) 2 (b.lights_state % 256)) 3
        (b.buttons_state % 256) in
    record b { link = record (b.link) { send_buffer = buffer } }

unfoldable pub execute_command : Board → Board
execute_command b =
    let cmd = get_or b.link.recv_buffer 0 0 in
    let param = get_or b.link.recv_buffer 1 0 in
    if cmd == ec_turnon
    then record b { lights_state = bit_or b.lights_state param }
    else if cmd == ec_turnoff
    then record b { lights_state = bit_and b.lights_state (bit_not param) }
    else if cmd == ec_turnall
    then record b { lights_state = if param == 0 then 0 else all_ones }
    else if cmd == ec_turnoffbutton
    then record b { buttons_disabled_state = bit_or b.buttons_disabled_state param }
    else if cmd == ec_turnonbutton
    then record b { buttons_disabled_state = bit_and b.buttons_disabled_state (bit_not param) }
    else b

unfoldable pub process_command : Board → Board
process_command b =
    let valid = check_command b.link in
    let executed = if valid then execute_command b else b in
    if b.link.process_it then record executed { link = finish_command valid executed.link } else b

-- One turn of the loop of `main`
unfoldable pub turn : Pins → Board → Board
unfolding read_sensors update_lights set_buffer process_command
turn p b = process_command (set_buffer (read_sensors p (update_lights p b)))

-- What happens to the board: a byte comes in, or the loop makes a turn.
pub data Event : Type 0 where
  byte : ℕ → Event
  loop : Pins → Event

unfoldable pub step : Event → Board → Board
unfolding receive_byte turn
step (byte x) b = record b { link = (receive_byte x b.link).0 }
step (loop p) b = turn p b

unfoldable pub run : List Event → Board → Board
unfolding step
run [] b = b
run (e ∷ es) b = run es (step e b)
