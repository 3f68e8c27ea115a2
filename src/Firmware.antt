-- ===== src/Firmware.antt =====
-- The program of the microcontroller: its side of the link (src/mc/smarty_ir.v2.0.c; the older
-- src/mc/smarty_ir.v1.0.c has the same lines). Six bytes come in over SPI, one interrupt for each;
-- the loop of `main` executes them when the byte 0xFF has come. An interrupt runs between two calls
-- of the loop.
pub mod Board
pub mod Frames
pub mod Lights
pub mod Refusals
pub mod First
pub mod Toggles
use smarty.Base.{
  ℕ, ◌+◌, Bool, true, false, ◌&&◌, ◌==◌, ltb, List, [], ◌∷◌, Option, if◌then◌else◌, get_elem?,
  get_or, set, replicate,
}

-- BUFFER_SIZE, END_DATA, IRPOS
abbrev pub buffer_size : ℕ
buffer_size = 6

abbrev pub end_data : ℕ
end_data = 0xFF

abbrev pub irpos : ℕ
irpos = 4

pub record Link : Type 0 where
  pub recv_buffer : List ℕ  -- uchar
  pub send_buffer : List ℕ  -- uchar
  pub pos : ℕ  -- int
  pub process_it : Bool

-- The initial values
unfoldable pub new_link : Link
new_link = record {
  recv_buffer = replicate buffer_size 0;
  send_buffer = 0 ∷ 0 ∷ 0 ∷ 0 ∷ 0 ∷ 0xFF ∷ [];
  pos = 0;
  process_it = false;
}

-- ISR( SPI_STC_vect ), for the byte that has come: the byte that goes out next is `none` where the
-- source reads behind the end of `send_buffer`.
unfoldable pub receive_byte : ℕ → Link → Link × Option ℕ
receive_byte byte l =
    let sent = get_elem? l.send_buffer l.pos in
    (
      if ltb l.pos buffer_size
          then record l {
            recv_buffer = set l.recv_buffer l.pos byte;
            pos = l.pos + 1;
            process_it = if byte == end_data then true else l.process_it;
          }
          else record l { pos = 0 },
      sent,
    )

unfoldable pub check_command : Link → Bool
check_command l =
    let byte = λ (i : ℕ). get_or l.recv_buffer i 0 in
    l.pos == 6 && (byte 2 == 0) && (byte 3 == 0) && (byte 4 == 0) && (byte 5 == 0xFF)

-- What `process_command` does with the link once `process_it` is set, `valid` being the result of
-- `check_command`
unfoldable pub finish_command : Bool → Link → Link
finish_command valid l =
    let answered = if valid then l.send_buffer else set (set l.send_buffer 1 0xEE) 0 0xEE in
    record l { send_buffer = set answered irpos 0; pos = 0; process_it = false }
