-- ===== src/Df1/Receive.antt =====
-- rcv_DF1 of df1.c. Each loop runs on fuel, one unit for each round.
pub mod RoundTrip
pub mod Delivers
pub mod Silent
use tux_plc.Base.{ℕ, zero, suc, ◌-◌, ◌+◌, ltb, ◌==◌, if◌then◌else◌}
use tux_plc.Base.Int.{ℤ}
use tux_plc.Base.Bits.{word_of, low_byte, high_byte}
use tux_plc.Df1.{
  stx, etx, enq, ack, nak, success, error_rcv_df1, Msg, zero_msg, Buffer, zero_buffer,
}
use tux_plc.Df1.Buffers.{bytes2word, add_byte2buffer, image}
use tux_plc.Df1.Crc.{compute_crc}
use tux_plc.Df1.Port.{
  Got, got, lost, Run, done, out_of_fuel, Cmd, pure, ◌>>=◌, ◌>>◌, read_byte, send_response,
}
use tux_plc.Df1.Symbols.{Symbol, data_flag, control_flag, no_symbol, get_symbol}

-- What one round of the outer loop comes to: another round, a return with an error, or a frame
-- with a good checksum.
pub data Verdict : Type 0 where
  again : Verdict
  returns : ℤ → Verdict
  accepted : Buffer → Verdict

-- do { flag=get_symbol(&c); if (flag<0) return flag; } while (flag!=CONTROL_FLAG);
unfoldable pub hunt : ℕ → (ℕ → Cmd Verdict) → Cmd Verdict
hunt zero k = λ _. out_of_fuel
hunt (suc f) k = do
  s ← get_symbol
  elim s [ no_symbol e ↦ pure (returns e) | control_flag c ↦ k c | data_flag c ↦ hunt f k ]

-- while ((flag=get_symbol(&c))!=CONTROL_FLAG) add_byte2buffer(&dataRcv,c);
-- A failed get_symbol leaves `c` as it is, and the loop goes on.
unfoldable pub collect : ℕ → ℕ → Buffer → Cmd (ℕ × Buffer)
collect zero c b = λ _. out_of_fuel
collect (suc f) c b = do
  s ← get_symbol
  elim s [
    | control_flag c' ↦ pure (c', b)
    | data_flag c' ↦ collect f c' (add_byte2buffer b c')
    | no_symbol e ↦ collect f c (add_byte2buffer b c)
  ]

-- The comparison of the checksums.
unfoldable pub judge : Buffer → ℕ → Cmd Verdict
judge b crc =
    if crc == compute_crc b
    then (do send_response ack; pure (accepted b))
    else (do send_response nak; pure again)

unfoldable pub crc_second : Buffer → ℕ → Got → Cmd Verdict
crc_second b crcb1 (lost e) = pure (returns error_rcv_df1)
crc_second b crcb1 (got crcb2) = judge b (bytes2word crcb1 crcb2)

unfoldable pub crc_first : Buffer → Got → Cmd Verdict
crc_first b (lost e) = pure (returns error_rcv_df1)
crc_first b (got crcb1) = do g ← read_byte; crc_second b crcb1 g

-- The end of the frame: behind ETX stands the checksum.
unfoldable pub close_frame : ℕ × Buffer → Cmd Verdict
close_frame (c, b) =
    if c == etx then (do g ← read_byte; crc_first b g) else (do send_response nak; pure again)

-- The switch on the control symbol; last_response is NAK in every round.
unfoldable pub control : ℕ → ℕ → Cmd Verdict
control f c =
    if c == enq
    then (do send_response nak; pure again)
    else if c == stx
    then (do r ← collect f c zero_buffer; close_frame r)
    else (do send_response nak; pure again)

-- One round of the outer loop.
unfoldable pub round : ℕ → Cmd Verdict
round f = hunt f (control f)

-- memcpy(Df1Data, dataRcv.data, dataRcv.size): the bytes of the message that the buffer covers.
-- A buffer's size is a byte, so it ends inside the data.
unfoldable pub store : Msg → Buffer → Msg
store m b = record {
  dst = if ltb 0 b.size then b.bytes 0 else m.dst;
  src = if ltb 1 b.size then b.bytes 1 else m.src;
  cmd = if ltb 2 b.size then b.bytes 2 else m.cmd;
  sts = if ltb 3 b.size then b.bytes 3 else m.sts;
  tns =
      word_of (if ltb 4 b.size then b.bytes 4 else low_byte m.tns)
        (if ltb 5 b.size then b.bytes 5 else high_byte m.tns);
  body = λ i. if ltb (i + 6) b.size then b.bytes (i + 6) else m.body i;
  size = m.size;
}

unfoldable pub settle : Msg → Verdict → Cmd (ℤ × Msg) → Cmd (ℤ × Msg)
settle m again k = k
settle m (returns e) k = pure (e, m)
settle m (accepted b) k = pure (success, store m b)

-- The outer loop; `inner` is the fuel of the loops inside.
unfoldable pub rcv_loop : ℕ → ℕ → Msg → Cmd (ℤ × Msg)
rcv_loop inner zero m = λ _. out_of_fuel
rcv_loop inner (suc f) m = do v ← round inner; settle m v (rcv_loop inner f m)

unfoldable pub rcv_df1 : ℕ → Msg → Cmd (ℤ × Msg)
rcv_df1 fuel m = rcv_loop fuel fuel m
