-- ===== src/Df1/Send.antt =====
-- send_DF1 of df1.c. Each loop runs on fuel.
pub mod Frame
pub mod Answers
pub mod Ends
pub mod Total
use mathlib.Core.Option
use tux_plc.Base.{
  ℕ, zero, suc, ◌+◌, Bool, true, false, Option, none, some, ltb, ◌==◌, if◌then◌else◌,
}
use tux_plc.Base.{List, leb}
use tux_plc.Base.Int.{ℤ}
use tux_plc.Df1.{
  dle, stx, etx, enq, ack, nak, success, error_nak, error_send_df1, error_timeout, Msg, Buffer,
  zero_buffer,
}
use tux_plc.Df1.Buffers.{
  add_byte2buffer, add_word2buffer, add_data2buffer, add_data2buffer_with_dle, image, contents,
}
use tux_plc.Df1.Crc.{compute_crc}
use tux_plc.Df1.Port.{out_of_fuel, Cmd, pure, ◌>>=◌, ◌>>◌, write, time, send_response, is_timeout}
use tux_plc.Df1.Symbols.{Symbol, data_flag, control_flag, no_symbol, get_symbol}

-- The buffer whose checksum is sent.
unfoldable pub crc_buffer : Msg → Buffer
crc_buffer m = add_data2buffer zero_buffer (image m) (m.size + 6)

-- dataSend: DLE STX, the message with each DLE doubled, DLE ETX, and the checksum. `none` where
-- the copy of the message does not end.
unfoldable pub data_send : Msg → Option Buffer
data_send m =
    Option.map
      (λ b.
        add_word2buffer (add_byte2buffer (add_byte2buffer b dle) etx) (compute_crc (crc_buffer m)))
      (add_data2buffer_with_dle (add_byte2buffer (add_byte2buffer zero_buffer dle) stx) m)

-- What the loop that waits for an answer comes to: too many timeouts, or a control symbol, with
-- the count of ENQ sent.
pub data Answer : Type 0 where
  silent : Answer
  heard : ℕ → ℕ → Answer

-- The loop's condition (flag!=CONTROL_FLAG) & ((c!=ACK)|(c!=NAK)): its second part is always 1.
unfoldable pub on_symbol : ℕ → Cmd Answer → Symbol → Cmd Answer
on_symbol nbr_enq again (control_flag c) = pure (heard c nbr_enq)
on_symbol nbr_enq again (data_flag c) = again
on_symbol nbr_enq again (no_symbol e) = again

-- flag=get_symbol(&c), and the loop's condition; `again` is the next round.
unfoldable pub poll : ℕ → Cmd Answer → Cmd Answer
unfolding on_symbol
poll nbr_enq again = do s ← get_symbol; on_symbol nbr_enq again s

-- The loop for ACK or NAK.
unfoldable pub await : ℕ → ℕ → ℕ → Cmd Answer
unfolding poll is_timeout
await zero start nbr_enq = λ _. out_of_fuel
await (suc f) start nbr_enq = do
  late ← is_timeout start
  if late
      then if ltb 3 (nbr_enq + 1) then pure silent else (do
        send_response enq
        start' ← time
        poll (nbr_enq + 1) (await f start' (nbr_enq + 1)))
      else poll nbr_enq (await f start nbr_enq)

-- write(...)!=dataSend.size
unfoldable pub is_complete : Option ℕ → ℕ → Bool
is_complete none size = false
is_complete (some n) size = n == size

-- The tests behind the inner loop, and the condition nbr_NAK<=3 of the outer one. `next` is the
-- outer loop, from the counts and the error code that it goes on with.
unfoldable pub answered : Answer → ℕ → ℤ → (ℕ → ℕ → ℤ → Cmd ℤ) → Cmd ℤ
answered silent nbr_nak error next = pure error_timeout
answered (heard c nbr_enq) nbr_nak error next =
    if c == ack
    then pure success
    else if c == nak
    then (if leb (nbr_nak + 1) 3 then next (nbr_nak + 1) nbr_enq error_nak else pure error_nak)
    else (if leb nbr_nak 3 then next nbr_nak nbr_enq error else pure error)

-- The outer loop.
unfoldable pub send_loop : ℕ → ℕ → Buffer → (nbr_nak nbr_enq : ℕ) → ℤ → Cmd ℤ
unfolding await is_complete answered time
send_loop inner zero b nbr_nak nbr_enq error = λ _. out_of_fuel
send_loop inner (suc f) b nbr_nak nbr_enq error = do
  n ← write (contents b)
  if is_complete n b.size
      then (do
        start ← time
        a ← await inner start nbr_enq
        answered a nbr_nak error (send_loop inner f b))
      else pure error

-- Where the frame is not finished, the call does not return.
unfoldable pub send_frame : ℕ → Option Buffer → Cmd ℤ
unfolding send_loop
send_frame fuel none = λ _. out_of_fuel
send_frame fuel (some b) = send_loop fuel fuel b 0 0 error_send_df1

unfoldable pub send_df1 : ℕ → Msg → Cmd ℤ
unfolding send_frame
send_df1 fuel m = send_frame fuel (data_send m)
