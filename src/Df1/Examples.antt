-- ===== src/Df1/Examples.antt =====
-- Runs of the model of df1.c, and its theorems at concrete messages and lines.
pub mod Commands
mod Tags
use tux_plc.Base.{
  ℕ, zero, suc, ◌+◌, ◌≤◌, ◌<◌, ◌≡◌, ◌≢◌, refl, List, [], ◌∷◌, ◌++◌, arith, Option, none, some,
  length, if◌then◌else◌, ◌%◌,
}
use tux_plc.Base.Bits.{word_of}
use tux_plc.Base.Int.{ℤ, pos, ◌==ℤ◌}
use tux_plc.Base.Libc.Digits.{digits_value}
use tux_plc.Df1.{
  dle, stx, etx, ack, nak, slc, success, error_nak, error_tns_mismatch, error_send_df1, Msg,
  zero_msg, Buffer, Address,
}
use tux_plc.Df1.Addressing.{
  calc_address, address_loop, switch, set_file, sub_element, name_sub, number_sub,
}
use tux_plc.Df1.Addressing.Fields.{element, integer, bits, calc_address-element, calc_address-bit}
use tux_plc.Df1.Buffers.{contents}
use tux_plc.Df1.Buffers.Rows.{buffer_of, escape}
use tux_plc.Df1.Command.{
  bit_mask, bit_message, read_a2, read_integer, read_message, write_aa, write_boolean,
  write_message,
}
use tux_plc.Df1.Command.Exchange.{Fits-short, answer, exchanged}
use tux_plc.Df1.Command.Reads.{
  new_tns, counted, after, read_a2-answer, read_a2-tns, read_a2-sts, read_integer-answer,
}
use tux_plc.Df1.Command.Writes.{write_aa-answer, write_boolean-answer}
use tux_plc.Df1.Crc.{calc_crc, compute_crc, crc_rounds, crc_shift, crc_loop}
use tux_plc.Df1.Crc.Detects.{compute_crc-ne}
use tux_plc.Df1.Port.{Port, done, out_of_fuel, byte, timeout, Wait}
use tux_plc.Df1.Port.Waiting.{waiting, written, flowing, written_times}
use tux_plc.Df1.Query.{
  select_fnct, kind, known_file, before_delimiter, behind_delimiter, upper_all, file_kind,
  write_kind,
}
use tux_plc.Df1.Query.Kinds.{kind_by_precedence, kind-kind_by_precedence}
use tux_plc.Df1.Receive.{rcv_df1, round, again}
use tux_plc.Df1.Receive.Delivers.{IsMsg, Carries, rcv_df1-data_send, round-changed}
use tux_plc.Df1.Receive.RoundTrip.{framed}
use tux_plc.Df1.Receive.Silent.{silenced, rcv_df1-cut}
use tux_plc.Df1.Send.{data_send, send_df1}
use tux_plc.Df1.Send.Answers.{naks, send_df1-naks-ack, send_df1-naks}
use tux_plc.Df1.Send.Frame.{frame}
use tux_plc.Df1.Send.Total.{IsSendCode, send_df1-ends}

-- A port with nothing on the line and the transaction number 41.
abbrev pub idle : Port
idle = record { input = []; now = 0; accepted = []; output = []; tns = 41 }

-- Three bytes of data, each a DLE.
abbrev pub escapes : Msg
escapes = record { dst = 1; src = 0; cmd = 15; sts = 0; tns = 42; body = λ _. 16; size = 3 }

pub escapes-IsMsg : IsMsg escapes
escapes-IsMsg = record {
  dst = omega arith;
  src = omega arith;
  cmd = omega arith;
  sts = omega arith;
  tns = omega arith;
  body = λ i. omega arith;
  size = omega arith;
}

-- A reply to the 42nd request with another status.
abbrev pub refused : Msg
refused = record { dst = 0; src = 1; cmd = 79; sts = 16; tns = 42; body = λ _. 5; size = 0 }

pub refused-IsMsg : IsMsg refused
refused-IsMsg = record {
  dst = omega arith;
  src = omega arith;
  cmd = omega arith;
  sts = omega arith;
  tns = omega arith;
  body = λ i. omega arith;
  size = omega arith;
}

-- N7:12
abbrev pub n7_12 : Address
n7_12 = record { size = 2; file_number = 7; file_type = 0x89; ele_number = 12; s_ele_number = 0 }

compute_crc-ne_example :
    compute_crc (buffer_of (1 ∷ 3 ∷ 2 ∷ [])) ≢ compute_crc (buffer_of (1 ∷ 4 ∷ 2 ∷ []))
compute_crc-ne_example =
    compute_crc-ne (1 ∷ []) (2 ∷ []) 3 4 (omega arith) (omega arith) (omega arith) (omega arith)
      (omega arith)

-- The checksum of the bytes 1 to 9 without the closing ETX is the check value of this CRC-16.
crc_check_value : crc_loop 9 0 (λ i. b'1' + i) 0 ≡ 0xbb3d
unfolding crc_loop calc_crc crc_rounds crc_shift
crc_check_value = refl

rcv_df1-data_send_example :
    (b : Buffer) × (r : Msg) × (data_send escapes ≡ some b)
    × (rcv_df1 20 zero_msg (waiting (contents b ++ 99 ∷ []) idle)
        ≡ done (success, r) (written (dle ∷ ack ∷ []) (waiting (99 ∷ []) idle)))
    × Carries escapes r
rcv_df1-data_send_example =
    rcv_df1-data_send escapes zero_msg (99 ∷ []) idle 20 escapes-IsMsg
      (Fits-short escapes (omega arith)) (omega arith)

round-changed_example :
    round 20 (waiting (framed (1 ∷ 7 ∷ 2 ∷ []) (compute_crc (buffer_of (1 ∷ 3 ∷ 2 ∷ []))) []) idle)
    ≡ done again (written (dle ∷ nak ∷ []) (waiting [] idle))
round-changed_example =
    round-changed (1 ∷ []) (2 ∷ []) [] 3 7 idle 20 (omega arith) (omega arith) (omega arith)
      (omega arith) (omega arith) (omega arith) (omega arith)

send_df1-naks-ack_example :
    send_df1 9 escapes (waiting (naks 2 (dle ∷ ack ∷ 99 ∷ [])) (flowing idle))
    ≡ done success (waiting (99 ∷ []) (flowing (written_times 3 (frame escapes) idle)))
send_df1-naks-ack_example =
    send_df1-naks-ack escapes (Fits-short escapes (omega arith)) (99 ∷ []) idle 2 9 (omega arith)
      (omega arith)

send_df1-naks_example :
    send_df1 5 escapes (waiting (naks 4 []) (flowing idle))
    ≡ done error_nak (waiting [] (flowing (written_times 4 (frame escapes) idle)))
send_df1-naks_example = send_df1-naks escapes (Fits-short escapes (omega arith)) [] idle 1

-- The silent line.
send_df1-ends_example : (e : ℤ) × (q : Port) × (send_df1 15 escapes idle ≡ done e q) × IsSendCode e
send_df1-ends_example = send_df1-ends escapes idle 15 (omega arith) (omega arith)
