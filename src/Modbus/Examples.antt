-- ===== src/Modbus/Examples.antt =====
-- Runs of the model of modbus/src, and its theorems at concrete requests and replies.
use tux_plc.Base.{
  held, ℕ, ◌%◌, ◌<◌, ◌≡◌, refl, List, [], ◌∷◌, arith, not, length, get_or, ◌==◌, if◌then◌else◌,
  some, take, drop,
}
use tux_plc.Base.Int.{pos, negsuc}
use tux_plc.Modbus.{
  Iec, iec_byte, iec_int, iec_uint, iec_real, internal, no_error, mb_bad_parameter, read_coils,
  read_holding_register,
}
use tux_plc.Modbus.Client.{
  checked, read_entry, read_ext, read_reply, write_ext, write_reply, reply_error, take_reply,
  transact,
}
use tux_plc.Modbus.Client.Replies.{
  received as received_behind, read_of, write_of, writing, Answers, read_ext-Answers,
  write_ext-Answers,
}
use tux_plc.Modbus.Link.{
  empty_buffer, empty_selected, recv_header, recv_rest, recv_selected, send_data,
  send_data_wait_reply, stored, Net, Client, readable, recv_data, expired,
}
use tux_plc.Modbus.Link.Stream.{recv_data-message}
use tux_plc.Modbus.Request.{mbap, read_request, build_read_request}
use tux_plc.Modbus.Request.Writes.{
  Floats, build_write_request, write_request, shape, single_pdu, coil_bytes, pack_coils, row,
}
use tux_plc.Modbus.Table.{entry, get_address, get_c_f_index, get_prefix, offset_in}
use tux_plc.Modbus.Values.{register_as_integer, get_value_as_integer}
use tux_plc.Modbus.Values.Coils.{get_value_as_integer-pack_coils}

-- Whole numbers as floats.
abbrev whole : Floats
whole = record {
  Float = ℕ;
  to_uint = λ x. x % 65536;
  to_udint = λ x. x % 4294967296;
  bits = λ x. x % 4294967296;
  is_set = λ x. not (x == 0);
  of_int = λ z. elim z [ pos n ↦ n | negsuc n ↦ 0 ];
  of_bits = λ w. w;
}

-- A socket with what is left to read, which a test without waiting does not find readable.
abbrev pipe : Net
pipe = record {
  State = List ℕ;
  select = λ t s. if t == 0 then (expired, s) else (readable, s);
  send = λ l s. (pos (length l), s);
  recv = λ n s. (some (take n s), drop n s);
  errno = λ s. 5;
  junk = λ i. 0;
}

-- The text 400010, and one that is in no range.
abbrev text_400010 : List ℕ
text_400010 = b'4' ∷ b'0' ∷ b'0' ∷ b'0' ∷ b'1' ∷ b'0' ∷ []

abbrev text_200000 : List ℕ
text_200000 = b'2' ∷ b'0' ∷ b'0' ∷ b'0' ∷ b'0' ∷ b'0' ∷ []

get_value_as_integer-pack_coils_example :
    get_value_as_integer
      (record {
        function = read_coils;
        number = 10;
        data_type = iec_byte;
        base_address = 0;
        body = held (row (pack_coils whole (λ i. i % 3) 10) (coil_bytes 10));
      })
      8
    ≡ (no_error, pos 1)
get_value_as_integer-pack_coils_example =
    get_value_as_integer-pack_coils whole (λ i. i % 3) 10 8 (omega arith)

-- The message with transaction 7, unit 1 and the data 3, 2, 1, 44 on the pipe.
abbrev message : List ℕ
message = 0 ∷ 7 ∷ 0 ∷ 0 ∷ 0 ∷ 5 ∷ 1 ∷ 3 ∷ 2 ∷ 1 ∷ 44 ∷ []

abbrev start : List ℕ → Client pipe
start l = record { link = l; err = internal mb_bad_parameter }

recv_data-message_example :
    (m : ℕ → ℕ) × (recv_data (pos 3) 1000 (start message)
      ≡ (some m, record { link = []; err = no_error }))
    × ((i : ℕ) → i < 11 → m i ≡ get_or message i 0)
unfolding mbap
recv_data-message_example =
    recv_data-message {net = pipe} 3 1000 7 1 (3 ∷ 2 ∷ 1 ∷ 44 ∷ []) (start message) message
      (3 ∷ 2 ∷ 1 ∷ 44 ∷ []) [] (omega arith) (omega arith) refl refl refl

-- The memory that the message leaves, and the reply from it.
abbrev received : ℕ → ℕ
received = stored 7 (drop 7 message) (stored 0 (take 7 message) (λ i. 0))

read_ext-run :
    read_ext {net = pipe} (pos 3) 1000 7 1 text_400010 1 (start message)
    ≡ (some (read_reply iec_int 9 1 (λ i. 0) received), record { link = []; err = no_error })
unfolding read_ext read_entry get_c_f_index get_prefix get_address build_read_request read_request
    transact send_data_wait_reply take_reply checked reply_error empty_buffer empty_selected
    send_data recv_data recv_selected recv_header recv_rest mbap tux_plc.Modbus.data_size
read_ext-run = refl

read_ext-Answers_example :
    (i : ℕ) × (m : ℕ → ℕ) × (get_c_f_index text_400010 ≡ some i)
    × (let b = read_of 7 1 text_400010 1 i in
        received_behind (pos 3) 1000 b.request (writing {net = pipe} b (start message)) ≡ some m)
    × (read_reply iec_int 9 1 (λ i. 0) received
        ≡ read_reply
            (entry i).data_type
            (offset_in (entry i) (get_address text_400010))
            1
            (λ i. 0)
            m)
    × Answers 7 (entry i).read_function m
read_ext-Answers_example =
    read_ext-Answers {net = pipe} (pos 3) 1000 7 1 text_400010 1 (start message)
      (record { link = []; err = no_error }) (read_reply iec_int 9 1 (λ i. 0) received) read_ext-run

-- The value of the run, 300.
value_of_run :
    get_value_as_integer (read_reply iec_int 9 1 (λ i. 0) received) 0 ≡ (no_error, pos 300)
unfolding get_value_as_integer register_as_integer read_reply
value_of_run = refl

-- The answer to a write of one register.
abbrev written : List ℕ
written = 0 ∷ 7 ∷ 0 ∷ 0 ∷ 0 ∷ 6 ∷ 1 ∷ 6 ∷ 0 ∷ 9 ∷ 1 ∷ 44 ∷ []

abbrev written_memory : ℕ → ℕ
written_memory = stored 7 (drop 7 written) (stored 0 (take 7 written) (λ i. 0))

write_ext-run :
    write_ext {net = pipe} whole (pos 3) 1000 7 1 text_400010 (pos 1) (λ i. 300) (start written)
    ≡ (some (write_reply written_memory), record { link = []; err = no_error })
unfolding write_ext get_c_f_index get_prefix get_address build_write_request write_request shape
    single_pdu transact send_data_wait_reply take_reply checked reply_error empty_buffer
    empty_selected send_data recv_data recv_selected recv_header recv_rest mbap
    tux_plc.Modbus.data_size
write_ext-run = refl

write_ext-Answers_example :
    (i : ℕ) × (m : ℕ → ℕ) × (get_c_f_index text_400010 ≡ some i)
    × (let b = write_of whole 7 1 text_400010 (pos 1) (λ i. 300) i in
        received_behind (pos 3) 1000 b.request (writing {net = pipe} b (start written)) ≡ some m)
    × (write_reply written_memory ≡ write_reply m)
    × Answers 7 (entry i).write_function m
write_ext-Answers_example =
    write_ext-Answers {net = pipe} whole (pos 3) 1000 7 1 text_400010 (pos 1) (λ i. 300)
      (start written) (record { link = []; err = no_error }) (write_reply written_memory)
      write_ext-run
