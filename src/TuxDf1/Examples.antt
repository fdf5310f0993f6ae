-- ===== src/TuxDf1/Examples.antt =====
-- The theorems on TuxDf1.c at a concrete PLC, tags and replies.
use tux_plc.Base.{ℕ, ◌≤◌, ◌≡◌, refl, true, false, List, [], ◌∷◌, Option, none, some, arith}
use tux_plc.Base.Int.{ℤ, pos, negsuc}
use tux_plc.Df1.{Msg}
use tux_plc.Df1.Addressing.{calc_address, address_loop, switch, set_file}
use tux_plc.Df1.Command.{read_message, write_message}
use tux_plc.Df1.Command.Exchange.{Fits-short, answer, exchanged}
use tux_plc.Df1.Command.Reads.{counted}
use tux_plc.Df1.Port.{Port}
use tux_plc.Df1.Port.Waiting.{waiting, flowing}
use tux_plc.Df1.Query.{known_file, upper_all, file_kind}
use tux_plc.Df1.Receive.Delivers.{IsMsg}
use tux_plc.Df1.Send.Frame.{Fits}
use tux_plc.Df1.Tag.{Doubles}
use tux_plc.Df1.Tag.Writes.{word_memory}
use tux_plc.TuxDf1.{Tag, Plc}
use tux_plc.TuxDf1.Device.{Os, Globals}
use tux_plc.TuxDf1.Logger.{log_tag, kill_all}
use tux_plc.TuxDf1.Wire.{log_tag-reads, log_tag-writes}
use tux_plc.TuxDf1.Close.{kill_all-closings}

-- Whole numbers as doubles.
abbrev integers : Doubles
integers = record {
  Double = ℤ;
  of_int = λ z. z;
  of_float = λ m. pos (m 0);
  to_int = λ z. z;
  to_float = λ z i. 0;
}

-- One line, a clock, the values that were stored and the descriptors that were closed. `pending` is
-- what the column WRITE_VALUE holds.
record Machine : Type 0 where
  port : Port
  clock : ℕ
  pending : Option (List ℕ)
  stored : List ℤ
  closed : List ℤ

abbrev machine : Os
machine = record {
  doubles = integers;
  World = Machine;
  open_path = λ path w. (pos 3, w);
  save_terminal = λ fd w. (true, w);
  set_terminal = λ fd settings w. (true, w);
  restore_terminal = λ fd w. w;
  flush_input = λ fd w. w;
  set_async = λ fd w. w;
  flush_both = λ fd w. w;
  close = λ fd w. record w { closed = fd ∷ w.closed };
  time = λ w. (w.clock, w);
  line = λ fd w. w.port;
  set_line = λ fd p w. record w { port = p };
  store = λ name v w. (true, record w { stored = v ∷ w.stored });
  store_written = λ name v w. (true, record w { stored = v ∷ w.stored; pending = none });
  write_values = λ name w. (some (w.pending ∷ []), w);
  db_error = λ w. pos 0;
  atof = λ text. pos 700;
  unset = pos 0;
  test = false;
}

-- N7:12
abbrev counter : Tag ℤ
counter = record {
  tag_name = b'T' ∷ [];
  address = b'N' ∷ b'7' ∷ b':' ∷ b'1' ∷ b'2' ∷ [];
  time_sample = 10;
  time_value = 0;
  write_exist = false;
  write_value = pos 0;
}

abbrev press : Plc ℤ
press = record {
  plc_name = b'A' ∷ [];
  plc_path = b't' ∷ b't' ∷ b'y' ∷ [];
  plc_speed = pos 19200;
  socket = pos 3;
  next_time = 0;
  tags = counter ∷ [];
}

-- A port with nothing on the line.
abbrev quiet : Port
quiet = record { input = []; now = 0; accepted = []; output = []; tns = 41 }

-- A reply with status 0 to the 42nd request.
abbrev reply_of : ℕ → Msg
reply_of size = record { dst = 0; src = 1; cmd = 79; sts = 0; tns = 42; body = λ _. 5; size = size }

reply_of-Fits : (size : ℕ) → size ≤ 100 → Fits (reply_of size)
reply_of-Fits size small = Fits-short (reply_of size) small

reply_of-IsMsg : (size : ℕ) → size ≤ 100 → IsMsg (reply_of size)
reply_of-IsMsg size small = record {
  dst = omega arith;
  src = omega arith;
  cmd = omega arith;
  sts = omega arith;
  tns = omega arith;
  body = λ i. omega arith;
  size = omega (arith, small);
}

-- The machine whose line has the answer of a reply.
abbrev answering : Msg → Option (List ℕ) → Machine
answering reply pending = record {
  port = waiting (answer reply []) (flowing quiet);
  clock = 100;
  pending = pending;
  stored = [];
  closed = [];
}

abbrev begin : Machine → Globals machine
begin w = record { world = w; tns = 41; start_time = 100 }

-- The machine behind the exchange that sends a request.
abbrev served_by : Msg → Msg → ℤ → Machine
served_by reply sent v = record (answering reply none) {
  port = exchanged sent [] (counted quiet);
  stored = v ∷ [];
}

log_tag-reads_example :
    log_tag 20 (pos 3) counter (begin (answering (reply_of 2) none))
    ≡ some (
      (record counter { time_value = 100 }, true),
      record {
        world = served_by (reply_of 2) (read_message 42 (calc_address counter.address)) (pos 1285);
        tns = 42;
        start_time = 100;
      },
    )
unfolding calc_address address_loop switch set_file known_file upper_all file_kind
log_tag-reads_example =
    log_tag-reads (reply_of 2) [] quiet 20 (reply_of-Fits 2 (omega arith))
      (reply_of-IsMsg 2 (omega arith)) (omega arith) refl refl (pos 3) counter
      (begin (answering (reply_of 2) none)) (answering (reply_of 2) none)
      (refl, (refl, (refl, (refl, (refl, tt))))) refl refl (omega arith) refl refl refl refl refl
      refl (omega arith)

-- The value 700 to write.
abbrev seven_hundred : Option (List ℕ)
seven_hundred = some (b'7' ∷ b'0' ∷ b'0' ∷ [])

log_tag-writes_example :
    log_tag 20 (pos 3) counter (begin (answering (reply_of 0) seven_hundred))
    ≡ some (
      (record counter { write_value = pos 700; write_exist = true; time_value = 100 }, true),
      record {
        world =
            served_by
              (reply_of 0)
              (write_message 42 (calc_address counter.address) (word_memory 700))
              (pos 700);
        tns = 42;
        start_time = 100;
      },
    )
unfolding calc_address address_loop switch set_file known_file upper_all file_kind
log_tag-writes_example =
    log_tag-writes (reply_of 0) [] quiet 20 (reply_of-Fits 0 (omega arith))
      (reply_of-IsMsg 0 (omega arith)) (omega arith) refl refl (pos 3) counter
      (begin (answering (reply_of 0) seven_hundred)) (answering (reply_of 0) seven_hundred)
      (refl, (refl, (refl, (refl, (refl, tt))))) refl refl (omega arith) refl refl refl refl
      (b'7' ∷ b'0' ∷ b'0' ∷ []) refl refl

kill_all-closings_example :
    kill_all (press ∷ []) (begin (answering (reply_of 0) none))
    ≡ some (
      record press { socket = negsuc 0 } ∷ [],
      begin (record (answering (reply_of 0) none) { closed = negsuc 0 ∷ [] }),
    )
kill_all-closings_example = kill_all-closings (press ∷ []) (begin (answering (reply_of 0) none))
