-- ===== src/Df1/Examples/Tags.antt =====
-- read_Tag and write_Tag at concrete queries.
use tux_plc.Base.{◌≡◌, refl, [], arith}
use tux_plc.Base.Int.{ℤ, pos}
use tux_plc.Df1.{success}
use tux_plc.Df1.Addressing.{calc_address, address_loop, switch, set_file}
use tux_plc.Df1.Command.{read_message}
use tux_plc.Df1.Command.Exchange.{answer, exchanged}
use tux_plc.Df1.Command.Reads.{counted}
use tux_plc.Df1.Examples.{idle, escapes, escapes-IsMsg}
use tux_plc.Df1.Examples.Commands.{escapes-Fits, text_n7_12}
use tux_plc.Df1.Port.{done}
use tux_plc.Df1.Port.Waiting.{waiting, flowing}
use tux_plc.Df1.Query.{known_file, upper_all, file_kind}
use tux_plc.Df1.Tag.{Doubles, read_tag}
use tux_plc.Df1.Tag.Reads.{read_tag-integer}

-- Whole numbers as doubles.
abbrev whole_numbers : Doubles
whole_numbers = record {
  Double = ℤ;
  of_int = λ z. z;
  of_float = λ m. pos (m 0);
  to_int = λ z. z;
  to_float = λ z i. 0;
}

read_tag-integer_example :
    read_tag whole_numbers 20 text_n7_12 (pos 0) (waiting (answer escapes []) (flowing idle))
    ≡ done
        (success, pos 4112)
        (exchanged
          (read_message 42 (record {
            size = 2;
            file_number = 7;
            file_type = 0x89;
            ele_number = 12;
            s_ele_number = 0;
          }))
          []
          (counted idle))
unfolding calc_address address_loop switch set_file known_file upper_all file_kind
read_tag-integer_example =
    read_tag-integer escapes [] idle 20 escapes-Fits escapes-IsMsg (omega arith) (omega arith) refl
      refl whole_numbers text_n7_12 (pos 0) (refl, (refl, (refl, (refl, (refl, tt))))) refl refl
      (omega arith) refl refl
