-- ===== src/Tuxeip/Examples.antt =====
-- The theorems on PCCC messages at concrete ones.
mod Sessions
mod Messages
mod Addresses
use tux_plc.Base.{ℕ, suc, ◌*◌, ◌≤◌, length, ◌≡◌, refl, List, [], ◌∷◌, arith, some}
use tux_plc.Base.Int.{ℤ, pos}
use tux_plc.Tuxeip.Pccc.{
  PlcRead, decode_pccc, decode_plc_data_type, described, two_fields, field, long_field,
  element_fields, with_size, with_count, encode_plc_data_type,
}
use tux_plc.Tuxeip.Link.{internal}
use tux_plc.Tuxeip.Values.{FloatType, plc_value, plc_element}
use tux_plc.Tuxeip.Values.Inside.{plc_value-inside}
use tux_plc.Tuxeip.Pccc.RoundTrip.{floating, reply_memory, decode_pccc-encode_plc_data_type}

-- Two floats.
abbrev values : List ℕ
values = 0 ∷ 0 ∷ 128 ∷ 63 ∷ 0 ∷ 0 ∷ 0 ∷ 64 ∷ []

abbrev two_floats : PlcRead
two_floats = record {
  type = 8;
  varcount = pos 2;
  totalsize = pos 8;
  elementsize = pos 4;
  content = values;
}

decode_pccc-encode_plc_data_type_example :
    (row : List ℕ) × (encode_plc_data_type 8 2 ≡ some row)
    × (decode_pccc (reply_memory 79 300 row values) ≡ some two_floats)
decode_pccc-encode_plc_data_type_example =
    decode_pccc-encode_plc_data_type 79 300 2 values floating (omega arith) refl (omega arith)

two_floats-decoded :
    decode_pccc (reply_memory 79 300 (0x99 ∷ 9 ∷ 10 ∷ 0x94 ∷ 8 ∷ []) values) ≡ some two_floats
unfolding decode_pccc decode_plc_data_type described two_fields field long_field element_fields
    with_size with_count
two_floats-decoded = refl

-- Whole numbers as floats.
abbrev wholes : FloatType
wholes = record {
  Float = ℤ;
  of_int = λ z. z;
  of_bits = λ n. pos n;
  to_int = λ z. z;
  to_unsigned = λ z. 0;
}

plc_value-inside_example :
    plc_value wholes (pos 0) (pos 9) (λ v. v) (λ _. 255) two_floats 1
    ≡ (pos 1073741824, internal (pos 0))
unfolding plc_element
plc_value-inside_example =
    plc_value-inside wholes (pos 0) (pos 9) (λ v. v)
      (reply_memory 79 300 (0x99 ∷ 9 ∷ 10 ∷ 0x94 ∷ 8 ∷ []) values) two_floats 4 8 2 1 (λ _. 255)
      two_floats-decoded refl refl refl (omega arith) (omega arith)
