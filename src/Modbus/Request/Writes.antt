-- ===== src/Modbus/Request/Writes.antt =====
-- _MBBuild_Write_Request of MBClient.c. `long` is taken to be 32 bits wide, as the comments of
-- MBCommon.h say. The floats are a parameter, with C's conversions of them.
use tux_plc.Base.{
  ℕ, zero, suc, ◌+◌, ◌-◌, ◌*◌, ◌/◌, ◌%◌, ◌^◌, bit_or, Bool, true, false, not, ◌&&◌, List, [], ◌∷◌,
  ◌++◌, ltb, ◌==◌, ◌||◌, Option, none, some, if◌then◌else◌,
}
use tux_plc.Base.Int.{ℤ, pos, negsuc}
use tux_plc.Modbus.{
  Iec, iec_unk, iec_byte, iec_int, iec_uint, iec_dint, iec_udint, iec_real, MbError, internal,
  mb_bad_parameter, data_size, default_on_coil_value, default_off_coil_value,
  max_write_coils_number, max_write_registers_number, write_single_coils, write_single_register,
  write_multiple_coils, write_multiple_register,
}
use tux_plc.Modbus.Request.{Built, mbap, clamped, clamp_error}
use tux_plc.Modbus.Words.{mbswap_16, mbswap_32, word_row, dword_row}

-- float, and what the code does with one.
pub record Floats : Type 1 where
  pub Float : Type 0
  -- (MB_UINT), (MB_UDINT) and the four bytes as a number
  pub to_uint : Float → ℕ
  pub to_udint : Float → ℕ
  pub bits : Float → ℕ
  -- if (Data[i])
  pub is_set : Float → Bool
  -- from an int, and from the four bytes
  pub of_int : ℤ → Float
  pub of_bits : ℕ → Float

-- The number of values that is sent, the bytes of data they take, and whether they are coils.
pub record Shape : Type 0 where
  pub number : ℕ
  pub datasize : ℕ
  pub coil : Bool
  pub reported : Option MbError

-- The bytes of `number` coils.
abbrev pub coil_bytes : ℕ → ℕ
coil_bytes number = if ltb 0 (number - 8 * (number / 8)) then number / 8 + 1 else number / 8

-- The switch on the function; `none` for a function that writes nothing.
unfoldable pub shape : ℕ → Iec → ℕ → Option Shape
shape function data_type number =
    if function == write_single_coils
    then some (record { number = 0; datasize = 0; coil = true; reported = none })
    else if function == write_single_register
    then some (record { number = 0; datasize = 0; coil = false; reported = none })
    else if function == write_multiple_coils
    then some (record {
      number = clamped max_write_coils_number number;
      datasize = coil_bytes (clamped max_write_coils_number number);
      coil = true;
      reported = clamp_error max_write_coils_number number;
    })
    else if function == write_multiple_register
    then (if ltb 2 (data_size data_type)
        then some (record {
          number = clamped (max_write_registers_number / 2) number;
          datasize = 4 * clamped (max_write_registers_number / 2) number;
          coil = false;
          reported = clamp_error (max_write_registers_number / 2) number;
        })
        else some (record {
          number = clamped max_write_registers_number number;
          datasize = 2 * clamped max_write_registers_number number;
          coil = false;
          reported = clamp_error max_write_registers_number number;
        }))
    else none

-- `Reqlen`: a single request is 5 bytes and a multiple one 6, with the data; the kind of request
-- follows the function here, and the number below.
abbrev pub is_single : ℕ → Bool
is_single function = function == write_single_coils || function == write_single_register

abbrev pub req_len : ℕ → Shape → ℕ
req_len function s = if is_single function then 5 else 6 + s.datasize

abbrev pub is_multiple : ℕ → Bool
is_multiple function = function == write_multiple_coils || function == write_multiple_register

-- The number -(n + 1) of coils, as the word that is sent, and no data.
abbrev pub no_coils : ℕ → Shape
no_coils n = record { number = 65535 - n; datasize = 0; coil = true; reported = none }

-- The first `n` bytes of a memory.
abbrev pub row : (ℕ → ℕ) → ℕ → List ℕ
row m zero = []
row m (suc n) = m 0 ∷ row (λ i. m (suc i)) n

-- ReqData[y]|=1<<x
abbrev pub set_bit : (ℕ → ℕ) → ℕ → ℕ → ℕ → ℕ
set_bit m y x i = if i == y then bit_or (m i) (2 ^ x) else m i

abbrev pub zeros : ℕ → ℕ
zeros i = 0

module _ (f : Floats) where
  open f use {Float, to_uint, to_udint, bits, is_set}

  -- The loop over the coils, after its first `n` turns, on memory that memset cleared.
  unfoldable pub pack_coils : (ℕ → Float) → ℕ → ℕ → ℕ
  pack_coils values zero = zeros
  pack_coils values (suc n) =
      let m = pack_coils values n in
      if is_set (values n) then set_bit m ((n - n % 8) / 8) (n % 8) else m

  -- The loops over the registers: the values from `i` on.
  unfoldable pub words_from : (Float → ℕ) → (ℕ → Float) → ℕ → ℕ → List ℕ
  words_from conv values i zero = []
  words_from conv values i (suc n) =
      word_row (mbswap_16 (conv (values i))) ++ words_from conv values (suc i) n

  unfoldable pub dwords_from : (Float → ℕ) → (ℕ → Float) → ℕ → ℕ → List ℕ
  dwords_from conv values i zero = []
  dwords_from conv values i (suc n) =
      dword_row (mbswap_32 (conv (values i))) ++ dwords_from conv values (suc i) n

  -- Number and the data of a multiple write of registers; for another type they stay 0.
  abbrev pub register_part : Iec → ℕ → ℕ → (ℕ → Float) → ℕ × List ℕ
  register_part iec_int number datasize values = (number, words_from to_uint values 0 number)
  register_part iec_uint number datasize values = (number, words_from to_uint values 0 number)
  register_part iec_dint number datasize values = (2 * number, dwords_from to_udint values 0 number)
  register_part iec_udint number datasize values =
      (2 * number, dwords_from to_udint values 0 number)
  register_part iec_real number datasize values = (2 * number, dwords_from bits values 0 number)
  register_part iec_unk number datasize values = (0, row zeros datasize)
  register_part iec_byte number datasize values = (0, row zeros datasize)

  abbrev pub data_part : Iec → Shape → (ℕ → Float) → ℕ × List ℕ
  data_part data_type s values =
      if s.coil
      then (s.number, row (pack_coils values s.number) s.datasize)
      else register_part data_type s.number s.datasize values

  -- The value of a single write.
  abbrev pub single_value : Bool → Float → ℕ
  single_value coil x =
      if coil
      then (if to_uint x == 0 then default_off_coil_value else default_on_coil_value)
      else to_uint x

  -- mb_write_single_req; behind it, a multiple function asked for no value leaves one 0.
  unfoldable pub single_pdu : ℕ → Shape → ℕ → (ℕ → Float) → List ℕ
  single_pdu function s address values =
      function % 256 ∷ word_row (mbswap_16 address)
      ++ (word_row (mbswap_16 (single_value s.coil (values 0)))
          ++ row zeros (req_len function s - 5))

  -- mb_write_multiple_req and the data.
  unfoldable pub multiple_pdu : ℕ → Iec → Shape → ℕ → (ℕ → Float) → List ℕ
  multiple_pdu function data_type s address values =
      let (count, row) = data_part data_type s values in
      function % 256 ∷ word_row (mbswap_16 address)
      ++ (word_row (mbswap_16 count) ++ s.datasize % 256 ∷ row)

  unfoldable pub write_request : ℕ → ℕ → ℕ → Iec → ℕ → (ℕ → Float) → Option Shape → Built
  write_request transaction_id unit_id function data_type address values none = record {
    reported = some (internal mb_bad_parameter);
    request = none;
    past_block = false;
  }
  write_request transaction_id unit_id function data_type address values (some s) = record {
    reported = s.reported;
    past_block = false;
    request = some (
        mbap transaction_id unit_id (req_len function s)
        ++ (if s.number == 0
            then single_pdu function s address values
            else multiple_pdu function data_type s address values));
  }

  -- A number of 0 or more, or below 0. Below 0, up to 7 coils round to a size of 0, and any other size is
  -- negative, so that the block is shorter than the header of a multiple write that goes into it.
  unfoldable pub build_write_request : ℕ → ℕ → ℕ → Iec → ℕ → ℤ → (ℕ → Float) → Built
  build_write_request transaction_id unit_id function data_type address (pos number) values =
      write_request transaction_id unit_id function data_type address values
        (shape function data_type number)
  build_write_request transaction_id unit_id function data_type address (negsuc n) values =
      if is_single function || not (is_multiple function)
      then write_request transaction_id unit_id function data_type address values
          (shape function data_type 0)
      else if function == write_multiple_coils && ltb n 7
      then write_request transaction_id unit_id function data_type address values
          (some (no_coils n))
      else record { reported = none; request = none; past_block = true }
