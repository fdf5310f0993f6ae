-- ===== src/Modbus/Values.antt =====
-- The values in a read reply: _MBGetValueAsInteger and _MBGetValueAsReal of MBClient.c.
pub mod Registers
pub mod Coils
use tux_plc.Base.{
  ℕ, zero, suc, ◌+◌, ◌-◌, ◌*◌, ◌/◌, ◌%◌, ◌^◌, ◌<◌, ◌≤◌, bit_and, Bool, true, false, leb, ltb, ◌==◌,
  ◌||◌, Option, none, some, if◌then◌else◌,
}
use tux_plc.Base.Int.{ℤ, pos, negsuc}
use tux_plc.Modbus.{
  Iec, iec_unk, iec_byte, iec_int, iec_uint, iec_dint, iec_udint, iec_real, MbError, internal,
  no_error, mb_out_of_range, mb_bad_parameter, read_coils, read_inputs, read_holding_register,
  read_input_register,
}
use tux_plc.Modbus.Request.Writes.{Floats}
use tux_plc.Modbus.Words.{mbswap_16, mbswap_32, word_at, dword_at}

-- mb_read_rsp, `body` being the memory from Data on.
pub record Reply : Type 0 where
  pub function : ℕ
  pub number : ℕ
  pub data_type : Iec
  pub base_address : ℕ
  pub body : ℕ → ℕ

-- The int with the bits of a double word.
abbrev pub int_of_dword : ℕ → ℤ
int_of_dword w = if ltb w 0x80000000 then pos w else negsuc (0xffffffff - w)

-- (*byte)&(1<<x), then 1 for any bit.
abbrev pub coil_value : (ℕ → ℕ) → ℕ → ℕ
coil_value m index = if bit_and (m ((index - index % 8) / 8)) (2 ^ (index % 8)) == 0 then 0 else 1

abbrev pub is_coils : ℕ → Bool
is_coils function = function == read_coils || function == read_inputs

abbrev pub is_registers : ℕ → Bool
is_registers function = function == read_holding_register || function == read_input_register

-- The swapped words: an MB_INT is promoted to int before the swap, whose masks leave 16 bits.
abbrev pub uint_at : (ℕ → ℕ) → ℕ → ℕ
uint_at m o = mbswap_16 (word_at m o)

abbrev pub udint_at : (ℕ → ℕ) → ℕ → ℕ
udint_at m o = mbswap_32 (dword_at m o)

-- The switch on the type of _MBGetValueAsInteger.
unfoldable pub register_as_integer : Iec → (ℕ → ℕ) → ℕ → Option ℤ
register_as_integer iec_unk m index = some (pos (uint_at m index))
register_as_integer iec_int m index = some (pos (uint_at m (2 * index)))
register_as_integer iec_uint m index = some (pos (uint_at m (2 * index)))
register_as_integer iec_dint m index = some (int_of_dword (udint_at m (4 * index)))
register_as_integer iec_udint m index = some (int_of_dword (udint_at m (4 * index)))
register_as_integer iec_real m index = some (int_of_dword (udint_at m (4 * index)))
register_as_integer iec_byte m index = none

-- The error that is set, and the result.
abbrev pub answer_or {ℓ} : {A : Type ℓ} → A → Option A → MbError × A
answer_or zero_value none = (internal mb_bad_parameter, zero_value)
answer_or zero_value (some v) = (no_error, v)

unfoldable pub get_value_as_integer : Reply → ℕ → MbError × ℤ
get_value_as_integer r index =
    if leb r.number index
    then (internal mb_out_of_range, pos 0)
    else if is_coils r.function
    then (no_error, pos (coil_value r.body index))
    else if is_registers r.function
    then answer_or (pos 0) (register_as_integer r.data_type r.body index)
    else (internal mb_bad_parameter, pos 0)

module _ (f : Floats) where
  open f use {Float, of_int, of_bits}

  -- The same of _MBGetValueAsReal. The swap of a 32-bit long with an unsigned mask is unsigned.
  unfoldable pub register_as_real : Iec → (ℕ → ℕ) → ℕ → Option Float
  register_as_real iec_unk m index = some (of_bits (udint_at m (2 * index)))
  register_as_real iec_int m index = some (of_int (pos (uint_at m (2 * index))))
  register_as_real iec_uint m index = some (of_int (pos (uint_at m (2 * index))))
  register_as_real iec_dint m index = some (of_int (pos (udint_at m (4 * index))))
  register_as_real iec_udint m index = some (of_int (pos (udint_at m (4 * index))))
  register_as_real iec_real m index = some (of_bits (udint_at m (4 * index)))
  register_as_real iec_byte m index = none

  unfoldable pub get_value_as_real : Reply → ℕ → MbError × Float
  get_value_as_real r index =
      if leb r.number index
      then (internal mb_out_of_range, of_int (pos 0))
      else if is_coils r.function
      then (no_error, of_int (pos (coil_value r.body index)))
      else if is_registers r.function
      then answer_or (of_int (pos 0)) (register_as_real r.data_type r.body index)
      else (internal mb_bad_parameter, of_int (pos 0))
