-- ===== src/Modbus.antt =====
-- The Modbus TCP client library, modbus/src: the constants, types and errors of MBCommon.h,
-- MBClient.h and MBErrCodes.h.
pub mod Words
pub mod Table
pub mod Request
pub mod Values
pub mod Link
pub mod Client
mod Examples
use tux_plc.Base.{ℕ}
use tux_plc.Base.Int.{ℤ, pos, negsuc}

abbrev pub read_coils : ℕ
read_coils = 1

abbrev pub read_inputs : ℕ
read_inputs = 2

abbrev pub read_holding_register : ℕ
read_holding_register = 3

abbrev pub read_input_register : ℕ
read_input_register = 4

abbrev pub write_single_coils : ℕ
write_single_coils = 5

abbrev pub write_single_register : ℕ
write_single_register = 6

abbrev pub write_multiple_coils : ℕ
write_multiple_coils = 0x0f

abbrev pub write_multiple_register : ℕ
write_multiple_register = 0x10

abbrev pub mask_write_register : ℕ
mask_write_register = 0x16

abbrev pub max_pdu_size : ℕ
max_pdu_size = 253

abbrev pub max_read_coils_number : ℕ
max_read_coils_number = 0x07d0

abbrev pub max_read_registers_number : ℕ
max_read_registers_number = 0x007d

abbrev pub max_write_coils_number : ℕ
max_write_coils_number = 0x07b0

abbrev pub max_write_registers_number : ℕ
max_write_registers_number = 0x0078

abbrev pub default_on_coil_value : ℕ
default_on_coil_value = 0xff00

abbrev pub default_off_coil_value : ℕ
default_off_coil_value = 0

abbrev pub mb_success : ℤ
mb_success = pos 0

abbrev pub mb_error : ℤ
mb_error = negsuc 0

abbrev pub mb_time_out : ℤ
mb_time_out = negsuc 4

abbrev pub mb_rcv_error : ℤ
mb_rcv_error = negsuc 5

abbrev pub mb_bad_parameter : ℤ
mb_bad_parameter = negsuc 6

abbrev pub mb_out_of_range : ℤ
mb_out_of_range = negsuc 7

abbrev pub mb_size_clamped : ℤ
mb_size_clamped = negsuc 8

abbrev pub mb_unsolicited_msg : ℤ
mb_unsolicited_msg = negsuc 9

abbrev pub mb_pdu_too_large : ℤ
mb_pdu_too_large = negsuc 11

abbrev pub mb_bad_socket : ℤ
mb_bad_socket = negsuc 12

-- IEC1131.
pub data Iec : Type 0 where
  iec_unk : Iec
  iec_byte : Iec
  iec_int : Iec
  iec_uint : Iec
  iec_dint : Iec
  iec_udint : Iec
  iec_real : Iec

-- MB_ErrorType.
pub data ErrorType : Type 0 where
  internal_error : ErrorType
  sys_error : ErrorType
  modbus_error : ErrorType

-- _mb_err_type and _mb_errno, which MBERROR sets. The code is kept with its sign; the message and
-- _mb_ext_errno, which is always 0, are left out.
pub record MbError : Type 0 where
  pub kind : ErrorType
  pub code : ℤ

abbrev pub no_error : MbError
no_error = record { kind = internal_error; code = mb_success }

abbrev pub internal : ℤ → MbError
internal code = record { kind = internal_error; code = code }

-- _MBGetDataSize.
unfoldable pub data_size : Iec → ℕ
data_size iec_byte = 1
data_size iec_int = 2
data_size iec_uint = 2
data_size iec_dint = 4
data_size iec_udint = 4
data_size iec_real = 4
data_size iec_unk = 0
