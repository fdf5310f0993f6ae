-- ===== src/Tuxeip.antt =====
-- The EtherNet/IP library, tuxeip/src: the types of AB.h that the codec of PCCC messages uses.
pub mod Pccc
pub mod Eip
pub mod Link
pub mod Session
pub mod Router
pub mod Manager
pub mod Ioi
pub mod Lgx
pub mod Address
pub mod Requests
pub mod Values
mod Examples
use tux_plc.Base.{ℕ}

-- PLC_Data_Type.
abbrev pub plc_bit : ℕ
plc_bit = 1

abbrev pub plc_byte_string : ℕ
plc_byte_string = 3

abbrev pub plc_integer : ℕ
plc_integer = 4

abbrev pub plc_timer : ℕ
plc_timer = 5

abbrev pub plc_counter : ℕ
plc_counter = 6

abbrev pub plc_control : ℕ
plc_control = 7

abbrev pub plc_floating : ℕ
plc_floating = 8

abbrev pub plc_array : ℕ
plc_array = 9
