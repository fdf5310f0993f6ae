-- ===== src/Df1.antt =====
-- The DF1 serial driver, tuxsql/TuxDf1/src/df1.c and df1.h: the constants and structures that its
-- children share.
pub mod Port
pub mod Buffers
pub mod Crc
pub mod Symbols
pub mod Receive
pub mod Send
pub mod Addressing
pub mod Query
pub mod Command
pub mod Tag
mod Examples
use tux_plc.Base.{ℕ}
use tux_plc.Base.Int.{ℤ, pos, negsuc}

abbrev pub dle : ℕ
dle = 0x10

abbrev pub stx : ℕ
stx = 0x02

abbrev pub etx : ℕ
etx = 0x03

abbrev pub enq : ℕ
enq = 0x05

abbrev pub ack : ℕ
ack = 0x06

abbrev pub nak : ℕ
nak = 0x15

abbrev pub dest : ℕ
dest = 0x01

abbrev pub source : ℕ
source = 0x00

abbrev pub slc : ℕ
slc = 1

-- Seconds.
abbrev pub time_out : ℕ
time_out = 1

abbrev pub success : ℤ
success = pos 0

abbrev pub error : ℤ
error = negsuc 0

abbrev pub error_nak : ℤ
error_nak = negsuc 1

abbrev pub error_send_df1 : ℤ
error_send_df1 = negsuc 2

abbrev pub error_rcv_df1 : ℤ
error_rcv_df1 = negsuc 3

abbrev pub error_timeout : ℤ
error_timeout = negsuc 4

abbrev pub error_bad_query : ℤ
error_bad_query = negsuc 5

abbrev pub error_tns_mismatch : ℤ
error_tns_mismatch = negsuc 8

abbrev pub error_read_a2 : ℤ
error_read_a2 = negsuc 9

abbrev pub error_read_integer : ℤ
error_read_integer = negsuc 19

abbrev pub error_calc_address : ℤ
error_calc_address = negsuc 29

abbrev pub error_write_aa : ℤ
error_write_aa = negsuc 39

abbrev pub error_write : ℤ
error_write = negsuc 40

abbrev pub error_write_ab : ℤ
error_write_ab = negsuc 41

abbrev pub error_com1 : ℤ
error_com1 = negsuc 50

abbrev pub error_com2 : ℤ
error_com2 = negsuc 51

abbrev pub error_com3 : ℤ
error_com3 = negsuc 52

-- TThree_Address_Fields.
pub record Address : Type 0 where
  pub size : ℕ
  pub file_number : ℕ
  pub file_type : ℕ
  pub ele_number : ℕ
  pub s_ele_number : ℕ

-- TMsg. `data` is the array of 255 bytes, as the function from an index to its byte.
pub record Msg : Type 0 where
  pub dst : ℕ
  pub src : ℕ
  pub cmd : ℕ
  pub sts : ℕ
  pub tns : ℕ
  pub body : ℕ → ℕ
  pub size : ℕ

-- bzero of a TMsg.
abbrev pub zero_msg : Msg
zero_msg = record { dst = 0; src = 0; cmd = 0; sts = 0; tns = 0; body = λ _. 0; size = 0 }

-- TBuffer. `bytes` is the array of 512 bytes, `size` is one byte wide.
pub record Buffer : Type 0 where
  pub bytes : ℕ → ℕ
  pub size : ℕ

-- bzero of a TBuffer.
abbrev pub zero_buffer : Buffer
zero_buffer = record { bytes = λ _. 0; size = 0 }
