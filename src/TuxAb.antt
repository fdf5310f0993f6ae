-- ===== src/TuxAb.antt =====
-- The data of the daemon TuxAB (tuxsql/TuxAB/src/TuxAB.h). A LISTE is the list of what its elements
-- point to, and a pointer to a session or a connection is a number, 0 for NULL.
pub mod Packets
pub mod Paths
pub mod Rows
pub mod Daemon
pub mod Links
pub mod Quiet
mod Examples
pub mod Sessions
pub mod Connections
pub mod Logger
use tux_plc.Base.{ℕ, List}
use tux_plc.Base.Int.{ℤ}
pub use tux_plc.Tuxeip.Manager.{PlcType, unknow, plc5, slc500, lgx}
use tux_plc.Tuxeip.Requests.{LogicalBinaryAddress}

pub data TagType : Type 0 where
  ab_bit : TagType
  ab_sint : TagType
  ab_int : TagType
  ab_dint : TagType
  ab_real : TagType
  ab_unknow : TagType

-- TAG.
pub record Tag : Type 0 where
  pub tag_name : List ℕ
  pub address : List ℕ
  pub lba : LogicalBinaryAddress
  pub data_type : TagType
  pub time_sample : ℕ
  pub time_value : ℕ
  pub index : ℤ

-- PACKET.
pub record Packet : Type 0 where
  pub base_address : List ℕ
  pub num_elt : ℤ
  pub time_sample : ℕ
  pub time_value : ℕ
  pub tags : List Tag

-- PLC.
pub record Plc : Type 0 where
  pub plc_name : List ℕ
  pub plc_path : List ℕ
  pub plc_type : PlcType
  pub network : ℕ
  pub node : ℤ
  pub errors : ℕ
  pub session : ℕ
  pub connection : ℕ
  pub next_time : ℕ
  pub tags : List Tag
  pub packets : List Packet
