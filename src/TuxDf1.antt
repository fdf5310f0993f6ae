-- ===== src/TuxDf1.antt =====
-- The data of the daemon TuxDf1 (tuxsql/TuxDf1/src/TuxDf1.h). A LISTE is the list of what its elements
-- point to. PLC.Packets and PLC.DeviceId, TAG.DataType and TAG.Index, which the daemon never reads, are
-- left out. The double is that of the driver in Df1.
pub mod Rows
pub mod Device
pub mod Logger
pub mod Wire
pub mod Close
mod Examples
use tux_plc.Base.{ℕ, Bool, List}
use tux_plc.Base.Int.{ℤ}

-- TAG.
pub record Tag (D : Type 0) : Type 0 where
  pub tag_name : List ℕ
  pub address : List ℕ
  pub time_sample : ℕ
  pub time_value : ℕ
  pub write_exist : Bool
  pub write_value : D

-- PLC.
pub record Plc (D : Type 0) : Type 0 where
  pub plc_name : List ℕ
  pub plc_path : List ℕ
  pub plc_speed : ℤ
  pub socket : ℤ
  pub next_time : ℕ
  pub tags : List (Tag D)
