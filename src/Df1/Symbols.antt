-- ===== src/Df1/Symbols.antt =====
-- get_symbol of df1.c: the two-byte sequences that start with DLE.
pub mod Decode
use tux_plc.Base.{ℕ, Bool, ◌||◌, ◌==◌, if◌then◌else◌}
use tux_plc.Base.Int.{ℤ}
use tux_plc.Df1.{dle, stx, etx, enq, ack, nak}
use tux_plc.Df1.Port.{Got, got, lost, Cmd, pure, ◌>>=◌, read_byte}

-- What get_symbol returns with the byte that it stores: DATA_FLAG, CONTROL_FLAG, or an error and
-- no byte.
pub data Symbol : Type 0 where
  data_flag : ℕ → Symbol
  control_flag : ℕ → Symbol
  no_symbol : ℤ → Symbol

unfoldable pub is_control : ℕ → Bool
is_control c = c == etx || (c == stx || (c == enq || (c == ack || c == nak)))

-- The switch on the byte behind a DLE. Any other byte falls out of it, and DLE itself is stored.
unfoldable pub after_dle : ℕ → Symbol
unfolding is_control
after_dle c2 =
    if c2 == dle then data_flag c2 else if is_control c2 then control_flag c2 else data_flag dle

unfoldable pub second_byte : Got → Cmd Symbol
unfolding after_dle
second_byte (lost e) = pure (no_symbol e)
second_byte (got c2) = pure (after_dle c2)

unfoldable pub first_byte : Got → Cmd Symbol
unfolding second_byte
first_byte (lost e) = pure (no_symbol e)
first_byte (got c1) = if c1 == dle then (do c ← read_byte; second_byte c) else pure (data_flag c1)

unfoldable pub get_symbol : Cmd Symbol
unfolding first_byte
get_symbol = do c ← read_byte; first_byte c
