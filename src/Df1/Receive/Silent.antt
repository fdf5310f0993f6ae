-- ===== src/Df1/Receive/Silent.antt =====
-- A line that falls silent inside a frame: rcv_DF1 does not come back.
use tux_plc.Base.{ℕ, zero, suc, ◌+◌, ◌≡◌, refl, List, [], ◌∷◌}
use tux_plc.Df1.{dle, stx, Msg, Buffer, error_timeout, zero_buffer}
use tux_plc.Df1.Buffers.{add_byte2buffer}
use tux_plc.Df1.Buffers.Rows.{escape}
use tux_plc.Df1.Port.{Port, done, out_of_fuel, read_byte}
use tux_plc.Df1.Port.Waiting.{waiting}
use tux_plc.Df1.Receive.{collect, hunt, control, round, rcv_loop, rcv_df1}
use tux_plc.Df1.Symbols.{get_symbol, no_symbol}
use tux_plc.Df1.Symbols.Decode.{get_symbol-escape_byte, get_symbol-stx}

-- A port on a line that delivers nothing more.
abbrev pub silenced : Port → Port
silenced p = record p { input = [] }

get_symbol-silenced :
    (p : Port)
    → get_symbol (silenced p)
      ≡ done (no_symbol error_timeout) (silenced (record p { now = p.now + 1 }))
unfolding get_symbol read_byte
get_symbol-silenced p = refl

collect-silenced : (f c : ℕ) (b : Buffer) (p : Port) → collect f c b (silenced p) ≡ out_of_fuel
unfolding collect
collect-silenced zero c b p = refl
collect-silenced (suc f) c b p =
    rw (get_symbol-silenced p)
      (collect-silenced f c (add_byte2buffer b c) (record p { now = p.now + 1 }))

collect-cut :
    (f c : ℕ) (b : Buffer) (xs : List ℕ) (p : Port)
    → collect f c b (waiting (escape xs) (silenced p)) ≡ out_of_fuel
unfolding collect
collect-cut zero c b xs p = refl
collect-cut (suc f) c b [] p = unfold collect in collect-silenced (suc f) c b p
collect-cut (suc f) c b (x ∷ xs) p =
    rw (get_symbol-escape_byte x (escape xs) (silenced p))
      (collect-cut f x (add_byte2buffer b x) xs p)

-- A line that delivers the start of a frame and any bytes of data, and then falls silent: rcv_DF1
-- does not return, whatever the fuel. The inner loop goes on at each timeout, and stores the last
-- byte again.
pub rcv_df1-cut :
    (fuel : ℕ) (old : Msg) (xs : List ℕ) (p : Port)
    → rcv_df1 fuel old (waiting (dle ∷ stx ∷ escape xs) (silenced p)) ≡ out_of_fuel
unfolding rcv_df1 rcv_loop round hunt control
rcv_df1-cut zero old xs p = refl
rcv_df1-cut (suc f) old xs p =
    rw (get_symbol-stx (escape xs) (silenced p), collect-cut (suc f) stx zero_buffer xs p) refl
