-- ===== src/TuxDf1/Device.antt =====
-- The devices of the daemon TuxDf1: Df1_open_device and Df1_close_device of df1.c, and the commands of
-- the driver Df1 on the line of a device. The calls of the system and of the database are the parameter
-- Os. The transaction number is one global for all devices.
use tux_plc.Base.{
  ℕ, Bool, true, false, List, [], ◌∷◌, ◌==◌, ◌||◌, Option, none, some, if◌then◌else◌,
}
use tux_plc.Base.Bits.{u16}
use tux_plc.Base.Int.{ℤ, pos, negsuc, is_neg, ◌==ℤ◌}
use tux_plc.Df1.{error_com1, error_com2, error_com3}
use tux_plc.Df1.Port.{Port, Run, done, overrun, out_of_fuel, Cmd}
use tux_plc.Df1.Tag.{Doubles}

-- What Df1_open_device makes of its arguments: the rate and the bits of c_cflag, and whether IGNPAR
-- is set.
pub record Settings : Type 0 where
  pub rate : ℤ
  pub seven_bits : Bool
  pub parity : Bool
  pub odd : Bool
  pub two_stop_bits : Bool
  pub ignore_parity : Bool

pub record Os : Type 1 where
  pub doubles : Doubles
  pub World : Type 0
  -- open(path, O_RDWR | O_NOCTTY | O_NDELAY): the descriptor, or -1.
  pub open_path : List ℕ → World → ℤ × World
  -- tcgetattr into saved_tty_parameters, and tcsetattr: whether they succeed.
  pub save_terminal : ℤ → World → Bool × World
  pub set_terminal : ℤ → Settings → World → Bool × World
  -- tcsetattr of saved_tty_parameters.
  pub restore_terminal : ℤ → World → World
  pub flush_input : ℤ → World → World
  pub set_async : ℤ → World → World
  pub flush_both : ℤ → World → World
  pub close : ℤ → World → World
  pub time : World → ℕ × World
  -- The line of a descriptor, and what a command leaves of it.
  pub line : ℤ → World → Port
  pub set_line : ℤ → Port → World → World
  -- The update of the snapshot of a tag, alone or with the reset of its WRITE_VALUE; whether the
  -- query succeeded.
  pub store : List ℕ → doubles.Double → World → Bool × World
  pub store_written : List ℕ → doubles.Double → World → Bool × World
  -- The rows of WRITE_VALUE of a tag; none where the query or its result fails.
  pub write_values : List ℕ → World → Option (List (Option (List ℕ))) × World
  -- mysql_errno.
  pub db_error : World → ℤ
  pub atof : List ℕ → doubles.Double
  -- A local variable that nothing has set.
  pub unset : doubles.Double
  -- The option TEST of the command line.
  pub test : Bool

-- `start_time` is the variable startTime of Logger.
pub record Globals (o : Os) : Type 0 where
  pub world : o.World
  pub tns : ℕ
  pub start_time : ℕ

-- A step of the daemon; none where a command of the driver runs out of fuel, or past an array.
abbrev pub Act : Os → Type 0 → Type 0
Act o A = Globals o → Option (A × Globals o)

-- The speeds with a constant of their own; any other is 9600.
abbrev pub known_rates : List ℕ
known_rates =
    0 ∷ 50 ∷ 75 ∷ 110 ∷ 134 ∷ 150 ∷ 200 ∷ 300 ∷ 600 ∷ 1200 ∷ 1800 ∷ 2400 ∷ 4800 ∷ 9600 ∷ 19200
    ∷ 38400 ∷ 57600 ∷ 115200 ∷ 230400 ∷ []

unfoldable pub is_among : ℤ → List ℕ → Bool
is_among s [] = false
is_among s (r ∷ rs) = (s ==ℤ pos r) || is_among s rs

unfoldable pub rate_of : ℤ → ℤ
rate_of speed = if is_among speed known_rates then speed else pos 9600

unfoldable pub settings_of : ℤ → ℤ → ℕ → ℕ → Settings
settings_of speed parity bit_l bit_s = record {
  rate = rate_of speed;
  seven_bits = bit_l == 7;
  parity = (parity ==ℤ pos 1) || (parity ==ℤ negsuc 0);
  odd = parity ==ℤ negsuc 0;
  two_stop_bits = bit_s == 2;
  ignore_parity = if parity ==ℤ pos 1 then false else if parity ==ℤ negsuc 0 then false else true;
}

module _ {o : Os} where
  -- What a continuation makes of a step that has a result.
  abbrev pub and_then :
      {A B : Type 0} → Option (A × Globals o) → (A → Act o B) → Option (B × Globals o)
  and_then none k = none
  and_then (some r) k = k r.0 r.1

  infixl 5 ◌>>=◌ ◌>>◌
  abbrev pub ◌>>=◌ : {A B : Type 0} → Act o A → (A → Act o B) → Act o B
  (m >>= k) s = and_then (m s) k

  abbrev pub ◌>>◌ : {A B : Type 0} → Act o A → Act o B → Act o B
  (m >> k) s = and_then (m s) (λ _. k)

  abbrev pub pure : {A : Type 0} → A → Act o A
  pure a s = some (a, s)

  abbrev pub call : {A : Type 0} → (o.World → A × o.World) → Act o A
  call f s = let r = f s.world in some (r.0, record s { world = r.1 })

  abbrev pub run : (o.World → o.World) → Act o (Unit {0})
  run f s = some (tt, record s { world = f s.world })

  abbrev pub asks : {A : Type 0} → (o.World → A) → Act o A
  asks f s = some (f s.world, s)

  abbrev pub set_tns : ℕ → Act o (Unit {0})
  set_tns n s = some (tt, record s { tns = n })

  abbrev pub the_start_time : Act o ℕ
  the_start_time s = some (s.start_time, s)

  abbrev pub set_start_time : ℕ → Act o (Unit {0})
  set_start_time n s = some (tt, record s { start_time = n })

  -- What is left of the line and the transaction number behind a command.
  abbrev pub driven : {A : Type 0} → ℤ → Globals o → Run A → Option (A × Globals o)
  driven fd s out_of_fuel = none
  driven fd s overrun = none
  driven fd s (done a p) = some (a, record s { world = o.set_line fd p s.world; tns = p.tns })

  -- A command of the driver on the line of a descriptor.
  abbrev pub drive : {A : Type 0} → ℤ → Cmd A → Act o A
  drive fd m s = driven fd s (m (record (o.line fd s.world) { tns = s.tns }))

  -- Df1_open_device, from the terminal's settings on.
  unfoldable pub configured : ℤ → Settings → Act o ℤ
  configured fd settings = do
    run (o.flush_input fd)
    run (o.set_async fd)
    is_set ← call (o.set_terminal fd settings)
    if is_set
        then (do run (o.flush_both fd); now ← call o.time; set_tns (u16 now); pure fd)
        else pure error_com3

  unfoldable pub open_device : List ℕ → ℤ → ℤ → ℕ → ℕ → Act o ℤ
  open_device path speed parity bit_l bit_s = do
    fd ← call (o.open_path path)
    if is_neg fd then pure error_com1 else (do
      saved ← call (o.save_terminal fd)
      if saved then configured fd (settings_of speed parity bit_l bit_s) else pure error_com2)

  -- Df1_close_device.
  unfoldable pub close_device : ℤ → Act o (Unit {0})
  close_device fd = do run (o.restore_terminal fd); run (o.close fd)
