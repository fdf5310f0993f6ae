-- ===== src/TuxDf1/Rows.antt =====
-- What _GetPlc and _GetTag of TuxDf1.c make of a row of the database. A column that may be NULL is an
-- option; the texts are taken to fit the arrays that they are copied to. MAX_SAMPLE, which nothing
-- else reads, is left out.
use tux_plc.Base.{ℕ, ◌-◌, ◌%◌, false, List, [], ltb, Option, none, some, if◌then◌else◌}
use tux_plc.Base.Int.{ℤ, pos, negsuc}
use tux_plc.Base.Libc.{atoi}
use tux_plc.TuxDf1.{Tag, Plc}

-- The columns of the table PLC.
pub record PlcRow : Type 0 where
  pub name : List ℕ
  pub path : List ℕ
  pub speed_text : List ℕ

-- The columns that _GetTag selects.
pub record TagRow : Type 0 where
  pub name : List ℕ
  pub address : List ℕ
  pub sample_text : Option (List ℕ)

-- Seconds.
abbrev pub min_sample : ℕ
min_sample = 10

-- The int as a short, where that is not less than min_sample.
abbrev pub sample_of : ℤ → ℕ
sample_of (pos n) =
    let word = n % 65536 in
    if ltb word 32768 then (if ltb word min_sample then min_sample else word) else min_sample
sample_of (negsuc n) =
    let word = 65535 - n % 65536 in
    if ltb word 32768 then (if ltb word min_sample then min_sample else word) else min_sample

unfoldable pub sample_of_text : Option (List ℕ) → ℕ
sample_of_text none = min_sample
sample_of_text (some t) = sample_of (atoi t)

module _ {D : Type 0} (zero_double : D) where
  -- A PLC as _GetPlc fills it.
  unfoldable pub plc_of_row : PlcRow → Plc D
  plc_of_row r = record {
    plc_name = r.name;
    plc_path = r.path;
    plc_speed = atoi r.speed_text;
    socket = negsuc 0;
    next_time = 0;
    tags = [];
  }

  -- A TAG as _GetTag fills it.
  unfoldable pub tag_of_row : TagRow → Tag D
  tag_of_row r = record {
    tag_name = r.name;
    address = r.address;
    time_sample = sample_of_text r.sample_text;
    time_value = 0;
    write_exist = false;
    write_value = zero_double;
  }
