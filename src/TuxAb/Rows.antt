-- ===== src/TuxAb/Rows.antt =====
-- What _GetPlc and _GetTag of TuxAB.c make of a row of the database. A column that may be NULL is an
-- option; the texts are taken to fit the arrays that they are copied to.
pub mod Elements
use tux_plc.Base.{
  ℕ, ◌+◌, ◌-◌, ◌%◌, Bool, true, false, ◌||◌, List, [], ◌∷◌, length, ltb, leb, Option, none, some,
  if◌then◌else◌,
}
use tux_plc.Base.Int.{ℤ, pos, negsuc}
use tux_plc.Base.Libc.{atoi, same_start}
use tux_plc.Tuxeip.Requests.{LogicalBinaryAddress}
use tux_plc.Tuxeip.Address.{BuiltAddress, built, fault, out_of_fuel, build_logical_binary_address}
use tux_plc.TuxAb.{
  PlcType, plc5, slc500, lgx, unknow, TagType, ab_bit, ab_sint, ab_int, ab_dint, ab_real, ab_unknow,
  Tag, Plc,
}

-- The columns of the table PLC.
pub record PlcRow : Type 0 where
  pub name : List ℕ
  pub path : List ℕ
  pub type_text : Option (List ℕ)
  pub network_text : Option (List ℕ)
  pub node_text : Option (List ℕ)

-- strncasecmp(text, word, lengths[i]) == 0: a text that is the beginning of the word passes too.
abbrev pub is_word : List ℕ → List ℕ → Bool
is_word text word = same_start (length text) text word

unfoldable pub plc_type_of : Option (List ℕ) → PlcType
plc_type_of none = unknow
plc_type_of (some t) =
    if is_word t (b'P' ∷ b'L' ∷ b'C' ∷ [])
    then plc5
    else if is_word t (b'S' ∷ b'L' ∷ b'C' ∷ [])
    then slc500
    else if is_word t (b'L' ∷ b'G' ∷ b'X' ∷ [])
    then lgx
    else unknow

unfoldable pub network_of : Option (List ℕ) → ℕ
network_of none = 0
network_of (some t) =
    if is_word t (b'D' ∷ b'H' ∷ b'P' ∷ [])
    then 1
    else if is_word t (b'D' ∷ b'H' ∷ b'P' ∷ b'_' ∷ b'A' ∷ [])
    then 1
    else if is_word t (b'D' ∷ b'H' ∷ b'P' ∷ b'_' ∷ b'B' ∷ [])
    then 2
    else 0

abbrev pub node_of : Option (List ℕ) → ℤ
node_of none = pos 0
node_of (some t) = atoi t

-- A PLC as _GetPlc fills it.
unfoldable pub plc_of_row : PlcRow → Plc
plc_of_row r = record {
  plc_name = r.name;
  plc_path = r.path;
  plc_type = plc_type_of r.type_text;
  network = network_of r.network_text;
  node = node_of r.node_text;
  errors = 0;
  session = 0;
  connection = 0;
  next_time = 0;
  tags = [];
  packets = [];
}

-- The columns that _GetTag selects.
pub record TagRow : Type 0 where
  pub name : List ℕ
  pub address : List ℕ
  pub type_text : Option (List ℕ)
  pub sample_text : Option (List ℕ)

-- The type of the data: the tests read the column behind the one that is tested for NULL. None where
-- that one is NULL, and strncasecmp reads through NULL.
unfoldable pub tag_type_of : Option (List ℕ) → Option (List ℕ) → Option TagType
tag_type_of none sample = some ab_unknow
tag_type_of (some t) none = none
tag_type_of (some t) (some s) = some (
    if is_word s (b'b' ∷ b'i' ∷ b't' ∷ [])
    then ab_bit
    else if is_word s (b's' ∷ b'i' ∷ b'n' ∷ b't' ∷ [])
    then ab_sint
    else if is_word s (b'i' ∷ b'n' ∷ b't' ∷ [])
    then ab_int
    else if is_word s (b'd' ∷ b'i' ∷ b'n' ∷ b't' ∷ [])
    then ab_dint
    else if is_word s (b'r' ∷ b'e' ∷ b'a' ∷ b'l' ∷ [])
    then ab_real
    else ab_unknow)

abbrev pub min_sample : ℕ
min_sample = 5

-- An int as a short, where it is min_sample or more, and min_sample otherwise.
abbrev pub short_sample : ℕ → ℕ
short_sample word =
    if ltb word 32768 then (if ltb word min_sample then min_sample else word) else min_sample

-- The int as a short.
abbrev pub sample_of : ℤ → ℕ
sample_of (pos n) = short_sample (n % 65536)
sample_of (negsuc n) = short_sample (65535 - n % 65536)

unfoldable pub time_sample_of : Option (List ℕ) → ℕ
time_sample_of none = min_sample
time_sample_of (some t) = sample_of (atoi t)

abbrev pub tag_with : TagRow → Option TagType → BuiltAddress → Option Tag
tag_with r (some type) (built a) = some (record {
  tag_name = r.name;
  address = r.address;
  lba = a;
  data_type = type;
  time_sample = time_sample_of r.sample_text;
  time_value = 0;
  index = pos 0;
})
tag_with r _ _ = none

-- A TAG as _GetTag fills it; none where it reads through NULL, or writes behind the array of the address.
unfoldable pub tag_of_row : TagRow → Option Tag
tag_of_row r =
    tag_with r (tag_type_of r.type_text r.sample_text) (build_logical_binary_address r.address)
