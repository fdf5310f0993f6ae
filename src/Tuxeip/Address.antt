-- ===== src/Tuxeip/Address.antt =====
-- _BuildLogicalBinaryAddress of PLC.c, which reads an address as N7:3/2 or T4:1.ACC.
pub mod Reads
pub mod Ends
use tux_plc.Base.{
  ℕ, zero, suc, ◌+◌, ◌-◌, ◌*◌, ◌/◌, ◌%◌, ◌^◌, bit_or, Bool, true, false, List, [], ◌∷◌, length, ltb,
  leb, ◌==◌, Option, none, some, if◌then◌else◌, held,
}
use tux_plc.Base.Int.{ℤ, pos, negsuc}
use tux_plc.Base.Libc.{same_start}
use tux_plc.Base.Libc.Strtol.{strtol}
use tux_plc.Base.Memory.{laid}
use tux_plc.Tuxeip.Requests.{LogicalBinaryAddress}

-- What the loop reads of the text so far.
pub record Progress : Type 0 where
  pub lba : LogicalBinaryAddress
  pub level : ℕ
  pub encoding_bit : Bool

-- The assignment to a CIP_UINT.
abbrev pub cip_uint : ℤ → ℕ
cip_uint (pos n) = n % 65536
cip_uint (negsuc n) = 65535 - n % 65536

-- lba->address[0] |= 1 << level
abbrev pub with_level : ℕ → LogicalBinaryAddress → LogicalBinaryAddress
with_level level a = record {
  size = a.size;
  address = laid a.address 0 1 (λ _. bit_or (a.address 0) (2 ^ level % 256));
  mask = a.mask;
}

abbrev pub with_bit : ℕ → LogicalBinaryAddress → LogicalBinaryAddress
with_bit bit a = record { size = a.size; address = a.address; mask = 2 ^ bit }

-- The bytes behind the ones that are there; none where they do not fit the ten of the array.
abbrev pub put_bytes : List ℕ → LogicalBinaryAddress → Option LogicalBinaryAddress
put_bytes bytes a =
    if ltb 10 (a.size + length bytes)
    then none
    else some (record {
      size = a.size + length bytes;
      address = laid a.address a.size (length bytes) (held bytes);
      mask = a.mask;
    })

-- A number of an address: a byte, or 0xff and a word.
abbrev pub number_bytes : ℕ → List ℕ
number_bytes i = if ltb i 255 then i ∷ [] else 0xff ∷ i % 256 ∷ i / 256 ∷ []

abbrev pub at_level : ℕ → Bool → Option LogicalBinaryAddress → Option Progress
at_level level bit none = none
at_level level bit (some a) = some (record { lba = a; level = level; encoding_bit = bit })

-- What is done with a number; none where a shift by it is undefined or the array is full.
unfoldable pub number_read : ℕ → Progress → Option Progress
number_read i s =
    if s.encoding_bit
    then (if ltb i 32 then at_level s.level true (some (with_bit i s.lba)) else none)
    else at_level (s.level + 1) false (put_bytes (number_bytes i) (with_level (s.level + 1) s.lba))

-- A name, and what it sets i and j to.
pub record Name : Type 0 where
  pub text : List ℕ
  pub index : Option ℕ
  pub bit : Option ℕ

abbrev indexed : List ℕ → ℕ → Name
indexed t i = record { text = t; index = some i; bit = none }

abbrev bit_of : List ℕ → ℕ → ℕ → Name
bit_of t i j = record { text = t; index = some i; bit = some j }

-- The names, in the order of the code.
abbrev pub names : List Name
names =
    indexed (b'C' ∷ b'T' ∷ b'L' ∷ []) 1
    ∷ indexed (b'P' ∷ b'R' ∷ b'E' ∷ []) 2
    ∷ indexed (b'A' ∷ b'C' ∷ b'C' ∷ []) 3
    ∷ indexed (b'C' ∷ b'T' ∷ b'L' ∷ b'0' ∷ []) 1
    ∷ indexed (b'C' ∷ b'T' ∷ b'L' ∷ b'1' ∷ []) 2
    ∷ indexed (b'S' ∷ b'P' ∷ []) 3
    ∷ indexed (b'K' ∷ b'P' ∷ []) 5
    ∷ indexed (b'K' ∷ b'I' ∷ []) 7
    ∷ indexed (b'K' ∷ b'D' ∷ []) 9
    ∷ indexed (b'P' ∷ b'V' ∷ []) 27
    ∷ bit_of (b'D' ∷ b'N' ∷ []) 1 14
    ∷ bit_of (b'E' ∷ b'N' ∷ []) 1 16
    ∷ bit_of (b'T' ∷ b'T' ∷ []) 1 15
    ∷ bit_of (b'O' ∷ b'V' ∷ []) 1 13
    ∷ bit_of (b'C' ∷ b'U' ∷ []) 1 16
    ∷ bit_of (b'S' ∷ b'W' ∷ b'M' ∷ []) 1 5
    ∷ bit_of (b'M' ∷ b'O' ∷ []) 1 2
    ∷ bit_of (b'O' ∷ b'L' ∷ b'L' ∷ []) 2 11
    ∷ bit_of (b'O' ∷ b'L' ∷ b'H' ∷ []) 2 10
    ∷ []

abbrev or_kept : ℕ → Option ℕ → ℕ
or_kept old none = old
or_kept old (some new) = new

-- i and j behind the tests of the names.
abbrev pub named : List ℕ → List Name → ℕ → ℕ → ℕ × ℕ
named str [] i j = (i, j)
named str (n ∷ ns) i j = elim (same_start (length n.text) str n.text) [
  | true ↦ named str ns (or_kept i n.index) (or_kept j n.bit)
  | false ↦ named str ns i j
]

abbrev pub with_index : ℕ → Progress → Option Progress
with_index i s =
    if i == 0
    then some s
    else at_level (s.level + 1) s.encoding_bit
        (put_bytes ((i - 1) ∷ []) (with_level (s.level + 1) s.lba))

abbrev pub with_name_bit : ℕ → Option Progress → Option Progress
with_name_bit j none = none
with_name_bit j (some s) =
    if j == 0 then some s else at_level s.level s.encoding_bit (some (with_bit (j - 1) s.lba))

-- What is done where no number begins.
unfoldable pub name_read : List ℕ → Progress → Option Progress
name_read str s =
    let found = named str names 0 0 in
    with_name_bit found.1 (
      with_index found.0 (record {
        lba = s.lba;
        level = s.level;
        encoding_bit = if same_start 1 str (b'/' ∷ []) then true else s.encoding_bit;
      }))

-- The address, an access out of its array or an undefined shift, or no more rounds left.
pub data BuiltAddress : Type 0 where
  built : LogicalBinaryAddress → BuiltAddress
  fault : BuiltAddress
  out_of_fuel : BuiltAddress

-- Where the next round reads from: the text that tail points to, and the next byte behind it where
-- strtol left tail at the start.
abbrev pub tail_text : List ℕ → Option (ℤ × List ℕ) → List ℕ
tail_text str none = str
tail_text str (some (i, tail)) = tail

abbrev pub next_text : List ℕ → Option (ℤ × List ℕ) → List ℕ
next_text [] none = []
next_text (c ∷ str) none = str
next_text str (some (i, tail)) = tail

abbrev pub part_read : List ℕ → Option (ℤ × List ℕ) → Progress → Option Progress
part_read str none s = name_read str s
part_read str (some (i, tail)) s = number_read (cip_uint i) s

-- while (tail < address + len)
abbrev pub or_ended : List ℕ → Option Progress → (Progress → BuiltAddress) → BuiltAddress
or_ended tail none again = fault
or_ended [] (some s) again = built s.lba
or_ended (c ∷ tail) (some s) again = again s

unfoldable pub lba_loop : ℕ → List ℕ → Progress → BuiltAddress
lba_loop zero str s = out_of_fuel
lba_loop (suc fuel) str s =
    let value = strtol str in
    or_ended (tail_text str value) (part_read str value s) (lba_loop fuel (next_text str value))

-- _BuildLogicalBinaryAddress.
unfoldable pub build_logical_binary_address : List ℕ → BuiltAddress
build_logical_binary_address address = lba_loop (suc (length address)) address (record {
  lba = record { size = 1; address = λ _. 0; mask = 0 };
  level = 0;
  encoding_bit = false;
})
