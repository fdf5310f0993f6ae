-- ===== src/Tuxeip/Ioi.antt =====
-- The paths of symbolic tag names, CIP_IOI.c. A row is what the function leaves of as many bytes of the
-- buffer as it returns, which is the count: _BuildLgxReadDataRequest and _BuildLgxWriteDataRequest clear
-- the buffer before, so that a byte that is passed over is 0.
pub mod Even
use tux_plc.Base.{
  ℕ, zero, suc, ◌+◌, ◌-◌, ◌*◌, ◌/◌, ◌%◌, Bool, List, [], ◌∷◌, ◌++◌, length, take, drop, ltb, leb,
  ◌==◌, Option, none, some, if◌then◌else◌,
}
use tux_plc.Base.Bits.{low_byte, high_byte, u16}
use tux_plc.Base.Int.{ℤ, pos, negsuc}
use tux_plc.Base.Libc.{atoi, byte_of}

pub record Row : Type 0 where
  pub row : List ℕ
  pub count : ℕ

abbrev pub no_row : Row
no_row = record { row = []; count = 0 }

abbrev pub joined : Row → Row → Row
joined a b = record { row = a.row ++ b.row; count = a.count + b.count }

-- strchr, as the index of the first occurrence.
abbrev pub index_of : ℕ → List ℕ → Option ℕ
index_of c [] = none
index_of c (x ∷ s) =
    if x == c then some 0 else elim (index_of c s) [ none ↦ none | some i ↦ some (suc i) ]

-- _AddSegmentValue. Of a value of 4 bytes the lower two are written, and the two behind them are passed
-- over: they count in what it returns, and keep the 0 of the cleared buffer.
unfoldable pub add_segment_value : ℤ → Row
add_segment_value (negsuc n) = record { row = 0x28 ∷ byte_of (negsuc n) ∷ []; count = 2 }
add_segment_value (pos v) =
    if ltb 0xffff v
    then record { row = 0x2A ∷ 0 ∷ low_byte v ∷ high_byte v ∷ 0 ∷ 0 ∷ []; count = 6 }
    else if ltb 0xff v
    then record { row = 0x29 ∷ 0 ∷ low_byte v ∷ high_byte v ∷ []; count = 4 }
    else record { row = 0x28 ∷ low_byte v ∷ []; count = 2 }

-- The loop of _BuildIOIArray over n characters of s: a comma behind them ends it. Each round takes a
-- character or more, so that fuel of n is enough.
unfoldable pub array_loop : ℕ → List ℕ → ℕ → Row
array_loop zero s n = no_row
array_loop (suc f) s zero = no_row
array_loop (suc f) s (suc n) =
    joined (add_segment_value (atoi s))
      (elim (index_of b',' s) [ none ↦ no_row | some i ↦ array_loop f (drop (suc i) s) (n - i) ])

-- _BuildIOIArray.
unfoldable pub build_ioi_array : List ℕ → ℕ → Row
build_ioi_array s size = let n = if ltb (length s) size then length s else size in array_loop n s n

-- The name of at most `size` characters, and _BuildIOIString.
abbrev pub name_of : List ℕ → ℕ → List ℕ
name_of s size = take size s

unfoldable pub build_ioi_string : List ℕ → ℕ → Row
build_ioi_string s size =
    let n = if ltb (length s) size then length s else size in
    if n == 0 then no_row else record {
      row = 0x91 ∷ n % 256 ∷ (name_of s n ++ (if n % 2 == 1 then 0 ∷ [] else []));
      count = 2 + n + n % 2;
    }

-- An address whose brackets do not pair makes the code run out of the string.
pub data Ioi : Type 0 where
  built : Row → Ioi
  unpaired : Ioi
  out_of_fuel : Ioi

abbrev pub behind : Row → Ioi → Ioi
behind r (built q) = built (joined r q)
behind r unpaired = unpaired
behind r out_of_fuel = out_of_fuel

-- The part of a round that ends at a bracket at the index i, closed at the index j.
abbrev pub bracket_row : List ℕ → ℕ → ℕ → Row
bracket_row s i j =
    joined (if ltb 0 i then build_ioi_string s i else no_row)
      (build_ioi_array (drop (suc i) s) (j - i))

-- What a round of the loop of _BuildIOI does: the row that it adds, and the string that it leaves.
pub data Round : Type 0 where
  whole : Row → Round
  part : Row → List ℕ → Round
  open_bracket : Round

unfoldable pub closed_at : List ℕ → ℕ → Option ℕ → Round
closed_at s i none = open_bracket
closed_at s i (some j) = if ltb i j then part (bracket_row s i j) (drop (suc j) s) else open_bracket

-- The three branches, by where the string has a bracket and a dot.
unfoldable pub round_at : List ℕ → Option ℕ → Option ℕ → Round
round_at s none none = whole (build_ioi_string s (length s))
round_at s none (some e) = part (build_ioi_string s e) (drop (suc e) s)
round_at s (some b) none = closed_at s b (index_of b']' s)
round_at s (some b) (some e) =
    if ltb b e
    then closed_at s b (index_of b']' s)
    else part (build_ioi_string s e) (drop (suc e) s)

abbrev pub ioi_round : List ℕ → Round
ioi_round s = round_at s (index_of b'[' s) (index_of b'.' s)

unfoldable pub go_on : Round → (List ℕ → Ioi) → Ioi
go_on (whole r) k = built r
go_on (part r rest) k = behind r (k rest)
go_on open_bracket k = unpaired

unfoldable pub ioi_loop : ℕ → List ℕ → Ioi
ioi_loop zero s = out_of_fuel
ioi_loop (suc f) [] = built no_row
ioi_loop (suc f) (x ∷ s) = go_on (ioi_round (x ∷ s)) (λ rest. ioi_loop f rest)

-- _BuildIOI.
unfoldable pub build_ioi : List ℕ → Ioi
build_ioi s = ioi_loop (suc (length s)) s
