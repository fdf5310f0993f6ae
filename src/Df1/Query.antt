-- ===== src/Df1/Query.antt =====
-- select_fnct of df1.c: what a query asks for.
pub mod Kinds
pub mod Parse
use tux_plc.Base.{
  ℕ, ◌+◌, Bool, true, false, List, [], ◌∷◌, ◌==◌, ◌||◌, ◌&&◌, not, leb, ◌-◌, if◌then◌else◌, Option,
  none, some,
}
use tux_plc.Base.Int.{ℤ, pos, negsuc}
use tux_plc.Base.Libc.{is_alpha, to_upper, has_byte, has_text}
use tux_plc.Df1.{error_bad_query}

-- The three file types and actions: 1 for an integer, 2 for a boolean, 3 for a float, 10 more for a write.
abbrev pub file_types : List ℕ
file_types = b'O' ∷ b'I' ∷ b'S' ∷ b'B' ∷ b'T' ∷ b'C' ∷ b'R' ∷ b'N' ∷ b'F' ∷ []

-- toupper(strquery[0]); the first byte of the empty string is its NUL.
abbrev pub first_upper : List ℕ → ℕ
first_upper [] = 0
first_upper (c ∷ cs) = to_upper c

-- strchr(filetype,toupper(strquery[0]))!=NULL: strchr finds the NUL of "OISBTCRNF" too.
unfoldable pub known_file : List ℕ → Bool
known_file q = first_upper q == 0 || has_byte (first_upper q) file_types

-- strsep with the delimiters "=\n\r": the text up to the first of them, and the text behind it.
abbrev pub is_delimiter : ℕ → Bool
is_delimiter c = c == b'=' || (c == 10 || c == 13)

unfoldable pub before_delimiter : List ℕ → List ℕ
before_delimiter [] = []
before_delimiter (c ∷ cs) =
    let rest = before_delimiter cs in if is_delimiter c then [] else c ∷ rest

unfoldable pub behind_delimiter : List ℕ → List ℕ
behind_delimiter [] = []
behind_delimiter (c ∷ cs) = let rest = behind_delimiter cs in if is_delimiter c then cs else rest

unfoldable pub upper_all : List ℕ → List ℕ
upper_all [] = []
upper_all (c ∷ cs) = (if is_alpha c then to_upper c else c) ∷ upper_all cs

-- The switch on the first letter of the address; -1 is ERROR.
unfoldable pub file_kind : List ℕ → ℤ
file_kind a =
    let c = first_upper a in
    if c == b'F' then pos 3 else if has_byte c file_types then pos 1 else negsuc 0

-- The tests for '.', '/', and the names of sub-elements: the last that holds decides.
unfoldable pub kind : List ℕ → ℤ
kind a =
    let k1 = if has_byte b'.' a then pos 2 else file_kind a in
    let k2 = if has_byte b'/' a then pos 2 else k1 in
    let k3 = if has_text (b'A' ∷ b'C' ∷ b'C' ∷ []) a then pos 1 else k2 in
    let k4 = if has_text (b'P' ∷ b'R' ∷ b'E' ∷ []) a then pos 1 else k3 in
    let k5 = if has_text (b'L' ∷ b'E' ∷ b'N' ∷ []) a then pos 1 else k4 in
    let k6 = if has_text (b'P' ∷ b'O' ∷ b'S' ∷ []) a then pos 1 else k5 in
    let k7 = if has_text (b'E' ∷ b'N' ∷ []) a then pos 2 else k6 in
    let k8 = if has_text (b'T' ∷ b'T' ∷ []) a then pos 2 else k7 in
    if has_text (b'D' ∷ b'N' ∷ []) a then pos 2 else k8

-- result+=10
unfoldable pub write_kind : ℤ → ℤ
write_kind (pos n) = pos (n + 10)
write_kind (negsuc n) = if leb n 9 then pos (9 - n) else negsuc (n - 10)

-- The code, with the texts that are stored at `address` and `value`; `none` where nothing is stored.
pub record Selected : Type 0 where
  pub code : ℤ
  pub address : Option (List ℕ)
  pub value : Option (List ℕ)

-- What select_fnct leaves in the query, which strsep cuts and the loop of toupper writes over.
unfoldable pub query_left : List ℕ → List ℕ
query_left strquery =
    if not (known_file strquery) || not (has_byte b':' strquery)
    then strquery
    else upper_all (before_delimiter strquery)

unfoldable pub select_fnct : List ℕ → Selected
select_fnct strquery =
    if not (known_file strquery) || not (has_byte b':' strquery)
    then record { code = error_bad_query; address = none; value = none }
    else (let address = upper_all (before_delimiter strquery) in
        if has_byte b'=' strquery
        then record {
          code = write_kind (kind address);
          address = some address;
          value = some (before_delimiter (behind_delimiter strquery));
        }
        else record { code = kind address; address = some address; value = none })
