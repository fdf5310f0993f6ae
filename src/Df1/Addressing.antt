-- ===== src/Df1/Addressing.antt =====
-- calc_address of df1.c: the text of a data table address, such as N7:12/3.
pub mod Fields
use tux_plc.Base.{ℕ, ◌+◌, Bool, true, false, List, [], ◌∷◌, length, ◌==◌, ◌||◌, if◌then◌else◌}
use tux_plc.Base.Libc.{atoi, byte_of, is_digit, same_start}
use tux_plc.Df1.{Address}

-- bzero(address,sizeof(*address))
abbrev pub zero_address : Address
zero_address = record { size = 0; file_number = 0; file_type = 0; ele_number = 0; s_ele_number = 0 }

-- The letters with a file number behind them: the type, the size, and the text that follows.
unfoldable pub set_file : Address → ℕ → ℕ → List ℕ → Address
set_file a file_type size cs = record a {
  size = size;
  file_number = byte_of (atoi cs);
  file_type = file_type;
}

-- One of the comparisons with a sub-element's name. `n` is the length of the rest of the text, so
-- the text may be any beginning of the name.
unfoldable pub name_sub : List ℕ → List ℕ → ℕ → Address → Address
name_sub cs name value a =
    if same_start (length cs) cs name then record a { s_ele_number = value } else a

unfoldable pub number_sub : List ℕ → Address → Address
number_sub [] a = a
number_sub (c ∷ cs) a =
    if is_digit c then record a { s_ele_number = byte_of (atoi (c ∷ cs)) } else a

-- The case of '.' and '/', on the text behind it; the loop ends there.
unfoldable pub sub_element : List ℕ → Address → Address
sub_element cs a = name_sub cs (b'd' ∷ b'n' ∷ []) 15 (
    name_sub cs (b't' ∷ b't' ∷ []) 14 (
      name_sub cs (b'e' ∷ b'n' ∷ []) 13 (
        name_sub cs (b'p' ∷ b'o' ∷ b's' ∷ []) 2 (
          name_sub cs (b'l' ∷ b'e' ∷ b'n' ∷ []) 1 (
            name_sub cs (b'p' ∷ b'r' ∷ b'e' ∷ []) 1
              (name_sub cs (b'a' ∷ b'c' ∷ b'c' ∷ []) 2 (number_sub cs a)))))))

-- What the switch does at one byte: where to go on, with the address so far.
pub data Next : Type 0 where
  -- at the next byte
  step : Address → Next
  -- x++ in the case: behind the next byte
  skip : Address → Next
  stop : Address → Next

unfoldable pub switch : ℕ → List ℕ → Address → Next
switch c cs a =
    if c == b'O'
    then step (record a { size = 2; file_number = 0; file_type = 0x8b })
    else if c == b'I'
    then step (record a { size = 2; file_number = 1; file_type = 0x8c })
    else if c == b'S'
    then skip (set_file a 0x84 2 cs)
    else if c == b'B'
    then skip (set_file a 0x85 2 cs)
    else if c == b'T'
    then skip (set_file a 0x86 2 cs)
    else if c == b'C'
    then skip (set_file a 0x87 2 cs)
    else if c == b'R'
    then skip (set_file a 0x88 2 cs)
    else if c == b'N'
    then skip (set_file a 0x89 2 cs)
    else if c == b'F'
    then skip (set_file a 0x8a 4 cs)
    else if c == b':'
    then skip (record a { ele_number = byte_of (atoi cs) })
    else if c == b'.' || c == b'/'
    then stop (sub_element cs a)
    else step a

-- The loop over x; `skipped` says that the byte at x is passed over.
unfoldable pub address_loop : Bool → List ℕ → Address → Address
address_loop skipped [] a = a
address_loop true (c ∷ cs) a = address_loop false cs a
address_loop false (c ∷ cs) a = elim (switch c cs a) [
  | step a' ↦ address_loop false cs a'
  | skip a' ↦ address_loop true cs a'
  | stop a' ↦ a'
]

-- The result is always SUCCESS.
unfoldable pub calc_address : List ℕ → Address
calc_address straddress = address_loop false straddress zero_address
