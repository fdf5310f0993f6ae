-- ===== src/Df1/Tag.antt =====
-- read_Tag and write_Tag of df1.c. The double that carries a response is a parameter: the type, and
-- the conversions of C between it and the other types.
pub mod Reads
pub mod Writes
use tux_plc.Base.{
  length, Bool, true, ◌&&◌, ℕ, ◌-◌, ◌%◌, List, [], Option, none, some, ltb, if◌then◌else◌,
}
use tux_plc.Base.Int.{ℤ, pos, negsuc, ◌==ℤ◌}
use tux_plc.Df1.{slc, success}
use tux_plc.Df1.Command.{
  read_integer, read_boolean, read_float, write_integer, write_boolean, write_float,
}
use tux_plc.Df1.Port.{overrun, Cmd, pure, ◌>>=◌}
use tux_plc.Df1.Query.{Selected, select_fnct}

pub record Doubles : Type 1 where
  pub Double : Type 0
  pub of_int : ℤ → Double
  -- from the four bytes of a float
  pub of_float : (ℕ → ℕ) → Double
  pub to_int : Double → ℤ
  pub to_float : Double → ℕ → ℕ

-- The short with the bits of a word.
abbrev pub short_of : ℕ → ℤ
short_of w = if ltb w 0x8000 then pos w else negsuc (0xffff - w)

-- The word with the low bits of an int.
abbrev pub word_of_int : ℤ → ℕ
word_of_int (pos n) = n % 65536
word_of_int (negsuc n) = 65535 - n % 65536

-- The text at `address`; a code that is 1, 2 or 3 comes with it.
abbrev pub address_of : Option (List ℕ) → List ℕ
address_of none = []
address_of (some a) = a

-- Whether a text and its NUL fit an array of 20 bytes.
abbrev pub fits_array : Option (List ℕ) → Bool
fits_array none = true
fits_array (some a) = ltb (length a) 20

-- A command, where what select_fnct stores fits Address and writevalue. What it leaves in rcvmsg is
-- `query_left`.
abbrev pub stored_by : Selected → {A : Type 0} → Cmd A → Cmd A
stored_by s m = if fits_array s.address && fits_array s.value then m else (λ _. overrun)

module _ (d : Doubles) where
  open d use {Double, of_int, of_float, to_int, to_float}

  -- The error, and *response where it is written.
  unfoldable pub read_tag : ℕ → List ℕ → Double → Cmd (ℤ × Double)
  read_tag fuel rcvmsg response =
      let s = select_fnct rcvmsg in
      let a = address_of s.address in
      stored_by s (
        if s.code ==ℤ pos 1
        then (do
          (e, v) ← read_integer fuel slc a
          pure (e, if e ==ℤ success then of_int (short_of v) else response))
        else if s.code ==ℤ pos 2
        then (do
          (e, v) ← read_boolean fuel slc a
          pure (e, if e ==ℤ success then of_int (pos v) else response))
        else if s.code ==ℤ pos 3
        then (do
          (e, v) ← read_float fuel slc a
          pure (e, if e ==ℤ success then of_float v else response))
        else pure (s.code, response))

  unfoldable pub write_tag : ℕ → List ℕ → Double → Cmd (ℤ × Double)
  write_tag fuel rcvmsg response =
      let s = select_fnct rcvmsg in
      let a = address_of s.address in
      stored_by s (
        if s.code ==ℤ pos 1
        then (do
          let value = word_of_int (to_int response)
          e ← write_integer fuel slc a value
          pure (e, if e ==ℤ success then of_int (pos value) else response))
        else if s.code ==ℤ pos 2
        then (do
          e ← write_boolean fuel slc a (to_int response)
          pure (e, if e ==ℤ success then of_int (to_int response) else response))
        else if s.code ==ℤ pos 3
        then (do
          e ← write_float fuel slc a (to_float response)
          pure (e, if e ==ℤ success then of_float (to_float response) else response))
        else pure (s.code, response))
