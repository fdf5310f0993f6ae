-- ===== src/Tuxeip/Values.antt =====
-- The values of a read: _PCCC_GetValueAsBoolean, _PCCC_GetValueAsInteger and _PCCC_GetValueAsFloat of
-- PLC.c, _GetLGXValueAsFloat and _GetLGXValueAsInteger of LGX.c. C's float and its conversions are the
-- parameter FloatType. An index is not negative. `outside` is what stands in memory around the data, by
-- the distance from their first byte: an index out of range is reported, and read all the same.
pub mod Inside
use tux_plc.Base.{
  ℕ, zero, suc, ◌+◌, ◌-◌, ◌*◌, Bool, true, false, ◌||◌, List, [], ◌∷◌, length, get_or, ltb, leb,
  ◌==◌, bit_and, Option, none, some, if◌then◌else◌,
}
use tux_plc.Base.Bits.{word_of}
use tux_plc.Base.Int.{ℤ, pos, negsuc, ◌==ℤ◌}
use tux_plc.Base.Libc.{negated}
use tux_plc.Tuxeip.{plc_integer, plc_floating}
use tux_plc.Tuxeip.Eip.{e_error}
use tux_plc.Tuxeip.Link.{
  CipError, internal, e_invalid_reply, e_out_of_range, e_unsupported_data_type,
}
use tux_plc.Tuxeip.Lgx.{LgxRead}
use tux_plc.Tuxeip.Pccc.{PlcRead, int_of_longword}
use tux_plc.Tuxeip.Router.{int_of_word}

-- The float of an int and the one with the bits of a longword, and what C's conversions make of one.
pub record FloatType : Type 1 where
  pub Float : Type 0
  pub of_int : ℤ → Float
  pub of_bits : ℕ → Float
  pub to_int : Float → ℤ
  pub to_unsigned : Float → ℕ

abbrev pub e_success : ℤ
e_success = pos 0

-- The byte at a distance from the data.
abbrev pub byte_at : List ℕ → (ℤ → ℕ) → ℤ → ℕ
byte_at content outside (pos k) =
    if ltb k (length content) then get_or content k 0 else outside (pos k)
byte_at content outside (negsuc k) = outside (negsuc k)

-- The distance of an element, and of a byte of it.
abbrev pub distance : ℕ → ℤ → ℤ
distance i (pos size) = pos (i * size)
distance i (negsuc size) = negated (i * (size + 1))

abbrev pub later : ℕ → ℤ → ℤ
later n (pos k) = pos (k + n)
later n (negsuc k) = if ltb k n then pos (n - k - 1) else negsuc (k - n)

abbrev pub word_in : (ℤ → ℕ) → ℤ → ℕ
word_in m at = word_of (m at) (m (later 1 at))

abbrev pub longword_in : (ℤ → ℕ) → ℤ → ℕ
longword_in m at = word_in m at + 65536 * word_in m (later 2 at)

-- The int with the bits of a byte.
abbrev pub int_of_byte : ℕ → ℤ
int_of_byte b = if ltb b 128 then pos b else negsuc (255 - b)

abbrev pub is_beyond : ℕ → ℤ → Bool
is_beyond i (pos n) = leb n i
is_beyond i (negsuc n) = true

abbrev pub range_error : Bool → CipError
range_error beyond = internal (if beyond then e_out_of_range else e_success)

-- The choice of a value by the type; none is no known type.
abbrev pub chosen : {A : Type 0} → A → CipError → Option A → A × CipError
chosen error e none = (error, internal e_unsupported_data_type)
chosen error e (some v) = (v, e)

module _ (f : FloatType) where
  open f use {Float, of_int, of_bits, to_int, to_unsigned}

  unfoldable pub plc_element : ℕ → (ℤ → ℕ) → ℤ → Option Float
  plc_element type m at =
      if type == plc_integer
      then some (of_int (int_of_word (word_in m at)))
      else if type == plc_floating
      then some (of_bits (longword_in m at))
      else none

  abbrev pub converted : {A : Type 0} → (Float → A) → Option Float → Option A
  converted k none = none
  converted k (some v) = some (k v)

  -- What the three functions of PLC.c share: the value where there is none, the one of an error, and
  -- what is made of a float.
  unfoldable pub plc_value :
      {A : Type 0} → A → A → (Float → A) → (ℤ → ℕ) → PlcRead → ℕ → A × CipError
  plc_value nothing error k outside r i =
      if (r.varcount ==ℤ pos 0) || (r.totalsize ==ℤ pos 0)
      then (nothing, internal e_invalid_reply)
      else chosen error (range_error (is_beyond i r.varcount))
          (converted k (plc_element r.type (byte_at r.content outside) (distance i r.elementsize)))

  -- A mask of -1 is none, and one of 0 counts as that.
  unfoldable pub masked : ℕ → Float → ℤ
  masked mask v =
      if (mask == 0) || (mask == 4294967295)
      then to_int v
      else if bit_and (to_unsigned v) mask == 0
      then pos 0
      else pos 1

  -- _PCCC_GetValueAsBoolean, with the mask of the read.
  unfoldable pub pccc_get_value_as_boolean : ℕ → (ℤ → ℕ) → PlcRead → ℕ → ℤ × CipError
  pccc_get_value_as_boolean mask = plc_value (pos 0) e_error (masked mask)

  -- _PCCC_GetValueAsInteger.
  unfoldable pub pccc_get_value_as_integer : (ℤ → ℕ) → PlcRead → ℕ → ℤ × CipError
  pccc_get_value_as_integer = plc_value (pos 0) e_error to_int

  -- _PCCC_GetValueAsFloat.
  unfoldable pub pccc_get_value_as_float : (ℤ → ℕ) → PlcRead → ℕ → Float × CipError
  pccc_get_value_as_float = plc_value (of_int (pos 0)) (of_int e_error) (λ v. v)

  unfoldable pub lgx_element : ℤ → (ℤ → ℕ) → ℤ → Option Float
  lgx_element type m at =
      if type ==ℤ pos 0xC1
      then some (of_int (pos (m at)))
      else if type ==ℤ pos 0xD3
      then some (of_int (int_of_longword (longword_in m at)))
      else if type ==ℤ pos 0xC2
      then some (of_int (int_of_byte (m at)))
      else if type ==ℤ pos 0xC3
      then some (of_int (int_of_word (word_in m at)))
      else if type ==ℤ pos 0xC4
      then some (of_int (int_of_longword (longword_in m at)))
      else if type ==ℤ pos 0xCA
      then some (of_bits (longword_in m at))
      else none

  -- _GetLGXValueAsFloat, with the mask of the read.
  unfoldable pub get_lgx_value_as_float : ℕ → (ℤ → ℕ) → LgxRead → ℕ → Float × CipError
  get_lgx_value_as_float mask outside r i =
      if (r.varcount == 0) || (r.totalsize == 0)
      then (of_int (pos 0), internal e_invalid_reply)
      else chosen (of_int e_error) (range_error (leb r.varcount i)) (
          converted (λ v. if (mask == 0) || (mask == 4294967295) then v else of_int (masked mask v))
            (lgx_element r.type (byte_at r.content outside) (pos (i * r.elementsize))))

  -- _GetLGXValueAsInteger.
  unfoldable pub get_lgx_value_as_integer : ℕ → (ℤ → ℕ) → LgxRead → ℕ → ℤ × CipError
  get_lgx_value_as_integer mask outside r i =
      let v = get_lgx_value_as_float mask outside r i in (to_int v.0, v.1)
