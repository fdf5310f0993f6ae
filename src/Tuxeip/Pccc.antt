-- ===== src/Tuxeip/Pccc.antt =====
-- The descriptors of data in PCCC messages, and the replies to typed reads: PLC.c of tuxeip. A reply
-- is the memory from its header on; malloc and realloc are taken to succeed.
pub mod RoundTrip
pub mod Counts
use tux_plc.Base.{
  ℕ, zero, suc, ◌+◌, ◌-◌, ◌*◌, ◌/◌, ◌%◌, Bool, true, false, List, [], ◌∷◌, ltb, leb, ◌==◌, Option,
  none, some, if◌then◌else◌,
}
use tux_plc.Base.Int.{ℤ, pos, negsuc}
use tux_plc.Base.Libc.{negated}
use tux_plc.Tuxeip.{
  plc_byte_string, plc_integer, plc_timer, plc_counter, plc_control, plc_floating, plc_array,
}

-- _GetPLCDataSize; `none` is E_Error.
unfoldable pub get_plc_data_size : ℕ → Option ℕ
get_plc_data_size ty =
    if ty == plc_byte_string
    then some 1
    else if ty == plc_integer
    then some 2
    else if ty == plc_timer
    then some 6
    else if ty == plc_counter
    then some 6
    else if ty == plc_control
    then some 6
    else if ty == plc_floating
    then some 4
    else none

-- 1 for a number that does not stand in the flag itself.
abbrev pub own_byte : ℕ → ℕ
own_byte n = if ltb 7 n then 1 else 0

-- The flag of the element and what stands behind it: the type, then the size.
unfoldable pub element_row : ℕ → ℕ → List ℕ
element_row ty len =
    if ltb 7 ty
    then (if ltb 7 len then 0x99 ∷ ty % 256 ∷ len ∷ [] else (0x90 + len % 16) ∷ ty % 256 ∷ [])
    else (if ltb 7 len then (16 * ty + 9) ∷ len ∷ [] else (16 * ty + len % 16) ∷ [])

unfoldable pub encode_size : ℕ → ℕ → Option ℕ → Option (List ℕ)
encode_size ty number none = none
encode_size ty number (some len) =
    some (0x99 ∷ 9 ∷ (number * len + own_byte ty + own_byte len + 1) % 256 ∷ element_row ty len)

-- _EncodePLCDataType.
unfoldable pub encode_plc_data_type : ℕ → ℕ → Option (List ℕ)
encode_plc_data_type ty number = encode_size ty number (get_plc_data_size ty)

abbrev pub longword_at : (ℕ → ℕ) → ℕ → ℕ
longword_at m o = m o + 256 * (m (o + 1) + 256 * (m (o + 2) + 256 * m (o + 3)))

-- The switch on the number of bytes of a field.
unfoldable pub long_field : ℕ → (ℕ → ℕ) → ℕ → Option (ℕ × ℕ)
long_field size m at =
    if size == 1
    then some (m at, 1)
    else if size == 2
    then some (m at + 256 * m (at + 1), 2)
    else if size == 4
    then some (longword_at m at, 4)
    else none

-- A field: half of a flag, or a number behind the flag, with the bytes that it takes there.
unfoldable pub field : ℕ → (ℕ → ℕ) → ℕ → Option (ℕ × ℕ)
field half m at = if ltb half 8 then some (half, 0) else long_field (half % 8) m at

-- The int with the bits of a LONGWORD.
abbrev pub int_of_longword : ℕ → ℤ
int_of_longword w = if ltb w 0x80000000 then pos w else negsuc (0xffffffff - w)

abbrev pub minus : ℤ → ℕ → ℤ
minus (pos n) k = if leb k n then pos (n - k) else negsuc (k - n - 1)
minus (negsuc n) k = negsuc (n + k)

-- *type, *tsize, *esize, and the place of the data.
pub record Described : Type 0 where
  pub type : ℕ
  pub tsize : ℤ
  pub esize : ℤ
  pub place : ℕ

abbrev pub then_with {ℓ κ} : {A : Type ℓ} → {B : Type κ} → Option A → (A → Option B) → Option B
then_with none k = none
then_with (some a) k = k a

-- The two fields behind a flag, at the place of the flag: both numbers, the bytes that they take
-- behind the flag, and the place behind them.
unfoldable pub two_fields : (ℕ → ℕ) → ℕ → Option (ℕ × ℕ × ℕ × ℕ)
two_fields m at = then_with (field (m at / 16) m (at + 1)) (λ a.
    then_with (field (m at % 16) m (at + 1 + a.1))
      (λ b. some (a.0, b.0, a.1 + b.1, at + 1 + a.1 + b.1)))

-- The descriptor of an array's elements, whose bytes count in the array's size.
unfoldable pub element_fields : (ℕ → ℕ) → ℕ → ℤ → Option Described
element_fields m at tsize = then_with (two_fields m at) (λ (ty, size, used, place). some (record {
  type = ty;
  tsize = minus (minus tsize used) 1;
  esize = int_of_longword size;
  place = place;
}))

unfoldable pub described : (ℕ → ℕ) → ℕ → Option Described
described m at = then_with (two_fields m at) (λ (ty, size, used, place).
    if ty == plc_array
    then element_fields m place (int_of_longword size)
    else some (record {
      type = ty;
      tsize = minus (int_of_longword size) 1;
      esize = pos 0;
      place = place;
    }))

-- _DecodePLCDataType: STS stands at 1 and Ext_STS at 4.
unfoldable pub decode_plc_data_type : (ℕ → ℕ) → Option Described
decode_plc_data_type m = if m 1 == 0 then described m 4 else none

-- The quotient of ints in C.
abbrev pub quotient : ℤ → ℤ → ℤ
quotient (pos a) (pos b) = pos (a / b)
quotient (pos a) (negsuc b) = negated (a / (b + 1))
quotient (negsuc a) (pos b) = negated ((a + 1) / b)
quotient (negsuc a) (negsuc b) = pos ((a + 1) / (b + 1))

abbrev pub bytes_at : (ℕ → ℕ) → ℕ → ℕ → List ℕ
bytes_at m at zero = []
bytes_at m at (suc n) = m at ∷ bytes_at m (at + 1) n

-- The bytes of a size; a negative one is undefined in C.
abbrev pub sized : (ℕ → ℕ) → ℕ → ℤ → List ℕ
sized m at (pos n) = bytes_at m at n
sized m at (negsuc n) = []

-- PLC_Read with the data behind it; the mask is 0.
pub record PlcRead : Type 0 where
  pub type : ℕ
  pub varcount : ℤ
  pub totalsize : ℤ
  pub elementsize : ℤ
  pub content : List ℕ

-- What is left of a descriptor: the count, and the two tests on it.
unfoldable pub with_count : (ℕ → ℕ) → Described → ℤ → Option PlcRead
with_count m d (pos zero) = none
with_count m d (negsuc n) = none
with_count m d (pos (suc n)) = some (record {
  type = d.type;
  varcount = pos (suc n);
  totalsize = d.tsize;
  elementsize = d.esize;
  content = sized m d.place d.tsize;
})

unfoldable pub with_size : (ℕ → ℕ) → Described → ℤ → Option PlcRead
with_size m d (pos zero) = none
with_size m d (pos (suc n)) = with_count m d (quotient d.tsize (pos (suc n)))
with_size m d (negsuc n) = with_count m d (quotient d.tsize (negsuc n))

-- _DecodePCCC.
unfoldable pub decode_pccc : (ℕ → ℕ) → Option PlcRead
decode_pccc m = then_with (decode_plc_data_type m) (λ d. with_size m d d.esize)
