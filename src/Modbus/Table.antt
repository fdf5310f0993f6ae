-- ===== src/Modbus/Table.antt =====
-- The table of functions of MBClient.c, and the search in it by the text of an address.
use tux_plc.Base.{
  ℕ, suc, ◌+◌, ◌-◌, ◌≡◌, refl, ap, ◌∙◌, ◌⊎◌, inl, inr, List, [], ◌∷◌, arith, Bool, true, false,
  ◌&&◌, All, get_or, leb, ◌==◌, Option, none, some, if◌then◌else◌,
}
use tux_plc.Base.Int.{ℤ, pos, negsuc}
use tux_plc.Base.Libc.{atoi, is_alpha, is_digit, to_upper}
use tux_plc.Base.Libc.Digits.{IsDigit, digits_value, digit-is_digit, atoi-digits_only}
use tux_plc.Modbus.{
  Iec, iec_byte, iec_int, iec_uint, iec_dint, iec_real, read_coils, read_inputs,
  read_holding_register, read_input_register, write_single_coils, write_single_register,
  write_multiple_coils, write_multiple_register,
}

-- mb_function. Offset is negative in each entry, and `base` is what it takes off.
pub record Entry : Type 0 where
  pub low : ℕ
  pub high : ℕ
  pub prefix : ℕ
  pub read_function : ℕ
  pub write_function : ℕ
  pub mwrite_function : ℕ
  pub base : ℕ
  pub data_type : Iec

abbrev pub coils : Entry
coils = record {
  low = 1;
  high = 99999;
  prefix = 0;
  read_function = read_coils;
  write_function = write_single_coils;
  mwrite_function = write_multiple_coils;
  base = 1;
  data_type = iec_byte;
}

abbrev pub inputs : Entry
inputs = record {
  low = 100001;
  high = 199999;
  prefix = 0;
  read_function = read_inputs;
  write_function = 0;
  mwrite_function = 0;
  base = 100001;
  data_type = iec_byte;
}

abbrev pub input_registers : Entry
input_registers = record {
  low = 300001;
  high = 399999;
  prefix = 0;
  read_function = read_input_register;
  write_function = 0;
  mwrite_function = 0;
  base = 300001;
  data_type = iec_uint;
}

abbrev pub registers : Entry
registers = record {
  low = 400001;
  high = 499999;
  prefix = 0;
  read_function = read_holding_register;
  write_function = write_single_register;
  mwrite_function = write_multiple_register;
  base = 400001;
  data_type = iec_int;
}

abbrev pub long_registers : Entry
long_registers = record {
  low = 400001;
  high = 499999;
  prefix = b'D';
  read_function = read_holding_register;
  write_function = write_multiple_register;
  mwrite_function = write_multiple_register;
  base = 400001;
  data_type = iec_dint;
}

abbrev pub real_registers : Entry
real_registers = record {
  low = 400001;
  high = 499999;
  prefix = b'F';
  read_function = read_holding_register;
  write_function = write_multiple_register;
  mwrite_function = write_multiple_register;
  base = 400001;
  data_type = iec_real;
}

-- DefTable.
abbrev pub def_table : List Entry
def_table = coils ∷ inputs ∷ input_registers ∷ registers ∷ long_registers ∷ real_registers ∷ []

-- _MBGetPrefix.
unfoldable pub get_prefix : List ℕ → ℕ
get_prefix [] = 0
get_prefix (c ∷ []) = 0
get_prefix (c ∷ d ∷ cs) = if is_alpha c then to_upper c else 0

-- _MBGetAddress.
unfoldable pub get_address : List ℕ → ℤ
get_address [] = pos 0
get_address (c ∷ []) = if is_digit c then atoi (c ∷ []) else pos 0
get_address (c ∷ d ∷ cs) = if is_digit c then atoi (c ∷ d ∷ cs) else atoi (d ∷ cs)

-- The test of the loop's body.
abbrev pub matches : ℕ → ℤ → Entry → Bool
matches c (pos n) e = leb e.low n && (leb n e.high && c == e.prefix)
matches c (negsuc n) e = false

-- The loop: the first entry that matches, `i` being the index of the first that is left.
abbrev pub find : ℕ → ℤ → ℕ → List Entry → Option ℕ
find c a i [] = none
find c a i (e ∷ es) = let rest = find c a (suc i) es in if matches c a e then some i else rest

-- _MBGetC_F_Index; MBError is `none`.
unfoldable pub get_c_f_index : List ℕ → Option ℕ
get_c_f_index address = find (to_upper (get_prefix address)) (get_address address) 0 def_table

-- FTable[i].
abbrev pub entry : ℕ → Entry
entry i = get_or def_table i coils

-- _MBGetAddress(Address)+FTable[i].Offset, for an address in the entry's range.
abbrev pub offset_in : Entry → ℤ → ℕ
offset_in e (pos n) = n - e.base
offset_in e (negsuc n) = 0

-- The ranges of Modbus addresses, without a prefix and with one.
abbrev pub plain_index : ℕ → Option ℕ
plain_index n =
    if leb 1 n && leb n 99999
    then some 0
    else if leb 100001 n && leb n 199999
    then some 1
    else if leb 300001 n && leb n 399999
    then some 2
    else if leb 400001 n && leb n 499999
    then some 3
    else none

digit_upper : (d : ℕ) → IsDigit d → (if is_alpha d then to_upper d else 0) ≡ 0
digit_upper d h = ground arith

get_prefix-digits : (d : ℕ) (ds : List ℕ) → IsDigit d → get_prefix (d ∷ ds) ≡ 0
unfolding get_prefix
get_prefix-digits d [] h = refl
get_prefix-digits d (c ∷ ds) h = digit_upper d h

get_address-digits :
    (d : ℕ) (ds : List ℕ)
    → IsDigit d
    → All IsDigit ds
    → get_address (d ∷ ds) ≡ pos (digits_value 0 (d ∷ ds))
unfolding get_address
get_address-digits d [] h hs = rw (digit-is_digit d h) (atoi-digits_only d [] h hs)
get_address-digits d (c ∷ ds) h hs = rw (digit-is_digit d h) (atoi-digits_only d (c ∷ ds) h hs)

find-plain : (n : ℕ) → find 0 (pos n) 0 def_table ≡ plain_index n
find-plain n = ground arith

-- _MBGetC_F_Index of an address in digits: the index of the entry without a prefix whose range
-- holds the number, and MBError outside the four ranges.
pub get_c_f_index-digits :
    (d : ℕ) (ds : List ℕ)
    → IsDigit d
    → All IsDigit ds
    → get_c_f_index (d ∷ ds) ≡ plain_index (digits_value 0 (d ∷ ds))
unfolding get_c_f_index
get_c_f_index-digits d ds h hs =
    rw (get_prefix-digits d ds h, get_address-digits d ds h hs)
      (find-plain (digits_value 0 (d ∷ ds)))

found_first :
    (b : Bool) (i : ℕ) (rest : Option ℕ) (j : ℕ)
    → (if b then some i else rest) ≡ some j
    → ((b ≡ true) × (j ≡ i)) ⊎ (rest ≡ some j)
found_first true i rest j h = inl (refl, grind (arith, h))
found_first false i rest j h = inr h

found :
    (c : ℕ) (a : ℤ) (i : ℕ) (es : List Entry) (j : ℕ)
    → find c a i es ≡ some j
    → (k : ℕ) × (j ≡ i + k) × (matches c a (get_or es k coils) ≡ true)
found c a i [] j h = absurd (grind (arith, h))
found c a i (e ∷ es) j h = elim (found_first (matches c a e) i (find c a (suc i) es) j h) [
  | inl (holds, same) ↦ (0, omega (arith, same), holds)
  | inr later ↦
      (let (k, same, holds) = found c a (suc i) es j later in (suc k, omega (arith, same), holds))
]

-- The entry that _MBGetC_F_Index finds, for any text, has the address in its range and the prefix
-- as its own.
pub get_c_f_index-matches :
    (address : List ℕ) (i : ℕ)
    → get_c_f_index address ≡ some i
    → matches (to_upper (get_prefix address)) (get_address address) (entry i) ≡ true
unfolding get_c_f_index
get_c_f_index-matches address i h =
    let (k, same, holds) =
      found (to_upper (get_prefix address)) (get_address address) 0 def_table i h in
    ap (λ x. matches (to_upper (get_prefix address)) (get_address address) (entry x)) {x = i}
      {y = k} (omega (arith, same))
    ∙ holds
