-- ===== src/Base/Libc.antt =====
-- Functions of the C library, on strings as lists of their bytes without the NUL behind.
pub mod Digits
pub mod Strtol
use Prim.Native.Nat.{ℕ, zero, suc, ◌+◌, ◌-◌, ◌*◌, ◌%◌}
use mathlib.Core.Bool.{Bool, true, false, ◌&&◌, ◌||◌}
use mathlib.Core.List.{List, [], ◌∷◌}
use tux_plc.Base.Tests.{leb, ◌==◌, if◌then◌else◌}
use tux_plc.Base.Int.{ℤ, pos, negsuc}

abbrev pub is_digit : ℕ → Bool
is_digit c = leb b'0' c && leb c b'9'

abbrev pub is_space : ℕ → Bool
is_space c = c == 32 || (leb 9 c && leb c 13)

-- The bytes of ASCII letters; in the C locale no other byte is one.
abbrev pub to_upper : ℕ → ℕ
to_upper c = if leb b'a' c && leb c b'z' then c - 32 else c

abbrev pub to_lower : ℕ → ℕ
to_lower c = if leb b'A' c && leb c b'Z' then c + 32 else c

abbrev pub is_alpha : ℕ → Bool
is_alpha c = (leb b'a' c && leb c b'z') || (leb b'A' c && leb c b'Z')

-- The digits at the head of the text, read behind `acc`.
abbrev pub number_from : ℕ → List ℕ → ℕ
number_from acc [] = acc
number_from acc (c ∷ cs) = elim (is_digit c) [
  | true ↦ number_from (acc * 10 + (c - b'0')) cs
  | false ↦ acc
]

abbrev pub negated : ℕ → ℤ
negated zero = pos 0
negated (suc n) = negsuc n

-- A sign and digits. A value out of the range of int is undefined in C, and is the plain value here.
abbrev pub signed_number : List ℕ → ℤ
signed_number [] = pos 0
signed_number (c ∷ cs) =
    if c == b'-'
    then negated (number_from 0 cs)
    else if c == b'+'
    then pos (number_from 0 cs)
    else pos (number_from 0 (c ∷ cs))

abbrev pub atoi : List ℕ → ℤ
atoi [] = pos 0
atoi (c ∷ cs) = elim (is_space c) [ true ↦ atoi cs | false ↦ signed_number (c ∷ cs) ]

-- The assignment of an int to an unsigned char.
abbrev pub byte_of : ℤ → ℕ
byte_of (pos n) = n % 256
byte_of (negsuc n) = 255 - n % 256

-- strncasecmp(s, t, n) == 0
abbrev pub same_start : ℕ → List ℕ → List ℕ → Bool
same_start zero s t = true
same_start (suc n) [] [] = true
same_start (suc n) [] (d ∷ t) = false
same_start (suc n) (c ∷ s) [] = false
same_start (suc n) (c ∷ s) (d ∷ t) = (to_lower c == to_lower d) && same_start n s t

-- strchr(s, c) != NULL, for a byte that is not NUL.
abbrev pub has_byte : ℕ → List ℕ → Bool
has_byte c [] = false
has_byte c (d ∷ s) = c == d || has_byte c s

abbrev pub starts_with : List ℕ → List ℕ → Bool
starts_with [] s = true
starts_with (d ∷ t) [] = false
starts_with (d ∷ t) (c ∷ s) = c == d && starts_with t s

-- strstr(s, t) != NULL
abbrev pub has_text : List ℕ → List ℕ → Bool
has_text t [] = starts_with t []
has_text t (c ∷ s) = starts_with t (c ∷ s) || has_text t s
