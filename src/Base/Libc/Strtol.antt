-- ===== src/Base/Libc/Strtol.antt =====
-- strtol(s, &tail, 0), on a string as the list of its bytes.
use Prim.Native.Nat.{ℕ, suc, ◌+◌, ◌-◌, ◌*◌, ◌≤◌, ◌<◌}
use mathlib.Core.Bool.{Bool, true, false, ◌&&◌, ◌||◌}
use mathlib.Core.List.{List, [], ◌∷◌, ◌++◌}
use mathlib.Core.Path.{◌≡◌, refl, ◌∙◌, ap}
use mathlib.Core.Logic.{inl, inr}
use mathlib.Core.Option.{Option, none, some}
use native.Mathlib.Omega.{arith}
use tux_plc.Base.Int.{ℤ, pos}
use tux_plc.Base.Lists.{All, length}
use tux_plc.Base.Tests.{ltb, ◌==◌, ==_ne, Bool-cases, if◌then◌else◌}
use tux_plc.Base.Libc.{is_digit, is_space, is_alpha, to_lower, negated}
use tux_plc.Base.Libc.Digits.{IsDigit, Stops, digits_value, digit-is_digit, digit-not_space}

-- The value of a digit, in a base up to 36; 36 for another byte.
abbrev pub digit_of : ℕ → ℕ
digit_of c = if is_digit c then c - b'0' else if is_alpha c then to_lower c - 87 else 36

-- The digits of the base at the head of the text, read behind `acc`, and what follows them.
abbrev pub number_in : ℕ → ℕ → List ℕ → ℕ × List ℕ
number_in base acc [] = (acc, [])
number_in base acc (c ∷ cs) = elim (ltb (digit_of c) base) [
  | true ↦ number_in base (acc * base + digit_of c) cs
  | false ↦ (acc, c ∷ cs)
]

abbrev pub hex_ahead : List ℕ → Bool
hex_ahead [] = false
hex_ahead (c ∷ cs) = ltb (digit_of c) 16

-- Behind a 0: hexadecimal behind an x, octal otherwise.
abbrev pub behind_zero : List ℕ → ℕ × List ℕ
behind_zero [] = (0, [])
behind_zero (c ∷ cs) = elim ((c == b'x' || c == b'X') && hex_ahead cs) [
  | true ↦ number_in 16 0 cs
  | false ↦ number_in 8 0 (c ∷ cs)
]

-- The magnitude and what follows it; none where there is no digit.
abbrev pub magnitude : List ℕ → Option (ℕ × List ℕ)
magnitude [] = none
magnitude (c ∷ cs) = elim (c == b'0') [
  | true ↦ some (behind_zero cs)
  | false ↦ elim (is_digit c) [ true ↦ some (number_in 10 0 (c ∷ cs)) | false ↦ none ]
]

-- A long of 32 bits; a value out of its range is its bound.
abbrev long_bound : ℕ
long_bound = 0x80000000

abbrev pub positive : Option (ℕ × List ℕ) → Option (ℤ × List ℕ)
positive none = none
positive (some (n, rest)) = some (pos (if ltb n long_bound then n else long_bound - 1), rest)

abbrev pub negative : Option (ℕ × List ℕ) → Option (ℤ × List ℕ)
negative none = none
negative (some (n, rest)) = some (negated (if ltb n long_bound then n else long_bound), rest)

abbrev pub signed : List ℕ → Option (ℤ × List ℕ)
signed [] = none
signed (c ∷ cs) =
    if c == b'-'
    then negative (magnitude cs)
    else if c == b'+'
    then positive (magnitude cs)
    else positive (magnitude (c ∷ cs))

-- The value, and the text that tail points to; none where tail is left at the start.
abbrev pub strtol : List ℕ → Option (ℤ × List ℕ)
strtol [] = none
strtol (c ∷ cs) = elim (is_space c) [ true ↦ strtol cs | false ↦ signed (c ∷ cs) ]

digit_of-digit : (d : ℕ) → IsDigit d → digit_of d ≡ d - b'0'
digit_of-digit d h = rw (digit-is_digit d h) refl

digit_of-stop : (c : ℕ) → is_digit c ≡ false → ltb (digit_of c) 10 ≡ false
digit_of-stop c h = ground arith

number_in-digits :
    (acc : ℕ) (ds rest : List ℕ)
    → All IsDigit ds
    → Stops rest
    → number_in 10 acc (ds ++ rest) ≡ (digits_value acc ds, rest)
number_in-digits acc [] [] h s = refl
number_in-digits acc [] (c ∷ rest) h s = rw (digit_of-stop c s, number_in) refl
number_in-digits acc (d ∷ ds) rest h s =
    let small : ltb (d - b'0') 10 ≡ true = ground arith in
    rw (digit_of-digit d h.0, small, number_in)
      (ap (λ v. number_in 10 (acc * 10 + v) (ds ++ rest)) (digit_of-digit d h.0)
        ∙ number_in-digits (acc * 10 + (d - b'0')) ds rest h.1 s)

-- strtol reads a row of digits that does not begin with 0, up to the first byte that is no digit.
pub strtol-digits :
    (d : ℕ) (ds rest : List ℕ)
    → IsDigit d
    → b'0' < d
    → All IsDigit ds
    → Stops rest
    → digits_value 0 (d ∷ ds) < 0x10000
    → strtol (d ∷ ds ++ rest) ≡ some (pos (digits_value 0 (d ∷ ds)), rest)
strtol-digits d ds rest h more hs s small =
    let fits : ltb (digits_value 0 (d ∷ ds)) long_bound ≡ true = ground arith in
    rw
      (
        digit-not_space d h,
        strtol,
        ==_ne d b'-' (λ e. omega arith),
        ==_ne d b'+' (λ e. omega arith),
        ==_ne d b'0' (λ e. omega arith),
        magnitude,
        digit-is_digit d h,
        number_in-digits 0 (d ∷ ds) rest (h, hs) s,
        fits,
      )
      refl

number_in-le : (base acc : ℕ) (cs : List ℕ) → length (number_in base acc cs).1 ≤ length cs
number_in-le base acc [] = omega arith
number_in-le base acc (c ∷ cs) = elim (Bool-cases (ltb (digit_of c) base)) [
  | inl e ↦ rw (e, number_in) (omega (arith, number_in-le base (acc * base + digit_of c) cs))
  | inr e ↦ rw (e, number_in) (omega arith)
]

behind_zero-le : (cs : List ℕ) → length (behind_zero cs).1 ≤ length cs
behind_zero-le [] = omega arith
behind_zero-le (c ∷ cs) = elim (Bool-cases ((c == b'x' || c == b'X') && hex_ahead cs)) [
  | inl e ↦ rw (e, behind_zero) (omega (arith, number_in-le 16 0 cs))
  | inr e ↦ rw (e, behind_zero) (number_in-le 8 0 (c ∷ cs))
]

-- What follows a number is shorter than a text of n bytes.
abbrev pub IsShorter : {A : Type 0} → ℕ → Option (A × List ℕ) → Type 0
IsShorter n none = Unit {0}
IsShorter n (some (v, rest)) = length rest < n

magnitude-IsShorter : (str : List ℕ) → IsShorter (length str) (magnitude str)
magnitude-IsShorter [] = tt
magnitude-IsShorter (c ∷ cs) = elim (Bool-cases (c == b'0')) [
  | inl z ↦ rw (z, magnitude) (omega (arith, behind_zero-le cs))
  | inr z ↦ elim (Bool-cases (is_digit c)) [
    | inl e ↦
        let first : ltb (digit_of c) 10 ≡ true = ground arith in
        rw (z, e, magnitude, number_in, first)
          (omega (arith, number_in-le 10 (0 * 10 + digit_of c) cs))
    | inr e ↦ rw (z, e, magnitude) tt
  ]
]

positive-IsShorter : (n : ℕ) (m : Option (ℕ × List ℕ)) → IsShorter n m → IsShorter n (positive m)
positive-IsShorter n none h = tt
positive-IsShorter n (some (v, rest)) h = h

negative-IsShorter : (n : ℕ) (m : Option (ℕ × List ℕ)) → IsShorter n m → IsShorter n (negative m)
negative-IsShorter n none h = tt
negative-IsShorter n (some (v, rest)) h = h

longer : {A : Type 0} (n : ℕ) (m : Option (A × List ℕ)) → IsShorter n m → IsShorter (suc n) m
longer n none h = tt
longer n (some (v, rest)) h = omega (arith, h)

signed-IsShorter : (str : List ℕ) → IsShorter (length str) (signed str)
signed-IsShorter [] = tt
signed-IsShorter (c ∷ cs) =
    let unsigned : IsShorter (length cs) (magnitude cs) = magnitude-IsShorter cs in
    elim (Bool-cases (c == b'-')) [
      | inl e ↦ rw e (longer _ _ (negative-IsShorter _ _ unsigned))
      | inr m ↦ elim (Bool-cases (c == b'+')) [
        | inl e ↦ rw (m, e) (longer _ _ (positive-IsShorter _ _ unsigned))
        | inr p ↦ rw (m, p) (positive-IsShorter _ _ (magnitude-IsShorter (c ∷ cs)))
      ]
    ]

-- Where strtol reads a number, what it leaves is shorter.
pub strtol-IsShorter : (str : List ℕ) → IsShorter (length str) (strtol str)
strtol-IsShorter [] = tt
strtol-IsShorter (c ∷ cs) = elim (Bool-cases (is_space c)) [
  | inl e ↦ rw (e, strtol) (longer _ _ (strtol-IsShorter cs))
  | inr e ↦ rw (e, strtol) (signed-IsShorter (c ∷ cs))
]
