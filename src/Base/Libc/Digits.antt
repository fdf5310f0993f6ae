-- ===== src/Base/Libc/Digits.antt =====
-- atoi reads a row of digits up to the first byte that is none.
use Prim.Native.Nat.{ℕ, ◌+◌, ◌-◌, ◌*◌, ◌≤◌}
use mathlib.Core.Bool.{true, false}
use mathlib.Core.List.{List, [], ◌∷◌, ◌++◌, append-nil}
use mathlib.Core.Path.{◌≡◌, refl, ◌∙◌, ap, sym}
use native.Mathlib.Omega.{arith}
use tux_plc.Base.Int.{pos}
use tux_plc.Base.Lists.{All}
use tux_plc.Base.Tests.{==_ne}
use tux_plc.Base.Libc.{is_digit, is_space, number_from, atoi}

abbrev pub IsDigit : ℕ → Type 0
IsDigit c = (b'0' ≤ c) × (c ≤ b'9')

-- The number that a row of digits stands for, behind what was read.
abbrev pub digits_value : ℕ → List ℕ → ℕ
digits_value acc [] = acc
digits_value acc (d ∷ ds) = digits_value (acc * 10 + (d - b'0')) ds

-- What follows is no digit.
abbrev pub Stops : List ℕ → Type 0
Stops [] = Unit {0}
Stops (c ∷ cs) = is_digit c ≡ false

pub digit-is_digit : (d : ℕ) → IsDigit d → is_digit d ≡ true
digit-is_digit d h = ground arith

number_from-digits :
    (acc : ℕ) (ds rest : List ℕ)
    → All IsDigit ds
    → Stops rest
    → number_from acc (ds ++ rest) ≡ digits_value acc ds
number_from-digits acc [] [] h s = refl
number_from-digits acc [] (c ∷ rest) h s = rw (s, number_from) refl
number_from-digits acc (d ∷ ds) rest h s =
    rw (digit-is_digit d h.0, number_from)
      (number_from-digits (acc * 10 + (d - b'0')) ds rest h.1 s)

pub digit-not_space : (d : ℕ) → IsDigit d → is_space d ≡ false
digit-not_space d h = ground arith

pub atoi-digits :
    (d : ℕ) (ds rest : List ℕ)
    → IsDigit d
    → All IsDigit ds
    → Stops rest
    → atoi (d ∷ ds ++ rest) ≡ pos (digits_value 0 (d ∷ ds))
atoi-digits d ds rest h hs s =
    rw
      (
        digit-not_space d h,
        atoi,
        ==_ne d b'-' (λ e. omega arith),
        ==_ne d b'+' (λ e. omega arith),
        digit-is_digit d h,
        number_from,
      )
      (ap pos (number_from-digits (0 * 10 + (d - b'0')) ds rest hs s))

pub atoi-digits_only :
    (d : ℕ) (ds : List ℕ)
    → IsDigit d
    → All IsDigit ds
    → atoi (d ∷ ds) ≡ pos (digits_value 0 (d ∷ ds))
atoi-digits_only d ds h hs =
    ap (λ t. atoi (d ∷ t)) (sym (append-nil ds)) ∙ atoi-digits d ds [] h hs tt
