-- ===== src/Base/Bits/Fields.antt =====
-- The bit operations act on the fields of a word one by one.
use Prim.Native.Nat.{
  ℕ, zero, suc, ◌+◌, ◌-◌, ◌*◌, ◌/◌, ◌%◌, ◌^◌, ◌≤◌, ◌<◌, bit_and, bit_or, bit_xor, min, max, differ,
  digits, bitwise, bit_and-bitwise, bit_or-bitwise, bit_xor-bitwise,
}
use mathlib.Core.Path.{◌≡◌, refl, ap, ◌∙◌}
use native.Mathlib.Nat.{pow-suc}
use native.Mathlib.Omega.{arith}

-- `z` is what is left when the first operand has no more digits, and `f` joins two digits.
module _ (z : ℕ → ℕ) (f : ℕ → ℕ → ℕ) (ends : (b : ℕ) → z b ≡ z (b / 2) * 2 + f 0 (b % 2)) where
  abbrev on_digits : ℕ → ℕ → ℕ → ℕ
  on_digits = digits z f

  -- More rounds than the first operand needs change nothing.
  more_rounds : (n a b : ℕ) → a ≤ n → on_digits (suc n) a b ≡ on_digits n a b
  more_rounds zero zero b h = refl
  more_rounds zero (suc a) b h = absurd (omega arith)
  more_rounds (suc n) zero b h = refl
  more_rounds (suc n) (suc a) b h =
      ap (λ t. t * 2 + f (suc a % 2) (b % 2)) (more_rounds n (suc a / 2) (b / 2) (omega arith))

  enough_rounds : (k n a b : ℕ) → a ≤ n → on_digits (k + n) a b ≡ on_digits n a b
  enough_rounds zero n a b h = ap (λ t. on_digits t a b) (omega arith)
  enough_rounds (suc k) n a b h =
      ap (λ t. on_digits t a b) {y = suc (k + n)} (omega arith)
      ∙ more_rounds (k + n) a b (omega arith)
      ∙ enough_rounds k n a b h

  lowest_digit : (a b : ℕ) → bitwise z f a b ≡ bitwise z f (a / 2) (b / 2) * 2 + f (a % 2) (b % 2)
  lowest_digit zero b = ends b
  lowest_digit (suc a) b =
      ap (λ t. t * 2 + f (suc a % 2) (b % 2))
        (ap (λ t. on_digits t (suc a / 2) (b / 2)) split
          ∙ enough_rounds (a - suc a / 2) (suc a / 2) (suc a / 2) (b / 2) (omega arith))
    where
      split : a ≡ a - suc a / 2 + suc a / 2
      split = omega arith

-- An operation that joins two numbers digit by digit.
module _ (g f : ℕ → ℕ → ℕ)
    (lowest : (a b : ℕ) → g a b ≡ g (a / 2) (b / 2) * 2 + f (a % 2) (b % 2)) where
  on_zero : g 0 0 ≡ 0
  on_zero = omega (arith, lowest 0 0)

  on_fields :
      (k q a r b : ℕ)
      → a < 2 ^ k
      → b < 2 ^ k
      → g (q * 2 ^ k + a) (r * 2 ^ k + b) ≡ g q r * 2 ^ k + g a b
  on_fields zero q a r b ha hb = ground (arith, on_zero)
  on_fields (suc k) q a r b ha hb = ground (
    arith,
    lowest (q * 2 ^ suc k + a) (r * 2 ^ suc k + b),
    lowest a b,
    on_fields k q (a / 2) r (b / 2),
    pow-suc 2 k,
    ap (λ (t : ℕ). q * t) (pow-suc 2 k),
    ap (λ (t : ℕ). r * t) (pow-suc 2 k),
    ap (λ (t : ℕ). g q r * t) (pow-suc 2 k),
  )

pub bit_and_fields :
    (k q a r b : ℕ)
    → a < 2 ^ k
    → b < 2 ^ k
    → bit_and (q * 2 ^ k + a) (r * 2 ^ k + b) ≡ bit_and q r * 2 ^ k + bit_and a b
bit_and_fields =
    on_fields bit_and min
      (λ a b. simp bit_and-bitwise (lowest_digit (λ _. 0) min (λ _. omega arith) a b))

pub bit_or_fields :
    (k q a r b : ℕ)
    → a < 2 ^ k
    → b < 2 ^ k
    → bit_or (q * 2 ^ k + a) (r * 2 ^ k + b) ≡ bit_or q r * 2 ^ k + bit_or a b
bit_or_fields =
    on_fields bit_or max
      (λ a b. simp bit_or-bitwise (lowest_digit (λ y. y) max (λ _. omega arith) a b))

differ_zero : (y : ℕ) → y ≡ y / 2 * 2 + differ 0 (y % 2)
differ_zero y = omega arith

pub bit_xor_fields :
    (k q a r b : ℕ)
    → a < 2 ^ k
    → b < 2 ^ k
    → bit_xor (q * 2 ^ k + a) (r * 2 ^ k + b) ≡ bit_xor q r * 2 ^ k + bit_xor a b
bit_xor_fields =
    on_fields bit_xor differ
      (λ a b. simp bit_xor-bitwise (lowest_digit (λ y. y) differ differ_zero a b))
