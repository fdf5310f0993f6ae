-- ===== src/Tuxeip/Values/Inside.antt =====
-- The values of a decoded reply are read within its data.
use mathlib.Core.Path.{subst}
use tux_plc.Base.{
  ℕ, zero, suc, ◌+◌, ◌*◌, ◌≤◌, ◌<◌, ◌≡◌, refl, sym, Bool-cases, inl, inr, true, false, List, length,
  ltb, leb, ◌==◌, some, arith, if◌then◌else◌,
}
use tux_plc.Base.Int.{ℤ, pos}
use tux_plc.Tuxeip.{plc_integer}
use tux_plc.Tuxeip.Link.{internal}
use tux_plc.Tuxeip.Pccc.{PlcRead, decode_pccc}
use tux_plc.Tuxeip.Pccc.Counts.{decode_pccc-counts}
use tux_plc.Tuxeip.Values.{FloatType, e_success, byte_at, chosen, converted, plc_element, plc_value}

-- How many bytes of an element the switch on the type reads at most.
abbrev pub width : ℕ → ℕ
width type = if type == plc_integer then 2 else 4

within : (k n : ℕ) → k < n → ltb k n ≡ true
within k n lt = ground (arith, lt)

not_zero : (n : ℕ) → 0 < n → (n == 0) ≡ false
not_zero n lt = ground (arith, lt)

below : (i n : ℕ) → i < n → leb n i ≡ false
below i n lt = ground (arith, lt)

two-width : (type : ℕ) → 2 ≤ width type
two-width type = ground arith

-- The elements below a count lie in the product.
element-inside : (i n e : ℕ) → i < n → i * e + e ≤ n * e
element-inside i zero e lt = absurd (omega (arith, lt))
element-inside zero (suc n) e lt = omega arith
element-inside (suc i) (suc n) e lt =
    let rest = element-inside i n e (omega (arith, lt)) in omega (arith, rest)

module _ (f : FloatType) where
  plc_element-inside :
      (type : ℕ) (content : List ℕ) (outside outside' : ℤ → ℕ) (k : ℕ)
      → k + width type ≤ length content
      → plc_element f type (byte_at content outside) (pos k)
        ≡ plc_element f type (byte_at content outside') (pos k)
  unfolding plc_element
  plc_element-inside type content outside outside' k fits =
      let n = length content in
      elim (Bool-cases (type == plc_integer)) [
        | inl e ↦
            let w : k + 2 ≤ n = subst (λ b. k + (if b then 2 else 4) ≤ n) e fits in
            rw (e, within k n (omega (arith, w)), within (k + 1) n (omega (arith, w))) refl
        | inr e ↦
            let w : k + 4 ≤ n = subst (λ b. k + (if b then 2 else 4) ≤ n) e fits in
            rw
              (
                e,
                within k n (omega (arith, w)),
                within (k + 1) n (omega (arith, w)),
                within (k + 2) n (omega (arith, w)),
                within (k + 2 + 1) n (omega (arith, w)),
              )
              refl
      ]

  -- A value of a decoded reply whose sizes are not negative and whose element is at least as wide as
  -- its type, at an index below Varcount, is read within the data, whatever stands around them, and no
  -- error is reported but that of a type that is not known: in all three functions, `k` being what they
  -- make of a float.
  pub plc_value-inside :
      {A : Type 0} (nothing error : A) (k : f.Float → A) (m : ℕ → ℕ) (r : PlcRead) (e t n i : ℕ)
      (outside : ℤ → ℕ)
      → decode_pccc m ≡ some r
      → r.elementsize ≡ pos e
      → r.totalsize ≡ pos t
      → r.varcount ≡ pos n
      → width r.type ≤ e
      → i < n
      → plc_value f nothing error k outside r i
        ≡ chosen error
            (internal e_success)
            (converted f k (plc_element f r.type (byte_at r.content (λ _. 0)) (pos (i * e))))
  unfolding plc_value
  plc_value-inside nothing error k m r e t n i outside h size total count wide lt =
      let (n', count', fits, whole) = decode_pccc-counts m r e t h size total in
      let same : n ≡ suc n' = cc (count, count') in
      let room : n * e ≤ t = subst (λ v. v * e ≤ t) (sym same) (omega (arith, fits)) in
      let inside = element-inside i n e lt in
      let two = two-width r.type in
      rw
        (
          size,
          total,
          count,
          not_zero n (omega (arith, lt)),
          not_zero t (omega (arith, room, inside, two, wide)),
          below i n lt,
          plc_element-inside r.type r.content outside (λ _. 0) (i * e)
              (omega (arith, whole, room, inside, wide)),
        )
        refl
