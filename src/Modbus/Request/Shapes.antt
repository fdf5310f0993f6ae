-- ===== src/Modbus/Request/Shapes.antt =====
-- The number and the size that _MBBuild_Write_Request takes for each function and type.
use tux_plc.Base.{
  ℕ, zero, suc, ◌*◌, ◌≤◌, ◌<◌, ◌≡◌, refl, ap, inl, inr, arith, true, false, Bool-cases, length, ltb,
  ◌==◌, Option, none, some,
}
use tux_plc.Modbus.{Iec, data_size}
use tux_plc.Modbus.Request.{clamped}
use tux_plc.Modbus.Request.Writes.{Shape, shape, row, is_single, req_len, coil_bytes}

pub length-row : (m : ℕ → ℕ) (n : ℕ) → length (row m n) ≡ n
length-row m zero = refl
length-row m (suc n) = ap suc (length-row (λ i. m (suc i)) n)

clamped-le : (limit number : ℕ) → clamped limit number ≤ limit
clamped-le limit number = ground arith

coil_bytes-le : (n : ℕ) → n ≤ 1968 → coil_bytes n ≤ 246
coil_bytes-le n h = ground arith

-- What the switch on the function gives: a number and a size that agree.
pub data IsShape : ℕ → Iec → Shape → Type 0 where
  one : (f : ℕ) (ty : Iec) (s : Shape) → is_single f ≡ true → s.number ≡ 0 → IsShape f ty s
  coils :
      (f : ℕ) (ty : Iec) (s : Shape)
      → is_single f ≡ false
      → s.coil ≡ true
      → s.datasize ≤ 246
      → IsShape f ty s
  longs :
      (f : ℕ) (ty : Iec) (s : Shape)
      → is_single f ≡ false
      → s.coil ≡ false
      → 2 < data_size ty
      → s.datasize ≡ 4 * s.number
      → s.number ≤ 60
      → IsShape f ty s
  words :
      (f : ℕ) (ty : Iec) (s : Shape)
      → is_single f ≡ false
      → s.coil ≡ false
      → data_size ty ≤ 2
      → s.datasize ≡ 2 * s.number
      → s.number ≤ 120
      → IsShape f ty s

unfoldable pub AnyShape : ℕ → Iec → Option Shape → Type 0
AnyShape f ty none = Unit
AnyShape f ty (some s) = IsShape f ty s

pub shape-IsShape : (f : ℕ) (ty : Iec) (number : ℕ) → AnyShape f ty (shape f ty number)
unfolding shape AnyShape
shape-IsShape f ty number = elim (Bool-cases (f == 5)) [
  | inl e ↦ rw e (one _ _ _ (rw e refl) refl)
  | inr e5 ↦ elim (Bool-cases (f == 6)) [
    | inl e ↦ rw (e5, e) (one _ _ _ (rw (e5, e) refl) refl)
    | inr e6 ↦ elim (Bool-cases (f == 15)) [
      | inl e ↦
          rw (e5, e6, e)
            (coils _ _ _ (rw (e5, e6) refl) refl
              (coil_bytes-le (clamped 1968 number) (clamped-le 1968 number)))
      | inr e15 ↦ elim (Bool-cases (f == 16)) [
        | inl e ↦ elim (Bool-cases (ltb 2 (data_size ty))) [
          | inl long ↦
              rw (e5, e6, e15, e, long)
                (longs _ _ _ (rw (e5, e6) refl) refl (ground arith) refl (clamped-le 60 number))
          | inr short ↦
              rw (e5, e6, e15, e, short)
                (words _ _ _ (rw (e5, e6) refl) refl (ground arith) refl (clamped-le 120 number))
        ]
        | inr e16 ↦ rw (e5, e6, e15, e16) tt
      ]
    ]
  ]
]

pub req_len-least : (function : ℕ) (s : Shape) → 5 ≤ req_len function s
req_len-least function s = elim (Bool-cases (is_single function)) [
  | inl e ↦ rw e (omega arith)
  | inr e ↦ rw e (omega arith)
]

pub req_len-most :
    (function : ℕ) (ty : Iec) (s : Shape) → IsShape function ty s → req_len function s ≤ 253
req_len-most function ty s (one _ _ _ single h) = rw single (omega arith)
req_len-most function ty s (coils _ _ _ m coil h) = rw m (omega arith)
req_len-most function ty s (longs _ _ _ m coil long size h) = rw m (omega arith)
req_len-most function ty s (words _ _ _ m coil short size h) = rw m (omega arith)

pub not_single :
    (function : ℕ) (ty : Iec) (s : Shape)
    → IsShape function ty s
    → (s.number == 0) ≡ false
    → is_single function ≡ false
not_single function ty s (one _ _ _ single h) e = absurd (ground arith)
not_single function ty s (coils _ _ _ m coil h) e = m
not_single function ty s (longs _ _ _ m coil long size h) e = m
not_single function ty s (words _ _ _ m coil short size h) e = m
