-- ===== src/Modbus/Values/Coils.antt =====
-- Coils as _MBBuild_Write_Request packs them, read back by the functions of a reply.
use tux_plc.Base.{
  held, ℕ, zero, suc, ◌+◌, ◌-◌, ◌*◌, ◌/◌, ◌%◌, ◌^◌, bit_and, bit_or, ◌<◌, ◌≤◌, ◌≡◌, ◌≢◌, ◌∙◌, refl,
  ap, sym, inl, inr, arith, Bool, true, false, Bool-cases, not, ◌&&◌, get_or, ltb, lt_leb, lt_ltb,
  le_ltb, ltb_lt, ◌==◌, ==_eq, ◌||◌, if◌then◌else◌,
}
use tux_plc.Base.Bits.Table.{holds_below, holds_at}
use tux_plc.Base.Int.{pos}
use tux_plc.Modbus.{iec_byte, no_error, read_coils}
use tux_plc.Modbus.Request.Writes.{Floats, coil_bytes, pack_coils, row}
use tux_plc.Modbus.Values.{get_value_as_integer}

-- The bit `x` of a byte is set.
abbrev has_bit : ℕ → ℕ → Bool
has_bit b x = not (bit_and b (2 ^ x) == 0)

same_bool : Bool → Bool → Bool
same_bool true b = b
same_bool false b = not b

same_bool-eq : (a b : Bool) → same_bool a b ≡ true → a ≡ b
unfolding same_bool
same_bool-eq true b h = sym h
same_bool-eq false true h = ground (arith, h)
same_bool-eq false false h = refl

-- Over a byte b and two of its bits: a set bit is there, and the others stay.
or_test : ℕ → ℕ → ℕ → Bool
or_test b x y =
    same_bool (has_bit (bit_or b (2 ^ x)) y) (y == x || has_bit b y) && ltb (bit_or b (2 ^ x)) 256

or_table : ℕ → Bool
or_table n = or_test (n / 64) (n / 8 % 8) (n % 8)

or_table-below : holds_below 16384 or_table ≡ true
unfolding holds_below or_table or_test same_bool
or_table-below = refl

zero_table : ℕ → Bool
zero_table x = not (has_bit 0 x)

zero_table-below : holds_below 8 zero_table ≡ true
unfolding holds_below zero_table
zero_table-below = refl

has_bit-zero : (x : ℕ) → x < 8 → has_bit 0 x ≡ false
unfolding zero_table
has_bit-zero x h = ground (arith, holds_at 8 zero_table x zero_table-below h)

or_test-holds : (b x y : ℕ) → b < 256 → x < 8 → y < 8 → or_test b x y ≡ true
unfolding or_table
or_test-holds b x y hb hx hy =
    let n = 64 * b + 8 * x + y in
    let e1 : n / 64 ≡ b = omega arith in
    let e2 : n / 8 % 8 ≡ x = omega arith in
    let e3 : n % 8 ≡ y = omega arith in
    let e : or_test (n / 64) (n / 8 % 8) (n % 8) ≡ true =
      holds_at 16384 or_table n or_table-below (omega arith) in
    rw
      (
        sym (ap (λ k. or_test k x y) e1),
        sym (ap (λ k. or_test (n / 64) k y) e2),
        sym (ap (λ k. or_test (n / 64) (n / 8 % 8) k) e3),
      )
      e

and-left : (a b : Bool) → (a && b) ≡ true → a ≡ true
and-left true b h = refl
and-left false b h = h

and-right : (a b : Bool) → (a && b) ≡ true → b ≡ true
and-right true b h = h
and-right false b h = ground (arith, h)

has_bit-or :
    (b x y : ℕ) → b < 256 → x < 8 → y < 8 → has_bit (bit_or b (2 ^ x)) y ≡ (y == x || has_bit b y)
unfolding or_test
has_bit-or b x y hb hx hy =
    same_bool-eq (has_bit (bit_or b (2 ^ x)) y) (y == x || has_bit b y)
      (and-left _ _ (or_test-holds b x y hb hx hy))

or-lt : (b x : ℕ) → b < 256 → x < 8 → bit_or b (2 ^ x) < 256
unfolding or_test
or-lt b x hb hx =
    ltb_lt (bit_or b (2 ^ x)) 256 (and-right _ _ (or_test-holds b x 0 hb hx (omega arith)))

as_number : (a b : Bool) → not a ≡ b → ◌≡◌ {A = ℕ} (if a then 0 else 1) (if b then 1 else 0)
as_number true b h = rw (sym h) refl
as_number false b h = rw (sym h) refl

byte_inside : (n k : ℕ) → k < n → (k - k % 8) / 8 < coil_bytes n
byte_inside n k h = ground arith

module _ (f : Floats) (values : ℕ → f.Float) where
  -- The coil k is set after n turns: it is one of the first n, and its value is not 0.
  packed : ℕ → ℕ → Bool
  packed n k = ltb k n && f.is_set (values k)

  pack_coils-lt : (n y : ℕ) → pack_coils f values n y < 256
  unfolding pack_coils
  pack_coils-lt zero y = omega arith
  pack_coils-lt (suc n) y = elim (Bool-cases (f.is_set (values n))) [
    | inr e ↦ rw e (pack_coils-lt n y)
    | inl e ↦ elim (Bool-cases (y == (n - n % 8) / 8)) [
      | inl here ↦
          rw (e, here) (or-lt (pack_coils f values n y) (n % 8) (pack_coils-lt n y) (omega arith))
      | inr there ↦ rw (e, there) (pack_coils-lt n y)
    ]
  ]

  packed-here : (n k : ℕ) → k ≡ n → packed (suc n) k ≡ f.is_set (values n)
  unfolding packed
  packed-here n k h = rw (lt_ltb k (suc n) (omega (arith, h))) (ap (λ i. f.is_set (values i)) h)

  packed-there : (n k : ℕ) → k ≢ n → packed (suc n) k ≡ packed n k
  unfolding packed
  packed-there n k h =
      ap (λ b. b && f.is_set (values k)) {x = ltb k (suc n)} {y = ltb k n} (ground arith)

  packed-late : (n k : ℕ) → n ≤ k → packed n k ≡ false
  unfolding packed
  packed-late n k h = rw (le_ltb k n h) refl

  turn-here :
      (n y x : ℕ)
      → x < 8
      → 8 * y + x ≡ n
      → has_bit (pack_coils f values n y) x ≡ false
      → has_bit (pack_coils f values (suc n) y) x ≡ f.is_set (values n)
  unfolding pack_coils
  turn-here n y x h at before = elim (Bool-cases (f.is_set (values n))) [
    | inr e ↦ rw e before
    | inl e ↦
        (let same : (y == (n - n % 8) / 8) ≡ true = ground (arith, at) in
          let bit : (x == n % 8) ≡ true = ground (arith, at) in
          rw
            (
              e,
              same,
              has_bit-or (pack_coils f values n y) (n % 8) x (pack_coils-lt n y) (omega arith) h,
              bit,
            )
            refl)
  ]

  turn-there :
      (n y x : ℕ)
      → x < 8
      → 8 * y + x ≢ n
      → has_bit (pack_coils f values (suc n) y) x ≡ has_bit (pack_coils f values n y) x
  unfolding pack_coils
  turn-there n y x h ne = elim (Bool-cases (f.is_set (values n))) [
    | inr e ↦ rw e refl
    | inl e ↦ elim (Bool-cases (y == (n - n % 8) / 8)) [
      | inr there ↦ rw (e, there) refl
      | inl here ↦
          (let bit : (x == n % 8) ≡ false = ground arith in
            rw
              (
                e,
                here,
                has_bit-or (pack_coils f values n y) (n % 8) x (pack_coils-lt n y) (omega arith) h,
                bit,
              )
              refl)
    ]
  ]

  has_bit-pack_coils :
      (n y x : ℕ) → x < 8 → has_bit (pack_coils f values n y) x ≡ packed n (8 * y + x)
  has_bit-pack_coils zero y x h =
      unfold pack_coils in has_bit-zero x h ∙ sym (packed-late 0 (8 * y + x) (omega arith))
  has_bit-pack_coils (suc n) y x h = elim (Bool-cases (8 * y + x == n)) [
    | inl e ↦
        (let at = ==_eq (8 * y + x) n e in
          turn-here n y x h at
            (has_bit-pack_coils n y x h ∙ packed-late n (8 * y + x) (omega (arith, at)))
          ∙ sym (packed-here n (8 * y + x) at))
    | inr e ↦
        (let ne : 8 * y + x ≢ n = ground arith in
          turn-there n y x h ne ∙ has_bit-pack_coils n y x h ∙ sym (packed-there n (8 * y + x) ne))
  ]

  get_or-row : (m : ℕ → ℕ) (n i : ℕ) → i < n → get_or (row m n) i 0 ≡ m i
  get_or-row m zero i h = absurd (omega arith)
  get_or-row m (suc n) zero h = refl
  get_or-row m (suc n) (suc i) h = get_or-row (λ j. m (suc j)) n i (omega arith)

  has_bit-own :
      (n k : ℕ)
      → k < n
      → has_bit (pack_coils f values n ((k - k % 8) / 8)) (k % 8) ≡ f.is_set (values k)
  unfolding packed
  has_bit-own n k h =
      has_bit-pack_coils n ((k - k % 8) / 8) (k % 8) (omega arith)
      ∙ ap (packed n) {x = 8 * ((k - k % 8) / 8) + k % 8} {y = k} (omega arith)
      ∙ rw (lt_ltb k n h) refl

  -- The bytes that a write of `n` coils sends, in the reply to a read of them: each coil within the
  -- number comes back as 1 where its value is not 0 and as 0 where it is, without an error.
  pub get_value_as_integer-pack_coils :
      (n k : ℕ)
      → k < n
      → get_value_as_integer
          (record {
            function = read_coils;
            number = n;
            data_type = iec_byte;
            base_address = 0;
            body = held (row (pack_coils f values n) (coil_bytes n));
          })
          k
        ≡ (no_error, pos (if f.is_set (values k) then 1 else 0))
  unfolding get_value_as_integer
  get_value_as_integer-pack_coils n k h =
      rw
        (
          lt_leb n k h,
          get_or-row (pack_coils f values n) (coil_bytes n) ((k - k % 8) / 8) (byte_inside n k h),
          as_number (bit_and (pack_coils f values n ((k - k % 8) / 8)) (2 ^ (k % 8)) == 0)
              (f.is_set (values k)) (has_bit-own n k h),
        )
        refl
