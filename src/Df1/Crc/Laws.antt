-- ===== src/Df1/Crc/Laws.antt =====
-- The checksum is a 16-bit word, and no single changed byte leaves it as it was.
use tux_plc.Base.{
  ℕ, zero, suc, ◌+◌, ◌*◌, ◌/◌, ◌%◌, ◌<◌, ◌≡◌, refl, ap, sym, ◌∙◌, arith, bit_and, bit_or, bit_xor,
  ◌==◌, ltb, ◌&&◌, if◌then◌else◌, Bool, true,
}
use tux_plc.Base.Bits.Fields.{bit_and_fields, bit_or_fields, bit_xor_fields}
use tux_plc.Base.Bits.Table.{holds_below, holds_at}
use tux_plc.Df1.Crc.{crc_shift, crc_rounds, calc_crc}

-- The shift of one round, undone: the polynomial has its top bit set.
crc_unshift : ℕ → ℕ
crc_unshift y = if ltb y 0x8000 then y * 2 else bit_xor y 0xa001 * 2 + 1

crc_shift_test : ℕ → Bool
crc_shift_test x = ltb (crc_shift x) 65536 && crc_unshift (crc_shift x) == x

crc_shift_table : holds_below 65536 crc_shift_test ≡ true
unfolding holds_below crc_shift_test crc_shift crc_unshift
crc_shift_table = refl

crc_shift-lt : (x : ℕ) → x < 65536 → crc_shift x < 65536
unfolding crc_shift_test
crc_shift-lt x h = ground (arith, holds_at 65536 crc_shift_test x crc_shift_table h)

crc_unshift-crc_shift : (x : ℕ) → x < 65536 → crc_unshift (crc_shift x) ≡ x
unfolding crc_shift_test
crc_unshift-crc_shift x h = ground (arith, holds_at 65536 crc_shift_test x crc_shift_table h)

pub crc_rounds-lt : (n x : ℕ) → x < 65536 → crc_rounds n x < 65536
unfolding crc_rounds
crc_rounds-lt zero x h = h
crc_rounds-lt (suc n) x h = crc_rounds-lt n (crc_shift x) (crc_shift-lt x h)

crc_rounds_injective : (n x y : ℕ) → x < 65536 → y < 65536 → crc_rounds n x ≡ crc_rounds n y → x ≡ y
unfolding crc_rounds
crc_rounds_injective zero x y hx hy e = e
crc_rounds_injective (suc n) x y hx hy e =
    let same : crc_shift x ≡ crc_shift y =
      crc_rounds_injective n (crc_shift x) (crc_shift y) (crc_shift-lt x hx) (crc_shift-lt y hy)
        e in
    sym (crc_unshift-crc_shift x hx) ∙ ap crc_unshift same ∙ crc_unshift-crc_shift y hy

-- What the bit operations do to two bytes.
byte_test : ℕ → ℕ → Bool
byte_test x y =
    ltb (bit_xor x y) 256
    && (bit_xor (bit_xor x y) y == x
        && (bit_xor x (bit_xor x y) == y
            && (bit_and x 255 == x
                && (bit_and x 0 == 0
                    && (bit_or 0 x == x && (bit_or x 0 == x && bit_xor x 0 == x))))))

byte_table : holds_below 65536 (λ n. byte_test (n / 256) (n % 256)) ≡ true
unfolding holds_below byte_test
byte_table = refl

record IsByteAlgebra (x y : ℕ) : Type 0 where
  xor_small : bit_xor x y < 256
  xor_right : bit_xor (bit_xor x y) y ≡ x
  xor_left : bit_xor x (bit_xor x y) ≡ y
  and_ones : bit_and x 255 ≡ x
  and_zero : bit_and x 0 ≡ 0
  zero_or : bit_or 0 x ≡ x
  or_zero : bit_or x 0 ≡ x
  xor_zero : bit_xor x 0 ≡ x

byte_test-laws : (x y : ℕ) → byte_test x y ≡ true → IsByteAlgebra x y
unfolding byte_test
byte_test-laws x y h = ground arith

byte_laws : (x y : ℕ) → x < 256 → y < 256 → IsByteAlgebra x y
byte_laws x y hx hy = byte_test-laws x y tested
  where
    here : byte_test ((x * 256 + y) / 256) ((x * 256 + y) % 256) ≡ true
    here =
        holds_at 65536 (λ n. byte_test (n / 256) (n % 256)) (x * 256 + y) byte_table (omega arith)

    left : (x * 256 + y) / 256 ≡ x
    left = omega arith

    right : (x * 256 + y) % 256 ≡ y
    right = omega arith

    tested : byte_test x y ≡ true
    tested = rw (left, right) at here

module _ (h l b : ℕ) (hh : h < 256) (hl : l < 256) (hb : b < 256) where
  -- The word that the eight rounds start from.
  crc_seed :
      bit_or (bit_and (h * 256 + l) 0xff00) (bit_and (bit_xor (h * 256 + l) b) 0xff)
      ≡ h * 256 + bit_xor l b
  crc_seed = ground (
    arith,
    bit_xor_fields 8 h l 0 b,
    bit_and_fields 8 h l 255 0,
    bit_and_fields 8 (bit_xor h 0) (bit_xor l b) 0 255,
    bit_or_fields 8 h 0 0 (bit_xor l b),
    byte_laws h b hh hb,
    byte_laws l b hl hb,
    byte_laws (bit_xor l b) b,
  )

seed : ℕ → ℕ → ℕ
seed crc b = crc / 256 * 256 + bit_xor (crc % 256) b

calc_crc-seed : (crc b : ℕ) → crc < 65536 → b < 256 → calc_crc crc b ≡ crc_rounds 8 (seed crc b)
unfolding calc_crc seed
calc_crc-seed crc b hc hb = ap (crc_rounds 8) (
    ap (λ c. bit_or (bit_and c 0xff00) (bit_and (bit_xor c b) 0xff))
      {y = crc / 256 * 256 + crc % 256} (omega arith)
    ∙ crc_seed (crc / 256) (crc % 256) b (omega arith) (omega arith) hb)

seed-lt : (crc b : ℕ) → crc < 65536 → b < 256 → seed crc b < 65536
unfolding seed
seed-lt crc b hc hb = ground (arith, byte_laws (crc % 256) b)

pub calc_crc-lt : (crc b : ℕ) → crc < 65536 → b < 256 → calc_crc crc b < 65536
calc_crc-lt crc b hc hb =
    rw (calc_crc-seed crc b hc hb) (crc_rounds-lt 8 (seed crc b) (seed-lt crc b hc hb))

module _ (c d b e : ℕ) (hc : c < 65536) (hd : d < 65536) (hb : b < 256) (he : e < 256)
    (same : calc_crc c b ≡ calc_crc d e) where
  same_seed : seed c b ≡ seed d e
  same_seed =
      crc_rounds_injective 8 (seed c b) (seed d e) (seed-lt c b hc hb) (seed-lt d e hd he)
        (sym (calc_crc-seed c b hc hb) ∙ same ∙ calc_crc-seed d e hd he)

  -- The same byte comes from the same checksum before it.
  pub same_before : b ≡ e → c ≡ d
  unfolding seed
  same_before p = ground (arith, same_seed, byte_laws (c % 256) b, byte_laws (d % 256) e)

  -- Onto the same checksum only the same byte gives the same.
  pub same_byte : c ≡ d → b ≡ e
  unfolding seed
  same_byte p = ground (arith, same_seed, byte_laws (c % 256) b, byte_laws (d % 256) e)
