-- ===== src/Modbus/Values/Registers.antt =====
-- Registers as _MBBuild_Write_Request lays them out, read back by the functions of a reply.
use tux_plc.Base.{
  held, ℕ, zero, suc, ◌+◌, ◌*◌, ◌<◌, ◌≡◌, ◌∙◌, refl, ap, List, ◌++◌, arith, get_or-append_right,
  lt_leb,
}
use tux_plc.Base.Bits.{u16}
use tux_plc.Base.Int.{pos}
use tux_plc.Modbus.{Iec, iec_uint, iec_dint, iec_real, no_error, read_holding_register}
use tux_plc.Modbus.Request.Writes.{Floats, words_from, dwords_from}
use tux_plc.Modbus.Values.{
  Reply, int_of_dword, get_value_as_integer, get_value_as_real, register_as_integer,
  register_as_real, uint_at, udint_at,
}
use tux_plc.Modbus.Words.{mbswap_16, mbswap_32, word_row, dword_row}

uint_at-head : (x : ℕ) (l : List ℕ) → uint_at (held (word_row (mbswap_16 x) ++ l)) 0 ≡ u16 x
uint_at-head x l = omega arith

uint_at-tail :
    (x : ℕ) (l : List ℕ) (k : ℕ)
    → uint_at (held (word_row x ++ l)) (2 * suc k) ≡ uint_at (held l) (2 * k)
uint_at-tail x l k =
    rw
      (
        get_or-append_right (word_row x) l (2 * suc k) (2 * k) 0 (omega arith),
        get_or-append_right (word_row x) l (2 * suc k + 1) (2 * k + 1) 0 (omega arith),
      )
      refl

udint_at-head :
    (x : ℕ) (l : List ℕ) → x < 4294967296 → udint_at (held (dword_row (mbswap_32 x) ++ l)) 0 ≡ x
udint_at-head x l h = omega arith

udint_at-tail :
    (x : ℕ) (l : List ℕ) (k : ℕ)
    → udint_at (held (dword_row x ++ l)) (4 * suc k) ≡ udint_at (held l) (4 * k)
udint_at-tail x l k =
    rw
      (
        get_or-append_right (dword_row x) l (4 * suc k) (4 * k) 0 (omega arith),
        get_or-append_right (dword_row x) l (4 * suc k + 1) (4 * k + 1) 0 (omega arith),
        get_or-append_right (dword_row x) l (4 * suc k + 2) (4 * k + 2) 0 (omega arith),
        get_or-append_right (dword_row x) l (4 * suc k + 3) (4 * k + 3) 0 (omega arith),
      )
      refl

module _ (f : Floats) (values : ℕ → f.Float) where
  uint_at-words_from :
      (conv : f.Float → ℕ) (i n k j : ℕ)
      → k < n
      → j ≡ i + k
      → uint_at (held (words_from f conv values i n)) (2 * k) ≡ u16 (conv (values j))
  unfolding words_from
  uint_at-words_from conv i zero k j h at = absurd (omega arith)
  uint_at-words_from conv i (suc n) zero j h at =
      uint_at-head (conv (values i)) (words_from f conv values (suc i) n)
      ∙ ap (λ x. u16 (conv (values x))) (omega (arith, at))
  uint_at-words_from conv i (suc n) (suc k) j h at =
      uint_at-tail (mbswap_16 (conv (values i))) (words_from f conv values (suc i) n) k
      ∙ uint_at-words_from conv (suc i) n k j (omega (arith, h)) (omega (arith, at))

  udint_at-dwords_from :
      (conv : f.Float → ℕ) (i n k j : ℕ)
      → k < n
      → j ≡ i + k
      → conv (values j) < 4294967296
      → udint_at (held (dwords_from f conv values i n)) (4 * k) ≡ conv (values j)
  unfolding dwords_from
  udint_at-dwords_from conv i zero k j h at small = absurd (omega arith)
  udint_at-dwords_from conv i (suc n) zero j h at small =
      let same = ap (λ x. conv (values x)) {x = i} {y = j} (omega (arith, at)) in
      udint_at-head (conv (values i)) (dwords_from f conv values (suc i) n)
        (omega (arith, same, small))
      ∙ same
  udint_at-dwords_from conv i (suc n) (suc k) j h at small =
      udint_at-tail (mbswap_32 (conv (values i))) (dwords_from f conv values (suc i) n) k
      ∙ udint_at-dwords_from conv (suc i) n k j (omega (arith, h)) (omega (arith, at)) small

  -- The reply of a PLC that answers a read of `n` registers with the row.
  abbrev pub reply_of : ℕ → Iec → List ℕ → Reply
  reply_of n ty l = record {
    function = read_holding_register;
    number = n;
    data_type = ty;
    base_address = 0;
    body = held l;
  }

  -- The words that a write of IEC_UINT values sends, in a reply: each value within the number comes
  -- back as the integer of its 16 bits, without an error.
  pub get_value_as_integer-words_from :
      (n k : ℕ)
      → k < n
      → get_value_as_integer (reply_of n iec_uint (words_from f f.to_uint values 0 n)) k
        ≡ (no_error, pos (u16 (f.to_uint (values k))))
  unfolding get_value_as_integer register_as_integer
  get_value_as_integer-words_from n k h =
      rw (lt_leb n k h, uint_at-words_from f.to_uint 0 n k k h (omega arith)) refl

  -- The double words that a write of IEC_DINT values sends, in a reply: each value within the
  -- number and below 2^32 as an MB_UDINT comes back as the int with its bits, without an error.
  pub get_value_as_integer-dwords_from :
      (n k : ℕ)
      → k < n
      → f.to_udint (values k) < 4294967296
      → get_value_as_integer (reply_of n iec_dint (dwords_from f f.to_udint values 0 n)) k
        ≡ (no_error, int_of_dword (f.to_udint (values k)))
  unfolding get_value_as_integer register_as_integer
  get_value_as_integer-dwords_from n k h small =
      rw (lt_leb n k h, udint_at-dwords_from f.to_udint 0 n k k h (omega arith) small) refl

  -- The double words that a write of IEC_REAL values sends, in a reply: each value within the
  -- number comes back as the float with its four bytes, without an error.
  pub get_value_as_real-dwords_from :
      (n k : ℕ)
      → k < n
      → f.bits (values k) < 4294967296
      → get_value_as_real f (reply_of n iec_real (dwords_from f f.bits values 0 n)) k
        ≡ (no_error, f.of_bits (f.bits (values k)))
  unfolding get_value_as_real register_as_real
  get_value_as_real-dwords_from n k h small =
      rw (lt_leb n k h, udint_at-dwords_from f.bits 0 n k k h (omega arith) small) refl
