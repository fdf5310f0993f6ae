-- ===== src/Tuxeip/Lgx/Counts.antt =====
-- The counts of a read.
use mathlib.Core.Option.{some-injective}
use mathlib.Core.Path.{subst}
use native.Mathlib.Nat.{div-mul-le_self}
use tux_plc.Base.{
  ℕ, ◌+◌, ◌-◌, ◌*◌, ◌/◌, ◌≤◌, ◌≡◌, refl, sym, ◌∙◌, inl, inr, Bool-cases, ◌==◌, Option, none, some,
  arith,
}
use tux_plc.Base.Int.{ℤ, pos, negsuc}
use tux_plc.Base.Memory.{Memory, bytes_from}
use tux_plc.Tuxeip.Pccc.{minus}
use tux_plc.Modbus.Words.{word_at}
use tux_plc.Tuxeip.Link.{Net, CipClient, internal}
use tux_plc.Tuxeip.Lgx.{
  LgxRead, get_lgx_data_size, get_lgx_data_type, get_data, sized_data, sized_read, typed_read,
  decode_lgx,
}

-- The sizes of a read of n bytes from an offset.
abbrev pub Measured : Memory → ℕ → ℤ → LgxRead → Type 0
Measured m at n r =
    (n ≡ pos r.totalsize)
    × (1 ≤ r.varcount)
    × (r.varcount * r.elementsize ≤ r.totalsize)
    × (r.content ≡ bytes_from m at r.totalsize)

module _ {net : Net} where
  sized_read-Measured :
      (m : Memory) (at : ℕ) (t : ℤ) (size : ℕ) (total : ℤ) (c : CipClient net) (r : LgxRead)
      → (sized_read m at t size total c).0 ≡ some r
      → Measured m at total r
  unfolding sized_read
  sized_read-Measured m at t size (negsuc n) c r h = absurd (ground (arith, h))
  sized_read-Measured m at t size (pos n) c r h = elim (Bool-cases (n / size == 0)) [
    | inl e ↦
        let gone : (sized_read m at t size (pos n) c).0 ≡ none = rw e refl in
        absurd (ground (arith, sym gone ∙ h))
    | inr e ↦
        let taken : (sized_read m at t size (pos n) c).0
            ≡ some (record {
              type = t;
              varcount = n / size;
              totalsize = n;
              elementsize = size;
              content = bytes_from m at n;
            }) =
          rw e refl in
        subst (Measured m at (pos n)) (some-injective _ r (sym taken ∙ h))
          (refl, ground arith, div-mul-le_self n size, refl)
  ]

  typed_read-Measured :
      (m : Memory) (off : ℕ) (t e : ℤ) (o : Option ℕ) (size : ℤ) (c : CipClient net) (r : LgxRead)
      → ((d : ℕ) → o ≡ some d → d ≡ off + 6)
      → (typed_read m off t e o size c).0 ≡ some r
      → Measured m (off + 6) (minus size 6) r
  unfolding typed_read
  typed_read-Measured m off t (negsuc n) o size c r place h = absurd (ground (arith, h))
  typed_read-Measured m off t (pos e) none size c r place h = absurd (ground (arith, h))
  typed_read-Measured m off t (pos e) (some d) size c r place h = elim (Bool-cases (e == 0)) [
    | inl z ↦
        let gone : (typed_read m off t (pos e) (some d) size c).0 ≡ none = rw z refl in
        absurd (ground (arith, sym gone ∙ h))
    | inr z ↦
        let at : d ≡ off + 6 = place d refl in
        let six : off + 6 - off ≡ 6 = omega arith in
        let step : (typed_read m off t (pos e) (some d) size c).0
            ≡ (sized_read m (off + 6) t e (minus size 6) c).0 =
          rw (z, at, six) refl in
        sized_read-Measured m (off + 6) t e (minus size 6) c r (sym step ∙ h)
  ]

  sized_data-place :
      (off : ℕ) (size : ℤ) (c : CipClient net) (d : ℕ)
      → (sized_data off size c).0 ≡ some d
      → d ≡ off + 6
  sized_data-place off (negsuc n) c d h = absurd (ground (arith, h))
  sized_data-place off (pos n) c d h = sym (some-injective (off + 6) d h)

  get_data-place :
      (m : Memory) (off : ℕ) (c : CipClient net) (d : ℕ)
      → (get_data m off c).0 ≡ some d
      → d ≡ off + 6
  unfolding get_data
  get_data-place m off c d h = elim (Bool-cases (word_at m (off + 2) == 0)) [
    | inr e ↦
        let gone : (get_data m off c).0 ≡ none = rw e refl in absurd (ground (arith, sym gone ∙ h))
    | inl e ↦
        let t = get_lgx_data_type m off (record c { err = internal (pos 0) }) in
        let step : (get_data m off c).0 ≡ (sized_data off (get_lgx_data_size t.0) t.1).0 =
          rw e refl in
        sized_data-place off (get_lgx_data_size t.0) t.1 d (sym step ∙ h)
  ]

  -- Where _DecodeLGX takes a reply of a size, the size of the data is 6 below it, the data are the bytes of
  -- this size behind the type, and there are 1 or more elements, which lie within them.
  pub decode_lgx-counts :
      (m : Memory) (off : ℕ) (size : ℤ) (c : CipClient net) (r : LgxRead)
      → (decode_lgx m off size c).0 ≡ some r
      → (minus size 6 ≡ pos r.totalsize)
        × (1 ≤ r.varcount)
        × (r.varcount * r.elementsize ≤ r.totalsize)
        × (r.content ≡ bytes_from m (off + 6) r.totalsize)
  unfolding decode_lgx
  decode_lgx-counts m off size c r h =
      let a = get_lgx_data_type m off c in
      let b = get_data m off a.1 in
      typed_read-Measured m off a.0 (get_lgx_data_size a.0) b.0 size b.1 r
        (get_data-place m off a.1) h
