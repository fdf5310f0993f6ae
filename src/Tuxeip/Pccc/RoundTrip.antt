-- ===== src/Tuxeip/Pccc/RoundTrip.antt =====
-- The descriptor that a typed write sends, in the reply to a typed read.
use native.Mathlib.Nat.{mul-div_cancel}
use tux_plc.Base.{
  ℕ, zero, suc, ◌+◌, ◌-◌, ◌*◌, ◌/◌, ◌%◌, ◌<◌, ◌≤◌, ◌≡◌, refl, ap, sym, ◌∙◌, List, [], ◌∷◌, ◌++◌,
  arith, get_or, held, get_or-append_right, length, lt_ltb, le_leb, ltb, Option, some,
  if◌then◌else◌,
}
use tux_plc.Base.Int.{ℤ, pos}
use tux_plc.Tuxeip.Pccc.{
  get_plc_data_size, encode_plc_data_type, encode_size, element_row, decode_pccc,
  decode_plc_data_type, described, two_fields, field, long_field, element_fields, Described,
  with_size, with_count, own_byte, minus, int_of_longword, bytes_at,
}

-- The types of data with the size of an element.
pub data IsData : ℕ → ℕ → Type 0 where
  byte_string : IsData 3 1
  integer : IsData 4 2
  timer : IsData 5 6
  counter : IsData 6 6
  control : IsData 7 6
  floating : IsData 8 4

abbrev size_left : ℕ → ℕ → ℤ
size_left k used = minus (minus (int_of_longword k) used) 1

size_left-pos : (k used x : ℕ) → k < 256 → k ≡ x + used + 1 → size_left k used ≡ pos x
size_left-pos k used x small e =
    rw
      (
        lt_ltb k 0x80000000 (omega (arith, small)),
        le_leb used k (omega (arith, e)),
        le_leb 1 (k - used) (omega (arith, e)),
      )
      (ap pos {x = k - used - 1} {y = x} (omega (arith, e)))

bytes_at-row :
    (m : ℕ → ℕ) (at : ℕ) (l : List ℕ)
    → ((i : ℕ) → i < length l → m (at + i) ≡ get_or l i 0)
    → bytes_at m at (length l) ≡ l
bytes_at-row m at [] h = refl
bytes_at-row m at (x ∷ l) h =
    rw
      (
        sym (ap m {x = at + 0} {y = at} (omega arith)),
        h 0 (omega arith),
        bytes_at-row m (at + 1) l (λ i k.
            ap m {x = at + 1 + i} {y = at + suc i} (omega arith) ∙ h (suc i) (omega (arith, k))),
      )
      refl

with_size-exact :
    (m : ℕ → ℕ) (ty n size place : ℕ)
    → 1 ≤ n
    → 1 ≤ size
    → with_size m
        (record { type = ty; tsize = pos (n * size); esize = pos size; place = place })
        (pos size)
      ≡ some (record {
        type = ty;
        varcount = pos n;
        totalsize = pos (n * size);
        elementsize = pos size;
        content = bytes_at m place (n * size);
      })
unfolding with_size with_count
with_size-exact m ty (suc n) (suc size) place h h' =
    rw (mul-div_cancel (suc n) {n = suc size} (omega arith)) refl
with_size-exact m ty zero size place h h' = absurd (omega arith)
with_size-exact m ty (suc n) zero place h h' = absurd (omega arith)

-- The reply to a typed read with status 0: the header, a descriptor and the data.
abbrev pub reply_memory : ℕ → ℕ → List ℕ → List ℕ → ℕ → ℕ
reply_memory cmd tns row values = held (cmd ∷ 0 ∷ tns % 256 ∷ tns / 256 % 256 ∷ row ++ values)

-- The descriptor of a number of elements.
descriptor : ℕ → ℕ → ℕ → List ℕ
descriptor ty size n =
    0x99 ∷ 9 ∷ (n * size + own_byte ty + own_byte size + 1) % 256 ∷ element_row ty size

encode-descriptor :
    {ty size : ℕ} (n : ℕ) → IsData ty size → encode_plc_data_type ty n ≡ some (descriptor ty size n)
unfolding encode_plc_data_type encode_size get_plc_data_size descriptor
encode-descriptor n byte_string = refl
encode-descriptor n integer = refl
encode-descriptor n timer = refl
encode-descriptor n counter = refl
encode-descriptor n control = refl
encode-descriptor n floating = refl

-- The place of the data behind the descriptor.
behind : ℕ → ℕ
behind ty = if ltb 7 ty then 9 else 8

described-left :
    (ty k used x place : ℕ) (esize : ℤ)
    → k < 256
    → k ≡ x + used + 1
    → ◌≡◌ {A = Option Described}
        (some (record { type = ty; tsize = size_left k used; esize = esize; place = place }))
        (some (record { type = ty; tsize = pos x; esize = esize; place = place }))
described-left ty k used x place esize small e = rw (size_left-pos k used x small e) refl

described-descriptor :
    {ty size : ℕ} (cmd tns n : ℕ) (values : List ℕ)
    → IsData ty size
    → n * size ≤ 253
    → decode_plc_data_type (reply_memory cmd tns (descriptor ty size n) values)
      ≡ some (record { type = ty; tsize = pos (n * size); esize = pos size; place = behind ty })
unfolding decode_plc_data_type described two_fields field long_field element_fields descriptor
    element_row behind
described-descriptor cmd tns n values byte_string small =
    described-left 3 ((n * 1 + 0 + 0 + 1) % 256) 0 (n * 1) 8 (pos 1) (omega arith)
      (omega (arith, small))
described-descriptor cmd tns n values integer small =
    described-left 4 ((n * 2 + 0 + 0 + 1) % 256) 0 (n * 2) 8 (pos 2) (omega arith)
      (omega (arith, small))
described-descriptor cmd tns n values timer small =
    described-left 5 ((n * 6 + 0 + 0 + 1) % 256) 0 (n * 6) 8 (pos 6) (omega arith)
      (omega (arith, small))
described-descriptor cmd tns n values counter small =
    described-left 6 ((n * 6 + 0 + 0 + 1) % 256) 0 (n * 6) 8 (pos 6) (omega arith)
      (omega (arith, small))
described-descriptor cmd tns n values control small =
    described-left 7 ((n * 6 + 0 + 0 + 1) % 256) 0 (n * 6) 8 (pos 6) (omega arith)
      (omega (arith, small))
described-descriptor cmd tns n values floating small =
    described-left 8 ((n * 4 + 1 + 0 + 1) % 256) 1 (n * 4) 9 (pos 4) (omega arith)
      (omega (arith, small))

size-positive : {ty size : ℕ} → IsData ty size → 1 ≤ size
size-positive byte_string = omega arith
size-positive integer = omega arith
size-positive timer = omega arith
size-positive counter = omega arith
size-positive control = omega arith
size-positive floating = omega arith

length-descriptor :
    {ty size : ℕ} (n : ℕ) → IsData ty size → 4 + length (descriptor ty size n) ≡ behind ty
unfolding descriptor element_row behind
length-descriptor n byte_string = refl
length-descriptor n integer = refl
length-descriptor n timer = refl
length-descriptor n counter = refl
length-descriptor n control = refl
length-descriptor n floating = refl

data_place :
    {ty size : ℕ} (cmd tns n i : ℕ) (values : List ℕ)
    → IsData ty size
    → reply_memory cmd tns (descriptor ty size n) values (behind ty + i) ≡ get_or values i 0
data_place {ty = ty} {size = size} cmd tns n i values type =
    get_or-append_right (cmd ∷ 0 ∷ tns % 256 ∷ tns / 256 % 256 ∷ descriptor ty size n) values
      (behind ty + i) i 0 (omega (arith, length-descriptor n type))

-- One element or more of a type that has a size, at most 253 bytes of them: _EncodePLCDataType makes a
-- descriptor, and _DecodePCCC takes a reply with status 0, that descriptor and the bytes for a read
-- of that type with that number of elements, their size in all and of each, and the same bytes.
pub decode_pccc-encode_plc_data_type :
    {ty size : ℕ} (cmd tns n : ℕ) (values : List ℕ)
    → IsData ty size
    → 1 ≤ n
    → length values ≡ n * size
    → n * size ≤ 253
    → (row : List ℕ) × (encode_plc_data_type ty n ≡ some row)
      × (decode_pccc (reply_memory cmd tns row values)
          ≡ some (record {
            type = ty;
            varcount = pos n;
            totalsize = pos (n * size);
            elementsize = pos size;
            content = values;
          }))
unfolding decode_pccc
decode_pccc-encode_plc_data_type {ty = ty} {size = size} cmd tns n values type some_data same
      small =
    let m = reply_memory cmd tns (descriptor ty size n) values in
    (
      descriptor ty size n,
      encode-descriptor n type,
      rw
          (
            described-descriptor cmd tns n values type small,
            with_size-exact m ty n size (behind ty) some_data (size-positive type),
            sym same,
            bytes_at-row m (behind ty) values (λ i h. data_place cmd tns n i values type),
          )
          refl,
    )
