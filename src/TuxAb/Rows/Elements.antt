-- ===== src/TuxAb/Rows/Elements.antt =====
-- The rows of tags that stand for an element of a file.
use tux_plc.Base.{
  ℕ, ◌-◌, ◌%◌, ◌≤◌, ◌<◌, ◌≡◌, refl, ap, ◌∙◌, List, ◌∷◌, ◌++◌, Option, none, some, arith,
}
use tux_plc.Base.Int.{ℤ, pos, negsuc}
use tux_plc.Base.Libc.{atoi}
use tux_plc.Base.Libc.Digits.{digits_value}
use tux_plc.Base.Memory.{laid}
use tux_plc.Tuxeip.Address.{build_logical_binary_address}
use tux_plc.Tuxeip.Address.Reads.{IsFile, IsNumber, element_lba, build_logical_binary_address-lba}
use tux_plc.TuxAb.{Tag}
use tux_plc.TuxAb.Packets.Spans.{IsElement}
use tux_plc.TuxAb.Rows.{
  TagRow, TagType, tag_type_of, tag_with, tag_of_row, time_sample_of, short_sample, sample_of,
}

short_sample-bounds : (w : ℕ) → (5 ≤ short_sample w) × (short_sample w < 32768)
short_sample-bounds w = (ground arith, ground arith)

sample_of-bounds : (v : ℤ) → (5 ≤ sample_of v) × (sample_of v < 32768)
sample_of-bounds (pos n) = short_sample-bounds (n % 65536)
sample_of-bounds (negsuc n) = short_sample-bounds (65535 - n % 65536)

time_sample_of-bounds : (t : Option (List ℕ)) → (5 ≤ time_sample_of t) × (time_sample_of t < 32768)
unfolding time_sample_of
time_sample_of-bounds none = (omega arith, omega arith)
time_sample_of-bounds (some t) = sample_of-bounds (atoi t)

-- From a row whose address is that of an element of a file N, F or B in capitals, the letter, the
-- number of the file, a colon and the number of the element, with numbers from 1 to 254 without a zero in front, and whose type is
-- NULL or has a sample beside it, _GetTag makes a tag: its address has the file and the element in its
-- second and third byte, it stands in no packet yet, and its sample is from 5 to 32767 seconds.
pub tag_of_row-IsElement :
    (name : List ℕ) (type_text sample_text : Option (List ℕ)) (type : TagType)
    → tag_type_of type_text sample_text ≡ some type
    → (c d : ℕ) (ds : List ℕ) (e : ℕ) (es : List ℕ) → IsFile c
    → IsNumber d ds
    → IsNumber e es
    → digits_value 0 (d ∷ ds) < 255
    → digits_value 0 (e ∷ es) < 255
    → (t : Tag) × (tag_of_row (record {
      name = name;
      address = c ∷ (d ∷ ds) ++ (b':' ∷ e ∷ es);
      type_text = type_text;
      sample_text = sample_text;
    })
        ≡ some t)
      × IsElement t
      × (t.lba.address 0 ≡ 6)
      × (t.lba.address 1 ≡ digits_value 0 (d ∷ ds))
      × (t.lba.address 2 ≡ digits_value 0 (e ∷ es))
      × (5 ≤ t.time_sample)
      × (t.time_sample < 32768)
unfolding tag_of_row laid
tag_of_row-IsElement name type_text sample_text type typed c d ds e es file hd he vd ve =
    let sampled = time_sample_of-bounds sample_text in
    let fields : TagRow = record {
      name = name;
      address = c ∷ (d ∷ ds) ++ (b':' ∷ e ∷ es);
      type_text = type_text;
      sample_text = sample_text;
    } in
    (
      record {
        tag_name = name;
        address = fields.address;
        lba = element_lba (digits_value 0 (d ∷ ds)) (digits_value 0 (e ∷ es));
        data_type = type;
        time_sample = time_sample_of sample_text;
        time_value = 0;
        index = pos 0;
      },
      ap (λ k. tag_with fields k (build_logical_binary_address fields.address)) typed
          ∙ ap (tag_with fields (some type))
              (build_logical_binary_address-lba c d ds e es file hd he vd ve),
      (omega arith, omega (arith, vd), omega (arith, ve), refl, omega (arith, sampled)),
      refl,
      refl,
      refl,
      sampled.0,
      sampled.1,
    )
