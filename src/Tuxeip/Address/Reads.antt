-- ===== src/Tuxeip/Address/Reads.antt =====
-- The address of an element of a file, such as N7:3.
use tux_plc.Base.{
  ℕ, suc, ◌+◌, ◌<◌, ◌≡◌, refl, ap, ◌∙◌, sym, ◌⊎◌, inl, inr, true, false, List, [], ◌∷◌, ◌++◌, arith,
  length, length-append, All, some, ltb, held, ◌%◌,
}
use mathlib.Core.List.{append-nil}
use tux_plc.Base.Memory.{laid}
use tux_plc.Base.Libc.Digits.{IsDigit, Stops, digits_value}
use tux_plc.Base.Libc.Strtol.{strtol-digits}
use tux_plc.Tuxeip.Requests.{LogicalBinaryAddress, slcrw_row, build_plc_read_data_request}
use tux_plc.Modbus.Words.{word_row}
use tux_plc.Tuxeip.Address.{
  Progress, built, lba_loop, build_logical_binary_address, number_read, name_read, or_ended,
}

-- A row of digits, as %u prints a number from 1 on.
abbrev pub IsNumber : ℕ → List ℕ → Type 0
IsNumber d ds = IsDigit d × (b'0' < d) × All IsDigit ds

-- The letter of a file of integers, of floats or of bits.
abbrev pub IsFile : ℕ → Type 0
IsFile c = (c ≡ b'N') ⊎ ((c ≡ b'F') ⊎ (c ≡ b'B'))

-- The address with the numbers of a file and an element.
abbrev pub element_lba : ℕ → ℕ → LogicalBinaryAddress
element_lba file element = record {
  size = 3;
  address =
      laid (laid (laid (laid (λ _. 0) 0 1 (λ _. 2)) 1 1 (held (file ∷ []))) 0 1 (λ _. 6)) 2 1
        (held (element ∷ []));
  mask = 0;
}

abbrev pub start : Progress
start = record {
  lba = record { size = 1; address = λ _. 0; mask = 0 };
  level = 0;
  encoding_bit = false;
}

letter-read :
    (fuel c : ℕ) (str : List ℕ)
    → IsFile c
    → lba_loop (suc fuel) (c ∷ str) start ≡ or_ended (c ∷ str) (some start) (lba_loop fuel str)
unfolding lba_loop name_read
letter-read fuel c str (inl e) = rw e refl
letter-read fuel c str (inr (inl e)) = rw e refl
letter-read fuel c str (inr (inr e)) = rw e refl

number-read :
    (fuel d : ℕ) (ds rest : List ℕ) (s : Progress)
    → IsNumber d ds
    → Stops rest
    → digits_value 0 (d ∷ ds) < 255
    → lba_loop (suc fuel) (d ∷ ds ++ rest) s
      ≡ or_ended rest (number_read (digits_value 0 (d ∷ ds)) s) (lba_loop fuel rest)
unfolding lba_loop
number-read fuel d ds rest s h stops small =
    let word : digits_value 0 (d ∷ ds) % 65536 ≡ digits_value 0 (d ∷ ds) = ground arith in
    rw (strtol-digits d ds rest h.0 h.1 h.2 stops (omega (arith, small)), word) refl

-- Behind the number of the file.
abbrev in_file : ℕ → Progress
in_file file = record {
  lba = record {
    size = 2;
    address = laid (laid (λ _. 0) 0 1 (λ _. 2)) 1 1 (held (file ∷ []));
    mask = 0;
  };
  level = 1;
  encoding_bit = false;
}

file-placed : (v : ℕ) → v < 255 → number_read v start ≡ some (in_file v)
unfolding number_read
file-placed v h = let byte : ltb v 255 ≡ true = ground arith in rw byte refl

-- The number of the element, behind the one of the file.
abbrev in_element : ℕ → ℕ → Progress
in_element file element = record { lba = element_lba file element; level = 2; encoding_bit = false }

element-placed : (file v : ℕ) → v < 255 → number_read v (in_file file) ≡ some (in_element file v)
unfolding number_read laid
element-placed file v h = let byte : ltb v 255 ≡ true = ground arith in rw byte refl

colon-read :
    (fuel v : ℕ) (str : List ℕ)
    → lba_loop (suc fuel) (b':' ∷ str) (in_file v) ≡ lba_loop fuel str (in_file v)
unfolding lba_loop name_read
colon-read fuel v str = refl

rounds :
    (k c d : ℕ) (ds : List ℕ) (e : ℕ) (es : List ℕ)
    → IsFile c
    → IsNumber d ds
    → IsNumber e es
    → digits_value 0 (d ∷ ds) < 255
    → digits_value 0 (e ∷ es) < 255
    → lba_loop (suc (suc (suc (suc k)))) (c ∷ (d ∷ ds) ++ (b':' ∷ (e ∷ es) ++ [])) start
      ≡ built (element_lba (digits_value 0 (d ∷ ds)) (digits_value 0 (e ∷ es)))
rounds k c d ds e es file hd he vd ve =
    letter-read (suc (suc (suc k))) c ((d ∷ ds) ++ (b':' ∷ (e ∷ es) ++ [])) file
    ∙ number-read (suc (suc k)) d ds (b':' ∷ (e ∷ es) ++ []) start hd refl vd
    ∙ ap (λ s. or_ended (b':' ∷ (e ∷ es) ++ []) s (lba_loop (suc (suc k)) (b':' ∷ (e ∷ es) ++ [])))
        (file-placed (digits_value 0 (d ∷ ds)) vd)
    ∙ colon-read (suc k) (digits_value 0 (d ∷ ds)) ((e ∷ es) ++ [])
    ∙ number-read k e es [] (in_file (digits_value 0 (d ∷ ds))) he tt ve
    ∙ ap (λ s. or_ended [] s (lba_loop k []))
        (element-placed (digits_value 0 (d ∷ ds)) (digits_value 0 (e ∷ es)) ve)

enough :
    (c d : ℕ) (ds : List ℕ) (e : ℕ) (es : List ℕ)
    → suc (length (c ∷ (d ∷ ds) ++ (b':' ∷ e ∷ es)))
      ≡ suc (suc (suc (suc (length ds + length es + 1))))
enough c d ds e es = omega (arith, length-append (d ∷ ds) (b':' ∷ e ∷ es))

pub build_logical_binary_address-lba :
    (c d : ℕ) (ds : List ℕ) (e : ℕ) (es : List ℕ)
    → IsFile c
    → IsNumber d ds
    → IsNumber e es
    → digits_value 0 (d ∷ ds) < 255
    → digits_value 0 (e ∷ es) < 255
    → build_logical_binary_address (c ∷ (d ∷ ds) ++ (b':' ∷ e ∷ es))
      ≡ built (element_lba (digits_value 0 (d ∷ ds)) (digits_value 0 (e ∷ es)))
unfolding build_logical_binary_address
build_logical_binary_address-lba c d ds e es file hd he vd ve =
    ap (λ k. lba_loop k (c ∷ (d ∷ ds) ++ (b':' ∷ e ∷ es)) start) (enough c d ds e es)
    ∙ ap
        (λ t.
          lba_loop (suc (suc (suc (suc (length ds + length es + 1)))))
            (c ∷ (d ∷ ds) ++ (b':' ∷ e ∷ t)) start)
        (sym (append-nil es))
    ∙ rounds (length ds + length es + 1) c d ds e es file hd he vd ve

-- On the address of an element of a file N, F or B in capitals, the letter, the number of the
-- file, a colon and the number of the element, with numbers from 1 to 254 without a zero in front,
-- _BuildLogicalBinaryAddress builds an address without a mask, and the typed read of it asks for
-- the levels 1 and 2, the file and the element.
pub build_logical_binary_address-element :
    (c d : ℕ) (ds : List ℕ) (e : ℕ) (es : List ℕ) (tns number : ℕ)
    → IsFile c
    → IsNumber d ds
    → IsNumber e es
    → digits_value 0 (d ∷ ds) < 255
    → digits_value 0 (e ∷ es) < 255
    → (a : LogicalBinaryAddress) × (build_logical_binary_address (c ∷ (d ∷ ds) ++ (b':' ∷ e ∷ es))
        ≡ built a)
      × (a.mask ≡ 0)
      × (build_plc_read_data_request tns a number
          ≡ slcrw_row 0x0F tns 0x68 number
            ++ (6 ∷ digits_value 0 (d ∷ ds) ∷ digits_value 0 (e ∷ es) ∷ word_row number))
unfolding build_logical_binary_address build_plc_read_data_request laid
build_logical_binary_address-element c d ds e es tns number file hd he vd ve = (
  element_lba (digits_value 0 (d ∷ ds)) (digits_value 0 (e ∷ es)),
  build_logical_binary_address-lba c d ds e es file hd he vd ve,
  refl,
  refl,
)
