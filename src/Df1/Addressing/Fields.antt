-- ===== src/Df1/Addressing/Fields.antt =====
-- The fields that calc_address reads off an address such as N7:12 or B3:0/5.
use tux_plc.Base.{ℕ, ◌%◌, ◌≤◌, ◌≡◌, refl, ◌∙◌, List, [], ◌∷◌, ◌++◌, arith, false, All, ◌==◌}
use tux_plc.Base.Libc.{atoi, byte_of, to_lower}
use tux_plc.Base.Libc.Digits.{
  IsDigit, digits_value, Stops, atoi-digits, atoi-digits_only, digit-is_digit,
}
use tux_plc.Df1.{Address}
use tux_plc.Df1.Addressing.{
  zero_address, set_file, name_sub, number_sub, sub_element, step, skip, switch, address_loop,
  calc_address,
}

-- The letters of the data files that are numbered, with the type and the size of an element.
pub data IsFile : ℕ → ℕ → ℕ → Type 0 where
  status : IsFile b'S' 0x84 2
  bits : IsFile b'B' 0x85 2
  timer : IsFile b'T' 0x86 2
  counter : IsFile b'C' 0x87 2
  control : IsFile b'R' 0x88 2
  integer : IsFile b'N' 0x89 2
  floating : IsFile b'F' 0x8a 4

switch-file :
    {c ty sz : ℕ} (cs : List ℕ) (a : Address)
    → IsFile c ty sz
    → switch c cs a ≡ skip (set_file a ty sz cs)
unfolding switch
switch-file cs a status = refl
switch-file cs a bits = refl
switch-file cs a timer = refl
switch-file cs a counter = refl
switch-file cs a control = refl
switch-file cs a integer = refl
switch-file cs a floating = refl

switch-digit : (d : ℕ) (cs : List ℕ) (a : Address) → IsDigit d → switch d cs a ≡ step a
unfolding switch
switch-digit d cs a h = ground arith

address_loop-digits :
    (ds t : List ℕ) (a : Address)
    → All IsDigit ds
    → address_loop false (ds ++ t) a ≡ address_loop false t a
unfolding address_loop
address_loop-digits [] t a h = refl
address_loop-digits (d ∷ ds) t a h =
    rw (switch-digit d (ds ++ t) a h.0, address_loop) (address_loop-digits ds t a h.1)

-- The three kinds of steps of the loop.
loop-file :
    {c ty sz : ℕ} (d : ℕ) (cs : List ℕ) (a : Address)
    → IsFile c ty sz
    → address_loop false (c ∷ d ∷ cs) a ≡ address_loop false cs (set_file a ty sz (d ∷ cs))
unfolding address_loop
loop-file d cs a file = rw (switch-file (d ∷ cs) a file, address_loop) refl

loop-colon :
    (d : ℕ) (cs : List ℕ) (a : Address)
    → address_loop false (b':' ∷ d ∷ cs) a
      ≡ address_loop false cs (record a { ele_number = byte_of (atoi (d ∷ cs)) })
unfolding address_loop switch
loop-colon d cs a = refl

loop-slash : (cs : List ℕ) (a : Address) → address_loop false (b'/' ∷ cs) a ≡ sub_element cs a
unfolding address_loop switch
loop-slash cs a = refl

name_sub-digit :
    (b : ℕ) (bs : List ℕ) (n : ℕ) (name : List ℕ) (value : ℕ) (a : Address)
    → IsDigit b
    → b'a' ≤ n
    → n ≤ b'z'
    → name_sub (b ∷ bs) (n ∷ name) value a ≡ a
unfolding name_sub
name_sub-digit b bs n name value a h low high = rw (differs b n h low high) refl
  where
    differs : (x y : ℕ) → IsDigit x → b'a' ≤ y → y ≤ b'z' → (to_lower x == to_lower y) ≡ false
    differs x y h low high = ground arith

number_sub-digits :
    (b : ℕ) (bs : List ℕ) (a : Address)
    → IsDigit b
    → All IsDigit bs
    → number_sub (b ∷ bs) a ≡ record a { s_ele_number = digits_value 0 (b ∷ bs) % 256 }
unfolding number_sub
number_sub-digits b bs a digit digits =
    rw (digit-is_digit b digit, atoi-digits_only b bs digit digits) refl

sub_element-digits :
    (b : ℕ) (bs : List ℕ) (a : Address)
    → IsDigit b
    → All IsDigit bs
    → sub_element (b ∷ bs) a ≡ record a { s_ele_number = digits_value 0 (b ∷ bs) % 256 }
unfolding sub_element
sub_element-digits b bs a digit digits =
    let a' = record a { s_ele_number = digits_value 0 (b ∷ bs) % 256 } in
    rw
      (
        number_sub-digits b bs a digit digits,
        name_sub-digit b bs b'a' (b'c' ∷ b'c' ∷ []) 2 a' digit (omega arith) (omega arith),
        name_sub-digit b bs b'p' (b'r' ∷ b'e' ∷ []) 1 a' digit (omega arith) (omega arith),
        name_sub-digit b bs b'l' (b'e' ∷ b'n' ∷ []) 1 a' digit (omega arith) (omega arith),
        name_sub-digit b bs b'p' (b'o' ∷ b's' ∷ []) 2 a' digit (omega arith) (omega arith),
        name_sub-digit b bs b'e' (b'n' ∷ []) 13 a' digit (omega arith) (omega arith),
        name_sub-digit b bs b't' (b't' ∷ []) 14 a' digit (omega arith) (omega arith),
        name_sub-digit b bs b'd' (b'n' ∷ []) 15 a' digit (omega arith) (omega arith),
      )
      refl

module _ {c ty sz : ℕ} (file : IsFile c ty sz) (f e : ℕ) (fs es : List ℕ) (file_digit : IsDigit f)
    (file_digits : All IsDigit fs) (element_digit : IsDigit e)
    (element_digits : All IsDigit es) where
  -- The address up to the element, with `s` in its sub-element.
  abbrev pub element : ℕ → Address
  element s = record {
    size = sz;
    file_number = digits_value 0 (f ∷ fs) % 256;
    file_type = ty;
    ele_number = digits_value 0 (e ∷ es) % 256;
    s_ele_number = s;
  }

  up_to_element :
      (t : List ℕ)
      → Stops t
      → calc_address (c ∷ f ∷ fs ++ (b':' ∷ e ∷ es ++ t)) ≡ address_loop false t (element 0)
  unfolding calc_address set_file
  up_to_element t stops =
      let whole = f ∷ fs ++ (b':' ∷ e ∷ es ++ t) in
      let a1 = record zero_address {
        size = sz;
        file_number = byte_of (atoi whole);
        file_type = ty;
      } in
      loop-file f (fs ++ (b':' ∷ e ∷ es ++ t)) zero_address file
      ∙ address_loop-digits fs (b':' ∷ e ∷ es ++ t) a1 file_digits
      ∙ loop-colon e (es ++ t) a1
      ∙ address_loop-digits es t (record a1 { ele_number = byte_of (atoi (e ∷ es ++ t)) })
          element_digits
      ∙ rw
          (
            atoi-digits f fs (b':' ∷ e ∷ es ++ t) file_digit file_digits refl,
            atoi-digits e es t element_digit element_digits stops,
          )
          refl

  -- An address of a numbered file and an element, in digits: the file's type and size, and the two
  -- numbers modulo 256; the sub-element is 0.
  pub calc_address-element : calc_address (c ∷ f ∷ fs ++ (b':' ∷ e ∷ es ++ [])) ≡ element 0
  unfolding address_loop
  calc_address-element = up_to_element [] tt

  -- An address of a numbered file, an element and a bit, in digits: the file's type and size, and
  -- the three numbers modulo 256, the bit's as the sub-element.
  pub calc_address-bit :
      (b : ℕ) (bs : List ℕ)
      → IsDigit b
      → All IsDigit bs
      → calc_address (c ∷ f ∷ fs ++ (b':' ∷ e ∷ es ++ b'/' ∷ b ∷ bs))
        ≡ element (digits_value 0 (b ∷ bs) % 256)
  calc_address-bit b bs digit digits =
      up_to_element (b'/' ∷ b ∷ bs) refl
      ∙ loop-slash (b ∷ bs) (element 0)
      ∙ sub_element-digits b bs (element 0) digit digits
