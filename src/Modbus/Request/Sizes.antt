-- ===== src/Modbus/Request/Sizes.antt =====
-- The length of the requests that the builders make.
use tux_plc.Base.{
  ℕ, ◌+◌, ◌*◌, ◌≤◌, ◌≡◌, refl, inl, inr, List, ◌++◌, arith, Bool-cases, length, get_or, ltb, ◌==◌,
  Option, none, some, if◌then◌else◌,
}
use tux_plc.Modbus.{Iec, max_pdu_size}
use tux_plc.Modbus.Request.{
  mbap, clamped, build_request, read_limit, read_pdu, read_request, build_read_request,
}
use tux_plc.Modbus.Request.Writes.{Floats, Shape, single_pdu, multiple_pdu}

-- The Length field of a request counts the bytes behind it, and the whole is at most the 260 bytes
-- of a Modbus TCP unit.
abbrev pub IsFrame : List ℕ → Type 0
IsFrame r = (256 * get_or r 4 0 + get_or r 5 0 + 6 ≡ length r) × (length r ≤ 260)

-- NULL, or a request of that form.
abbrev pub IsFramed : Option (List ℕ) → Type 0
IsFramed none = Unit
IsFramed (some r) = IsFrame r

mbap-IsFrame :
    (t u size : ℕ) (body : List ℕ)
    → length body ≡ size
    → size ≤ 253
    → IsFrame (mbap t u size ++ body)
unfolding mbap
mbap-IsFrame t u size body same h = (omega (arith, same), omega (arith, same))

-- _MBBuild_Request makes no request, or one whose Length field counts the bytes behind it, of at
-- most 260 bytes.
pub build_request-IsFramed :
    (t u : ℕ) (values : List ℕ) → IsFramed (build_request t u values).request
unfolding build_request
build_request-IsFramed t u values = elim (Bool-cases (ltb max_pdu_size (length values))) [
  | inl e ↦ rw e tt
  | inr e ↦
      (let small : length values ≤ 253 = ground arith in
        rw e (mbap-IsFrame t u (length values) values refl small))
]

read_request-IsFramed :
    (t u function address number : ℕ) (limit : Option ℕ)
    → IsFramed (read_request t u function address number limit).request
unfolding read_request
read_request-IsFramed t u function address number none = tt
read_request-IsFramed t u function address number (some limit) =
    mbap-IsFrame t u 5 (read_pdu function address (clamped limit number)) refl (omega arith)

-- _MBBuild_Read_Request makes, for every function and number, no request or one whose Length field
-- counts the bytes behind it, of at most 260 bytes.
pub build_read_request-IsFramed :
    (t u function address number : ℕ)
    → IsFramed (build_read_request t u function address number).request
unfolding build_read_request
build_read_request-IsFramed t u function address number =
    read_request-IsFramed t u function address number (read_limit function)

module _ (f : Floats) where
  open f use {Float}

  pdu : ℕ → Iec → ℕ → (ℕ → Float) → Shape → List ℕ
  pdu function ty address values s =
      if s.number == 0
      then single_pdu f function s address values
      else multiple_pdu f function ty s address values
