-- ===== src/Modbus/Request.antt =====
-- The builders of requests of MBClient.c. A request is the row of bytes from its MBAP header on;
-- malloc is taken to succeed.
pub mod Writes
pub mod Shapes
pub mod Sizes
use tux_plc.Base.{
  ℕ, zero, suc, ◌+◌, ◌-◌, ◌*◌, ◌/◌, ◌%◌, Bool, true, false, List, [], ◌∷◌, ◌++◌, length, ltb, leb,
  ◌==◌, ◌||◌, Option, none, some, if◌then◌else◌,
}
use tux_plc.Base.Int.{ℤ}
use tux_plc.Modbus.{
  MbError, internal, mb_bad_parameter, mb_size_clamped, mb_pdu_too_large, max_pdu_size, read_coils,
  read_inputs, read_holding_register, read_input_register, max_read_coils_number,
  max_read_registers_number, mask_write_register,
}
use tux_plc.Modbus.Words.{mbswap_16, word_row}

-- What MBERROR was called with, if it was, and the request, if it is not NULL.
pub record Built : Type 0 where
  pub reported : Option MbError
  pub request : Option (List ℕ)
  -- Whether the builder writes behind the block that it allocates, which C leaves undefined; no request
  -- is modelled then.
  pub past_block : Bool

-- The MBAP header before `size` bytes.
unfoldable pub mbap : ℕ → ℕ → ℕ → List ℕ
mbap transaction_id unit_id size =
    word_row (mbswap_16 transaction_id)
    ++ (word_row 0 ++ (word_row (mbswap_16 (size + 1)) ++ unit_id % 256 ∷ []))

-- _MBBuild_Request.
unfoldable pub build_request : ℕ → ℕ → List ℕ → Built
build_request transaction_id unit_id values =
    if ltb max_pdu_size (length values)
    then record { reported = some (internal mb_pdu_too_large); request = none; past_block = false }
    else record {
      reported = none;
      request = some (mbap transaction_id unit_id (length values) ++ values);
      past_block = false;
    }

-- The largest number that a reading function takes; `none` for another function.
abbrev pub read_limit : ℕ → Option ℕ
read_limit function =
    if function == read_coils || function == read_inputs
    then some max_read_coils_number
    else if function == read_holding_register || function == read_input_register
    then some max_read_registers_number
    else none

-- mb_read_req.
abbrev pub read_pdu : ℕ → ℕ → ℕ → List ℕ
read_pdu function address number =
    function % 256 ∷ word_row (mbswap_16 address) ++ word_row (mbswap_16 number)

-- The clamp to the limit, which is reported.
abbrev pub clamped : ℕ → ℕ → ℕ
clamped limit number = if ltb limit number then limit else number

abbrev pub clamp_error : ℕ → ℕ → Option MbError
clamp_error limit number = if ltb limit number then some (internal mb_size_clamped) else none

-- _MBBuild_Read_Request, whose cases differ in the limit.
unfoldable pub read_request : ℕ → ℕ → ℕ → ℕ → ℕ → Option ℕ → Built
read_request transaction_id unit_id function address number none = record {
  reported = some (internal mb_bad_parameter);
  request = none;
  past_block = false;
}
read_request transaction_id unit_id function address number (some limit) = record {
  reported = clamp_error limit number;
  past_block = false;
  request =
      some (mbap transaction_id unit_id 5 ++ read_pdu function address (clamped limit number));
}

unfoldable pub build_read_request : ℕ → ℕ → ℕ → ℕ → ℕ → Built
build_read_request transaction_id unit_id function address number =
    read_request transaction_id unit_id function address number (read_limit function)

-- mb_maskwrite_req.
abbrev pub mask_pdu : ℕ → ℕ → ℕ → List ℕ
mask_pdu address and_mask or_mask =
    mask_write_register ∷ word_row (mbswap_16 address)
    ++ (word_row (mbswap_16 and_mask) ++ word_row (mbswap_16 or_mask))
