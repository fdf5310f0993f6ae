-- ===== src/Modbus/Client.antt =====
-- The requests of MBClient.c: reads, writes and the mask write of registers.
pub mod Replies
use tux_plc.Base.{
  ℕ, zero, suc, ◌+◌, ◌-◌, ◌*◌, ◌/◌, ◌%◌, Bool, true, false, not, List, [], ◌∷◌, ltb, leb, ◌==◌,
  Option, none, some, if◌then◌else◌,
}
use tux_plc.Base.Int.{negsuc, ℤ, pos, ◌==ℤ◌}
use tux_plc.Modbus.{
  Iec, iec_unk, MbError, no_error, internal, modbus_error, mb_bad_parameter, mb_time_out,
  mb_unsolicited_msg, mb_success, mask_write_register, iec_byte, data_size,
}
use tux_plc.Modbus.Link.{
  Net, Client, Act, ◌>>=◌, ◌>>◌, pure, mberror, send_data_wait_reply, length_field,
}
use tux_plc.Modbus.Request.{Built, build_request, build_read_request, mask_pdu}
use tux_plc.Modbus.Request.Writes.{Floats, build_write_request}
use tux_plc.Modbus.Table.{Entry, entry, get_address, get_c_f_index, offset_in}
use tux_plc.Modbus.Values.{Reply}
use tux_plc.Modbus.Words.{mbswap_16, word_at}

-- mb_write_rsp, and mb_maskwrite_rsp, whose Address is not swapped back.
pub record WriteReply : Type 0 where
  pub function : ℕ
  pub address : ℕ
  pub number : ℕ

pub record MaskReply : Type 0 where
  pub function : ℕ
  pub address : ℕ
  pub and_mask : ℕ
  pub or_mask : ℕ

-- The checks on a reply that the three requests make: the transaction, an exception, the function.
unfoldable pub reply_error : ℕ → ℕ → (ℕ → ℕ) → Option MbError
reply_error transaction_id func m =
    if not (mbswap_16 (word_at m 0) == transaction_id)
    then some (internal mb_unsolicited_msg)
    else if m 7 == func + 0x80
    then some (record { kind = modbus_error; code = pos (m 8) })
    else if not (m 7 == func)
    then some (internal mb_unsolicited_msg)
    else none

-- memcpy of the data of a reply behind its byte count: Length-3 bytes. (Below 3 the size is
-- negative, which C takes for a huge one.)
unfoldable pub read_reply : Iec → ℕ → ℕ → (ℕ → ℕ) → (ℕ → ℕ) → Reply
read_reply data_type add number junk m = record {
  function = m 7;
  number = number % 65536;
  data_type = data_type;
  base_address = add;
  body = λ i. if ltb i (length_field m - 3) then m (9 + i) else junk i;
}

unfoldable pub write_reply : (ℕ → ℕ) → WriteReply
write_reply m = record {
  function = m 7;
  address = mbswap_16 (word_at m 8);
  number = mbswap_16 (word_at m 10);
}

unfoldable pub mask_reply : (ℕ → ℕ) → MaskReply
mask_reply m = record {
  function = m 7;
  address = word_at m 8;
  and_mask = mbswap_16 (word_at m 10);
  or_mask = mbswap_16 (word_at m 12);
}

-- A type that the mask write does not serve is reported, and the request is sent all the same.
abbrev pub mask_type_error : Iec → Option MbError
mask_type_error Iec.iec_int = none
mask_type_error Iec.iec_dint = none
mask_type_error _ = some (internal mb_bad_parameter)

-- number>1
abbrev pub is_many : ℤ → Bool
is_many (pos n) = ltb 1 n
is_many (negsuc n) = false

module _ {net : Net} where
  -- The MBERROR of a builder, if it made one.
  abbrev pub report : Option MbError → Act net Unit
  report none = pure tt
  report (some e) = mberror e

  -- No reply: _MBRead_Raw and _MBRead_Ext take a missing error for a time-out.
  abbrev pub no_reply : Bool → Act net Unit
  no_reply true c = if c.err.code ==ℤ mb_success then mberror (internal mb_time_out) c else (tt, c)
  no_reply false c = (tt, c)

  unfoldable pub checked : {A : Type 0} → A → Option MbError → Act net (Option A)
  checked result (some e) = do mberror e; pure none
  checked result none = pure (some result)

  -- What is done with a reply, or none.
  unfoldable pub take_reply :
      {A : Type 0} → Bool → ℕ → ℕ → ((ℕ → ℕ) → A) → Option (ℕ → ℕ) → Act net (Option A)
  take_reply timing transaction_id func result none = do no_reply timing; pure none
  take_reply timing transaction_id func result (some m) =
      checked (result m) (reply_error transaction_id func m)

  -- From a built request to the result.
  unfoldable pub transact :
      {A : Type 0} → Bool → ℤ → ℕ → ℕ → ℕ → ((ℕ → ℕ) → A) → Option (List ℕ) → Act net (Option A)
  transact timing sock timeout transaction_id func result none = pure none
  transact timing sock timeout transaction_id func result (some r) = do
    m ← send_data_wait_reply sock r timeout
    take_reply timing transaction_id func result m

  abbrev pub bad_address : {A : Type 0} → Act net (Option A)
  bad_address = do mberror (internal mb_bad_parameter); pure none

  -- Behind the search: `count` is the number of items to ask for.
  unfoldable pub read_entry : ℤ → ℕ → ℕ → ℕ → Iec → ℕ → ℕ → ℕ → ℕ → Act net (Option Reply)
  read_entry sock timeout tid unit data_type func add number count = do
    let b = build_read_request tid unit func add count
    report b.reported
    transact true sock timeout tid func (read_reply data_type add number net.junk) b.request

  -- _MBRead_Raw.
  unfoldable pub read_raw : ℤ → ℕ → ℕ → ℕ → List ℕ → ℕ → Act net (Option Reply)
  read_raw sock timeout tid unit address number = do
    mberror no_error
    elim (get_c_f_index address) [
      | none ↦ bad_address
      | some i ↦
          read_entry sock timeout tid unit iec_unk (entry i).read_function
            (offset_in (entry i) (get_address address)) number number
    ]

  -- _MBRead_Ext: a type of more than two bytes takes two registers.
  unfoldable pub read_ext : ℤ → ℕ → ℕ → ℕ → List ℕ → ℕ → Act net (Option Reply)
  read_ext sock timeout tid unit address number = do
    mberror no_error
    elim (get_c_f_index address) [
      | none ↦ bad_address
      | some i ↦
          read_entry sock timeout tid unit (entry i).data_type (entry i).read_function
            (offset_in (entry i) (get_address address)) number
            (if ltb 2 (data_size (entry i).data_type) then 2 * number else number)
    ]

  -- _MBWrite_Ext.
  unfoldable pub write_ext :
      (f : Floats) → ℤ → ℕ → ℕ → ℕ → List ℕ → ℤ → (ℕ → f.Float) → Act net (Option WriteReply)
  write_ext f sock timeout tid unit address number values = do
    mberror no_error
    elim (get_c_f_index address) [
      | none ↦ bad_address
      | some i ↦
          (let func =
              if is_many number then (entry i).mwrite_function else (entry i).write_function in
            let b =
              build_write_request f tid unit func (entry i).data_type
                (offset_in (entry i) (get_address address)) number values in
            (do report b.reported; transact false sock timeout tid func write_reply b.request))
    ]

  -- _MBMask_Write.
  unfoldable pub mask_write : ℤ → ℕ → ℕ → ℕ → List ℕ → ℕ → ℕ → Act net (Option MaskReply)
  mask_write sock timeout tid unit address and_mask or_mask = do
    mberror no_error
    elim (get_c_f_index address) [
      | none ↦ bad_address
      | some i ↦
          (let b =
              build_request tid unit
                (mask_pdu (offset_in (entry i) (get_address address)) and_mask or_mask) in
            (do
              report (mask_type_error (entry i).data_type)
              report b.reported
              transact false sock timeout tid mask_write_register mask_reply b.request))
    ]

-- MBGet_Transaction_Id: ++Transaction_Id, of an unsigned short.
unfoldable pub next_transaction_id : ℕ → ℕ
next_transaction_id transaction_id = (transaction_id + 1) % 65536
