-- ===== src/Tuxeip/Requests.antt =====
-- The typed reads and writes of PLC.c, as PCCC requests in messages of the router or on a connection.
-- What a DHP_Header adds to an unconnected request does not fit the block that is allocated for it, and is
-- not modelled.
pub mod Replies
use tux_plc.Base.{
  ℕ, ◌+◌, ◌-◌, ◌*◌, ◌/◌, ◌%◌, Bool, not, ◌&&◌, List, [], ◌∷◌, ◌++◌, length, ltb, leb, ◌==◌, Option,
  none, some, if◌then◌else◌, held,
}
use tux_plc.Base.Int.{ℤ, pos, negsuc, is_neg}
use tux_plc.Base.Memory.{Memory, laid, bytes_from}
use tux_plc.Modbus.Words.{word_at, word_row, dword_row}
use tux_plc.Tuxeip.Pccc.{PlcRead, decode_pccc, encode_plc_data_type, get_plc_data_size, minus}
use tux_plc.Tuxeip.Eip.{Session, e_error}
use tux_plc.Tuxeip.Link.{
  Net, CipAct, ◌>>=◌, ◌>>◌, pure, ciperror, internal, internal_error, CipErrorType, pccc_error,
  e_unsolicited_msg, e_unsupported_data_type, e_plc, sys_failure,
}
use tux_plc.Tuxeip.Manager.{
  unconnected_send, priority, timeout_ticks, originator_vendor_id, originator_serial_number,
}
use tux_plc.Tuxeip.Router.{MrReply, build_mr_request, get_mr_data, mr_status}
use tux_plc.Tuxeip.Session.{Connection, connected_send}

abbrev pub execute_pccc_service : ℕ
execute_pccc_service = 0x4b

abbrev pub pccc_path : List ℕ
pccc_path = 0x20 ∷ 0x67 ∷ 0x24 ∷ 0x01 ∷ []

-- Logical_Binary_Address.
pub record LogicalBinaryAddress : Type 0 where
  pub size : ℕ
  pub address : Memory
  pub mask : ℕ

abbrev pub address_row : LogicalBinaryAddress → List ℕ
address_row a = bytes_from a.address 0 a.size

-- PCCC_SLCRW_Request.
abbrev pub slcrw_row : ℕ → ℕ → ℕ → ℕ → List ℕ
slcrw_row cmd tns fnc trans = cmd ∷ 0 ∷ (word_row tns ++ (fnc ∷ (word_row 0 ++ word_row trans)))

-- _BuildPLCReadDataRequest.
unfoldable pub build_plc_read_data_request : ℕ → LogicalBinaryAddress → ℕ → List ℕ
build_plc_read_data_request tns a number =
    slcrw_row 0x0F tns 0x68 number ++ (address_row a ++ word_row number)

abbrev written_row :
    ℕ → LogicalBinaryAddress → ℕ → Memory → Option (List ℕ) → Option ℕ → Option (List ℕ)
written_row tns a number values (some row) (some size) = some (
    slcrw_row 0x0F tns 0x67 number
    ++ (address_row a ++ (row ++ bytes_from values 0 (number * size))))
written_row tns a number values _ _ = none

-- _BuildPLCWriteDataRequest, of one value or more; a type without a size makes no request.
unfoldable pub build_plc_write_data_request :
    ℕ → LogicalBinaryAddress → ℕ → ℕ → Memory → Option (List ℕ)
build_plc_write_data_request tns a number datatype values =
    written_row tns a number values (encode_plc_data_type datatype number)
      (get_plc_data_size datatype)

-- PCCC_Requestor_ID.
abbrev pub requestor_row : List ℕ
requestor_row = 7 ∷ (word_row originator_vendor_id ++ dword_row originator_serial_number)

-- The message of the router around a PCCC request.
unfoldable pub pccc_request : List ℕ → List ℕ
pccc_request request = build_mr_request execute_pccc_service pccc_path (requestor_row ++ request)

-- A PCCC reply: its memory and its size.
pub record PcccReply : Type 0 where
  pub memory : Memory
  pub size : ℕ

abbrev pub with_mask : ℕ → Option PlcRead → Option (PlcRead × ℕ)
with_mask mask none = none
with_mask mask (some r) = some (r, mask)

module _ {net : Net} where
  -- The CIPERROR of a status.
  abbrev pub pccc_status : Memory → CipAct net Unit
  pccc_status p =
      if p 1 == 0
      then pure tt
      else ciperror (record {
        kind = pccc_error;
        no = pos (p 1);
        ext_no = if p 1 == 0xF0 then pos (p 4) else pos 0;
      })

  abbrev pub pccc_failure : ℕ → CipAct net (Option PcccReply)
  pccc_failure line = do
    ciperror (record { kind = internal_error; no = e_plc; ext_no = pos line })
    pure none

  -- The PCCC reply of a size at an offset.
  unfoldable pub sized_pccc : ℕ → Memory → ℕ → ℤ → CipAct net (Option PcccReply)
  sized_pccc line r off (negsuc n) = pccc_failure line
  sized_pccc line r off (pos n) = do
    pccc_status (λ i. r (off + i))
    pure (some (record { memory = laid net.junk 0 n (λ i. r (off + i)); size = n }))

  -- The data of a message of the router, of a size: a requestor, whose first byte is its length, and the
  -- PCCC reply behind it.
  unfoldable pub requestor_reply : ℕ → Memory → ℤ → CipAct net (Option PcccReply)
  requestor_reply line r (negsuc n) = do mr_status r; pure none
  requestor_reply line r (pos n) =
      let at = get_mr_data r in sized_pccc line r (at + r at) (minus (pos n) (r at))

  unfoldable pub unconnected_pccc : Option MrReply → CipAct net (Option PcccReply)
  unconnected_pccc none = pure none
  unconnected_pccc (some r) =
      if r.memory 2 == 0
      then requestor_reply 341 r.memory (minus (pos r.size) (get_mr_data r.memory))
      else pure none

  -- _SendUnConnectedPCCCRequest without a DHP_Header.
  unfoldable pub send_unconnected_pccc_request :
      Session → List ℕ → List ℕ → CipAct net (Option PcccReply)
  send_unconnected_pccc_request s request route = do
    ciperror (internal (pos 0))
    r ← unconnected_send s priority timeout_ticks (pccc_request request) route
    unconnected_pccc r

  -- A message of the router in a connected data item: the test on its size is unsigned, and lets a
  -- negative one pass.
  unfoldable pub connected_pccc : Option Memory → CipAct net (Option PcccReply)
  connected_pccc none = pure none
  connected_pccc (some t) =
      let size = minus (pos (word_at t 2)) 2 in
      let r : Memory = λ i. t (6 + i) in
      if not (is_neg size) && ltb (word_at t 2 - 2) 4
      then pccc_failure 410
      else if not (r 0 == execute_pccc_service + 0x80)
      then (do ciperror (internal e_unsolicited_msg); pure none)
      else requestor_reply 437 r (minus size (get_mr_data r))

  -- The PCCC reply behind a DHP_Header.
  unfoldable pub connected_dhp : Option Memory → CipAct net (Option PcccReply)
  connected_dhp none = pure none
  connected_dhp (some t) =
      if leb (word_at t 2) 10
      then pccc_failure 488
      else sized_pccc 488 t 14 (pos (word_at t 2 - 10))

  -- _SendConnectedPCCCRequest, with the row of a DHP_Header or none.
  unfoldable pub send_connected_pccc_request :
      Connection → Option (List ℕ) → List ℕ → CipAct net (Option PcccReply × Connection)
  send_connected_pccc_request k none request = do
    (o, k') ← connected_send k (held (pccc_request request)) (length (pccc_request request))
    r ← connected_pccc o
    pure (r, k')
  send_connected_pccc_request k (some dhp) request = do
    (o, k') ← connected_send k (held (dhp ++ request)) (length (dhp ++ request))
    r ← connected_dhp o
    pure (r, k')

  -- The PLC_Read with the address's mask.
  unfoldable pub decoded_read : ℕ → Option PcccReply → CipAct net (Option (PlcRead × ℕ))
  decoded_read mask none = pure none
  decoded_read mask (some p) = do
    ciperror (record { kind = pccc_error; no = pos (p.memory 1); ext_no = pos 0 })
    pure (with_mask mask (decode_pccc p.memory))

  -- _ReadPLCData_Ex, without a connection and with one.
  unfoldable pub read_plc_data :
      Session → List ℕ → ℕ → LogicalBinaryAddress → ℕ → CipAct net (Option (PlcRead × ℕ))
  read_plc_data s route tns a number = do
    r ← send_unconnected_pccc_request s (build_plc_read_data_request tns a number) route
    decoded_read a.mask r

  unfoldable pub read_plc_data_connected :
      Connection
      → Option (List ℕ)
      → ℕ
      → LogicalBinaryAddress
      → ℕ
      → CipAct net (Option (PlcRead × ℕ) × Connection)
  read_plc_data_connected k dhp tns a number = do
    (o, k') ← send_connected_pccc_request k dhp (build_plc_read_data_request tns a number)
    r ← decoded_read a.mask o
    pure (r, k')

  unfoldable pub written_status : Option PcccReply → CipAct net ℤ
  written_status none = pure e_error
  written_status (some p) = do
    ciperror (record { kind = pccc_error; no = pos (p.memory 1); ext_no = pos 0 })
    pure (pos (p.memory 1))

  -- _WritePLCData for a request that was built.
  unfoldable pub write_plc_data : Session → List ℕ → List ℕ → CipAct net ℤ
  write_plc_data s route request = do
    r ← send_unconnected_pccc_request s request route
    written_status r

  unfoldable pub write_plc_data_connected :
      Connection → Option (List ℕ) → List ℕ → CipAct net (ℤ × Connection)
  write_plc_data_connected k dhp request = do
    (o, k') ← send_connected_pccc_request k dhp request
    r ← written_status o
    pure (r, k')
