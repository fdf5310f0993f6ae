-- ===== src/Tuxeip/Session.antt =====
-- The sessions of Ethernet_IP.c, over the transfers.
pub mod Register
pub mod Connected
use tux_plc.Base.{
  ℕ, ◌+◌, ◌*◌, ◌/◌, ◌%◌, Bool, not, ◌||◌, List, [], ◌∷◌, ◌++◌, ltb, ◌==◌, Option, none, some,
  if◌then◌else◌, held,
}
use tux_plc.Base.Bits.{u16}
use tux_plc.Base.Int.{ℤ, pos, is_neg}
use tux_plc.Base.Memory.{Memory, laid}
use tux_plc.Modbus.Words.{word_at, dword_at, word_row, dword_row}
use tux_plc.Tuxeip.Pccc.{int_of_longword}
use tux_plc.Tuxeip.Eip.{
  Frame, Session, Item, build_request, get_data_item, e_error, eip_registersession,
  eip_unregistersession, eip_listservices, eip_listidentity, eip_listinterfaces, eip_sendrrdata,
  eip_sendunitdata, item_connection_based, item_connected_tp,
}
use tux_plc.Tuxeip.Link.{
  Net, CipAct, ◌>>=◌, ◌>>◌, pure, ciperror, internal, CipErrorType, eip_error, e_timeout,
  e_connection_failed, e_unsolicited_msg, cip_send_data, cip_recv_data, cip_send_data_wait_reply,
}

-- Eip_Connection, with the path behind it. The packet number is kept as its 16 bits.
pub record Connection : Type 0 where
  pub session : Session
  pub serial_number : ℕ
  pub vendor_id : ℕ
  pub originator_serial : ℕ
  pub ot_conn_id : ℕ
  pub to_conn_id : ℕ
  pub packet : ℕ
  pub path_size : ℕ
  pub path : Memory

-- The status of a header, as the int that it is returned as.
abbrev pub status_of : Memory → ℤ
status_of m = int_of_longword (dword_at m 8)

abbrev pub command_frame : Session → ℕ → Frame
command_frame s command = record {
  command = command;
  length = 0;
  session_handle = s.handle;
  context_l = s.context_l;
  context_h = s.context_h;
  block = held [];
}

abbrev pub register_frame : Session → Frame
register_frame s = record (command_frame s eip_registersession) {
  length = 4;
  block = held (word_row 1 ++ word_row 0);
}

-- The copy of the data item at an offset of a reply.
abbrev pub item_at : Memory → Memory → ℕ → Memory
item_at junk m off = laid junk 0 (4 + word_at m (off + 2)) (λ i. m (off + i))

module _ {net : Net} where
  abbrev pub eip_status : Memory → CipAct net Unit
  eip_status m = ciperror (record { kind = eip_error; no = status_of m; ext_no = pos 0 })

  -- _OpenSession, with what _CipOpenSock returns.
  unfoldable pub open_session : ℤ → ℕ → CipAct net (Option Session)
  open_session sock timeout =
      if is_neg sock then (do ciperror (internal e_connection_failed); pure none) else (do
        ciperror (internal (pos 0))
        pure (
            some (record {
              sock = sock;
              handle = 0;
              context_l = 0;
              context_h = 0;
              timeout = timeout;
            })))

  -- What _RegisterSession does with a reply.
  unfoldable pub registered : Session → Option Memory → CipAct net (ℤ × Session)
  registered s none = do ciperror (internal e_timeout); pure (e_error, s)
  registered s (some m) =
      if not (word_at m 0 == eip_registersession)
      then (do ciperror (internal e_unsolicited_msg); pure (e_error, s))
      else (do
        eip_status m
        pure (status_of m, if dword_at m 8 == 0 then record s { handle = dword_at m 4 } else s))

  -- _RegisterSession behind the sending.
  unfoldable pub register_sent : Session → ℤ → CipAct net (ℤ × Session)
  register_sent s res =
      if is_neg res then pure (res, s) else (do r ← cip_recv_data s.timeout; registered s r)

  -- _RegisterSession.
  unfoldable pub register_session : Session → CipAct net (ℤ × Session)
  register_session s0 = do
    let s = record s0 { handle = 0 }
    ciperror (internal (pos 0))
    res ← cip_send_data (register_frame s)
    register_sent s res

  -- _UnRegisterSession.
  unfoldable pub unregister_session : Session → CipAct net ℤ
  unregister_session s = do
    ciperror (internal (pos 0))
    cip_send_data (command_frame s eip_unregistersession)

  unfoldable pub list_reply : ℕ → Option Memory → CipAct net (Option Memory)
  list_reply command none = do ciperror (internal e_timeout); pure none
  list_reply command (some m) =
      if not (word_at m 0 == command)
      then (do ciperror (internal e_unsolicited_msg); pure none)
      else (do eip_status m; pure (if dword_at m 8 == 0 then some m else none))

  -- The body of the three functions below.
  unfoldable pub list_command : ℕ → Session → CipAct net (Option Memory)
  list_command command s = do
    ciperror (internal (pos 0))
    res ← cip_send_data (command_frame s command)
    if is_neg res then pure none else (do r ← cip_recv_data s.timeout; list_reply command r)

  unfoldable pub list_services : Session → CipAct net (Option Memory)
  list_services = list_command eip_listservices

  unfoldable pub list_identity : Session → CipAct net (Option Memory)
  list_identity = list_command eip_listidentity

  unfoldable pub list_interfaces : Session → CipAct net (Option Memory)
  list_interfaces = list_command eip_listinterfaces

  -- _SendData.
  unfoldable pub eip_send_data :
      Session → ℕ → Item → Option Memory → Item → Option Memory → CipAct net ℤ
  eip_send_data s command a adress t d = do
    ciperror (internal (pos 0))
    cip_send_data (record (build_request s a adress t d s.timeout) { command = command })

  -- _SendData_WaitReply.
  unfoldable pub eip_send_data_wait_reply :
      Session → ℕ → Item → Option Memory → Item → Option Memory → CipAct net (Option Memory)
  eip_send_data_wait_reply s command a adress t d = do
    ciperror (internal (pos 0))
    cip_send_data_wait_reply (record (build_request s a adress t d s.timeout) { command = command })
        s.timeout

  -- _SendRRData and _SendUnitData.
  unfoldable pub send_rr_data :
      Session → Item → Option Memory → Item → Option Memory → CipAct net (Option Memory)
  send_rr_data s = eip_send_data_wait_reply s eip_sendrrdata

  unfoldable pub send_unit_data :
      Session → Item → Option Memory → Item → Option Memory → CipAct net (Option Memory)
  send_unit_data s = eip_send_data_wait_reply s eip_sendunitdata

  -- What _ConnectedSend does with the data item of a reply.
  unfoldable pub connected_item : ℕ → Memory → Option ℕ → CipAct net (Option Memory)
  connected_item packet m none = do eip_status m; pure none
  connected_item packet m (some off) =
      if not (word_at m 0 == eip_sendunitdata) || not (word_at m (off + 4) == packet)
      then (do ciperror (internal e_unsolicited_msg); pure none)
      else (do eip_status m; pure (some (item_at net.junk m off)))

  unfoldable pub connected_reply : ℕ → Option Memory → CipAct net (Option Memory)
  connected_reply packet none = pure none
  connected_reply packet (some m) = connected_item packet m (get_data_item m)

  -- _ConnectedSend: the reply's data item, and the connection with its next packet number.
  unfoldable pub connected_send : Connection → Memory → ℕ → CipAct net (Option Memory × Connection)
  connected_send k request size = do
    let packet = u16 (k.packet + 1)
    r ←
        eip_send_data_wait_reply k.session eip_sendunitdata
          (record {
            type_id = item_connection_based;
            length = 0;
            rest = held (dword_row k.ot_conn_id);
          })
          none
          (record { type_id = item_connected_tp; length = u16 size; rest = held (word_row packet) })
          (some request)
    t ← connected_reply packet r
    pure (t, record k { packet = packet })
