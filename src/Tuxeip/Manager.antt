-- ===== src/Tuxeip/Manager.antt =====
-- The connection manager, CM.c, and the connections of AB.c.
pub mod Unconnected
use tux_plc.Base.{
  take, ℕ, suc, ◌+◌, ◌-◌, ◌*◌, ◌/◌, ◌%◌, Bool, true, false, ◌&&◌, ◌||◌, List, [], ◌∷◌, ◌++◌, length,
  ltb, ◌==◌, Option, none, some, if◌then◌else◌, held,
}
use tux_plc.Base.Int.{ℤ, pos}
use tux_plc.Base.Memory.{Memory, bytes_from}
use tux_plc.Modbus.Words.{dword_at, word_row, dword_row}
use tux_plc.Tuxeip.Eip.{Session, e_error}
use tux_plc.Tuxeip.Link.{
  Net, CipAct, ◌>>=◌, ◌>>◌, pure, ciperror, internal, e_unsolicited_msg, e_nothing_to_send,
}
use tux_plc.Tuxeip.Router.{MrReply, mr_status, get_mr_data, ex_send_mr_request, send_mr_request}
use tux_plc.Tuxeip.Session.{Connection}

abbrev pub forward_close_service : ℕ
forward_close_service = 0x4e

abbrev pub unconnected_send_service : ℕ
unconnected_send_service = 0x52

abbrev pub forward_open_service : ℕ
forward_open_service = 0x54

abbrev pub cm_path : List ℕ
cm_path = 0x20 ∷ 0x06 ∷ 0x24 ∷ 0x01 ∷ []

abbrev pub router_path : List ℕ
router_path = 0x20 ∷ 0x02 ∷ 0x24 ∷ 0x01 ∷ []

abbrev pub dhpa_proxy_path : List ℕ
dhpa_proxy_path = 0x20 ∷ 0xA6 ∷ 0x24 ∷ 0x01 ∷ 0x2C ∷ 0x01 ∷ []

abbrev pub dhpb_proxy_path : List ℕ
dhpb_proxy_path = 0x20 ∷ 0xA6 ∷ 0x24 ∷ 0x02 ∷ 0x2C ∷ 0x01 ∷ []

-- The initial values of the module's variables.
abbrev pub originator_vendor_id : ℕ
originator_vendor_id = 1030

abbrev pub originator_serial_number : ℕ
originator_serial_number = 0x12345678

abbrev pub priority : ℕ
priority = 0x0A

abbrev pub timeout_ticks : ℕ
timeout_ticks = 0x05

abbrev pub transport : ℕ
transport = 0xa3

abbrev pub timeout_multiplier : ℕ
timeout_multiplier = 0x01

-- Plc_Type and DHP_Channel.
pub data PlcType : Type 0 where
  unknow : PlcType
  plc5 : PlcType
  slc500 : PlcType
  lgx : PlcType

pub data DhpChannel : Type 0 where
  channel_a : DhpChannel
  channel_b : DhpChannel

abbrev pub parameters_of : PlcType → ℕ
parameters_of plc5 = 0x4302
parameters_of slc500 = 0x4302
parameters_of _ = 0x43f8

abbrev pub proxy_path : DhpChannel → List ℕ
proxy_path channel_a = dhpa_proxy_path
proxy_path channel_b = dhpb_proxy_path

-- The byte that makes a row even.
abbrev pub pad : List ℕ → List ℕ
pad l = if length l % 2 == 1 then 0 ∷ [] else []

-- The bytes of a route path that _UnconnectedSend is given: its size is a CIP_USINT.
abbrev pub usint_path : List ℕ → List ℕ
usint_path route = take (length route % 256) route

-- The request of _UnconnectedSend with a route of at most 255 bytes.
unfoldable pub unconnected_request : ℕ → ℕ → List ℕ → List ℕ → List ℕ
unconnected_request prio ticks mr route =
    prio
    ∷ ticks
    ∷ (word_row (length mr)
        ++ ((mr ++ pad mr) ++ (length route % 256 / 2 ∷ 0 ∷ (route ++ pad route))))

-- The words of a path, in Forward_Open and Forward_Close.
abbrev pub path_words : List ℕ → ℕ
path_words path = if length path % 2 == 1 then length path / 2 + 1 else length path / 2

-- What a caller of _Forward_Open chooses.
pub record Opening : Type 0 where
  pub prio : ℕ
  pub ticks : ℕ
  pub to_conn_id : ℕ
  pub serial_number : ℕ
  pub vendor_id : ℕ
  pub originator_serial : ℕ
  pub multiplier : ℕ
  pub rpi : ℕ
  pub parameters : ℕ
  pub trans : ℕ

unfoldable pub forward_open_request : Opening → List ℕ → List ℕ
forward_open_request o path =
    o.prio
    ∷ o.ticks
    ∷ (dword_row 0
        ++ (dword_row o.to_conn_id
            ++ (word_row o.serial_number
                ++ (word_row o.vendor_id
                    ++ (dword_row o.originator_serial
                        ++ ((o.multiplier ∷ 0 ∷ 0 ∷ 0 ∷ [])
                            ++ (dword_row (1000 * o.rpi)
                                ++ (word_row o.parameters
                                    ++ (dword_row (1000 * o.rpi)
                                        ++ (word_row o.parameters
                                            ++ (o.trans
                                                ∷ path_words path
                                                ∷ (path ++ pad path))))))))))))

unfoldable pub forward_close_request : ℕ → ℕ → ℕ → ℕ → ℕ → List ℕ → List ℕ
forward_close_request prio ticks serial vendor oserial path =
    prio
    ∷ ticks
    ∷ (word_row serial
        ++ (word_row vendor ++ (dword_row oserial ++ (path_words path ∷ 0 ∷ (path ++ pad path)))))

-- The connection that _Forward_Open makes of a reply, whose status it does not look at.
unfoldable pub opened : Session → Opening → List ℕ → MrReply → Connection
opened s o path r = record {
  session = s;
  serial_number = o.serial_number;
  vendor_id = o.vendor_id;
  originator_serial = o.originator_serial;
  ot_conn_id = dword_at r.memory (get_mr_data r.memory);
  to_conn_id = dword_at r.memory (get_mr_data r.memory + 4);
  packet = 0;
  path_size = length path;
  path = held path;
}

-- The service of a reply that _UnconnectedSend takes; with a route, it may be its own.
abbrev pub is_reply_to : Bool → ℕ → ℕ → Bool
is_reply_to routed service got =
    (routed && got == unconnected_send_service + 0x80) || got == service + 0x80

module _ {net : Net} where
  -- _Forward_Open.
  unfoldable pub forward_open : Session → Opening → List ℕ → CipAct net (Option Connection)
  forward_open s o path = do
    r ← send_mr_request s forward_open_service cm_path (forward_open_request o path)
    pure (elim r [ none ↦ none | some r' ↦ some (opened s o path r') ])

  unfoldable pub close_status : Option MrReply → CipAct net ℤ
  close_status none = pure e_error
  close_status (some r) = do mr_status r.memory; pure (pos (r.memory 2))

  -- _ExForward_Close.
  unfoldable pub ex_forward_close : Session → ℕ → ℕ → ℕ → ℕ → ℕ → List ℕ → CipAct net ℤ
  ex_forward_close s prio ticks serial vendor oserial path = do
    r ←
        send_mr_request s forward_close_service cm_path
          (forward_close_request prio ticks serial vendor oserial path)
    close_status r

  -- _Forward_Close.
  unfoldable pub forward_close : Connection → CipAct net ℤ
  forward_close k =
      ex_forward_close k.session priority timeout_ticks k.serial_number k.vendor_id
        k.originator_serial (bytes_from k.path 0 k.path_size)

  -- What _UnconnectedSend does with a reply.
  unfoldable pub unconnected_reply : Bool → ℕ → Option MrReply → CipAct net (Option MrReply)
  unconnected_reply routed service none = pure none
  unconnected_reply routed service (some r) =
      if is_reply_to routed service (r.memory 0)
      then (do mr_status r.memory; pure (some r))
      else (do ciperror (internal e_unsolicited_msg); pure none)

  -- _UnconnectedSend, with a request of one byte or more, the first of which is its service, and a route of
  -- at most 255 bytes.
  unfoldable pub send_over : Session → ℕ → ℕ → List ℕ → List ℕ → CipAct net (Option MrReply)
  send_over s prio ticks [] route = do ciperror (internal e_nothing_to_send); pure none
  send_over s prio ticks (service ∷ mr) [] = do
    r ← ex_send_mr_request s (service ∷ mr)
    unconnected_reply false service r
  send_over s prio ticks (service ∷ mr) (x ∷ route) = do
    r ←
        send_mr_request s unconnected_send_service cm_path
          (unconnected_request prio ticks (service ∷ mr) (x ∷ route))
    unconnected_reply true service r

  -- _UnconnectedSend, with a route of any length.
  unfoldable pub unconnected_send : Session → ℕ → ℕ → List ℕ → List ℕ → CipAct net (Option MrReply)
  unconnected_send s prio ticks mr route = send_over s prio ticks mr (usint_path route)

  -- The parameters that _ConnectPLCOverCNET and _ConnectPLCOverDHP choose by the type of the PLC, and the
  -- module's values in place of most of what they are given.
  unfoldable pub connect_plc_over :
      Session → PlcType → ℕ → ℕ → ℕ → List ℕ → CipAct net (Option Connection)
  connect_plc_over s plc to_conn_id serial rpi path =
      forward_open s
        (record {
          prio = priority;
          ticks = timeout_ticks;
          to_conn_id = to_conn_id;
          serial_number = serial;
          vendor_id = originator_vendor_id;
          originator_serial = originator_serial_number;
          multiplier = timeout_multiplier;
          rpi = rpi;
          parameters = parameters_of plc;
          trans = transport;
        })
        path

  -- _ConnectPLCOverCNET.
  unfoldable pub connect_plc_over_cnet :
      Session → PlcType → ℕ → ℕ → ℕ → List ℕ → CipAct net (Option Connection)
  connect_plc_over_cnet s plc to_conn_id serial rpi path =
      connect_plc_over s plc to_conn_id serial rpi (path ++ router_path)

  -- _ConnectPLCOverDHP.
  unfoldable pub connect_plc_over_dhp :
      Session → PlcType → ℕ → ℕ → ℕ → DhpChannel → List ℕ → CipAct net (Option Connection)
  connect_plc_over_dhp s plc to_conn_id serial rpi channel path =
      connect_plc_over s plc to_conn_id serial rpi (path ++ proxy_path channel)
