-- ===== src/Tuxeip/Router.antt =====
-- The message router's requests and replies, MR.c. A request is the list of its bytes; a reply is memory
-- with its size.
pub mod Replies
use tux_plc.Base.{
  ℕ, ◌+◌, ◌-◌, ◌*◌, ◌/◌, ◌%◌, Bool, List, [], ◌∷◌, ◌++◌, length, ltb, ◌==◌, Option, none, some,
  if◌then◌else◌, held,
}
use tux_plc.Base.Bits.{u16}
use tux_plc.Base.Int.{ℤ, pos, negsuc}
use tux_plc.Base.Memory.{Memory, laid}
use tux_plc.Modbus.Words.{word_at, dword_at}
use tux_plc.Tuxeip.Pccc.{int_of_longword, minus}
use tux_plc.Tuxeip.Eip.{
  Session, get_data_item, e_error, item_null, item_ucm, item_connected_tp, item_ot_socket_info,
}
use tux_plc.Tuxeip.Link.{Net, CipAct, ◌>>=◌, ◌>>◌, pure, ciperror, mr_error, sys_failure}
use tux_plc.Tuxeip.Session.{send_rr_data, eip_status}

-- A CIP_INT in memory.
abbrev pub int_of_word : ℕ → ℤ
int_of_word w = if ltb w 0x8000 then pos w else negsuc (0xffff - w)

-- MR_Reply in memory: Service, Reserved, General_Status and Add_Status_Size. _GetMRExtendedStatus.
unfoldable pub get_mr_extended_status : Memory → ℤ
get_mr_extended_status r =
    if r 3 == 1
    then int_of_word (word_at r 4)
    else if r 3 == 2
    then int_of_longword (dword_at r 4)
    else pos 0

-- The offset that _GetMRData returns.
abbrev pub get_mr_data : Memory → ℕ
get_mr_data r = 4 + 2 * r 3

-- Where the message of a data item begins, and its size.
abbrev pub message_offset : ℕ → ℕ
message_offset t =
    if t == item_ucm
    then 4
    else if t == item_connected_tp
    then 6
    else if t == item_ot_socket_info
    then 28
    else 4

abbrev pub message_size : ℕ → ℕ → ℤ
message_size t length =
    if t == item_connected_tp
    then minus (pos length) 2
    else if t == item_ot_socket_info
    then minus (pos length) 28
    else pos length

-- _GetMRReply.
unfoldable pub get_mr_reply : Memory → Option ℕ
get_mr_reply m = elim (get_data_item m) [
  | none ↦ none
  | some off ↦ some (off + message_offset (word_at m off))
]

-- _GetMRReplySize.
unfoldable pub get_mr_reply_size : Memory → ℤ
get_mr_reply_size m = elim (get_data_item m) [
  | none ↦ pos 0
  | some off ↦ message_size (word_at m off) (word_at m (off + 2))
]

-- _GetMRDataSize.
unfoldable pub get_mr_data_size : Memory → ℤ
get_mr_data_size m = elim (get_mr_reply m) [
  | none ↦ e_error
  | some off ↦ minus (get_mr_reply_size m) (4 + 2 * m (off + 3))
]

-- _BuildMRRequest. The size of the path is a byte, and is counted in words.
unfoldable pub build_mr_request : ℕ → List ℕ → List ℕ → List ℕ
build_mr_request service path row = service ∷ length path / 2 ∷ (path ++ row)

pub record MrReply : Type 0 where
  pub memory : Memory
  pub size : ℕ

module _ {net : Net} where
  abbrev pub mr_status : Memory → CipAct net Unit
  mr_status r =
      ciperror (record { kind = mr_error; no = pos (r 2); ext_no = get_mr_extended_status r })

  -- The copy of the reply: malloc of a negative size fails.
  unfoldable pub copied_reply : Memory → ℕ → ℤ → CipAct net (Option MrReply)
  copied_reply m off (negsuc n) = do sys_failure; pure none
  copied_reply m off (pos n) = do
    let r = laid net.junk 0 n (λ i. m (off + i))
    mr_status r
    pure (some (record { memory = r; size = n }))

  unfoldable pub routed_reply : Option Memory → CipAct net (Option MrReply)
  routed_reply none = pure none
  routed_reply (some m) = elim (get_mr_reply m) [
    | none ↦ do eip_status m; pure none
    | some off ↦ copied_reply m off (get_mr_reply_size m)
  ]

  -- _ExSendMRRequest.
  unfoldable pub ex_send_mr_request : Session → List ℕ → CipAct net (Option MrReply)
  ex_send_mr_request s request = do
    r ←
        send_rr_data s (record { type_id = item_null; length = 0; rest = held [] }) none
          (record { type_id = item_ucm; length = u16 (length request); rest = held [] })
          (some (held request))
    routed_reply r

  -- _SendMRRequest.
  unfoldable pub send_mr_request : Session → ℕ → List ℕ → List ℕ → CipAct net (Option MrReply)
  send_mr_request s service path row = ex_send_mr_request s (build_mr_request service path row)
