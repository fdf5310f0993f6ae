-- ===== src/Tuxeip/Link.antt =====
-- The transfers of SendData.c over the socket calls. A client is the state of those calls with the error
-- that CIPERROR set last.
pub mod Stream
use tux_plc.Base.{ℕ, ◌+◌, Bool, List, [], ◌∷◌, length, ltb, Option, none, some, if◌then◌else◌}
use tux_plc.Base.Int.{ℤ, pos, negsuc, is_neg}
use tux_plc.Base.Memory.{Memory}
pub use tux_plc.Base.Net.{Selected, expired, failed, readable, other, Net, stored, stored_if}
use tux_plc.Modbus.Words.{word_at}
use tux_plc.Tuxeip.Eip.{Frame, frame_bytes, e_error}

-- Error_type.
pub data CipErrorType : Type 0 where
  internal_error : CipErrorType
  sys_error : CipErrorType
  eip_error : CipErrorType
  mr_error : CipErrorType
  cm_error : CipErrorType
  ab_error : CipErrorType
  pccc_error : CipErrorType

-- The type, number and extended number that CIPERROR sets.
pub record CipError : Type 0 where
  pub kind : CipErrorType
  pub no : ℤ
  pub ext_no : ℤ

abbrev pub internal : ℤ → CipError
internal n = record { kind = internal_error; no = n; ext_no = pos 0 }

abbrev pub e_timeout : ℤ
e_timeout = negsuc 4

abbrev pub e_connection_failed : ℤ
e_connection_failed = negsuc 5

abbrev pub e_unsolicited_msg : ℤ
e_unsolicited_msg = negsuc 6

abbrev pub e_nothing_to_send : ℤ
e_nothing_to_send = negsuc 7

abbrev pub e_item_unknow : ℤ
e_item_unknow = negsuc 9

abbrev pub e_invalid_reply : ℤ
e_invalid_reply = negsuc 19

abbrev pub e_out_of_range : ℤ
e_out_of_range = negsuc 20

abbrev pub e_unsupported_service : ℤ
e_unsupported_service = negsuc 21

abbrev pub e_unsupported_data_type : ℤ
e_unsupported_data_type = negsuc 23

abbrev pub e_rcv_timeout : ℤ
e_rcv_timeout = negsuc 40

abbrev pub e_rcv_error : ℤ
e_rcv_error = negsuc 42

abbrev pub e_plc : ℤ
e_plc = negsuc 100

abbrev pub e_lgx : ℤ
e_lgx = negsuc 101

-- sizeof(_CIPEmptyBuff)
abbrev pub cip_empty_size : ℕ
cip_empty_size = 512

abbrev pub received : Option (List ℕ) → ℤ
received none = e_error
received (some l) = pos (length l)

module _ (net : Net) where
  open net use {State}

  pub record CipClient : Type 0 where
    pub link : State
    pub err : CipError

abbrev pub CipAct : Net → Type 0 → Type 0
CipAct net A = CipClient net → A × CipClient net

module _ {net : Net} where
  open net use {State, select, send, recv, errno, junk}

  infix 4 ◌>>=◌
  abbrev pub ◌>>=◌ : {A B : Type 0} → CipAct net A → (A → CipAct net B) → CipAct net B
  (m >>= k) c = let (a, d) = m c in k a d

  infix 4 ◌>>◌
  abbrev pub ◌>>◌ : {A B : Type 0} → CipAct net A → CipAct net B → CipAct net B
  (m >> k) c = let (a, d) = m c in k d

  abbrev pub pure : {A : Type 0} → A → CipAct net A
  pure a c = (a, c)

  -- CIPERROR.
  abbrev pub ciperror : CipError → CipAct net Unit
  ciperror e c = (tt, record c { err = e })

  abbrev pub sys_failure : CipAct net Unit
  sys_failure c =
      (tt, record c { err = record { kind = sys_error; no = pos (errno c.link); ext_no = pos 0 } })

  abbrev pub call : {A : Type 0} → (State → A × State) → CipAct net A
  call f c = let (a, s) = f c.link in (a, record c { link = s })

  abbrev pub cip_empty_selected : Selected → CipAct net ℤ
  cip_empty_selected expired = pure (pos 0)
  cip_empty_selected failed = do sys_failure; pure e_error
  cip_empty_selected readable = do r ← call (recv cip_empty_size); pure (received r)
  cip_empty_selected other = pure (pos 0)

  -- _CIPEmptyBuffer.
  unfoldable pub cip_empty_buffer : CipAct net ℤ
  cip_empty_buffer = do ciperror (internal (pos 0)); r ← call (select 0); cip_empty_selected r

  -- _CipSendData.
  unfoldable pub cip_send_data : Frame → CipAct net ℤ
  cip_send_data f = do cip_empty_buffer; call (send (frame_bytes f))

  -- The two calls of recv. What they return is not looked at: a header that did not come is junk.
  unfoldable pub cip_recv_body : Memory → CipAct net (Option Memory)
  cip_recv_body m =
      if ltb 0 (word_at m 2)
      then (do r ← call (recv (word_at m 2)); pure (some (stored_if 24 r m)))
      else pure (some m)

  abbrev pub cip_recv_selected : Selected → CipAct net (Option Memory)
  cip_recv_selected expired = do ciperror (internal e_rcv_timeout); pure none
  cip_recv_selected failed = do sys_failure; pure none
  cip_recv_selected readable = do r ← call (recv 24); cip_recv_body (stored_if 0 r junk)
  cip_recv_selected other = do ciperror (internal e_rcv_error); pure none

  -- _CipRecvData: each way through the loop's body returns.
  unfoldable pub cip_recv_data : ℕ → CipAct net (Option Memory)
  cip_recv_data timeout = do
    ciperror (internal (pos 0))
    r ← call (select timeout)
    cip_recv_selected r

  -- _CipSendData_WaitReply.
  unfoldable pub cip_send_data_wait_reply : Frame → ℕ → CipAct net (Option Memory)
  cip_send_data_wait_reply f timeout = do cip_empty_buffer; cip_send_data f; cip_recv_data timeout
