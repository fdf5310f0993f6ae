-- ===== src/Modbus/Link.antt =====
-- The transfers of MBCommon.c. The socket calls are a parameter: `Net` is their state and what
-- they return; a client is that state with the error that MBERROR set last. malloc and realloc
-- are taken to succeed, and `junk` is the memory that malloc returns.
pub mod Stream
pub use tux_plc.Base.Net.{Selected, expired, failed, readable, other, Net, stored, stored_if}
use tux_plc.Base.{
  ℕ, zero, suc, ◌+◌, ◌-◌, ◌*◌, ◌/◌, ◌%◌, Bool, true, false, List, [], ◌∷◌, length, get_or, ltb, leb,
  ◌==◌, ◌&&◌, Option, none, some, if◌then◌else◌,
}
use tux_plc.Base.Int.{ℤ, pos, negsuc, ◌==ℤ◌, is_neg}
use tux_plc.Modbus.{
  MbError, no_error, internal, sys_error, mb_success, mb_error, mb_time_out, mb_bad_socket,
  mb_rcv_error,
}
use tux_plc.Modbus.Words.{mbswap_16, word_at}

-- sizeof(_MBEmptyBuff)
abbrev pub empty_size : ℕ
empty_size = 512

abbrev pub length_or_failure : Option (List ℕ) → ℤ
length_or_failure none = mb_error
length_or_failure (some l) = pos (length l)

-- The number of bytes of a request, by its Length field.
abbrev pub to_send : List ℕ → ℕ
to_send request = 6 + mbswap_16 (word_at (λ i. get_or request i 0) 4)

-- The length field in memory.
abbrev pub length_field : (ℕ → ℕ) → ℕ
length_field m = mbswap_16 (word_at m 4)

module _ (net : Net) where
  open net use {State, select, send, recv, errno, junk}

  pub record Client : Type 0 where
    pub link : State
    pub err : MbError

-- An operation on a client that returns a value.
abbrev pub Act : Net → Type 0 → Type 0
Act net A = Client net → A × Client net

module _ {net : Net} where
  open net use {State, select, send, recv, errno, junk}

  infix 4 ◌>>=◌
  abbrev pub ◌>>=◌ : {A B : Type 0} → Act net A → (A → Act net B) → Act net B
  (m >>= k) c = let (a, d) = m c in k a d

  infix 4 ◌>>◌
  abbrev pub ◌>>◌ : {A B : Type 0} → Act net A → Act net B → Act net B
  (m >> k) c = let (a, d) = m c in k d

  abbrev pub pure : {A : Type 0} → A → Act net A
  pure a c = (a, c)

  -- MBERROR.
  abbrev pub mberror : MbError → Act net Unit
  mberror e c = (tt, record c { err = e })

  abbrev pub sys_failure : Act net Unit
  sys_failure c = (tt, record c { err = record { kind = sys_error; code = pos (errno c.link) } })

  abbrev pub call : {A : Type 0} → (State → A × State) → Act net A
  call f c = let (a, s) = f c.link in (a, record c { link = s })

  -- The switch of _MBEmptyBuffer.
  unfoldable pub empty_selected : Selected → Act net ℤ
  empty_selected expired = pure mb_success
  empty_selected failed = do sys_failure; pure mb_error
  empty_selected readable = do r ← call (recv empty_size); pure (length_or_failure r)
  empty_selected other = pure mb_success

  unfoldable pub empty_buffer : ℤ → Act net ℤ
  empty_buffer sock =
      if is_neg sock
      then (do mberror (internal mb_bad_socket); pure mb_error)
      else (do mberror no_error; r ← call (select 0); empty_selected r)

  abbrev pub code_of : Act net ℤ
  code_of c = (c.err.code, c)

  -- _MBSendData.
  unfoldable pub send_data : ℤ → List ℕ → Act net ℤ
  send_data sock request =
      if is_neg sock then (do mberror (internal mb_bad_socket); pure mb_error) else (do
        empty_buffer sock
        mberror no_error
        res ← call (send request)
        if res ==ℤ pos (to_send request) then pure mb_success else (do sys_failure; code_of))

  -- The second recv, of the bytes behind the header; what it returns is not looked at. The Length
  -- is compared as it stands in memory, with its bytes exchanged. Length 0 makes the block a byte
  -- smaller than the header.
  unfoldable pub recv_rest : (ℕ → ℕ) → Act net (Option (ℕ → ℕ))
  recv_rest m =
      if ltb 1 (word_at m 4)
      then (do r ← call (recv (length_field m - 1)); pure (some (stored_if 7 r m)))
      else pure (some m)

  unfoldable pub recv_header : Option (List ℕ) → Act net (Option (ℕ → ℕ))
  recv_header none = do sys_failure; pure none
  recv_header (some []) = do sys_failure; pure none
  recv_header (some (x ∷ xs)) = recv_rest (stored 0 (x ∷ xs) junk)

  unfoldable pub recv_selected : Selected → Act net (Option (ℕ → ℕ))
  recv_selected expired = do mberror (internal mb_time_out); pure none
  recv_selected failed = do sys_failure; pure none
  recv_selected readable = do r ← call (recv 7); recv_header r
  recv_selected other = do mberror (internal mb_rcv_error); pure none

  -- _MBRecvData: each way through the loop's body returns. The result is the reply's memory.
  unfoldable pub recv_data : ℤ → ℕ → Act net (Option (ℕ → ℕ))
  recv_data sock timeout = do
    mberror no_error
    if is_neg sock
        then (do mberror (internal mb_bad_socket); pure none)
        else (do r ← call (select timeout); recv_selected r)

  -- _MBSendData_WaitReply.
  unfoldable pub send_data_wait_reply : ℤ → List ℕ → ℕ → Act net (Option (ℕ → ℕ))
  send_data_wait_reply sock request timeout = do
    empty_buffer sock
    res ← send_data sock request
    if res ==ℤ mb_success then recv_data sock timeout else pure none
