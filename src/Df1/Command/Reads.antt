-- ===== src/Df1/Command/Reads.antt =====
-- What read_A2 and read_integer return when the PLC answers.
use tux_plc.Base.{
  ltb, false, ℕ, ◌+◌, ◌-◌, ◌≤◌, ◌<◌, ◌≡◌, ◌≢◌, refl, ap, sym, ◌∙◌, List, arith, ==_self, ==_ne,
}
use tux_plc.Base.Bits.{u16, word_of}
use tux_plc.Base.Int.{pos}
use tux_plc.Df1.{slc, success, error_tns_mismatch, Msg, Address, zero_msg}
use tux_plc.Df1.Addressing.{calc_address}
use tux_plc.Df1.Buffers.{memcpy}
use tux_plc.Df1.Command.{
  read_variable, bzeroed, check_reply, read_a2, read_integer, read_message, next_tns,
}
use tux_plc.Df1.Command.Exchange.{Fits-short, answer, exchanged, exchange-answer}
use tux_plc.Df1.Port.{Port, done}
use tux_plc.Df1.Port.Waiting.{waiting, flowing}
use tux_plc.Df1.Receive.Delivers.{IsMsg, Carries, received, store-Carries}
use tux_plc.Df1.Send.Frame.{Fits}

-- The global transaction number behind ++tns, and the port with it.
abbrev pub new_tns : Port → ℕ
new_tns p = u16 (p.tns + 1)

abbrev pub counted : Port → Port
counted p = record p { tns = new_tns p }

pub check_reply-good :
    (sent r : Msg) → r.tns ≡ sent.tns → r.sts ≡ 0 → check_reply sent (success, r) ≡ (success, r)
unfolding check_reply
check_reply-good sent r same ok = rw (same, ok, ==_self sent.tns) refl

pub check_reply-tns :
    (sent r : Msg) → r.tns ≢ sent.tns → check_reply sent (success, r) ≡ (error_tns_mismatch, r)
unfolding check_reply
check_reply-tns sent r ne = rw (==_ne r.tns sent.tns ne) refl

check_reply-sts :
    (sent r : Msg) → r.tns ≡ sent.tns → r.sts ≢ 0 → check_reply sent (success, r) ≡ (pos r.sts, r)
unfolding check_reply
check_reply-sts sent r same ne = rw (same, ==_self sent.tns, ==_ne r.sts 0 ne) refl

-- An address of no more bytes than the variable has.
pub not_wider : (width size : ℕ) → size ≤ width → ltb width size ≡ false
not_wider width size h = ground (arith, h)

memcpy_inside : (into from : ℕ → ℕ) (n i : ℕ) → i < n → memcpy into 0 from n i ≡ from i
memcpy_inside into from n i h = ground (arith, ap from {x = i - 0} {y = i} (omega arith))

memcpy_outside : (into from : ℕ → ℕ) (n i : ℕ) → n ≤ i → memcpy into 0 from n i ≡ into i
memcpy_outside into from n i h = ground arith

module _ (a : Address) (reply : Msg) (rest : List ℕ) (p : Port) (fuel : ℕ) (fits : Fits reply)
    (valid : IsMsg reply) (enough : reply.size + 7 < fuel) (memory : ℕ → ℕ) (size : ℕ) where
  abbrev pub request_sent : Msg
  request_sent = read_message (new_tns p) a

  abbrev pub after : Port
  after = exchanged request_sent rest (counted p)

  arrived : Carries reply (received zero_msg reply)
  arrived = store-Carries reply zero_msg valid fits

  request-Fits : Fits request_sent
  request-Fits = Fits-short request_sent (unfold read_message in omega arith)

  -- The PLC acknowledges the request, and sends a message that fits a frame, with the transaction
  -- number of the request and status 0: read_A2 returns SUCCESS. The first address.size bytes from
  -- the value on are the reply's data as far as the reply goes; behind them, those within the size
  -- that it was given are 0, and all others are as they were.
  pub read_a2-answer :
      reply.tns ≡ new_tns p
      → reply.sts ≡ 0
      → (v : ℕ → ℕ) × (read_a2 fuel a memory size (waiting (answer reply rest) (flowing p))
          ≡ done (success, v) after)
        × ((i : ℕ) → i < a.size → i < reply.size → v i ≡ reply.body i)
        × ((i : ℕ) → a.size ≤ i → v i ≡ bzeroed memory size i)
  unfolding read_a2 next_tns read_message
  read_a2-answer same ok = (
    memcpy (bzeroed memory size) 0 (received zero_msg reply).body a.size,
    rw
        (
          exchange-answer request_sent reply rest (counted p) fuel request-Fits fits valid enough,
          check_reply-good request_sent (received zero_msg reply) (arrived.tns ∙ same)
              (arrived.sts ∙ ok),
        )
        refl,
    λ i h k.
        memcpy_inside (bzeroed memory size) (received zero_msg reply).body a.size i h
        ∙ arrived.body i k,
    λ i h. memcpy_outside (bzeroed memory size) (received zero_msg reply).body a.size i h,
  )

  -- The PLC acknowledges the request of read_A2 and replies with another transaction number:
  -- ERROR_TNS_MISMATCH, and the value is cleared.
  pub read_a2-tns :
      reply.tns ≢ new_tns p
      → read_a2 fuel a memory size (waiting (answer reply rest) (flowing p))
        ≡ done (error_tns_mismatch, bzeroed memory size) after
  unfolding read_a2 next_tns read_message
  read_a2-tns ne =
      rw
        (
          exchange-answer request_sent reply rest (counted p) fuel request-Fits fits valid enough,
          check_reply-tns request_sent (received zero_msg reply) (λ e. ne (sym arrived.tns ∙ e)),
        )
        refl

  -- The PLC acknowledges the request of read_A2 and replies with its transaction number and a
  -- status other than 0: the status is returned, and the value is cleared.
  pub read_a2-sts :
      reply.tns ≡ new_tns p
      → reply.sts ≢ 0
      → read_a2 fuel a memory size (waiting (answer reply rest) (flowing p))
        ≡ done (pos reply.sts, bzeroed memory size) after
  unfolding read_a2 next_tns read_message
  read_a2-sts same ne =
      rw
        (
          exchange-answer request_sent reply rest (counted p) fuel request-Fits fits valid enough,
          check_reply-sts request_sent (received zero_msg reply) (arrived.tns ∙ same)
              (λ e. ne (sym arrived.sts ∙ e)),
          arrived.sts,
          ==_ne reply.sts 0 ne,
        )
        refl

-- read_integer on the text of an address of two bytes: where the PLC acknowledges and
-- replies to this request with status 0 and at least two bytes, the result is SUCCESS and the word
-- of the reply's first two bytes, the low one first; the request was written and an ACK sent.
pub read_integer-answer :
    (straddress : List ℕ) (reply : Msg) (rest : List ℕ) (p : Port) (fuel : ℕ)
    → Fits reply
    → IsMsg reply
    → reply.size + 7 < fuel
    → (calc_address straddress).size ≡ 2
    → 2 ≤ reply.size
    → reply.tns ≡ new_tns p
    → reply.sts ≡ 0
    → read_integer fuel slc straddress (waiting (answer reply rest) (flowing p))
      ≡ done
          (success, word_of (reply.body 0) (reply.body 1))
          (exchanged (read_message (new_tns p) (calc_address straddress)) rest (counted p))
unfolding read_integer read_variable
read_integer-answer straddress reply rest p fuel fits valid enough two long same ok =
    let (v, run, low, high) =
      read_a2-answer (calc_address straddress) reply rest p fuel fits valid enough (λ _. 0) 2 same
        ok in
    rw
      (
        run,
        not_wider 2 (calc_address straddress).size (omega (arith, two)),
        low 0 (omega (arith, two)) (omega arith),
        low 1 (omega (arith, two)) (omega arith),
      )
      refl
