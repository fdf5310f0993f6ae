-- ===== src/Df1/Command/Exchange.antt =====
-- A whole exchange with the PLC: the request is acknowledged, and the reply's frame follows.
use tux_plc.Base.{ℕ, ◌+◌, ◌≤◌, ◌<◌, ◌≡◌, refl, List, [], ◌∷◌, ◌++◌, arith}
use tux_plc.Df1.{dle, ack, success, Msg, zero_msg}
use tux_plc.Df1.Buffers.Rows.{length-escape}
use tux_plc.Df1.Command.{check_reply, exchange}
use tux_plc.Df1.Port.{Port, done}
use tux_plc.Df1.Port.Waiting.{waiting, written, flowing}
use tux_plc.Df1.Receive.Delivers.{IsMsg, received, rcv_df1-frame, length-message}
use tux_plc.Df1.Send.Answers.{send_df1-naks-ack}
use tux_plc.Df1.Send.Frame.{frame, message, Fits}

-- A message of at most 100 bytes of data fits, however many DLE it holds.
pub Fits-short : (m : Msg) → m.size ≤ 100 → Fits m
Fits-short m h = (omega arith, omega (arith, length-escape (message m), length-message m))

-- The line acknowledges, and sends the frame of a reply.
abbrev pub answer : Msg → List ℕ → List ℕ
answer reply rest = dle ∷ ack ∷ (frame reply ++ rest)

-- The port behind the exchange: the request was written, then an ACK.
abbrev pub exchanged : Msg → List ℕ → Port → Port
exchanged sent rest p = written (dle ∷ ack ∷ []) (waiting rest (flowing (written (frame sent) p)))

pub exchange-answer :
    (sent reply : Msg) (rest : List ℕ) (p : Port) (fuel : ℕ)
    → Fits sent
    → Fits reply
    → IsMsg reply
    → reply.size + 7 < fuel
    → exchange fuel sent (waiting (answer reply rest) (flowing p))
      ≡ done (check_reply sent (success, received zero_msg reply)) (exchanged sent rest p)
unfolding exchange
exchange-answer sent reply rest p fuel sends replies v h =
    rw
      (
        send_df1-naks-ack sent sends (frame reply ++ rest) p 0 fuel (omega arith) (omega arith),
        rcv_df1-frame reply zero_msg rest (flowing (written (frame sent) p)) fuel v replies h,
      )
      refl
