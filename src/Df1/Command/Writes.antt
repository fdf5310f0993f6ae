-- ===== src/Df1/Command/Writes.antt =====
-- What write_AB and write_boolean send, and what they return when the PLC answers.
use tux_plc.Base.{ℕ, ◌+◌, ◌≤◌, ◌<◌, ◌≡◌, refl, ◌∙◌, List, arith, if◌then◌else◌}
use tux_plc.Base.Int.{ℤ, pos, ◌==ℤ◌}
use tux_plc.Df1.{slc, success, Msg, Address, zero_msg}
use tux_plc.Df1.Addressing.{calc_address}
use tux_plc.Df1.Command.{
  bit_mask, bit_message, write_ab, write_boolean, write_message, write_aa, next_tns,
}
use tux_plc.Df1.Command.Exchange.{Fits-short, answer, exchanged, exchange-answer}
use tux_plc.Df1.Command.Reads.{new_tns, counted, check_reply-good}
use tux_plc.Df1.Port.{Port, done}
use tux_plc.Df1.Port.Waiting.{waiting, flowing}
use tux_plc.Df1.Receive.Delivers.{IsMsg, Carries, received, store-Carries}
use tux_plc.Df1.Send.Frame.{Fits}

module _ (reply : Msg) (rest : List ℕ) (p : Port) (fuel : ℕ) (fits : Fits reply)
    (valid : IsMsg reply) (enough : reply.size + 7 < fuel) (same : reply.tns ≡ new_tns p)
    (ok : reply.sts ≡ 0) where
  arrived : Carries reply (received zero_msg reply)
  arrived = store-Carries reply zero_msg valid fits

  write_ab-answer :
      (a : Address) (value mask : ℕ)
      → write_ab fuel a value mask (waiting (answer reply rest) (flowing p))
        ≡ done success (exchanged (bit_message (new_tns p) a value mask) rest (counted p))
  unfolding write_ab next_tns bit_message
  write_ab-answer a value mask =
      let sent = bit_message (new_tns p) a value mask in
      rw
        (
          exchange-answer sent reply rest (counted p) fuel (Fits-short sent (omega arith)) fits
              valid enough,
          check_reply-good sent (received zero_msg reply) (arrived.tns ∙ same) (arrived.sts ∙ ok),
        )
        refl

  -- write_boolean, where the PLC acknowledges and replies to this request with status 0: SUCCESS,
  -- and the one frame that was written masks the one bit of the address, and holds that bit
  -- where the value is not 0, and no bit where it is 0.
  pub write_boolean-answer :
      (straddress : List ℕ) (value : ℤ)
      → write_boolean fuel slc straddress value (waiting (answer reply rest) (flowing p))
        ≡ done success (
            exchanged
              (bit_message
                (new_tns p)
                (calc_address straddress)
                (if value ==ℤ pos 0 then 0 else bit_mask (calc_address straddress).s_ele_number)
                (bit_mask (calc_address straddress).s_ele_number))
              rest
              (counted p))
  unfolding write_boolean
  write_boolean-answer straddress value =
      write_ab-answer (calc_address straddress)
        (if value ==ℤ pos 0 then 0 else bit_mask (calc_address straddress).s_ele_number)
        (bit_mask (calc_address straddress).s_ele_number)

  -- write_AA, where the PLC acknowledges and replies to this request with status 0: SUCCESS, and
  -- the one frame that was written holds address.size bytes of the value, for sizes up to 94.
  pub write_aa-answer :
      (a : Address) (value : ℕ → ℕ)
      → a.size ≤ 94
      → write_aa fuel a value (waiting (answer reply rest) (flowing p))
        ≡ done success (exchanged (write_message (new_tns p) a value) rest (counted p))
  unfolding write_aa next_tns write_message
  write_aa-answer a value h =
      let sent = write_message (new_tns p) a value in
      rw
        (
          exchange-answer sent reply rest (counted p) fuel (Fits-short sent (omega arith)) fits
              valid enough,
          check_reply-good sent (received zero_msg reply) (arrived.tns ∙ same) (arrived.sts ∙ ok),
        )
        refl
