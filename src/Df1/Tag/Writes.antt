-- ===== src/Df1/Tag/Writes.antt =====
-- What write_Tag sends and returns when the PLC answers.
use tux_plc.Base.{
  arith, length, ℕ, ◌+◌, ◌<◌, ◌≡◌, refl, List, [], ◌∷◌, All, get_or, true, if◌then◌else◌,
}
use tux_plc.Base.Bits.{low_byte, high_byte}
use tux_plc.Base.Int.{pos, ◌==ℤ◌}
use tux_plc.Base.Libc.{has_byte}
use tux_plc.Df1.{success, Msg}
use tux_plc.Df1.Addressing.{calc_address}
use tux_plc.Df1.Command.{bit_mask, bit_message, write_integer, write_variable, write_message}
use tux_plc.Df1.Command.Exchange.{answer, exchanged}
use tux_plc.Df1.Command.Reads.{not_wider, new_tns, counted}
use tux_plc.Df1.Command.Writes.{write_aa-answer, write_boolean-answer}
use tux_plc.Df1.Port.{Port, done}
use tux_plc.Df1.Port.Waiting.{waiting, flowing}
use tux_plc.Df1.Query.{known_file, upper_all}
use tux_plc.Df1.Query.Kinds.{kind_by_precedence}
use tux_plc.Df1.Query.Parse.{IsPlain, select_fnct-read}
use tux_plc.Df1.Receive.Delivers.{IsMsg}
use tux_plc.Df1.Send.Frame.{Fits}
use tux_plc.Df1.Tag.Reads.{short_name}
use tux_plc.Df1.Tag.{Doubles, word_of_int, write_tag}

-- The word in memory that write_integer hands on.
abbrev pub word_memory : ℕ → ℕ → ℕ
word_memory value i = get_or (low_byte value ∷ high_byte value ∷ []) i 0

module _ (reply : Msg) (rest : List ℕ) (p : Port) (fuel : ℕ) (fits : Fits reply)
    (valid : IsMsg reply) (enough : reply.size + 7 < fuel) (same : reply.tns ≡ new_tns p)
    (ok : reply.sts ≡ 0) (d : Doubles) (name : List ℕ) (response : d.Double)
    (plain : All IsPlain name) (known : known_file name ≡ true) (colon : has_byte b':' name ≡ true)
    (few : length name < 20) where
  -- write_Tag of the name of an integer, of less than 20 bytes and an address of two, where the PLC
  -- acknowledges and replies to this request with status 0: SUCCESS, the response is the word that
  -- was written, and the one request holds that word, the low byte first.
  pub write_tag-integer :
      kind_by_precedence (upper_all name) ≡ pos 1
      → (calc_address (upper_all name)).size ≡ 2
      → write_tag d fuel name response (waiting (answer reply rest) (flowing p))
        ≡ done
            (success, d.of_int (pos (word_of_int (d.to_int response))))
            (exchanged
              (write_message
                (new_tns p)
                (calc_address (upper_all name))
                (word_memory (word_of_int (d.to_int response))))
              rest
              (counted p))
  unfolding write_tag write_integer write_variable
  write_tag-integer kind two =
      let a = calc_address (upper_all name) in
      let value = word_of_int (d.to_int response) in
      rw
        (
          select_fnct-read name plain known colon,
          short_name name few,
          kind,
          not_wider 2 a.size (omega (arith, two)),
          write_aa-answer reply rest p fuel fits valid enough same ok a (word_memory value)
              (omega (arith, two)),
        )
        refl

  -- write_Tag of the name of a boolean, of less than 20 bytes, where the PLC acknowledges and replies to this request
  -- with status 0: SUCCESS, the response is the int that was written, and the one request masks
  -- the bit of the address, and holds that bit where that int is not 0.
  pub write_tag-boolean :
      kind_by_precedence (upper_all name) ≡ pos 2
      → write_tag d fuel name response (waiting (answer reply rest) (flowing p))
        ≡ done
            (success, d.of_int (d.to_int response))
            (exchanged
              (bit_message
                (new_tns p)
                (calc_address (upper_all name))
                (if d.to_int response ==ℤ pos 0
                  then 0
                  else bit_mask (calc_address (upper_all name)).s_ele_number)
                (bit_mask (calc_address (upper_all name)).s_ele_number))
              rest
              (counted p))
  unfolding write_tag
  write_tag-boolean kind =
      rw
        (
          select_fnct-read name plain known colon,
          short_name name few,
          kind,
          write_boolean-answer reply rest p fuel fits valid enough same ok (upper_all name)
              (d.to_int response),
        )
        refl
