-- ===== src/Df1/Tag/Reads.antt =====
-- What read_Tag returns, from the text of a query to the value, when the PLC answers.
use tux_plc.Base.{
  ltb, length, ℕ, ◌+◌, ◌*◌, ◌/◌, ◌%◌, ◌^◌, ◌≤◌, ◌<◌, ◌≡◌, refl, ap, List, All, arith, true,
}
use tux_plc.Base.Bits.{word_of}
use tux_plc.Base.Int.{pos}
use tux_plc.Base.Libc.{has_byte}
use tux_plc.Df1.{slc, success, Msg, Address}
use tux_plc.Df1.Addressing.{calc_address}
use tux_plc.Df1.Command.{read_variable, read_boolean, read_message}
use tux_plc.Df1.Command.Exchange.{answer, exchanged}
use tux_plc.Df1.Command.Reads.{not_wider, new_tns, counted, read_a2-answer, read_integer-answer}
use tux_plc.Df1.Port.{Port, done}
use tux_plc.Df1.Port.Waiting.{waiting, flowing}
use tux_plc.Df1.Query.{known_file, upper_all}
use tux_plc.Df1.Query.Kinds.{kind_by_precedence}
use tux_plc.Df1.Query.Parse.{length-upper_all, IsPlain, select_fnct-read}
use tux_plc.Df1.Receive.Delivers.{IsMsg}
use tux_plc.Df1.Send.Frame.{Fits}
use tux_plc.Df1.Tag.{Doubles, short_of, read_tag}

-- A name that fits the array of the address.
pub short_name : (name : List ℕ) → length name < 20 → ltb (length (upper_all name)) 20 ≡ true
short_name name few = ground (arith, few, length-upper_all name)

module _ (reply : Msg) (rest : List ℕ) (p : Port) (fuel : ℕ) (fits : Fits reply)
    (valid : IsMsg reply) (enough : reply.size + 7 < fuel) (long : 2 ≤ reply.size)
    (same : reply.tns ≡ new_tns p) (ok : reply.sts ≡ 0) where
  -- The address without its sub-element, which a read of a bit asks for.
  abbrev pub whole : List ℕ → Address
  whole text = record (calc_address text) { s_ele_number = 0 }

  -- read_boolean of an address of two bytes, where the PLC acknowledges and replies to this request
  -- with status 0 and at least two bytes: SUCCESS, and the bit of the reply's word that the
  -- sub-element of the address names; the request asked for the whole word.
  pub read_boolean-answer :
      (text : List ℕ)
      → (calc_address text).size ≡ 2
      → read_boolean fuel slc text (waiting (answer reply rest) (flowing p))
        ≡ done
            (
              success,
              word_of (reply.body 0) (reply.body 1) / 2 ^ (calc_address text).s_ele_number % 2,
            )
            (exchanged (read_message (new_tns p) (whole text)) rest (counted p))
  unfolding read_boolean read_variable
  read_boolean-answer text two =
      let (v, run, inside, outside) =
        read_a2-answer (whole text) reply rest p fuel fits valid enough (λ _. 0) 4 same ok in
      rw
        (
          run,
          not_wider 4 (calc_address text).size (omega (arith, two)),
          inside 0 (omega (arith, two)) (omega (arith, long)),
          inside 1 (omega (arith, two)) (omega (arith, long)),
          outside 2 (omega (arith, two)),
          outside 3 (omega (arith, two)),
        )
        (ap
          (λ w.
            done (success, w / 2 ^ (calc_address text).s_ele_number % 2)
              (exchanged (read_message (new_tns p) (whole text)) rest (counted p)))
          {x = reply.body 0 + 256 * (reply.body 1 + 256 * (0 + 256 * 0))}
          {y = word_of (reply.body 0) (reply.body 1)} (omega arith))

  module _ (d : Doubles) (name : List ℕ) (response : d.Double) (plain : All IsPlain name)
      (known : known_file name ≡ true) (colon : has_byte b':' name ≡ true)
      (few : length name < 20) where
    -- read_Tag of a query of a known file that names an integer, of less than 20 bytes and an address of two,
    -- where the PLC acknowledges and replies with status 0 and at least two bytes: SUCCESS, and the
    -- double of the signed word of the reply's first two bytes.
    pub read_tag-integer :
        kind_by_precedence (upper_all name) ≡ pos 1
        → (calc_address (upper_all name)).size ≡ 2
        → read_tag d fuel name response (waiting (answer reply rest) (flowing p))
          ≡ done
              (success, d.of_int (short_of (word_of (reply.body 0) (reply.body 1))))
              (exchanged
                (read_message (new_tns p) (calc_address (upper_all name)))
                rest
                (counted p))
    unfolding read_tag
    read_tag-integer kind two =
        rw
          (
            select_fnct-read name plain known colon,
            short_name name few,
            kind,
            read_integer-answer (upper_all name) reply rest p fuel fits valid enough two long same
                ok,
          )
          refl

    -- read_Tag of a query of a known file that names a boolean, of less than 20 bytes and an address of two, where
    -- the PLC acknowledges and replies with status 0 and at least two bytes: SUCCESS, and the
    -- double of the bit of the reply's word that the address names.
    pub read_tag-boolean :
        kind_by_precedence (upper_all name) ≡ pos 2
        → (calc_address (upper_all name)).size ≡ 2
        → read_tag d fuel name response (waiting (answer reply rest) (flowing p))
          ≡ done
              (
                success,
                d.of_int (
                    pos (
                      word_of (reply.body 0) (reply.body 1)
                      / 2 ^ (calc_address (upper_all name)).s_ele_number
                      % 2)),
              )
              (exchanged (read_message (new_tns p) (whole (upper_all name))) rest (counted p))
    unfolding read_tag
    read_tag-boolean kind two =
        rw
          (
            select_fnct-read name plain known colon,
            short_name name few,
            kind,
            read_boolean-answer (upper_all name) two,
          )
          refl
