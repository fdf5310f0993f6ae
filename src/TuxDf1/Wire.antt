-- ===== src/TuxDf1/Wire.antt =====
-- What Logger of TuxDf1.c does with a tag, down to the line of its device.
use tux_plc.Base.{
  length, ℕ, ◌+◌, ◌≤◌, ◌<◌, ◌≡◌, refl, Bool, true, false, List, [], ◌∷◌, All, none, some,
  if◌then◌else◌,
}
use tux_plc.Base.Bits.{word_of}
use tux_plc.Base.Int.{ℤ, pos}
use tux_plc.Base.Libc.{has_byte}
use tux_plc.Df1.{Msg, Address}
use tux_plc.Df1.Addressing.{calc_address}
use tux_plc.Df1.Command.{read_message, write_message}
use tux_plc.Df1.Command.Exchange.{answer, exchanged}
use tux_plc.Df1.Command.Reads.{new_tns, counted}
use tux_plc.Df1.Port.{Port}
use tux_plc.Df1.Port.Waiting.{waiting, flowing}
use tux_plc.Df1.Query.{known_file, upper_all}
use tux_plc.Df1.Query.Kinds.{kind_by_precedence}
use tux_plc.Df1.Query.Parse.{IsPlain, query_left-read}
use tux_plc.Df1.Receive.Delivers.{IsMsg}
use tux_plc.Df1.Send.Frame.{Fits}
use tux_plc.Df1.Tag.{short_of, word_of_int}
use tux_plc.Df1.Tag.Reads.{read_tag-integer}
use tux_plc.Df1.Tag.Writes.{word_memory, write_tag-integer}
use tux_plc.TuxDf1.{Tag}
use tux_plc.TuxDf1.Device.{Os, Globals}
use tux_plc.TuxDf1.Logger.{
  log_tag, read_tag, write_tag, read_write_value_tag, with_values, update_tag, update_write_tag,
}

module _ {o : Os} (reply : Msg) (rest : List ℕ) (p : Port) (fuel : ℕ) (fits : Fits reply)
    (valid : IsMsg reply) (enough : reply.size + 7 < fuel) (same : reply.tns ≡ new_tns p)
    (ok : reply.sts ≡ 0) (fd : ℤ) (t : Tag o.doubles.Double) (s : Globals o) (w : o.World)
    (plain : All IsPlain t.address) (known : known_file t.address ≡ true)
    (colon : has_byte b':' t.address ≡ true) (few : length t.address < 20)
    (integer : kind_by_precedence (upper_all t.address) ≡ pos 1) (recorded : o.test ≡ false)
    (no_error : o.db_error w ≡ pos 0)
    (line : record (o.line fd w) { tns = s.tns } ≡ waiting (answer reply rest) (flowing p)) where
  open o.doubles use {Double, of_int, to_int}

  abbrev address : Address
  address = calc_address (upper_all t.address)

  -- The world behind a request, its acknowledgement and the reply.
  abbrev pub world_behind : Msg → o.World
  world_behind sent = o.set_line fd (exchanged sent rest (counted p)) w

  -- The tag with the time at which its snapshot was stored, if it was.
  abbrev pub stamped : Bool → o.World → Tag Double → Tag Double
  stamped stored w' t' = if stored then record t' { time_value = (o.time w').0 } else t'

  -- The value that is read.
  abbrev pub reading : Double
  reading = of_int (short_of (word_of (reply.body 0) (reply.body 1)))

  -- Logger's turn for a tag whose address is in a known file and names an integer, is of less than
  -- 20 bytes and stands for two bytes, where the one row of the tag has no WRITE_VALUE and
  -- mysql_errno is 0 behind its query, the PLC acknowledges and replies to this request with
  -- status 0 and at least two bytes, a reply that fits the buffers, the fuel is more than its size
  -- and 7, and TEST is not set: it succeeds, one request to read the address is written, the
  -- signed word of the reply's first two bytes is stored as the snapshot, the address of the tag
  -- is left in capitals, and its time is the one before the update if that succeeds.
  pub log_tag-reads :
      o.write_values t.tag_name s.world ≡ (some (none ∷ []), w)
      → address.size ≡ 2
      → 2 ≤ reply.size
      → log_tag fuel fd t s ≡ (
          let w' = world_behind (read_message (new_tns p) address) in
          let stored = o.store t.tag_name reading (o.time w').1 in
          some (
            (
              stamped stored.0 w' (record t { address = upper_all t.address; write_exist = false }),
              true,
            ),
            record s { world = stored.1; tns = new_tns p },
          ))
  unfolding log_tag read_tag read_write_value_tag with_values update_tag
  log_tag-reads rows two long =
      rw
        (
          rows,
          no_error,
          line,
          read_tag-integer reply rest p fuel fits valid enough long same ok o.doubles t.address
              o.unset plain known colon few integer two,
          recorded,
          query_left-read t.address plain known colon,
        )
        refl

  -- Logger's turn for a tag whose address is in a known file and names an integer, is of less than
  -- 20 bytes and stands for two bytes, where the one row of the tag has a WRITE_VALUE and
  -- mysql_errno is 0 behind its query, the PLC acknowledges and replies to this request with
  -- status 0, a reply that fits the buffers, the fuel is more than its size and 7, and TEST is not
  -- set: it succeeds, the one request writes the low word of that value, nothing is read, the
  -- update that resets WRITE_VALUE stores the word that was written, the address of the tag is
  -- left in capitals, and its time is the one before the update if that succeeds.
  pub log_tag-writes :
      (text : List ℕ)
      → o.write_values t.tag_name s.world ≡ (some (some text ∷ []), w)
      → address.size ≡ 2
      → log_tag fuel fd t s ≡ (
          let word = word_of_int (to_int (o.atof text)) in
          let w' = world_behind (write_message (new_tns p) address (word_memory word)) in
          let stored = o.store_written t.tag_name (of_int (pos word)) (o.time w').1 in
          let t' = record t {
            address = upper_all t.address;
            write_value = o.atof text;
            write_exist = true;
          } in
          some ((stamped stored.0 w' t', true), record s { world = stored.1; tns = new_tns p }))
  unfolding log_tag write_tag read_write_value_tag with_values update_write_tag
  log_tag-writes text rows two =
      rw
        (
          rows,
          no_error,
          line,
          write_tag-integer reply rest p fuel fits valid enough same ok o.doubles t.address
              (o.atof text) plain known colon few integer two,
          recorded,
          query_left-read t.address plain known colon,
        )
        refl
