-- ===== src/TuxDf1/Logger.antt =====
-- The loop of TuxDf1.c over the tags of its PLCs: _UpdateTag, _UpdateWriteTag, _Read_WriteValue_Tag,
-- BuildSocket, ReadTag, WriteTag, Logger and KillAll. `fuel` is that of a command of the driver.
use tux_plc.Base.{
  ℕ, zero, suc, ◌+◌, Bool, true, false, ◌||◌, List, [], ◌∷◌, ltb, Option, none, some, if◌then◌else◌,
}
use tux_plc.Base.Int.{ℤ, pos, negsuc, is_neg, ◌==ℤ◌}
use tux_plc.Df1.{success}
use tux_plc.Df1.Query.{query_left}
use tux_plc.Df1.Tag.{read_tag as read_on_line, write_tag as write_on_line}
use tux_plc.TuxDf1.{Tag, Plc}
use tux_plc.TuxDf1.Device.{
  Os, Act, ◌>>=◌, ◌>>◌, pure, call, asks, drive, the_start_time, set_start_time, open_device,
  close_device,
}

abbrev pub wait_for_reconnect : ℕ
wait_for_reconnect = 60

-- The columns WRITE_VALUE of the rows of a tag, one after the other.
unfoldable pub with_values :
    (o : Os) → List (Option (List ℕ)) → Tag o.doubles.Double → Tag o.doubles.Double
with_values o [] t = t
with_values o (none ∷ rows) t = with_values o rows (record t { write_exist = false })
with_values o (some text ∷ rows) t =
    with_values o rows (record t { write_value = o.atof text; write_exist = true })

-- What select_fnct, called by the command, leaves in tag->Address.
abbrev pub queried : {D : Type 0} → Tag D → Tag D
queried t = record t { address = query_left t.address }

module _ {o : Os} where
  open o.doubles use {Double}

  -- _UpdateTag.
  unfoldable pub update_tag : Tag Double → Double → Act o (Tag Double)
  update_tag t v = do
    now ← call o.time
    stored ← if o.test then pure true else call (o.store t.tag_name v)
    pure (if stored then record t { time_value = now } else t)

  -- _UpdateWriteTag.
  unfoldable pub update_write_tag : Tag Double → Double → Act o (Tag Double)
  update_write_tag t v = do
    now ← call o.time
    stored ← if o.test then pure true else call (o.store_written t.tag_name v)
    pure (if stored then record t { time_value = now } else t)

  abbrev pub with_rows : Option (List (Option (List ℕ))) → Tag Double → Act o (Tag Double × ℤ)
  with_rows none t = pure (t, negsuc 0)
  with_rows (some rows) t = do e ← asks o.db_error; pure (with_values o rows t, e)

  -- _Read_WriteValue_Tag.
  unfoldable pub read_write_value_tag : Tag Double → Act o (Tag Double × ℤ)
  read_write_value_tag t = do rows ← call (o.write_values t.tag_name); with_rows rows t

  -- BuildSocket, with the result of Df1_open_device as the socket.
  unfoldable pub build_socket : Plc Double → Act o (Plc Double)
  build_socket p =
      if is_neg p.socket
      then (do fd ← open_device p.plc_path p.plc_speed (pos 0) 8 1; pure (record p { socket = fd }))
      else pure p

  -- KillAll: the socket of a PLC is closed behind its reset.
  unfoldable pub kill_all : List (Plc Double) → Act o (List (Plc Double))
  kill_all [] = pure []
  kill_all (p ∷ ps) = do
    p' ←
        if is_neg p.socket
        then pure p
        else (do let p' = record p { socket = negsuc 0 }; close_device p'.socket; pure p')
    ps' ← kill_all ps
    pure (p' ∷ ps')

  module _ (fuel : ℕ) where
    -- ReadTag of a tag of the PLC with the socket fd.
    unfoldable pub read_tag : ℤ → Tag Double → Act o (Tag Double × ℤ)
    read_tag fd t = do
      (e, value) ← drive fd (read_on_line o.doubles fuel t.address o.unset)
      t' ← if e ==ℤ success then update_tag (queried t) value else pure (queried t)
      pure (t', e)

    -- WriteTag.
    unfoldable pub write_tag : ℤ → Tag Double → Act o (Tag Double × ℤ)
    write_tag fd t = do
      (e, value) ← drive fd (write_on_line o.doubles fuel t.address t.write_value)
      t' ← if e ==ℤ success then update_write_tag (queried t) value else pure (queried t)
      pure (t', e)

    -- What the loop over the tags does with one, and whether it succeeds.
    unfoldable pub log_tag : ℤ → Tag Double → Act o (Tag Double × Bool)
    log_tag fd t = do
      (t', e) ← read_write_value_tag t
      if e ==ℤ success
          then (do
            (t'', e') ← if t'.write_exist then write_tag fd t' else read_tag fd t'
            pure (t'', e' ==ℤ success))
          else pure (t', false)

    -- The loop over plc->Tags, and Comm_OK behind it.
    unfoldable pub log_tags : ℤ → List (Tag Double) → Bool → Act o (List (Tag Double) × Bool)
    log_tags fd [] comm_ok = pure ([], comm_ok)
    log_tags fd (t ∷ ts) comm_ok = do
      one ← log_tag fd t
      rest ← log_tags fd ts (one.1 || comm_ok)
      pure (one.0 ∷ rest.0, rest.1)

    -- A PLC with a socket.
    unfoldable pub serve : Plc Double → Act o (Plc Double)
    serve p = do
      start ← call o.time
      set_start_time start
      tags ← log_tags p.socket p.tags false
      let p' = record p { tags = tags.0 }
      pure (if tags.1 then p' else record p' { next_time = start + wait_for_reconnect })

    -- What Logger does with a PLC. The time of the last PLC that was served suspends one whose device
    -- does not open.
    unfoldable pub log_plc : Plc Double → Act o (Plc Double)
    log_plc p = do
      now ← call o.time
      if ltb now p.next_time then pure p else (do
        p' ← build_socket p
        if is_neg p'.socket
            then (do
              start ← the_start_time
              pure (record p' { next_time = start + wait_for_reconnect }))
            else serve p')

    unfoldable pub log_plcs : List (Plc Double) → Act o (List (Plc Double))
    log_plcs [] = pure []
    log_plcs (p ∷ ps) = do p' ← log_plc p; ps' ← log_plcs ps; pure (p' ∷ ps')

    unfoldable pub log_rounds : ℕ → List (Plc Double) → Act o (List (Plc Double))
    log_rounds zero ps = pure ps
    log_rounds (suc n) ps = do ps' ← log_plcs ps; log_rounds n ps'

    -- Logger, where Terminated is set behind n rounds, up to FreeAll.
    unfoldable pub logger : ℕ → List (Plc Double) → Act o (List (Plc Double))
    logger n ps = do start ← call o.time; set_start_time start; ps' ← log_rounds n ps; kill_all ps'
