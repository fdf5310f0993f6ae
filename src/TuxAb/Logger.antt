-- ===== src/TuxAb/Logger.antt =====
-- The loop of TuxAB.c that reads tags and packets when they are due: _UpdateTag, ReadTag, ReadPacket and
-- Logger. A value is due when its time of sampling has passed since it was read.
use tux_plc.Base.{
  ℕ, zero, suc, ◌+◌, ◌*◌, Bool, true, false, ◌&&◌, List, [], ◌∷◌, length, ltb, leb, ◌==◌, Option,
  none, some, if◌then◌else◌,
}
use tux_plc.Base.Int.{ℤ, pos, is_neg, ◌==ℤ◌}
use tux_plc.Tuxeip.Address.{cip_uint}
use tux_plc.TuxAb.{Tag, Packet, Plc, PlcType, plc5, slc500, lgx, unknow}
use tux_plc.TuxAb.Daemon.{
  Calls, Act, null, ◌>>=◌, ◌>>◌, pure, call, asks, the_plcs, the_plc, change_plc,
}
use tux_plc.TuxAb.Sessions.{check_session}
use tux_plc.TuxAb.Connections.{check_connection, build_connections, kill_all}

abbrev pub wait_for_reconnect : ℕ
wait_for_reconnect = 60

abbrev pub max_err_before_check : ℕ
max_err_before_check = 3

-- 0.95*MAX_SAMPLE/1000
abbrev pub idle_time : ℕ
idle_time = 19

-- now - value >= sample
abbrev pub is_due : ℕ → ℕ → ℕ → Bool
is_due now value sample = leb (value + sample) now

-- What the loops over the tags and the packets of a PLC change.
pub record Sampling : Type 0 where
  pub next_time : ℕ
  pub comm_err : Bool
  pub read_something : Bool

-- if (Time_Value+Time_Sample<plc->Next_Time) plc->Next_Time=Time_Value+Time_Sample
abbrev pub sooner : ℕ → ℕ → Sampling → Sampling
sooner value sample r =
    if ltb (value + sample) r.next_time then record r { next_time = value + sample } else r

-- A reading of a result: one that is not negative is none in error.
abbrev pub after_read : ℤ → Sampling → Sampling
after_read res r = record r {
  comm_err = if is_neg res then r.comm_err else false;
  read_something = true;
}

-- What became of a PLC in a round of Logger.
pub data LogOutcome : Type 0 where
  waiting : LogOutcome
  no_session : LogOutcome
  no_connection : LogOutcome
  served : LogOutcome
  suspended : LogOutcome
  reconnected : LogOutcome
  lost : LogOutcome

module _ {c : Calls} where
  -- _UpdateTag.
  unfoldable pub update_tag : Tag → c.Value → Act c Tag
  update_tag t v = do
    now ← call c.time
    done ← if c.test then pure true else call (c.store t.tag_name v)
    pure (if done then record t { time_value = now } else t)

  -- A value is stored if the reading has no error.
  unfoldable pub taken : Tag → ℤ → Option (ℤ → c.Value) → Act c Tag
  taken t place none = pure t
  taken t place (some values) = do
    e ← asks c.cip_errno
    if e ==ℤ pos 0 then update_tag t (values place) else pure t

  unfoldable pub read_by_type : PlcType → Plc → Tag → Act c Tag
  read_by_type plc5 p t = do r ← call (c.read_plc_data p t.address 1); taken t (pos 0) r
  read_by_type slc500 p t = do r ← call (c.read_plc_data p t.address 1); taken t (pos 0) r
  read_by_type lgx p t = do r ← call (c.read_lgx_data p t.address 1); taken t (pos 0) r
  read_by_type unknow p t = pure t

  -- ReadTag; its result is cip_errno.
  unfoldable pub read_tag : Plc → Tag → Act c (Tag × ℤ)
  read_tag p t = do t' ← read_by_type p.plc_type p t; e ← asks c.cip_errno; pure (t', e)

  -- The tags of a packet, from the values of one reading.
  unfoldable pub update_tags : (ℤ → c.Value) → List Tag → Act c (List Tag)
  update_tags values [] = pure []
  update_tags values (t ∷ ts) = do
    t' ← update_tag t (values t.index)
    ts' ← update_tags values ts
    pure (t' ∷ ts')

  unfoldable pub taken_packet : Packet → Option (ℤ → c.Value) → Act c (List Tag)
  taken_packet p none = pure p.tags
  taken_packet p (some values) = do
    e ← asks c.cip_errno
    if e ==ℤ pos 0 then update_tags values p.tags else pure p.tags

  abbrev pub packet_data : Plc → Packet → Act c (Option (ℤ → c.Value))
  packet_data p k = call (c.read_plc_data p k.base_address (cip_uint k.num_elt))

  unfoldable pub packet_by_type : PlcType → Plc → Packet → Act c (List Tag)
  packet_by_type plc5 p k = do r ← packet_data p k; taken_packet k r
  packet_by_type slc500 p k = do r ← packet_data p k; taken_packet k r
  packet_by_type lgx p k = pure k.tags
  packet_by_type unknow p k = pure k.tags

  -- ReadPacket; its result is cip_errno.
  unfoldable pub read_packet : Plc → Packet → Act c (Packet × ℤ)
  read_packet p k = do
    ts ← packet_by_type p.plc_type p k
    now ← call c.time
    e ← asks c.cip_errno
    pure (record k { tags = ts; time_value = now }, e)

  -- A tag that is due is read.
  unfoldable pub sampled_tag : ℕ → Plc → Tag → Sampling → Act c (Tag × Sampling)
  sampled_tag now p t r =
      if is_due now t.time_value t.time_sample
      then (do
        (t', res) ← read_tag p t
        pure (t', sooner t'.time_value t'.time_sample (after_read res r)))
      else pure (t, sooner t.time_value t.time_sample r)

  -- The loop over plc->Tags.
  unfoldable pub sampled_tags : ℕ → Plc → List Tag → Sampling → Act c (List Tag × Sampling)
  sampled_tags now p [] r = pure ([], r)
  sampled_tags now p (t ∷ ts) r = do
    one ← sampled_tag now p t r
    rest ← sampled_tags now p ts one.1
    pure (one.0 ∷ rest.0, rest.1)

  unfoldable pub sampled_packet : ℕ → Plc → Packet → Sampling → Act c (Packet × Sampling)
  sampled_packet now p k r =
      if is_due now k.time_value k.time_sample
      then (do
        (k', res) ← read_packet p k
        pure (k', sooner k'.time_value k'.time_sample (after_read res r)))
      else pure (k, sooner k.time_value k.time_sample r)

  -- The loop over plc->Packets.
  unfoldable pub sampled_packets : ℕ → Plc → List Packet → Sampling → Act c (List Packet × Sampling)
  sampled_packets now p [] r = pure ([], r)
  sampled_packets now p (k ∷ ks) r = do
    one ← sampled_packet now p k r
    rest ← sampled_packets now p ks one.1
    pure (one.0 ∷ rest.0, rest.1)

  abbrev pub suspend : ℕ → ℕ → Act c (Unit {0})
  suspend i until = change_plc i (λ p. record p { next_time = until })

  abbrev pub set_errors : ℕ → ℕ → Act c (Unit {0})
  set_errors i n = change_plc i (λ p. record p { errors = n })

  abbrev pub session_and_connection : ℕ → Act c Bool
  session_and_connection i = do a ← check_session i; if a then check_connection i else pure false

  -- The PLC is suspended, and after some errors its session and its connection are checked.
  unfoldable pub failed : ℕ → ℕ → ℕ → Act c LogOutcome
  failed i now errors = do
    set_errors i errors
    suspend i (now + wait_for_reconnect)
    if ltb errors max_err_before_check then pure suspended else (do
      back ← session_and_connection i
      if back
          then (do set_errors i 0; suspend i now; pure reconnected)
          else (do suspend i (now + 3 * wait_for_reconnect); pure lost))

  -- The tags and packets of a PLC with a session and a connection.
  unfoldable pub serve : ℕ → ℕ → Act c LogOutcome
  serve i now = do
    p ← the_plc i
    tags ←
        sampled_tags now p p.tags
          (record { next_time = now + idle_time; comm_err = true; read_something = false })
    packets ← sampled_packets now p p.packets tags.1
    change_plc i
        (λ q. record q { tags = tags.0; packets = packets.0; next_time = packets.1.next_time })
    if packets.1.comm_err && packets.1.read_something
        then failed i now (p.errors + 1)
        else (do set_errors i 0; pure served)

  unfoldable pub connection_first : ℕ → ℕ → Act c LogOutcome
  connection_first i now = do
    p ← the_plc i
    there ← if p.connection == null then check_connection i else pure true
    if there then serve i now else (do suspend i (now + wait_for_reconnect); pure no_connection)

  unfoldable pub session_first : ℕ → ℕ → Act c LogOutcome
  session_first i now = do
    p ← the_plc i
    there ← if p.session == null then check_session i else pure true
    if there
        then connection_first i now
        else (do suspend i (now + wait_for_reconnect); pure no_session)

  -- What Logger does with the PLC i.
  unfoldable pub log_plc : ℕ → Act c LogOutcome
  log_plc i = do
    now ← call c.time
    p ← the_plc i
    if ltb now p.next_time then pure waiting else session_first i now

  -- A round over the PLCs from i on, with `left` of them to do.
  unfoldable pub log_from : ℕ → ℕ → Act c (Unit {0})
  log_from zero i = pure tt
  log_from (suc left) i = do log_plc i; log_from left (i + 1)

  unfoldable pub log_rounds : ℕ → Act c (Unit {0})
  log_rounds zero = pure tt
  log_rounds (suc n) = do plcs ← the_plcs; log_from (length plcs) 0; log_rounds n

  -- Logger, where Terminated is set behind n rounds, up to FreeAll; whether it gets there.
  unfoldable pub logger : ℕ → Act c Bool
  logger n = do build_connections; log_rounds n; kill_all
