-- ===== src/TuxAb/Connections.antt =====
-- The connections of TuxAB.c: BuildConnection, BuildConnections, CheckConnection, KillConnection and
-- KillAll.
use tux_plc.Base.{
  ℕ, zero, suc, ◌+◌, Bool, true, false, ◌&&◌, List, [], ◌∷◌, length, ◌==◌, Option, none, some,
  if◌then◌else◌,
}
use tux_plc.Base.Int.{pos, ◌==ℤ◌}
use tux_plc.TuxAb.{Plc}
use tux_plc.TuxAb.Paths.{ParsedPath}
use tux_plc.TuxAb.Daemon.{
  Calls, Act, fresh, again, null, ◌>>=◌, ◌>>◌, pure, call, run, asks, the_plcs, the_plc,
  change_plcs, add_connection, remove_connection, parse, set_connection, get_serial,
  find_connection,
}
use tux_plc.TuxAb.Sessions.{build_session, kill_session}

-- if (plc->Connection==connection) plc->Connection=new_connection
abbrev pub with_connection : ℕ → ℕ → Plc → Plc
with_connection v new p = if p.connection == v then record p { connection = new } else p

module _ {c : Calls} where
  unfoldable pub connected : ℕ → ℕ → Act c Bool
  connected i v =
      if v == null then pure false else (do set_connection i v; add_connection v; pure true)

  -- A connection that another PLC has already is shared.
  unfoldable pub found_or_connected : ℕ → Plc → ParsedPath → ℕ → Act c Bool
  found_or_connected i p r v =
      if v == null
      then (do
        serial ← get_serial
        new ← call (c.connect p.session p.plc_type p.network (fresh serial r.route))
        connected i new)
      else (do set_connection i v; pure true)

  unfoldable pub connection_on : ℕ → Plc → Option ParsedPath → Act c Bool
  connection_on i p none = pure false
  connection_on i p (some r) = do
    plcs ← the_plcs
    found_or_connected i p r (find_connection p.plc_path p.network plcs)

  -- BuildConnection.
  unfoldable pub build_connection : ℕ → Act c Bool
  build_connection i = do
    p ← the_plc i
    if p.connection == null then (do r ← parse p.plc_path; connection_on i p r) else pure false

  -- The loop of BuildConnections from the PLC i, with `left` of them to do.
  unfoldable pub build_connections_from : ℕ → ℕ → Act c (Unit {0})
  build_connections_from zero i = pure tt
  build_connections_from (suc left) i = do
    done ← build_session i
    (if done then (do build_connection i; pure tt) else pure tt)
    build_connections_from left (i + 1)

  -- BuildConnections.
  unfoldable pub build_connections : Act c ℕ
  build_connections = do
    plcs ← the_plcs
    build_connections_from (length plcs) 0
    λ s. (length s.connections, s)

  -- The connection is replaced by the new one, or by none.
  unfoldable pub replaced_connection : ℕ → ℕ → Act c Bool
  replaced_connection v new = do
    remove_connection v
    change_plcs (with_connection v new)
    if new == null then pure false else (do add_connection new; pure true)

  -- A connection that the router knows already is a connection that works.
  unfoldable pub checked_connection : ℕ → ℕ → Act c Bool
  checked_connection v new = do
    e ← asks c.cip_errno
    x ← asks c.cip_ext_errno
    if new == null
        then (if (e ==ℤ pos 1) && (x ==ℤ pos 0x100) then pure true else replaced_connection v null)
        else if e ==ℤ pos 0
        then replaced_connection v new
        else (do run (c.free_connection new); replaced_connection v null)

  unfoldable pub existing_connection : ℕ → Plc → Act c Bool
  existing_connection i p = if p.connection == null then build_connection i else (do
    new ← call (c.connect p.session p.plc_type p.network (again p.connection))
    checked_connection p.connection new)

  -- CheckConnection.
  unfoldable pub check_connection : ℕ → Act c Bool
  check_connection i = do
    p ← the_plc i
    if p.session == null then pure false else existing_connection i p

  -- KillConnection.
  unfoldable pub kill_connection : ℕ → Act c (Unit {0})
  kill_connection v =
      if v == null then pure tt else (do run (c.forward_close v); remove_connection v)

  -- The loops of KillAll, each on fuel: whether the loop ends.
  unfoldable pub kill_connections : ℕ → List ℕ → Act c Bool
  kill_connections fuel [] = pure true
  kill_connections zero (v ∷ vs) = pure false
  kill_connections (suc fuel) (v ∷ vs) = do
    kill_connection v
    rest ← λ s. (s.connections, s)
    kill_connections fuel rest

  unfoldable pub kill_sessions : ℕ → List ℕ → Act c Bool
  kill_sessions fuel [] = pure true
  kill_sessions zero (v ∷ vs) = pure false
  kill_sessions (suc fuel) (v ∷ vs) = do
    kill_session v
    rest ← λ s. (s.sessions, s)
    kill_sessions fuel rest

  -- KillAll, with a round for each connection and each session; whether it ends.
  unfoldable pub kill_all : Act c Bool
  kill_all s =
      (do
        over ← kill_connections (length s.connections) s.connections
        if over then kill_sessions (length s.sessions) s.sessions else pure false)
        s
