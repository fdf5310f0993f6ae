-- ===== src/TuxAb/Sessions.antt =====
-- The sessions of TuxAB.c: BuildSession, KillSession and CheckSession.
use tux_plc.Base.{ℕ, Bool, true, false, List, ◌==◌, Option, none, some, if◌then◌else◌}
use tux_plc.Base.Int.{◌==ℤ◌}
use tux_plc.Tuxeip.Link.{e_rcv_timeout}
use tux_plc.TuxAb.{Plc}
use tux_plc.TuxAb.Paths.{ParsedPath}
use tux_plc.TuxAb.Daemon.{
  Calls, Act, null, ◌>>=◌, ◌>>◌, pure, call, run, asks, the_plcs, the_plc, change_plcs, add_session,
  remove_session, parse, set_session, find_session,
}

-- if (plc->Session==session) plc->Session=NULL
abbrev pub without_session : ℕ → Plc → Plc
without_session v p = if p.session == v then record p { session = null } else p

module _ {c : Calls} where
  -- The new session of BuildSession; one that is not registered is closed, and kept all the same.
  unfoldable pub new_session : ℕ → ℕ → Act c Bool
  new_session i v = do
    run (c.set_timeout v)
    done ← call (c.register_session v)
    if done then pure tt else run (c.close_session v)
    add_session v
    set_session i v
    pure true

  unfoldable pub session_opened : ℕ → ℕ → Act c Bool
  session_opened i v = if v == null then pure false else new_session i v

  unfoldable pub found_or_opened : ℕ → List ℕ → ℕ → Act c Bool
  found_or_opened i ip v =
      if v == null
      then (do new ← call (c.open_session ip); session_opened i new)
      else (do set_session i v; pure true)

  unfoldable pub session_on : ℕ → Option ParsedPath → Act c Bool
  session_on i none = pure false
  session_on i (some r) = do plcs ← the_plcs; v ← find_session r.ip plcs; found_or_opened i r.ip v

  -- BuildSession.
  unfoldable pub build_session : ℕ → Act c Bool
  build_session i = do
    p ← the_plc i
    if p.session == null then (do r ← parse p.plc_path; session_on i r) else pure false

  -- KillSession.
  unfoldable pub kill_session : ℕ → Act c (Unit {0})
  kill_session v =
      if v == null
      then pure tt
      else (do run (c.unregister_session v); remove_session v; run (c.close_session v))

  -- The session that does not answer is dropped, and another one is built.
  unfoldable pub replaced_session : ℕ → ℕ → Act c Bool
  replaced_session i v = do kill_session v; change_plcs (without_session v); build_session i

  unfoldable pub silent_session : ℕ → ℕ → Act c Bool
  silent_session i v = do
    e ← asks c.cip_errno
    if e ==ℤ e_rcv_timeout then pure false else replaced_session i v

  -- CheckSession.
  unfoldable pub check_session : ℕ → Act c Bool
  check_session i = do
    p ← the_plc i
    if p.session == null then build_session i else (do
      alive ← call (c.list_services p.session)
      if alive then pure true else silent_session i p.session)
