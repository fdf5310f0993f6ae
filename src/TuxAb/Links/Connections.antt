-- ===== src/TuxAb/Links/Connections.antt =====
-- BuildConnection, BuildConnections and CheckConnection keep the pointers in the lists.
use tux_plc.Base.{
  ℕ, zero, suc, ◌+◌, ◌≢◌, refl, Bool, true, false, not, ◌&&◌, List, [], ◌∷◌, ◌++◌, All, get_or,
  ◌==◌, Option, none, some, arith, length, if◌then◌else◌,
}
use tux_plc.Base.Int.{pos, ◌==ℤ◌}
use tux_plc.Base.Libc.{starts_with}
use tux_plc.TuxAb.{Plc}
use tux_plc.TuxAb.Paths.{ParsedPath}
use tux_plc.TuxAb.Daemon.{
  Calls, Globals, fresh, again, null, nobody, find_connection, parse, removed, changed, ◌>>=◌, ◌>>◌,
  pure, call, run, set_connection, add_connection, get_serial,
}
use tux_plc.TuxAb.Sessions.{build_session}
use tux_plc.TuxAb.Connections.{
  connected, found_or_connected, connection_on, build_connection, build_connections_from,
  build_connections, replaced_connection, checked_connection, existing_connection, check_connection,
  with_connection,
}
use tux_plc.TuxAb.Links.{
  IsLinked, IsLinkedPlc, IsHeld, IsHeld-append, IsHeld-new, IsHeld-removed, All-new, All-removed,
  AreLinked-connection, AreLinked-add_connection, AreLinked-with_connection,
}
use tux_plc.TuxAb.Links.Sessions.{Keeps, if-IsLinked, build_session-Keeps}

either-IsHeld :
    (xs : List ℕ) (b : Bool) (v w : ℕ) → IsHeld xs v → IsHeld xs w → IsHeld xs (if b then v else w)
either-IsHeld xs true v w hv hw = hv
either-IsHeld xs false v w hv hw = hw

find_connection-IsHeld :
    (path : List ℕ) (network : ℕ) (ss cs : List ℕ) (ps : List Plc)
    → All (IsLinkedPlc ss cs) ps
    → IsHeld cs (find_connection path network ps)
unfolding find_connection
find_connection-IsHeld path network ss cs [] h = refl
find_connection-IsHeld path network ss cs (p ∷ ps) h =
    either-IsHeld cs
      (not (p.connection == null) && (starts_with path p.plc_path && p.network == network))
      p.connection (find_connection path network ps) h.0.1
      (find_connection-IsHeld path network ss cs ps h.1)

module _ {c : Calls} where
  connected-Keeps : (i v : ℕ) → Keeps {c = c} (connected i v)
  unfolding connected
  connected-Keeps i v s l =
      if-IsLinked (v == null) (pure false) (do set_connection i v; add_connection v; pure true) s
        (λ _. l)
        (λ e.
          AreLinked-connection s.plcs s.sessions (s.connections ++ (v ∷ []))
            (AreLinked-add_connection s.plcs s.sessions s.connections l v
              (λ z. ground (arith, e, z)))
            i v (IsHeld-new s.connections v))

  found_or_connected-Keeps :
      (i : ℕ) (p : Plc) (r : ParsedPath) (v : ℕ) (s : Globals c)
      → IsLinked s
      → IsHeld s.connections v
      → IsLinked (found_or_connected i p r v s).1
  unfolding found_or_connected get_serial
  found_or_connected-Keeps i p r v s l h =
      let new =
        call {c = c}
          (c.connect p.session p.plc_type p.network (fresh (c.pid s.world + s.serial) r.route))
          (record s { serial = s.serial + 1 }) in
      if-IsLinked (v == null)
        (do
          serial ← get_serial
          new ← call (c.connect p.session p.plc_type p.network (fresh serial r.route))
          connected i new)
        (do set_connection i v; pure true) s (λ _. connected-Keeps i new.0 new.1 l)
        (λ _. AreLinked-connection s.plcs s.sessions s.connections l i v h)

  connection_on-Keeps :
      (i : ℕ) (p : Plc) (r : Option ParsedPath) → Keeps {c = c} (connection_on i p r)
  unfolding connection_on
  connection_on-Keeps i p none s l = l
  connection_on-Keeps i p (some r) s l =
      found_or_connected-Keeps i p r (find_connection p.plc_path p.network s.plcs) s l
        (find_connection-IsHeld p.plc_path p.network s.sessions s.connections s.plcs l.0)

  pub build_connection-Keeps : (i : ℕ) → Keeps {c = c} (build_connection i)
  unfolding build_connection
  build_connection-Keeps i s l =
      let p = get_or s.plcs i nobody in
      if-IsLinked (p.connection == null) (do r ← parse p.plc_path; connection_on i p r) (pure false)
        s (λ _. connection_on-Keeps i p (parse p.plc_path s).0 (parse p.plc_path s).1 l) (λ _. l)

  build_connections_from-Keeps : (left i : ℕ) → Keeps {c = c} (build_connections_from left i)
  unfolding build_connections_from
  build_connections_from-Keeps zero i s l = l
  build_connections_from-Keeps (suc left) i s l =
      let s' = (build_session i s).1 in
      let both = (if (build_session i s).0 then (do build_connection i; pure tt) else pure tt) s' in
      build_connections_from-Keeps left (i + 1) both.1 (
        if-IsLinked (build_session i s).0 (do build_connection i; pure tt) (pure tt) s'
          (λ _. build_connection-Keeps i s' (build_session-Keeps i s l))
          (λ _. build_session-Keeps i s l))

  pub build_connections-Keeps : Keeps {c = c} build_connections
  unfolding build_connections
  build_connections-Keeps s l = build_connections_from-Keeps (length s.plcs) 0 s l

  replaced_connection-Keeps : (v new : ℕ) → Keeps {c = c} (replaced_connection v new)
  unfolding replaced_connection
  replaced_connection-Keeps v new s l =
      let cs = removed v s.connections in
      let s' : Globals c = record s {
        connections = cs;
        plcs = changed (with_connection v new) s.plcs;
      } in
      let left : All (λ w. w ≢ null) cs = All-removed (λ w. w ≢ null) v s.connections l.2 in
      if-IsLinked (new == null) (pure false) (do add_connection new; pure true) s'
        (λ e.
          AreLinked-with_connection s.plcs s.sessions s.connections l v new cs (ground (arith, e))
            (λ w. IsHeld-removed v s.connections w) left)
        (λ e.
          AreLinked-with_connection s.plcs s.sessions s.connections l v new (cs ++ (new ∷ []))
            (IsHeld-new cs new)
            (λ w apart h. IsHeld-append cs (new ∷ []) w (IsHeld-removed v s.connections w apart h))
            (All-new (λ w. w ≢ null) cs new left (λ z. ground (arith, e, z))))

  checked_connection-Keeps : (v new : ℕ) → Keeps {c = c} (checked_connection v new)
  unfolding checked_connection
  checked_connection-Keeps v new s l =
      let e = c.cip_errno s.world in
      let x = c.cip_ext_errno s.world in
      let none_new =
        if (e ==ℤ pos 1) && (x ==ℤ pos 0x100)
        then pure {c = c} true
        else replaced_connection v null in
      let one_new =
        if e ==ℤ pos 0
        then replaced_connection {c = c} v new
        else (do run (c.free_connection new); replaced_connection v null) in
      if-IsLinked (new == null) none_new one_new s
        (λ _.
          if-IsLinked ((e ==ℤ pos 1) && (x ==ℤ pos 0x100)) (pure true) (replaced_connection v null)
            s (λ _. l) (λ _. replaced_connection-Keeps v null s l))
        (λ _.
          if-IsLinked (e ==ℤ pos 0) (replaced_connection v new)
            (do run (c.free_connection new); replaced_connection v null) s
            (λ _. replaced_connection-Keeps v new s l)
            (λ _.
              replaced_connection-Keeps v null (record s { world = c.free_connection new s.world })
                l))

  existing_connection-Keeps : (i : ℕ) (p : Plc) → Keeps {c = c} (existing_connection i p)
  unfolding existing_connection
  existing_connection-Keeps i p s l =
      let new = call {c = c} (c.connect p.session p.plc_type p.network (again p.connection)) s in
      if-IsLinked (p.connection == null) (build_connection i)
        (do
          v ← call (c.connect p.session p.plc_type p.network (again p.connection))
          checked_connection p.connection v)
        s (λ _. build_connection-Keeps i s l)
        (λ _. checked_connection-Keeps p.connection new.0 new.1 l)

  pub check_connection-Keeps : (i : ℕ) → Keeps {c = c} (check_connection i)
  unfolding check_connection
  check_connection-Keeps i s l =
      let p = get_or s.plcs i nobody in
      if-IsLinked (p.session == null) (pure false) (existing_connection i p) s (λ _. l)
        (λ _. existing_connection-Keeps i p s l)
