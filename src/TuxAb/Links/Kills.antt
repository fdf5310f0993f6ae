-- ===== src/TuxAb/Links/Kills.antt =====
-- KillAll kills each connection and each session, behind Logger too.
use tux_plc.Base.{
  ℕ, zero, suc, ◌≤◌, ◌≡◌, ◌≢◌, refl, ap, ◌∙◌, true, List, [], ◌∷◌, All, ==_ne, ==_self, arith,
  length,
}
use tux_plc.TuxAb.Daemon.{Calls, Globals, null, removed}
use tux_plc.TuxAb.Sessions.{kill_session}
use tux_plc.TuxAb.Connections.{
  build_connections, kill_connection, kill_connections, kill_sessions, kill_all,
}
use tux_plc.TuxAb.Logger.{log_rounds, logger}
use tux_plc.TuxAb.Links.{IsLinked, IsLinkedPlc, All-to}
use tux_plc.TuxAb.Links.Rounds.{log_rounds-IsLinked}

pop : (v : ℕ) (xs vs : List ℕ) → xs ≡ v ∷ vs → removed v xs ≡ vs
pop v xs vs e = ap (removed v) e ∙ rw (==_self v, removed) refl

-- The connections closed, and the sessions unregistered and closed, in the order of the lists.
abbrev pub connections_closed : (c : Calls) → List ℕ → c.World → c.World
connections_closed c [] w = w
connections_closed c (v ∷ vs) w = connections_closed c vs (c.forward_close v w)

abbrev pub sessions_closed : (c : Calls) → List ℕ → c.World → c.World
sessions_closed c [] w = w
sessions_closed c (v ∷ vs) w = sessions_closed c vs (c.close_session v (c.unregister_session v w))

module _ {c : Calls} where
  kill_connections-closed :
      (fuel : ℕ) (s : Globals c) (vs : List ℕ)
      → s.connections ≡ vs
      → All (λ v. v ≢ null) vs
      → length vs ≤ fuel
      → kill_connections fuel vs s
        ≡ (true, record s { connections = []; world = connections_closed c vs s.world })
  unfolding kill_connections kill_connection
  kill_connections-closed fuel s [] e h le = ap (λ vs. (true, record s { connections = vs })) e
  kill_connections-closed zero s (v ∷ vs) e h le = absurd (omega (arith, le))
  kill_connections-closed (suc fuel) s (v ∷ vs) e h le =
      let left = pop v s.connections vs e in
      rw (==_ne v null h.0, kill_connections, kill_connection, left)
        (kill_connections-closed fuel
          (record s { world = c.forward_close v s.world; connections = vs }) vs refl h.1
          (omega (arith, le)))

  kill_sessions-closed :
      (fuel : ℕ) (s : Globals c) (vs : List ℕ)
      → s.sessions ≡ vs
      → All (λ v. v ≢ null) vs
      → length vs ≤ fuel
      → kill_sessions fuel vs s
        ≡ (true, record s { sessions = []; world = sessions_closed c vs s.world })
  unfolding kill_sessions kill_session
  kill_sessions-closed fuel s [] e h le = ap (λ vs. (true, record s { sessions = vs })) e
  kill_sessions-closed zero s (v ∷ vs) e h le = absurd (omega (arith, le))
  kill_sessions-closed (suc fuel) s (v ∷ vs) e h le =
      let left = pop v s.sessions vs e in
      rw (==_ne v null h.0, kill_sessions, kill_session, left)
        (kill_sessions-closed fuel
          (record s { world = c.close_session v (c.unregister_session v s.world); sessions = vs })
          vs refl h.1 (omega (arith, le)))

  -- What KillAll leaves: empty lists, and a world in which each connection was closed, then each session
  -- unregistered and closed.
  abbrev pub killed : Globals c → Globals c
  killed s = record s {
    sessions = [];
    connections = [];
    world = sessions_closed c s.sessions (connections_closed c s.connections s.world);
  }

  kill_all-killed : (s : Globals c) → IsLinked s → kill_all s ≡ (true, killed s)
  unfolding kill_all
  kill_all-killed s l =
      rw (kill_connections-closed (length s.connections) s s.connections refl l.2 (omega arith)) (
        kill_sessions-closed (length s.sessions)
          (record s { connections = []; world = connections_closed c s.connections s.world })
          s.sessions refl l.1 (omega arith))

  -- From the empty lists, with PLCs that have no session and no connection yet, Logger ends behind any
  -- number of rounds: whatever the calls of the network return, the loops of KillAll end; they have
  -- closed each connection of CONNECTIONs, then unregistered and closed each session of SESSIONs, in
  -- the order of the lists behind the rounds, and nothing else; and both lists are empty.
  pub logger-killed :
      (n : ℕ) (s : Globals c)
      → s.sessions ≡ []
      → s.connections ≡ []
      → All (λ p. (p.session ≡ null) × (p.connection ≡ null)) s.plcs
      → logger n s ≡ (true, killed (log_rounds n (build_connections s).1).1)
  unfolding logger
  logger-killed n s ss cs fresh_plcs = kill_all-killed (log_rounds n (build_connections s).1).1 (
      log_rounds-IsLinked n s (
        All-to (λ p. (p.session ≡ null) × (p.connection ≡ null))
            (IsLinkedPlc s.sessions s.connections) (λ p h. (ground (arith, h), ground (arith, h)))
            s.plcs fresh_plcs,
        rw ss tt,
        rw cs tt,
      ))
