-- ===== src/TuxAb/Links/Rounds.antt =====
-- The rounds of Logger keep the pointers in the lists.
use tux_plc.Base.{
  ℕ, zero, suc, ◌+◌, ◌*◌, ◌≡◌, refl, Bool, true, false, ◌&&◌, get_or, ◌==◌, ltb, length,
  if◌then◌else◌,
}
use tux_plc.TuxAb.{Plc}
use tux_plc.TuxAb.Daemon.{Calls, Globals, null, nobody, ◌>>=◌, ◌>>◌, pure, call, change_plc}
use tux_plc.TuxAb.Sessions.{check_session}
use tux_plc.TuxAb.Connections.{check_connection, build_connections}
use tux_plc.TuxAb.Logger.{
  Sampling, waiting, no_session, no_connection, served, suspended, reconnected, lost, sampled_tags,
  sampled_packets, suspend, set_errors, session_and_connection, failed, serve, connection_first,
  session_first, log_plc, log_from, log_rounds, wait_for_reconnect, max_err_before_check, idle_time,
}
use tux_plc.TuxAb.Links.{IsLinked, AreLinked-kept}
use tux_plc.TuxAb.Links.Sessions.{Keeps, check_session-Keeps}
use tux_plc.TuxAb.Links.Connections.{build_connections-Keeps, check_connection-Keeps}
use tux_plc.TuxAb.Links.Reading.{Keeps->>=, Keeps-if, sampled_tags-Keeps, sampled_packets-Keeps}

module _ {c : Calls} where
  change-Keeps :
      (i : ℕ) (f : Plc → Plc)
      → ((p : Plc) → (f p).session ≡ p.session)
      → ((p : Plc) → (f p).connection ≡ p.connection)
      → Keeps {c = c} (change_plc i f)
  change-Keeps i f hs hc s l = AreLinked-kept s.plcs s.sessions s.connections l f i hs hc

  suspend-Keeps : (i until : ℕ) → Keeps {c = c} (suspend i until)
  suspend-Keeps i until = change-Keeps i _ (λ p. refl) (λ p. refl)

  set_errors-Keeps : (i n : ℕ) → Keeps {c = c} (set_errors i n)
  set_errors-Keeps i n = change-Keeps i _ (λ p. refl) (λ p. refl)

  session_and_connection-Keeps : (i : ℕ) → Keeps {c = c} (session_and_connection i)
  session_and_connection-Keeps i =
      Keeps->>= (check_session i) (λ a. if a then check_connection i else pure false)
        (check_session-Keeps i)
        (λ a. Keeps-if a (check_connection i) (pure false) (check_connection-Keeps i) (λ s l. l))

  failed-Keeps : (i now errors : ℕ) → Keeps {c = c} (failed i now errors)
  unfolding failed
  failed-Keeps i now errors s l =
      let s1 = (set_errors {c = c} i errors s).1 in
      let s2 = (suspend {c = c} i (now + wait_for_reconnect) s1).1 in
      let checked = λ (back : Bool).
        if back
        then (do set_errors {c = c} i 0; suspend i now; pure reconnected)
        else (do suspend i (now + 3 * wait_for_reconnect); pure lost) in
      Keeps-if (ltb errors max_err_before_check) (pure suspended)
        (do back ← session_and_connection i; checked back) (λ s l. l)
        (Keeps->>= (session_and_connection i) checked (session_and_connection-Keeps i) (λ back.
          Keeps-if back (do set_errors i 0; suspend i now; pure reconnected)
            (do suspend i (now + 3 * wait_for_reconnect); pure lost)
            (λ s l. suspend-Keeps i now (set_errors i 0 s).1 (set_errors-Keeps i 0 s l))
            (suspend-Keeps i (now + 3 * wait_for_reconnect))))
        s2 (suspend-Keeps i (now + wait_for_reconnect) s1 (set_errors-Keeps i errors s l))

  serve-Keeps : (i now : ℕ) → Keeps {c = c} (serve i now)
  unfolding serve
  serve-Keeps i now s l =
      let p = get_or s.plcs i nobody in
      let first : Sampling = record {
        next_time = now + idle_time;
        comm_err = true;
        read_something = false;
      } in
      let tags = sampled_tags now p p.tags first s in
      let packets = sampled_packets now p p.packets tags.0.1 tags.1 in
      let kept =
        change-Keeps i
          (λ q. record q {
            tags = tags.0.0;
            packets = packets.0.0;
            next_time = packets.0.1.next_time;
          })
          (λ q. refl) (λ q. refl) packets.1
          (sampled_packets-Keeps now p p.packets tags.0.1 tags.1
            (sampled_tags-Keeps now p p.tags first s l)) in
      Keeps-if (packets.0.1.comm_err && packets.0.1.read_something) (failed i now (p.errors + 1))
        (do set_errors i 0; pure served) (failed-Keeps i now (p.errors + 1)) (set_errors-Keeps i 0)
        _ kept

  connection_first-Keeps : (i now : ℕ) → Keeps {c = c} (connection_first i now)
  unfolding connection_first
  connection_first-Keeps i now s l =
      let p = get_or s.plcs i nobody in
      Keeps->>= (if p.connection == null then check_connection i else pure true)
        (λ there.
          if there
          then serve i now
          else (do suspend i (now + wait_for_reconnect); pure no_connection))
        (Keeps-if (p.connection == null) (check_connection i) (pure true) (check_connection-Keeps i)
          (λ s l. l))
        (λ there.
          Keeps-if there (serve i now) (do suspend i (now + wait_for_reconnect); pure no_connection)
            (serve-Keeps i now) (suspend-Keeps i (now + wait_for_reconnect)))
        s l

  session_first-Keeps : (i now : ℕ) → Keeps {c = c} (session_first i now)
  unfolding session_first
  session_first-Keeps i now s l =
      let p = get_or s.plcs i nobody in
      Keeps->>= (if p.session == null then check_session i else pure true)
        (λ there.
          if there
          then connection_first i now
          else (do suspend i (now + wait_for_reconnect); pure no_session))
        (Keeps-if (p.session == null) (check_session i) (pure true) (check_session-Keeps i)
          (λ s l. l))
        (λ there.
          Keeps-if there (connection_first i now)
            (do suspend i (now + wait_for_reconnect); pure no_session)
            (connection_first-Keeps i now) (suspend-Keeps i (now + wait_for_reconnect)))
        s l

  log_plc-Keeps : (i : ℕ) → Keeps {c = c} (log_plc i)
  unfolding log_plc
  log_plc-Keeps i s l =
      let timed = call {c = c} c.time s in
      Keeps-if (ltb timed.0 (get_or s.plcs i nobody).next_time) (pure waiting)
        (session_first i timed.0) (λ s l. l) (session_first-Keeps i timed.0) timed.1 l

  log_from-Keeps : (left i : ℕ) → Keeps {c = c} (log_from left i)
  unfolding log_from
  log_from-Keeps zero i s l = l
  log_from-Keeps (suc left) i s l =
      log_from-Keeps left (i + 1) (log_plc i s).1 (log_plc-Keeps i s l)

  log_rounds-Keeps : (n : ℕ) → Keeps {c = c} (log_rounds n)
  unfolding log_rounds
  log_rounds-Keeps zero s l = l
  log_rounds-Keeps (suc n) s l =
      log_rounds-Keeps n (log_from (length s.plcs) 0 s).1 (log_from-Keeps (length s.plcs) 0 s l)

  -- From globals where each pointer of a PLC is NULL or in the list SESSIONs or CONNECTIONs, and no list
  -- holds NULL, BuildConnections and any number of rounds of Logger lead to such globals again,
  -- whatever the calls of the network and the database return.
  pub log_rounds-IsLinked :
      (n : ℕ) (s : Globals c) → IsLinked s → IsLinked (log_rounds n (build_connections s).1).1
  log_rounds-IsLinked n s l =
      log_rounds-Keeps n (build_connections s).1 (build_connections-Keeps s l)
