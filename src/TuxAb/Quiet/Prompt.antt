-- ===== src/TuxAb/Quiet/Prompt.antt =====
-- Logger looks at a PLC that it has served as soon as anything of it is due.
use mathlib.Core.Path.{subst, sym}
use tux_plc.Base.{
  ℕ, zero, suc, ◌+◌, ◌*◌, ◌<◌, ◌≡◌, ◌≢◌, refl, Bool, true, false, ◌&&◌, List, [], ◌∷◌, All, get_or,
  ltb, ◌==◌, arith, if◌then◌else◌,
}
use tux_plc.TuxAb.{Plc}
use tux_plc.TuxAb.Daemon.{
  Calls, Globals, Act, null, nobody, changed_at, ◌>>=◌, ◌>>◌, pure, call, change_plc,
}
use tux_plc.TuxAb.Sessions.{check_session}
use tux_plc.TuxAb.Connections.{check_connection}
use tux_plc.TuxAb.Logger.{
  Sampling, LogOutcome, waiting, no_session, no_connection, served, suspended, reconnected, lost,
  is_due, sampled_tags, sampled_packets, suspend, set_errors, session_and_connection, failed, serve,
  connection_first, session_first, log_plc, idle_time, wait_for_reconnect, max_err_before_check,
}
use tux_plc.TuxAb.Quiet.{IsBefore, IsQuiet, earlier, sampled_tags-sooner, sampled_packets-sooner}

-- An outcome of `failed`.
IsFailure : LogOutcome → Type 0
IsFailure suspended = Unit
IsFailure reconnected = Unit
IsFailure lost = Unit
IsFailure _ = ⊥

-- An outcome of a PLC that was looked at.
IsAwake : LogOutcome → Type 0
IsAwake waiting = ⊥
IsAwake _ = Unit

IsFailure-IsAwake : (o : LogOutcome) → IsFailure o → IsAwake o
unfolding IsFailure IsAwake
IsFailure-IsAwake waiting h = h
IsFailure-IsAwake no_session h = tt
IsFailure-IsAwake no_connection h = tt
IsFailure-IsAwake served h = tt
IsFailure-IsAwake suspended h = tt
IsFailure-IsAwake reconnected h = tt
IsFailure-IsAwake lost h = tt

failed-not_served : (o : LogOutcome) → IsFailure o → o ≢ served
unfolding IsFailure
failed-not_served o h e = absurd (subst IsFailure e h)

none_due :
    {A : Type 0} (value sample : A → ℕ) (now next : ℕ)
    → now < next
    → (xs : List A) → All (λ x. IsBefore next (value x) (sample x)) xs
    → All (λ x. is_due now (value x) (sample x) ≡ false) xs
none_due value sample now next lt [] h = tt
none_due value sample now next lt (x ∷ xs) h =
    (ground (arith, lt, h.0), none_due value sample now next lt xs h.1)

-- The PLC at its place, behind two changes that make any PLC quiet.
changed_at-IsQuiet :
    (f g : Plc → Plc)
    → ((q : Plc) → IsQuiet (g (f q)))
    → (i : ℕ) (ps : List Plc) → IsQuiet (get_or (changed_at g i (changed_at f i ps)) i nobody)
changed_at-IsQuiet f g h i [] = (tt, tt)
changed_at-IsQuiet f g h zero (p ∷ ps) = h p
changed_at-IsQuiet f g h (suc i) (p ∷ ps) = changed_at-IsQuiet f g h i ps

module _ {c : Calls} where
  either :
      {A : Type 0} (P : A × Globals c → Type 0) (b : Bool) (m n : Act c A) (s : Globals c)
      → (b ≡ true → P (m s))
      → (b ≡ false → P (n s))
      → P ((if b then m else n) s)
  either P true m n s yes_case no_case = yes_case refl
  either P false m n s yes_case no_case = no_case refl

  failed-IsFailure : (i now errors : ℕ) (s : Globals c) → IsFailure (failed i now errors s).0
  unfolding failed IsFailure
  failed-IsFailure i now errors s =
      let s1 = (set_errors {c = c} i errors s).1 in
      let s2 = (suspend {c = c} i (now + wait_for_reconnect) s1).1 in
      let checked = λ (back : Bool).
        if back
        then (do set_errors {c = c} i 0; suspend i now; pure reconnected)
        else (do suspend i (now + 3 * wait_for_reconnect); pure lost) in
      either (λ r. IsFailure r.0) (ltb errors max_err_before_check) (pure suspended)
        (do back ← session_and_connection i; checked back) s2 (λ _. tt)
        (λ _.
          let back = session_and_connection i s2 in
          either (λ r. IsFailure r.0) back.0
            (do set_errors {c = c} i 0; suspend i now; pure reconnected)
            (do suspend i (now + 3 * wait_for_reconnect); pure lost) back.1 (λ _. tt) (λ _. tt))

  IsQuietAt : ℕ → LogOutcome × Globals c → Type 0
  IsQuietAt i r = r.0 ≡ served → IsQuiet (get_or r.1.plcs i nobody)

  serve-IsQuietAt : (i now : ℕ) (s : Globals c) → IsQuietAt i (serve i now s)
  unfolding serve IsQuietAt
  serve-IsQuietAt i now s =
      let p = get_or s.plcs i nobody in
      let first : Sampling = record {
        next_time = now + idle_time;
        comm_err = true;
        read_something = false;
      } in
      let tags = sampled_tags now p p.tags first s in
      let packets = sampled_packets now p p.packets tags.0.1 tags.1 in
      let ts = sampled_tags-sooner now p p.tags first s in
      let ks = sampled_packets-sooner now p p.packets tags.0.1 tags.1 in
      let fill = λ (q : Plc). record q {
        tags = tags.0.0;
        packets = packets.0.0;
        next_time = packets.0.1.next_time;
      } in
      let s' = (change_plc {c = c} i fill packets.1).1 in
      either (IsQuietAt i) (packets.0.1.comm_err && packets.0.1.read_something)
        (failed i now (p.errors + 1)) (do set_errors i 0; pure served) s'
        (λ _ e. absurd (
          failed-not_served (failed i now (p.errors + 1) s').0
            (failed-IsFailure i now (p.errors + 1) s') e))
        (λ _ e.
          changed_at-IsQuiet fill (λ q. record q { errors = 0 })
            (λ q. (
              earlier (λ t. t.time_value) (λ t. t.time_sample) tags.0.1.next_time
                  packets.0.1.next_time ks.0 tags.0.0 ts.1,
              ks.1,
            ))
            i packets.1.plcs)

  connection_first-IsQuietAt : (i now : ℕ) (s : Globals c) → IsQuietAt i (connection_first i now s)
  unfolding connection_first IsQuietAt
  connection_first-IsQuietAt i now s =
      let p = get_or s.plcs i nobody in
      let there = (if p.connection == null then check_connection i else pure true) s in
      either (IsQuietAt i) there.0 (serve i now)
        (do suspend i (now + wait_for_reconnect); pure no_connection) there.1
        (λ _. serve-IsQuietAt i now there.1) (λ _ e. absurd (cc e))

  session_first-IsQuietAt : (i now : ℕ) (s : Globals c) → IsQuietAt i (session_first i now s)
  unfolding session_first IsQuietAt
  session_first-IsQuietAt i now s =
      let p = get_or s.plcs i nobody in
      let there = (if p.session == null then check_session i else pure true) s in
      either (IsQuietAt i) there.0 (connection_first i now)
        (do suspend i (now + wait_for_reconnect); pure no_session) there.1
        (λ _. connection_first-IsQuietAt i now there.1) (λ _ e. absurd (cc e))

  log_plc-IsQuietAt : (i : ℕ) (s : Globals c) → IsQuietAt i (log_plc i s)
  unfolding log_plc IsQuietAt
  log_plc-IsQuietAt i s =
      let timed = call {c = c} c.time s in
      either (IsQuietAt i) (ltb timed.0 (get_or s.plcs i nobody).next_time) (pure waiting)
        (session_first i timed.0) timed.1 (λ _ e. absurd (cc e))
        (λ _. session_first-IsQuietAt i timed.0 timed.1)

  serve-IsAwake : (i now : ℕ) (s : Globals c) → IsAwake (serve i now s).0
  unfolding serve IsAwake
  serve-IsAwake i now s =
      let p = get_or s.plcs i nobody in
      let first : Sampling = record {
        next_time = now + idle_time;
        comm_err = true;
        read_something = false;
      } in
      let tags = sampled_tags now p p.tags first s in
      let packets = sampled_packets now p p.packets tags.0.1 tags.1 in
      let fill = λ (q : Plc). record q {
        tags = tags.0.0;
        packets = packets.0.0;
        next_time = packets.0.1.next_time;
      } in
      let s' = (change_plc {c = c} i fill packets.1).1 in
      either (λ r. IsAwake r.0) (packets.0.1.comm_err && packets.0.1.read_something)
        (failed i now (p.errors + 1)) (do set_errors i 0; pure served) s'
        (λ _.
          IsFailure-IsAwake (failed i now (p.errors + 1) s').0
            (failed-IsFailure i now (p.errors + 1) s'))
        (λ _. tt)

  connection_first-IsAwake : (i now : ℕ) (s : Globals c) → IsAwake (connection_first i now s).0
  unfolding connection_first IsAwake
  connection_first-IsAwake i now s =
      let p = get_or s.plcs i nobody in
      let there = (if p.connection == null then check_connection i else pure true) s in
      either (λ r. IsAwake r.0) there.0 (serve i now)
        (do suspend i (now + wait_for_reconnect); pure no_connection) there.1
        (λ _. serve-IsAwake i now there.1) (λ _. tt)

  session_first-IsAwake : (i now : ℕ) (s : Globals c) → IsAwake (session_first i now s).0
  unfolding session_first IsAwake
  session_first-IsAwake i now s =
      let p = get_or s.plcs i nobody in
      let there = (if p.session == null then check_session i else pure true) s in
      either (λ r. IsAwake r.0) there.0 (connection_first i now)
        (do suspend i (now + wait_for_reconnect); pure no_session) there.1
        (λ _. connection_first-IsAwake i now there.1) (λ _. tt)

  log_plc-waiting :
      (i : ℕ) (s : Globals c)
      → (log_plc i s).0 ≡ waiting
      → (c.time s.world).0 < (get_or s.plcs i nobody).next_time
  unfolding log_plc IsAwake
  log_plc-waiting i s =
      let timed = call {c = c} c.time s in
      let p = get_or s.plcs i nobody in
      either (λ r. r.0 ≡ waiting → timed.0 < p.next_time) (ltb timed.0 p.next_time) (pure waiting)
        (session_first i timed.0) timed.1 (λ h _. ground (arith, h))
        (λ _ e. absurd (subst IsAwake e (session_first-IsAwake i timed.0 timed.1)))

  -- A PLC that Logger has served without an error, and whose Next_Time and values nothing has changed
  -- since, is passed over only at a time when none of its tags and none of its packets is due.
  pub log_plc-prompt :
      (i : ℕ) (s s' : Globals c)
      → (log_plc i s).0 ≡ served
      → get_or s'.plcs i nobody ≡ get_or (log_plc i s).1.plcs i nobody
      → (log_plc i s').0 ≡ waiting
      → All
          (λ t. is_due (c.time s'.world).0 t.time_value t.time_sample ≡ false)
          (get_or s'.plcs i nobody).tags
        × All
            (λ k. is_due (c.time s'.world).0 k.time_value k.time_sample ≡ false)
            (get_or s'.plcs i nobody).packets
  unfolding IsQuietAt
  log_plc-prompt i s s' done same passed =
      let quiet = subst IsQuiet (sym same) (log_plc-IsQuietAt i s done) in
      let early = log_plc-waiting i s' passed in
      let p = get_or s'.plcs i nobody in
      (
        none_due (λ t. t.time_value) (λ t. t.time_sample) (c.time s'.world).0 p.next_time early
            p.tags quiet.0,
        none_due (λ k. k.time_value) (λ k. k.time_sample) (c.time s'.world).0 p.next_time early
            p.packets quiet.1,
      )
