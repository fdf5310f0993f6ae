-- ===== src/TuxAb/Links/Sessions.antt =====
-- BuildSession and CheckSession keep the pointers in the lists.
use tux_plc.Base.{
  ℕ, ◌≡◌, ◌≢◌, refl, inl, inr, Bool, true, false, Bool-cases, List, [], ◌∷◌, All, get_or, ◌==◌,
  Option, none, some, arith, if◌then◌else◌,
}
use tux_plc.Base.Int.{◌==ℤ◌}
use tux_plc.Tuxeip.Link.{e_rcv_timeout}
use tux_plc.TuxAb.{Plc}
use tux_plc.TuxAb.Paths.{ParsedPath}
use tux_plc.TuxAb.Daemon.{
  Calls, Globals, Act, null, nobody, begins_with, find_session, found_or, parse, removed, changed,
  ◌>>=◌, ◌>>◌, pure, call, set_session,
}
use tux_plc.TuxAb.Sessions.{
  new_session, session_opened, found_or_opened, session_on, build_session, kill_session,
  replaced_session, silent_session, check_session, without_session,
}
use tux_plc.TuxAb.Links.{
  IsLinked, IsLinkedPlc, IsHeld, IsHeld-new, AreLinked-session, AreLinked-add_session,
  AreLinked-without_session,
}

-- An action that leaves the pointers in the lists.
abbrev pub Keeps : {c : Calls} {A : Type 0} → Act c A → Type 0
Keeps {c} m = (s : Globals c) → IsLinked s → IsLinked (m s).1

module _ {c : Calls} where
  pub if-IsLinked :
      {A : Type 0} (b : Bool) (m n : Act c A) (s : Globals c)
      → (b ≡ true → IsLinked (m s).1)
      → (b ≡ false → IsLinked (n s).1)
      → IsLinked ((if b then m else n) s).1
  if-IsLinked true m n s then_case else_case = then_case refl
  if-IsLinked false m n s then_case else_case = else_case refl

  IsFound : Act c ℕ → Globals c → Type 0
  IsFound m s = IsLinked (m s).1 × IsHeld (m s).1.sessions (m s).0

  found_or-IsFound :
      (b : Bool) (v : ℕ) (rest : Act c ℕ) (s : Globals c)
      → IsLinked s
      → IsHeld s.sessions v
      → IsFound rest s
      → IsFound (found_or b v rest) s
  unfolding IsFound
  found_or-IsFound true v rest s l h r = (l, h)
  found_or-IsFound false v rest s l h r = r

  find_session-IsFound :
      (ip : List ℕ) (ps : List Plc) (s : Globals c)
      → IsLinked s
      → All (IsLinkedPlc s.sessions s.connections) ps
      → IsFound (find_session ip ps) s
  unfolding find_session IsFound
  find_session-IsFound ip [] s l h = (l, refl)
  find_session-IsFound ip (p ∷ ps) s l h =
      found_or-IsFound (begins_with ip (parse p.plc_path s).0) p.session (find_session ip ps)
        (parse p.plc_path s).1 l h.0.0 (find_session-IsFound ip ps (parse p.plc_path s).1 l h.1)

  new_session-Keeps : (i v : ℕ) → v ≢ null → Keeps {c = c} (new_session i v)
  unfolding new_session
  new_session-Keeps i v ne s l =
      let added =
        AreLinked-session s.plcs _ s.connections
          (AreLinked-add_session s.plcs s.sessions s.connections l v ne) i v
          (IsHeld-new s.sessions v) in
      elim (Bool-cases (c.register_session v (c.set_timeout v s.world)).0) [
        | inl done ↦ rw (done, new_session) added
        | inr failed ↦ rw (failed, new_session) added
      ]

  session_opened-Keeps : (i v : ℕ) → Keeps {c = c} (session_opened i v)
  unfolding session_opened
  session_opened-Keeps i v s l =
      if-IsLinked (v == null) (pure false) (new_session i v) s (λ _. l)
        (λ e. new_session-Keeps i v (λ z. ground (arith, e, z)) s l)

  found_or_opened-Keeps :
      (i : ℕ) (ip : List ℕ) (v : ℕ) (s : Globals c)
      → IsLinked s
      → IsHeld s.sessions v
      → IsLinked (found_or_opened i ip v s).1
  unfolding found_or_opened
  found_or_opened-Keeps i ip v s l h =
      if-IsLinked (v == null) (do new ← call (c.open_session ip); session_opened i new)
        (do set_session i v; pure true) s
        (λ _.
          session_opened-Keeps i (c.open_session ip s.world).0
            (record s { world = (c.open_session ip s.world).1 }) l)
        (λ _. AreLinked-session s.plcs s.sessions s.connections l i v h)

  session_on-Keeps : (i : ℕ) (r : Option ParsedPath) → Keeps {c = c} (session_on i r)
  unfolding session_on IsFound
  session_on-Keeps i none s l = l
  session_on-Keeps i (some r) s l =
      let found = find_session-IsFound r.ip s.plcs s l l.0 in
      found_or_opened-Keeps i r.ip (find_session r.ip s.plcs s).0 (find_session r.ip s.plcs s).1
        found.0 found.1

  pub build_session-Keeps : (i : ℕ) → Keeps {c = c} (build_session i)
  unfolding build_session
  build_session-Keeps i s l =
      let p = get_or s.plcs i nobody in
      if-IsLinked (p.session == null) (do r ← parse p.plc_path; session_on i r) (pure false) s
        (λ _. session_on-Keeps i (parse p.plc_path s).0 (parse p.plc_path s).1 l) (λ _. l)

  replaced_session-Keeps : (i v : ℕ) → (v == null) ≡ false → Keeps {c = c} (replaced_session i v)
  unfolding replaced_session kill_session
  replaced_session-Keeps i v e s l =
      rw (e, replaced_session, kill_session)
        (build_session-Keeps i
          (record s {
            world = c.close_session v (c.unregister_session v s.world);
            sessions = removed v s.sessions;
            plcs = changed (without_session v) s.plcs;
          })
          (AreLinked-without_session s.plcs s.sessions s.connections l v))

  silent_session-Keeps : (i v : ℕ) → (v == null) ≡ false → Keeps {c = c} (silent_session i v)
  unfolding silent_session
  silent_session-Keeps i v e s l =
      if-IsLinked (c.cip_errno s.world ==ℤ e_rcv_timeout) (pure false) (replaced_session i v) s
        (λ _. l) (λ _. replaced_session-Keeps i v e s l)

  pub check_session-Keeps : (i : ℕ) → Keeps {c = c} (check_session i)
  unfolding check_session
  check_session-Keeps i s l =
      let v = (get_or s.plcs i nobody).session in
      if-IsLinked (v == null) (build_session i)
        (do alive ← call (c.list_services v); if alive then pure true else silent_session i v) s
        (λ _. build_session-Keeps i s l)
        (λ e.
          if-IsLinked (c.list_services v s.world).0 (pure true) (silent_session i v)
            (record s { world = (c.list_services v s.world).1 }) (λ _. l)
            (λ _.
              silent_session-Keeps i v e (record s { world = (c.list_services v s.world).1 }) l))
