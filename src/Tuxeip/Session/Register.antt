-- ===== src/Tuxeip/Session/Register.antt =====
-- When a session gets its handle.
use tux_plc.Base.{
  ℕ, ◌≡◌, ◌≢◌, refl, ap, sym, ◌∙◌, inl, inr, Bool-cases, ◌==◌, ==_eq, Option, none, some, arith,
}
use tux_plc.Base.Int.{ℤ, pos, is_neg}
use tux_plc.Base.Memory.{Memory}
use tux_plc.Modbus.Words.{word_at, dword_at}
use tux_plc.Tuxeip.Eip.{Session, eip_registersession}
use tux_plc.Tuxeip.Link.{Net, CipClient, internal, cip_send_data, cip_recv_data}
use tux_plc.Tuxeip.Pccc.{int_of_longword}
use tux_plc.Tuxeip.Session.{register_session, register_sent, registered, register_frame}

status_zero : (w : ℕ) → int_of_longword w ≡ pos 0 → w ≡ 0
status_zero w h = ground arith

-- `r` is what was received.
Handled : Option Memory → ℤ × Session → Type 0
Handled r p =
    (p.0 ≢ pos 0 → p.1.handle ≡ 0)
    × (p.0 ≡ pos 0
        → (m : Memory) × (r ≡ some m)
          × (word_at m 0 ≡ eip_registersession)
          × (dword_at m 8 ≡ 0)
          × (p.1.handle ≡ dword_at m 4))

module _ {net : Net} where
  registered-failed :
      (s : Session) (r : Option Memory) (c : CipClient net)
      → s.handle ≡ 0
      → (registered s r c).0.0 ≢ pos 0
      → (registered s r c).0.1.handle ≡ 0
  unfolding registered
  registered-failed s none c h failed = h
  registered-failed s (some m) c h failed = elim (Bool-cases (word_at m 0 == eip_registersession)) [
    | inr e ↦ rw e h
    | inl e ↦ elim (Bool-cases (dword_at m 8 == 0)) [
      | inl z ↦ absurd (failed (rw e (ap int_of_longword (==_eq (dword_at m 8) 0 z))))
      | inr z ↦ rw (e, z) h
    ]
  ]

  registered-done :
      (s : Session) (r : Option Memory) (c : CipClient net)
      → (registered s r c).0.0 ≡ pos 0
      → (m : Memory) × (r ≡ some m)
        × (word_at m 0 ≡ eip_registersession)
        × (dword_at m 8 ≡ 0)
        × ((registered s r c).0.1.handle ≡ dword_at m 4)
  unfolding registered
  registered-done s none c h = absurd (ground (arith, h))
  registered-done s (some m) c h = elim (Bool-cases (word_at m 0 == eip_registersession)) [
    | inr e ↦ absurd (ground (arith, h, e))
    | inl e ↦
        let zero_status : dword_at m 8 ≡ 0 = status_zero (dword_at m 8) (sym (rw e refl) ∙ h) in
        (m, refl, ==_eq (word_at m 0) eip_registersession e, zero_status, rw (e, zero_status) refl)
  ]

  register_sent-Handled :
      (s : Session) (res : ℤ) (c : CipClient net)
      → s.handle ≡ 0
      → Handled (cip_recv_data s.timeout c).0 (register_sent s res c).0
  unfolding register_sent Handled
  register_sent-Handled s res c h = elim (Bool-cases (is_neg res)) [
    | inl e ↦ rw e (λ failed. h, λ done. absurd (ground (arith, e, done)))
    | inr e ↦
        let r = cip_recv_data s.timeout c in
        rw e (registered-failed s r.0 r.1 h, registered-done s r.0 r.1)
  ]

  -- The client behind the request of _RegisterSession.
  abbrev pub requested : Session → CipClient net → CipClient net
  requested s c =
      (cip_send_data (register_frame (record s { handle = 0 }))
        (record c { err = internal (pos 0) })).1

  -- Where _RegisterSession does not return 0, the session has no handle. Where it returns 0, what was
  -- received behind the request is a reply to this command with the status 0, and the session has the
  -- handle of that reply.
  pub register_session-handle :
      (s : Session) (c : CipClient net)
      → ((register_session s c).0.0 ≢ pos 0 → (register_session s c).0.1.handle ≡ 0)
        × ((register_session s c).0.0 ≡ pos 0
            → (m : Memory) × ((cip_recv_data s.timeout (requested s c)).0 ≡ some m)
              × (word_at m 0 ≡ eip_registersession)
              × (dword_at m 8 ≡ 0)
              × ((register_session s c).0.1.handle ≡ dword_at m 4))
  unfolding register_session Handled
  register_session-handle s c =
      let w =
        cip_send_data (register_frame (record s { handle = 0 }))
          (record c { err = internal (pos 0) }) in
      register_sent-Handled (record s { handle = 0 }) w.0 w.1 refl
