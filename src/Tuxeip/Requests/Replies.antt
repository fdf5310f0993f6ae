-- ===== src/Tuxeip/Requests/Replies.antt =====
-- Which replies a typed read takes.
use mathlib.Core.Option.{some-injective}
use mathlib.Core.Path.{subst}
use tux_plc.Base.{
  ℕ, ◌+◌, ◌≡◌, refl, ap, sym, ◌∙◌, inl, inr, Bool, Bool-cases, true, ◌==◌, ltb, ==_eq, Option, none,
  some, arith, List, length,
}
use tux_plc.Base.Int.{ℤ, pos, negsuc}
use tux_plc.Base.Memory.{Memory, laid}
use tux_plc.Tuxeip.Pccc.{PlcRead, decode_pccc, minus}
use tux_plc.Tuxeip.Eip.{Session}
use tux_plc.Tuxeip.Link.{Net, CipClient, internal}
use tux_plc.Tuxeip.Manager.{usint_path, is_reply_to, unconnected_send, priority, timeout_ticks}
use tux_plc.Tuxeip.Manager.Unconnected.{unconnected_send-Answers}
use tux_plc.Tuxeip.Router.{MrReply, build_mr_request, get_mr_data}
use tux_plc.Tuxeip.Requests.{
  PcccReply, LogicalBinaryAddress, pccc_request, execute_pccc_service, sized_pccc, requestor_reply,
  unconnected_pccc, send_unconnected_pccc_request, decoded_read, with_mask, read_plc_data,
  build_plc_read_data_request,
}

-- The PCCC reply is that of a message of the router: the bytes behind the requestor, as many as its size
-- leaves.
abbrev pub Wrapped : Net → MrReply → PcccReply → Type 0
Wrapped net r p =
    let at = get_mr_data r.memory in
    let head = r.memory at in
    (minus (minus (pos r.size) at) head ≡ pos p.size)
    × (p.memory ≡ laid (net.junk) 0 p.size (λ i. r.memory (at + head + i)))

-- The message of a taken reply is the one that came: it answers, has the status 0, and holds the PCCC
-- reply.
abbrev pub Carries : Net → Bool → Option MrReply → PcccReply → Type 0
Carries net routed o p =
    (r : MrReply) × (o ≡ some r)
    × (is_reply_to routed execute_pccc_service (r.memory 0) ≡ true)
    × (r.memory 2 ≡ 0)
    × Wrapped net r p

masked-some :
    (mask : ℕ) (o : Option PlcRead) (x : PlcRead) (k : ℕ)
    → with_mask mask o ≡ some (x, k)
    → (o ≡ some x) × (k ≡ mask)
masked-some mask none x k h = absurd (ground (arith, h))
masked-some mask (some r) x k h =
    let same = some-injective (r, mask) (x, k) h in
    (ap (λ q. some (q.0)) same, sym (ap (λ q. q.1) same))

module _ {net : Net} where
  sized_pccc-size :
      (line : ℕ) (r : Memory) (off : ℕ) (size : ℤ) (c : CipClient net) (p : PcccReply)
      → (sized_pccc line r off size c).0 ≡ some p
      → (size ≡ pos p.size) × (p.memory ≡ laid net.junk 0 p.size (λ i. r (off + i)))
  unfolding sized_pccc
  sized_pccc-size line r off (negsuc n) c p h = absurd (ground (arith, h))
  sized_pccc-size line r off (pos n) c p h =
      let same =
        some-injective (record { memory = laid net.junk 0 n (λ i. r (off + i)); size = n }) p h in
      subst (λ q. (pos n ≡ pos (q.size)) × (q.memory ≡ laid net.junk 0 (q.size) (λ i. r (off + i))))
        same (refl, refl)

  requestor_reply-Wrapped :
      (line : ℕ) (r : MrReply) (size : ℤ) (c : CipClient net) (p : PcccReply)
      → minus (pos r.size) (get_mr_data r.memory) ≡ size
      → (requestor_reply line r.memory size c).0 ≡ some p
      → Wrapped net r p
  unfolding requestor_reply
  requestor_reply-Wrapped line r (negsuc n) c p e h = absurd (ground (arith, h))
  requestor_reply-Wrapped line r (pos n) c p e h = rw e (sized_pccc-size line r.memory _ _ c p h)

  unconnected_pccc-Carries :
      (routed : Bool) (o : Option MrReply) (c : CipClient net) (p : PcccReply)
      → ((r : MrReply) → o ≡ some r → is_reply_to routed execute_pccc_service (r.memory 0) ≡ true)
      → (unconnected_pccc o c).0 ≡ some p
      → Carries net routed o p
  unfolding unconnected_pccc
  unconnected_pccc-Carries routed none c p answers h = absurd (ground (arith, h))
  unconnected_pccc-Carries routed (some r) c p answers h = elim (Bool-cases (r.memory 2 == 0)) [
    | inr e ↦
        let gone : (unconnected_pccc (some r) c).0 ≡ none = rw e refl in
        absurd (ground (arith, sym gone ∙ h))
    | inl e ↦
        let size = minus (pos r.size) (get_mr_data r.memory) in
        let step : (unconnected_pccc (some r) c).0 ≡ (requestor_reply 341 r.memory size c).0 =
          rw e refl in
        (
          r,
          refl,
          answers r refl,
          ==_eq (r.memory 2) 0 e,
          requestor_reply-Wrapped 341 r size c p refl (sym step ∙ h),
        )
  ]

  -- What _UnconnectedSend of a PCCC request returns.
  abbrev pub sent_for : Session → List ℕ → List ℕ → CipClient net → Option MrReply
  sent_for s request route c =
      (unconnected_send s priority timeout_ticks (pccc_request request) route
        (record c { err = internal (pos 0) })).0

  send_unconnected_pccc_request-Carries :
      (s : Session) (request route : List ℕ) (c : CipClient net) (p : PcccReply)
      → (send_unconnected_pccc_request s request route c).0 ≡ some p
      → Carries net (ltb 0 (length (usint_path route))) (sent_for s request route c) p
  unfolding send_unconnected_pccc_request pccc_request build_mr_request
  send_unconnected_pccc_request-Carries s request route c p h =
      let d : CipClient net = record c { err = internal (pos 0) } in
      let w = unconnected_send s priority timeout_ticks (pccc_request request) route d in
      unconnected_pccc-Carries (ltb 0 (length (usint_path route))) w.0 w.1 p
        (λ r taken.
          (unconnected_send-Answers s priority timeout_ticks execute_pccc_service _ route d r
            taken).0)
        h

  decoded_read-decode_pccc :
      (mask : ℕ) (o : Option PcccReply) (c : CipClient net) (x : PlcRead) (k : ℕ)
      → (decoded_read mask o c).0 ≡ some (x, k)
      → (p : PcccReply) × (o ≡ some p) × (decode_pccc p.memory ≡ some x) × (k ≡ mask)
  unfolding decoded_read
  decoded_read-decode_pccc mask none c x k h = absurd (ground (arith, h))
  decoded_read-decode_pccc mask (some p) c x k h =
      let d = masked-some mask (decode_pccc p.memory) x k h in (p, refl, d.0, d.1)

  -- Where a typed read without a connection gives values, they are what _DecodePCCC makes of a PCCC reply
  -- that the message of the router carried which _UnconnectedSend of the request returned, whose service answers Execute_PCCC or, with a route,
  -- Unconnected_Send, and whose status is 0; the PCCC reply is the bytes behind the requestor, and the
  -- mask is the address's.
  pub read_plc_data-Carries :
      (s : Session) (route : List ℕ) (tns : ℕ) (a : LogicalBinaryAddress) (number : ℕ)
      (c : CipClient net) (x : PlcRead) (k : ℕ)
      → (read_plc_data s route tns a number c).0 ≡ some (x, k)
      → (p : PcccReply) × (decode_pccc p.memory ≡ some x)
        × (k ≡ a.mask)
        × Carries net
            (ltb 0 (length (usint_path route)))
            (sent_for s (build_plc_read_data_request tns a number) route c)
            p
  unfolding read_plc_data
  read_plc_data-Carries s route tns a number c x k h =
      let w = send_unconnected_pccc_request s (build_plc_read_data_request tns a number) route c in
      let d = decoded_read-decode_pccc a.mask w.0 w.1 x k h in
      (d.0, d.2, d.3, send_unconnected_pccc_request-Carries s _ route c d.0 d.1)
