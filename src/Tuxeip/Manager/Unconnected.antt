-- ===== src/Tuxeip/Manager/Unconnected.antt =====
-- The requests and replies of _UnconnectedSend.
use mathlib.Core.List.{append_assoc}
use mathlib.Core.Option.{some-injective}
use mathlib.Core.Path.{subst}
use tux_plc.Base.{
  ℕ, suc, ltb, ◌+◌, ◌*◌, ◌/◌, ◌%◌, ◌<◌, ◌≡◌, refl, sym, ◌∙◌, inl, inr, Bool, Bool-cases, true,
  false, ◌==◌, Option, none, some, arith, List, [], ◌∷◌, ◌++◌, length, take, drop, get_or,
  take-append, drop-append, length-append, held,
}
use tux_plc.Base.Int.{pos}
use tux_plc.Modbus.Words.{word_at}
use tux_plc.Tuxeip.Link.{Net, CipClient, mr_error}
use tux_plc.Tuxeip.Eip.{Session}
use tux_plc.Tuxeip.Router.{MrReply, get_mr_extended_status}
use tux_plc.Tuxeip.Manager.{
  send_over, usint_path, unconnected_request, unconnected_reply, unconnected_send, is_reply_to, pad,
}

-- A router's view of a request: the message behind its length, and the route behind the padded message
-- and its number of words.
abbrev pub message_of : List ℕ → List ℕ
message_of l = take (word_at (held l) 2) (drop 4 l)

abbrev pub behind_message : List ℕ → List ℕ
behind_message l = drop (word_at (held l) 2 + word_at (held l) 2 % 2) (drop 4 l)

abbrev pub route_of : List ℕ → List ℕ
route_of l = take (2 * get_or (behind_message l) 0 0) (drop 2 (behind_message l))

length-pad : (l : List ℕ) → length (l ++ pad l) ≡ length l + length l % 2
length-pad l = elim (Bool-cases (length l % 2 == 1)) [
  | inl e ↦ rw (length-append l (pad l), e) (ground arith)
  | inr e ↦ rw (length-append l (pad l), e) (ground arith)
]

take-append_of : {n : ℕ} (xs ys : List ℕ) → n ≡ length xs → take n (xs ++ ys) ≡ xs
take-append_of xs ys e = rw e (take-append xs ys)

drop-append_of : {n : ℕ} (xs ys : List ℕ) → n ≡ length xs → drop n (xs ++ ys) ≡ ys
drop-append_of xs ys e = rw e (drop-append xs ys)

module _ (prio ticks : ℕ) (mr route : List ℕ) (short : length mr < 65536) where
  size_field : word_at (held (unconnected_request prio ticks mr route)) 2 ≡ length mr
  unfolding unconnected_request
  size_field = omega arith

  unconnected-message : message_of (unconnected_request prio ticks mr route) ≡ mr
  unfolding unconnected_request
  unconnected-message =
      rw (append_assoc mr (pad mr) (length route % 256 / 2 ∷ 0 ∷ (route ++ pad route))) (
        take-append_of mr (pad mr ++ (length route % 256 / 2 ∷ 0 ∷ (route ++ pad route)))
          size_field)

  unconnected-behind :
      behind_message (unconnected_request prio ticks mr route)
      ≡ length route % 256 / 2 ∷ 0 ∷ (route ++ pad route)
  unfolding unconnected_request
  unconnected-behind =
      drop-append_of (mr ++ pad mr) (length route % 256 / 2 ∷ 0 ∷ (route ++ pad route))
        (rw size_field (sym (length-pad mr)))

-- A router finds in the request of _UnconnectedSend the message and the route that it was built of, for a
-- message of less than 2^16 bytes and a route of whole words, of less than 256 bytes.
pub unconnected_request-read :
    (prio ticks : ℕ) (mr route : List ℕ) (words : ℕ)
    → length mr < 65536
    → length route ≡ 2 * words
    → length route < 256
    → (message_of (unconnected_request prio ticks mr route) ≡ mr)
      × (route_of (unconnected_request prio ticks mr route) ≡ route)
unconnected_request-read prio ticks mr route words short whole few = (
  unconnected-message prio ticks mr route short,
  rw (unconnected-behind prio ticks mr route short)
      (take-append_of route (pad route) (omega (arith, whole, few))),
)

module _ {net : Net} where
  -- A reply of a service that answers, whose status is the error that is set.
  abbrev pub Answers : Bool → ℕ → CipClient net → MrReply → Type 0
  Answers routed service c r =
      (is_reply_to routed service (r.memory 0) ≡ true)
      × (c.err ≡ record {
        kind = mr_error;
        no = pos (r.memory 2);
        ext_no = get_mr_extended_status r.memory;
      })

  unconnected_reply-Answers :
      (routed : Bool) (service : ℕ) (o : Option MrReply) (c : CipClient net) (r : MrReply)
      → (unconnected_reply routed service o c).0 ≡ some r
      → Answers routed service (unconnected_reply routed service o c).1 r
  unfolding unconnected_reply
  unconnected_reply-Answers routed service none c r h = absurd (ground (arith, h))
  unconnected_reply-Answers routed service (some x) c r h =
      elim (Bool-cases (is_reply_to routed service (x.memory 0))) [
        | inl e ↦
            let taken : (unconnected_reply routed service (some x) c).0 ≡ some x = rw e refl in
            subst (Answers routed service (unconnected_reply routed service (some x) c).1)
              (some-injective x r (sym taken ∙ h)) (rw e (refl, refl))
        | inr e ↦
            let gone : (unconnected_reply routed service (some x) c).0 ≡ none = rw e refl in
            absurd (ground (arith, sym gone ∙ h))
      ]

  send_over-Answers :
      (s : Session) (prio ticks service : ℕ) (mr route : List ℕ) (c : CipClient net) (r : MrReply)
      → (send_over s prio ticks (service ∷ mr) route c).0 ≡ some r
      → Answers (ltb 0 (length route)) service (send_over s prio ticks (service ∷ mr) route c).1 r
  unfolding send_over
  send_over-Answers s prio ticks service mr [] c r h =
      unconnected_reply-Answers false service _ _ r h
  send_over-Answers s prio ticks service mr (x ∷ route) c r h =
      let routed : ltb 0 (suc (length route)) ≡ true = ground arith in
      rw routed (unconnected_reply-Answers true service _ _ r h)

  -- Where _UnconnectedSend returns a reply, its service is the request's with 0x80 added or, with a
  -- route, that is, with one whose size as a CIP_USINT is not 0, that of Unconnected_Send, and the error that is set is the reply's status.
  pub unconnected_send-Answers :
      (s : Session) (prio ticks service : ℕ) (mr route : List ℕ) (c : CipClient net) (r : MrReply)
      → (unconnected_send s prio ticks (service ∷ mr) route c).0 ≡ some r
      → Answers
          (ltb 0 (length (usint_path route)))
          service
          (unconnected_send s prio ticks (service ∷ mr) route c).1
          r
  unfolding unconnected_send
  unconnected_send-Answers s prio ticks service mr route c r h =
      send_over-Answers s prio ticks service mr (usint_path route) c r h
