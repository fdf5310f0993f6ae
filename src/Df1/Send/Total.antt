-- ===== src/Df1/Send/Total.antt =====
-- send_DF1 as a whole ends, with one of four codes.
use tux_plc.Base.{
  ℕ, zero, suc, ◌+◌, ◌≤◌, ◌<◌, ◌≡◌, refl, ◌⊎◌, inl, inr, arith, length, Bool-cases, ◌==◌, leb,
  if◌then◌else◌, some, none, Bool, false, le_ltb,
}
use mathlib.Core.Option
use tux_plc.Base.Int.{ℤ}
use tux_plc.Df1.{ack, nak, success, error_nak, error_send_df1, error_timeout, Msg, Buffer}
use tux_plc.Df1.Buffers.{contents, add_data2buffer_with_dle}
use tux_plc.Df1.Port.{Port, Run, done, Cmd, time}
use tux_plc.Df1.Port.Waiting.{result_of, written, write-written}
use tux_plc.Df1.Send.{
  Answer, silent, heard, answered, is_complete, send_loop, send_frame, send_df1, data_send,
}
use tux_plc.Df1.Send.Ends.{Returns, returns, bind, Fewer, ByAnswer, await-Returns}

-- The codes that the outer loop carries, and those that it returns.
abbrev IsPending : ℤ → Type 0
IsPending e = (e ≡ error_send_df1) ⊎ (e ≡ error_nak)

abbrev pub IsSendCode : ℤ → Type 0
IsSendCode e = (e ≡ success) ⊎ (e ≡ error_timeout) ⊎ (e ≡ error_send_df1) ⊎ (e ≡ error_nak)

IsPending-IsSendCode : (e : ℤ) → IsPending e → IsSendCode e
IsPending-IsSendCode e h = inr (inr h)

abbrev ByCode : ℤ → Port → Type 0
ByCode e q = IsSendCode e

answered-Returns :
    (p : Port) (a : Answer) (nbr_nak : ℕ) (error : ℤ) (next : ℕ → ℕ → ℤ → Cmd ℤ) (q : Port)
    → ByAnswer p a q
    → IsPending error
    → ((n e : ℕ) (err : ℤ) → e ≤ 3 → IsPending err → Fewer p q → Returns ByCode (next n e err q))
    → Returns ByCode (answered a nbr_nak error next q)
unfolding answered
answered-Returns p silent nbr_nak error next q h pending ends = returns (inr (inl refl))
answered-Returns p (heard c nbr_enq) nbr_nak error next q h pending ends =
    elim (Bool-cases (c == ack)) [
      | inl a ↦ rw a (returns (inl refl))
      | inr a ↦ rw a (elim (Bool-cases (c == nak)) [
        | inl b ↦ rw b (elim (Bool-cases (leb (nbr_nak + 1) 3)) [
          | inl d ↦ rw d (ends (nbr_nak + 1) nbr_enq error_nak h.0 (inr refl) h.1)
          | inr d ↦ rw d (returns (inr (inr (inr refl))))
        ])
        | inr b ↦ rw b (elim (Bool-cases (leb nbr_nak 3)) [
          | inl d ↦ rw d (ends nbr_nak nbr_enq error h.0 pending h.1)
          | inr d ↦ rw d (returns (IsPending-IsSendCode error pending))
        ])
      ])
    ]

send_loop-Returns :
    (inner f : ℕ) (b : Buffer) (nbr_nak nbr_enq : ℕ) (error : ℤ) (p : Port)
    → nbr_enq ≤ 3
    → IsPending error
    → length p.input + 14 < inner
    → length p.input < f
    → Returns ByCode (send_loop inner f b nbr_nak nbr_enq error p)
unfolding send_loop time
send_loop-Returns inner zero b nbr_nak nbr_enq error p small pending enough h = absurd (omega arith)
send_loop-Returns inner (suc f) b nbr_nak nbr_enq error p small pending enough h =
    let p' = written (contents b) p in
    rw (write-written (contents b) p)
      (elim (Bool-cases (is_complete (result_of p.accepted (contents b)) b.size)) [
        | inl c ↦ rw c (
            bind (await-Returns inner p.now nbr_enq p' small (omega arith) (omega arith)) λ a q h'.
              answered-Returns p' a nbr_nak error (send_loop inner f b) q h' pending
                λ n e err small' pending' fewer.
                  send_loop-Returns inner f b n e err q small' pending' (omega arith) (omega arith))
        | inr c ↦ rw c (returns (IsPending-IsSendCode error pending))
      ])

result_of_run :
    {r : Run ℤ} → Returns ByCode r → (e : ℤ) × (q : Port) × (r ≡ done e q) × IsSendCode e
result_of_run (returns {a = e} {p = q} h) = (e, q, refl, h)

map-some :
    {A B : Type 0} (f : A → B) (t : Bool) (x : A)
    → t ≡ false
    → (y : B) × (Option.map f (if t then none else some x) ≡ some y)
map-some f t x e = (f x, rw e refl)

data_send-some : (m : Msg) → m.size ≤ 249 → (b : Buffer) × (data_send m ≡ some b)
unfolding data_send add_data2buffer_with_dle
data_send-some m h = map-some _ _ _ (le_ltb 255 (m.size + 6) (omega arith))

-- On a line where a finite list of selects meets whatever it may, each taking any time, and where
-- every select behind it waits a second and finds nothing, whatever the writes return, send_DF1 of
-- a message of at most 249 bytes of data returns, and with SUCCESS, ERROR_TIMEOUT, ERROR_SENDDF1
-- or ERROR_NAK. Fuel of 15 more than the list is enough.
pub send_df1-ends :
    (m : Msg) (p : Port) (fuel : ℕ)
    → m.size ≤ 249
    → length p.input + 14 < fuel
    → (e : ℤ) × (q : Port) × (send_df1 fuel m p ≡ done e q) × IsSendCode e
unfolding send_df1 send_frame
send_df1-ends m p fuel short enough =
    let (b, e) = data_send-some m short in
    rw e (
      result_of_run (
        send_loop-Returns fuel fuel b 0 0 error_send_df1 p (omega arith) (inl refl) enough
          (omega arith)))
