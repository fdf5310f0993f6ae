-- ===== src/TuxAb/Quiet.antt =====
-- The time at which Logger looks at a PLC again is not behind the time at which a tag or packet is due.
pub mod Prompt
use tux_plc.Base.{
  ℕ, zero, suc, ◌+◌, ◌≤◌, ◌<◌, ◌≡◌, refl, Bool, true, false, Bool-cases, inl, inr, ◌&&◌, List, [],
  ◌∷◌, All, get_or, length, ltb, leb, ◌==◌, Option, none, some, arith, if◌then◌else◌,
}
use tux_plc.Base.Int.{ℤ, pos}
use tux_plc.TuxAb.{Tag, Packet, Plc}
use tux_plc.TuxAb.Daemon.{
  Calls, Globals, Act, null, nobody, changed_at, ◌>>=◌, ◌>>◌, pure, call, change_plc,
}
use tux_plc.TuxAb.Sessions.{check_session}
use tux_plc.TuxAb.Connections.{check_connection}
use tux_plc.TuxAb.Logger.{
  Sampling, LogOutcome, waiting, no_session, no_connection, served, suspended, reconnected, lost,
  is_due, sooner, after_read, sampled_tag, sampled_tags, sampled_packet, sampled_packets, read_tag,
  read_packet, suspend, set_errors, session_and_connection, failed, serve, connection_first,
  session_first, log_plc, idle_time, wait_for_reconnect, max_err_before_check,
}

-- The time is not behind the one at which the value is due.
abbrev pub IsBefore : ℕ → ℕ → ℕ → Type 0
IsBefore next value sample = next ≤ value + sample

-- Nothing of the PLC is due before its Next_Time.
abbrev pub IsQuiet : Plc → Type 0
IsQuiet p =
    All (λ t. IsBefore p.next_time t.time_value t.time_sample) p.tags
    × All (λ k. IsBefore p.next_time k.time_value k.time_sample) p.packets

pub earlier :
    {A : Type 0} (value sample : A → ℕ) (next next' : ℕ)
    → next' ≤ next
    → (xs : List A) → All (λ x. IsBefore next (value x) (sample x)) xs
    → All (λ x. IsBefore next' (value x) (sample x)) xs
earlier value sample next next' le [] h = tt
earlier value sample next next' le (x ∷ xs) h =
    (omega (arith, le, h.0), earlier value sample next next' le xs h.1)

sooner_bounds :
    (value sample : ℕ) (r : Sampling)
    → ((sooner value sample r).next_time ≤ r.next_time)
      × IsBefore (sooner value sample r).next_time value sample
sooner_bounds value sample r = (ground arith, ground arith)

module _ {c : Calls} where
  sampled_tag-sooner :
      (now : ℕ) (p : Plc) (t : Tag) (r : Sampling) (s : Globals c)
      → ((sampled_tag now p t r s).0.1.next_time ≤ r.next_time)
        × IsBefore
            (sampled_tag now p t r s).0.1.next_time
            (sampled_tag now p t r s).0.0.time_value
            (sampled_tag now p t r s).0.0.time_sample
  unfolding sampled_tag
  sampled_tag-sooner now p t r s = elim (Bool-cases (is_due now t.time_value t.time_sample)) [
    | inl e ↦
        let one = (read_tag p t s).0 in
        rw (e, sampled_tag) (sooner_bounds one.0.time_value one.0.time_sample (after_read one.1 r))
    | inr e ↦ rw (e, sampled_tag) (sooner_bounds t.time_value t.time_sample r)
  ]

  sampled_packet-sooner :
      (now : ℕ) (p : Plc) (k : Packet) (r : Sampling) (s : Globals c)
      → ((sampled_packet now p k r s).0.1.next_time ≤ r.next_time)
        × IsBefore
            (sampled_packet now p k r s).0.1.next_time
            (sampled_packet now p k r s).0.0.time_value
            (sampled_packet now p k r s).0.0.time_sample
  unfolding sampled_packet
  sampled_packet-sooner now p k r s = elim (Bool-cases (is_due now k.time_value k.time_sample)) [
    | inl e ↦
        let one = (read_packet p k s).0 in
        rw (e, sampled_packet)
          (sooner_bounds one.0.time_value one.0.time_sample (after_read one.1 r))
    | inr e ↦ rw (e, sampled_packet) (sooner_bounds k.time_value k.time_sample r)
  ]

  pub sampled_tags-sooner :
      (now : ℕ) (p : Plc) (ts : List Tag) (r : Sampling) (s : Globals c)
      → ((sampled_tags now p ts r s).0.1.next_time ≤ r.next_time)
        × All
            (λ t. IsBefore (sampled_tags now p ts r s).0.1.next_time t.time_value t.time_sample)
            (sampled_tags now p ts r s).0.0
  unfolding sampled_tags
  sampled_tags-sooner now p [] r s = (omega arith, tt)
  sampled_tags-sooner now p (t ∷ ts) r s =
      let one = sampled_tag now p t r s in
      let first = sampled_tag-sooner now p t r s in
      let rest = sampled_tags-sooner now p ts one.0.1 one.1 in
      (omega (arith, first, rest.0), (omega (arith, first, rest.0), rest.1))

  pub sampled_packets-sooner :
      (now : ℕ) (p : Plc) (ks : List Packet) (r : Sampling) (s : Globals c)
      → ((sampled_packets now p ks r s).0.1.next_time ≤ r.next_time)
        × All
            (λ k. IsBefore (sampled_packets now p ks r s).0.1.next_time k.time_value k.time_sample)
            (sampled_packets now p ks r s).0.0
  unfolding sampled_packets
  sampled_packets-sooner now p [] r s = (omega arith, tt)
  sampled_packets-sooner now p (k ∷ ks) r s =
      let one = sampled_packet now p k r s in
      let first = sampled_packet-sooner now p k r s in
      let rest = sampled_packets-sooner now p ks one.0.1 one.1 in
      (omega (arith, first, rest.0), (omega (arith, first, rest.0), rest.1))
