-- ===== src/Df1/Send/Ends.antt =====
-- send_DF1 ends on every line: the clock runs while the line is silent.
use tux_plc.Base.{
  ℕ, zero, suc, ◌+◌, ◌-◌, ◌*◌, ◌≤◌, ◌<◌, ◌≡◌, refl, ap, List, [], ◌∷◌, arith, length, Bool-cases,
  inl, inr, ltb, ◌==◌, ◌⊎◌,
}
use tux_plc.Df1.{dle, enq}
use tux_plc.Df1.Port.{
  Wait, Port, Run, done, and_then, Cmd, read_byte, read_next, got_of, Got, got, lost, is_timeout,
  time,
}
use tux_plc.Df1.Port.Waiting.{written, send_response-written}
use tux_plc.Df1.Symbols.{
  Symbol, data_flag, control_flag, no_symbol, get_symbol, first_byte, second_byte, after_dle,
}
use tux_plc.Df1.Send.{Answer, silent, heard, on_symbol, poll, await}

-- The run ends, in a port with `P`.
pub data Returns {A : Type 0} (P : A → Port → Type 0) : Run A → Type 0 where
  returns : {a : A} {p : Port} → P a p → Returns P (done a p)

-- Fewer events are left on the line.
abbrev pub Fewer : Port → Port → Type 0
Fewer p q = (length q.input < length p.input) × (p.now ≤ q.now)

-- Or none were left, and the clock went on.
abbrev Later : Port → Port → Type 0
Later p q = Fewer p q ⊎ ((length q.input ≡ length p.input) × (p.now < q.now))

abbrev ByGot : Got → Port → Port → Type 0
ByGot (got b) p q = Fewer p q
ByGot (lost e) p q = Later p q

abbrev BySymbol : Symbol → Port → Port → Type 0
BySymbol (data_flag b) p q = Fewer p q
BySymbol (control_flag c) p q = Fewer p q
BySymbol (no_symbol e) p q = Later p q

ByGot-Fewer : (g : Got) (p q : Port) → Fewer p q → ByGot g p q
ByGot-Fewer (got b) p q h = h
ByGot-Fewer (lost e) p q h = inl h

BySymbol-Fewer : (s : Symbol) (p q : Port) → Fewer p q → BySymbol s p q
BySymbol-Fewer (data_flag b) p q h = h
BySymbol-Fewer (control_flag c) p q h = h
BySymbol-Fewer (no_symbol e) p q h = inl h

read_byte-ByGot : (p : Port) → Returns (λ g q. ByGot g p q) (read_byte p)
unfolding read_byte
read_byte-ByGot p = go p.input refl
  where
    go : (ws : List Wait) → p.input ≡ ws → Returns (λ g q. ByGot g p q) (read_next ws p)
    go [] e = returns (inr (refl, omega arith))
    go (w ∷ ws) e = returns (
        ByGot-Fewer (got_of w.outcome) p (record p { input = ws; now = p.now + w.elapsed })
          (omega (arith, ap length e), omega arith))

second_byte-BySymbol :
    (p q : Port) (r : Run Got)
    → Fewer p q
    → Returns (λ g q'. ByGot g q q') r
    → Returns (λ s q'. BySymbol s p q') (and_then r second_byte)
unfolding second_byte
second_byte-BySymbol p q r h (returns {a = got c2} {p = q'} h') =
    returns (BySymbol-Fewer (after_dle c2) p q' (omega arith, omega arith))
second_byte-BySymbol p q r h (returns {a = lost e} h') = returns (inl (omega arith, omega arith))

first_byte-BySymbol :
    (p q : Port) (g : Got) → ByGot g p q → Returns (λ s q'. BySymbol s p q') (first_byte g q)
unfolding first_byte
first_byte-BySymbol p q (lost e) h = returns h
first_byte-BySymbol p q (got c1) h = elim (Bool-cases (c1 == dle)) [
  | inl e ↦ rw e (second_byte-BySymbol p q (read_byte q) h (read_byte-ByGot q))
  | inr e ↦ rw e (returns h)
]

module _ {A B : Type 0} {P : A → Port → Type 0} {Q : B → Port → Type 0} where
  pub bind :
      {r : Run A} {k : A → Cmd B}
      → Returns P r
      → ((a : A) (q : Port) → P a q → Returns Q (k a q))
      → Returns Q (and_then r k)
  bind (returns h) next = next _ _ h

get_symbol-BySymbol : (p : Port) → Returns (λ s q. BySymbol s p q) (get_symbol p)
unfolding get_symbol
get_symbol-BySymbol p = bind (read_byte-ByGot p) (λ g q h. first_byte-BySymbol p q g h)

-- What the wait for an answer leaves: a control symbol was read off the line.
abbrev pub ByAnswer : Port → Answer → Port → Type 0
ByAnswer p silent q = Unit
ByAnswer p (heard c nbr_enq) q = (nbr_enq ≤ 3) × Fewer p q

abbrev NotBefore : Port → Port → Type 0
NotBefore p q = (length q.input ≤ length p.input) × (p.now ≤ q.now)

ByAnswer-mono :
    (p q : Port) (a : Answer) (r : Port) → NotBefore p q → ByAnswer q a r → ByAnswer p a r
ByAnswer-mono p q silent r l h = tt
ByAnswer-mono p q (heard c n) r l h = omega arith

later :
    (p q : Port) (r : Run Answer) → NotBefore p q → Returns (ByAnswer q) r → Returns (ByAnswer p) r
later p q r l (returns {a} {p = q'} h) = returns (ByAnswer-mono p q a q' l h)

poll-Returns :
    (nbr_enq : ℕ) (again : Cmd Answer) (p : Port)
    → nbr_enq ≤ 3
    → ((q : Port) → Later p q → Returns (ByAnswer q) (again q))
    → Returns (ByAnswer p) (poll nbr_enq again p)
unfolding poll
poll-Returns nbr_enq again p small ends = bind (get_symbol-BySymbol p) go
  where
    go :
        (s : Symbol) (q : Port)
        → BySymbol s p q
        → Returns (ByAnswer p) (on_symbol nbr_enq again s q)
    go (control_flag c) q h = returns (small, h)
    go (data_flag c) q h = later p q (again q) (omega arith) (ends q (inl h))
    go (no_symbol e) q h = later p q (again q) (omega arith) (ends q h)

-- What is left of the wait: events, answers of ENQ, and seconds up to the next timeout.
abbrev patience : Port → ℕ → ℕ → ℕ
patience p start nbr_enq = length p.input + 3 * (4 - nbr_enq) + (2 - (p.now - start))

pub await-Returns :
    (f start nbr_enq : ℕ) (p : Port)
    → nbr_enq ≤ 3
    → start ≤ p.now
    → patience p start nbr_enq < f
    → Returns (ByAnswer p) (await f start nbr_enq p)
unfolding await is_timeout time
await-Returns zero start nbr_enq p small past h = absurd (omega arith)
await-Returns (suc f) start nbr_enq p small past h = elim (Bool-cases (ltb 1 (p.now - start))) [
  | inr e ↦
      let soon : p.now - start ≤ 1 = ground arith in
      rw e (
        poll-Returns nbr_enq (await f start nbr_enq) p small
          λ q l. await-Returns f start nbr_enq q small (omega arith) (omega arith))
  | inl e ↦
      let late : 1 < p.now - start = ground arith in
      rw e (elim (Bool-cases (ltb 3 (nbr_enq + 1))) [
        | inl full ↦ rw full (returns tt)
        | inr room ↦
            let more : nbr_enq + 1 ≤ 3 = ground arith in
            let p' = written (dle ∷ enq ∷ []) p in
            rw (room, send_response-written enq p)
              (later p p' (poll (nbr_enq + 1) (await f p.now (nbr_enq + 1)) p')
                (omega arith, omega arith)
                (poll-Returns (nbr_enq + 1) (await f p.now (nbr_enq + 1)) p' more
                  λ q l. await-Returns f p.now (nbr_enq + 1) q more (omega arith) (omega arith)))
      ])
]
