-- ===== src/Df1/Receive/RoundTrip.antt =====
-- rcv_DF1 takes in the frames that send_DF1 writes.
use mathlib.Core.List.{append_assoc, append-nil}
use tux_plc.Base.{
  ℕ, zero, suc, ◌+◌, ◌≤◌, ◌<◌, ◌≡◌, refl, ap, sym, ◌∙◌, List, [], ◌∷◌, ◌++◌, arith, length,
  length-append, All, ==_self, ==_ne, ◌≢◌,
}
use tux_plc.Base.Bits.{low_byte, high_byte}
use tux_plc.Df1.{dle, stx, etx, ack, nak}
use tux_plc.Df1.Buffers.{bytes2word}
use tux_plc.Df1.Buffers.Rows.{buffer_of, escape_byte, escape, add_byte-row}
use tux_plc.Df1.Crc.{compute_crc}
use tux_plc.Df1.Crc.Detects.{IsByte, compute_crc-lt}
use tux_plc.Df1.Port.{Port, done}
use tux_plc.Df1.Port.Waiting.{waiting, written, send_response-written, read_byte-waiting}
use tux_plc.Df1.Symbols.Decode.{get_symbol-escape_byte, get_symbol-etx, get_symbol-stx}
use tux_plc.Df1.Receive.{
  collect, round, hunt, judge, control, close_frame, crc_first, crc_second, accepted, again,
}

-- The loop over the data of a frame stores the bytes that were escaped, and stops behind ETX.
collect-escape :
    (f c : ℕ) (xs ys rest : List ℕ) (p : Port)
    → length xs < f
    → length ys + length xs ≤ 255
    → collect f c (buffer_of ys) (waiting (escape xs ++ dle ∷ etx ∷ rest) p)
      ≡ done (etx, buffer_of (ys ++ xs)) (waiting rest p)
unfolding collect
collect-escape zero c xs ys rest p h fits = absurd (omega arith)
collect-escape (suc f) c [] ys rest p h fits =
    rw (get_symbol-etx rest p)
      (ap (λ zs. done (etx, buffer_of zs) (waiting rest p)) (sym (append-nil ys)))
collect-escape (suc f) c (x ∷ xs) ys rest p h fits =
    rw
      (
        append_assoc (escape_byte x) (escape xs) (dle ∷ etx ∷ rest),
        get_symbol-escape_byte x (escape xs ++ dle ∷ etx ∷ rest) p,
        add_byte-row ys x (omega arith),
      )
      (collect-escape f x xs (ys ++ x ∷ []) rest p (omega arith)
          (omega (arith, length-append ys (x ∷ [])))
        ∙ ap (λ zs. done (etx, buffer_of zs) (waiting rest p)) (append_assoc ys (x ∷ []) xs))

-- A frame as it stands on the line, with some checksum, and what comes behind it.
abbrev pub framed : List ℕ → ℕ → List ℕ → List ℕ
framed xs crc rest = dle ∷ stx ∷ (escape xs ++ dle ∷ etx ∷ low_byte crc ∷ high_byte crc ∷ rest)

module _ (xs rest : List ℕ) (p : Port) where
  pub round-framed :
      (f crc : ℕ)
      → length xs + 1 < f
      → length xs ≤ 255
      → crc < 65536
      → round f (waiting (framed xs crc rest) p) ≡ judge (buffer_of xs) crc (waiting rest p)
  unfolding round hunt control close_frame crc_first crc_second bytes2word
  round-framed zero crc h fits w = absurd (omega arith)
  round-framed (suc f) crc h fits w =
      rw
        (
          get_symbol-stx (escape xs ++ dle ∷ etx ∷ low_byte crc ∷ high_byte crc ∷ rest) p,
          collect-escape (suc f) stx xs [] (low_byte crc ∷ high_byte crc ∷ rest) p (omega arith)
              (omega arith),
          read_byte-waiting (low_byte crc) (high_byte crc ∷ rest) p,
          read_byte-waiting (high_byte crc) rest p,
        )
        (ap (λ w'. judge (buffer_of xs) w' (waiting rest p)) (omega arith))

module _ (xs rest : List ℕ) (p : Port) where
  -- With the right checksum the frame is accepted and ACK is sent.
  pub round-good :
      (f : ℕ)
      → length xs + 1 < f
      → length xs ≤ 255
      → All IsByte xs
      → round f (waiting (framed xs (compute_crc (buffer_of xs)) rest) p)
        ≡ done (accepted (buffer_of xs)) (written (dle ∷ ack ∷ []) (waiting rest p))
  unfolding judge
  round-good f h fits bytes =
      round-framed xs rest p f (compute_crc (buffer_of xs)) h fits (compute_crc-lt xs bytes)
      ∙ rw (==_self (compute_crc (buffer_of xs)), send_response-written ack (waiting rest p)) refl

  -- With another checksum the frame is dropped and NAK is sent.
  pub round-bad :
      (f crc : ℕ)
      → length xs + 1 < f
      → length xs ≤ 255
      → crc < 65536
      → crc ≢ compute_crc (buffer_of xs)
      → round f (waiting (framed xs crc rest) p)
        ≡ done again (written (dle ∷ nak ∷ []) (waiting rest p))
  unfolding judge
  round-bad f crc h fits w ne =
      round-framed xs rest p f crc h fits w
      ∙ rw (==_ne crc (compute_crc (buffer_of xs)) ne, send_response-written nak (waiting rest p))
          refl
