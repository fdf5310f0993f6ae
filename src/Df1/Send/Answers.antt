-- ===== src/Df1/Send/Answers.antt =====
-- How send_DF1 goes on when the line answers each frame at once with a control symbol.
use tux_plc.Base.{
  ℕ, zero, suc, ◌+◌, ◌-◌, ◌≤◌, ◌<◌, ◌≡◌, refl, ◌∙◌, List, ◌∷◌, arith, length, true, false, ==_self,
  ◌==◌, le_leb,
}
use tux_plc.Base.Int.{ℤ}
use tux_plc.Df1.{dle, ack, nak, success, error_nak, error_send_df1, Msg}
use tux_plc.Df1.Buffers.Rows.{buffer_of, contents-row}
use tux_plc.Df1.Port.{Port, Cmd, done, is_timeout, time}
use tux_plc.Df1.Port.Waiting.{waiting, written, flowing, written_times, write-written}
use tux_plc.Df1.Send.{Answer, heard, poll, await, is_complete, answered, send_loop, send_df1}
use tux_plc.Df1.Send.Frame.{frame, Fits, data_send-row}
use tux_plc.Df1.Symbols.{is_control}
use tux_plc.Df1.Symbols.Decode.{get_symbol-control}

poll_heard :
    (c nbr_enq : ℕ) (rest : List ℕ) (p : Port) (again : Cmd Answer)
    → (c == dle) ≡ false
    → is_control c ≡ true
    → poll nbr_enq again (waiting (dle ∷ c ∷ rest) p) ≡ done (heard c nbr_enq) (waiting rest p)
unfolding poll
poll_heard c nbr_enq rest p again plain known = rw (get_symbol-control c rest p plain known)

-- The first look at the clock is not late.
await_heard :
    (f c nbr_enq : ℕ) (rest : List ℕ) (p : Port)
    → (c == dle) ≡ false
    → is_control c ≡ true
    → await (suc f) p.now nbr_enq (waiting (dle ∷ c ∷ rest) p)
      ≡ done (heard c nbr_enq) (waiting rest p)
unfolding await is_timeout time
await_heard f c nbr_enq rest p plain known =
    let at_once : p.now - p.now ≡ 0 = omega arith in
    rw at_once (poll_heard c nbr_enq rest p _ plain known)

send_loop_heard :
    (inner f c nbr_nak nbr_enq : ℕ) (error : ℤ) (xs rest : List ℕ) (p : Port)
    → (c == dle) ≡ false
    → is_control c ≡ true
    → send_loop
        (suc inner)
        (suc f)
        (buffer_of xs)
        nbr_nak
        nbr_enq
        error
        (waiting (dle ∷ c ∷ rest) (flowing p))
      ≡ answered
          (heard c nbr_enq)
          nbr_nak
          error
          (send_loop (suc inner) f (buffer_of xs))
          (waiting rest (flowing (written xs p)))
unfolding send_loop is_complete time
send_loop_heard inner f c nbr_nak nbr_enq error xs rest p plain known =
    rw
      (
        contents-row xs,
        write-written xs (waiting (dle ∷ c ∷ rest) (flowing p)),
        ==_self (length xs),
        await_heard inner c nbr_enq rest (flowing (written xs p)) plain known,
      )
      refl

-- An answer of ACK: the frame was written once.
send_loop-ack :
    (inner f nbr_nak nbr_enq : ℕ) (error : ℤ) (xs rest : List ℕ) (p : Port)
    → send_loop
        (suc inner)
        (suc f)
        (buffer_of xs)
        nbr_nak
        nbr_enq
        error
        (waiting (dle ∷ ack ∷ rest) (flowing p))
      ≡ done success (waiting rest (flowing (written xs p)))
unfolding answered is_control
send_loop-ack inner f nbr_nak nbr_enq error xs rest p =
    send_loop_heard inner f ack nbr_nak nbr_enq error xs rest p refl refl

-- An answer of NAK.
send_loop-nak :
    (inner f nbr_nak nbr_enq : ℕ) (error : ℤ) (xs rest : List ℕ) (p : Port)
    → nbr_nak < 3
    → send_loop
        (suc inner)
        (suc f)
        (buffer_of xs)
        nbr_nak
        nbr_enq
        error
        (waiting (dle ∷ nak ∷ rest) (flowing p))
      ≡ send_loop
          (suc inner)
          f
          (buffer_of xs)
          (nbr_nak + 1)
          nbr_enq
          error_nak
          (waiting rest (flowing (written xs p)))
unfolding answered is_control
send_loop-nak inner f nbr_nak nbr_enq error xs rest p h =
    send_loop_heard inner f nak nbr_nak nbr_enq error xs rest p refl refl
    ∙ rw (le_leb (nbr_nak + 1) 3 (omega arith)) refl

-- The line that answers NAK `n` times, and then goes on with `rest`.
abbrev pub naks : ℕ → List ℕ → List ℕ
naks zero rest = rest
naks (suc n) rest = dle ∷ nak ∷ naks n rest

send_loop-naks-ack :
    (n inner f nbr_nak nbr_enq : ℕ) (error : ℤ) (xs rest : List ℕ) (p : Port)
    → nbr_nak + n ≤ 3
    → n < f
    → send_loop
        (suc inner)
        f
        (buffer_of xs)
        nbr_nak
        nbr_enq
        error
        (waiting (naks n (dle ∷ ack ∷ rest)) (flowing p))
      ≡ done success (waiting rest (flowing (written_times (suc n) xs p)))
send_loop-naks-ack n inner zero nbr_nak nbr_enq error xs rest p h lt = absurd (omega arith)
send_loop-naks-ack zero inner (suc f) nbr_nak nbr_enq error xs rest p h lt =
    send_loop-ack inner f nbr_nak nbr_enq error xs rest p
send_loop-naks-ack (suc n) inner (suc f) nbr_nak nbr_enq error xs rest p h lt =
    send_loop-nak inner f nbr_nak nbr_enq error xs (naks n (dle ∷ ack ∷ rest)) p (omega arith)
    ∙ send_loop-naks-ack n inner f (nbr_nak + 1) nbr_enq error_nak xs rest (written xs p)
        (omega arith) (omega arith)

-- The NAK that makes the count 4 ends the call.
send_loop-last_nak :
    (inner f nbr_enq : ℕ) (error : ℤ) (xs rest : List ℕ) (p : Port)
    → send_loop
        (suc inner)
        (suc f)
        (buffer_of xs)
        3
        nbr_enq
        error
        (waiting (dle ∷ nak ∷ rest) (flowing p))
      ≡ done error_nak (waiting rest (flowing (written xs p)))
unfolding answered is_control
send_loop-last_nak inner f nbr_enq error xs rest p =
    send_loop_heard inner f nak 3 nbr_enq error xs rest p refl refl

send_df1-send_loop :
    (m : Msg) (fuel : ℕ) (p : Port)
    → Fits m
    → send_df1 fuel m p ≡ send_loop fuel fuel (buffer_of (frame m)) 0 0 error_send_df1 p
unfolding send_df1
send_df1-send_loop m fuel p fits = rw (data_send-row m fits) refl

module _ (m : Msg) (fits : Fits m) (rest : List ℕ) (p : Port) where
  -- A message that fits a frame: where the line answers with NAK up to three times and then with
  -- ACK, and takes every write, send_DF1 returns SUCCESS: it has written the frame once for each
  -- answer, and nothing else, and has read no further.
  pub send_df1-naks-ack :
      (n fuel : ℕ)
      → n ≤ 3
      → n < fuel
      → send_df1 fuel m (waiting (naks n (dle ∷ ack ∷ rest)) (flowing p))
        ≡ done success (waiting rest (flowing (written_times (suc n) (frame m) p)))
  send_df1-naks-ack n zero h lt = absurd (omega arith)
  send_df1-naks-ack n (suc f) h lt =
      send_df1-send_loop m (suc f) (waiting (naks n (dle ∷ ack ∷ rest)) (flowing p)) fits
      ∙ send_loop-naks-ack n f (suc f) 0 0 error_send_df1 (frame m) rest p (omega arith) lt

  -- A message that fits a frame: where the line answers with NAK four times, and takes every
  -- write, send_DF1 returns ERROR_NAK, has written the frame four times, and has read no further.
  pub send_df1-naks :
      (f : ℕ)
      → send_df1 (suc (suc (suc (suc f)))) m (waiting (naks 4 rest) (flowing p))
        ≡ done error_nak (waiting rest (flowing (written_times 4 (frame m) p)))
  send_df1-naks f =
      let xs = frame m in
      let k = suc (suc (suc f)) in
      send_df1-send_loop m (suc k) (waiting (naks 4 rest) (flowing p)) fits
      ∙ send_loop-nak k k 0 0 error_send_df1 xs (naks 3 rest) p (omega arith)
      ∙ send_loop-nak k (suc (suc f)) 1 0 error_nak xs (naks 2 rest) (written_times 1 xs p)
          (omega arith)
      ∙ send_loop-nak k (suc f) 2 0 error_nak xs (naks 1 rest) (written_times 2 xs p) (omega arith)
      ∙ send_loop-last_nak k f 0 error_nak xs rest (written_times 3 xs p)
