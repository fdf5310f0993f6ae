-- ===== src/Df1/Port.antt =====
-- The serial port of df1.c and the commands that run on it: the program's global variables, what
-- the line will deliver, the clock, and what was written.
pub mod Waiting
use tux_plc.Base.{ℕ, ◌+◌, ◌-◌, List, [], ◌∷◌, ◌++◌, Option, none, some, Bool, ltb, ◌==◌}
use tux_plc.Base.{length, true, false, if◌then◌else◌}
use tux_plc.Base.Int.{ℤ}
use tux_plc.Df1.{dle, time_out, error, error_timeout}

-- How one select on the port ends, and the read behind it: a byte, a read that gives none, no
-- data in time, a failed select, and a select that reports another descriptor.
pub data Outcome : Type 0 where
  byte : ℕ → Outcome
  no_byte timeout failed other : Outcome

-- `elapsed` is the seconds that pass meanwhile.
pub record Wait : Type 0 where
  pub outcome : Outcome
  pub elapsed : ℕ

-- `input` is what the calls of select will meet, with the time that each of them takes. The time-out
-- of select is the global tv: where select writes into it what is left of it, as Linux does, the
-- selects behind a time-out do not wait, and stand in `input` as time-outs of no time, up to the
-- second at which the clock goes on. Behind `input` the line is silent, and each select waits the
-- second of send_DF1's time-out. `accepted` is the results of the next calls of write, `none` for -1; behind
-- it every write is complete. `tns` is the global transaction number.
pub record Port : Type 0 where
  pub input : List Wait
  pub now : ℕ
  pub accepted : List (Option ℕ)
  pub output : List (List ℕ)
  pub tns : ℕ

pub data Run (A : Type 0) : Type 0 where
  done : A → Port → Run A
  out_of_fuel : Run A
  -- Bytes outside an array are read or written, which C leaves undefined.
  overrun : Run A

abbrev pub Cmd : Type 0 → Type 0
Cmd A = Port → Run A

abbrev pub pure : {A : Type 0} → A → Cmd A
pure = done

module _ {A B : Type 0} where
  abbrev pub and_then : Run A → (A → Cmd B) → Run B
  and_then (done a p) k = k a p
  and_then out_of_fuel k = out_of_fuel
  and_then overrun k = overrun

  infixl 5 ◌>>=◌ ◌>>◌
  abbrev pub ◌>>=◌ : Cmd A → (A → Cmd B) → Cmd B
  m >>= k = λ p. and_then (m p) k

  abbrev pub ◌>>◌ : Cmd A → Cmd B → Cmd B
  m >> n = m >>= λ _. n

-- The result of read_byte: a byte with SUCCESS, or an error and no byte.
pub data Got : Type 0 where
  got : ℕ → Got
  lost : ℤ → Got

unfoldable pub got_of : Outcome → Got
got_of (byte b) = got b
got_of no_byte = lost error
got_of timeout = lost error_timeout
got_of failed = lost error
got_of other = lost error

unfoldable pub read_next : List Wait → Cmd Got
unfolding got_of
read_next [] p = done (lost error_timeout) (record p { now = p.now + 1 })
read_next (w ∷ ws) p = done (got_of w.outcome) (record p { input = ws; now = p.now + w.elapsed })

unfoldable pub read_byte : Cmd Got
unfolding read_next
read_byte p = read_next p.input p

-- write(file, bytes, length): what the call returns, `none` for -1.
unfoldable pub write_next : List (Option ℕ) → List ℕ → Cmd (Option ℕ)
write_next [] bytes p = done (some (length bytes)) (record p { output = p.output ++ bytes ∷ [] })
write_next (n ∷ ns) bytes p = done n (record p { accepted = ns; output = p.output ++ bytes ∷ [] })

unfoldable pub write : List ℕ → Cmd (Option ℕ)
unfolding write_next
write bytes p = write_next p.accepted bytes p

-- time(0)
unfoldable pub time : Cmd ℕ
time p = done p.now p

-- sendResponse: the result of the write is not looked at.
unfoldable pub send_response : ℕ → Cmd (Unit {0})
unfolding write
send_response response = write (dle ∷ response ∷ []) >> pure tt

-- is_timeout, as a test for ERROR_TIMEOUT.
unfoldable pub is_timeout : ℕ → Cmd Bool
unfolding time
is_timeout start_time = do now ← time; pure (ltb time_out (now - start_time))
