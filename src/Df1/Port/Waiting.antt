-- ===== src/Df1/Port/Waiting.antt =====
-- A port at which bytes have arrived, and what reading and writing do to it.
use tux_plc.Base.{ℕ, zero, suc, ◌≡◌, refl, ap, List, [], ◌∷◌, ◌++◌, Option, some, arith, length}
use tux_plc.Df1.{dle}
use tux_plc.Df1.Port.{Wait, Port, byte, done, got, read_byte, write, write_next, send_response}

-- The bytes `xs`, one select each and no time between them, in front of what the line delivers.
abbrev pub arriving : List ℕ → List Wait → List Wait
arriving [] ws = ws
arriving (x ∷ xs) ws = record { outcome = byte x; elapsed = 0 } ∷ arriving xs ws

abbrev pub waiting : List ℕ → Port → Port
waiting xs p = record p { input = arriving xs p.input }

pub read_byte-waiting :
    (x : ℕ) (xs : List ℕ) (p : Port) → read_byte (waiting (x ∷ xs) p) ≡ done (got x) (waiting xs p)
unfolding read_byte
read_byte-waiting x xs p =
    ap (λ n. done (got x) (record p { input = arriving xs p.input; now = n })) (omega arith)

abbrev pub tail_of {ℓ} : {A : Type ℓ} → List A → List A
tail_of [] = []
tail_of (x ∷ xs) = xs

-- The port behind a write, whatever the write returned.
abbrev pub written : List ℕ → Port → Port
written bytes p = record p { accepted = tail_of p.accepted; output = p.output ++ bytes ∷ [] }

abbrev pub result_of : List (Option ℕ) → List ℕ → Option ℕ
result_of [] bytes = some (length bytes)
result_of (n ∷ ns) bytes = n

pub write-written :
    (bytes : List ℕ) (p : Port)
    → write bytes p ≡ done (result_of p.accepted bytes) (written bytes p)
unfolding write
write-written bytes p = go p.accepted p
  where
    go :
        (ns : List (Option ℕ)) (q : Port)
        → write_next ns bytes (record q { accepted = ns })
          ≡ done
              (result_of ns bytes)
              (record q { accepted = tail_of ns; output = q.output ++ bytes ∷ [] })
    go [] q = refl
    go (n ∷ ns) q = refl

pub send_response-written :
    (r : ℕ) (p : Port) → send_response r p ≡ done tt (written (dle ∷ r ∷ []) p)
unfolding send_response
send_response-written r p = rw (write-written (dle ∷ r ∷ []) p) refl

-- A port at which every write is complete.
abbrev pub flowing : Port → Port
flowing p = record p { accepted = [] }

-- The port behind the complete writes of `bytes`, `n` times.
abbrev pub written_times : ℕ → List ℕ → Port → Port
written_times zero bytes p = p
written_times (suc n) bytes p = written_times n bytes (written bytes p)
