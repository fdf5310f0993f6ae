-- ===== src/Df1/Examples/Commands.antt =====
-- The commands of df1.c and its addresses at concrete texts, messages and answers.
use tux_plc.Base.{ltb, if◌then◌else◌, ℕ, ◌≤◌, ◌<◌, ◌≡◌, refl, List, [], ◌∷◌, arith, some}
use tux_plc.Base.Int.{pos}
use tux_plc.Df1.{success, Msg}
use tux_plc.Df1.Command.{read_a2}
use tux_plc.Df1.Command.Exchange.{Fits-short, answer}
use tux_plc.Df1.Command.Reads.{after, read_a2-answer}
use tux_plc.Df1.Port.{done}
use tux_plc.Df1.Port.Waiting.{waiting, flowing}
use tux_plc.Df1.Query.{select_fnct, known_file, upper_all, file_kind, write_kind}
use tux_plc.Df1.Query.Parse.{select_fnct-write}
use tux_plc.Df1.Receive.Delivers.{IsMsg}
use tux_plc.Df1.Send.Frame.{Fits}
use tux_plc.Df1.Examples.{idle, escapes, escapes-IsMsg, refused, n7_12}

pub escapes-Fits : Fits escapes
escapes-Fits = Fits-short escapes (omega arith)

refused-Fits : Fits refused
refused-Fits = Fits-short refused (omega arith)

read_a2-answer_example :
    (v : ℕ → ℕ) × (read_a2 20 n7_12 (λ _. 255) 4 (waiting (answer escapes []) (flowing idle))
      ≡ done
          (success, v)
          (after n7_12 escapes [] idle 20 escapes-Fits escapes-IsMsg (omega arith) (λ _. 255) 4))
    × ((i : ℕ) → i < 2 → i < 3 → v i ≡ 16)
    × ((i : ℕ) → 2 ≤ i → v i ≡ (if ltb i 4 then 0 else 255))
read_a2-answer_example =
    read_a2-answer n7_12 escapes [] idle 20 escapes-Fits escapes-IsMsg (omega arith) (λ _. 255) 4
      refl refl

-- The texts N7:12 and B3:1/5.
abbrev pub text_n7_12 : List ℕ
text_n7_12 = b'N' ∷ b'7' ∷ b':' ∷ b'1' ∷ b'2' ∷ []

abbrev pub text_b3_1_5 : List ℕ
text_b3_1_5 = b'B' ∷ b'3' ∷ b':' ∷ b'1' ∷ b'/' ∷ b'5' ∷ []

abbrev pub accepting : Msg
accepting = record { dst = 0; src = 1; cmd = 79; sts = 0; tns = 42; body = λ _. 5; size = 0 }

pub accepting-Fits : Fits accepting
accepting-Fits = Fits-short accepting (omega arith)

pub accepting-IsMsg : IsMsg accepting
accepting-IsMsg = record {
  dst = omega arith;
  src = omega arith;
  cmd = omega arith;
  sts = omega arith;
  tns = omega arith;
  body = λ i. omega arith;
  size = omega arith;
}

-- b3:1/5=1, as select_fnct takes it.
select_fnct-write_example :
    select_fnct (b'b' ∷ b'3' ∷ b':' ∷ b'1' ∷ b'/' ∷ b'5' ∷ b'=' ∷ b'1' ∷ [])
    ≡ record { code = pos 12; address = some text_b3_1_5; value = some (b'1' ∷ []) }
unfolding write_kind file_kind upper_all known_file
select_fnct-write_example =
    select_fnct-write (b'b' ∷ b'3' ∷ b':' ∷ b'1' ∷ b'/' ∷ b'5' ∷ []) (b'1' ∷ [])
      (refl, (refl, (refl, (refl, (refl, (refl, tt)))))) (refl, tt) refl refl
