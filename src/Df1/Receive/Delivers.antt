-- ===== src/Df1/Receive/Delivers.antt =====
-- What send_DF1 writes, rcv_DF1 delivers; and what a changed byte does to a frame on its way.
use mathlib.Core.List.{append_assoc}
use tux_plc.Base.{
  ℕ, zero, suc, ◌+◌, ◌<◌, ◌≡◌, ◌≢◌, refl, ap, sym, ◌∙◌, List, [], ◌∷◌, ◌++◌, arith, length,
  length-append, All, get_or, some, lt_ltb,
}
use tux_plc.Df1.{dle, ack, nak, success, Msg, Buffer}
use tux_plc.Df1.Buffers.{image, slice, contents}
use tux_plc.Df1.Buffers.Rows.{buffer_of, length-slice, get_or-slice, contents-row}
use tux_plc.Df1.Crc.{compute_crc}
use tux_plc.Df1.Crc.Detects.{IsByte, compute_crc-ne, compute_crc-lt}
use tux_plc.Df1.Port.{Port, done}
use tux_plc.Df1.Port.Waiting.{waiting, written}
use tux_plc.Df1.Receive.{rcv_df1, rcv_loop, settle, store, round, again}
use tux_plc.Df1.Receive.RoundTrip.{framed, round-good, round-bad}
use tux_plc.Df1.Send.{data_send}
use tux_plc.Df1.Send.Frame.{message, checksum, frame, Fits, data_send-row}

-- The fields of a message are as wide as the C types say.
pub record IsMsg (m : Msg) : Type 0 where
  pub dst : m.dst < 256
  pub src : m.src < 256
  pub cmd : m.cmd < 256
  pub sts : m.sts < 256
  pub tns : m.tns < 65536
  pub body : (i : ℕ) → m.body i < 256
  pub size : m.size < 256

-- `r` holds the header and the data of `m`.
pub record Carries (m r : Msg) : Type 0 where
  pub dst : r.dst ≡ m.dst
  pub src : r.src ≡ m.src
  pub cmd : r.cmd ≡ m.cmd
  pub sts : r.sts ≡ m.sts
  pub tns : r.tns ≡ m.tns
  pub body : (i : ℕ) → i < m.size → r.body i ≡ m.body i

image-lt : (m : Msg) → IsMsg m → (i : ℕ) → image m i < 256
unfolding image
image-lt m v zero = v.dst
image-lt m v (suc zero) = v.src
image-lt m v (suc (suc zero)) = v.cmd
image-lt m v (suc (suc (suc zero))) = v.sts
image-lt m v (suc (suc (suc (suc zero)))) = omega arith
image-lt m v (suc (suc (suc (suc (suc zero))))) = omega arith
image-lt m v (suc (suc (suc (suc (suc (suc i)))))) = ground (arith, v.body i, v.size)

slice-All : (f : ℕ → ℕ) (i n : ℕ) → ((j : ℕ) → f j < 256) → All IsByte (slice f i n)
unfolding slice
slice-All f i zero h = tt
slice-All f i (suc n) h = (h i, slice-All f (i + 1) n h)

All-append : (xs ys : List ℕ) → All IsByte xs → All IsByte ys → All IsByte (xs ++ ys)
All-append [] ys hx hy = hy
All-append (x ∷ xs) ys hx hy = (hx.0, All-append xs ys hx.1 hy)

message-All : (m : Msg) → IsMsg m → All IsByte (message m)
unfolding message
message-All m v = slice-All (image m) 0 (m.size + 6) (image-lt m v)

pub length-message : (m : Msg) → length (message m) ≡ m.size + 6
unfolding message
length-message m = length-slice (image m) 0 (m.size + 6)

get_or-message : (m : Msg) (j : ℕ) → j < m.size + 6 → get_or (message m) j 0 ≡ image m j
unfolding message
get_or-message m j h = sym (get_or-slice (image m) 0 (m.size + 6) j h) ∙ ap (image m) (omega arith)

image-body : (m : Msg) (i : ℕ) → i < 255 → image m (i + 6) ≡ m.body i
unfolding image
image-body m i h =
    ap (image m) {x = i + 6} {y = suc (suc (suc (suc (suc (suc i)))))} (omega arith)
    ∙ rw (lt_ltb i 255 h) refl

-- The stored bytes are the message's.
pub store-Carries : (m old : Msg) → IsMsg m → Fits m → Carries m (store old (buffer_of (message m)))
unfolding store image
store-Carries m old v fits = record {
  dst = ground (arith, length-message m, get_or-message m 0);
  src = ground (arith, length-message m, get_or-message m 1);
  cmd = ground (arith, length-message m, get_or-message m 2);
  sts = ground (arith, length-message m, get_or-message m 3);
  tns = ground (arith, length-message m, get_or-message m 4, get_or-message m 5, v.tns);
  body = λ i h. ground (arith, length-message m, get_or-message m (i + 6), image-body m i);
}

checksum-lt : (m : Msg) → IsMsg m → checksum m < 65536
unfolding checksum
checksum-lt m v = compute_crc-lt (message m) (message-All m v)

frame-framed : (m : Msg) (rest : List ℕ) → frame m ++ rest ≡ framed (message m) (checksum m) rest
unfolding frame
frame-framed m rest = simp append_assoc

-- What rcv_DF1 leaves in the caller's message `old` when the frame of `m` arrives.
abbrev pub received : Msg → Msg → Msg
received old m = store old (buffer_of (message m))

pub rcv_df1-frame :
    (m old : Msg) (rest : List ℕ) (p : Port) (fuel : ℕ)
    → IsMsg m
    → Fits m
    → m.size + 7 < fuel
    → rcv_df1 fuel old (waiting (frame m ++ rest) p)
      ≡ done (success, received old m) (written (dle ∷ ack ∷ []) (waiting rest p))
unfolding rcv_df1 rcv_loop settle checksum
rcv_df1-frame m old rest p zero v fits h = absurd (omega arith)
rcv_df1-frame m old rest p (suc f) v fits h =
    rw
      (
        frame-framed m rest,
        round-good (message m) rest p (suc f) (omega (arith, length-message m))
            (omega (arith, length-message m)) (message-All m v),
      )
      refl

-- A message whose fields are bytes, with a word of tns, and whose copy with each DLE doubled
-- leaves 6 of the 255 bytes of a buffer: send_DF1's frame is complete, and rcv_DF1, reading the
-- bytes of that frame with fuel of more than size+7, returns SUCCESS with the header and the data
-- of the message, has sent one ACK, and leaves what stands behind the frame.
pub rcv_df1-data_send :
    (m old : Msg) (rest : List ℕ) (p : Port) (fuel : ℕ)
    → IsMsg m
    → Fits m
    → m.size + 7 < fuel
    → (b : Buffer) × (r : Msg) × (data_send m ≡ some b)
      × (rcv_df1 fuel old (waiting (contents b ++ rest) p)
          ≡ done (success, r) (written (dle ∷ ack ∷ []) (waiting rest p)))
      × Carries m r
rcv_df1-data_send m old rest p fuel v fits h = (
  buffer_of (frame m),
  received old m,
  data_send-row m fits,
  rw (contents-row (frame m)) (rcv_df1-frame m old rest p fuel v fits h),
  store-Carries m old v fits,
)

-- The frame of at most 255 bytes in which one byte differs from the message that its checksum is
-- of, with the DLEs doubled as the byte that it holds asks for: the round of rcv_DF1 that reads
-- the frame sends NAK and goes on to another round. A byte that becomes or was a DLE on the line
-- without that doubling is not covered.
pub round-changed :
    (xs ys rest : List ℕ) (x y : ℕ) (p : Port) (f : ℕ)
    → All IsByte xs
    → All IsByte ys
    → x < 256
    → y < 256
    → x ≢ y
    → length xs + length ys < 255
    → length xs + length ys + 2 < f
    → round f (waiting (framed (xs ++ y ∷ ys) (compute_crc (buffer_of (xs ++ x ∷ ys))) rest) p)
      ≡ done again (written (dle ∷ nak ∷ []) (waiting rest p))
round-changed xs ys rest x y p f bx by hx hy ne fits h =
    round-bad (xs ++ y ∷ ys) rest p f (compute_crc (buffer_of (xs ++ x ∷ ys)))
      (omega (arith, length-append xs (y ∷ ys))) (omega (arith, length-append xs (y ∷ ys)))
      (compute_crc-lt (xs ++ x ∷ ys) (All-append xs (x ∷ ys) bx (hx, by)))
      (compute_crc-ne xs ys x y bx by hx hy ne)
