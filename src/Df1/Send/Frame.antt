-- ===== src/Df1/Send/Frame.antt =====
-- The bytes of the frame that send_DF1 writes.
use mathlib.Core.List.{append_assoc}
use tux_plc.Base.{
  ℕ, ◌+◌, ◌≤◌, ◌≡◌, ap, List, [], ◌∷◌, ◌++◌, arith, length, length-append, some, le_ltb,
}
use tux_plc.Base.Bits.{low_byte, high_byte}
use tux_plc.Df1.{dle, stx, etx, Msg}
use tux_plc.Df1.Buffers.{add_byte2buffer, add_word2buffer, add_data2buffer_with_dle, image, slice}
use tux_plc.Df1.Buffers.Rows.{
  buffer_of, escape, add_byte-row, add_word-row, add_data-row, escape_loop-row,
}
use tux_plc.Df1.Crc.{compute_crc}
use tux_plc.Df1.Send.{crc_buffer, data_send}

-- The bytes of the message that travel: header and data.
unfoldable pub message : Msg → List ℕ
message m = slice (image m) 0 (m.size + 6)

unfoldable pub checksum : Msg → ℕ
checksum m = compute_crc (buffer_of (message m))

unfoldable pub frame : Msg → List ℕ
frame m =
    dle
    ∷ stx
    ∷ (escape (message m) ++ dle ∷ etx ∷ low_byte (checksum m) ∷ high_byte (checksum m) ∷ [])

-- The frame does not overrun the 255 bytes that a buffer's size can count.
abbrev pub Fits : Msg → Type 0
Fits m = (m.size + 6 ≤ 255) × (length (escape (message m)) + 6 ≤ 255)

crc_buffer-row : (m : Msg) → m.size + 6 ≤ 255 → crc_buffer m ≡ buffer_of (message m)
unfolding crc_buffer message
crc_buffer-row m h = add_data-row (image m) (m.size + 6) (omega arith)

pub data_send-row : (m : Msg) → Fits m → data_send m ≡ some (buffer_of (frame m))
unfolding data_send frame
data_send-row m fits =
    rw (add_byte-row [] dle (omega arith), add_byte-row (dle ∷ []) stx (omega arith), escaped)
      (ap some closed)
  where
    body : List ℕ
    body = escape (message m)

    escaped :
        add_data2buffer_with_dle (buffer_of (dle ∷ stx ∷ [])) m
        ≡ some (buffer_of (dle ∷ stx ∷ body))
    escaped =
        unfold add_data2buffer_with_dle message in
        rw (le_ltb 255 (m.size + 6) fits.0)
          (ap some (escape_loop-row (m.size + 6) 0 (image m) (dle ∷ stx ∷ []) (omega arith)))

    crc : ℕ
    crc = compute_crc (crc_buffer m)

    before_etx : length ((dle ∷ stx ∷ body) ++ dle ∷ []) ≡ length body + 3
    before_etx = omega (arith, length-append body (dle ∷ []))

    before_crc : length (((dle ∷ stx ∷ body) ++ dle ∷ []) ++ etx ∷ []) ≡ length body + 4
    before_crc =
        omega (arith, before_etx, length-append ((dle ∷ stx ∷ body) ++ dle ∷ []) (etx ∷ []))

    same_crc : crc ≡ checksum m
    same_crc = unfold checksum in ap compute_crc (crc_buffer-row m fits.0)

    whole :
        (((dle ∷ stx ∷ body) ++ dle ∷ []) ++ etx ∷ []) ++ low_byte crc ∷ high_byte crc ∷ []
        ≡ frame m
    whole = unfold frame in rw same_crc (simp append_assoc)

    closed :
        add_word2buffer
          (add_byte2buffer (add_byte2buffer (buffer_of (dle ∷ stx ∷ body)) dle) etx)
          crc
        ≡ buffer_of (frame m)
    closed =
        rw
          (
            add_byte-row (dle ∷ stx ∷ body) dle (omega arith),
            add_byte-row ((dle ∷ stx ∷ body) ++ dle ∷ []) etx (omega (arith, before_etx)),
            add_word-row (((dle ∷ stx ∷ body) ++ dle ∷ []) ++ etx ∷ []) crc
                (omega (arith, before_crc)),
          )
          (ap buffer_of whole)
