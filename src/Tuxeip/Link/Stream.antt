-- ===== src/Tuxeip/Link/Stream.antt =====
-- A message on the wire.
use tux_plc.Base.{
  ℕ, ◌+◌, ◌-◌, ◌<◌, ◌≤◌, ◌≡◌, refl, ap, ◌∙◌, inl, inr, Bool-cases, true, arith, ltb, lt_ltb, some,
}
use tux_plc.Base.Int.{pos}
use tux_plc.Base.Memory.{Memory, bytes_from, length-bytes_from, get_or-bytes_from}
use tux_plc.Base.Net.{stored_behind, stored_before}
use tux_plc.Modbus.Words.{word_at}
use tux_plc.Tuxeip.Eip.{Frame, frame_memory}
use tux_plc.Tuxeip.Link.{Net, CipClient, internal, readable, stored, cip_recv_data, cip_recv_body}

-- The memory behind the first recv, and behind both.
abbrev header_of : Frame → Memory → Memory
header_of f junk = stored 0 (bytes_from (frame_memory f) 0 24) junk

header_of-header :
    (f : Frame) (junk : Memory) (i : ℕ) → i < 24 → header_of f junk i ≡ frame_memory f i
header_of-header f junk i h =
    stored_behind 0 (bytes_from (frame_memory f) 0 24) junk i i (omega arith)
      (omega (arith, h, length-bytes_from (frame_memory f) 0 24))
    ∙ get_or-bytes_from (frame_memory f) 0 24 i h
    ∙ ap (frame_memory f) {x = 0 + i} {y = i} (omega arith)

header_of-length :
    (f : Frame) (junk : Memory) → f.length < 65536 → word_at (header_of f junk) 2 ≡ f.length
header_of-length f junk h =
    rw (header_of-header f junk 2 (omega arith), header_of-header f junk 3 (omega arith))
      (omega arith)

memory_of :
    (f : Frame) (junk : Memory) (i : ℕ)
    → i < 24 + f.length
    → stored 24 (bytes_from (frame_memory f) 24 f.length) (header_of f junk) i ≡ frame_memory f i
memory_of f junk i h = elim (Bool-cases (ltb i 24)) [
  | inl e ↦
      stored_before 24 (bytes_from (frame_memory f) 24 f.length) (header_of f junk) i (ground arith)
      ∙ header_of-header f junk i (ground arith)
  | inr e ↦
      let tail : 24 ≤ i = ground arith in
      stored_behind 24 (bytes_from (frame_memory f) 24 f.length) (header_of f junk) i (i - 24)
        (omega (arith, tail))
        (omega (arith, h, tail, length-bytes_from (frame_memory f) 24 f.length))
      ∙ get_or-bytes_from (frame_memory f) 24 f.length (i - 24) (omega (arith, h, tail))
      ∙ ap (frame_memory f) {x = 24 + (i - 24)} {y = i} (omega (arith, tail))
]

-- Where the socket is readable, and for a message that has data, a first recv returns the 24 bytes
-- of its header and the next its data: a reply and no error. The reply's memory holds what the
-- sender's held.
pub cip_recv_data-frame :
    {net : Net} (timeout : ℕ) (f : Frame) (c : CipClient net) (s1 s2 s3 : net.State)
    → 1 ≤ f.length
    → f.length < 65536
    → net.select timeout c.link ≡ (readable, s1)
    → net.recv 24 s1 ≡ (some (bytes_from (frame_memory f) 0 24), s2)
    → net.recv f.length s2 ≡ (some (bytes_from (frame_memory f) 24 f.length), s3)
    → (m : Memory) × (cip_recv_data timeout c
        ≡ (some m, record { link = s3; err = internal (pos 0) }))
      × ((i : ℕ) → i < 24 + f.length → m i ≡ frame_memory f i)
unfolding cip_recv_data cip_recv_body
cip_recv_data-frame {net = net} timeout f c s1 s2 s3 filled small sel first second =
    let more : ltb 0 (word_at (header_of f net.junk) 2) ≡ true =
      lt_ltb 0 (word_at (header_of f net.junk) 2)
        (omega (arith, header_of-length f net.junk small)) in
    (
      stored 24 (bytes_from (frame_memory f) 24 f.length) (header_of f net.junk),
      rw (sel, first, more, header_of-length f net.junk small, second) refl,
      memory_of f net.junk,
    )
