-- ===== src/Modbus/Link/Stream.antt =====
-- What _MBRecvData returns when a whole message arrives.
use tux_plc.Base.{
  ℕ, ◌+◌, ◌-◌, ◌<◌, ◌≤◌, ◌≡◌, refl, sym, ◌∙◌, inl, inr, Bool-cases, List, ◌++◌, arith, length,
  get_or, get_or-append_left, get_or-append_right, lt_ltb, ltb, some,
}
use tux_plc.Base.Int.{pos}
use tux_plc.Base.Net.{stored_behind, stored_before}
use tux_plc.Modbus.{MbError, no_error}
use tux_plc.Modbus.Link.{
  Net, Client, readable, recv_data, recv_selected, recv_header, recv_rest, stored, length_field,
}
use tux_plc.Modbus.Request.{mbap}
use tux_plc.Modbus.Words.{word_at}

-- The memory behind the first recv.
header_memory : ℕ → ℕ → ℕ → (ℕ → ℕ) → ℕ → ℕ
header_memory tid unit size junk = stored 0 (mbap tid unit size) junk

length-mbap : (tid unit size : ℕ) → length (mbap tid unit size) ≡ 7
unfolding mbap
length-mbap tid unit size = refl

length_field-header :
    (tid unit size : ℕ) (junk : ℕ → ℕ)
    → size ≤ 253
    → length_field (header_memory tid unit size junk) - 1 ≡ size
unfolding header_memory mbap
length_field-header tid unit size junk h = omega arith

raw_length-header :
    (tid unit size : ℕ) (junk : ℕ → ℕ)
    → 1 ≤ size
    → size ≤ 253
    → 1 < word_at (header_memory tid unit size junk) 4
unfolding header_memory mbap
raw_length-header tid unit size junk some_data small = omega arith

recv_rest-body :
    (net : Net) (tid unit : ℕ) (body : List ℕ) (s2 s3 : net.State) (e : MbError)
    → 1 ≤ length body
    → length body ≤ 253
    → net.recv (length body) s2 ≡ (some body, s3)
    → recv_rest {net = net}
        (header_memory tid unit (length body) net.junk)
        (record { link = s2; err = e })
      ≡ (
        some (stored 7 body (header_memory tid unit (length body) net.junk)),
        record { link = s3; err = e },
      )
unfolding recv_rest
recv_rest-body net tid unit body s2 s3 e some_data small second =
    let m = header_memory tid unit (length body) net.junk in
    rw
      (
        lt_ltb 1 (word_at m 4) (raw_length-header tid unit (length body) net.junk some_data small),
        length_field-header tid unit (length body) net.junk small,
        second,
      )
      refl

memory_of :
    (tid unit : ℕ) (body : List ℕ) (junk : ℕ → ℕ) (i : ℕ)
    → i < 7 + length body
    → stored 7 body (header_memory tid unit (length body) junk) i
      ≡ get_or (mbap tid unit (length body) ++ body) i 0
unfolding header_memory
memory_of tid unit body junk i h = elim (Bool-cases (ltb i 7)) [
  | inl e ↦
      (let head : i < 7 = ground arith in
        let len = length-mbap tid unit (length body) in
        stored_before 7 body (stored 0 (mbap tid unit (length body)) junk) i head
        ∙ stored_behind 0 (mbap tid unit (length body)) junk i i (omega arith)
            (omega (arith, head, len))
        ∙ sym
            (get_or-append_left (mbap tid unit (length body)) body i 0 (omega (arith, head, len))))
  | inr e ↦
      (let tail : 7 ≤ i = ground arith in
        let len = length-mbap tid unit (length body) in
        stored_behind 7 body (stored 0 (mbap tid unit (length body)) junk) i (i - 7)
          (omega (arith, tail)) (omega (arith, tail, h))
        ∙ sym (
            get_or-append_right (mbap tid unit (length body)) body i (i - 7) 0
              (omega (arith, tail, len))))
]

-- Where the socket is readable, a first recv returns the header of a message with 1 to 253 bytes
-- of data and the next the data: a reply, whose memory holds the header and the data, and no error.
pub recv_data-message :
    {net : Net} (sock timeout tid unit : ℕ) (body : List ℕ) (c : Client net) (s1 s2 s3 : net.State)
    → 1 ≤ length body
    → length body ≤ 253
    → net.select timeout c.link ≡ (readable, s1)
    → net.recv 7 s1 ≡ (some (mbap tid unit (length body)), s2)
    → net.recv (length body) s2 ≡ (some body, s3)
    → (m : ℕ → ℕ) × (recv_data (pos sock) timeout c
        ≡ (some m, record { link = s3; err = no_error }))
      × ((i : ℕ) → i < 7 + length body → m i ≡ get_or (mbap tid unit (length body) ++ body) i 0)
unfolding recv_data recv_selected recv_header mbap recv_rest header_memory
recv_data-message {net = net} sock timeout tid unit body c s1 s2 s3 some_data small sel first
      second =
    (
      stored 7 body (header_memory tid unit (length body) net.junk),
      rw (sel, first) (recv_rest-body net tid unit body s2 s3 no_error some_data small second),
      λ i h. memory_of tid unit body net.junk i h,
    )
