-- ===== src/Df1/Buffers.antt =====
-- The buffer operations of df1.c. A buffer's size is a byte, so it wraps at 256.
pub mod Rows
use tux_plc.Base.{
  ℕ, zero, suc, ◌+◌, ◌-◌, ◌%◌, ◌≤◌, ◌<◌, List, [], ◌∷◌, ◌++◌, ◌==◌, ltb, leb, ◌&&◌, Option, none,
  some, if◌then◌else◌,
}
use tux_plc.Base.Bits.{u8, low_byte, high_byte, word_of}
use tux_plc.Df1.{dle, Msg, Buffer}

-- memcpy of `n` bytes of `from` to `into + at`.
abbrev pub memcpy : (into : ℕ → ℕ) → (at : ℕ) → (from : ℕ → ℕ) → (n : ℕ) → ℕ → ℕ
memcpy into at from n i = if leb at i && ltb i (at + n) then from (i - at) else into i

-- The byte order of a host word.
unfoldable pub bytes2word : ℕ → ℕ → ℕ
bytes2word lowb highb = word_of lowb highb

unfoldable pub word_bytes : ℕ → ℕ → ℕ
word_bytes w zero = low_byte w
word_bytes w (suc _) = high_byte w

unfoldable pub add_byte2buffer : Buffer → ℕ → Buffer
add_byte2buffer b value = record {
  bytes = memcpy b.bytes b.size (λ _. value) 1;
  size = u8 (b.size + 1);
}

unfoldable pub add_word2buffer : Buffer → ℕ → Buffer
unfolding word_bytes
add_word2buffer b value = record {
  bytes = memcpy b.bytes b.size (word_bytes value) 2;
  size = u8 (b.size + 2);
}

-- `size` is passed as a byte.
unfoldable pub add_data2buffer : Buffer → (ℕ → ℕ) → ℕ → Buffer
add_data2buffer b from size = record {
  bytes = memcpy b.bytes b.size from (u8 size);
  size = u8 (b.size + u8 size);
}

-- The memory of a TMsg: six bytes of header, 255 of data, then its size.
unfoldable pub image : Msg → ℕ → ℕ
image m zero = m.dst
image m (suc zero) = m.src
image m (suc (suc zero)) = m.cmd
image m (suc (suc (suc zero))) = m.sts
image m (suc (suc (suc (suc zero)))) = low_byte m.tns
image m (suc (suc (suc (suc (suc zero))))) = high_byte m.tns
image m (suc (suc (suc (suc (suc (suc i)))))) = if ltb i 255 then m.body i else m.size

-- The body of the loop of add_data2bufferWithDLE.
unfoldable pub add_escaped : Buffer → ℕ → Buffer
add_escaped b value = add_byte2buffer (if value == dle then add_byte2buffer b dle else b) value

-- The loop of add_data2bufferWithDLE with `left` rounds to go, at index `i`.
unfoldable pub escape_loop : ℕ → ℕ → (ℕ → ℕ) → Buffer → Buffer
escape_loop zero i from b = b
escape_loop (suc left) i from b = escape_loop left (i + 1) from (add_escaped b (from i))

-- `none` where the loop does not end: its index is a byte, which cannot reach a bound above 255.
unfoldable pub add_data2buffer_with_dle : Buffer → Msg → Option Buffer
add_data2buffer_with_dle b m =
    if ltb 255 (m.size + 6) then none else some (escape_loop (m.size + 6) 0 (image m) b)

-- The bytes from `i` on, `n` of them.
unfoldable pub slice : (ℕ → ℕ) → ℕ → ℕ → List ℕ
slice f i zero = []
slice f i (suc n) = f i ∷ slice f (i + 1) n

-- What write(file, &buffer, buffer.size) hands to the port.
unfoldable pub contents : Buffer → List ℕ
unfolding slice
contents b = slice b.bytes 0 b.size
