-- ===== src/Base/Bits.antt =====
-- Fixed-width words: casts, bytes of a word, and below it the laws of the bit operations that the checksum needs.
pub mod Fields
pub mod Table
use Prim.Native.Nat.{ℕ, ◌+◌, ◌*◌, ◌/◌, ◌%◌}

abbrev pub u8 : ℕ → ℕ
u8 n = n % 256

abbrev pub u16 : ℕ → ℕ
u16 n = n % 65536

-- The bytes of a 16-bit word in memory order: the code runs on little-endian hosts.
abbrev pub low_byte : ℕ → ℕ
low_byte w = w % 256

abbrev pub high_byte : ℕ → ℕ
high_byte w = w / 256 % 256

abbrev pub word_of : ℕ → ℕ → ℕ
word_of lo hi = lo + 256 * hi
