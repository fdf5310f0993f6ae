-- ===== src/Modbus/Words.antt =====
-- The byte swaps of MBCommon.h, and the bytes of a number in the memory of a little-endian machine.
use tux_plc.Base.{ℕ, ◌+◌, ◌*◌, ◌/◌, ◌%◌, ◌<◌, ◌≡◌, List, [], ◌∷◌, arith}
use tux_plc.Base.Bits.{u16, low_byte, high_byte}

-- _mbswap_16: the second byte moved down, and the first moved up.
abbrev pub mbswap_16 : ℕ → ℕ
mbswap_16 x = x / 256 % 256 + 256 * (x % 256)

-- _mbswap_32 without SWAPPED_MODBUS: the bytes of each half change places.
abbrev pub mbswap_32 : ℕ → ℕ
mbswap_32 x = x / 256 % 256 + 256 * (x % 256 + 256 * (x / 16777216 % 256 + 256 * (x / 65536 % 256)))

-- A word and a double word in memory.
abbrev pub word_row : ℕ → List ℕ
word_row x = low_byte x ∷ high_byte x ∷ []

abbrev pub dword_row : ℕ → List ℕ
dword_row x = x % 256 ∷ x / 256 % 256 ∷ x / 65536 % 256 ∷ x / 16777216 % 256 ∷ []

-- The word and the double word that memory holds at an offset.
abbrev pub word_at : (ℕ → ℕ) → ℕ → ℕ
word_at m o = m o + 256 * m (o + 1)

abbrev pub dword_at : (ℕ → ℕ) → ℕ → ℕ
dword_at m o = m o + 256 * (m (o + 1) + 256 * (m (o + 2) + 256 * m (o + 3)))

-- The swap of a word is its own inverse on 16 bits.
pub mbswap_16-mbswap_16 : (x : ℕ) → mbswap_16 (mbswap_16 x) ≡ u16 x
mbswap_16-mbswap_16 x = omega arith

pub mbswap_32-mbswap_32 : (x : ℕ) → x < 4294967296 → mbswap_32 (mbswap_32 x) ≡ x
mbswap_32-mbswap_32 x h = omega arith
