-- ===== src/Df1/Crc.antt =====
-- The checksum of a DF1 frame, calc_crc and compute_crc of df1.c.
pub mod Laws
pub mod Detects
use tux_plc.Base.{ℕ, zero, suc, ◌+◌, ◌*◌, ◌/◌, ◌%◌, bit_and, bit_or, bit_xor, ◌==◌, if◌then◌else◌}
use tux_plc.Df1.{etx, Buffer}

-- One round of the loop over y.
unfoldable pub crc_shift : ℕ → ℕ
crc_shift crc = if bit_and crc 1 == 1 then bit_xor (crc / 2) 0xa001 else crc / 2

unfoldable pub crc_rounds : ℕ → ℕ → ℕ
unfolding crc_shift
crc_rounds zero crc = crc
crc_rounds (suc y) crc = crc_rounds y (crc_shift crc)

unfoldable pub calc_crc : ℕ → ℕ → ℕ
unfolding crc_rounds
calc_crc crc buffer =
    let temp1 = bit_xor crc buffer in
    crc_rounds 8 (bit_or (bit_and crc 0xff00) (bit_and temp1 0xff))

-- The loop over the bytes of the buffer with `left` rounds to go.
unfoldable pub crc_loop : ℕ → ℕ → (ℕ → ℕ) → ℕ → ℕ
unfolding calc_crc
crc_loop zero x bytes crc = crc
crc_loop (suc left) x bytes crc = crc_loop left (x + 1) bytes (calc_crc crc (bytes x))

unfoldable pub compute_crc : Buffer → ℕ
unfolding crc_loop
compute_crc b = calc_crc (crc_loop b.size 0 b.bytes 0) etx
