-- ===== src/Base/Memory.antt =====
-- Blocks of memory: a byte for each offset.
use Prim.Native.Nat.{ℕ, zero, suc, ◌+◌, ◌-◌, ◌≤◌, ◌<◌}
use mathlib.Core.Path.{◌≡◌, refl, ap, ◌∙◌}
use mathlib.Core.Bool.{true, ◌&&◌}
use mathlib.Core.List.{List, [], ◌∷◌}
use native.Mathlib.Omega.{arith}
use tux_plc.Base.Tests.{leb, ltb, if◌then◌else◌}
use tux_plc.Base.Lists.{length, get_or}

abbrev pub Memory : Type 0
Memory = ℕ → ℕ

-- memcpy of n bytes of `src` to an offset.
unfoldable pub laid : Memory → ℕ → ℕ → Memory → Memory
laid m at n src i = if leb at i && ltb (i - at) n then src (i - at) else m i

-- The bytes from an offset on.
abbrev pub bytes_from : Memory → ℕ → ℕ → List ℕ
bytes_from m at zero = []
bytes_from m at (suc n) = m at ∷ bytes_from m (at + 1) n

pub length-bytes_from : (m : Memory) (at n : ℕ) → length (bytes_from m at n) ≡ n
length-bytes_from m at zero = refl
length-bytes_from m at (suc n) = omega (arith, length-bytes_from m (at + 1) n)

pub laid_before : (m : Memory) (at n : ℕ) (src : Memory) (i : ℕ) → i < at → laid m at n src i ≡ m i
unfolding laid
laid_before m at n src i h = ground arith

pub laid_inside :
    (m : Memory) (at n : ℕ) (src : Memory) (i : ℕ) → i < n → laid m at n src (at + i) ≡ src i
unfolding laid
laid_inside m at n src i h =
    let here : (leb at (at + i) && ltb (at + i - at) n) ≡ true = ground arith in
    let offset : at + i - at ≡ i = omega arith in rw (here, offset) refl

pub laid_start : (m : Memory) (n : ℕ) (src : Memory) (i : ℕ) → i < n → laid m 0 n src i ≡ src i
unfolding laid
laid_start m n src i h =
    let here : (leb 0 i && ltb (i - 0) n) ≡ true = ground arith in
    let offset : i - 0 ≡ i = omega arith in rw (here, offset) refl

pub laid_behind :
    (m : Memory) (at n : ℕ) (src : Memory) (i : ℕ) → at + n ≤ i → laid m at n src i ≡ m i
unfolding laid
laid_behind m at n src i h = ground arith

pub get_or-bytes_from :
    (m : Memory) (at n i : ℕ) → i < n → get_or (bytes_from m at n) i 0 ≡ m (at + i)
get_or-bytes_from m at zero i h = absurd (omega arith)
get_or-bytes_from m at (suc n) zero h = ap m (omega arith)
get_or-bytes_from m at (suc n) (suc i) h =
    get_or-bytes_from m (at + 1) n i (omega arith) ∙ ap m (omega arith)
