-- ===== src/Base/Net.antt =====
-- The socket calls that the client libraries make, as a parameter: `Net` is their state and what they
-- return.
use Prim.Native.Nat.{ℕ, ◌+◌, ◌-◌, ◌<◌}
use mathlib.Core.Path.{◌≡◌, refl, ap}
use native.Mathlib.Omega.{arith}
use mathlib.Core.Bool.{◌&&◌}
use mathlib.Core.List.{List}
use mathlib.Core.Option.{Option, none, some}
use tux_plc.Base.Int.{ℤ}
use tux_plc.Base.Tests.{leb, ltb, le_leb, lt_ltb, lt_leb, if◌then◌else◌}
use tux_plc.Base.Lists.{length, get_or}

-- What select returns: no descriptor in time, -1, or some, the socket among them or not.
pub data Selected : Type 0 where
  expired : Selected
  failed : Selected
  readable : Selected
  other : Selected

pub record Net : Type 1 where
  pub State : Type 0
  -- select with a time in milliseconds
  pub select : ℕ → State → Selected × State
  -- send, with the number that is returned
  pub send : List ℕ → State → ℤ × State
  -- recv of up to a number of bytes; `none` is -1
  pub recv : ℕ → State → Option (List ℕ) × State
  pub errno : State → ℕ
  pub junk : ℕ → ℕ

-- A block of memory: what recv stores, over what is there.
abbrev pub stored : ℕ → List ℕ → (ℕ → ℕ) → ℕ → ℕ
stored at l m i = if leb at i && ltb (i - at) (length l) then get_or l (i - at) 0 else m i

-- What recv leaves in memory; where it fails, nothing.
abbrev pub stored_if : ℕ → Option (List ℕ) → (ℕ → ℕ) → ℕ → ℕ
stored_if at none m = m
stored_if at (some l) m = stored at l m

pub stored_behind :
    (at : ℕ) (l : List ℕ) (m : ℕ → ℕ) (i j : ℕ)
    → i ≡ at + j
    → j < length l
    → stored at l m i ≡ get_or l j 0
stored_behind at l m i j e h =
    rw (le_leb at i (omega arith), lt_ltb (i - at) (length l) (omega arith))
      (ap (λ k. get_or l k 0) {x = i - at} {y = j} (omega arith))

pub stored_before : (at : ℕ) (l : List ℕ) (m : ℕ → ℕ) (i : ℕ) → i < at → stored at l m i ≡ m i
stored_before at l m i h = rw (lt_leb at i h) refl
