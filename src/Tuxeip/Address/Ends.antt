-- ===== src/Tuxeip/Address/Ends.antt =====
-- The loop of _BuildLogicalBinaryAddress ends.
use tux_plc.Base.{ℕ, zero, suc, ◌<◌, List, [], ◌∷◌, length, Option, none, some, arith}
use tux_plc.Base.Int.{ℤ}
use tux_plc.Base.Libc.Strtol.{strtol, IsShorter, strtol-IsShorter}
use tux_plc.Tuxeip.Address.{
  Progress, BuiltAddress, built, fault, out_of_fuel, lba_loop, build_logical_binary_address,
  part_read, tail_text, next_text, or_ended,
}

-- The address, or a fault.
abbrev pub IsEnded : BuiltAddress → Type 0
IsEnded (built a) = Unit
IsEnded fault = Unit
IsEnded out_of_fuel = ⊥

round-IsEnded :
    (fuel : ℕ) (str : List ℕ) (v : Option (ℤ × List ℕ)) (s : Option Progress)
    (again : Progress → BuiltAddress)
    → length str < suc fuel
    → IsShorter (length str) v
    → ((t : Progress) → length (next_text str v) < fuel → IsEnded (again t))
    → IsEnded (or_ended (tail_text str v) s again)
round-IsEnded fuel [] none none again h w k = tt
round-IsEnded fuel (c ∷ str) none none again h w k = tt
round-IsEnded fuel [] none (some t) again h w k = tt
round-IsEnded fuel (c ∷ str) none (some t) again h w k = k t (omega (arith, h))
round-IsEnded fuel str (some (i, rest)) none again h w k = tt
round-IsEnded fuel str (some (i, [])) (some t) again h w k = tt
round-IsEnded fuel str (some (i, c ∷ rest)) (some t) again h w k = k t (omega (arith, h, w))

lba_loop-IsEnded :
    (fuel : ℕ) (str : List ℕ) (s : Progress) → length str < fuel → IsEnded (lba_loop fuel str s)
unfolding lba_loop
lba_loop-IsEnded zero str s h = absurd (omega (arith, h))
lba_loop-IsEnded (suc fuel) str s h =
    round-IsEnded fuel str (strtol str) (part_read str (strtol str) s)
      (lba_loop fuel (next_text str (strtol str))) h (strtol-IsShorter str)
      (λ t. lba_loop-IsEnded fuel (next_text str (strtol str)) t)

-- The loop of _BuildLogicalBinaryAddress ends on every text within one round for each byte and one
-- more: the address is built, or a round writes behind the array or shifts by too much.
pub build_logical_binary_address-IsEnded :
    (address : List ℕ) → IsEnded (build_logical_binary_address address)
unfolding build_logical_binary_address
build_logical_binary_address-IsEnded address =
    lba_loop-IsEnded (suc (length address)) address _ (omega arith)
