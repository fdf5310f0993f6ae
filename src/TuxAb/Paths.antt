-- ===== src/TuxAb/Paths.antt =====
-- ParsePath and GetIP of TuxAB.c: the path of a PLC is an address and the bytes of a route, separated by
-- commas. The arrays for the address and the route are taken to be long enough.
pub mod RoundTrip
use tux_plc.Base.{
  ℕ, suc, ◌+◌, ◌-◌, ◌%◌, Bool, true, false, ◌||◌, List, [], ◌∷◌, ◌++◌, ltb, ◌==◌, Option, none,
  some, if◌then◌else◌, length,
}
use tux_plc.Base.Int.{ℤ, pos, negsuc}
use tux_plc.Base.Libc.{atoi, byte_of}

-- The tokens that strtok(s, ",") gives, with the bytes of the one that is being read; none is empty.
abbrev pub ended : List ℕ → List (List ℕ) → List (List ℕ)
ended [] ts = ts
ended (c ∷ cs) ts = (c ∷ cs) ∷ ts

abbrev pub comma : ℕ
comma = b','

unfoldable pub tokens_from : List ℕ → List ℕ → List (List ℕ)
tokens_from token [] = ended token []
tokens_from token (c ∷ cs) = elim (c == comma) [
  | true ↦ ended token (tokens_from [] cs)
  | false ↦ tokens_from (token ++ (c ∷ [])) cs
]

unfoldable pub tokens : List ℕ → List (List ℕ)
tokens str = tokens_from [] str

-- Whether strtol sets errno to ERANGE, for a long of 32 bits.
abbrev pub out_of_range : ℤ → Bool
out_of_range (pos n) = ltb 0x7fffffff n
out_of_range (negsuc n) = ltb 0x7fffffff n

-- The byte that is stored for it.
abbrev pub route_byte : ℤ → ℕ
route_byte (pos n) = byte_of (pos (if ltb 0x7fffffff n then 0x7fffffff else n))
route_byte (negsuc n) = byte_of (negsuc (if ltb 0x7fffffff n then 0x7fffffff else n))

-- The bytes of Path, up to index. Nothing resets errno: behind a number out of range, or where errno was
-- ERANGE before, each byte is written over the one before.
unfoldable pub route_from : Bool → List (List ℕ) → List ℕ
route_from range [] = []
route_from range (t ∷ ts) =
    let value = atoi t in
    elim (range || out_of_range value) [
      | true ↦ route_from true ts
      | false ↦ route_byte value ∷ route_from false ts
    ]

-- What ParsePath leaves in Ip and Path; it returns the size of Path.
pub record ParsedPath : Type 0 where
  pub ip : List ℕ
  pub route : List ℕ

abbrev pub parsed : Bool → List (List ℕ) → Option ParsedPath
parsed range [] = none
parsed range (t ∷ ts) = some (record { ip = t; route = route_from range ts })

-- ParsePath, where errno is ERANGE or not; none where there is no token, and Ip is left as it was.
unfoldable pub parse_path : Bool → List ℕ → Option ParsedPath
parse_path range strpath = parsed range (tokens strpath)

-- The bytes before the first comma; none without one.
unfoldable pub before_comma : List ℕ → Option (List ℕ)
before_comma [] = none
before_comma (c ∷ cs) = elim (c == comma) [
  | true ↦ some []
  | false ↦ elim (before_comma cs) [ none ↦ none | some s ↦ some (c ∷ s) ]
]

abbrev pub size_of : Option (List ℕ) → ℕ
size_of none = 0
size_of (some s) = length s

-- What GetIP returns; it copies that many bytes of the path.
unfoldable pub get_ip : List ℕ → ℕ
get_ip path = size_of (before_comma path)
