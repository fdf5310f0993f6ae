-- ===== src/TuxAb/Paths/RoundTrip.antt =====
-- ParsePath of a path that is written out.
use mathlib.Core.List.{append-nil, append_assoc}
use tux_plc.Base.{
  ℕ, ◌<◌, ◌≡◌, ◌≢◌, refl, ap, sym, ◌∙◌, false, List, [], ◌∷◌, ◌++◌, All, ==_ne, some, ltb, arith,
}
use tux_plc.Base.Int.{pos}
use tux_plc.Base.Libc.Digits.{IsDigit, digits_value, atoi-digits_only}
use tux_plc.TuxAb.Paths.{comma, tokens_from, tokens, route_from, route_byte, parsed, parse_path}

-- A token: bytes without a comma, one or more.
abbrev pub IsToken : List ℕ → Type 0
IsToken [] = ⊥
IsToken (c ∷ cs) = All (λ d. d ≢ comma) (c ∷ cs)

-- Tokens, each behind a comma.
abbrev pub joined : List (List ℕ) → List ℕ
joined [] = []
joined (t ∷ ts) = comma ∷ t ++ joined ts

tokens_from-plain :
    (read token rest : List ℕ)
    → All (λ d. d ≢ comma) token
    → tokens_from read (token ++ rest) ≡ tokens_from (read ++ token) rest
unfolding tokens_from
tokens_from-plain read [] rest h = ap (λ r. tokens_from r rest) (sym (append-nil read))
tokens_from-plain read (c ∷ token) rest h =
    rw (==_ne c comma h.0, tokens_from)
      (tokens_from-plain (read ++ (c ∷ [])) token rest h.1
        ∙ ap (λ r. tokens_from r rest) (append_assoc read (c ∷ []) token))

tokens_from-joined :
    (c : ℕ) (cs : List ℕ) (ts : List (List ℕ))
    → All IsToken ts
    → tokens_from (c ∷ cs) (joined ts) ≡ (c ∷ cs) ∷ ts
unfolding tokens_from
tokens_from-joined c cs [] h = refl
tokens_from-joined c cs ([] ∷ ts) h = absurd h.0
tokens_from-joined c cs ((d ∷ ds) ∷ ts) h =
    ap (λ rest. (c ∷ cs) ∷ rest)
      (tokens_from-plain [] (d ∷ ds) (joined ts) h.0 ∙ tokens_from-joined d ds ts h.1)

-- A row of digits whose value is a byte.
abbrev pub IsByteText : List ℕ → Type 0
IsByteText [] = ⊥
IsByteText (d ∷ ds) = IsDigit d × All IsDigit ds × (digits_value 0 (d ∷ ds) < 256)

abbrev pub values : List (List ℕ) → List ℕ
values [] = []
values (t ∷ ts) = digits_value 0 t ∷ values ts

route_from-values : (ts : List (List ℕ)) → All IsByteText ts → route_from false ts ≡ values ts
unfolding route_from
route_from-values [] h = refl
route_from-values ([] ∷ ts) h = absurd h.0
route_from-values ((d ∷ ds) ∷ ts) ((hd, hds, small), h) =
    let range : ltb 0x7fffffff (digits_value 0 (d ∷ ds)) ≡ false = ground arith in
    let byte : route_byte (pos (digits_value 0 (d ∷ ds))) ≡ digits_value 0 (d ∷ ds) =
      rw range (omega (arith, small)) in
    rw (atoi-digits_only d ds hd hds, range, route_from, route_from-values ts h)
      (ap (λ v. v ∷ values ts) (ap route_byte (atoi-digits_only d ds hd hds) ∙ byte))

digits-plain : (ds : List ℕ) → All IsDigit ds → All (λ d. d ≢ comma) ds
digits-plain [] h = tt
digits-plain (d ∷ ds) h = ((λ e. omega (arith, h.0, e)), digits-plain ds h.1)

IsByteText-IsToken : (ts : List (List ℕ)) → All IsByteText ts → All IsToken ts
IsByteText-IsToken [] h = tt
IsByteText-IsToken ([] ∷ ts) h = absurd h.0
IsByteText-IsToken ((d ∷ ds) ∷ ts) ((hd, hds, small), h) =
    (digits-plain (d ∷ ds) (hd, hds), IsByteText-IsToken ts h)

-- ParsePath, where errno is not ERANGE, of a text of an address without a comma, one byte or more, and
-- numbers from 0 to 255, each behind a comma, gives the address and the numbers.
pub parse_path-joined :
    (c : ℕ) (cs : List ℕ) (ts : List (List ℕ))
    → IsToken (c ∷ cs)
    → All IsByteText ts
    → parse_path false ((c ∷ cs) ++ joined ts) ≡ some (record { ip = c ∷ cs; route = values ts })
unfolding parse_path tokens
parse_path-joined c cs ts h hs =
    ap (parsed false) (
      tokens_from-plain [] (c ∷ cs) (joined ts) h
      ∙ tokens_from-joined c cs ts (IsByteText-IsToken ts hs))
    ∙ ap (λ r. some (record { ip = c ∷ cs; route = r })) (route_from-values ts hs)
