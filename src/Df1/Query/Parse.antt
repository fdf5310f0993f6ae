-- ===== src/Df1/Query/Parse.antt =====
-- What select_fnct stores for a read such as N7:0 and a write such as N7:0=5.
use tux_plc.Base.{
  length, ℕ, ◌≡◌, refl, List, [], ◌∷◌, ◌++◌, arith, All, Bool, true, false, ◌||◌, some, none, ◌==◌,
}
use tux_plc.Base.Libc.{has_byte}
use tux_plc.Df1.Query.{
  query_left, known_file, select_fnct, write_kind, upper_all, before_delimiter, behind_delimiter,
  is_delimiter,
}
use tux_plc.Df1.Query.Kinds.{kind_by_precedence, kind-kind_by_precedence}

-- A byte at which the query is not cut.
abbrev pub IsPlain : ℕ → Type 0
IsPlain c = is_delimiter c ≡ false

before_delimiter-plain : (s : List ℕ) → All IsPlain s → before_delimiter s ≡ s
unfolding before_delimiter
before_delimiter-plain [] h = refl
before_delimiter-plain (c ∷ s) h = rw (h.0, before_delimiter-plain s h.1) refl

before_delimiter-equals : (s t : List ℕ) → All IsPlain s → before_delimiter (s ++ b'=' ∷ t) ≡ s
unfolding before_delimiter
before_delimiter-equals [] t h = refl
before_delimiter-equals (c ∷ s) t h = rw (h.0, before_delimiter-equals s t h.1) refl

behind_delimiter-equals : (s t : List ℕ) → All IsPlain s → behind_delimiter (s ++ b'=' ∷ t) ≡ t
unfolding behind_delimiter
behind_delimiter-equals [] t h = refl
behind_delimiter-equals (c ∷ s) t h = rw (h.0, behind_delimiter-equals s t h.1) refl

has_byte-equals : (s t : List ℕ) → has_byte b'=' (s ++ b'=' ∷ t) ≡ true
has_byte-equals [] t = refl
has_byte-equals (c ∷ s) t = rw (has_byte-equals s t) (or_true (b'=' == c))
  where
    or_true : (b : Bool) → (b || true) ≡ true
    or_true true = refl
    or_true false = refl

plain-ne : (c : ℕ) → IsPlain c → (b'=' == c) ≡ false
plain-ne c h = ground arith

has_byte-plain : (s : List ℕ) → All IsPlain s → has_byte b'=' s ≡ false
has_byte-plain [] h = refl
has_byte-plain (c ∷ s) h = rw (plain-ne c h.0) (has_byte-plain s h.1)

-- A query of a known file, with a colon, whose name and value hold no '=' and no line end: the
-- write action of the kind that the name in capitals has by the order of precedence, with that
-- name and the value as they stand.
pub select_fnct-write :
    (name value : List ℕ)
    → All IsPlain name
    → All IsPlain value
    → known_file (name ++ b'=' ∷ value) ≡ true
    → has_byte b':' (name ++ b'=' ∷ value) ≡ true
    → select_fnct (name ++ b'=' ∷ value) ≡ record {
      code = write_kind (kind_by_precedence (upper_all name));
      address = some (upper_all name);
      value = some value;
    }
unfolding select_fnct
select_fnct-write name value plain plain' known colon =
    rw
      (
        known,
        colon,
        has_byte-equals name value,
        before_delimiter-equals name value plain,
        behind_delimiter-equals name value plain,
        before_delimiter-plain value plain',
        kind-kind_by_precedence (upper_all name),
      )
      refl

-- A query of a known file, with a colon, that holds no '=' and no line end: the read action of the
-- kind that the query in capitals has by the order of precedence, that text as the address, and no
-- value.
pub select_fnct-read :
    (name : List ℕ)
    → All IsPlain name
    → known_file name ≡ true
    → has_byte b':' name ≡ true
    → select_fnct name ≡ record {
      code = kind_by_precedence (upper_all name);
      address = some (upper_all name);
      value = none;
    }
unfolding select_fnct
select_fnct-read name plain known colon =
    rw
      (
        known,
        colon,
        has_byte-plain name plain,
        before_delimiter-plain name plain,
        kind-kind_by_precedence (upper_all name),
      )
      refl

pub query_left-read :
    (name : List ℕ)
    → All IsPlain name
    → known_file name ≡ true
    → has_byte b':' name ≡ true
    → query_left name ≡ upper_all name
unfolding query_left
query_left-read name plain known colon = rw (known, colon, before_delimiter-plain name plain) refl

pub length-upper_all : (name : List ℕ) → length (upper_all name) ≡ length name
unfolding upper_all
length-upper_all [] = refl
length-upper_all (c ∷ cs) = omega (arith, length-upper_all cs)
