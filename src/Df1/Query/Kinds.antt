-- ===== src/Df1/Query/Kinds.antt =====
-- What the code of select_fnct says.
use tux_plc.Base.{ℕ, ◌≡◌, ◌⊎◌, List, [], ◌∷◌, arith, Bool, ◌||◌, if◌then◌else◌}
use tux_plc.Base.Int.{ℤ, pos}
use tux_plc.Base.Libc.{has_byte, has_text}
use tux_plc.Df1.Query.{kind, file_kind}

-- The text names an integer, a boolean or a float.
abbrev pub IsKind : ℤ → Type 0
IsKind k = (k ≡ pos 1) ⊎ (k ≡ pos 2) ⊎ (k ≡ pos 3)

-- The texts whose tests are made last decide: a boolean's name, then an integer's.
abbrev pub is_boolean_name : List ℕ → Bool
is_boolean_name a =
    has_text (b'E' ∷ b'N' ∷ []) a
    || (has_text (b'T' ∷ b'T' ∷ []) a || has_text (b'D' ∷ b'N' ∷ []) a)

abbrev pub is_integer_name : List ℕ → Bool
is_integer_name a =
    has_text (b'A' ∷ b'C' ∷ b'C' ∷ []) a
    || (has_text (b'P' ∷ b'R' ∷ b'E' ∷ []) a
        || (has_text (b'L' ∷ b'E' ∷ b'N' ∷ []) a || has_text (b'P' ∷ b'O' ∷ b'S' ∷ []) a))

abbrev pub has_sub_mark : List ℕ → Bool
has_sub_mark a = has_byte b'.' a || has_byte b'/' a

-- The order of precedence, as one test after another.
abbrev pub kind_by_precedence : List ℕ → ℤ
kind_by_precedence a =
    if is_boolean_name a
    then pos 2
    else if is_integer_name a
    then pos 1
    else if has_sub_mark a
    then pos 2
    else file_kind a

module _ (dot slash acc pre len posn en tt' dn : Bool) (k : ℤ) where
  last_decides :
      (let k1 = if dot then pos 2 else k in
        let k2 = if slash then pos 2 else k1 in
        let k3 = if acc then pos 1 else k2 in
        let k4 = if pre then pos 1 else k3 in
        let k5 = if len then pos 1 else k4 in
        let k6 = if posn then pos 1 else k5 in
        let k7 = if en then pos 2 else k6 in
        let k8 = if tt' then pos 2 else k7 in if dn then pos 2 else k8)
      ≡ (if en || (tt' || dn)
          then pos 2
          else if acc || (pre || (len || posn))
          then pos 1
          else if dot || slash
          then pos 2
          else k)
  last_decides = ground arith

-- The nine tests that select_fnct makes in a row come to this order: EN, TT or DN is a boolean,
-- else ACC, PRE, LEN or POS is an integer, else '.' or '/' is a boolean, else the file decides.
pub kind-kind_by_precedence : (a : List ℕ) → kind a ≡ kind_by_precedence a
unfolding kind
kind-kind_by_precedence a =
    last_decides (has_byte b'.' a) (has_byte b'/' a) (has_text (b'A' ∷ b'C' ∷ b'C' ∷ []) a)
      (has_text (b'P' ∷ b'R' ∷ b'E' ∷ []) a) (has_text (b'L' ∷ b'E' ∷ b'N' ∷ []) a)
      (has_text (b'P' ∷ b'O' ∷ b'S' ∷ []) a) (has_text (b'E' ∷ b'N' ∷ []) a)
      (has_text (b'T' ∷ b'T' ∷ []) a) (has_text (b'D' ∷ b'N' ∷ []) a) (file_kind a)
