-- ===== src/Df1/Symbols/Decode.antt =====
-- get_symbol reads back what the sender writes for a byte and for a control symbol.
use tux_plc.Base.{ℕ, ◌≡◌, refl, List, ◌∷◌, ◌++◌, true, false, Bool-cases, inl, inr, ◌==◌, ap, ◌∙◌}
use tux_plc.Df1.{dle, stx, etx}
use tux_plc.Df1.Buffers.Rows.{escape_byte}
use tux_plc.Df1.Port.{Port, done}
use tux_plc.Df1.Port.Waiting.{waiting, read_byte-waiting}
use tux_plc.Df1.Symbols.{data_flag, control_flag, is_control, get_symbol, after_dle}

module _ (xs : List ℕ) (p : Port) where
  get_symbol-plain :
      (x : ℕ)
      → (x == dle) ≡ false
      → get_symbol (waiting (x ∷ xs) p) ≡ done (data_flag x) (waiting xs p)
  unfolding get_symbol
  get_symbol-plain x e = rw (read_byte-waiting x xs p, e)

  pub get_symbol-pair :
      (x : ℕ) → get_symbol (waiting (dle ∷ x ∷ xs) p) ≡ done (after_dle x) (waiting xs p)
  unfolding get_symbol
  get_symbol-pair x = rw (read_byte-waiting dle (x ∷ xs) p, read_byte-waiting x xs p)

-- A byte as it is sent comes back as that byte of data.
pub get_symbol-escape_byte :
    (x : ℕ) (xs : List ℕ) (p : Port)
    → get_symbol (waiting (escape_byte x ++ xs) p) ≡ done (data_flag x) (waiting xs p)
get_symbol-escape_byte x xs p = elim (Bool-cases (x == dle)) [
  | inl e ↦ rw e (get_symbol-pair xs p x ∙ ap (λ s. done s (waiting xs p)) (dle_twice x e))
  | inr e ↦ rw e (get_symbol-plain xs p x e)
]
  where
    dle_twice : (y : ℕ) → (y == dle) ≡ true → after_dle y ≡ data_flag y
    dle_twice y e = unfold after_dle in rw e

-- A control symbol behind DLE comes back as such.
pub get_symbol-control :
    (c : ℕ) (xs : List ℕ) (p : Port)
    → (c == dle) ≡ false
    → is_control c ≡ true
    → get_symbol (waiting (dle ∷ c ∷ xs) p) ≡ done (control_flag c) (waiting xs p)
unfolding after_dle
get_symbol-control c xs p plain known = get_symbol-pair xs p c ∙ rw (plain, known)

pub get_symbol-etx :
    (xs : List ℕ) (p : Port)
    → get_symbol (waiting (dle ∷ etx ∷ xs) p) ≡ done (control_flag etx) (waiting xs p)
unfolding is_control
get_symbol-etx xs p = get_symbol-control etx xs p refl refl

pub get_symbol-stx :
    (xs : List ℕ) (p : Port)
    → get_symbol (waiting (dle ∷ stx ∷ xs) p) ≡ done (control_flag stx) (waiting xs p)
unfolding is_control
get_symbol-stx xs p = get_symbol-control stx xs p refl refl
