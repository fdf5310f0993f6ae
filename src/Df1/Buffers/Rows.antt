-- ===== src/Df1/Buffers/Rows.antt =====
-- A buffer that was filled from empty, as the row of its bytes: what each operation appends.
use tux_plc.Base.{
  ℕ, zero, suc, ◌+◌, ◌-◌, ◌*◌, ◌≤◌, ◌<◌, ◌≡◌, refl, sym, ap, ◌∙◌, fun_ext, List, [], ◌∷◌, ◌++◌,
  arith, length, get_or, length-append, get_or-append_left, get_or-append_right, get_or_beyond,
  Bool-cases, inl, inr, if◌then◌else◌, ◌==◌,
}
use mathlib.Core.Path.{ap₂}
use mathlib.Core.List.{append_assoc, append-nil}
use tux_plc.Base.Bits.{low_byte, high_byte}
use tux_plc.Df1.{dle, Buffer, zero_buffer}
use tux_plc.Df1.Buffers.{
  memcpy, add_byte2buffer, add_word2buffer, add_data2buffer, add_escaped, escape_loop, slice,
  contents, word_bytes,
}

abbrev pub buffer_of : List ℕ → Buffer
buffer_of xs = record { bytes = λ i. get_or xs i 0; size = length xs }

-- Copying `ys` behind `xs` is appending it.
memcpy_end :
    (xs ys : List ℕ) (from : ℕ → ℕ)
    → ((j : ℕ) → j < length ys → from j ≡ get_or ys j 0)
    → memcpy (λ i. get_or xs i 0) (length xs) from (length ys) ≡ (λ i. get_or (xs ++ ys) i 0)
memcpy_end xs ys from same = fun_ext point
  where
    point :
        (i : ℕ) → memcpy (λ i. get_or xs i 0) (length xs) from (length ys) i ≡ get_or (xs ++ ys) i 0
    point i = ground (
      arith,
      same (i - length xs),
      get_or-append_left xs ys i 0,
      get_or-append_right xs ys i (i - length xs) 0,
      get_or_beyond xs i 0,
      get_or_beyond ys (i - length xs) 0,
    )

buffer_eq :
    {f g : ℕ → ℕ} {n m : ℕ}
    → f ≡ g
    → n ≡ m
    → ◌≡◌ {A = Buffer} (record { bytes = f; size = n }) (record { bytes = g; size = m })
buffer_eq p q = λ i. record { bytes = p i; size = q i }

module _ (xs : List ℕ) where
  pub add_byte-row :
      (v : ℕ) → length xs < 255 → add_byte2buffer (buffer_of xs) v ≡ buffer_of (xs ++ v ∷ [])
  unfolding add_byte2buffer
  add_byte-row v h =
      buffer_eq (memcpy_end xs (v ∷ []) (λ _. v) one) (omega (arith, length-append xs (v ∷ [])))
    where
      one : (j : ℕ) → j < 1 → v ≡ get_or (v ∷ []) j 0
      one zero h = refl
      one (suc j) h = absurd (omega arith)

  pub add_word-row :
      (w : ℕ)
      → length xs < 254
      → add_word2buffer (buffer_of xs) w ≡ buffer_of (xs ++ low_byte w ∷ high_byte w ∷ [])
  unfolding add_word2buffer
  add_word-row w h =
      buffer_eq (memcpy_end xs (low_byte w ∷ high_byte w ∷ []) (word_bytes w) two)
        (omega (arith, length-append xs (low_byte w ∷ high_byte w ∷ [])))
    where
      two : (j : ℕ) → j < 2 → word_bytes w j ≡ get_or (low_byte w ∷ high_byte w ∷ []) j 0
      two zero h = refl
      two (suc zero) h = refl
      two (suc (suc j)) h = absurd (omega arith)

pub length-slice : (f : ℕ → ℕ) (i n : ℕ) → length (slice f i n) ≡ n
unfolding slice
length-slice f i zero = refl
length-slice f i (suc n) = omega (arith, length-slice f (i + 1) n)

pub get_or-slice : (f : ℕ → ℕ) (i n j : ℕ) → j < n → f (i + j) ≡ get_or (slice f i n) j 0
unfolding slice
get_or-slice f i zero j h = absurd (omega arith)
get_or-slice f i (suc n) zero h = ap f (omega arith)
get_or-slice f i (suc n) (suc j) h = ap f (omega arith) ∙ get_or-slice f (i + 1) n j (omega arith)

pub add_data-row :
    (from : ℕ → ℕ) (n : ℕ)
    → n < 256
    → add_data2buffer zero_buffer from n ≡ buffer_of (slice from 0 n)
unfolding add_data2buffer
add_data-row from n h =
    buffer_eq
      (fun_ext λ i.
        ground (
          arith,
          get_or-slice from 0 n i,
          get_or_beyond (slice from 0 n) i 0,
          length-slice from 0 n,
        ))
      (omega (arith, length-slice from 0 n))

-- A byte as it is sent: DLE is doubled.
abbrev pub escape_byte : ℕ → List ℕ
escape_byte x = if x == dle then dle ∷ x ∷ [] else x ∷ []

abbrev pub escape : List ℕ → List ℕ
escape [] = []
escape (x ∷ xs) = escape_byte x ++ escape xs

pub length-escape : (xs : List ℕ) → length (escape xs) ≤ 2 * length xs
length-escape [] = omega arith
length-escape (x ∷ xs) = elim (Bool-cases (x == dle)) [
  | inl e ↦ rw e (omega (arith, length-escape xs))
  | inr e ↦ rw e (omega (arith, length-escape xs))
]

add_escaped-row :
    (xs : List ℕ) (x : ℕ)
    → length xs + length (escape_byte x) ≤ 255
    → add_escaped (buffer_of xs) x ≡ buffer_of (xs ++ escape_byte x)
unfolding add_escaped
add_escaped-row xs x h = elim (Bool-cases (x == dle)) [
  | inl e ↦
      rw (e, add_byte-row xs dle (ground arith))
        (add_byte-row (xs ++ dle ∷ []) x (ground (arith, length-append xs (dle ∷ [])))
          ∙ ap buffer_of (append_assoc xs (dle ∷ []) (x ∷ [])))
  | inr e ↦ rw e (add_byte-row xs x (ground arith))
]

-- The loop appends the escaped bytes, as long as they fit.
pub escape_loop-row :
    (left i : ℕ) (from : ℕ → ℕ) (xs : List ℕ)
    → length xs + length (escape (slice from i left)) ≤ 255
    → escape_loop left i from (buffer_of xs) ≡ buffer_of (xs ++ escape (slice from i left))
unfolding escape_loop slice
escape_loop-row zero i from xs h = ap buffer_of (sym (append-nil xs))
escape_loop-row (suc left) i from xs h =
    let here = escape_byte (from i) in
    let there = escape (slice from (i + 1) left) in
    rw (add_escaped-row xs (from i) (omega (arith, length-append {0} here there))) (
      escape_loop-row left (i + 1) from (xs ++ here)
        (omega (arith, length-append {0} here there, length-append {0} xs here))
      ∙ ap buffer_of (append_assoc xs here there))

pub contents-row : (xs : List ℕ) → contents (buffer_of xs) ≡ xs
unfolding contents
contents-row xs = go xs (λ i. get_or xs i 0) 0 (λ j h. ap (λ k. get_or xs k 0) (omega arith))
  where
    go :
        (ys : List ℕ) (f : ℕ → ℕ) (i : ℕ)
        → ((j : ℕ) → j < length ys → f (i + j) ≡ get_or ys j 0)
        → slice f i (length ys) ≡ ys
    go [] f i same = refl
    go (y ∷ ys) f i same =
        ap₂ ◌∷◌ (ap f (omega arith) ∙ same 0 (omega arith))
          (go ys f (i + 1) (λ j h. ap f (omega arith) ∙ same (suc j) (omega arith)))
