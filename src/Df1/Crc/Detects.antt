-- ===== src/Df1/Crc/Detects.antt =====
-- compute_crc of a row of bytes as a fold over it, and what the checksum detects.
use tux_plc.Base.{
  ℕ, suc, ◌+◌, ◌<◌, ◌≡◌, ◌≢◌, refl, ap, sym, ◌∙◌, arith, List, [], ◌∷◌, ◌++◌, length, get_or, All,
}
use tux_plc.Df1.{etx}
use tux_plc.Df1.Buffers.Rows.{buffer_of}
use tux_plc.Df1.Crc.{calc_crc, crc_loop, compute_crc}
use tux_plc.Df1.Crc.Laws.{calc_crc-lt, same_before, same_byte}

abbrev pub IsByte : ℕ → Type 0
IsByte b = b < 256

pub crc_over : List ℕ → ℕ → ℕ
crc_over [] crc = crc
crc_over (x ∷ xs) crc = crc_over xs (calc_crc crc x)

crc_loop-crc_over :
    (xs : List ℕ) (i : ℕ) (f : ℕ → ℕ) (crc : ℕ)
    → ((j : ℕ) → j < length xs → f (i + j) ≡ get_or xs j 0)
    → crc_loop (length xs) i f crc ≡ crc_over xs crc
unfolding crc_loop crc_over
crc_loop-crc_over [] i f crc same = refl
crc_loop-crc_over (x ∷ xs) i f crc same =
    crc_loop-crc_over xs (i + 1) f (calc_crc crc (f i))
      (λ j h. ap f {y = i + suc j} (omega arith) ∙ same (suc j) (omega arith))
    ∙ ap (λ b. crc_over xs (calc_crc crc b)) (ap f {y = i + 0} (omega arith) ∙ same 0 (omega arith))

pub compute_crc-crc_over : (xs : List ℕ) → compute_crc (buffer_of xs) ≡ calc_crc (crc_over xs 0) etx
unfolding compute_crc
compute_crc-crc_over xs =
    ap (λ c. calc_crc c etx)
      (crc_loop-crc_over xs 0 (λ i. get_or xs i 0) 0 (λ j h. ap (λ k. get_or xs k 0) (omega arith)))

crc_over-lt : (xs : List ℕ) (crc : ℕ) → All IsByte xs → crc < 65536 → crc_over xs crc < 65536
unfolding crc_over
crc_over-lt [] crc b h = h
crc_over-lt (x ∷ xs) crc b h = crc_over-lt xs (calc_crc crc x) b.1 (calc_crc-lt crc x h b.0)

pub compute_crc-lt : (xs : List ℕ) → All IsByte xs → compute_crc (buffer_of xs) < 65536
compute_crc-lt xs b =
    rw (compute_crc-crc_over xs)
      (calc_crc-lt (crc_over xs 0) etx (crc_over-lt xs 0 b (omega arith)) (omega arith))

crc_over_injective :
    (xs : List ℕ) (c d : ℕ)
    → All IsByte xs
    → c < 65536
    → d < 65536
    → crc_over xs c ≡ crc_over xs d
    → c ≡ d
unfolding crc_over
crc_over_injective [] c d b hc hd e = e
crc_over_injective (x ∷ xs) c d b hc hd e =
    same_before c d x x hc hd b.0 b.0
      (crc_over_injective xs (calc_crc c x) (calc_crc d x) b.1 (calc_crc-lt c x hc b.0)
        (calc_crc-lt d x hd b.0) e)
      refl

crc_over-append : (xs ys : List ℕ) (c : ℕ) → crc_over (xs ++ ys) c ≡ crc_over ys (crc_over xs c)
unfolding crc_over
crc_over-append [] ys c = refl
crc_over-append (x ∷ xs) ys c = crc_over-append xs ys (calc_crc c x)

-- Two buffers of the same number of bytes that differ in one byte have different checksums,
-- wherever it stands and however long they are.
pub compute_crc-ne :
    (xs ys : List ℕ) (x y : ℕ)
    → All IsByte xs
    → All IsByte ys
    → x < 256
    → y < 256
    → x ≢ y
    → compute_crc (buffer_of (xs ++ x ∷ ys)) ≢ compute_crc (buffer_of (xs ++ y ∷ ys))
compute_crc-ne xs ys x y bx by hx hy ne same = ne (same_byte c c x y hc hc hx hy at_byte refl)
  where
    c : ℕ
    c = crc_over xs 0

    hc : c < 65536
    hc = crc_over-lt xs 0 bx (omega arith)

    below : (z : ℕ) → z < 256 → crc_over ys (calc_crc c z) < 65536
    below z hz = crc_over-lt ys (calc_crc c z) by (calc_crc-lt c z hc hz)

    unfold_at :
        (z : ℕ) → compute_crc (buffer_of (xs ++ z ∷ ys)) ≡ calc_crc (crc_over ys (calc_crc c z)) etx
    unfold_at z =
        compute_crc-crc_over (xs ++ z ∷ ys)
        ∙ ap (λ w. calc_crc w etx) (unfold crc_over in crc_over-append xs (z ∷ ys) 0)

    at_end : crc_over ys (calc_crc c x) ≡ crc_over ys (calc_crc c y)
    at_end =
        same_before (crc_over ys (calc_crc c x)) (crc_over ys (calc_crc c y)) etx etx (below x hx)
          (below y hy) (omega arith) (omega arith) (sym (unfold_at x) ∙ same ∙ unfold_at y) refl

    at_byte : calc_crc c x ≡ calc_crc c y
    at_byte =
        crc_over_injective ys (calc_crc c x) (calc_crc c y) by (calc_crc-lt c x hc hx)
          (calc_crc-lt c y hc hy) at_end
