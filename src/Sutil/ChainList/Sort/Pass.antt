-- ===== src/Sutil/ChainList/Sort/Pass.antt =====
-- The loops of TrieChListe, on the data by index.
use tux_plc.Base.{
  ℕ, zero, suc, ◌+◌, ◌≤◌, ◌<◌, ◌≡◌, refl, ap, ◌∙◌, inl, inr, Bool, false, Bool-cases, ◌==◌, ==_eq,
  if◌then◌else◌, arith,
}
use tux_plc.Sutil.ChainList.Sort.{swapped, exchanged}

abbrev pub one_if : Bool → ℕ
one_if b = if b then 1 else 0

-- The number of indices below n with the value v.
abbrev pub count : ℕ → (ℕ → ℕ) → ℕ → ℕ
count v info zero = 0
count v info (suc n) = count v info n + one_if (info n == v)

abbrev pub with_value : (ℕ → ℕ) → ℕ → ℕ → ℕ → ℕ
with_value info i x k = if k == i then x else info k

module _ (v : ℕ) (info : ℕ → ℕ) (i x : ℕ) where
  count-beyond : (n : ℕ) → n ≤ i → count v (with_value info i x) n ≡ count v info n
  count-beyond zero h = refl
  count-beyond (suc n) h =
      let other : (n == i) ≡ false = ground arith in rw (other, count-beyond n (omega arith)) refl

  count-with_value :
      (n : ℕ)
      → i < n
      → count v (with_value info i x) n + one_if (info i == v) ≡ count v info n + one_if (x == v)
  count-with_value zero h = absurd (omega arith)
  count-with_value (suc n) h = elim (Bool-cases (n == i)) [
    | inl e ↦ rw (e, count-beyond n (ground arith), ==_eq n i e) (omega arith)
    | inr e ↦ rw e (omega (arith, count-with_value n (ground arith)))
  ]

count-swapped :
    (v : ℕ) (info : ℕ → ℕ) (i j n : ℕ)
    → (i == j) ≡ false
    → i < n
    → j < n
    → count v (swapped info i j) n ≡ count v info n
count-swapped v info i j n apart hi hj =
    let first = count-with_value v (with_value info j (info i)) i (info j) n hi in
    let second = count-with_value v info j (info i) n hj in
    let same : with_value info j (info i) i ≡ info i = rw apart refl in
    let moved : one_if (with_value info j (info i) i == v) ≡ one_if (info i == v) =
      ap (λ x. one_if (x == v)) same in
    omega (arith, first, second, moved)

module _ (greater : ℕ → ℕ → Bool) where
  -- The inner loop over m indices from j on.
  abbrev pub pass : (ℕ → ℕ) → ℕ → ℕ → ℕ → ℕ → ℕ
  pass info i j zero = info
  pass info i j (suc m) = pass (exchanged greater info i j) i (j + 1) m

  -- The outer loop over m indices from i on.
  abbrev pub sorted : (ℕ → ℕ) → ℕ → ℕ → ℕ → ℕ
  sorted info i zero = info
  sorted info i (suc m) = sorted (pass info i (i + 1) m) (i + 1) m

  exchanged-keeps :
      (P : ℕ → Type 0) (info : ℕ → ℕ) (i j k : ℕ)
      → P (info i)
      → P (info j)
      → P (info k)
      → P (exchanged greater info i j k)
  exchanged-keeps P info i j k at_i at_j at_k = elim (Bool-cases (greater (info i) (info j))) [
    | inl g ↦ elim (Bool-cases (k == i)) [
      | inl e ↦ rw (g, e) at_j
      | inr e ↦ elim (Bool-cases (k == j)) [ inl z ↦ rw (g, e, z) at_i | inr z ↦ rw (g, e, z) at_k ]
    ]
    | inr g ↦ rw g at_k
  ]

  exchanged-other :
      (info : ℕ → ℕ) (i j k : ℕ)
      → (k == i) ≡ false
      → (k == j) ≡ false
      → exchanged greater info i j k ≡ info k
  exchanged-other info i j k e z = elim (Bool-cases (greater (info i) (info j))) [
    | inl g ↦ rw (g, e, z) refl
    | inr g ↦ rw g refl
  ]

  count-exchanged :
      (v : ℕ) (info : ℕ → ℕ) (i j n : ℕ)
      → (i == j) ≡ false
      → i < n
      → j < n
      → count v (exchanged greater info i j) n ≡ count v info n
  count-exchanged v info i j n apart hi hj = elim (Bool-cases (greater (info i) (info j))) [
    | inl g ↦ rw g (count-swapped v info i j n apart hi hj)
    | inr g ↦ rw g refl
  ]

  pub count-pass :
      (v : ℕ) (info : ℕ → ℕ) (i j m n : ℕ)
      → i < j
      → j + m ≤ n
      → count v (pass info i j m) n ≡ count v info n
  count-pass v info i j zero n h hn = refl
  count-pass v info i j (suc m) n h hn =
      count-pass v (exchanged greater info i j) i (j + 1) m n (omega arith) (omega arith)
      ∙ count-exchanged v info i j n (ground arith) (omega arith) (omega arith)

  pub pass-before : (info : ℕ → ℕ) (i j m k : ℕ) → i < j → k < i → pass info i j m k ≡ info k
  pass-before info i j zero k h hk = refl
  pass-before info i j (suc m) k h hk =
      pass-before (exchanged greater info i j) i (j + 1) m k (omega arith) hk
      ∙ exchanged-other info i j k (ground arith) (ground arith)

  pub pass-keeps :
      (P : ℕ → Type 0) (info : ℕ → ℕ) (i j m n : ℕ)
      → i < j
      → j + m ≤ n
      → ((k : ℕ) → i ≤ k → k < n → P (info k))
      → (k : ℕ) → i ≤ k
      → k < n
      → P (pass info i j m k)
  pass-keeps P info i j zero n h hn all k hk kn = all k hk kn
  pass-keeps P info i j (suc m) n h hn all k hk kn =
      pass-keeps P (exchanged greater info i j) i (j + 1) m n (omega arith) (omega arith)
        (λ l hl ln.
          exchanged-keeps P info i j l (all i (omega arith) (omega arith))
            (all j (omega arith) (omega arith)) (all l hl ln))
        k hk kn
