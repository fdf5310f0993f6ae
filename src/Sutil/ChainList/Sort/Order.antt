-- ===== src/Sutil/ChainList/Sort/Order.antt =====
-- The order that the loops of TrieChListe establish, for a test that is asymmetric and whose negation
-- is transitive.
use tux_plc.Base.{
  ℕ, zero, suc, ◌+◌, ◌≤◌, ◌<◌, ◌≡◌, refl, ◌∙◌, inl, inr, Bool, true, false, Bool-cases, ◌==◌, ==_eq,
  ==_self, arith,
}
use tux_plc.Sutil.ChainList.Sort.{exchanged}
use tux_plc.Sutil.ChainList.Sort.Pass.{pass, sorted, count, count-pass, pass-before, pass-keeps}

abbrev pub IsAsym : (ℕ → ℕ → Bool) → Type 0
IsAsym greater = (a b : ℕ) → greater a b ≡ true → greater b a ≡ false

abbrev pub IsTrans : (ℕ → ℕ → Bool) → Type 0
IsTrans greater = (a b c : ℕ) → greater a b ≡ false → greater b c ≡ false → greater a c ≡ false

module _ (greater : ℕ → ℕ → Bool) (asym : IsAsym greater) (trans : IsTrans greater) where
  exchanged-least :
      (info : ℕ → ℕ) (i j : ℕ)
      → i < j
      → ((k : ℕ) → i < k → k < j → greater (info i) (info k) ≡ false)
      → (k : ℕ) → i < k
      → k < j + 1
      → greater (exchanged greater info i j i) (exchanged greater info i j k) ≡ false
  exchanged-least info i j h least k ik kj =
      let ki : (k == i) ≡ false = ground arith in
      elim (Bool-cases (greater (info i) (info j))) [
        | inl g ↦ elim (Bool-cases (k == j)) [
          | inl e ↦ rw (g, ki, ==_self i, e) (asym (info i) (info j) g)
          | inr e ↦
              rw (g, ki, ==_self i, e)
                (trans (info j) (info i) (info k) (asym (info i) (info j) g)
                  (least k ik (ground arith)))
        ]
        | inr g ↦ elim (Bool-cases (k == j)) [
          | inl e ↦ rw (g, ==_eq k j e) g
          | inr e ↦ rw g (least k ik (ground arith))
        ]
      ]

  pass-least :
      (info : ℕ → ℕ) (i j m : ℕ)
      → i < j
      → ((k : ℕ) → i < k → k < j → greater (info i) (info k) ≡ false)
      → (k : ℕ) → i < k
      → k < j + m
      → greater (pass greater info i j m i) (pass greater info i j m k) ≡ false
  pass-least info i j zero h least k ik kj = least k ik (omega arith)
  pass-least info i j (suc m) h least k ik kj =
      pass-least (exchanged greater info i j) i (j + 1) m (omega arith)
        (exchanged-least info i j h least) k ik (omega arith)

  sorted-before : (info : ℕ → ℕ) (i m k : ℕ) → k < i → sorted greater info i m k ≡ info k
  sorted-before info i zero k h = refl
  sorted-before info i (suc m) k h =
      sorted-before (pass greater info i (i + 1) m) (i + 1) m k (omega arith)
      ∙ pass-before greater info i (i + 1) m k (omega arith) h

  sorted-keeps :
      (P : ℕ → Type 0) (info : ℕ → ℕ) (i m : ℕ)
      → ((k : ℕ) → i ≤ k → k < i + m → P (info k))
      → (k : ℕ) → i ≤ k
      → k < i + m
      → P (sorted greater info i m k)
  sorted-keeps P info i zero all k ik ki = all k ik ki
  sorted-keeps P info i (suc m) all k ik ki =
      let passed : (l : ℕ) → i ≤ l → l < i + suc m → P (pass greater info i (i + 1) m l) =
        pass-keeps greater P info i (i + 1) m (i + suc m) (omega arith) (omega arith) all in
      elim (Bool-cases (k == i)) [
        | inl e ↦
            rw (sorted-before (pass greater info i (i + 1) m) (i + 1) m k (ground arith))
              (passed k ik ki)
        | inr e ↦
            sorted-keeps P (pass greater info i (i + 1) m) (i + 1) m
              (λ l hl ln. passed l (omega arith) (omega arith)) k (ground arith) (omega arith)
      ]

  pub sorted-order :
      (info : ℕ → ℕ) (i m j k : ℕ)
      → i ≤ j
      → j < k
      → k < i + m
      → greater (sorted greater info i m j) (sorted greater info i m k) ≡ false
  sorted-order info i zero j k ij jk ki = absurd (omega arith)
  sorted-order info i (suc m) j k ij jk ki = elim (Bool-cases (j == i)) [
    | inl e ↦
        rw (==_eq j i e, sorted-before (pass greater info i (i + 1) m) (i + 1) m i (omega arith))
          (sorted-keeps (λ x. greater (pass greater info i (i + 1) m i) x ≡ false)
            (pass greater info i (i + 1) m) (i + 1) m
            (λ l hl ln.
              pass-least info i (i + 1) m (omega arith) (λ q iq qi. absurd (omega arith)) l
                (omega arith) (omega arith))
            k (ground arith) (omega arith))
    | inr e ↦
        sorted-order (pass greater info i (i + 1) m) (i + 1) m j k (ground arith) jk (omega arith)
  ]

  pub count-sorted :
      (v : ℕ) (info : ℕ → ℕ) (i m n : ℕ)
      → i + m ≤ n
      → count v (sorted greater info i m) n ≡ count v info n
  count-sorted v info i zero n h = refl
  count-sorted v info i (suc m) n h =
      count-sorted v (pass greater info i (i + 1) m) (i + 1) m n (omega arith)
      ∙ count-pass greater v info i (i + 1) m n (omega arith) (omega arith)
