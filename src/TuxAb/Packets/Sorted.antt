-- ===== src/TuxAb/Packets/Sorted.antt =====
-- What TrieChListe does to a list: it keeps the elements, and orders them by a key that the comparison
-- decides.
use mathlib.Core.List.{Perm}
use mathlib.Core.List.Perm
use tux_plc.Base.{
  ℕ, zero, suc, ◌≤◌, ◌≡◌, refl, ap, inl, inr, Bool, true, false, Bool-cases, List, [], ◌∷◌, All,
  length, arith,
}
use tux_plc.TuxAb.Packets.{pass, sort_rounds, trie}

module _ {A : Type 0} (greater : A → A → Bool) where
  length-pass : (x : A) (ys : List A) → length (pass greater x ys).1 ≡ length ys
  unfolding pass
  length-pass x [] = refl
  length-pass x (y ∷ ys) = elim (Bool-cases (greater x y)) [
    | inl e ↦ rw (e, pass) (ap suc (length-pass y ys))
    | inr e ↦ rw (e, pass) (ap suc (length-pass x ys))
  ]

  pass-perm : (x : A) (ys : List A) → Perm (x ∷ ys) ((pass greater x ys).0 ∷ (pass greater x ys).1)
  unfolding pass
  pass-perm x [] = Perm.refl _
  pass-perm x (y ∷ ys) = elim (Bool-cases (greater x y)) [
    | inl e ↦ rw (e, pass) (Perm.trans (Perm.cons x (pass-perm y ys)) (Perm.swap _ x _))
    | inr e ↦
        rw (e, pass)
          (Perm.trans (Perm.swap y x ys)
            (Perm.trans (Perm.cons y (pass-perm x ys)) (Perm.swap _ y _)))
  ]

  sort_rounds-perm : (n : ℕ) (xs : List A) → Perm xs (sort_rounds greater n xs)
  unfolding sort_rounds
  sort_rounds-perm zero xs = Perm.refl xs
  sort_rounds-perm (suc n) [] = Perm.refl []
  sort_rounds-perm (suc n) (x ∷ xs) =
      Perm.trans (pass-perm x xs) (Perm.cons _ (sort_rounds-perm n (pass greater x xs).1))

  pub trie-perm : (xs : List A) → Perm xs (trie greater xs)
  unfolding trie
  trie-perm xs = sort_rounds-perm (length xs) xs

-- Each element's key is at most the keys behind it.
abbrev pub IsOrdered : {A : Type 0} → (A → ℕ) → List A → Type 0
IsOrdered key [] = Unit {0}
IsOrdered key (x ∷ xs) = All (λ y. key x ≤ key y) xs × IsOrdered key xs

module _ {A : Type 0} (greater : A → A → Bool) (P : A → Type 0) where
  pass-All :
      (x : A) (ys : List A) → P x → All P ys → P (pass greater x ys).0 × All P (pass greater x ys).1
  unfolding pass
  pass-All x [] h hs = (h, tt)
  pass-All x (y ∷ ys) h hs = elim (Bool-cases (greater x y)) [
    | inl e ↦ let rest = pass-All y ys hs.0 hs.1 in rw (e, pass) (rest.0, (h, rest.1))
    | inr e ↦ let rest = pass-All x ys h hs.1 in rw (e, pass) (rest.0, (hs.0, rest.1))
  ]

  sort_rounds-All : (n : ℕ) (xs : List A) → All P xs → All P (sort_rounds greater n xs)
  unfolding sort_rounds
  sort_rounds-All zero xs h = h
  sort_rounds-All (suc n) [] h = tt
  sort_rounds-All (suc n) (x ∷ xs) h =
      let first = pass-All x xs h.0 h.1 in
      (first.0, sort_rounds-All n (pass greater x xs).1 first.1)

  pub trie-All : (xs : List A) → All P xs → All P (trie greater xs)
  unfolding trie
  trie-All xs h = sort_rounds-All (length xs) xs h

module _ {A : Type 0} (greater : A → A → Bool) (P : A → Type 0) (key : A → ℕ)
    (above : (x y : A) → P x → P y → greater x y ≡ true → key y ≤ key x)
    (below : (x y : A) → P x → P y → greater x y ≡ false → key x ≤ key y) where
  pass-least :
      (x : A) (ys : List A)
      → P x
      → All P ys
      → (key (pass greater x ys).0 ≤ key x)
        × All (λ y. key (pass greater x ys).0 ≤ key y) (pass greater x ys).1
  unfolding pass
  pass-least x [] h hs = (omega arith, tt)
  pass-least x (y ∷ ys) h hs = elim (Bool-cases (greater x y)) [
    | inl e ↦
        let rest = pass-least y ys hs.0 hs.1 in
        let le = above x y h hs.0 e in
        rw (e, pass) (omega (arith, rest.0, le), (omega (arith, rest.0, le), rest.1))
    | inr e ↦
        let rest = pass-least x ys h hs.1 in
        let le = below x y h hs.0 e in rw (e, pass) (rest.0, (omega (arith, rest.0, le), rest.1))
  ]

  sort_rounds-IsOrdered :
      (n : ℕ) (xs : List A) → length xs ≤ n → All P xs → IsOrdered key (sort_rounds greater n xs)
  unfolding sort_rounds
  sort_rounds-IsOrdered zero [] l h = tt
  sort_rounds-IsOrdered zero (x ∷ xs) l h = absurd (omega (arith, l))
  sort_rounds-IsOrdered (suc n) [] l h = tt
  sort_rounds-IsOrdered (suc n) (x ∷ xs) l h =
      let first = pass-All greater P x xs h.0 h.1 in
      let least = pass-least x xs h.0 h.1 in
      (
        sort_rounds-All greater (λ y. key (pass greater x xs).0 ≤ key y) n (pass greater x xs).1
            least.1,
        sort_rounds-IsOrdered n (pass greater x xs).1 (omega (arith, l, length-pass greater x xs))
            first.1,
      )

  pub trie-IsOrdered : (xs : List A) → All P xs → IsOrdered key (trie greater xs)
  unfolding trie
  trie-IsOrdered xs h = sort_rounds-IsOrdered (length xs) xs (omega arith) h
