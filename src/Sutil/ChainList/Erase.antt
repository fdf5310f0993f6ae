-- ===== src/Sutil/ChainList/Erase.antt =====
-- RemoveChListe on a ring that holds a list of data.
use tux_plc.Base.{
  ℕ, zero, suc, ◌+◌, ◌-◌, ◌≤◌, ◌<◌, ◌≡◌, ◌≢◌, refl, sym, ◌∙◌, inl, inr, Bool-cases, ltb, ==_self,
  ==_ne, arith, List, [], ◌∷◌, ◌++◌, held, length, length-append, get_or-append_right,
  get_or-append_left, All,
}
use tux_plc.Base.Int.{pos}
use tux_plc.Sutil.ChainList.{Heap, ok, remove_ch_liste, error}
use tux_plc.Sutil.ChainList.Ring.{Ring, with_info, listed}
use tux_plc.Sutil.ChainList.Remove.{skip, without}
use tux_plc.Sutil.ChainList.Search.{removed, removed-at, remove_ch_liste-at, remove_ch_liste-absent}

held-All : (P : ℕ → Type 0) (xs : List ℕ) → All P xs → (i : ℕ) → i < length xs → P (held xs i)
held-All P [] all i h = absurd (omega arith)
held-All P (x ∷ xs) all zero h = all.0
held-All P (x ∷ xs) all (suc i) h = held-All P xs all.1 i (omega arith)

held-erase :
    (xs ys : List ℕ) (d i : ℕ) → held (xs ++ (d ∷ ys)) (skip (length xs) i) ≡ held (xs ++ ys) i
held-erase xs ys d i = elim (Bool-cases (ltb i (length xs))) [
  | inl e ↦ rw e (
      get_or-append_left xs (d ∷ ys) i 0 (ground arith)
      ∙ sym (get_or-append_left xs ys i 0 (ground arith)))
  | inr e ↦
      let place : i ≡ length xs + (i - length xs) = ground arith in
      rw e (
        get_or-append_right xs (d ∷ ys) (i + 1) (suc (i - length xs)) 0 (ground arith)
        ∙ sym (get_or-append_right xs ys i (i - length xs) 0 place))
]

longer : (xs ys : List ℕ) (d : ℕ) → length (xs ++ (d ∷ ys)) - 1 ≡ length (xs ++ ys)
longer xs ys d = omega (arith, length-append xs ys, length-append xs (d ∷ ys))

module _ {h : Heap} {at : ℕ → ℕ} (fuel d : ℕ) where
  -- On a list that holds data without d, RemoveChListe of d returns -1 and leaves the list as it
  -- is. Fuel for as many steps as the list has elements is enough.
  pub remove_ch_liste-missing :
      (xs : List ℕ) (r : Ring h (length xs) at (held xs))
      → length xs ≤ fuel
      → All (λ x. x ≢ d) xs
      → remove_ch_liste fuel d (listed h (length xs) at) ≡ ok error (listed h (length xs) at)
  unfolding remove_ch_liste
  remove_ch_liste-missing [] r enough all = refl
  remove_ch_liste-missing (x ∷ xs) r enough all =
      remove_ch_liste-absent r fuel d (omega arith) enough
        (λ j hj. ==_ne (held (x ∷ xs) j) d (held-All (λ x'. x' ≢ d) (x ∷ xs) all j hj))

  -- On a list that holds data with d among them, RemoveChListe of d returns the new count and leaves a
  -- list that holds the data without the first d, in the same order, with the element freed. Fuel for
  -- as many steps as the list has elements is enough.
  pub remove_ch_liste-erase :
      (xs ys : List ℕ) (r : Ring h (length (xs ++ (d ∷ ys))) at (held (xs ++ (d ∷ ys))))
      → length (xs ++ (d ∷ ys)) ≤ fuel
      → All (λ x. x ≢ d) xs
      → (remove_ch_liste fuel d (listed h (length (xs ++ (d ∷ ys))) at)
          ≡ ok (pos (length (xs ++ ys))) (
              listed
                (removed h (length (xs ++ (d ∷ ys))) at (held (xs ++ (d ∷ ys))) (length xs))
                (length (xs ++ ys))
                (without at (length xs))))
        × Ring
            (removed h (length (xs ++ (d ∷ ys))) at (held (xs ++ (d ∷ ys))) (length xs))
            (length (xs ++ ys))
            (without at (length xs))
            (held (xs ++ ys))
  remove_ch_liste-erase xs ys r enough all =
      let inside : length xs < length (xs ++ (d ∷ ys)) = omega (arith, length-append xs (d ∷ ys)) in
      let here : held (xs ++ (d ∷ ys)) (length xs) ≡ d =
        get_or-append_right xs (d ∷ ys) (length xs) 0 0 (omega arith) in
      rw⁻¹ (longer xs ys d) (
        remove_ch_liste-at r fuel d (length xs) enough inside
            (λ j hj.
              rw (get_or-append_left xs (d ∷ ys) j 0 hj)
                (==_ne (held xs j) d (held-All (λ x. x ≢ d) xs all j hj)))
            (rw here (==_self d)),
        with_info (λ i hi. held-erase xs ys d i) (removed-at r (length xs) inside),
      )
