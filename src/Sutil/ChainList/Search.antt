-- ===== src/Sutil/ChainList/Search.antt =====
-- GetNext and the loop of RemoveChListe on a ring.
use mathlib.Core.Path.{subst}
use tux_plc.Base.{
  ℕ, zero, suc, ◌+◌, ◌-◌, ◌≤◌, ◌<◌, ◌≡◌, refl, ◌∙◌, inl, inr, true, false, Bool-cases, ◌==◌, ◌||◌,
  ==_eq, if◌then◌else◌, none, arith,
}
use tux_plc.Base.Int.{pos}
use tux_plc.Sutil.ChainList.{
  Heap, Liste, null, ok, write, remove_ch_liste_ex, get_next, remove_loop, remove_ch_liste, error,
}
use tux_plc.Sutil.ChainList.Ring.{
  Ring, listed, after, at-==, at-null, load-there, free-there, write-same,
}
use tux_plc.Sutil.ChainList.Remove.{without, cleared, removed-Ring, ex-more}

-- The address that GetNext returns at the index i.
abbrev pub next_of : ℕ → (ℕ → ℕ) → ℕ → ℕ
next_of n at i = if i + 1 == n then null else at (i + 1)

-- The heap behind the removal of the element k.
abbrev pub removed : Heap → ℕ → (ℕ → ℕ) → (ℕ → ℕ) → ℕ → Heap
removed h n at info k =
    if n == 1 then write h (at k) none else write (cleared h n at info k) (at k) none

module _ {h : Heap} {n : ℕ} {at info : ℕ → ℕ} (r : Ring h n at info) where
  pub get_next-at :
      (i : ℕ) → i < n → get_next (at i) (listed h n at) ≡ ok (next_of n at i) (listed h n at)
  unfolding get_next
  get_next-at i hi =
      let z : (n == 0) ≡ false = ground arith in
      let bound : after n i < n = ground arith in
      let start : Liste = record { heap = h; count = n; first = at 0 } in
      rw
        (
          z,
          at-null r i hi,
          at-null r 0 (omega arith),
          load-there start (at i) (r.node i hi),
          at-== r (after n i) i bound hi,
          at-== r (after n i) 0 bound (omega arith),
        )
        (elim (Bool-cases (i + 1 == n)) [
          | inl e ↦
              let ends : (after n i == i || after n i == 0) ≡ true = ground arith in
              rw (ends, e) refl
          | inr e ↦
              let inside : (after n i == i || after n i == 0) ≡ false = ground arith in
              rw (inside, e) refl
        ])

  pub removed-at :
      (k : ℕ) → k < n → Ring (removed h n at info k) (n - 1) (without at k) (without info k)
  removed-at k hk = elim (Bool-cases (n == 1)) [
    | inl o ↦ rw o (record {
      node = λ i hi. absurd (ground arith);
      apart = λ i j hi hj same. absurd (ground arith);
      not_null = λ i hi. absurd (ground arith);
    })
    | inr o ↦ rw o (removed-Ring r k (ground arith) hk)
  ]

  ex-one :
      (k : ℕ)
      → k < n
      → n ≡ 1
      → remove_ch_liste_ex (at k) (listed h n at)
        ≡ ok (pos 0) (record { heap = h; count = 0; first = null })
  unfolding remove_ch_liste_ex
  ex-one k hk one =
      let start : Liste = record { heap = h; count = n; first = at 0 } in
      let z : (n == 0) ≡ false = ground arith in
      let low : (n - 1 == 0) ≡ true = ground arith in
      rw
        (
          z,
          at-null r k hk,
          at-null r 0 (omega arith),
          load-there start (at 0) (r.node 0 (omega arith)),
          at-== r (n - 1) 0 (omega arith) (omega arith),
          low,
        )
        refl

  remove_loop-here :
      (d f k : ℕ)
      → k < n
      → (info k == d) ≡ true
      → remove_loop (suc f) d (at k) (listed h n at)
        ≡ ok (pos (n - 1)) (listed (removed h n at info k) (n - 1) (without at k))
  unfolding remove_loop
  remove_loop-here d f k hk same = elim (Bool-cases (n == 1)) [
    | inl o ↦
        let one : n ≡ 1 = ==_eq n 1 o in
        rw
          (
            o,
            load-there (listed h n at) (at k) (r.node k hk),
            same,
            ex-one k hk one,
            free-there (record { heap = h; count = 0; first = null }) (at k) (r.node k hk),
            one,
          )
          refl
    | inr o ↦
        let more : (n - 1 == 0) ≡ false = ground arith in
        rw
          (
            o,
            load-there (listed h n at) (at k) (r.node k hk),
            same,
            ex-more r k (ground arith) hk,
            free-there
                (record { heap = cleared h n at info k; count = n - 1; first = without at k 0 })
                (at k) (write-same _ (at k) _),
            more,
          )
          refl
  ]

  remove_loop-step :
      (d f k : ℕ)
      → k + 1 < n
      → (info k == d) ≡ false
      → remove_loop (suc f) d (at k) (listed h n at) ≡ remove_loop f d (at (k + 1)) (listed h n at)
  unfolding remove_loop
  remove_loop-step d f k hk other =
      let inside : (k + 1 == n) ≡ false = ground arith in
      rw
        (
          load-there (listed h n at) (at k) (r.node k (omega arith)),
          other,
          get_next-at k (omega arith),
          inside,
          at-null r (k + 1) hk,
        )
        refl

  remove_loop-end :
      (d f k : ℕ)
      → k + 1 ≡ n
      → (info k == d) ≡ false
      → remove_loop (suc f) d (at k) (listed h n at) ≡ ok error (listed h n at)
  unfolding remove_loop
  remove_loop-end d f k hk other =
      let ends : (k + 1 == n) ≡ true = ground arith in
      rw
        (
          load-there (listed h n at) (at k) (r.node k (omega arith)),
          other,
          get_next-at k (omega arith),
          ends,
        )
        refl

  pub remove_loop-found :
      (d f k m : ℕ)
      → m < f
      → k + m < n
      → ((j : ℕ) → j < m → (info (k + j) == d) ≡ false)
      → (info (k + m) == d) ≡ true
      → remove_loop f d (at k) (listed h n at)
        ≡ ok (pos (n - 1)) (listed (removed h n at info (k + m)) (n - 1) (without at (k + m)))
  remove_loop-found d zero k m hf hk before_it it = absurd (omega arith)
  remove_loop-found d (suc f) k zero hf hk before_it it =
      let start : k + 0 ≡ k = omega arith in
      rw start (remove_loop-here d f k (omega arith) (rw⁻¹ start it))
  remove_loop-found d (suc f) k (suc m) hf hk before_it it =
      let index : k + suc m ≡ (k + 1) + m = omega arith in
      remove_loop-step d f k (omega arith)
        (subst (λ i. (info i == d) ≡ false) (omega arith) (before_it 0 (omega arith)))
      ∙ rw index (
          remove_loop-found d f (k + 1) m (omega arith) (omega arith)
            (λ j hj.
              subst (λ i. (info i == d) ≡ false) (omega arith) (before_it (suc j) (omega arith)))
            (rw⁻¹ index it))

  pub remove_loop-missing :
      (d f k : ℕ)
      → k < n
      → n ≤ k + f
      → ((j : ℕ) → j < n → (info j == d) ≡ false)
      → remove_loop f d (at k) (listed h n at) ≡ ok error (listed h n at)
  remove_loop-missing d zero k hk hf missing = absurd (omega arith)
  remove_loop-missing d (suc f) k hk hf missing = elim (Bool-cases (k + 1 == n)) [
    | inl e ↦ remove_loop-end d f k (==_eq (k + 1) n e) (missing k hk)
    | inr e ↦
        remove_loop-step d f k (ground arith) (missing k hk)
        ∙ remove_loop-missing d f (k + 1) (ground arith) (omega arith) missing
  ]

  remove_ch_liste-starts :
      (f d : ℕ)
      → 1 ≤ n
      → remove_ch_liste f d (listed h n at) ≡ remove_loop f d (at 0) (listed h n at)
  unfolding remove_ch_liste
  remove_ch_liste-starts f d some_left =
      let z : (n == 0) ≡ false = ground arith in rw (z, at-null r 0 some_left) refl

  pub remove_ch_liste-absent :
      (f d : ℕ)
      → 1 ≤ n
      → n ≤ f
      → ((j : ℕ) → j < n → (info j == d) ≡ false)
      → remove_ch_liste f d (listed h n at) ≡ ok error (listed h n at)
  remove_ch_liste-absent f d some_left hf absent =
      remove_ch_liste-starts f d some_left
      ∙ remove_loop-missing d f 0 some_left (omega arith) absent

  pub remove_ch_liste-at :
      (f d k : ℕ)
      → n ≤ f
      → k < n
      → ((j : ℕ) → j < k → (info j == d) ≡ false)
      → (info k == d) ≡ true
      → remove_ch_liste f d (listed h n at)
        ≡ ok (pos (n - 1)) (listed (removed h n at info k) (n - 1) (without at k))
  remove_ch_liste-at f d k hf hk earlier here =
      let index : 0 + k ≡ k = omega arith in
      remove_ch_liste-starts f d (omega arith)
      ∙ subst
          (λ i.
            remove_loop f d (at 0) (listed h n at)
            ≡ ok (pos (n - 1)) (listed (removed h n at info i) (n - 1) (without at i)))
          index
          (remove_loop-found d f 0 k (omega arith) (omega arith)
            (λ j hj. subst (λ i. (info i == d) ≡ false) (omega arith) (earlier j hj))
            (subst (λ i. (info i == d) ≡ true) (omega arith) here))
