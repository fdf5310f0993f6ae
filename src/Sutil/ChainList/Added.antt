-- ===== src/Sutil/ChainList/Added.antt =====
-- The ring behind AddChListe, where the list holds an element already.
use tux_plc.Base.{
  ℕ, suc, ◌+◌, ◌-◌, ◌≤◌, ◌<◌, ◌≡◌, ◌≢◌, refl, ap, sym, ◌∙◌, inl, inr, true, false, Bool-cases, ◌==◌,
  ==_eq, ==_self, if◌then◌else◌, none, some, arith,
}
use tux_plc.Sutil.ChainList.{Heap, null, write}
use tux_plc.Sutil.ChainList.Ring.{Ring, before, after, element, at-==, at-unused, unused-at}

-- A function of the index, with another value at n.
abbrev pub extend : (ℕ → ℕ) → ℕ → ℕ → ℕ → ℕ
extend f n v i = if i == n then v else f i

-- The heap behind the addition of the element p with the data d to a ring of n.
abbrev pub added : Heap → ℕ → (ℕ → ℕ) → (ℕ → ℕ) → ℕ → ℕ → Heap
added h n at info p d =
    write
      (write (write h p (some (record { prev = at (n - 1); next = at 0; info = d }))) (at 0)
        (some (record { prev = p; next = at (after n 0); info = info 0 })))
      (at (n - 1))
      (some (record {
        prev = if n == 1 then p else at (before n (n - 1));
        next = p;
        info = info (n - 1);
      }))

module _ {h : Heap} {n : ℕ} {at info : ℕ → ℕ} (r : Ring h n at info) (p d : ℕ) (unused : h p ≡ none)
    (some_left : 1 ≤ n) where
  added-new : added h n at info p d p ≡ some (element (suc n) (extend at n p) (extend info n d) n)
  unfolding write
  added-new =
      rw
        (
          unused-at r p (n - 1) unused (omega arith),
          unused-at r p 0 unused (omega arith),
          ==_self p,
        )
        (ground arith)

  extend-before :
      (i : ℕ) → i < n → extend at n p (before (suc n) i) ≡ (if i == 0 then p else at (i - 1))
  extend-before i hi = elim (Bool-cases (i == 0)) [
    | inl z ↦ let whole : (suc n - 1 == n) ≡ true = ground arith in rw (z, whole) refl
    | inr z ↦ let short : (i - 1 == n) ≡ false = ground arith in rw (z, short) refl
  ]

  extend-after :
      (i : ℕ) → i < n → extend at n p (after (suc n) i) ≡ (if i + 1 == n then p else at (i + 1))
  extend-after i hi = let inside : (i + 1 == suc n) ≡ false = ground arith in rw inside refl

  extend-info : (i : ℕ) → i < n → extend info n d i ≡ info i
  extend-info i hi = let inside : (i == n) ≡ false = ground arith in rw inside refl

  added-old :
      (i : ℕ)
      → i < n
      → added h n at info p d (at i) ≡ some (element (suc n) (extend at n p) (extend info n d) i)
  unfolding write
  added-old i hi =
      rw
        (
          at-== r i (n - 1) hi (omega arith),
          at-== r i 0 hi (omega arith),
          at-unused r p i unused hi,
          r.node i hi,
          extend-before i hi,
          extend-after i hi,
          extend-info i hi,
        )
        (elim (Bool-cases (i == n - 1)) [
          | inl e ↦
              let last : n - 1 ≡ i = sym (==_eq i (n - 1) e) in
              let ends : (i + 1 == n) ≡ true = ground arith in
              elim (Bool-cases (i == 0)) [
                | inl z ↦
                    let one : (n == 1) ≡ true = ground arith in rw (e, z, one, ends, last) refl
                | inr z ↦
                    let more : (n == 1) ≡ false = ground arith in
                    rw (last, ==_self i, z, more, ends) refl
              ]
          | inr e ↦
              let inside : (i + 1 == n) ≡ false = ground arith in
              elim (Bool-cases (i == 0)) [
                | inl z ↦
                    let start : 0 ≡ i = sym (==_eq i 0 z) in
                    let more : (1 == n) ≡ false = ground arith in
                    rw (e, z, inside, more)
                      (ap (λ k. some (record { prev = p; next = at (k + 1); info = info k })) start)
                | inr z ↦ rw (e, z, inside) refl
              ]
        ])

  at_end : (i : ℕ) → (i == n) ≡ true → extend at n p i ≡ p
  at_end i e = rw e refl

  at_old : (i : ℕ) → (i == n) ≡ false → extend at n p i ≡ at i
  at_old i e = rw e refl

  pub added-Ring : p ≢ null → Ring (added h n at info p d) (suc n) (extend at n p) (extend info n d)
  added-Ring ne = record {
    node = λ i hi. elim (Bool-cases (i == n)) [
      | inl e ↦
          ap (added h n at info p d) (at_end i e)
          ∙ added-new
          ∙ ap (λ k. some (element (suc n) (extend at n p) (extend info n d) k)) (sym (==_eq i n e))
      | inr e ↦ ap (added h n at info p d) (at_old i e) ∙ added-old i (ground arith)
    ];
    apart = λ i j hi hj same. elim (Bool-cases (i == n)) [
      | inl e ↦ elim (Bool-cases (j == n)) [
        | inl k ↦ ground arith
        | inr k ↦
            absurd
              (ground (arith, at-unused r p j unused (ground arith), at_end i e, at_old j k, same))
      ]
      | inr e ↦ elim (Bool-cases (j == n)) [
        | inl k ↦
            absurd
              (ground (arith, at-unused r p i unused (ground arith), at_end j k, at_old i e, same))
        | inr k ↦ r.apart i j (ground arith) (ground arith) (sym (at_old i e) ∙ same ∙ at_old j k)
      ]
    ];
    not_null = λ i hi. elim (Bool-cases (i == n)) [
      | inl e ↦ rw e ne
      | inr e ↦ rw e (r.not_null i (ground arith))
    ];
  }
