-- ===== src/Sutil/ChainList/Add.antt =====
-- AddChListe on a ring.
use mathlib.Core.Path.{subst}
use tux_plc.Base.{
  List, [], ◌∷◌, ◌++◌, held, length, length-append, get_or-append_right, get_or-append_left, ℕ, suc,
  ◌+◌, ◌-◌, ◌≤◌, ◌<◌, ◌≡◌, ◌≢◌, refl, sym, ◌∙◌, inl, inr, true, false, Bool-cases, ◌==◌, ==_eq,
  ==_ne, if◌then◌else◌, Option, none, some, arith,
}
use tux_plc.Base.Int.{pos}
use tux_plc.Sutil.ChainList.{Element, Heap, Liste, null, ok, write, link_new, add_ch_liste}
use tux_plc.Sutil.ChainList.Ring.{
  Ring, with_info, listed, after, element, at-==, at-unused, load-there, set_prev-there,
  set_next-there, write-other, write-same,
}
use tux_plc.Sutil.ChainList.Added.{extend, added, added-Ring}

-- The heap behind an addition, to a list without elements too.
abbrev pub heap_with : Heap → ℕ → (ℕ → ℕ) → (ℕ → ℕ) → ℕ → ℕ → Heap
heap_with h n at info p d =
    if n == 0
    then write h p (some (record { prev = p; next = p; info = d }))
    else added h n at info p d

module _ {h : Heap} {n : ℕ} {at info : ℕ → ℕ} (r : Ring h n at info) (p d : ℕ)
    (unused : h p ≡ none) where
  abbrev with_heap : Heap → Liste
  with_heap h' = record { heap = h'; count = n; first = at 0 }

  -- The new element, unlinked yet, leaves the ring's elements in place.
  still : (c : Option Element) (i : ℕ) → i < n → write h p c (at i) ≡ some (element n at info i)
  still c i hi = write-other h p (at i) c (at-unused r p i unused hi) ∙ r.node i hi

  suc_form : n + 1 ≡ suc n
  suc_form = omega arith

  alone :
      p ≢ null
      → Ring
          (write h p (some (record { prev = p; next = p; info = d })))
          1
          (extend at 0 p)
          (extend info 0 d)
  unfolding write
  alone ne = record {
    node = λ i hi. let zero_only : 0 ≡ i = omega arith in rw⁻¹ zero_only (write-same h p _);
    apart = λ i j hi hj same. omega arith;
    not_null = λ i hi. let zero_only : 0 ≡ i = omega arith in rw⁻¹ zero_only ne;
  }

  link_new-one :
      n ≡ 1
      → link_new p d (listed h n at)
        ≡ ok (pos (n + 1)) (listed (heap_with h n at info p d) (n + 1) (extend at n p))
  unfolding link_new
  link_new-one one =
      let new : Option Element = some (record { prev = at 0; next = at 0; info = d }) in
      let next : Heap =
        write (write h p new) (at 0)
          (some (record { prev = p; next = at (after n 0); info = info 0 })) in
      let z : (n == 0) ≡ false = ground arith in
      let start : (0 == n) ≡ false = ground arith in
      let more : (n + 1 == 0) ≡ false = ground arith in
      let low : (n - 1 == 0) ≡ true = ground arith in
      let last : n - 1 ≡ 0 = omega arith in
      rw
        (
          z,
          start,
          more,
          load-there (with_heap h) (at 0) (r.node 0 (omega arith)),
          at-== r (n - 1) 0 (omega arith) (omega arith),
          low,
          set_prev-there (with_heap (write h p new)) (at 0) (still new 0 (omega arith)) p,
          set_next-there (with_heap next) (at 0) (write-same (write h p new) (at 0) _) p,
          one,
        )
        refl

  link_new-more :
      2 ≤ n
      → link_new p d (listed h n at)
        ≡ ok (pos (n + 1)) (listed (heap_with h n at info p d) (n + 1) (extend at n p))
  unfolding link_new
  link_new-more two =
      let new : Option Element = some (record { prev = at (n - 1); next = at 0; info = d }) in
      let changed : Option Element =
        some (record { prev = p; next = at (after n 0); info = info 0 }) in
      let next : Heap = write (write h p new) (at 0) changed in
      let z : (n == 0) ≡ false = ground arith in
      let start : (0 == n) ≡ false = ground arith in
      let more : (n + 1 == 0) ≡ false = ground arith in
      let low : (n - 1 == 0) ≡ false = ground arith in
      let one : (n == 1) ≡ false = ground arith in
      let other : (at (n - 1) == at 0) ≡ false =
        at-== r (n - 1) 0 (omega arith) (omega arith) ∙ low in
      rw
        (
          z,
          start,
          more,
          load-there (with_heap h) (at 0) (r.node 0 (omega arith)),
          other,
          set_prev-there (with_heap (write h p new)) (at 0) (still new 0 (omega arith)) p,
          set_next-there (with_heap next) (at (n - 1))
              (write-other (write h p new) (at 0) (at (n - 1)) changed other
                ∙ still new (n - 1) (omega arith))
              p,
          one,
        )
        refl

  heap_with-Ring :
      p ≢ null → Ring (heap_with h n at info p d) (n + 1) (extend at n p) (extend info n d)
  heap_with-Ring ne = elim (Bool-cases (n == 0)) [
    | inl z ↦ rw z (
        subst
          (λ k.
            Ring (write h p (some (record { prev = p; next = p; info = d }))) (k + 1)
              (extend at k p) (extend info k d))
          (sym (==_eq n 0 z)) (alone ne))
    | inr z ↦ rw (z, suc_form) (added-Ring r p d unused (ground arith) ne)
  ]

  pub link_new-runs :
      link_new p d (listed h n at)
      ≡ ok (pos (n + 1)) (listed (heap_with h n at info p d) (n + 1) (extend at n p))
  unfolding link_new
  link_new-runs = elim (Bool-cases (n == 0)) [
    | inl z ↦ rw (==_eq n 0 z) refl
    | inr z ↦ elim (Bool-cases (n == 1)) [
      | inl o ↦ link_new-one (==_eq n 1 o)
      | inr o ↦ link_new-more (ground arith)
    ]
  ]

longer : (xs : List ℕ) (d : ℕ) → length (xs ++ (d ∷ [])) ≡ length xs + 1
longer xs d = length-append xs (d ∷ [])

held-extend :
    (xs : List ℕ) (d i : ℕ)
    → i < length (xs ++ (d ∷ []))
    → extend (held xs) (length xs) d i ≡ held (xs ++ (d ∷ [])) i
held-extend xs d i h = elim (Bool-cases (i == length xs)) [
  | inl e ↦
      rw e (sym (get_or-append_right xs (d ∷ []) i 0 0 (omega (arith, ==_eq i (length xs) e))))
  | inr e ↦ rw e (sym (get_or-append_left xs (d ∷ []) i 0 (ground (arith, longer xs d))))
]

-- On a list that holds the data xs in this order, AddChListe of data that is not NULL, with an
-- element that malloc gives at an unused address, returns the new count and leaves a list that holds
-- xs and behind it the new data.
pub add_ch_liste-append :
    {h : Heap} {at : ℕ → ℕ} (xs : List ℕ) (r : Ring h (length xs) at (held xs)) (p d : ℕ)
    → h p ≡ none
    → p ≢ null
    → d ≢ null
    → (add_ch_liste (some p) d (listed h (length xs) at)
        ≡ ok (pos (length xs + 1)) (
            listed
              (heap_with h (length xs) at (held xs) p d)
              (length (xs ++ (d ∷ [])))
              (extend at (length xs) p)))
      × Ring
          (heap_with h (length xs) at (held xs) p d)
          (length (xs ++ (d ∷ [])))
          (extend at (length xs) p)
          (held (xs ++ (d ∷ [])))
unfolding add_ch_liste
add_ch_liste-append {h = h} {at = at} xs r p d unused ne data_ne = (
  (rw (==_ne d null data_ne, longer xs d) (link_new-runs r p d unused)),
  rw (longer xs d) (
      with_info (λ i hi. held-extend xs d i (omega (arith, longer xs d)))
        (heap_with-Ring r p d unused ne)),
)
