-- ===== src/Sutil/ChainList/Remove.antt =====
-- RemoveChListe_Ex, GetNext and RemoveChListe on a ring.
use tux_plc.Base.{
  ℕ, ◌+◌, ◌-◌, ◌≤◌, ◌<◌, ◌≡◌, refl, ◌∙◌, inl, inr, false, Bool-cases, ◌==◌, ltb, ==_eq, ==_self,
  if◌then◌else◌, none, some, arith,
}
use tux_plc.Base.Int.{pos}
use tux_plc.Sutil.ChainList.{Heap, Liste, null, ok, write, remove_ch_liste_ex}
use tux_plc.Sutil.ChainList.Ring.{
  Ring, listed, before, after, element, at-==, at-null, load-there, set_prev-there, set_next-there,
  write-other, write-same,
}

-- A function of the index, without its value at k.
abbrev pub skip : ℕ → ℕ → ℕ
skip k i = if ltb i k then i else i + 1

abbrev pub without : (ℕ → ℕ) → ℕ → ℕ → ℕ
without f k i = f (skip k i)

-- The heap behind the unlinking of the element k out of a ring of two or more.
abbrev pub unlinked : Heap → ℕ → (ℕ → ℕ) → (ℕ → ℕ) → ℕ → Heap
unlinked h n at info k =
    let b = before n k in
    let a = after n k in
    write (write h (at b) (some (record { prev = at (before n b); next = at a; info = info b })))
      (at a)
      (some (record { prev = at b; next = if a == b then at a else at (after n a); info = info a }))

module _ (n k i : ℕ) (two : 2 ≤ n) (hk : k < n) (hi : i < n - 1) where
  before-skip :
      skip k (before (n - 1) i)
      ≡ (if skip k i == after n k then before n k else before n (skip k i))
  before-skip = ground arith

  after-skip :
      skip k (after (n - 1) i) ≡ (if skip k i == before n k then after n k else after n (skip k i))
  after-skip = ground arith

module _ (n k : ℕ) (two : 2 ≤ n) (hk : k < n) where
  before-bound : before n k < n
  before-bound = ground arith

  after-bound : after n k < n
  after-bound = ground arith

  before-ne : (before n k == k) ≡ false
  before-ne = ground arith

  after-ne : (after n k == k) ≡ false
  after-ne = ground arith

  ne-before : (k == before n k) ≡ false
  ne-before = ground arith

  ne-after : (k == after n k) ≡ false
  ne-after = ground arith

  before-zero : (before n 0 == 0) ≡ false
  before-zero = ground arith

-- The element k gets NULL pointers.
abbrev pub cleared : Heap → ℕ → (ℕ → ℕ) → (ℕ → ℕ) → ℕ → Heap
cleared h n at info k =
    write
      (write (unlinked h n at info k) (at k)
        (some (record { prev = null; next = at (after n k); info = info k })))
      (at k) (some (record { prev = null; next = null; info = info k }))

module _ {h : Heap} {n : ℕ} {at info : ℕ → ℕ} (r : Ring h n at info) (k : ℕ) (two : 2 ≤ n)
    (hk : k < n) where
  abbrev b : ℕ
  b = before n k

  abbrev a : ℕ
  a = after n k

  unlinked_self : unlinked h n at info k (at k) ≡ some (element n at info k)
  unfolding write
  unlinked_self =
      rw
        (
          at-== r k a hk (after-bound n k two hk),
          at-== r k b hk (before-bound n k two hk),
          ne-after n k two hk,
          ne-before n k two hk,
        )
        (r.node k hk)

  unlinked-other :
      (i : ℕ)
      → i < n - 1
      → unlinked h n at info k (without at k i)
        ≡ some (element (n - 1) (without at k) (without info k) i)
  unfolding write
  unlinked-other i hi =
      rw
        (
          at-== r (skip k i) a (ground arith) (after-bound n k two hk),
          at-== r (skip k i) b (ground arith) (before-bound n k two hk),
          before-skip n k i two hk hi,
          after-skip n k i two hk hi,
        )
        (elim (Bool-cases (skip k i == a)) [
          | inl e ↦
              rw (==_eq (skip k i) a e, ==_self a)
                (elim (Bool-cases (a == b)) [ inl c ↦ rw c refl | inr c ↦ rw c refl ])
          | inr e ↦ elim (Bool-cases (skip k i == b)) [
            | inl z ↦ rw (e, z, ==_eq (skip k i) b z) refl
            | inr z ↦ rw (e, z) (r.node (skip k i) (ground arith))
          ]
        ])

  cleared-other :
      (i : ℕ)
      → i < n - 1
      → write (cleared h n at info k) (at k) none (without at k i)
        ≡ some (element (n - 1) (without at k) (without info k) i)
  unfolding write
  cleared-other i hi =
      let apart : (skip k i == k) ≡ false = ground arith in
      rw (at-== r (skip k i) k (ground arith) hk, apart) (unlinked-other i hi)

  -- The ring that a removal leaves.
  pub removed-Ring :
      Ring (write (cleared h n at info k) (at k) none) (n - 1) (without at k) (without info k)
  removed-Ring = record {
    node = cleared-other;
    apart = λ i j hi hj same.
        let equal : skip k i ≡ skip k j =
          r.apart (skip k i) (skip k j) (ground arith) (ground arith) same in
        ground arith;
    not_null = λ i hi. r.not_null (skip k i) (ground arith);
  }

  abbrev with_heap : Heap → Liste
  with_heap h' = record { heap = h'; count = n - 1; first = without at k 0 }

  first_after : (if k == 0 then at (after n k) else at 0) ≡ without at k 0
  first_after = ground arith

  -- The heap between the writes to the two neighbours.
  abbrev half : Heap
  half = write h (at b) (some (record { prev = at (before n b); next = at a; info = info b }))

  half_self : half (at k) ≡ some (element n at info k)
  half_self =
      write-other h (at b) (at k) _
        (at-== r k b hk (before-bound n k two hk) ∙ ne-before n k two hk)
      ∙ r.node k hk

  half-after :
      half (at a)
      ≡ some (record {
        prev = if a == b then at (before n b) else at (before n a);
        next = if a == b then at a else at (after n a);
        info = info a;
      })
  unfolding write
  half-after =
      rw (at-== r a b (after-bound n k two hk) (before-bound n k two hk))
        (elim (Bool-cases (a == b)) [
          | inl c ↦ rw (c, ==_eq a b c) refl
          | inr c ↦ rw c (r.node a (after-bound n k two hk))
        ])

  pub ex-more :
      remove_ch_liste_ex (at k) (listed h n at)
      ≡ ok (pos (n - 1)) (with_heap (cleared h n at info k))
  unfolding remove_ch_liste_ex
  ex-more =
      let z : (n == 0) ≡ false = ground arith in
      let other : (n - 1 == 0) ≡ false = ground arith in
      let start : Liste = record { heap = h; count = n; first = at 0 } in
      let two_links : (at (n - 1) == at 0) ≡ false =
        at-== r (n - 1) 0 (omega arith) (omega arith) ∙ other in
      let h1 : Heap = half in
      let h3 : Heap =
        write (unlinked h n at info k) (at k)
          (some (record { prev = null; next = at (after n k); info = info k })) in
      rw
        (
          z,
          at-null r k hk,
          at-null r 0 (omega arith),
          load-there start (at 0) (r.node 0 (omega arith)),
          two_links,
          load-there start (at k) (r.node k hk),
          at-== r k 0 hk (omega arith),
          first_after,
          set_next-there (with_heap h) (at b) (r.node b (before-bound n k two hk)) (at a),
          load-there (with_heap h1) (at k) (half_self),
          set_prev-there (with_heap h1) (at a) half-after (at b),
          set_prev-there (with_heap (unlinked h n at info k)) (at k) unlinked_self null,
          set_next-there (with_heap h3) (at k) (write-same (unlinked h n at info k) (at k) _) null,
        )
        refl
