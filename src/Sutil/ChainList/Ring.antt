-- ===== src/Sutil/ChainList/Ring.antt =====
-- The shape of a chained list: the addresses of its elements by index, and their data.
use tux_plc.Base.{
  ℕ, ◌+◌, ◌-◌, ◌<◌, ◌≡◌, ◌≢◌, refl, ap, ◌∙◌, inl, inr, false, Bool-cases, ◌==◌, ==_eq, ==_self,
  ==_ne, if◌then◌else◌, Option, none, some, arith,
}
use tux_plc.Sutil.ChainList.{
  Element, Heap, Liste, null, ok, load, write, set_prev, set_next, set_info, free,
}

-- The neighbours of an index in a ring of n.
abbrev pub before : ℕ → ℕ → ℕ
before n i = if i == 0 then n - 1 else i - 1

abbrev pub after : ℕ → ℕ → ℕ
after n i = if i + 1 == n then 0 else i + 1

abbrev pub element : ℕ → (ℕ → ℕ) → (ℕ → ℕ) → ℕ → Element
element n at info i = record { prev = at (before n i); next = at (after n i); info = info i }

pub record Ring (h : Heap) (n : ℕ) (at info : ℕ → ℕ) : Type 0 where
  pub node : (i : ℕ) → i < n → h (at i) ≡ some (element n at info i)
  pub apart : (i j : ℕ) → i < n → j < n → at i ≡ at j → i ≡ j
  pub not_null : (i : ℕ) → i < n → at i ≢ null

-- The list of n elements.
abbrev pub listed : Heap → ℕ → (ℕ → ℕ) → Liste
listed h n at = record { heap = h; count = n; first = if n == 0 then null else at 0 }

module _ {h : Heap} {n : ℕ} {at info : ℕ → ℕ} (r : Ring h n at info) where
  pub at-== : (i j : ℕ) → i < n → j < n → (at i == at j) ≡ (i == j)
  at-== i j hi hj = elim (Bool-cases (i == j)) [
    | inl e ↦ rw e (rw (==_eq i j e) (==_self (at j)))
    | inr e ↦ rw e (==_ne (at i) (at j) (λ same. ground (arith, r.apart i j hi hj same)))
  ]

  pub at-null : (i : ℕ) → i < n → (at i == null) ≡ false
  at-null i hi = ==_ne (at i) null (r.not_null i hi)

  -- An address that holds nothing is none of the ring's.
  pub at-unused : (p i : ℕ) → h p ≡ none → i < n → (at i == p) ≡ false
  at-unused p i unused hi = ==_ne (at i) p (λ same. ground (arith, r.node i hi, ap h same))

  pub unused-at : (p i : ℕ) → h p ≡ none → i < n → (p == at i) ≡ false
  unused-at p i unused hi = ==_ne p (at i) (λ same. ground (arith, r.node i hi, ap h same))

pub with_info :
    {h : Heap} {n : ℕ} {at info info' : ℕ → ℕ}
    → ((i : ℕ) → i < n → info i ≡ info' i)
    → Ring h n at info
    → Ring h n at info'
with_info {n = n} {at = at} same r = record {
  node = λ i hi.
      r.node i hi
      ∙ ap (λ v. some (record { prev = at (before n i); next = at (after n i); info = v }))
          (same i hi);
  apart = r.apart;
  not_null = r.not_null;
}

-- The accesses to an element that stands in the heap.
module _ (l : Liste) (p : ℕ) {e : Element} (there : l.heap p ≡ some e) where
  pub load-there : load p l ≡ ok e l
  unfolding load
  load-there = rw (there, load) refl

  pub set_prev-there :
      (q : ℕ)
      → set_prev p q l ≡ ok tt (record l { heap = write l.heap p (some (record e { prev = q })) })
  unfolding set_prev
  set_prev-there q = rw (load-there, set_prev) refl

  pub set_next-there :
      (q : ℕ)
      → set_next p q l ≡ ok tt (record l { heap = write l.heap p (some (record e { next = q })) })
  unfolding set_next
  set_next-there q = rw (load-there, set_next) refl

  pub set_info-there :
      (v : ℕ)
      → set_info p v l ≡ ok tt (record l { heap = write l.heap p (some (record e { info = v })) })
  unfolding set_info
  set_info-there v = rw (load-there, set_info) refl

  pub free-there : free p l ≡ ok tt (record l { heap = write l.heap p none })
  unfolding free
  free-there = rw (load-there, free) refl

pub write-other : (h : Heap) (p a : ℕ) (c : Option Element) → (a == p) ≡ false → write h p c a ≡ h a
unfolding write
write-other h p a c other = rw (other, write) refl

pub write-same : (h : Heap) (p : ℕ) (c : Option Element) → write h p c p ≡ c
unfolding write
write-same h p c = rw (==_self p, write) refl
