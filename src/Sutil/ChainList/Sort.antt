-- ===== src/Sutil/ChainList/Sort.antt =====
-- TrieChListe on a ring: its exchanges change the data alone.
pub mod Pass
pub mod Order
pub mod Run
use tux_plc.Base.{
  ℕ, zero, suc, ◌+◌, ◌-◌, ◌≤◌, ◌<◌, ◌≡◌, ◌≢◌, refl, ap, sym, ◌∙◌, inl, inr, Bool, true, false,
  Bool-cases, ◌==◌, ==_eq, ==_self, if◌then◌else◌, Option, none, some, arith,
}
use tux_plc.Sutil.ChainList.{Element, Heap, Liste, null, ok, write, swap_elt, exchange, set_info}
use tux_plc.Sutil.ChainList.Ring.{
  Ring, with_info, listed, before, after, element, at-==, load-there, set_info-there, write-other,
}

-- The data with the values of two indices exchanged.
abbrev pub swapped : (ℕ → ℕ) → ℕ → ℕ → ℕ → ℕ
swapped info i j k = if k == i then info j else if k == j then info i else info k

abbrev pub exchanged : (ℕ → ℕ → Bool) → (ℕ → ℕ) → ℕ → ℕ → ℕ → ℕ
exchanged greater info i j = if greater (info i) (info j) then swapped info i j else info

module _ {h : Heap} {n : ℕ} {at info : ℕ → ℕ} (r : Ring h n at info) (i j : ℕ) (hi : i < n)
    (hj : j < n) (apart : (i == j) ≡ false) where
  abbrev half : Heap
  half =
      write h (at j)
        (some (record { prev = at (before n j); next = at (after n j); info = info i }))

  abbrev pub swapped_heap : Heap
  swapped_heap =
      write half (at i)
        (some (record { prev = at (before n i); next = at (after n i); info = info j }))

  swap_elt-runs : swap_elt (at i) (at j) (listed h n at) ≡ ok tt (listed swapped_heap n at)
  unfolding swap_elt
  swap_elt-runs =
      rw
        (
          load-there (listed h n at) (at j) (r.node j hj),
          load-there (listed h n at) (at i) (r.node i hi),
          set_info-there (listed h n at) (at j) (r.node j hj) (info i),
          set_info-there (listed half n at) (at i)
              (write-other h (at j) (at i) _ (at-== r i j hi hj ∙ apart) ∙ r.node i hi) (info j),
        )
        refl

  swapped-Ring : Ring swapped_heap n at (swapped info i j)
  unfolding write
  swapped-Ring = record {
    node = λ k hk.
        rw (at-== r k i hk hi, at-== r k j hk hj)
          (elim (Bool-cases (k == i)) [
            | inl e ↦ rw (e, ==_eq k i e) refl
            | inr e ↦ elim (Bool-cases (k == j)) [
              | inl z ↦ rw (e, z, ==_eq k j z) refl
              | inr z ↦ rw (e, z) (r.node k hk)
            ]
          ]);
    apart = r.apart;
    not_null = r.not_null;
  }

  pub exchange-runs :
      (greater : ℕ → ℕ → Bool)
      → (h' : Heap) × (exchange greater (at i) (at j) (listed h n at) ≡ ok tt (listed h' n at))
        × Ring h' n at (exchanged greater info i j)
  unfolding exchange
  exchange-runs greater = elim (Bool-cases (greater (info i) (info j))) [
    | inl e ↦ (
      swapped_heap,
      rw
          (
            load-there (listed h n at) (at i) (r.node i hi),
            load-there (listed h n at) (at j) (r.node j hj),
            e,
          )
          swap_elt-runs,
      rw e swapped-Ring,
    )
    | inr e ↦ (
      h,
      rw
          (
            load-there (listed h n at) (at i) (r.node i hi),
            load-there (listed h n at) (at j) (r.node j hj),
            e,
          )
          refl,
      rw e r,
    )
  ]
