-- ===== src/Sutil/ChainList/Sort/Run.antt =====
-- TrieChListe runs its loops over a ring.
use tux_plc.Base.{
  ℕ, zero, suc, ◌+◌, ◌<◌, ◌≡◌, refl, ap, ◌∙◌, Bool, true, false, ◌==◌, if◌then◌else◌, arith,
}
use tux_plc.Sutil.ChainList.{Heap, null, ok, sort_inner, sort_outer, trie_ch_liste}
use tux_plc.Sutil.ChainList.Ring.{Ring, listed, at-null}
use tux_plc.Sutil.ChainList.Search.{get_next-at}
use tux_plc.Sutil.ChainList.Sort.{exchange-runs}
use tux_plc.Sutil.ChainList.Sort.Pass.{pass, sorted, count}
use tux_plc.Sutil.ChainList.Sort.Order.{IsAsym, IsTrans, sorted-order, count-sorted}

-- What the inner loop meets at the index j: an element's address, or NULL at the end.
abbrev pub place : ℕ → (ℕ → ℕ) → ℕ → ℕ
place n at j = if j == n then null else at j

module _ (greater : ℕ → ℕ → Bool) where
  sort_inner-runs :
      (f i j m : ℕ) {h : Heap} {n : ℕ} {at info : ℕ → ℕ} (r : Ring h n at info)
      → i < j
      → j + m ≡ n
      → m < f
      → (h' : Heap) × (sort_inner greater f (at i) (place n at j) (listed h n at)
          ≡ ok tt (listed h' n at))
        × Ring h' n at (pass greater info i j m)
  unfolding sort_inner
  sort_inner-runs zero i j m {h = h} {n = n} {at = at} r ij jn mf = absurd (omega arith)
  sort_inner-runs (suc f) i j zero {h = h} {n = n} {at = at} r ij jn mf =
      let ends : (j == n) ≡ true = ground arith in (h, rw ends refl, r)
  sort_inner-runs (suc f) i j (suc m) {h = h} {n = n} {at = at} r ij jn mf =
      let inside : (j == n) ≡ false = ground arith in
      let step = exchange-runs r i j (omega arith) (omega arith) (ground arith) greater in
      let rest = sort_inner-runs f i (j + 1) m step.2 (omega arith) (omega arith) (omega arith) in
      (
        rest.0,
        rw (inside, at-null r j (omega arith), step.1, get_next-at step.2 j (omega arith)) rest.1,
        rest.2,
      )

  sort_outer-runs :
      (inner f i m : ℕ) {h : Heap} {n : ℕ} {at info : ℕ → ℕ} (r : Ring h n at info)
      → i + m ≡ n
      → m < f
      → n < inner
      → (h' : Heap) × (sort_outer greater inner f (place n at i) (listed h n at)
          ≡ ok tt (listed h' n at))
        × Ring h' n at (sorted greater info i m)
  unfolding sort_outer
  sort_outer-runs inner zero i m {h = h} {n = n} r im mf ni = absurd (omega arith)
  sort_outer-runs inner (suc f) i zero {h = h} {n = n} r im mf ni =
      let ends : (i == n) ≡ true = ground arith in (h, rw ends refl, r)
  sort_outer-runs inner (suc f) i (suc m) {h = h} {n = n} r im mf ni =
      let inside : (i == n) ≡ false = ground arith in
      let step = sort_inner-runs inner i (i + 1) m r (omega arith) (omega arith) (omega arith) in
      let rest = sort_outer-runs inner f (i + 1) m step.2 (omega arith) (omega arith) ni in
      (
        rest.0,
        rw
            (
              inside,
              at-null r i (omega arith),
              get_next-at r i (omega arith),
              step.1,
              get_next-at step.2 i (omega arith),
            )
            rest.1,
        rest.2,
      )

  -- On a list of n elements, TrieChListe with a comparison that is asymmetric where it is positive, and
  -- transitive where it is not, ends and leaves a list with the same elements in the same places, whose
  -- data are in order and have each value as often as before. Fuel of n + 1 for each loop is enough.
  pub trie_ch_liste-sorts :
      {h : Heap} {n : ℕ} {at info : ℕ → ℕ} (r : Ring h n at info) (fuel : ℕ)
      → n < fuel
      → IsAsym greater
      → IsTrans greater
      → (h' : Heap) × (info' : ℕ → ℕ) × (trie_ch_liste greater fuel (listed h n at)
          ≡ ok tt (listed h' n at))
        × Ring h' n at info'
        × ((j k : ℕ) → j < k → k < n → greater (info' j) (info' k) ≡ false)
        × ((v : ℕ) → count v info' n ≡ count v info n)
  unfolding trie_ch_liste
  trie_ch_liste-sorts {h = h} {n = n} {at = at} {info = info} r fuel enough asym trans =
      let start : (if n == 0 then null else at 0) ≡ place n at 0 = ground arith in
      let run = sort_outer-runs fuel fuel 0 n r (omega arith) enough enough in
      (
        run.0,
        sorted greater info 0 n,
        ap (λ p. sort_outer greater fuel fuel p (listed h n at)) start ∙ run.1,
        run.2,
        (λ j k jk kn. sorted-order greater asym trans info 0 n j k (omega arith) jk (omega arith)),
        (λ v. count-sorted greater asym trans v info 0 n n (omega arith)),
      )
