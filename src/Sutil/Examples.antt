-- ===== src/Sutil/Examples.antt =====
-- The theorems on chained lists at a list of three.
use tux_plc.Base.{ℕ, ◌<◌, ◌≡◌, refl, Bool, false, ltb, none, some, arith, [], ◌∷◌, held}
use tux_plc.Base.Int.{pos}
use tux_plc.Sutil.ChainList.{Heap, ok, write, add_ch_liste, remove_ch_liste, trie_ch_liste}
use tux_plc.Sutil.ChainList.Ring.{Ring, listed}
use tux_plc.Sutil.ChainList.Added.{extend}
use tux_plc.Sutil.ChainList.Add.{heap_with, add_ch_liste-append}
use tux_plc.Sutil.ChainList.Remove.{without}
use tux_plc.Sutil.ChainList.Search.{removed}
use tux_plc.Sutil.ChainList.Erase.{remove_ch_liste-erase}
use tux_plc.Sutil.ChainList.Sort.Pass.{count}
use tux_plc.Sutil.ChainList.Sort.Order.{IsAsym, IsTrans}
use tux_plc.Sutil.ChainList.Sort.Run.{trie_ch_liste-sorts}

abbrev no_heap : Heap
no_heap p = none

abbrev nowhere : ℕ → ℕ
nowhere i = 0

no_heap-Ring : Ring no_heap 0 nowhere (held [])
no_heap-Ring = record {
  node = λ i hi. absurd (omega arith);
  apart = λ i j hi hj same. absurd (omega arith);
  not_null = λ i hi. absurd (omega arith);
}

abbrev one_heap : Heap
one_heap = heap_with no_heap 0 nowhere (held []) 16 7

abbrev one_at : ℕ → ℕ
one_at = extend nowhere 0 16

abbrev two_heap : Heap
two_heap = heap_with one_heap 1 one_at (held (7 ∷ [])) 32 5

abbrev two_at : ℕ → ℕ
two_at = extend one_at 1 32

abbrev three_heap : Heap
three_heap = heap_with two_heap 2 two_at (held (7 ∷ 5 ∷ [])) 48 6

abbrev three_at : ℕ → ℕ
three_at = extend two_at 2 48

one_heap-Ring : Ring one_heap 1 one_at (held (7 ∷ []))
one_heap-Ring =
    (add_ch_liste-append [] no_heap-Ring 16 7 refl (λ e. omega (arith, e))
      (λ e. omega (arith, e))).1

two_heap-Ring : Ring two_heap 2 two_at (held (7 ∷ 5 ∷ []))
unfolding write
two_heap-Ring =
    (add_ch_liste-append (7 ∷ []) one_heap-Ring 32 5 refl (λ e. omega (arith, e))
      (λ e. omega (arith, e))).1

add_ch_liste-append_example :
    (add_ch_liste (some 48) 6 (listed two_heap 2 two_at)
      ≡ ok (pos 3) (listed three_heap 3 three_at))
    × Ring three_heap 3 three_at (held (7 ∷ 5 ∷ 6 ∷ []))
unfolding write
add_ch_liste-append_example =
    add_ch_liste-append (7 ∷ 5 ∷ []) two_heap-Ring 48 6 refl (λ e. omega (arith, e))
      (λ e. omega (arith, e))

three_heap-Ring : Ring three_heap 3 three_at (held (7 ∷ 5 ∷ 6 ∷ []))
unfolding write
three_heap-Ring =
    (add_ch_liste-append (7 ∷ 5 ∷ []) two_heap-Ring 48 6 refl (λ e. omega (arith, e))
      (λ e. omega (arith, e))).1

remove_ch_liste-erase_example :
    (remove_ch_liste 3 5 (listed three_heap 3 three_at)
      ≡ ok
          (pos 2)
          (listed (removed three_heap 3 three_at (held (7 ∷ 5 ∷ 6 ∷ [])) 1) 2 (without three_at 1)))
    × Ring
        (removed three_heap 3 three_at (held (7 ∷ 5 ∷ 6 ∷ [])) 1)
        2
        (without three_at 1)
        (held (7 ∷ 6 ∷ []))
remove_ch_liste-erase_example =
    remove_ch_liste-erase 3 5 (7 ∷ []) (6 ∷ []) three_heap-Ring (omega arith)
      ((λ e. omega (arith, e)), tt)

abbrev more_than : ℕ → ℕ → Bool
more_than a b = ltb b a

more_than-IsAsym : IsAsym more_than
more_than-IsAsym a b h = ground arith

more_than-IsTrans : IsTrans more_than
more_than-IsTrans a b c h g = ground arith

trie_ch_liste-sorts_example :
    (h' : Heap) × (info' : ℕ → ℕ) × (trie_ch_liste more_than 4 (listed three_heap 3 three_at)
      ≡ ok tt (listed h' 3 three_at))
    × Ring h' 3 three_at info'
    × ((j k : ℕ) → j < k → k < 3 → more_than (info' j) (info' k) ≡ false)
    × ((v : ℕ) → count v info' 3 ≡ count v (held (7 ∷ 5 ∷ 6 ∷ [])) 3)
trie_ch_liste-sorts_example =
    trie_ch_liste-sorts more_than three_heap-Ring 4 (omega arith) more_than-IsAsym more_than-IsTrans
