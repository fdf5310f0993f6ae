-- ===== src/Tuxeip/Eip/Items.antt =====
-- What _BuildRequest lays in memory.
use tux_plc.Base.{
  ℕ, ◌+◌, ◌-◌, ◌≤◌, ◌<◌, ◌≡◌, refl, ap, ◌∙◌, Bool-cases, inl, inr, fun_ext, true, false, [], ltb,
  ◌==◌, ==_ne, none, some, held, arith,
}
use tux_plc.Base.Bits.{u16}
use tux_plc.Base.Memory.{Memory, laid, laid_before, laid_inside}
use tux_plc.Tuxeip.Eip.{
  Frame, Item, fits, add_header, add_known, add_item, item_memory, get_item_size,
}

-- An addition that fits, as the length and the block it leaves.
pub add_header-fits :
    (f : Frame) (buffer : Memory) (size : ℕ)
    → f.length + 24 + size ≤ 1024
    → add_header f buffer size
      ≡ record f { length = f.length + size; block = laid f.block f.length size buffer }
unfolding add_header
add_header-fits f buffer size h =
    let fit : fits f.length size ≡ true = ground arith in
    let short : u16 (f.length + size) ≡ f.length + size = omega arith in rw (fit, short) refl

laid_none : (m : Memory) (at : ℕ) (src : Memory) → laid m at 0 src ≡ m
unfolding laid
laid_none m at src = fun_ext (λ i. ground arith)

-- The block that an item leaves.
abbrev pub with_item : Memory → ℕ → Item → Memory → ℕ → Memory
with_item m at t d size =
    laid (laid m at size (item_memory (record t { length = t.length + (size - 4) }))) (at + size)
      t.length d

module _ (f : Frame) (t : Item) (d : Memory) (size : ℕ) (known : 4 ≤ size)
    (room : f.length + 24 + size + t.length ≤ 1024) where
  add_known-some : add_known f t (some d) size ≡ record f {
    length = f.length + size + t.length;
    block = with_item f.block f.length t d size;
  }
  unfolding add_known
  add_known-some =
      let plain : u16 (t.length + (size - 4)) ≡ t.length + (size - 4) = omega arith in
      rw
        (
          plain,
          add_header-fits f (item_memory (record t { length = t.length + (size - 4) })) size
              (omega arith),
        )
        (elim (Bool-cases (ltb 0 (t.length + (size - 4)))) [
          | inl e ↦ rw e (
              add_header-fits
                (record f {
                  length = f.length + size;
                  block =
                      laid f.block f.length size
                        (item_memory (record t { length = t.length + (size - 4) }));
                })
                d t.length (omega arith))
          | inr e ↦
              let empty : t.length ≡ 0 = ground arith in
              rw
                (
                  e,
                  empty,
                  laid_none
                      (laid f.block f.length size
                        (item_memory (record t { length = 0 + (size - 4) })))
                      (f.length + size) d,
                )
                (ap
                  (λ n. record f {
                    length = n;
                    block =
                        laid f.block f.length size
                          (item_memory (record t { length = 0 + (size - 4) }));
                  })
                  (omega arith))
        ])

  add_known-none :
      t.length ≡ 0
      → add_known f t none size ≡ record f {
        length = f.length + size;
        block = laid f.block f.length size (item_memory (record t { length = size - 4 }));
      }
  unfolding add_known
  add_known-none empty =
      let plain : u16 (t.length + (size - 4)) ≡ size - 4 = omega arith in
      let total : size + t.length ≡ size = omega arith in
      rw (plain, total)
        (add_header-fits f (item_memory (record t { length = size - 4 })) size (omega arith))

module _ (f : Frame) (t : Item) (known : 4 ≤ get_item_size t.type_id)
    (room : f.length + 24 + get_item_size t.type_id + t.length ≤ 1024) where
  is_known : (get_item_size t.type_id == 0) ≡ false
  is_known = ==_ne (get_item_size t.type_id) 0 (λ e. omega (arith, e))

  pub add_item-some :
      (d : Memory)
      → add_item f t (some d) ≡ record f {
        length = f.length + get_item_size t.type_id + t.length;
        block = with_item f.block f.length t d (get_item_size t.type_id);
      }
  unfolding add_item
  add_item-some d = rw is_known (add_known-some f t d (get_item_size t.type_id) known room)

  pub add_item-none :
      t.length ≡ 0
      → add_item f t none ≡ record f {
        length = f.length + get_item_size t.type_id;
        block =
            laid f.block f.length
              (get_item_size t.type_id)
              (item_memory (record t { length = get_item_size t.type_id - 4 }));
      }
  unfolding add_item
  add_item-none empty =
      rw is_known (add_known-none f t (held []) (get_item_size t.type_id) known room empty)

module _ (m : Memory) (at : ℕ) (t : Item) (d : Memory) (size : ℕ) where
  pub with_item_before : (i : ℕ) → i < at → with_item m at t d size i ≡ m i
  with_item_before i h =
      laid_before _ (at + size) t.length d i (omega arith) ∙ laid_before m at size _ i h

  pub with_item_header :
      (i : ℕ)
      → i < size
      → with_item m at t d size (at + i)
        ≡ item_memory (record t { length = t.length + (size - 4) }) i
  with_item_header i h =
      laid_before _ (at + size) t.length d (at + i) (omega arith) ∙ laid_inside m at size _ i h

  pub with_item_data : (i : ℕ) → i < t.length → with_item m at t d size (at + size + i) ≡ d i
  with_item_data i h = laid_inside _ (at + size) t.length d i h
