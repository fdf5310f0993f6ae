-- ===== src/TuxAb/Packets/Spans.antt =====
-- What the packets of Optimise_Plc cover.
use tux_plc.Base.{
  ℕ, suc, ◌+◌, ◌-◌, ◌*◌, ◌≤◌, ◌<◌, ◌≡◌, refl, ap, sym, inl, inr, true, false, Bool-cases, List, [],
  ◌∷◌, ◌++◌, All, ◌==◌, arith,
}
use tux_plc.Base.Int.{pos}
use tux_plc.TuxAb.{Tag, Packet, Plc}
use tux_plc.TuxAb.Packets.{
  compare_from, compare_plc, greater_plc, difference, Group, no_base, alone, grouped, group_loop,
  fits_packet, extended, new_packet, trie, optimise_plc,
}
use tux_plc.TuxAb.Packets.Sorted.{IsOrdered, trie-All, trie-IsOrdered}

-- A tag as _GetTag makes it, whose address has two levels or more: no place in a packet, a time sample.
abbrev pub IsElement : Tag → Type 0
IsElement t =
    (3 ≤ t.lba.size)
    × (t.lba.address 1 < 256)
    × (t.lba.address 2 < 256)
    × (t.index ≡ pos 0)
    × (0 < t.time_sample)

-- The file and the element of a tag, as one number.
abbrev key : Tag → ℕ
key t = 256 * t.lba.address 1 + t.lba.address 2

compare-above : (a b : Tag) → IsElement a → IsElement b → greater_plc a b ≡ true → key b ≤ key a
unfolding compare_plc compare_from
compare-above a b ha hb g =
    let two : a.lba.size - 1 ≡ suc (suc (a.lba.size - 3)) = omega (arith, ha) in
    let g' = rw two at g in
    elim (Bool-cases (a.lba.address 1 == b.lba.address 1)) [
      | inl e ↦ elim (Bool-cases (a.lba.address 2 == b.lba.address 2)) [
        | inl z ↦ ground arith
        | inr z ↦ ground (arith, rw (e, z, compare_from) at g')
      ]
      | inr e ↦ ground (arith, rw (e, compare_from) at g')
    ]

compare-below : (a b : Tag) → IsElement a → IsElement b → greater_plc a b ≡ false → key a ≤ key b
unfolding compare_plc compare_from
compare-below a b ha hb g =
    let two : a.lba.size - 1 ≡ suc (suc (a.lba.size - 3)) = omega (arith, ha) in
    let g' = rw two at g in
    elim (Bool-cases (a.lba.address 1 == b.lba.address 1)) [
      | inl e ↦ elim (Bool-cases (a.lba.address 2 == b.lba.address 2)) [
        | inl z ↦ ground arith
        | inr z ↦ ground (arith, rw (e, z, compare_from) at g')
      ]
      | inr e ↦ ground (arith, rw (e, compare_from) at g')
    ]

-- A tag of a packet: its place is that of its element behind the base tag's, in the same file.
abbrev pub InSpan : Tag → ℕ → ℕ → Tag → Type 0
InSpan base count sample t =
    (n : ℕ) × (t.index ≡ pos n)
    × (n < count)
    × (t.lba.address 1 ≡ base.lba.address 1)
    × (t.lba.address 2 ≡ base.lba.address 2 + n)
    × (sample ≤ t.time_sample)

-- The packet of a base tag, that reaches `last` elements behind it.
record Reaches (base : Tag) (last : ℕ) (p : Packet) : Type 0 where
  tags : All (InSpan base (last + 1) p.time_sample) p.tags
  sampled : 0 < p.time_sample
  address : p.base_address ≡ base.address
  rest : List Tag
  first : p.tags ≡ base ∷ rest

-- The packet of a base tag reads num_elt elements from it on, at most 51, and its tags stand among them.
pub record IsCovered (p : Packet) : Type 0 where
  pub base : Tag
  pub count : ℕ
  pub counted : p.num_elt ≡ pos count
  pub bounded : count ≤ 51
  pub at_base : p.base_address ≡ base.address
  pub rest : List Tag
  pub first : p.tags ≡ base ∷ rest
  pub sampled : 0 < p.time_sample
  pub within : All (InSpan base count p.time_sample) p.tags

All-weaken :
    {A : Type 0} (P Q : A → Type 0) → ((x : A) → P x → Q x) → (xs : List A) → All P xs → All Q xs
All-weaken P Q f [] h = tt
All-weaken P Q f (x ∷ xs) h = (f x h.0, All-weaken P Q f xs h.1)

All-snoc :
    {A : Type 0} (P : A → Type 0) (xs : List A) (x : A) → All P xs → P x → All P (xs ++ (x ∷ []))
All-snoc P [] x h e = (e, tt)
All-snoc P (y ∷ xs) x h e = (h.0, All-snoc P xs x h.1 e)

InSpan-wider :
    (base : Tag) (count count' sample sample' : ℕ) (t : Tag)
    → count ≤ count'
    → sample' ≤ sample
    → InSpan base count sample t
    → InSpan base count' sample' t
InSpan-wider base count count' sample sample' t hc hs (n, at, lt, file, elt, le) =
    (n, at, omega (arith, lt, hc), file, elt, omega (arith, le, hs))

fits_packet_parts :
    (base t : Tag)
    → fits_packet base t ≡ true
    → (base.lba.address 1 ≡ t.lba.address 1) × (t.lba.address 2 ≤ base.lba.address 2 + 50)
unfolding fits_packet
fits_packet_parts base t h = ground arith

new_packet-Reaches : (base : Tag) → IsElement base → Reaches base 0 (new_packet base)
unfolding new_packet
new_packet-Reaches base h = record {
  tags = ((0, h.3, omega arith, refl, omega arith, ground arith), tt);
  sampled = ground arith;
  address = refl;
  rest = [];
  first = refl;
}

extended-sample :
    (base : Tag) (p : Packet) (t : Tag)
    → 0 < p.time_sample
    → 0 < t.time_sample
    → (0 < (extended base p t).time_sample)
      × ((extended base p t).time_sample ≤ p.time_sample)
      × ((extended base p t).time_sample ≤ t.time_sample)
unfolding extended
extended-sample base p t hp ht = (ground arith, ground arith, ground arith)

extended-Reaches :
    (base : Tag) (last m : ℕ) (p : Packet) (t : Tag)
    → Reaches base last p
    → IsElement t
    → base.lba.address 1 ≡ t.lba.address 1
    → t.lba.address 2 ≡ base.lba.address 2 + m
    → last ≤ m
    → Reaches base m (extended base p t) × ((extended base p t).num_elt ≡ pos (m + 1))
unfolding extended
extended-Reaches base last m p t r h file elt le =
    let sample = extended-sample base p t r.sampled h.4 in
    let place : difference (t.lba.address 2) (base.lba.address 2) ≡ pos m = ground arith in
    (
      record {
        tags =
            All-snoc (InSpan base (m + 1) (extended base p t).time_sample) p.tags
              (record t { index = difference (t.lba.address 2) (base.lba.address 2) })
              (All-weaken (InSpan base (last + 1) p.time_sample)
                (InSpan base (m + 1) (extended base p t).time_sample)
                (λ x.
                  InSpan-wider base (last + 1) (m + 1) p.time_sample (extended base p t).time_sample
                    x (omega (arith, le)) sample.1)
                p.tags r.tags)
              (m, place, omega arith, sym file, elt, sample.2);
        sampled = sample.0;
        address = r.address;
        rest =
            r.rest ++ (record t { index = difference (t.lba.address 2) (base.lba.address 2) } ∷ []);
        first =
            ap
              (λ ts.
                ts ++ (record t { index = difference (t.lba.address 2) (base.lba.address 2) } ∷ []))
              r.first;
      },
      rw place refl,
    )

-- What the variables of the loop know of the tags that are left.
IsReady : Group → List Tag → Type 0
IsReady no_base ts = Unit
IsReady (alone base) ts = IsElement base × All (λ t. key base ≤ key t) ts
IsReady (grouped base p) ts =
    (last : ℕ) × Reaches base last p
    × (p.num_elt ≡ pos (last + 1))
    × (last ≤ 50)
    × All (λ t. key base + last ≤ key t) ts

Reaches-IsCovered :
    (base : Tag) (last : ℕ) (p : Packet)
    → Reaches base last p
    → p.num_elt ≡ pos (last + 1)
    → last ≤ 50
    → IsCovered p
Reaches-IsCovered base last p r counted h = record {
  base = base;
  count = last + 1;
  counted = counted;
  bounded = omega (arith, h);
  at_base = r.address;
  rest = r.rest;
  first = r.first;
  sampled = r.sampled;
  within = r.tags;
}

-- A tag that fits is the next of the packet.
joins :
    (base : Tag) (last : ℕ) (p : Packet) (t : Tag) (ts : List Tag)
    → Reaches base last p
    → IsElement t
    → All (λ u. key t ≤ key u) ts
    → key base + last ≤ key t
    → fits_packet base t ≡ true
    → IsReady (grouped base (extended base p t)) ts
unfolding IsReady
joins base last p t ts r h hs le e =
    let parts = fits_packet_parts base t e in
    let m = t.lba.address 2 - base.lba.address 2 in
    let next =
      extended-Reaches base last m p t r h parts.0 (omega (arith, le, parts))
        (omega (arith, le, parts)) in
    (
      m,
      next.0,
      next.1,
      omega (arith, parts),
      All-weaken (λ u. key t ≤ key u) (λ u. key base + m ≤ key u)
          (λ u hu. omega (arith, hu, le, parts)) ts hs,
    )

group_loop-IsCovered :
    (ts : List Tag) (g : Group)
    → All IsElement ts
    → IsOrdered key ts
    → IsReady g ts
    → All IsCovered (group_loop ts g).packets
unfolding group_loop IsReady
group_loop-IsCovered [] no_base h o r = tt
group_loop-IsCovered [] (alone base) h o r = tt
group_loop-IsCovered [] (grouped base p) h o (last, reach, counted, le, _) =
    (Reaches-IsCovered base last p reach counted le, tt)
group_loop-IsCovered (t ∷ ts) no_base h o r = group_loop-IsCovered ts (alone t) h.1 o.1 (h.0, o.0)
group_loop-IsCovered (t ∷ ts) (alone base) h o r = elim (Bool-cases (fits_packet base t)) [
  | inl e ↦
      rw (e, group_loop)
        (group_loop-IsCovered ts (grouped base (extended base (new_packet base) t)) h.1 o.1 (
          joins base 0 (new_packet base) t ts (new_packet-Reaches base r.0) h.0 o.0
            (omega (arith, r.1.0)) e))
  | inr e ↦ rw (e, group_loop) (group_loop-IsCovered ts (alone t) h.1 o.1 (h.0, o.0))
]
group_loop-IsCovered (t ∷ ts) (grouped base p) h o (last, reach, counted, le, ahead) =
    elim (Bool-cases (fits_packet base t)) [
      | inl e ↦
          rw (e, group_loop)
            (group_loop-IsCovered ts (grouped base (extended base p t)) h.1 o.1
              (joins base last p t ts reach h.0 o.0 ahead.0 e))
      | inr e ↦
          rw (e, group_loop)
            (
              Reaches-IsCovered base last p reach counted le,
              group_loop-IsCovered ts (alone t) h.1 o.1 (h.0, o.0),
            )
    ]

-- For tags whose addresses have two levels or more, as _GetTag makes them, each packet of Optimise_Plc
-- reads num_elt elements, at most 51, from its base address on, which is the address of its first tag,
-- the base tag. Each of its tags stands in the same file as the base tag, at a third byte that is the base tag's plus its Index, an Index that
-- is below num_elt. The packet is sampled, at least as often as each of its tags asks for.
pub optimise_plc-IsCovered :
    (p : Plc) → All IsElement p.tags → All IsCovered (optimise_plc p).packets
unfolding optimise_plc IsReady
optimise_plc-IsCovered p h =
    group_loop-IsCovered (trie greater_plc p.tags) no_base (trie-All greater_plc IsElement p.tags h)
      (trie-IsOrdered greater_plc IsElement key compare-above compare-below p.tags h) tt
