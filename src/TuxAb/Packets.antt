-- ===== src/TuxAb/Packets.antt =====
-- compare_plc, AddPacket, Optimise_Plc and Optimise of TuxAB.c: tags whose elements stand close together
-- in a file are read by one packet. The code builds the logical binary address of a tag again wherever
-- it needs it; the field lba holds the same value. malloc is taken to succeed.
pub mod Sorted
pub mod Partition
pub mod Spans
use tux_plc.Base.{
  ℕ, zero, suc, ◌+◌, ◌-◌, ◌%◌, ◌^◌, Bool, true, false, ◌&&◌, List, [], ◌∷◌, ◌++◌, length, ltb, leb,
  ◌==◌, if◌then◌else◌,
}
use tux_plc.Base.Int.{ℤ, pos, negsuc}
use tux_plc.Tuxeip.Requests.{LogicalBinaryAddress}
use tux_plc.TuxAb.{Tag, Packet, Plc, PlcType, plc5, slc500, lgx, unknow}

-- a - b, of two bytes.
abbrev pub difference : ℕ → ℕ → ℤ
difference a b = if leb b a then pos (a - b) else negsuc (b - a - 1)

-- a - b of two unsigned int, as an int.
abbrev pub wrapped : ℕ → ℕ → ℤ
wrapped a b =
    let d = (a + 2 ^ 32 - b) % 2 ^ 32 in if ltb d (2 ^ 31) then pos d else negsuc (2 ^ 32 - d - 1)

-- a + 1
abbrev pub successor : ℤ → ℤ
successor (pos n) = pos (n + 1)
successor (negsuc zero) = pos 0
successor (negsuc (suc n)) = negsuc n

-- The loop of compare_plc from byte i, with `left` rounds to do.
unfoldable pub compare_from : ℕ → ℕ → LogicalBinaryAddress → LogicalBinaryAddress → ℤ
compare_from zero i a b = wrapped a.mask b.mask
compare_from (suc left) i a b = elim (a.address i == b.address i) [
  | true ↦ compare_from left (i + 1) a b
  | false ↦ difference (a.address i) (b.address i)
]

unfoldable pub compare_plc : Tag → Tag → ℤ
compare_plc a b = compare_from (a.lba.size - 1) 1 a.lba b.lba

abbrev pub is_positive : ℤ → Bool
is_positive (pos n) = ltb 0 n
is_positive (negsuc n) = false

-- TrieChListe on the list: the inner loop keeps the lesser of two in the place of the outer one.
module _ {A : Type 0} (greater : A → A → Bool) where
  unfoldable pub pass : A → List A → A × List A
  pass x [] = (x, [])
  pass x (y ∷ ys) = elim (greater x y) [
    | true ↦ (let rest = pass y ys in (rest.0, x ∷ rest.1))
    | false ↦ (let rest = pass x ys in (rest.0, y ∷ rest.1))
  ]

  -- The outer loop, of as many rounds as there are elements.
  unfoldable pub sort_rounds : ℕ → List A → List A
  sort_rounds zero xs = xs
  sort_rounds (suc n) [] = []
  sort_rounds (suc n) (x ∷ xs) = let p = pass x xs in p.0 ∷ sort_rounds n p.1

  unfoldable pub trie : List A → List A
  trie xs = sort_rounds (length xs) xs

abbrev pub greater_plc : Tag → Tag → Bool
greater_plc a b = is_positive (compare_plc a b)

-- AddPacket.
unfoldable pub add_packet : Packet → Tag → Packet
add_packet p t =
    let first = if p.time_sample == 0 then t.time_sample else p.time_sample in
    record p {
      time_sample = if ltb t.time_sample first then t.time_sample else first;
      tags = p.tags ++ (t ∷ []);
    }

abbrev pub max_elt_by_packet : ℕ
max_elt_by_packet = 50

-- What the loop of Optimise_Plc asks of a tag behind the base tag.
unfoldable pub fits_packet : Tag → Tag → Bool
fits_packet base t =
    base.lba.address 0 == t.lba.address 0
    && (base.lba.address 0 == 6
        && (base.lba.address 1 == t.lba.address 1
            && leb (t.lba.address 2) (base.lba.address 2 + max_elt_by_packet)))

-- A new packet, with the base tag in it.
unfoldable pub new_packet : Tag → Packet
unfolding add_packet
new_packet base =
    record (add_packet
      (record { base_address = []; num_elt = pos 0; time_sample = 0; time_value = 0; tags = [] })
      base) { base_address = base.address }

-- The tag added to the packet of a base tag.
unfoldable pub extended : Tag → Packet → Tag → Packet
unfolding add_packet
extended base p t =
    let index = difference (t.lba.address 2) (base.lba.address 2) in
    record (add_packet p (record t { index = index })) { num_elt = successor index }

-- The variables btag and packet of the loop.
pub data Group : Type 0 where
  no_base : Group
  alone : Tag → Group
  grouped : Tag → Packet → Group

-- What the loop leaves in plc->Tags and in plc->Packets.
pub record Optimised : Type 0 where
  pub tags : List Tag
  pub packets : List Packet

abbrev pub left_alone : Tag → Optimised → Optimised
left_alone t o = record { tags = t ∷ o.tags; packets = o.packets }

abbrev pub packed : Packet → Optimised → Optimised
packed p o = record { tags = o.tags; packets = p ∷ o.packets }

-- The loop over plc->Tags. Where a tag does not fit, the same tag is the next base.
unfoldable pub group_loop : List Tag → Group → Optimised
group_loop [] no_base = record { tags = []; packets = [] }
group_loop [] (alone base) = record { tags = base ∷ []; packets = [] }
group_loop [] (grouped base p) = record { tags = []; packets = p ∷ [] }
group_loop (t ∷ ts) no_base = group_loop ts (alone t)
group_loop (t ∷ ts) (alone base) = elim (fits_packet base t) [
  | true ↦ group_loop ts (grouped base (extended base (new_packet base) t))
  | false ↦ left_alone base (group_loop ts (alone t))
]
group_loop (t ∷ ts) (grouped base p) = elim (fits_packet base t) [
  | true ↦ group_loop ts (grouped base (extended base p t))
  | false ↦ packed p (group_loop ts (alone t))
]

-- Optimise_Plc, of a PLC without packets.
unfoldable pub optimise_plc : Plc → Plc
optimise_plc p =
    let o = group_loop (trie greater_plc p.tags) no_base in
    record p { tags = o.tags; packets = o.packets }

-- Optimise.
unfoldable pub optimise : Plc → Plc
optimise p = elim p.plc_type [
  | plc5 ↦ optimise_plc p
  | slc500 ↦ optimise_plc p
  | lgx ↦ p
  | unknow ↦ p
]
