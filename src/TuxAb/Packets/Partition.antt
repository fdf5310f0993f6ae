-- ===== src/TuxAb/Packets/Partition.antt =====
-- Optimise_Plc loses no tag and reads none twice.
use mathlib.Core.List.{Perm, map, map-append, append_assoc, append-nil, perm_middle}
use mathlib.Core.List.Perm
use tux_plc.Base.{◌≡◌, inl, inr, Bool-cases, List, [], ◌∷◌, ◌++◌}
use tux_plc.Base.Int.{pos}
use tux_plc.TuxAb.{Tag, Packet, Plc}
use tux_plc.TuxAb.Packets.{
  Group, no_base, alone, grouped, Optimised, group_loop, fits_packet, extended, new_packet,
  greater_plc, trie, optimise_plc,
}
use tux_plc.TuxAb.Packets.Sorted.{trie-perm}

-- A tag without its place in a packet.
abbrev pub unplaced : Tag → Tag
unplaced t = record t { index = pos 0 }

abbrev pub packet_tags : List Packet → List Tag
packet_tags [] = []
packet_tags (p ∷ ps) = p.tags ++ packet_tags ps

-- The tags that a PLC reads: by themselves, and in packets.
abbrev pub all_tags : List Tag → List Packet → List Tag
all_tags ts ps = map unplaced (ts ++ packet_tags ps)

-- The tags that the variables of the loop hold.
pending : Group → List Tag
pending no_base = []
pending (alone base) = base ∷ []
pending (grouped base p) = p.tags

abbrev result : Optimised → List Tag
result o = all_tags o.tags o.packets

front :
    (xs ys bs cs : List Tag)
    → Perm (map unplaced cs) (map unplaced (ys ++ bs))
    → Perm (map unplaced (xs ++ cs)) (map unplaced (ys ++ (xs ++ bs)))
front [] ys bs cs h = h
front (x ∷ xs) ys bs cs h = Perm.trans (Perm.cons (unplaced x) (front xs ys bs cs h)) (
    rw (map-append unplaced ys (xs ++ bs), map-append unplaced ys (x ∷ (xs ++ bs)))
      (Perm.symm (perm_middle (map unplaced ys) (map unplaced (xs ++ bs)))))

-- A tag joins the tags of a packet at their end.
extended-tags :
    (base : Tag) (p : Packet) (t : Tag) (ts : List Tag)
    → map unplaced (p.tags ++ t ∷ ts) ≡ map unplaced ((extended base p t).tags ++ ts)
unfolding extended
extended-tags base p t ts = simp (map-append, append_assoc)

group_loop-perm :
    (ts : List Tag) (g : Group) → Perm (map unplaced (pending g ++ ts)) (result (group_loop ts g))
unfolding group_loop pending new_packet
group_loop-perm [] no_base = Perm.refl []
group_loop-perm [] (alone base) = Perm.refl _
group_loop-perm [] (grouped base p) = Perm.refl _
group_loop-perm (t ∷ ts) no_base = group_loop-perm ts (alone t)
group_loop-perm (t ∷ ts) (alone base) = elim (Bool-cases (fits_packet base t)) [
  | inl e ↦
      rw (e, group_loop)
        (rw (extended-tags base (new_packet base) t ts)
          (group_loop-perm ts (grouped base (extended base (new_packet base) t))))
  | inr e ↦ rw (e, group_loop) (Perm.cons (unplaced base) (group_loop-perm ts (alone t)))
]
group_loop-perm (t ∷ ts) (grouped base p) = elim (Bool-cases (fits_packet base t)) [
  | inl e ↦
      rw (e, group_loop)
        (rw (extended-tags base p t ts) (group_loop-perm ts (grouped base (extended base p t))))
  | inr e ↦
      rw (e, group_loop)
        (front p.tags (group_loop ts (alone t)).tags (packet_tags (group_loop ts (alone t)).packets)
          (t ∷ ts) (group_loop-perm ts (alone t)))
]

-- On every list of tags, Optimise_Plc leaves each tag either in plc->Tags or in one packet, as often as
-- it was in plc->Tags before, whatever their addresses; of the tags, only Index changes.
pub optimise_plc-perm :
    (p : Plc)
    → p.packets ≡ []
    → Perm (all_tags p.tags p.packets) (all_tags (optimise_plc p).tags (optimise_plc p).packets)
unfolding optimise_plc pending
optimise_plc-perm p none_yet = rw none_yet (
    rw (append-nil p.tags) (
      Perm.trans (Perm.map unplaced (trie-perm greater_plc p.tags))
        (group_loop-perm (trie greater_plc p.tags) no_base)))
