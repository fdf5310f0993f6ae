-- ===== src/TuxAb/Links/Reading.antt =====
-- The readings of Logger keep the pointers in the lists.
use tux_plc.Base.{ℕ, Bool, true, false, List, [], ◌∷◌, Option, none, some, if◌then◌else◌}
use tux_plc.Base.Int.{ℤ, pos, ◌==ℤ◌}
use tux_plc.TuxAb.{Tag, Packet, Plc, PlcType, plc5, slc500, lgx, unknow}
use tux_plc.TuxAb.Daemon.{Calls, Act, ◌>>=◌, pure, call}
use tux_plc.TuxAb.Logger.{
  Sampling, is_due, update_tag, taken, read_by_type, read_tag, update_tags, taken_packet,
  packet_by_type, read_packet, sampled_tag, sampled_tags, sampled_packet, sampled_packets, sooner,
  after_read, packet_data,
}
use tux_plc.TuxAb.Links.Sessions.{Keeps}

module _ {c : Calls} where
  pub Keeps->>= :
      {A B : Type 0} (m : Act c A) (k : A → Act c B)
      → Keeps m
      → ((a : A) → Keeps (k a))
      → Keeps (m >>= k)
  Keeps->>= m k hm hk s l = hk (m s).0 (m s).1 (hm s l)

  pub Keeps-if :
      {A : Type 0} (b : Bool) (m n : Act c A) → Keeps m → Keeps n → Keeps (if b then m else n)
  Keeps-if true m n hm hn = hm
  Keeps-if false m n hm hn = hn

  Keeps-call : {A : Type 0} (f : c.World → A × c.World) → Keeps {c = c} (call f)
  Keeps-call f s l = l

  update_tag-Keeps : (t : Tag) (v : c.Value) → Keeps {c = c} (update_tag t v)
  unfolding update_tag
  update_tag-Keeps t v s l =
      Keeps-if c.test (pure true) (call (c.store t.tag_name v)) (λ s l. l)
        (Keeps-call (c.store t.tag_name v)) (record s { world = (c.time s.world).1 }) l

  taken-Keeps : (t : Tag) (place : ℤ) (r : Option (ℤ → c.Value)) → Keeps {c = c} (taken t place r)
  unfolding taken
  taken-Keeps t place none s l = l
  taken-Keeps t place (some values) s l =
      Keeps-if (c.cip_errno s.world ==ℤ pos 0) (update_tag t (values place)) (pure t)
        (update_tag-Keeps t (values place)) (λ s l. l) s l

  read_by_type-Keeps : (type : PlcType) (p : Plc) (t : Tag) → Keeps {c = c} (read_by_type type p t)
  unfolding read_by_type
  read_by_type-Keeps plc5 p t s l =
      taken-Keeps t (pos 0) _ (call (c.read_plc_data p t.address 1) s).1 l
  read_by_type-Keeps slc500 p t s l =
      taken-Keeps t (pos 0) _ (call (c.read_plc_data p t.address 1) s).1 l
  read_by_type-Keeps lgx p t s l =
      taken-Keeps t (pos 0) _ (call (c.read_lgx_data p t.address 1) s).1 l
  read_by_type-Keeps unknow p t s l = l

  update_tags-Keeps : (values : ℤ → c.Value) (ts : List Tag) → Keeps {c = c} (update_tags values ts)
  unfolding update_tags
  update_tags-Keeps values [] s l = l
  update_tags-Keeps values (t ∷ ts) s l =
      update_tags-Keeps values ts (update_tag t (values t.index) s).1
        (update_tag-Keeps t (values t.index) s l)

  taken_packet-Keeps : (k : Packet) (r : Option (ℤ → c.Value)) → Keeps {c = c} (taken_packet k r)
  unfolding taken_packet
  taken_packet-Keeps k none s l = l
  taken_packet-Keeps k (some values) s l =
      Keeps-if (c.cip_errno s.world ==ℤ pos 0) (update_tags values k.tags) (pure k.tags)
        (update_tags-Keeps values k.tags) (λ s l. l) s l

  packet_by_type-Keeps :
      (type : PlcType) (p : Plc) (k : Packet) → Keeps {c = c} (packet_by_type type p k)
  unfolding packet_by_type
  packet_by_type-Keeps plc5 p k s l = taken_packet-Keeps k _ (packet_data p k s).1 l
  packet_by_type-Keeps slc500 p k s l = taken_packet-Keeps k _ (packet_data p k s).1 l
  packet_by_type-Keeps lgx p k s l = l
  packet_by_type-Keeps unknow p k s l = l

  sampled_tag-Keeps :
      (now : ℕ) (p : Plc) (t : Tag) (r : Sampling) → Keeps {c = c} (sampled_tag now p t r)
  unfolding sampled_tag read_tag
  sampled_tag-Keeps now p t r s l =
      Keeps-if (is_due now t.time_value t.time_sample)
        (do
          (t', res) ← read_tag p t
          pure (t', sooner t'.time_value t'.time_sample (after_read res r)))
        (pure (t, sooner t.time_value t.time_sample r)) (read_by_type-Keeps p.plc_type p t)
        (λ s l. l) s l

  pub sampled_tags-Keeps :
      (now : ℕ) (p : Plc) (ts : List Tag) (r : Sampling) → Keeps {c = c} (sampled_tags now p ts r)
  unfolding sampled_tags
  sampled_tags-Keeps now p [] r s l = l
  sampled_tags-Keeps now p (t ∷ ts) r s l =
      sampled_tags-Keeps now p ts (sampled_tag now p t r s).0.1 (sampled_tag now p t r s).1
        (sampled_tag-Keeps now p t r s l)

  sampled_packet-Keeps :
      (now : ℕ) (p : Plc) (k : Packet) (r : Sampling) → Keeps {c = c} (sampled_packet now p k r)
  unfolding sampled_packet read_packet
  sampled_packet-Keeps now p k r s l =
      Keeps-if (is_due now k.time_value k.time_sample)
        (do
          (k', res) ← read_packet p k
          pure (k', sooner k'.time_value k'.time_sample (after_read res r)))
        (pure (k, sooner k.time_value k.time_sample r)) (packet_by_type-Keeps p.plc_type p k)
        (λ s l. l) s l

  pub sampled_packets-Keeps :
      (now : ℕ) (p : Plc) (ks : List Packet) (r : Sampling)
      → Keeps {c = c} (sampled_packets now p ks r)
  unfolding sampled_packets
  sampled_packets-Keeps now p [] r s l = l
  sampled_packets-Keeps now p (k ∷ ks) r s l =
      sampled_packets-Keeps now p ks (sampled_packet now p k r s).0.1 (sampled_packet now p k r s).1
        (sampled_packet-Keeps now p k r s l)
