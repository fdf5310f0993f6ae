-- ===== src/Tuxeip/Pccc/Counts.antt =====
-- The counts of every read that _DecodePCCC returns.
use native.Mathlib.Nat.{mul-div-le}
use tux_plc.Base.{
  ℕ, zero, suc, ◌+◌, ◌*◌, ◌/◌, ◌≤◌, ◌≡◌, refl, ap, sym, ◌∙◌, arith, length, Option, none, some,
}
use tux_plc.Base.Int.{ℤ, pos, negsuc}
use tux_plc.Tuxeip.Pccc.{
  bytes_at, decode_pccc, decode_plc_data_type, Described, PlcRead, quotient, sized, then_with,
  with_count, with_size,
}

-- The read has an element, and where its sizes are not negative, its elements fit in its bytes.
abbrev IsRead : PlcRead → Type 0
IsRead r =
    (n : ℕ) × (r.varcount ≡ pos (suc n))
    × ((e t : ℕ)
        → r.elementsize ≡ pos e
        → r.totalsize ≡ pos t
        → (e * suc n ≤ t) × (length r.content ≡ t))

length-bytes_at : (m : ℕ → ℕ) (at n : ℕ) → length (bytes_at m at n) ≡ n
length-bytes_at m at zero = refl
length-bytes_at m at (suc n) = ap suc (length-bytes_at m (at + 1) n)

pos-pos : (a b : ℕ) → pos a ≡ pos b → a ≡ b
pos-pos a b h = grind (arith, h)

or_else : PlcRead → Option PlcRead → PlcRead
or_else r none = r
or_else r (some x) = x

-- The read that a descriptor makes with a count.
read_of : (ℕ → ℕ) → Described → ℕ → PlcRead
read_of m d n = record {
  type = d.type;
  varcount = pos (suc n);
  totalsize = d.tsize;
  elementsize = d.esize;
  content = sized m d.place d.tsize;
}

with_count-read_of :
    (m : ℕ → ℕ) (d : Described) (q : ℤ) (r : PlcRead)
    → with_count m d q ≡ some r
    → (n : ℕ) × (q ≡ pos (suc n)) × (read_of m d n ≡ r)
unfolding with_count read_of or_else
with_count-read_of m d (pos zero) r h = absurd (grind (arith, h))
with_count-read_of m d (negsuc n) r h = absurd (grind (arith, h))
with_count-read_of m d (pos (suc n)) r h = (n, refl, ap (or_else r) h)

read_of-IsRead :
    (m : ℕ → ℕ) (d : Described) (n : ℕ)
    → quotient d.tsize d.esize ≡ pos (suc n)
    → IsRead (read_of m d n)
unfolding read_of
read_of-IsRead m d n h = (
  n,
  refl,
  λ e t same total. (
    fits t e n (sym (ap (λ z. quotient z (pos e)) total) ∙ sym (ap (quotient d.tsize) same) ∙ h),
    ap (λ z. length (sized m d.place z)) total ∙ length-bytes_at m d.place t,
  ),
)
  where
    fits : (t e k : ℕ) → pos (t / e) ≡ pos (suc k) → e * suc k ≤ t
    fits t e k q = rw (sym (pos-pos (t / e) (suc k) q)) (mul-div-le t e)

with_size-IsRead :
    (m : ℕ → ℕ) (d : Described) (esize : ℤ) (r : PlcRead)
    → d.esize ≡ esize
    → with_size m d esize ≡ some r
    → IsRead r
unfolding with_size
with_size-IsRead m d (pos zero) r same h = absurd (grind (arith, h))
with_size-IsRead m d (pos (suc k)) r same h =
    let (n, q, made) = with_count-read_of m d (quotient d.tsize (pos (suc k))) r h in
    rw (sym made) (read_of-IsRead m d n (ap (quotient d.tsize) same ∙ q))
with_size-IsRead m d (negsuc k) r same h =
    let (n, q, made) = with_count-read_of m d (quotient d.tsize (negsuc k)) r h in
    rw (sym made) (read_of-IsRead m d n (ap (quotient d.tsize) same ∙ q))

described-IsRead :
    (m : ℕ → ℕ) (o : Option Described) (r : PlcRead)
    → then_with o (λ d. with_size m d d.esize) ≡ some r
    → IsRead r
described-IsRead m none r h = absurd (grind (arith, h))
described-IsRead m (some d) r h = with_size-IsRead m d d.esize r refl h

-- Whatever a reply holds, a read that _DecodePCCC returns has one element or more, and where its
-- sizes are not negative, all its elements lie in the bytes that were copied.
pub decode_pccc-counts :
    (m : ℕ → ℕ) (r : PlcRead) (e t : ℕ)
    → decode_pccc m ≡ some r
    → r.elementsize ≡ pos e
    → r.totalsize ≡ pos t
    → (n : ℕ) × (r.varcount ≡ pos (suc n)) × (e * suc n ≤ t) × (length r.content ≡ t)
unfolding decode_pccc
decode_pccc-counts m r e t h same total =
    let (n, count, inside) = described-IsRead m (decode_plc_data_type m) r h in
    let (fits, whole) = inside e t same total in (n, count, fits, whole)
