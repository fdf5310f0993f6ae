-- ===== src/Tuxeip/Ioi/Even.antt =====
-- The size of a path.
use tux_plc.Base.{
  ℕ, zero, suc, ◌+◌, ◌-◌, ◌%◌, ◌<◌, ◌≤◌, ◌≡◌, refl, ◌⊎◌, inl, inr, Bool-cases, List, [], ◌∷◌, ◌++◌,
  length, length-append, take, drop, ltb, ◌==◌, Option, none, some, if◌then◌else◌, arith,
}
use tux_plc.Base.Int.{ℤ, pos, negsuc}
use tux_plc.Base.Libc.{atoi}
use tux_plc.Tuxeip.Ioi.{
  Row, no_row, joined, index_of, add_segment_value, array_loop, build_ioi_array, build_ioi_string,
  Ioi, built, unpaired, out_of_fuel, behind, Round, whole, part, open_bracket, closed_at, round_at,
  go_on, bracket_row, ioi_round, ioi_loop, build_ioi,
}

-- The count of a row is its length, and even.
abbrev pub IsPadded : Row → Type 0
IsPadded r = (length r.row ≡ r.count) × (r.count % 2 ≡ 0)

joined-IsPadded : (a b : Row) → IsPadded a → IsPadded b → IsPadded (joined a b)
joined-IsPadded a b ha hb =
    (omega (arith, length-append a.row b.row, ha.0, hb.0), omega (arith, ha.1, hb.1))

add_segment_value-IsPadded : (v : ℤ) → IsPadded (add_segment_value v)
unfolding add_segment_value
add_segment_value-IsPadded (negsuc n) = (refl, refl)
add_segment_value-IsPadded (pos v) = elim (Bool-cases (ltb 0xffff v)) [
  | inl e ↦ rw e (refl, refl)
  | inr e ↦ elim (Bool-cases (ltb 0xff v)) [
    | inl z ↦ rw (e, z) (refl, refl)
    | inr z ↦ rw (e, z) (refl, refl)
  ]
]

rest_of :
    (o : Option ℕ) (k : ℕ → Row)
    → ((i : ℕ) → IsPadded (k i))
    → IsPadded (elim o [ none ↦ no_row | some i ↦ k i ])
rest_of none k h = (refl, refl)
rest_of (some i) k h = h i

array_loop-IsPadded : (f : ℕ) (s : List ℕ) (n : ℕ) → IsPadded (array_loop f s n)
unfolding array_loop
array_loop-IsPadded zero s n = (refl, refl)
array_loop-IsPadded (suc f) s zero = (refl, refl)
array_loop-IsPadded (suc f) s (suc n) =
    joined-IsPadded (add_segment_value (atoi s)) _ (add_segment_value-IsPadded (atoi s)) (
      rest_of (index_of b',' s) (λ i. array_loop f (drop (suc i) s) (n - i))
        (λ i. array_loop-IsPadded f (drop (suc i) s) (n - i)))

length-take : (n : ℕ) (s : List ℕ) → n ≤ length s → length (take n s) ≡ n
length-take zero s h = refl
length-take (suc n) [] h = absurd (omega arith)
length-take (suc n) (x ∷ s) h = omega (arith, length-take n s (omega arith))

name_row-IsPadded :
    (n : ℕ) (name : List ℕ)
    → length name ≡ n
    → IsPadded (record {
      row = 0x91 ∷ n % 256 ∷ (name ++ (if n % 2 == 1 then 0 ∷ [] else []));
      count = 2 + n + n % 2;
    })
name_row-IsPadded n name h = elim (Bool-cases (n % 2 == 1)) [
  | inl e ↦ rw e (ground (arith, h, length-append name (0 ∷ [])), omega arith)
  | inr e ↦ rw e (ground (arith, h, length-append name []), omega arith)
]

build_ioi_string-IsPadded : (s : List ℕ) (size : ℕ) → IsPadded (build_ioi_string s size)
unfolding build_ioi_string
build_ioi_string-IsPadded s size =
    let n = if ltb (length s) size then length s else size in
    elim (Bool-cases (n == 0)) [
      | inl e ↦ rw e (refl, refl)
      | inr e ↦ rw e (name_row-IsPadded n (take n s) (length-take n s (ground arith)))
    ]

build_ioi_array-IsPadded : (s : List ℕ) (size : ℕ) → IsPadded (build_ioi_array s size)
unfolding build_ioi_array
build_ioi_array-IsPadded s size = array_loop-IsPadded _ s _

-- The rows of a round are padded, and what it leaves is shorter.
RoundOk : List ℕ → Round → Type 0
RoundOk s (whole r) = IsPadded r
RoundOk s (part r rest) = IsPadded r × (length rest < length s)
RoundOk s open_bracket = Unit

length_drop : (i : ℕ) (s : List ℕ) → length (drop i s) ≤ length s
length_drop zero s = omega arith
length_drop (suc i) [] = omega arith
length_drop (suc i) (x ∷ s) = omega (arith, length_drop i s)

drop_less : (i : ℕ) (x : ℕ) (s : List ℕ) → length (drop (suc i) (x ∷ s)) < length (x ∷ s)
drop_less i x s = omega (arith, length_drop i s)

bracket_row-IsPadded : (s : List ℕ) (i j : ℕ) → IsPadded (bracket_row s i j)
bracket_row-IsPadded s i j =
    joined-IsPadded _ (build_ioi_array (drop (suc i) s) (j - i))
      (elim (Bool-cases (ltb 0 i)) [
        | inl e ↦ rw e (build_ioi_string-IsPadded s i)
        | inr e ↦ rw e (refl, refl)
      ])
      (build_ioi_array-IsPadded (drop (suc i) s) (j - i))

closed_at-RoundOk :
    (x : ℕ) (s : List ℕ) (b : ℕ) (o : Option ℕ) → RoundOk (x ∷ s) (closed_at (x ∷ s) b o)
unfolding closed_at RoundOk
closed_at-RoundOk x s b none = tt
closed_at-RoundOk x s b (some j) = elim (Bool-cases (ltb b j)) [
  | inl e ↦ rw e (bracket_row-IsPadded (x ∷ s) b j, drop_less j x s)
  | inr e ↦ rw e tt
]

round_at-RoundOk : (x : ℕ) (s : List ℕ) (o d : Option ℕ) → RoundOk (x ∷ s) (round_at (x ∷ s) o d)
unfolding round_at RoundOk
round_at-RoundOk x s none none = build_ioi_string-IsPadded (x ∷ s) _
round_at-RoundOk x s none (some e) = (build_ioi_string-IsPadded (x ∷ s) e, drop_less e x s)
round_at-RoundOk x s (some b) none = closed_at-RoundOk x s b (index_of b']' (x ∷ s))
round_at-RoundOk x s (some b) (some e) = elim (Bool-cases (ltb b e)) [
  | inl h ↦ rw h (closed_at-RoundOk x s b (index_of b']' (x ∷ s)))
  | inr h ↦ rw h (build_ioi_string-IsPadded (x ∷ s) e, drop_less e x s)
]

-- A path that is whole words and as long as it is counted, or brackets that do not pair.
PathOk : Ioi → Type 0
PathOk (built r) = IsPadded r
PathOk unpaired = Unit
PathOk out_of_fuel = ⊥

behind-PathOk : (r : Row) (p : Ioi) → IsPadded r → PathOk p → PathOk (behind r p)
unfolding PathOk
behind-PathOk r (built q) hr hp = joined-IsPadded r q hr hp
behind-PathOk r unpaired hr hp = tt
behind-PathOk r out_of_fuel hr hp = hp

go_on-PathOk :
    (s : List ℕ) (o : Round) (k : List ℕ → Ioi)
    → RoundOk s o
    → ((rest : List ℕ) → length rest < length s → PathOk (k rest))
    → PathOk (go_on o k)
unfolding go_on RoundOk PathOk
go_on-PathOk s (whole r) k h hk = h
go_on-PathOk s (part r rest) k h hk = behind-PathOk r (k rest) h.0 (hk rest h.1)
go_on-PathOk s open_bracket k h hk = tt

ioi_loop-PathOk : (f : ℕ) (s : List ℕ) → length s < f → PathOk (ioi_loop f s)
unfolding ioi_loop PathOk
ioi_loop-PathOk zero s h = absurd (omega arith)
ioi_loop-PathOk (suc f) [] h = (refl, refl)
ioi_loop-PathOk (suc f) (x ∷ s) h =
    go_on-PathOk (x ∷ s) (ioi_round (x ∷ s)) (λ rest. ioi_loop f rest) (round_at-RoundOk x s _ _)
      (λ rest less. ioi_loop-PathOk f rest (omega (arith, h, less)))

Ioi-cases :
    (p : Ioi)
    → PathOk p
    → (p ≡ unpaired) ⊎ ((r : Row) × (p ≡ built r) × (length r.row ≡ r.count) × (r.count % 2 ≡ 0))
unfolding PathOk
Ioi-cases (built r) h = inr (r, refl, h.0, h.1)
Ioi-cases unpaired h = inl refl
Ioi-cases out_of_fuel h = absurd h

-- _BuildIOI ends. Either the brackets of the address do not pair, or the bytes that it passes in the
-- cleared buffer, those that it writes and those of a large index that it leaves at 0, are as many as it
-- returns, and a whole number of words.
pub build_ioi-IsPadded :
    (s : List ℕ)
    → (build_ioi s ≡ unpaired)
      ⊎ ((r : Row) × (build_ioi s ≡ built r) × (length r.row ≡ r.count) × (r.count % 2 ≡ 0))
unfolding build_ioi
build_ioi-IsPadded s = Ioi-cases (build_ioi s) (ioi_loop-PathOk (suc (length s)) s (omega arith))
