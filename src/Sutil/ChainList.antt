-- ===== src/Sutil/ChainList.antt =====
-- The chained list of sutil/src/ChainList.c: elements on a heap, linked in a ring. A pointer is an
-- address, and NULL is 0. What malloc returns is an argument: an address, or none for NULL.
pub mod Ring
pub mod Added
pub mod Add
pub mod Remove
pub mod Search
pub mod Erase
pub mod Sort
use tux_plc.Base.{
  ℕ, zero, suc, ◌+◌, ◌-◌, Bool, true, false, ◌==◌, ◌||◌, if◌then◌else◌, Option, none, some,
}
use tux_plc.Base.Int.{ℤ, pos, negsuc}

-- ELEMENT.
pub record Element : Type 0 where
  pub prev : ℕ
  pub next : ℕ
  pub info : ℕ

abbrev pub Heap : Type 0
Heap = ℕ → Option Element

-- LISTE, with the heap that its elements stand in.
pub record Liste : Type 0 where
  pub heap : Heap
  pub count : ℕ
  pub first : ℕ

abbrev pub null : ℕ
null = 0

unfoldable pub write : Heap → ℕ → Option Element → Heap
write h p c a = if a == p then c else h a

-- The result of an operation and the list behind it. A fault is an access to an address that holds
-- no element; a loop that has not ended is out of fuel.
pub data Run (A : Type 0) : Type 0 where
  ok : A → Liste → Run A
  fault : Run A
  out_of_fuel : Run A

abbrev pub Cmd : Type 0 → Type 0
Cmd A = Liste → Run A

abbrev pub pure : {A : Type 0} → A → Cmd A
pure = ok

module _ {A B : Type 0} where
  abbrev pub and_then : Run A → (A → Cmd B) → Run B
  and_then (ok a l) k = k a l
  and_then fault k = fault
  and_then out_of_fuel k = out_of_fuel

  infixl 5 ◌>>=◌ ◌>>◌
  abbrev pub ◌>>=◌ : Cmd A → (A → Cmd B) → Cmd B
  m >>= k = λ l. and_then (m l) k

  abbrev pub ◌>>◌ : Cmd A → Cmd B → Cmd B
  m >> n = m >>= λ _. n

-- *p
unfoldable pub load : ℕ → Cmd Element
load p l = elim (l.heap p) [ none ↦ fault | some e ↦ ok e l ]

abbrev pub store : ℕ → Option Element → Cmd (Unit {0})
store p c l = ok tt (record l { heap = write l.heap p c })

unfoldable pub set_next : ℕ → ℕ → Cmd (Unit {0})
set_next p q = do e ← load p; store p (some (record e { next = q }))

unfoldable pub set_prev : ℕ → ℕ → Cmd (Unit {0})
set_prev p q = do e ← load p; store p (some (record e { prev = q }))

unfoldable pub set_info : ℕ → ℕ → Cmd (Unit {0})
set_info p v = do e ← load p; store p (some (record e { info = v }))

unfoldable pub free : ℕ → Cmd (Unit {0})
free p = load p >> store p none

abbrev pub get : Cmd Liste
get l = ok l l

abbrev pub put : ℕ → ℕ → Cmd (Unit {0})
put count first l = ok tt (record l { count = count; first = first })

abbrev pub error : ℤ
error = negsuc 0

-- InitChListe.
unfoldable pub init_ch_liste : Heap → Liste
init_ch_liste h = record { heap = h; count = 0; first = null }

-- AddChListe behind its tests, with the new element's address.
unfoldable pub link_new : ℕ → ℕ → Cmd ℤ
link_new p info = do
  l ← get
  if l.count == 0
      then (do put 1 p; store p (some (record { prev = p; next = p; info = info })); pure (pos 1))
      else (do
        f ← load l.first
        if f.prev == l.first
            then (do
              store p (some (record { prev = l.first; next = l.first; info = info }))
              set_prev l.first p
              set_next l.first p
              put (l.count + 1) l.first
              pure (pos (l.count + 1)))
            else (do
              store p (some (record { prev = f.prev; next = l.first; info = info }))
              set_prev l.first p
              set_next f.prev p
              put (l.count + 1) l.first
              pure (pos (l.count + 1))))

-- AddChListe.
unfoldable pub add_ch_liste : Option ℕ → ℕ → Cmd ℤ
add_ch_liste none info = pure error
add_ch_liste (some p) info = if info == null then pure error else link_new p info

-- RemoveChListe_Ex. Only the first element's pointers are looked at where it is alone.
unfoldable pub remove_ch_liste_ex : ℕ → Cmd ℤ
remove_ch_liste_ex p = do
  l ← get
  if p == null || l.first == null then pure error else (do
    f ← load l.first
    if f.prev == l.first then (do put 0 null; pure (pos 0)) else (do
      e ← load p
      put (l.count - 1) (if p == l.first then e.next else l.first)
      set_next e.prev e.next
      e' ← load p
      set_prev e'.next e'.prev
      set_prev p null
      set_next p null
      pure (pos (l.count - 1))))

-- GetFirst.
abbrev pub get_first : Cmd ℕ
get_first = do l ← get; pure l.first

-- GetLast.
unfoldable pub get_last : Cmd ℕ
get_last = do
  l ← get
  if l.first == null
      then pure null
      else (do f ← load l.first; pure (if f.prev == null then null else f.prev))

-- GetNext.
unfoldable pub get_next : ℕ → Cmd ℕ
get_next p = do
  l ← get
  if p == null || l.first == null
      then pure null
      else (do e ← load p; pure (if e.next == p || e.next == l.first then null else e.next))

-- The loop of RemoveChListe.
unfoldable pub remove_loop : ℕ → ℕ → ℕ → Cmd ℤ
remove_loop zero info p = λ _. out_of_fuel
remove_loop (suc f) info p = do
  e ← load p
  if e.info == info
      then (do r ← remove_ch_liste_ex p; free p; pure r)
      else (do q ← get_next p; if q == null then pure error else remove_loop f info q)

-- RemoveChListe.
unfoldable pub remove_ch_liste : ℕ → ℕ → Cmd ℤ
remove_ch_liste fuel info = do
  p ← get_first
  if p == null then pure error else remove_loop fuel info p

-- _SwapElt.
unfoldable pub swap_elt : ℕ → ℕ → Cmd (Unit {0})
swap_elt p q = do b ← load q; a ← load p; set_info q a.info; set_info p b.info

-- `compare(a,b)>0`, for the function that TrieChListe is given.
module _ (greater : ℕ → ℕ → Bool) where
  unfoldable pub exchange : ℕ → ℕ → Cmd (Unit {0})
  exchange p q = do a ← load p; b ← load q; if greater a.info b.info then swap_elt p q else pure tt

  -- The inner loop of TrieChListe.
  unfoldable pub sort_inner : ℕ → ℕ → ℕ → Cmd (Unit {0})
  sort_inner zero p q = λ _. out_of_fuel
  sort_inner (suc f) p q =
      if q == null then pure tt else (do exchange p q; r ← get_next q; sort_inner f p r)

  -- The outer loop; `inner` is the fuel of the inner one.
  unfoldable pub sort_outer : ℕ → ℕ → ℕ → Cmd (Unit {0})
  sort_outer inner zero p = λ _. out_of_fuel
  sort_outer inner (suc f) p =
      if p == null
      then pure tt
      else (do q ← get_next p; sort_inner inner p q; r ← get_next p; sort_outer inner f r)

  -- TrieChListe.
  unfoldable pub trie_ch_liste : ℕ → Cmd (Unit {0})
  trie_ch_liste fuel = do p ← get_first; sort_outer fuel fuel p
