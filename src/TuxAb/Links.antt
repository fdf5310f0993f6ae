-- ===== src/TuxAb/Links.antt =====
-- What the pointers of the PLCs of TuxAB.c refer to: the lists SESSIONs and CONNECTIONs.
pub mod Sessions
pub mod Connections
pub mod Reading
pub mod Rounds
pub mod Kills
use tux_plc.Base.{
  ℕ, zero, suc, ◌≡◌, ◌≢◌, refl, inl, inr, Bool, true, false, Bool-cases, ◌||◌, List, [], ◌∷◌, ◌++◌,
  All, get_or, ◌==◌, ==_eq, ==_self, arith,
}
use tux_plc.TuxAb.{Plc}
use tux_plc.TuxAb.Daemon.{Calls, Globals, null, nobody, changed_at, changed, removed}
use tux_plc.TuxAb.Sessions.{without_session}
use tux_plc.TuxAb.Connections.{with_connection}

abbrev pub holds : ℕ → List ℕ → Bool
holds v [] = false
holds v (x ∷ xs) = x == v || holds v xs

-- NULL, or a pointer that the list holds.
abbrev pub IsHeld : List ℕ → ℕ → Type 0
IsHeld xs v = (v == null || holds v xs) ≡ true

abbrev pub IsLinkedPlc : List ℕ → List ℕ → Plc → Type 0
IsLinkedPlc sessions connections p = IsHeld sessions p.session × IsHeld connections p.connection

abbrev pub AreLinked : List Plc → List ℕ → List ℕ → Type 0
AreLinked plcs sessions connections =
    All (IsLinkedPlc sessions connections) plcs
    × All (λ v. v ≢ null) sessions
    × All (λ v. v ≢ null) connections

-- Each PLC has no session or one that SESSIONs holds, and no connection or one that CONNECTIONs holds;
-- the lists hold no NULL.
abbrev pub IsLinked : {c : Calls} → Globals c → Type 0
IsLinked s = AreLinked s.plcs s.sessions s.connections

holds-append : (v : ℕ) (xs ys : List ℕ) → holds v xs ≡ true → holds v (xs ++ ys) ≡ true
holds-append v [] ys h = absurd (ground (arith, h))
holds-append v (x ∷ xs) ys h = ground (arith, holds-append v xs ys)

holds-new : (v : ℕ) (xs : List ℕ) → holds v (xs ++ (v ∷ [])) ≡ true
holds-new v [] = ground arith
holds-new v (x ∷ xs) = ground (arith, holds-new v xs)

holds-removed :
    (v w : ℕ) (xs : List ℕ) → (v == w) ≡ false → holds v xs ≡ true → holds v (removed w xs) ≡ true
holds-removed v w [] e h = h
holds-removed v w (x ∷ xs) e h = ground (arith, holds-removed v w xs e)

pub IsHeld-append : (xs ys : List ℕ) (v : ℕ) → IsHeld xs v → IsHeld (xs ++ ys) v
IsHeld-append xs ys v h = ground (arith, holds-append v xs ys)

pub IsHeld-new : (xs : List ℕ) (v : ℕ) → IsHeld (xs ++ (v ∷ [])) v
IsHeld-new xs v = ground (arith, holds-new v xs)

pub IsHeld-removed :
    (w : ℕ) (xs : List ℕ) (v : ℕ) → (v == w) ≡ false → IsHeld xs v → IsHeld (removed w xs) v
IsHeld-removed w xs v e h = ground (arith, holds-removed v w xs e)

pub All-to :
    {A : Type 0} (P Q : A → Type 0) → ((x : A) → P x → Q x) → (xs : List A) → All P xs → All Q xs
All-to P Q f [] h = tt
All-to P Q f (x ∷ xs) h = (f x h.0, All-to P Q f xs h.1)

pub All-new :
    {A : Type 0} (P : A → Type 0) (xs : List A) (x : A) → All P xs → P x → All P (xs ++ (x ∷ []))
All-new P [] x h e = (e, tt)
All-new P (y ∷ xs) x h e = (h.0, All-new P xs x h.1 e)

pub All-removed : (P : ℕ → Type 0) (w : ℕ) (xs : List ℕ) → All P xs → All P (removed w xs)
All-removed P w [] h = tt
All-removed P w (x ∷ xs) h = elim (Bool-cases (x == w)) [
  | inl e ↦ rw (e, removed) h.1
  | inr e ↦ rw (e, removed) (h.0, All-removed P w xs h.1)
]

pub All-changed_at :
    (P : Plc → Type 0) (f : Plc → Plc)
    → ((p : Plc) → P p → P (f p))
    → (i : ℕ) (ps : List Plc) → All P ps
    → All P (changed_at f i ps)
All-changed_at P f keep i [] h = tt
All-changed_at P f keep zero (p ∷ ps) h = (keep p h.0, h.1)
All-changed_at P f keep (suc i) (p ∷ ps) h = (h.0, All-changed_at P f keep i ps h.1)

pub All-changed :
    (P Q : Plc → Type 0) (f : Plc → Plc)
    → ((p : Plc) → P p → Q (f p))
    → (ps : List Plc) → All P ps
    → All Q (changed f ps)
All-changed P Q f keep [] h = tt
All-changed P Q f keep (p ∷ ps) h = (keep p h.0, All-changed P Q f keep ps h.1)

module _ (ps : List Plc) (ss cs : List ℕ) (l : AreLinked ps ss cs) where
  -- A change of a PLC that keeps its pointers.
  pub AreLinked-kept :
      (f : Plc → Plc) (i : ℕ)
      → ((p : Plc) → (f p).session ≡ p.session)
      → ((p : Plc) → (f p).connection ≡ p.connection)
      → AreLinked (changed_at f i ps) ss cs
  AreLinked-kept f i hs hc = (
    All-changed_at (IsLinkedPlc ss cs) f (λ p h. (rw (hs p) h.0, rw (hc p) h.1)) i ps l.0,
    l.1,
    l.2,
  )

  pub AreLinked-session :
      (i v : ℕ) → IsHeld ss v → AreLinked (changed_at (λ p. record p { session = v }) i ps) ss cs
  AreLinked-session i v h = (
    All-changed_at (IsLinkedPlc ss cs) (λ p. record p { session = v }) (λ p hp. (h, hp.1)) i ps l.0,
    l.1,
    l.2,
  )

  pub AreLinked-connection :
      (i v : ℕ) → IsHeld cs v → AreLinked (changed_at (λ p. record p { connection = v }) i ps) ss cs
  AreLinked-connection i v h = (
    All-changed_at (IsLinkedPlc ss cs) (λ p. record p { connection = v }) (λ p hp. (hp.0, h)) i ps
        l.0,
    l.1,
    l.2,
  )

  pub AreLinked-add_session : (v : ℕ) → v ≢ null → AreLinked ps (ss ++ (v ∷ [])) cs
  AreLinked-add_session v h = (
    All-to (IsLinkedPlc ss cs) (IsLinkedPlc (ss ++ (v ∷ [])) cs)
        (λ p hp. (IsHeld-append ss (v ∷ []) p.session hp.0, hp.1)) ps l.0,
    All-new (λ w. w ≢ null) ss v l.1 h,
    l.2,
  )

  pub AreLinked-add_connection : (v : ℕ) → v ≢ null → AreLinked ps ss (cs ++ (v ∷ []))
  AreLinked-add_connection v h = (
    All-to (IsLinkedPlc ss cs) (IsLinkedPlc ss (cs ++ (v ∷ [])))
        (λ p hp. (hp.0, IsHeld-append cs (v ∷ []) p.connection hp.1)) ps l.0,
    l.1,
    All-new (λ w. w ≢ null) cs v l.2 h,
  )

  pub AreLinked-without_session :
      (v : ℕ) → AreLinked (changed (without_session v) ps) (removed v ss) cs
  AreLinked-without_session v = (
    All-changed (IsLinkedPlc ss cs) (IsLinkedPlc (removed v ss) cs) (without_session v)
        (λ p hp. elim (Bool-cases (p.session == v)) [
          | inl e ↦ rw e (refl, hp.1)
          | inr e ↦ rw e (IsHeld-removed v ss p.session e hp.0, hp.1)
        ])
        ps l.0,
    All-removed (λ w. w ≢ null) v ss l.1,
    l.2,
  )

  -- The connection of some PLCs is replaced, and the list holds the new one or it is NULL.
  pub AreLinked-with_connection :
      (v new : ℕ) (cs' : List ℕ)
      → IsHeld cs' new
      → ((w : ℕ) → (w == v) ≡ false → IsHeld cs w → IsHeld cs' w)
      → All (λ w. w ≢ null) cs'
      → AreLinked (changed (with_connection v new) ps) ss cs'
  AreLinked-with_connection v new cs' h others some_all = (
    All-changed (IsLinkedPlc ss cs) (IsLinkedPlc ss cs') (with_connection v new)
        (λ p hp. elim (Bool-cases (p.connection == v)) [
          | inl e ↦ rw e (hp.0, h)
          | inr e ↦ rw e (hp.0, others p.connection e hp.1)
        ])
        ps l.0,
    l.1,
    some_all,
  )
