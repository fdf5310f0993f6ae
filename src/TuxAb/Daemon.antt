-- ===== src/TuxAb/Daemon.antt =====
-- The sessions and connections of TuxAB.c: BuildSession, BuildConnection, CheckSession, CheckConnection,
-- KillSession, KillConnection and KillAll, over the global lists PLCs, SESSIONs and CONNECTIONs. A PLC is
-- its place in PLCs. What the daemon calls of the library tuxeip, of the clock and of the database is the
-- parameter Calls. A call is taken neither to set errno to ERANGE nor to reset it.
use tux_plc.Base.{
  ℕ, zero, suc, ◌+◌, Bool, true, false, not, ◌&&◌, ◌||◌, List, [], ◌∷◌, ◌++◌, length, get_or, ◌==◌,
  Option, none, some, if◌then◌else◌,
}
use tux_plc.Base.Int.{ℤ, pos}
use tux_plc.Base.Libc.{atoi, starts_with}
use tux_plc.TuxAb.{Plc, PlcType, unknow}
use tux_plc.TuxAb.Paths.{ParsedPath, parse_path, tokens, out_of_range}

abbrev pub null : ℕ
null = 0

-- What ConnectPLCOverDHP or ConnectPLCOverCNET is called for: a new connection with a serial number and
-- a route, or one that has the numbers and the route of another.
pub data ConnectionRequest : Type 0 where
  fresh : ℕ → List ℕ → ConnectionRequest
  again : ℕ → ConnectionRequest

pub record Calls : Type 1 where
  pub World : Type 0
  pub Value : Type 0
  pub open_session : List ℕ → World → ℕ × World
  pub set_timeout : ℕ → World → World
  -- Whether the result of _RegisterSession is not negative.
  pub register_session : ℕ → World → Bool × World
  pub close_session : ℕ → World → World
  -- Whether the result of _ListServices is positive.
  pub list_services : ℕ → World → Bool × World
  pub unregister_session : ℕ → World → World
  -- The session, the type and the network of a PLC, and what to open.
  pub connect : ℕ → PlcType → ℕ → ConnectionRequest → World → ℕ × World
  pub free_connection : ℕ → World → World
  pub forward_close : ℕ → World → World
  pub cip_errno : World → ℤ
  pub cip_ext_errno : World → ℤ
  pub pid : World → ℕ
  pub time : World → ℕ × World
  -- ReadPLCData of a number of values from an address on, and PCCC_GetValueAsFloat of the reply.
  pub read_plc_data : Plc → List ℕ → ℕ → World → Option (ℤ → Value) × World
  pub read_lgx_data : Plc → List ℕ → ℕ → World → Option (ℤ → Value) × World
  -- The update of the snapshot of a tag; whether the query succeeded.
  pub store : List ℕ → Value → World → Bool × World
  -- The option TEST of the command line.
  pub test : Bool

-- The globals of TuxAB.c. `range` is whether errno is ERANGE.
pub record Globals (c : Calls) : Type 0 where
  pub world : c.World
  pub plcs : List Plc
  pub sessions : List ℕ
  pub connections : List ℕ
  pub serial : ℕ
  pub range : Bool

abbrev pub Act : Calls → Type 0 → Type 0
Act c A = Globals c → A × Globals c

-- A PLC that stands in for one that is not there.
abbrev pub nobody : Plc
nobody = record {
  plc_name = [];
  plc_path = [];
  plc_type = unknow;
  network = 0;
  node = pos 0;
  errors = 0;
  session = null;
  connection = null;
  next_time = 0;
  tags = [];
  packets = [];
}

abbrev pub changed_at : (Plc → Plc) → ℕ → List Plc → List Plc
changed_at f i [] = []
changed_at f zero (p ∷ ps) = f p ∷ ps
changed_at f (suc i) (p ∷ ps) = p ∷ changed_at f i ps

abbrev pub changed : (Plc → Plc) → List Plc → List Plc
changed f [] = []
changed f (p ∷ ps) = f p ∷ changed f ps

-- RemoveChListe: the first element that holds the pointer goes.
abbrev pub removed : ℕ → List ℕ → List ℕ
removed v [] = []
removed v (x ∷ xs) = elim (x == v) [ true ↦ xs | false ↦ x ∷ removed v xs ]

-- The flag of ERANGE behind ParsePath.
abbrev pub any_out_of_range : List (List ℕ) → Bool
any_out_of_range [] = false
any_out_of_range (t ∷ ts) = out_of_range (atoi t) || any_out_of_range ts

abbrev pub behind_first : List (List ℕ) → List (List ℕ)
behind_first [] = []
behind_first (t ∷ ts) = ts

-- path_size > 0
abbrev pub routed : Option ParsedPath → Option ParsedPath
routed none = none
routed (some r) = if length r.route == 0 then none else some r

-- Whether the address of a path begins with Ip.
abbrev pub begins_with : List ℕ → Option ParsedPath → Bool
begins_with ip none = false
begins_with ip (some r) = starts_with ip r.ip

-- FindConnection.
unfoldable pub find_connection : List ℕ → ℕ → List Plc → ℕ
find_connection path network [] = null
find_connection path network (p ∷ ps) =
    let rest = find_connection path network ps in
    if not (p.connection == null) && (starts_with path p.plc_path && p.network == network)
    then p.connection
    else rest

module _ {c : Calls} where
  infixl 5 ◌>>=◌ ◌>>◌
  abbrev pub ◌>>=◌ : {A B : Type 0} → Act c A → (A → Act c B) → Act c B
  (m >>= k) s = k (m s).0 (m s).1

  abbrev pub ◌>>◌ : {A B : Type 0} → Act c A → Act c B → Act c B
  (m >> k) s = k (m s).1

  abbrev pub pure : {A : Type 0} → A → Act c A
  pure a s = (a, s)

  abbrev pub call : {A : Type 0} → (c.World → A × c.World) → Act c A
  call f s = let r = f s.world in (r.0, record s { world = r.1 })

  abbrev pub run : (c.World → c.World) → Act c (Unit {0})
  run f s = (tt, record s { world = f s.world })

  abbrev pub asks : {A : Type 0} → (c.World → A) → Act c A
  asks f s = (f s.world, s)

  abbrev pub the_plcs : Act c (List Plc)
  the_plcs s = (s.plcs, s)

  abbrev pub the_plc : ℕ → Act c Plc
  the_plc i s = (get_or s.plcs i nobody, s)

  abbrev pub change_plc : ℕ → (Plc → Plc) → Act c (Unit {0})
  change_plc i f s = (tt, record s { plcs = changed_at f i s.plcs })

  abbrev pub change_plcs : (Plc → Plc) → Act c (Unit {0})
  change_plcs f s = (tt, record s { plcs = changed f s.plcs })

  abbrev pub add_session : ℕ → Act c (Unit {0})
  add_session v s = (tt, record s { sessions = s.sessions ++ (v ∷ []) })

  abbrev pub add_connection : ℕ → Act c (Unit {0})
  add_connection v s = (tt, record s { connections = s.connections ++ (v ∷ []) })

  abbrev pub remove_session : ℕ → Act c (Unit {0})
  remove_session v s = (tt, record s { sessions = removed v s.sessions })

  abbrev pub remove_connection : ℕ → Act c (Unit {0})
  remove_connection v s = (tt, record s { connections = removed v s.connections })

  -- ParsePath, with its effect on errno; none where it returns 0.
  abbrev pub parse : List ℕ → Act c (Option ParsedPath)
  parse path s = (
    routed (parse_path s.range path),
    record s { range = s.range || any_out_of_range (behind_first (tokens path)) },
  )

  abbrev pub set_session : ℕ → ℕ → Act c (Unit {0})
  set_session i v = change_plc i (λ p. record p { session = v })

  abbrev pub set_connection : ℕ → ℕ → Act c (Unit {0})
  set_connection i v = change_plc i (λ p. record p { connection = v })

  -- GetSerial.
  unfoldable pub get_serial : Act c ℕ
  get_serial s = (c.pid s.world + s.serial, record s { serial = s.serial + 1 })

  -- The session of a PLC that is found, or the search behind it.
  abbrev pub found_or : Bool → ℕ → Act c ℕ → Act c ℕ
  found_or true v rest = pure v
  found_or false v rest = rest

  -- FindSession.
  unfoldable pub find_session : List ℕ → List Plc → Act c ℕ
  find_session ip [] = pure null
  find_session ip (p ∷ ps) = do
    r ← parse p.plc_path
    found_or (begins_with ip r) p.session (find_session ip ps)
