-- ===== src/Modbus/Client/Replies.antt =====
-- Which replies the client takes.
use tux_plc.Base.{
  ℕ, ◌*◌, ◌≡◌, refl, ap, sym, ◌∙◌, ◌⊎◌, inl, inr, List, arith, Bool, false, true, Bool-cases, ltb,
  ◌==◌, ==_eq, Option, none, some, if◌then◌else◌,
}
use tux_plc.Base.Int.{ℤ}
use tux_plc.Modbus.{Iec, MbError, no_error, internal, mb_bad_parameter, data_size}
use tux_plc.Modbus.Client.{
  is_many, WriteReply, write_ext, write_reply, reply_error, read_reply, read_ext, read_entry,
  transact, take_reply, checked, report,
}
use tux_plc.Modbus.Link.{Net, Client, send_data_wait_reply}
use tux_plc.Modbus.Request.{Built, build_read_request}
use tux_plc.Modbus.Request.Writes.{Floats, build_write_request}
use tux_plc.Modbus.Table.{entry, get_address, get_c_f_index, offset_in}
use tux_plc.Modbus.Values.{Reply}
use tux_plc.Modbus.Words.{mbswap_16, word_at}

-- The reply carries the transaction and the function that were asked for.
abbrev pub Answers : ℕ → ℕ → (ℕ → ℕ) → Type 0
Answers tid func m = (mbswap_16 (word_at m 0) ≡ tid) × (m 7 ≡ func)

reply_error-Answers :
    (tid func : ℕ) (m : ℕ → ℕ) → reply_error tid func m ≡ none → Answers tid func m
unfolding reply_error
reply_error-Answers tid func m h = elim (Bool-cases (mbswap_16 (word_at m 0) == tid)) [
  | inr e ↦ absurd (ground arith)
  | inl e ↦ elim (Bool-cases (m 7 == func)) [
    | inr e' ↦ absurd (ground arith)
    | inl e' ↦ (==_eq _ _ e, ==_eq _ _ e')
  ]
]

-- The value comes from what was received, a reply that answers.
Taken : {A : Type 0} → Option (ℕ → ℕ) → ℕ → ℕ → ((ℕ → ℕ) → A) → A → Type 0
Taken o tid func result a = (m : ℕ → ℕ) × (o ≡ some m) × (a ≡ result m) × Answers tid func m

-- What is received behind a request, if there is one.
abbrev pub received : {net : Net} → ℤ → ℕ → Option (List ℕ) → Client net → Option (ℕ → ℕ)
received sock timeout none c = none
received sock timeout (some r) c = (send_data_wait_reply sock r timeout c).0

module _ {net : Net} {A : Type 0} (timing : Bool) (tid func : ℕ) (result : (ℕ → ℕ) → A) where
  checked-Taken :
      (m : ℕ → ℕ) (e : Option MbError) (c d : Client net) (a : A)
      → reply_error tid func m ≡ e
      → checked {net = net} (result m) e c ≡ (some a, d)
      → Taken (some m) tid func result a
  unfolding checked Taken
  checked-Taken m none c d a same h =
      (m, refl, grind (arith, ap (λ p. p.0) h), reply_error-Answers tid func m same)
  checked-Taken m (some e) c d a same h = absurd (grind (arith, ap (λ p. p.0) h))

  take_reply-Taken :
      (o : Option (ℕ → ℕ)) (c d : Client net) (a : A)
      → take_reply timing tid func result o c ≡ (some a, d)
      → Taken o tid func result a
  unfolding take_reply
  take_reply-Taken none c d a h = absurd (grind (arith, ap (λ p. p.0) h))
  take_reply-Taken (some m) c d a h = checked-Taken m (reply_error tid func m) c d a refl h

  transact-Taken :
      (sock : ℤ) (timeout : ℕ) (r : Option (List ℕ)) (c d : Client net) (a : A)
      → transact timing sock timeout tid func result r c ≡ (some a, d)
      → Taken (received sock timeout r c) tid func result a
  unfolding transact
  transact-Taken sock timeout none c d a h = absurd (grind (arith, ap (λ p. p.0) h))
  transact-Taken sock timeout (some r) c d a h =
      let w = send_data_wait_reply sock r timeout c in take_reply-Taken w.0 w.1 d a h

Option-cases : (o : Option ℕ) → (o ≡ none) ⊎ ((i : ℕ) × (o ≡ some i))
Option-cases none = inl refl
Option-cases (some i) = inr (i, refl)

-- The function and the request of a write to the entry `i`, and the client that sends it.
abbrev pub write_function_of : ℕ → ℤ → ℕ
write_function_of i number =
    if is_many number then (entry i).mwrite_function else (entry i).write_function

abbrev pub write_of :
    (f : Floats) (tid unit : ℕ) (address : List ℕ) (number : ℤ) → (ℕ → f.Float) → ℕ → Built
write_of f tid unit address number values i =
    build_write_request f tid unit (write_function_of i number) (entry i).data_type
      (offset_in (entry i) (get_address address)) number values

-- The request for a number of values of the entry `i`.
abbrev pub read_of : (tid unit : ℕ) (address : List ℕ) (number : ℕ) → ℕ → Built
read_of tid unit address number i =
    build_read_request tid unit (entry i).read_function (offset_in (entry i) (get_address address))
      (if ltb 2 (data_size (entry i).data_type) then 2 * number else number)

module _ {net : Net} where
  write_ext-missing :
      (f : Floats) (sock : ℤ) (timeout tid unit : ℕ) (address : List ℕ) (number : ℤ)
      (values : ℕ → f.Float) (c : Client net)
      → get_c_f_index address ≡ none
      → write_ext f sock timeout tid unit address number values c
        ≡ (none, record c { err = internal mb_bad_parameter })
  unfolding write_ext
  write_ext-missing f sock timeout tid unit address number values c h = rw h refl

  write_ext-found :
      (f : Floats) (sock : ℤ) (timeout tid unit : ℕ) (address : List ℕ) (number : ℤ) (i : ℕ)
      (values : ℕ → f.Float) (c : Client net)
      → get_c_f_index address ≡ some i
      → write_ext f sock timeout tid unit address number values c
        ≡ transact false sock timeout tid
            (write_function_of i number)
            write_reply
            (write_of f tid unit address number values i).request
            (report
              (write_of f tid unit address number values i).reported
              (record c { err = no_error })).1
  unfolding write_ext
  write_ext-found f sock timeout tid unit address number i values c h = rw h refl

  abbrev pub writing : Built → Client net → Client net
  writing b c = (report b.reported (record c { err = no_error })).1

  -- Whatever the network does, a reply that _MBWrite_Ext returns is for an entry of the table, and
  -- is made of the message that was received behind the built request. That message has the
  -- transaction number of the request and its writing function: the one for many values where the number is above 1, and else the one for a single value.
  pub write_ext-Answers :
      (f : Floats) (sock : ℤ) (timeout tid unit : ℕ) (address : List ℕ) (number : ℤ)
      (values : ℕ → f.Float) (c d : Client net) (r : WriteReply)
      → write_ext f sock timeout tid unit address number values c ≡ (some r, d)
      → (i : ℕ) × (m : ℕ → ℕ) × (get_c_f_index address ≡ some i)
        × (let b = write_of f tid unit address number values i in
            received sock timeout b.request (writing b c) ≡ some m)
        × (r ≡ write_reply m)
        × Answers tid
            (if is_many number then (entry i).mwrite_function else (entry i).write_function)
            m
  unfolding Taken
  write_ext-Answers f sock timeout tid unit address number values c d r h =
      elim (Option-cases (get_c_f_index address)) [
        | inl e ↦ absurd (
            grind (
              arith,
              ap (λ p. p.0)
                  (sym (write_ext-missing f sock timeout tid unit address number values c e) ∙ h),
            ))
        | inr (i, e) ↦
            (let b = write_of f tid unit address number values i in
              let (m, came, same, answers) =
                transact-Taken false tid (write_function_of i number) write_reply sock timeout
                  b.request (report b.reported (record c { err = no_error })).1 d r
                  (sym (write_ext-found f sock timeout tid unit address number i values c e) ∙ h) in
              (i, m, e, came, same, answers))
      ]

  -- _MBRead_Ext of an address that the table does not hold: no reply, MBBadParameter, and the
  -- network untouched.
  pub read_ext-bad_address :
      (sock : ℤ) (timeout tid unit : ℕ) (address : List ℕ) (number : ℕ) (c : Client net)
      → get_c_f_index address ≡ none
      → read_ext sock timeout tid unit address number c
        ≡ (none, record c { err = internal mb_bad_parameter })
  unfolding read_ext
  read_ext-bad_address sock timeout tid unit address number c h = rw h refl

  read_ext-found :
      (sock : ℤ) (timeout tid unit : ℕ) (address : List ℕ) (number i : ℕ) (c : Client net)
      → get_c_f_index address ≡ some i
      → read_ext sock timeout tid unit address number c
        ≡ read_entry sock timeout tid unit
            (entry i).data_type
            (entry i).read_function
            (offset_in (entry i) (get_address address))
            number
            (if ltb 2 (data_size (entry i).data_type) then 2 * number else number)
            (record c { err = no_error })
  unfolding read_ext
  read_ext-found sock timeout tid unit address number i c h = rw h refl

  read_entry-Taken :
      (sock : ℤ) (timeout tid unit : ℕ) (ty : Iec) (func add number count : ℕ) (c d : Client net)
      (r : Reply)
      → read_entry sock timeout tid unit ty func add number count c ≡ (some r, d)
      → Taken
          (received sock timeout
            (build_read_request tid unit func add count).request
            (report (build_read_request tid unit func add count).reported c).1)
          tid
          func
          (read_reply ty add number net.junk)
          r
  unfolding read_entry
  read_entry-Taken sock timeout tid unit ty func add number count c d r h =
      let b = build_read_request tid unit func add count in
      transact-Taken true tid func (read_reply ty add number net.junk) sock timeout b.request
        (report b.reported c).1 d r h

  -- Whatever the network does, a reply that _MBRead_Ext returns is for an entry of the table, and
  -- is made of the message that was received behind the built request. That message has the
  -- transaction number and the reading function that were asked for; the reply's type, first address and number are those of the request.
  pub read_ext-Answers :
      (sock : ℤ) (timeout tid unit : ℕ) (address : List ℕ) (number : ℕ) (c d : Client net)
      (r : Reply)
      → read_ext sock timeout tid unit address number c ≡ (some r, d)
      → (i : ℕ) × (m : ℕ → ℕ) × (get_c_f_index address ≡ some i)
        × (let b = read_of tid unit address number i in
            received sock timeout b.request (writing b c) ≡ some m)
        × (r
            ≡ read_reply
                (entry i).data_type
                (offset_in (entry i) (get_address address))
                number
                net.junk
                m)
        × Answers tid (entry i).read_function m
  unfolding Taken
  read_ext-Answers sock timeout tid unit address number c d r h =
      elim (Option-cases (get_c_f_index address)) [
        | inl e ↦ absurd (
            grind (
              arith,
              ap (λ p. p.0)
                  (sym (read_ext-bad_address sock timeout tid unit address number c e) ∙ h),
            ))
        | inr (i, e) ↦
            (let (m, came, same, answers) =
                read_entry-Taken sock timeout tid unit (entry i).data_type (entry i).read_function
                  (offset_in (entry i) (get_address address)) number
                  (if ltb 2 (data_size (entry i).data_type) then 2 * number else number)
                  (record c { err = no_error }) d r
                  (sym (read_ext-found sock timeout tid unit address number i c e) ∙ h) in
              (i, m, e, came, same, answers))
      ]
