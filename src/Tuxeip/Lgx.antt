-- ===== src/Tuxeip/Lgx.antt =====
-- The tags of Logix controllers, LGX.c. A reply is the memory of a data item, and a service's reply an
-- offset in it.
pub mod Counts
use tux_plc.Base.{
  ℕ, ◌+◌, ◌-◌, ◌*◌, ◌/◌, ◌%◌, Bool, not, ◌||◌, List, [], ◌∷◌, ◌++◌, length, ltb, leb, ◌==◌, Option,
  none, some, if◌then◌else◌, held,
}
use tux_plc.Base.Int.{ℤ, pos, negsuc}
use tux_plc.Base.Memory.{Memory, bytes_from}
use tux_plc.Modbus.Words.{word_at, word_row}
use tux_plc.Tuxeip.Pccc.{minus}
use tux_plc.Tuxeip.Eip.{e_error, item_ucm, item_connected_tp}
use tux_plc.Tuxeip.Ioi.{Row, Ioi, built, unpaired, out_of_fuel, build_ioi}
use tux_plc.Tuxeip.Link.{
  Net, CipAct, ◌>>=◌, ◌>>◌, pure, ciperror, internal, CipErrorType, ab_error, e_item_unknow,
  e_out_of_range, e_unsupported_service, e_unsupported_data_type, e_lgx, internal_error,
}
use tux_plc.Tuxeip.Router.{int_of_word}
use tux_plc.Tuxeip.Session.{Connection, connected_send}

abbrev pub cip_data_read : ℕ
cip_data_read = 0x4C

abbrev pub cip_data_write : ℕ
cip_data_write = 0x4D

abbrev pub cip_multi_request : ℕ
cip_multi_request = 0x0A

abbrev pub execute_pccc : ℕ
execute_pccc = 0x4b

-- The request of a path, if the address makes one.
abbrev with_path : Ioi → (Row → List ℕ) → Option (List ℕ)
with_path (built r) k = some (k r)
with_path unpaired k = none
with_path out_of_fuel k = none

-- _BuildLgxReadDataRequest.
unfoldable pub build_lgx_read_data_request : List ℕ → ℕ → Option (List ℕ)
build_lgx_read_data_request adress number =
    with_path (build_ioi adress) (λ r. cip_data_read ∷ r.count / 2 ∷ (r.row ++ word_row number))

-- _BuildLgxWriteDataRequest.
unfoldable pub build_lgx_write_data_request : List ℕ → ℕ → List ℕ → ℕ → Option (List ℕ)
build_lgx_write_data_request adress datatype values number = with_path (build_ioi adress) (λ r.
    cip_data_write ∷ r.count / 2 ∷ (r.row ++ (word_row datatype ++ (word_row number ++ values))))

-- _GetLGXDataSize, without its CIPERROR.
unfoldable pub get_lgx_data_size : ℤ → ℤ
get_lgx_data_size (negsuc n) = e_error
get_lgx_data_size (pos t) =
    if t == 0xC1 || t == 0xC2
    then pos 1
    else if t == 0xC3
    then pos 2
    else if t == 0xD3 || t == 0xC4 || t == 0xCA
    then pos 4
    else e_error

-- _GetExtendedStatus.
unfoldable pub get_extended_status : Memory → ℕ → ℤ
get_extended_status m off =
    if not (word_at m (off + 2) == 0x01FF) then pos 0 else int_of_word (word_at m (off + 4))

-- LGX_Read, with the data behind it.
pub record LgxRead : Type 0 where
  pub type : ℤ
  pub varcount : ℕ
  pub totalsize : ℕ
  pub elementsize : ℕ
  pub content : List ℕ

abbrev pub service_offset : ℕ → Option ℕ
service_offset t = if t == item_ucm then some 4 else if t == item_connected_tp then some 6 else none

abbrev is_single : ℕ → Bool
is_single service =
    service == cip_data_read + 0x80
    || service == cip_data_write + 0x80
    || service == execute_pccc + 0x80

-- The bytes of a number of values.
abbrev values_of : ℤ → Memory → ℕ → Option (List ℕ)
values_of (negsuc n) values number = none
values_of (pos size) values number = some (bytes_from values 0 (number * size))

module _ {net : Net} where
  abbrev pub ab_status : Memory → ℕ → CipAct net Unit
  ab_status m off = ciperror (record {
    kind = ab_error;
    no = pos (word_at m (off + 2));
    ext_no = get_extended_status m off;
  })

  -- _GetService_ReplyNumber, behind the switch on the item.
  unfoldable pub reply_number_at : Memory → ℕ → CipAct net ℤ
  reply_number_at m off =
      if m off == cip_multi_request + 0x80
      then pure (pos (word_at m (off + 6)))
      else if is_single (m off)
      then pure (pos 1)
      else (do ciperror (internal e_unsupported_service); pure (pos 0))

  unfoldable pub get_service_reply_number : Memory → CipAct net ℤ
  get_service_reply_number m = elim (service_offset (word_at m 0)) [
    | none ↦ do ciperror (internal e_item_unknow); pure (pos 0)
    | some off ↦ reply_number_at m off
  ]

  -- _GetService_Reply, behind the switch on the item. In a reply to several requests, the offset that is
  -- taken is the one behind the last, whatever the index.
  unfoldable pub service_reply_at : Memory → ℕ → ℕ → CipAct net (Option ℕ)
  service_reply_at m index off =
      if m off == cip_multi_request + 0x80
      then if ltb (word_at m (off + 6)) (index + 1)
        then (do ciperror (internal e_out_of_range); pure none)
        else pure (some (off + 6 + word_at m (off + 8 + 2 * word_at m (off + 6))))
      else if is_single (m off)
      then if ltb 0 index
        then (do ciperror (internal e_out_of_range); pure none)
        else pure (some off)
      else (do ciperror (internal e_unsupported_service); pure none)

  unfoldable pub get_service_reply : Memory → ℕ → CipAct net (Option ℕ)
  get_service_reply m index = elim (service_offset (word_at m 0)) [
    | none ↦ do ciperror (internal e_item_unknow); pure none
    | some off ↦ service_reply_at m index off
  ]

  -- _GetLGXDataType.
  unfoldable pub get_lgx_data_type : Memory → ℕ → CipAct net ℤ
  get_lgx_data_type m off =
      if not (word_at m (off + 2) == 0)
      then (do ab_status m off; pure (pos 0))
      else if m off == cip_data_read + 0x80
      then pure (int_of_word (word_at m (off + 4)))
      else (do ciperror (internal e_unsupported_data_type); pure (pos 0))

  abbrev pub sized_data : ℕ → ℤ → CipAct net (Option ℕ)
  sized_data off (negsuc n) = do ciperror (internal e_unsupported_data_type); pure none
  sized_data off (pos n) = pure (some (off + 6))

  -- _GetData: the types that it takes are those that have a size.
  unfoldable pub get_data : Memory → ℕ → CipAct net (Option ℕ)
  get_data m off = if not (word_at m (off + 2) == 0) then (do ab_status m off; pure none) else (do
    ciperror (internal (pos 0))
    t ← get_lgx_data_type m off
    sized_data off (get_lgx_data_size t))

  -- The failures of _DecodeLGX, with the line that CIPERROR is given.
  abbrev pub lgx_failure : ℕ → CipAct net (Option LgxRead)
  lgx_failure line = do
    ciperror (record { kind = internal_error; no = e_lgx; ext_no = pos line })
    pure none

  -- The end of _DecodeLGX, with the sizes of an element and of the data.
  unfoldable pub sized_read : Memory → ℕ → ℤ → ℕ → ℤ → CipAct net (Option LgxRead)
  sized_read m data_off t size (negsuc n) = lgx_failure 204
  sized_read m data_off t size (pos total) =
      if total / size == 0
      then lgx_failure 204
      else pure (
          some (record {
            type = t;
            varcount = total / size;
            totalsize = total;
            elementsize = size;
            content = bytes_from m data_off total;
          }))

  unfoldable pub typed_read : Memory → ℕ → ℤ → ℤ → Option ℕ → ℤ → CipAct net (Option LgxRead)
  typed_read m off t (negsuc n) o size = lgx_failure 196
  typed_read m off t (pos e) none size = lgx_failure 196
  typed_read m off t (pos e) (some data_off) size =
      if e == 0 then lgx_failure 196 else sized_read m data_off t e (minus size (data_off - off))

  -- _DecodeLGX.
  unfoldable pub decode_lgx : Memory → ℕ → ℤ → CipAct net (Option LgxRead)
  decode_lgx m off size = do
    t ← get_lgx_data_type m off
    o ← get_data m off
    typed_read m off t (get_lgx_data_size t) o size

  abbrev pub service_reply : Memory → Option ℕ → CipAct net (Option LgxRead)
  service_reply m none = pure none
  service_reply m (some off) =
      if not (word_at m (off + 2) == 0)
      then (do ab_status m off; pure none)
      else decode_lgx m off (minus (pos (word_at m 2)) 2)

  abbrev pub lgx_reply : Option Memory → CipAct net (Option LgxRead)
  lgx_reply none = pure none
  lgx_reply (some m) = do o ← get_service_reply m 0; service_reply m o

  unfoldable pub read_lgx_request : Connection → List ℕ → CipAct net (Option LgxRead × Connection)
  read_lgx_request k request = do
    (o, k') ← connected_send k (held request) (length request)
    r ← lgx_reply o
    pure (r, k')

  -- _ReadLgxData, for an address whose brackets pair, with the connection behind it.
  unfoldable pub read_lgx_data :
      Connection → List ℕ → ℕ → Option (CipAct net (Option LgxRead × Connection))
  read_lgx_data k adress number = elim (build_lgx_read_data_request adress number) [
    | none ↦ none
    | some request ↦ some (read_lgx_request k request)
  ]

  abbrev pub written_service : Memory → Option ℕ → CipAct net ℤ
  written_service m none = pure e_error
  written_service m (some off) =
      if not (word_at m (off + 2) == 0)
      then (do ab_status m off; pure e_error)
      else get_service_reply_number m

  abbrev pub written_reply : Option Memory → CipAct net ℤ
  written_reply none = pure e_error
  written_reply (some m) = do o ← get_service_reply m 0; written_service m o

  unfoldable pub write_lgx_request : Connection → List ℕ → CipAct net (ℤ × Connection)
  write_lgx_request k request = do
    (o, k') ← connected_send k (held request) (length request)
    r ← written_reply o
    pure (r, k')

  -- _WriteLgxData, for an address whose brackets pair and a type that has a size.
  unfoldable pub write_lgx_data :
      Connection → List ℕ → ℕ → Memory → ℕ → Option (CipAct net (ℤ × Connection))
  write_lgx_data k adress datatype values number =
      elim (values_of (get_lgx_data_size (pos datatype)) values number) [
        | none ↦ none
        | some row ↦ elim (build_lgx_write_data_request adress datatype row number) [
          | none ↦ none
          | some request ↦ some (write_lgx_request k request)
        ]
      ]
