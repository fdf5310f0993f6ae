-- ===== src/Tuxeip/Eip/RoundTrip.antt =====
-- A request is read back by the functions that take a reply apart.
use tux_plc.Base.{
  ℕ, ◌+◌, ◌-◌, ◌/◌, ◌≤◌, ◌<◌, ◌≡◌, refl, ap, ◌∙◌, true, false, ◌||◌, ◌∷◌, ltb, ◌==◌, none, some,
  held, arith,
}
use tux_plc.Base.Memory.{Memory, laid, laid_inside}
use tux_plc.Modbus.Words.{word_row, word_at}
use tux_plc.Tuxeip.Eip.{
  Frame, Item, Session, frame_memory, get_data_item, get_adress_item, get_eip_cpf, add_item,
  add_int, add_cpf, build_request, item_memory, get_item_size, request_size, eip_sendrrdata,
  eip_sendunitdata,
}
use tux_plc.Tuxeip.Eip.Items.{
  add_header-fits, with_item, add_item-some, add_item-none, with_item_before, with_item_header,
  with_item_data,
}

cpf-data :
    (m : Memory)
    → 2 ≤ word_at m 2
    → (word_at m 0 == eip_sendrrdata || word_at m 0 == eip_sendunitdata) ≡ true
    → get_eip_cpf m ≡ some 30
unfolding get_eip_cpf
cpf-data m long command = ground arith

-- The memory of a request that is sent with a command.
abbrev pub sent : Session → Item → Item → Memory → ℕ → ℕ → Memory
sent s a t d timeout c =
    frame_memory (record (build_request s a none t (some d) timeout) { command = c })

module _ (s : Session) (a t : Item) (d : Memory) (timeout : ℕ)
    (known_a : 4 ≤ get_item_size a.type_id) (known_t : 4 ≤ get_item_size t.type_id)
    (empty : a.length ≡ 0) (room : request_size a t ≤ 1024) where
  abbrev first_block : Memory
  first_block = laid (held (0 ∷ 0 ∷ 0 ∷ 0 ∷ word_row (timeout / 1000))) 6 2 (held (word_row 2))

  -- The block behind the header of the request.
  abbrev block : Memory
  block =
      with_item
        (laid first_block 8 (get_item_size a.type_id)
          (item_memory (record a { length = get_item_size a.type_id - 4 })))
        (8 + get_item_size a.type_id) t d (get_item_size t.type_id)

  pub build_request-block : build_request s a none t (some d) timeout ≡ record {
    command = 0;
    length = 8 + get_item_size a.type_id + get_item_size t.type_id + t.length;
    session_handle = s.handle;
    context_l = s.context_l;
    context_h = s.context_h;
    block = block;
  }
  unfolding build_request add_cpf add_item add_int
  build_request-block =
      let start : Frame = record {
        command = 0;
        length = 6;
        session_handle = s.handle;
        context_l = s.context_l;
        context_h = s.context_h;
        block = held (0 ∷ 0 ∷ 0 ∷ 0 ∷ word_row (timeout / 1000));
      } in
      let counted : Frame = record start { length = 6 + 2; block = first_block } in
      rw
        (
          add_header-fits start (held (word_row 2)) 2 (omega arith),
          add_item-none counted a known_a (omega arith) empty,
        )
        (add_item-some _ t known_t (omega arith) d)

  abbrev request : ℕ → Memory
  request = sent s a t d timeout

  request_behind : (c j i : ℕ) → j ≡ 24 + i → request c j ≡ block i
  request_behind c j i e =
      let behind : ltb j 24 ≡ false = ground arith in
      let offset : j - 24 ≡ i = omega arith in rw (build_request-block, behind, offset) refl

  request-command : (c : ℕ) → c < 65536 → word_at (request c) 0 ≡ c
  request-command c h = omega arith

  request-length :
      (c : ℕ)
      → word_at (request c) 2 ≡ 8 + get_item_size a.type_id + get_item_size t.type_id + t.length
  request-length c = rw build_request-block (omega arith)

  request-adress :
      (c i : ℕ)
      → i < get_item_size a.type_id
      → request c (32 + i) ≡ item_memory (record a { length = get_item_size a.type_id - 4 }) i
  request-adress c i h =
      request_behind c (32 + i) (8 + i) (omega arith)
      ∙ with_item_before _ (8 + get_item_size a.type_id) t d (get_item_size t.type_id) (8 + i)
          (omega arith)
      ∙ laid_inside first_block 8 (get_item_size a.type_id) _ i h

  request-item :
      (c j i : ℕ)
      → j ≡ 32 + get_item_size a.type_id + i
      → i < get_item_size t.type_id
      → request c j ≡ item_memory (record t { length = t.length + (get_item_size t.type_id - 4) }) i
  request-item c j i e h =
      request_behind c j (8 + get_item_size a.type_id + i) (omega arith)
      ∙ with_item_header _ (8 + get_item_size a.type_id) t d (get_item_size t.type_id) i h

  request-data :
      (c i : ℕ)
      → i < t.length
      → request c (32 + get_item_size a.type_id + get_item_size t.type_id + i) ≡ d i
  request-data c i h =
      request_behind c (32 + get_item_size a.type_id + get_item_size t.type_id + i)
        (8 + get_item_size a.type_id + get_item_size t.type_id + i) (omega arith)
      ∙ with_item_data _ (8 + get_item_size a.type_id) t d (get_item_size t.type_id) i h

  request-adress_length : (c : ℕ) → word_at (request c) 34 ≡ get_item_size a.type_id - 4
  request-adress_length c =
      rw (request-adress c 2 (omega arith), request-adress c 3 (omega arith)) (omega arith)

  request-cpf :
      (c : ℕ)
      → (c == eip_sendrrdata || c == eip_sendunitdata) ≡ true
      → get_eip_cpf (request c) ≡ some 30
  request-cpf c command =
      cpf-data (request c) (omega (arith, request-length c))
        (rw (request-command c (ground arith)) command)

  request-data_item :
      (c : ℕ)
      → (c == eip_sendrrdata || c == eip_sendunitdata) ≡ true
      → get_data_item (request c) ≡ some (32 + get_item_size a.type_id)
  unfolding get_data_item get_adress_item
  request-data_item c command =
      rw (request-cpf c command, get_data_item, get_adress_item, request-adress_length c)
        (ap some (omega arith))

  -- A request of _BuildRequest with an address item that has no data, and a data item with data, both of
  -- known types and together within MAX_MSG_LEN, that is sent with one of the two commands for data: on its
  -- memory, _GetDataItem finds the data item, with its type, its length in full, and the data.
  pub build_request-get_data_item :
      (c : ℕ)
      → t.type_id < 65536
      → (c == eip_sendrrdata || c == eip_sendunitdata) ≡ true
      → (get_data_item (sent s a t d timeout c) ≡ some (32 + get_item_size a.type_id))
        × (word_at (sent s a t d timeout c) (32 + get_item_size a.type_id) ≡ t.type_id)
        × (word_at (sent s a t d timeout c) (32 + get_item_size a.type_id + 2)
            ≡ t.length + (get_item_size t.type_id - 4))
        × ((i : ℕ)
            → i < t.length
            → sent s a t d timeout c (32 + get_item_size a.type_id + get_item_size t.type_id + i)
              ≡ d i)
  build_request-get_data_item c small command = (
    request-data_item c command,
    rw
        (
          request-item c (32 + get_item_size a.type_id) 0 (omega arith) (omega arith),
          request-item c (32 + get_item_size a.type_id + 1) 1 (omega arith) (omega arith),
        )
        (omega arith),
    rw
        (
          request-item c (32 + get_item_size a.type_id + 2) 2 (omega arith) (omega arith),
          request-item c (32 + get_item_size a.type_id + 2 + 1) 3 (omega arith) (omega arith),
        )
        (omega arith),
    request-data c,
  )

  -- Such a request fills the block that _BuildRequest allocates for it, and no more.
  pub build_request-fills :
      24 + (build_request s a none t (some d) timeout).length ≡ request_size a t
  build_request-fills = rw build_request-block (omega arith)
