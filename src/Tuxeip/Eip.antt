-- ===== src/Tuxeip/Eip.antt =====
-- The messages of Ethernet_IP.c. A message that is built is a `Frame`: the fields of its header and the
-- memory behind it. A message that came is the memory of its block. malloc is taken to succeed.
pub mod Items
pub mod RoundTrip
use tux_plc.Base.{
  ℕ, ◌+◌, ◌-◌, ◌*◌, ◌/◌, ◌%◌, Bool, true, false, not, ◌||◌, List, [], ◌∷◌, ◌++◌, ltb, leb, ◌==◌,
  Option, none, some, if◌then◌else◌, held,
}
use tux_plc.Base.Bits.{u16}
use tux_plc.Base.Int.{ℤ, pos, negsuc}
use tux_plc.Base.Memory.{Memory, laid, bytes_from}
use tux_plc.Modbus.Words.{word_at, dword_at, word_row, dword_row}

abbrev pub e_error : ℤ
e_error = negsuc 0

-- The commands.
abbrev pub eip_nop : ℕ
eip_nop = 0x00

abbrev pub eip_listtargets : ℕ
eip_listtargets = 0x01

abbrev pub eip_listservices : ℕ
eip_listservices = 0x04

abbrev pub eip_listidentity : ℕ
eip_listidentity = 0x63

abbrev pub eip_listinterfaces : ℕ
eip_listinterfaces = 0x64

abbrev pub eip_registersession : ℕ
eip_registersession = 0x65

abbrev pub eip_unregistersession : ℕ
eip_unregistersession = 0x66

abbrev pub eip_sendrrdata : ℕ
eip_sendrrdata = 0x6F

abbrev pub eip_sendunitdata : ℕ
eip_sendunitdata = 0x70

abbrev pub eip_indicatestatus : ℕ
eip_indicatestatus = 0x72

abbrev pub eip_cancel : ℕ
eip_cancel = 0x73

abbrev pub max_msg_len : ℕ
max_msg_len = 1024

-- The types of items.
abbrev pub item_null : ℕ
item_null = 0x00

abbrev pub item_connection_based : ℕ
item_connection_based = 0xA1

abbrev pub item_connected_tp : ℕ
item_connected_tp = 0xB1

abbrev pub item_ucm : ℕ
item_ucm = 0xB2

abbrev pub item_ot_socket_info : ℕ
item_ot_socket_info = 0x8000

abbrev pub item_to_socket_info : ℕ
item_to_socket_info = 0x8001

abbrev pub item_sequenced : ℕ
item_sequenced = 0x8002

-- Encap_Header, with the memory behind it.
pub record Frame : Type 0 where
  pub command : ℕ
  pub length : ℕ
  pub session_handle : ℕ
  pub context_l : ℕ
  pub context_h : ℕ
  pub block : Memory

-- Eip_Item, with the memory behind its two fields.
pub record Item : Type 0 where
  pub type_id : ℕ
  pub length : ℕ
  pub rest : Memory

-- Eip_Session; the numbers of the context are kept as their 32 bits.
pub record Session : Type 0 where
  pub sock : ℤ
  pub handle : ℕ
  pub context_l : ℕ
  pub context_h : ℕ
  pub timeout : ℕ

-- The header in memory; Status and Option are 0.
abbrev pub header_row : Frame → List ℕ
header_row f =
    word_row f.command
    ++ (word_row f.length
        ++ (dword_row f.session_handle
            ++ ((0 ∷ 0 ∷ 0 ∷ 0 ∷ [])
                ++ (dword_row f.context_l ++ (dword_row f.context_h ++ (0 ∷ 0 ∷ 0 ∷ 0 ∷ []))))))

abbrev pub frame_memory : Frame → Memory
frame_memory f i = if ltb i 24 then held (header_row f) i else f.block (i - 24)

abbrev pub frame_bytes : Frame → List ℕ
frame_bytes f = bytes_from (frame_memory f) 0 (24 + f.length)

abbrev pub item_memory : Item → Memory
item_memory t i =
    if ltb i 4 then held (word_row t.type_id ++ word_row t.length) i else t.rest (i - 4)

-- IsEIP.
abbrev pub is_eip : Memory → Bool
is_eip m =
    let command = word_at m 0 in
    command == eip_nop
    || command == eip_listtargets
    || command == eip_listservices
    || command == eip_listidentity
    || command == eip_listinterfaces
    || command == eip_registersession
    || command == eip_unregistersession
    || command == eip_sendrrdata
    || command == eip_sendunitdata
    || command == eip_indicatestatus
    || command == eip_cancel

abbrev is_above : ℤ → ℕ → Bool
is_above (pos n) count = ltb count n
is_above (negsuc n) count = false

-- The offset that _GetEipCPF returns.
unfoldable pub get_eip_cpf : Memory → Option ℕ
get_eip_cpf m =
    let command = word_at m 0 in
    if ltb (word_at m 2) 2
    then none
    else if command == eip_listservices
        || command == eip_listidentity
        || command == eip_listinterfaces
    then some 24
    else if command == eip_sendrrdata || command == eip_sendunitdata
    then some 30
    else none

-- _GetItem: the loop's test is the old value of its counter, 0, so that each index gives the first item.
unfoldable pub get_item : Memory → Option ℕ → ℤ → Option ℕ
get_item m none id = none
get_item m (some cp) id = if is_above id (word_at m cp) then none else some (cp + 2)

-- _GetAdressItem.
unfoldable pub get_adress_item : Memory → Option ℕ
get_adress_item m = elim (get_eip_cpf m) [ none ↦ none | some cp ↦ some (cp + 2) ]

-- _GetDataItem.
unfoldable pub get_data_item : Memory → Option ℕ
get_data_item m = elim (get_adress_item m) [
  | none ↦ none
  | some a ↦ some (a + 4 + word_at m (a + 2))
]

-- _GetItemSize.
unfoldable pub get_item_size : ℕ → ℕ
get_item_size t =
    if t == item_null
    then 4
    else if t == item_connection_based
    then 8
    else if t == item_connected_tp
    then 6
    else if t == item_ucm
    then 4
    else if t == item_ot_socket_info || t == item_to_socket_info
    then 28
    else if t == item_sequenced
    then 12
    else 0

-- The test of _AddHeader: the room is of an unsigned type, and wraps where the message is longer.
abbrev pub fits : ℕ → ℕ → Bool
fits length size = ltb max_msg_len (length + 24) || leb (length + 24 + size) max_msg_len

-- _AddHeader.
unfoldable pub add_header : Frame → Memory → ℕ → Frame
add_header f buffer size =
    if fits f.length size
    then record f { length = u16 (f.length + size); block = laid f.block f.length size buffer }
    else f

-- _AddItem, of a known type.
unfoldable pub add_known : Frame → Item → Option Memory → ℕ → Frame
add_known f t none size =
    add_header f (item_memory (record t { length = u16 (t.length + (size - 4)) })) (size + t.length)
add_known f t (some d) size =
    let t' = record t { length = u16 (t.length + (size - 4)) } in
    let g = add_header f (item_memory t') size in
    if ltb 0 t'.length then add_header g d t.length else g

-- _AddItem; an item of an unknown type is left out.
unfoldable pub add_item : Frame → Item → Option Memory → Frame
add_item f t d = let size = get_item_size t.type_id in if size == 0 then f else add_known f t d size

-- _AddINT2Header.
unfoldable pub add_int : Frame → ℕ → Frame
add_int f v = add_header f (held (word_row v)) 2

-- _AddCPF.
unfoldable pub add_cpf : Frame → Item → Option Memory → Item → Option Memory → Frame
add_cpf f a adress t d = add_item (add_item (add_int f 2) a adress) t d

-- The size that _BuildRequest allocates.
abbrev pub request_size : Item → Item → ℕ
request_size a t = 30 + 2 + get_item_size a.type_id + a.length + get_item_size t.type_id + t.length

-- _BuildRequest: the interface handle is 0, and the timeout is in seconds.
unfoldable pub build_request : Session → Item → Option Memory → Item → Option Memory → ℕ → Frame
build_request s a adress t d timeout =
    add_cpf
      (record {
        command = 0;
        length = 6;
        session_handle = s.handle;
        context_l = s.context_l;
        context_h = s.context_h;
        block = held (0 ∷ 0 ∷ 0 ∷ 0 ∷ word_row (timeout / 1000));
      })
      a adress t d
