-- ===== src/Tuxeip/Examples/Sessions.antt =====
-- The theorems on items, sessions and connections at concrete messages.
use tux_plc.Base.{
  ℕ, ◌+◌, ◌≡◌, ◌≢◌, ◌<◌, refl, List, [], ◌∷◌, ◌++◌, arith, some, ◌==◌, if◌then◌else◌, length, take,
  drop, held,
}
use tux_plc.Base.Int.{pos}
use tux_plc.Base.Memory.{Memory}
use tux_plc.Modbus.Words.{word_at, dword_at}
use tux_plc.Tuxeip.Eip.{
  Frame, Session, Item, frame_memory, get_data_item, get_adress_item, get_eip_cpf, get_item_size,
  item_connection_based, item_connected_tp, eip_sendunitdata, eip_registersession,
}
use tux_plc.Tuxeip.Eip.RoundTrip.{sent, build_request-get_data_item}
use tux_plc.Tuxeip.Link.{
  Net, CipClient, internal, expired, readable, stored, cip_recv_data, cip_recv_body, cip_send_data,
  cip_empty_buffer, cip_send_data_wait_reply,
}
use tux_plc.Tuxeip.Link.Stream.{cip_recv_data-frame}
use tux_plc.Tuxeip.Session.{
  Connection, register_session, connected_send, connected_reply, connected_item,
  eip_send_data_wait_reply, item_at,
}
use tux_plc.Tuxeip.Session.Register.{requested, register_session-handle}
use tux_plc.Tuxeip.Session.Connected.{received, Answers, connected_send-Answers}

-- A peer that answers each request with one message.
abbrev pub peer : List ℕ → Net
peer message = record {
  State = Unit;
  select = λ time s. (if time == 0 then expired else readable, s);
  send = λ row s. (pos (length row), s);
  recv = λ n s. (some (if n == 24 then take 24 message else drop 24 message), s);
  errno = λ s. 0;
  junk = λ i. 0;
}

abbrev pub calm : (message : List ℕ) → CipClient (peer message)
calm message = record { link = tt; err = internal (pos 0) }

abbrev pub session : Session
session = record { sock = pos 3; handle = 9; context_l = 0; context_h = 0; timeout = 1000 }

-- The header of a message of a command and a length.
abbrev pub header : ℕ → ℕ → List ℕ
header command size =
    command ∷ 0 ∷ size ∷ 0 ∷ 9 ∷ 0 ∷ 0 ∷ 0 ∷ 0 ∷ 0 ∷ 0 ∷ 0 ∷ 0 ∷ 0 ∷ 0 ∷ 0 ∷ 0 ∷ 0 ∷ 0 ∷ 0 ∷ 0 ∷ 0
    ∷ 0 ∷ 0 ∷ []

abbrev adress : Item
adress = record { type_id = item_connection_based; length = 0; rest = held (1 ∷ 2 ∷ 3 ∷ 4 ∷ []) }

abbrev three_bytes : Item
three_bytes = record { type_id = item_connected_tp; length = 3; rest = held (5 ∷ 0 ∷ []) }

abbrev message : Memory
message = sent session adress three_bytes (held (7 ∷ 8 ∷ 9 ∷ [])) 1000 eip_sendunitdata

build_request-get_data_item_example :
    (get_data_item message ≡ some 40)
    × (word_at message 40 ≡ item_connected_tp)
    × (word_at message 42 ≡ 5)
    × ((i : ℕ) → i < 3 → message (46 + i) ≡ held (7 ∷ 8 ∷ 9 ∷ []) i)
unfolding get_item_size
build_request-get_data_item_example =
    build_request-get_data_item session adress three_bytes (held (7 ∷ 8 ∷ 9 ∷ [])) 1000
      (omega arith) (omega arith) refl (omega arith) eip_sendunitdata (omega arith) refl

abbrev small_frame : Frame
small_frame = record {
  command = 0x6F;
  length = 3;
  session_handle = 9;
  context_l = 0;
  context_h = 0;
  block = held (7 ∷ 8 ∷ 9 ∷ []);
}

abbrev small_message : List ℕ
small_message = header 0x6F 3 ++ (7 ∷ 8 ∷ 9 ∷ [])

cip_recv_data-frame_example :
    (m : Memory) × (cip_recv_data 1000 (calm small_message) ≡ (some m, calm small_message))
    × ((i : ℕ) → i < 24 + 3 → m i ≡ frame_memory small_frame i)
cip_recv_data-frame_example =
    cip_recv_data-frame 1000 small_frame (calm small_message) tt tt tt (omega arith) (omega arith)
      refl refl refl

abbrev register_message : List ℕ
register_message = header 0x65 4 ++ (1 ∷ 0 ∷ 0 ∷ 0 ∷ [])

register_session-handle_example :
    ((register_session session (calm register_message)).0.0 ≢ pos 0
      → (register_session session (calm register_message)).0.1.handle ≡ 0)
    × ((register_session session (calm register_message)).0.0 ≡ pos 0
        → (m : Memory) × ((cip_recv_data session.timeout
              (requested session (calm register_message))).0
            ≡ some m)
          × (word_at m 0 ≡ eip_registersession)
          × (dword_at m 8 ≡ 0)
          × ((register_session session (calm register_message)).0.1.handle ≡ dword_at m 4))
register_session-handle_example = register_session-handle session (calm register_message)

abbrev connection : Connection
connection = record {
  session = session;
  serial_number = 1;
  vendor_id = 2;
  originator_serial = 3;
  ot_conn_id = 4;
  to_conn_id = 5;
  packet = 65535;
  path_size = 0;
  path = held [];
}

-- A reply with the packet number 0 and two bytes.
abbrev connected_message : List ℕ
connected_message =
    header 0x70 22
    ++ (0 ∷ 0 ∷ 0 ∷ 0 ∷ 0 ∷ 0 ∷ 2 ∷ 0 ∷ 0xA1 ∷ 0 ∷ 4 ∷ 0 ∷ 5 ∷ 0 ∷ 0 ∷ 0 ∷ 0xB1 ∷ 0 ∷ 4 ∷ 0 ∷ 0 ∷ 0
        ∷ 0xCC ∷ 0 ∷ [])

abbrev connected_memory : Memory
connected_memory =
    stored 24 (drop 24 connected_message) (stored 0 (take 24 connected_message) (λ i. 0))

connected_send-Answers_example :
    Answers
      (peer connected_message)
      0
      (received connection (held (1 ∷ [])) 1 (calm connected_message))
      (item_at (λ i. 0) connected_memory 40)
    × ((connected_send connection (held (1 ∷ [])) 1 (calm connected_message)).0.1.packet ≡ 0)
unfolding connected_send connected_reply connected_item eip_send_data_wait_reply
    cip_send_data_wait_reply cip_send_data cip_empty_buffer cip_recv_data cip_recv_body
    get_data_item get_adress_item get_eip_cpf
connected_send-Answers_example =
    connected_send-Answers connection (held (1 ∷ [])) 1 (calm connected_message)
      (item_at (λ i. 0) connected_memory 40) refl
