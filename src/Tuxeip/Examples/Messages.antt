-- ===== src/Tuxeip/Examples/Messages.antt =====
-- The theorems on messages of the router, paths and tags at concrete ones.
use tux_plc.Base.{
  ℕ, ◌+◌, ◌%◌, ◌≡◌, ◌<◌, ◌⊎◌, refl, List, [], ◌∷◌, ◌++◌, arith, some, length, take, drop, held,
  get_or, false,
}
use tux_plc.Base.Int.{pos}
use tux_plc.Base.Memory.{Memory, laid}
use tux_plc.Tuxeip.Eip.{eip_sendrrdata, get_data_item, get_adress_item, get_eip_cpf}
use tux_plc.Tuxeip.Eip.RoundTrip.{sent}
use tux_plc.Tuxeip.Examples.{values, two_floats}
use tux_plc.Tuxeip.Examples.Sessions.{peer, calm, session, header}
use tux_plc.Tuxeip.Ioi.{Row, built, unpaired, build_ioi}
use tux_plc.Tuxeip.Ioi.Even.{build_ioi-IsPadded}
use tux_plc.Tuxeip.Lgx.{LgxRead}
use tux_plc.Tuxeip.Link.{
  mr_error, stored, cip_recv_data, cip_recv_body, cip_send_data, cip_empty_buffer,
  cip_send_data_wait_reply,
}
use tux_plc.Tuxeip.Manager.{send_over, unconnected_request, unconnected_send, unconnected_reply}
use tux_plc.Tuxeip.Manager.Unconnected.{
  message_of, route_of, Answers, unconnected_request-read, unconnected_send-Answers,
}
use tux_plc.Tuxeip.Pccc.{
  decode_pccc, decode_plc_data_type, described, two_fields, field, long_field, element_fields,
  with_size, with_count,
}
use tux_plc.Tuxeip.Requests.{
  PcccReply, LogicalBinaryAddress, read_plc_data, decoded_read, send_unconnected_pccc_request,
  build_plc_read_data_request, unconnected_pccc, requestor_reply, sized_pccc, pccc_request,
}
use tux_plc.Tuxeip.Requests.Replies.{sent_for, Carries, read_plc_data-Carries}
use tux_plc.Tuxeip.Router.{
  MrReply, build_mr_request, routed_reply, copied_reply, get_mr_reply, get_mr_reply_size,
  get_mr_extended_status, ex_send_mr_request,
}
use tux_plc.Tuxeip.Router.Replies.{null_item, ucm_item, routed_reply-sent}
use tux_plc.Tuxeip.Session.{send_rr_data, eip_send_data_wait_reply}

-- A message of the router that answers the service 0x4C with the status 0.
abbrev four_bytes : List ℕ
four_bytes = 0xCC ∷ 0 ∷ 0 ∷ 0 ∷ []

routed_reply-sent_example :
    (r : MrReply) × (routed_reply
        (some (sent session null_item (ucm_item four_bytes) (held four_bytes) 1000 eip_sendrrdata))
        (calm [])
      ≡ (
        some r,
        record (calm []) {
          err = record {
            kind = mr_error;
            no = pos (r.memory 2);
            ext_no = get_mr_extended_status r.memory;
          };
        },
      ))
    × (r.size ≡ 4)
    × ((i : ℕ) → i < 4 → r.memory i ≡ get_or four_bytes i 0)
routed_reply-sent_example = routed_reply-sent session four_bytes 1000 (calm []) (omega arith)

unconnected_request-read_example :
    (message_of (unconnected_request 10 5 (0x4C ∷ 0 ∷ 1 ∷ []) (1 ∷ 0 ∷ [])) ≡ 0x4C ∷ 0 ∷ 1 ∷ [])
    × (route_of (unconnected_request 10 5 (0x4C ∷ 0 ∷ 1 ∷ []) (1 ∷ 0 ∷ [])) ≡ 1 ∷ 0 ∷ [])
unconnected_request-read_example =
    unconnected_request-read 10 5 (0x4C ∷ 0 ∷ 1 ∷ []) (1 ∷ 0 ∷ []) 1 (omega arith) refl
      (omega arith)

abbrev unconnected_message : List ℕ
unconnected_message =
    header 0x6F 20
    ++ (0 ∷ 0 ∷ 0 ∷ 0 ∷ 0 ∷ 0 ∷ 2 ∷ 0 ∷ 0 ∷ 0 ∷ 0 ∷ 0 ∷ 0xB2 ∷ 0 ∷ 4 ∷ 0 ∷ four_bytes)

abbrev unconnected_memory : Memory
unconnected_memory =
    stored 24 (drop 24 unconnected_message) (stored 0 (take 24 unconnected_message) (λ i. 0))

abbrev unconnected_result : MrReply
unconnected_result = record {
  memory = laid (λ i. 0) 0 4 (λ i. unconnected_memory (40 + i));
  size = 4;
}

unconnected_send-Answers_example :
    Answers false 0x4C
      (unconnected_send session 10 5 (0x4C ∷ 0 ∷ []) [] (calm unconnected_message)).1
      unconnected_result
unfolding unconnected_send send_over unconnected_reply ex_send_mr_request send_rr_data
    eip_send_data_wait_reply cip_send_data_wait_reply cip_send_data cip_empty_buffer cip_recv_data
    cip_recv_body routed_reply copied_reply get_mr_reply get_mr_reply_size get_data_item
    get_adress_item get_eip_cpf laid
unconnected_send-Answers_example =
    unconnected_send-Answers session 10 5 0x4C (0 ∷ []) [] (calm unconnected_message)
      unconnected_result refl

-- Tank[3].Level
abbrev level : List ℕ
level =
    b'T' ∷ b'a' ∷ b'n' ∷ b'k' ∷ b'[' ∷ b'3' ∷ b']' ∷ b'.' ∷ b'L' ∷ b'e' ∷ b'v' ∷ b'e' ∷ b'l' ∷ []

build_ioi-IsPadded_example :
    (build_ioi level ≡ unpaired)
    ⊎ ((r : Row) × (build_ioi level ≡ built r) × (length r.row ≡ r.count) × (r.count % 2 ≡ 0))
build_ioi-IsPadded_example = build_ioi-IsPadded level

abbrev lgx_memory : Memory
lgx_memory = held (0xCC ∷ 0 ∷ 0 ∷ 0 ∷ 0xC3 ∷ 0 ∷ 1 ∷ 2 ∷ 3 ∷ 4 ∷ [])

abbrev two_integers : LgxRead
two_integers = record {
  type = pos 0xC3;
  varcount = 2;
  totalsize = 4;
  elementsize = 2;
  content = 1 ∷ 2 ∷ 3 ∷ 4 ∷ [];
}

-- A reply with two floats, in a message that answers Execute_PCCC.
abbrev pccc_message : List ℕ
pccc_message =
    header 0x6F 44
    ++ (0 ∷ 0 ∷ 0 ∷ 0 ∷ 0 ∷ 0 ∷ 2 ∷ 0 ∷ 0 ∷ 0 ∷ 0 ∷ 0 ∷ 0xB2 ∷ 0 ∷ 28 ∷ 0 ∷ 0xCB ∷ 0 ∷ 0 ∷ 0 ∷ 7 ∷ 6
        ∷ 4 ∷ 0x78 ∷ 0x56 ∷ 0x34 ∷ 0x12 ∷ 79 ∷ 0 ∷ 44 ∷ 1 ∷ 0x99 ∷ 9 ∷ 10 ∷ 0x94 ∷ 8 ∷ values)

abbrev target : LogicalBinaryAddress
target = record { size = 2; address = held (6 ∷ 8 ∷ []); mask = 0 }

read_plc_data-Carries_example :
    (p : PcccReply) × (decode_pccc p.memory ≡ some two_floats)
    × (target.mask ≡ 0)
    × Carries
        (peer pccc_message)
        false
        (sent_for session (build_plc_read_data_request 300 target 2) [] (calm pccc_message))
        p
unfolding read_plc_data decoded_read send_unconnected_pccc_request unconnected_pccc requestor_reply
    sized_pccc unconnected_send send_over unconnected_reply ex_send_mr_request send_rr_data
    eip_send_data_wait_reply cip_send_data_wait_reply cip_send_data cip_empty_buffer cip_recv_data
    cip_recv_body routed_reply copied_reply get_mr_reply get_mr_reply_size get_data_item
    get_adress_item get_eip_cpf laid pccc_request build_mr_request decode_pccc decode_plc_data_type
    described two_fields field long_field element_fields with_size with_count
read_plc_data-Carries_example =
    read_plc_data-Carries session [] 300 target 2 (calm pccc_message) two_floats 0 refl
