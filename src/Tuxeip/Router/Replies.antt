-- ===== src/Tuxeip/Router/Replies.antt =====
-- A message of the router through a whole exchange of items.
use tux_plc.Base.{ℕ, ◌+◌, ◌<◌, ◌≤◌, ◌≡◌, refl, ◌∙◌, some, arith, List, [], length, get_or, held}
use tux_plc.Base.Int.{pos}
use tux_plc.Base.Memory.{laid, laid_start}
use tux_plc.Modbus.Words.{word_at}
use tux_plc.Tuxeip.Eip.{Session, Item, item_null, item_ucm, get_item_size, eip_sendrrdata}
use tux_plc.Tuxeip.Eip.RoundTrip.{sent, build_request-get_data_item}
use tux_plc.Tuxeip.Link.{Net, CipClient, mr_error}
use tux_plc.Tuxeip.Router.{
  MrReply, get_mr_reply, get_mr_reply_size, get_mr_extended_status, routed_reply, copied_reply,
}

-- The items of _ExSendMRRequest around a message.
abbrev pub null_item : Item
null_item = record { type_id = item_null; length = 0; rest = held [] }

abbrev pub ucm_item : List ℕ → Item
ucm_item row = record { type_id = item_ucm; length = length row; rest = held [] }

-- A message of up to 984 bytes, packed in the items of _ExSendMRRequest, is what the functions for a reply
-- find: on the memory of the request, they return a reply of the message's size and bytes, and set its
-- status as the error.
pub routed_reply-sent :
    {net : Net} (s : Session) (row : List ℕ) (timeout : ℕ) (c : CipClient net)
    → length row ≤ 984
    → (r : MrReply) × ((routed_reply
          (some (sent s null_item (ucm_item row) (held row) timeout eip_sendrrdata))
          c)
        ≡ (
          some r,
          record c {
            err = record {
              kind = mr_error;
              no = pos (r.memory 2);
              ext_no = get_mr_extended_status r.memory;
            };
          },
        ))
      × (r.size ≡ length row)
      × ((i : ℕ) → i < length row → r.memory i ≡ get_or row i 0)
unfolding routed_reply copied_reply get_mr_reply get_mr_reply_size get_item_size
routed_reply-sent {net = net} s row timeout c short =
    let m = sent s null_item (ucm_item row) (held row) timeout eip_sendrrdata in
    let found =
      build_request-get_data_item s null_item (ucm_item row) (held row) timeout (omega arith)
        (omega arith) refl (omega arith) eip_sendrrdata (omega arith) refl in
    let size : word_at m 38 ≡ length row = found.2 ∙ omega arith in
    let reply_at : get_mr_reply m ≡ some 40 = rw (found.0, get_mr_reply, found.1) refl in
    let reply_size : get_mr_reply_size m ≡ pos (length row) =
      rw (found.0, get_mr_reply_size, found.1, size) refl in
    (
      record { memory = laid net.junk 0 (length row) (λ i. m (40 + i)); size = length row },
      rw (reply_at, routed_reply, reply_size, copied_reply) refl,
      refl,
      λ i h. laid_start net.junk (length row) (λ j. m (40 + j)) i h ∙ found.3 i h,
    )
