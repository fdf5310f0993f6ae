-- ===== src/Tuxeip/Session/Connected.antt =====
-- Which replies _ConnectedSend takes.
use tux_plc.Base.{
  held, ℕ, ◌+◌, ◌≡◌, refl, sym, ◌∙◌, inl, inr, Bool-cases, ◌==◌, ==_eq, Option, none, some, arith,
}
use mathlib.Core.Option.{some-injective}
use tux_plc.Base.Bits.{u16}
use tux_plc.Base.Memory.{Memory}
use tux_plc.Modbus.Words.{word_at, word_row, dword_row}
use tux_plc.Tuxeip.Eip.{get_data_item, eip_sendunitdata, item_connection_based, item_connected_tp}
use tux_plc.Tuxeip.Link.{Net, CipClient}
use tux_plc.Tuxeip.Session.{
  eip_send_data_wait_reply, Connection, connected_send, connected_reply, connected_item, item_at,
}

-- A data item out of what was received, which is a reply to SendUnitData with the packet number.
abbrev pub Answers : Net → ℕ → Option Memory → Memory → Type 0
Answers net packet reply r =
    (m : Memory) × (off : ℕ) × (reply ≡ some m)
    × (get_data_item m ≡ some off)
    × (word_at m 0 ≡ eip_sendunitdata)
    × (word_at m (off + 4) ≡ packet)
    × (r ≡ item_at (net.junk) m off)

refused : {A : Type 0} {o : Option A} {x : A} → o ≡ none → o ≡ some x → none ≡ some x
refused gone there = sym gone ∙ there

module _ {net : Net} where
  connected_item-Answers :
      (packet : ℕ) (m : Memory) (o : Option ℕ) (c : CipClient net) (r : Memory)
      → get_data_item m ≡ o
      → (connected_item packet m o c).0 ≡ some r
      → Answers net packet (some m) r
  unfolding connected_item
  connected_item-Answers packet m none c r found h = absurd (ground (arith, h))
  connected_item-Answers packet m (some off) c r found h =
      elim (Bool-cases (word_at m 0 == eip_sendunitdata)) [
        | inr e ↦ absurd (ground (arith, refused (rw e refl) h))
        | inl e ↦ elim (Bool-cases (word_at m (off + 4) == packet)) [
          | inr z ↦ absurd (ground (arith, refused (rw (e, z) refl) h))
          | inl z ↦ (
            m,
            off,
            refl,
            found,
            ==_eq _ _ e,
            ==_eq _ _ z,
            some-injective r (item_at net.junk m off) (sym h ∙ rw (e, z) refl),
          )
        ]
      ]

  connected_reply-Answers :
      (packet : ℕ) (o : Option Memory) (c : CipClient net) (r : Memory)
      → (connected_reply packet o c).0 ≡ some r
      → Answers net packet o r
  unfolding connected_reply
  connected_reply-Answers packet none c r h = absurd (ground (arith, h))
  connected_reply-Answers packet (some m) c r h =
      connected_item-Answers packet m (get_data_item m) c r refl h

  -- What is received behind the request of _ConnectedSend.
  abbrev pub received : Connection → Memory → ℕ → CipClient net → Option Memory
  received k request size c =
      (eip_send_data_wait_reply k.session eip_sendunitdata
        (record {
          type_id = item_connection_based;
          length = 0;
          rest = held (dword_row k.ot_conn_id);
        })
        none
        (record {
          type_id = item_connected_tp;
          length = u16 size;
          rest = held (word_row (u16 (k.packet + 1)));
        })
        (some request) c).0

  -- Where _ConnectedSend returns a data item, it is out of what was received, a reply to SendUnitData that carries the packet
  -- number that was sent, which is one above the connection's last, in 16 bits, and is the connection's next.
  pub connected_send-Answers :
      (k : Connection) (request : Memory) (size : ℕ) (c : CipClient net) (r : Memory)
      → (connected_send k request size c).0.0 ≡ some r
      → Answers net (u16 (k.packet + 1)) (received k request size c) r
        × ((connected_send k request size c).0.1.packet ≡ u16 (k.packet + 1))
  unfolding connected_send
  connected_send-Answers k request size c r h = (connected_reply-Answers _ _ _ r h, refl)
