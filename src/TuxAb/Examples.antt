-- ===== src/TuxAb/Examples.antt =====
-- The theorems on TuxAB.c at concrete tags, rows, paths and calls.
use mathlib.Core.List.{Perm}
use tux_plc.Base.{
  ℕ, ◌+◌, ◌<◌, ◌≤◌, ◌≡◌, refl, inl, true, false, List, [], ◌∷◌, ◌++◌, All, get_or, none, some,
  arith, held,
}
use tux_plc.Base.Int.{pos}
use tux_plc.TuxAb.{Tag, Packet, Plc, plc5, ab_unknow}
use tux_plc.TuxAb.Packets.{
  optimise_plc, trie, sort_rounds, pass, compare_plc, compare_from, group_loop, fits_packet,
  extended, new_packet, add_packet,
}
use tux_plc.TuxAb.Packets.Partition.{all_tags, optimise_plc-perm}
use tux_plc.TuxAb.Packets.Spans.{IsElement, IsCovered, optimise_plc-IsCovered}
use tux_plc.TuxAb.Paths.{parse_path, tokens, tokens_from, route_from}
use tux_plc.TuxAb.Paths.RoundTrip.{joined, parse_path-joined}
use tux_plc.TuxAb.Rows.{tag_type_of, tag_of_row}
use tux_plc.TuxAb.Rows.Elements.{tag_of_row-IsElement}
use tux_plc.TuxAb.Daemon.{Calls, Globals, null, nobody, find_session, find_connection, get_serial}
use tux_plc.TuxAb.Sessions.{build_session, session_on, found_or_opened, session_opened, new_session}
use tux_plc.TuxAb.Connections.{
  build_connections, build_connections_from, build_connection, connection_on, found_or_connected,
  connected,
}
use tux_plc.TuxAb.Logger.{
  log_plc, session_first, connection_first, serve, sampled_tags, sampled_tag, sampled_packets,
  read_tag, read_by_type, taken, update_tag, log_rounds, logger, is_due,
}
use tux_plc.TuxAb.Links.{IsLinked}
use tux_plc.TuxAb.Links.Rounds.{log_rounds-IsLinked}
use tux_plc.TuxAb.Links.Kills.{killed, logger-killed}
use tux_plc.TuxAb.Quiet.Prompt.{log_plc-prompt}

-- The tag of an element of the file 7, sampled every `sample` seconds.
abbrev tag_at : ℕ → ℕ → Tag
tag_at element sample = record {
  tag_name = element ∷ [];
  address = b'N' ∷ b'7' ∷ b':' ∷ (b'0' + element) ∷ [];
  lba = record { size = 3; address = held (6 ∷ 7 ∷ element ∷ []); mask = 0 };
  data_type = ab_unknow;
  time_sample = sample;
  time_value = 0;
  index = pos 0;
}

-- 10.0.0.1,1,2
abbrev path : List ℕ
path = b'1' ∷ b'0' ∷ b',' ∷ b'1' ∷ b',' ∷ b'2' ∷ []

abbrev plant : Plc
plant = record {
  plc_name = b'A' ∷ [];
  plc_path = path;
  plc_type = plc5;
  network = 0;
  node = pos 0;
  errors = 0;
  session = null;
  connection = null;
  next_time = 0;
  tags = tag_at 9 10 ∷ tag_at 2 5 ∷ tag_at 80 5 ∷ tag_at 4 7 ∷ [];
  packets = [];
}

optimise_plc-perm_example :
    Perm
      (all_tags plant.tags plant.packets)
      (all_tags (optimise_plc plant).tags (optimise_plc plant).packets)
optimise_plc-perm_example = optimise_plc-perm plant refl

optimise_plc-IsCovered_example : All IsCovered (optimise_plc plant).packets
optimise_plc-IsCovered_example = optimise_plc-IsCovered plant (
  (omega arith, omega arith, omega arith, refl, omega arith),
  (
    (omega arith, omega arith, omega arith, refl, omega arith),
    (
      (omega arith, omega arith, omega arith, refl, omega arith),
      ((omega arith, omega arith, omega arith, refl, omega arith), tt),
    ),
  ),
)

-- The elements 2, 4 and 9 are read by one packet of 8 elements every 5 seconds, and 80 by itself.
abbrev packed_plant : List Packet
packed_plant =
    record {
      base_address = b'N' ∷ b'7' ∷ b':' ∷ b'2' ∷ [];
      num_elt = pos 8;
      time_sample = 5;
      time_value = 0;
      tags =
          tag_at 2 5
          ∷ record (tag_at 4 7) { index = pos 2 }
          ∷ record (tag_at 9 10) { index = pos 7 }
          ∷ [];
    }
    ∷ []

plant-packed : (optimise_plc plant).packets ≡ packed_plant
unfolding optimise_plc trie sort_rounds pass compare_plc compare_from group_loop fits_packet
    extended new_packet add_packet
plant-packed = refl

plant-left : (optimise_plc plant).tags ≡ (tag_at 80 5 ∷ [])
unfolding optimise_plc trie sort_rounds pass compare_plc compare_from group_loop fits_packet
    extended new_packet add_packet
plant-left = refl

parse_path-joined_example :
    parse_path false ((b'1' ∷ b'0' ∷ []) ++ joined ((b'1' ∷ []) ∷ (b'2' ∷ b'4' ∷ []) ∷ []))
    ≡ some (record { ip = b'1' ∷ b'0' ∷ []; route = 1 ∷ 24 ∷ [] })
parse_path-joined_example =
    parse_path-joined b'1' (b'0' ∷ []) ((b'1' ∷ []) ∷ (b'2' ∷ b'4' ∷ []) ∷ [])
      ((λ e. omega (arith, e)), ((λ e. omega (arith, e)), tt))
      (
        ((omega arith, omega arith), tt, omega arith),
        (((omega arith, omega arith), ((omega arith, omega arith), tt), omega arith), tt),
      )

-- Calls that all succeed, with a clock that ticks at each look at it.
abbrev bench : Calls
bench = record {
  World = ℕ;
  Value = ℕ;
  open_session = λ ip w. (11, w);
  set_timeout = λ v w. w;
  register_session = λ v w. (true, w);
  close_session = λ v w. w;
  list_services = λ v w. (true, w);
  unregister_session = λ v w. w;
  connect = λ v type network opening w. (12, w);
  free_connection = λ v w. w;
  forward_close = λ v w. w;
  cip_errno = λ w. pos 0;
  cip_ext_errno = λ w. pos 0;
  pid = λ w. 100;
  time = λ w. (w, w + 1);
  read_plc_data = λ p address number w. (some (λ place. 5), w);
  read_lgx_data = λ p address number w. (none, w);
  store = λ name v w. (true, w);
  test = false;
}

-- The globals with that PLC, of two tags, at a time.
abbrev start_at : ℕ → Globals bench
start_at now = record {
  world = now;
  plcs = record plant { tags = tag_at 9 10 ∷ tag_at 2 5 ∷ [] } ∷ [];
  sessions = [];
  connections = [];
  serial = 0;
  range = false;
}

log_rounds-IsLinked_example : IsLinked (log_rounds 3 (build_connections (start_at 1000)).1).1
log_rounds-IsLinked_example = log_rounds-IsLinked 3 (start_at 1000) ((((refl, refl)), tt), tt, tt)

logger-killed_example :
    logger 3 (start_at 1000) ≡ (true, killed (log_rounds 3 (build_connections (start_at 1000)).1).1)
logger-killed_example = logger-killed 3 (start_at 1000) refl refl ((refl, refl), tt)

-- Behind BuildConnections and one round at the time 1000, and two seconds later.
abbrev after : Globals bench
after = (log_plc 0 (build_connections (start_at 1000)).1).1

log_plc-prompt_example :
    All
      (λ t. is_due (after.world) t.time_value t.time_sample ≡ false)
      (get_or after.plcs 0 nobody).tags
    × All
        (λ k. is_due (after.world) k.time_value k.time_sample ≡ false)
        (get_or after.plcs 0 nobody).packets
unfolding log_plc session_first connection_first serve sampled_tags sampled_tag sampled_packets
    read_tag read_by_type taken update_tag build_connections build_connections_from build_session
    session_on found_or_opened session_opened new_session find_session build_connection
    connection_on found_or_connected connected find_connection get_serial parse_path tokens
    tokens_from route_from
log_plc-prompt_example = log_plc-prompt 0 (build_connections (start_at 1000)).1 after refl refl refl

tag_of_row-IsElement_example :
    (t : Tag) × (tag_of_row (record {
      name = b'A' ∷ [];
      address = b'N' ∷ b'7' ∷ b':' ∷ b'1' ∷ b'3' ∷ [];
      type_text = none;
      sample_text = some (b'1' ∷ b'0' ∷ []);
    })
      ≡ some t)
    × IsElement t
    × (t.lba.address 0 ≡ 6)
    × (t.lba.address 1 ≡ 7)
    × (t.lba.address 2 ≡ 13)
    × (5 ≤ t.time_sample)
    × (t.time_sample < 32768)
unfolding tag_type_of
tag_of_row-IsElement_example =
    tag_of_row-IsElement (b'A' ∷ []) none (some (b'1' ∷ b'0' ∷ [])) ab_unknow refl b'N' b'7' [] b'1'
      (b'3' ∷ []) (inl refl) ((omega arith, omega arith), omega arith, tt)
      ((omega arith, omega arith), omega arith, ((omega arith, omega arith), tt)) (omega arith)
      (omega arith)
