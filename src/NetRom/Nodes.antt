-- ===== src/NetRom/Nodes.antt =====
-- netrom/nodes-broadcast.ts and netrom/nodes-broadcast-builder.ts: the broadcast of a routing table,
-- eleven entries in a frame.
pub mod RoundTrip
pub mod Runs
use ax25_ts.Base.{
  Bool, List, Option, [], drop, false, get_or, if◌then◌else◌, length, ltb, min, none, not, some,
  suc, take, true, zero, ℕ, ◌%◌, ◌&&◌, ◌*◌, ◌++◌, ◌+◌, ◌-◌, ◌/◌, ◌==◌, ◌∷◌,
}
use ax25_ts.Callsign.{Callsign}
use ax25_ts.NetRom.Alias.{netrom_alias_length, read_alias, write_alias}
use ax25_ts.NetRom.ConnectInfo.{write_shifted}
use ax25_ts.NetRom.Packet.{and_then_some, shifted_length, try_read_shifted}

pub record NetRomParseOptions : Type 0 where
  pub allow_trailing_partial_entry : Bool
  pub allow_empty_destination_list : Bool

abbrev pub netrom_parse_lenient : NetRomParseOptions
netrom_parse_lenient = record {
  allow_trailing_partial_entry = true;
  allow_empty_destination_list = true;
}

abbrev pub netrom_parse_strict : NetRomParseOptions
netrom_parse_strict = record {
  allow_trailing_partial_entry = false;
  allow_empty_destination_list = false;
}

abbrev pub nodes_entry_encoded_length : ℕ
nodes_entry_encoded_length = shifted_length + netrom_alias_length + shifted_length + 1

abbrev pub nodes_signature : ℕ
nodes_signature = 0xff

abbrev pub nodes_max_entries_per_frame : ℕ
nodes_max_entries_per_frame = 11

abbrev pub nodes_header_length : ℕ
nodes_header_length = 1 + netrom_alias_length

-- `NodesRoutingEntry` of the reader and `NodesBroadcastEntry` of the writer, which differ in the name
-- of the last field only.
pub record NodesRoutingEntry : Type 0 where
  pub destination : Callsign
  pub destination_alias : List ℕ
  pub best_neighbour : Callsign
  pub best_quality : ℕ

pub record NodesBroadcast : Type 0 where
  pub sender_alias : List ℕ
  pub entries : List NodesRoutingEntry

unfoldable pub parse_entry : List ℕ → ℕ → Option NodesRoutingEntry
parse_entry source offset =
    if ltb (length source) (offset + nodes_entry_encoded_length)
    then none
    else and_then_some (try_read_shifted source offset) (λ destination.
      and_then_some (try_read_shifted source (offset + shifted_length + netrom_alias_length))
        (λ best_neighbour. some (record {
          destination = destination;
          destination_alias = read_alias source (offset + shifted_length);
          best_neighbour = best_neighbour;
          best_quality =
              get_or source (offset + shifted_length + netrom_alias_length + shifted_length) 0;
        })))

-- One entry of the loop, given what the rest of the loop gives.
unfoldable pub with_entry :
    NetRomParseOptions
    → Option NodesRoutingEntry
    → Option (List NodesRoutingEntry)
    → Option (List NodesRoutingEntry)
with_entry options none rest = if options.allow_trailing_partial_entry then rest else none
with_entry options (some entry) none = none
with_entry options (some entry) (some entries) = some (entry ∷ entries)

-- The loop over the entries, `n` of them from an offset on.
unfoldable pub parse_entries : NetRomParseOptions → ℕ → List ℕ → ℕ → Option (List NodesRoutingEntry)
parse_entries options zero info offset = some []
parse_entries options (suc n) info offset =
    with_entry options (parse_entry info offset)
      (parse_entries options n info (offset + nodes_entry_encoded_length))

unfoldable pub parse_nodes_broadcast : List ℕ → NetRomParseOptions → Option NodesBroadcast
parse_nodes_broadcast info options =
    let body_length = length info - nodes_header_length in
    let entry_count = body_length / nodes_entry_encoded_length in
    let remainder = body_length - entry_count * nodes_entry_encoded_length in
    let to_take = min entry_count nodes_max_entries_per_frame in
    if ltb (length info) nodes_header_length
    then none
    else if not (get_or info 0 0 == nodes_signature)
    then none
    else if not (remainder == 0) && not options.allow_trailing_partial_entry
    then none
    else if to_take == 0 && not options.allow_empty_destination_list
    then none
    else and_then_some (parse_entries options to_take info nodes_header_length)
        (λ entries. some (record { sender_alias = read_alias info 1; entries = entries }))

unfoldable pub write_entry : NodesRoutingEntry → List ℕ
write_entry e =
    write_shifted e.destination
    ++ (write_alias e.destination_alias
        ++ (write_shifted e.best_neighbour ++ ((e.best_quality % 256) ∷ [])))

unfoldable pub write_entries : List NodesRoutingEntry → List ℕ
write_entries [] = []
write_entries (e ∷ es) = write_entry e ++ write_entries es

unfoldable pub build_frame : List ℕ → List NodesRoutingEntry → List ℕ
build_frame sender_alias es = nodes_signature ∷ (write_alias sender_alias ++ write_entries es)

-- The frames from the entry at which the next one starts, for `n` frames.
unfoldable pub build_frames : List ℕ → ℕ → List NodesRoutingEntry → List (List ℕ)
build_frames sender_alias zero entries = []
build_frames sender_alias (suc n) entries =
    build_frame sender_alias (take nodes_max_entries_per_frame entries)
    ∷ build_frames sender_alias n (drop nodes_max_entries_per_frame entries)

-- `Math.ceil(entries / 11)`, and one frame for an empty table.
unfoldable pub frame_count : List NodesRoutingEntry → ℕ
frame_count [] = 1
frame_count (e ∷ es) =
    (length (e ∷ es) + (nodes_max_entries_per_frame - 1)) / nodes_max_entries_per_frame

unfoldable pub build_nodes_broadcast : List ℕ → List NodesRoutingEntry → List (List ℕ)
build_nodes_broadcast sender_alias entries = build_frames sender_alias (frame_count entries) entries
