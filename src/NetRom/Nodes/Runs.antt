-- ===== src/NetRom/Nodes/Runs.antt =====
-- netrom/nodes-broadcast.ts, netrom/nodes-broadcast-builder.ts at a table that takes two frames.
use mathlib.Core.List.{flatten}
use ax25_ts.Base.{All, List, [], arith, length, map, refl, suc, zero, ℕ, ◌<◌, ◌∷◌, ◌≡◌}
use ax25_ts.Callsign.{Callsign, IsValid, all_valid, is_valid_base_char}
use ax25_ts.NetRom.Alias.{is_printable, trim_end}
use ax25_ts.NetRom.Nodes.{
  NodesBroadcast, NodesRoutingEntry, build_frames, build_nodes_broadcast, frame_count,
  netrom_parse_lenient,
}
use ax25_ts.NetRom.Nodes.RoundTrip.{AreRead, FitsEntry, IsAlias, parse-build_nodes_broadcast}

abbrev gb7 : Callsign
gb7 = record { base = 0x47 ∷ 0x42 ∷ 0x37 ∷ []; ssid = 1 }

gb7-IsValid : IsValid gb7
unfolding all_valid is_valid_base_char
gb7-IsValid = record { short = omega arith; chars = refl; in_range = omega arith }

abbrev node_alias : List ℕ
node_alias = 0x4e ∷ 0x4f ∷ []

node_alias-IsAlias : IsAlias node_alias
unfolding is_printable trim_end
node_alias-IsAlias = record { short = omega arith; trimmed = ((refl, (refl, tt)), refl) }

abbrev entry_of : ℕ → NodesRoutingEntry
entry_of q = record {
  destination = gb7;
  destination_alias = node_alias;
  best_neighbour = gb7;
  best_quality = q;
}

abbrev entries_down : ℕ → List NodesRoutingEntry
entries_down zero = []
entries_down (suc n) = entry_of n ∷ entries_down n

entries_fit : (n : ℕ) → n < 256 → All FitsEntry (entries_down n)
entries_fit zero h = tt
entries_fit (suc n) h = (
  record {
    destination = gb7-IsValid;
    destination_alias = node_alias-IsAlias;
    best_neighbour = gb7-IsValid;
    best_quality = omega arith;
  },
  entries_fit n (omega arith),
)

parse-build_nodes_broadcast_example :
    (bs : List NodesBroadcast) × (AreRead node_alias netrom_parse_lenient
        (build_nodes_broadcast node_alias (entries_down 13))
        bs
      × (flatten (map (λ b. b.entries) bs) ≡ entries_down 13))
parse-build_nodes_broadcast_example =
    parse-build_nodes_broadcast node_alias netrom_parse_lenient (entries_down 13) refl
      node_alias-IsAlias (entries_fit 13 (omega arith))

two_frames : length (build_nodes_broadcast node_alias (entries_down 13)) ≡ 2
unfolding build_nodes_broadcast build_frames frame_count
two_frames = refl
