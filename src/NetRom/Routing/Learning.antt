-- ===== src/NetRom/Routing/Learning.antt =====
-- netrom/routing-table.ts: what is learned from the broadcasts of the neighbours.
use ax25_ts.Base.{
  List, Option, [], if◌then◌else◌, leb, ltb, max, min, none, not, some, ℕ, ◌&&◌, ◌+◌, ◌==◌, ◌||◌,
  ◌∷◌,
}
use ax25_ts.Base.Maps.{map_get, map_set}
use ax25_ts.Callsign.{Callsign}
use ax25_ts.Callsign.Text.{equals}
use ax25_ts.NetRom.Inp3.{Inp3Rif, Inp3Rip, inp3_horizon_ms, inp3_rip_alias, inp3_rip_is_horizon}
use ax25_ts.NetRom.Nodes.{NodesBroadcast, NodesRoutingEntry}
use ax25_ts.NetRom.Quality.{combine_quality, netrom_quality_min}
use ax25_ts.NetRom.Routing.{NeighbourState, RoutingTable, clamp_quality, neighbour_key}
use ax25_ts.NetRom.Routing.Routes.{upsert_inp3_route, upsert_route, withdraw_inp3}

abbrev pub or_default : Option ℕ → ℕ → ℕ
or_default none d = d
or_default (some x) d = x

-- The neighbour that was heard: its alias, its quality and the time are new, its place is kept.
unfoldable pub heard_neighbour :
    Option NeighbourState → Callsign → List ℕ → List ℕ → ℕ → ℕ → NeighbourState
heard_neighbour none originator port_id alias path_quality now = record {
  neighbour = originator;
  alias = alias;
  port_id = port_id;
  path_quality = path_quality;
  last_heard = now;
}
heard_neighbour (some nbr) originator port_id alias path_quality now = record nbr {
  alias = alias;
  path_quality = path_quality;
  last_heard = now;
}

unfoldable pub ingest_entry :
    RoutingTable → Callsign → Callsign → List ℕ → ℕ → ℕ → NodesRoutingEntry → RoutingTable
ingest_entry t originator my_call port_id path_quality floor entry =
    let quality =
      if equals entry.best_neighbour my_call
      then netrom_quality_min
      else combine_quality entry.best_quality path_quality in
    if equals entry.destination my_call
    then t
    else upsert_route t entry.destination entry.destination_alias port_id originator quality floor

unfoldable pub ingest_entries :
    RoutingTable → Callsign → Callsign → List ℕ → ℕ → ℕ → List NodesRoutingEntry → RoutingTable
ingest_entries t originator my_call port_id path_quality floor [] = t
ingest_entries t originator my_call port_id path_quality floor (entry ∷ entries) =
    ingest_entries (ingest_entry t originator my_call port_id path_quality floor entry) originator
      my_call port_id path_quality floor entries

unfoldable pub hear_neighbour : RoutingTable → Callsign → List ℕ → List ℕ → ℕ → ℕ → RoutingTable
hear_neighbour t originator port_id alias path_quality now =
    let key = neighbour_key port_id originator in
    record t {
      neighbours =
          map_set key
            (heard_neighbour (map_get key t.neighbours) originator port_id alias path_quality now)
            t.neighbours;
    }

-- `now` is the reading of the clock.
unfoldable pub ingest :
    RoutingTable
    → Callsign
    → Callsign
    → List ℕ
    → NodesBroadcast
    → Option ℕ
    → Option ℕ
    → ℕ
    → RoutingTable
ingest t originator my_call port_id broadcast neighbour_quality min_quality now =
    let path_quality =
      clamp_quality (or_default neighbour_quality t.options.default_neighbour_quality) in
    let floor = clamp_quality (or_default min_quality t.options.min_quality) in
    ingest_entries
      (upsert_route (hear_neighbour t originator port_id broadcast.sender_alias path_quality now)
        originator broadcast.sender_alias port_id originator path_quality floor)
      originator my_call port_id path_quality floor broadcast.entries

abbrev pub per_hop_increment_ms : ℕ
per_hop_increment_ms = 10

abbrev pub default_hop_limit : ℕ
default_hop_limit = 30

-- `SNTT_UNSET` of netrom/inp3-sntt.ts.
abbrev pub sntt_unset : ℕ
sntt_unset = 0xffffffff

abbrev pub text_or_empty : Option (List ℕ) → List ℕ
text_or_empty none = []
text_or_empty (some text) = text

unfoldable pub ingest_rip :
    RoutingTable → Callsign → Callsign → List ℕ → ℕ → ℕ → Inp3Rip → RoutingTable
ingest_rip t from my_call port_id neighbour_sntt_ms hop_limit rip =
    let link_measured = not (neighbour_sntt_ms == sntt_unset) in
    let local_target_time = rip.target_time_ms + neighbour_sntt_ms + per_hop_increment_ms in
    let local_hop_count = rip.hop_count + 1 in
    if inp3_rip_is_horizon rip || link_measured && leb inp3_horizon_ms local_target_time
    then withdraw_inp3 t rip.destination port_id from
    else if not link_measured
    then t
    else if ltb hop_limit local_hop_count
    then t
    else if equals rip.destination my_call
    then t
    else upsert_inp3_route t rip.destination (text_or_empty (inp3_rip_alias rip)) port_id from
        (record { target_time_ms = local_target_time; hop_count = min local_hop_count 255 })

unfoldable pub ingest_rips :
    RoutingTable → Callsign → Callsign → List ℕ → ℕ → ℕ → List Inp3Rip → RoutingTable
ingest_rips t from my_call port_id neighbour_sntt_ms hop_limit [] = t
ingest_rips t from my_call port_id neighbour_sntt_ms hop_limit (rip ∷ rips) =
    ingest_rips (ingest_rip t from my_call port_id neighbour_sntt_ms hop_limit rip) from my_call
      port_id neighbour_sntt_ms hop_limit rips

unfoldable pub ingest_rif :
    RoutingTable → Callsign → Callsign → List ℕ → ℕ → Inp3Rif → ℕ → RoutingTable
ingest_rif t from my_call port_id neighbour_sntt_ms rif hop_limit =
    ingest_rips t from my_call port_id neighbour_sntt_ms (max 1 hop_limit) rif.rips
