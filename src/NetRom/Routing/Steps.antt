-- ===== src/NetRom/Routing/Steps.antt =====
-- netrom/routing-table.ts: runs of a table. A run is a list of operations in the order in which the
-- listener makes them.
use ax25_ts.Base.{List, Option, [], ℕ, ◌∷◌, ◌≤◌}
use ax25_ts.Callsign.{Callsign}
use ax25_ts.Callsign.Text.{to_text}
use ax25_ts.NetRom.Inp3.{Inp3Rif}
use ax25_ts.NetRom.Nodes.{NodesBroadcast}
use ax25_ts.NetRom.Routing.{RoutingOptions, RoutingTable, create_routing_table}
use ax25_ts.NetRom.Routing.Adverts.{drain_recently_withdrawn}
use ax25_ts.NetRom.Routing.Ageing.{
  mark_neighbour_down, mark_neighbour_down_all_ports, mark_port_down, ports_for_callsign, sweep,
}
use ax25_ts.NetRom.Routing.Learning.{ingest, ingest_rif}
use ax25_ts.NetRom.Routing.Sound.{IsSound, create_routing_table-IsSound}
use ax25_ts.NetRom.Routing.Sound.Ageing.{
  mark_down_on-IsSound, mark_neighbour_down-IsSound, mark_port_down-IsSound, sweep-IsSound,
}
use ax25_ts.NetRom.Routing.Sound.Ingest.{ingest-IsSound, ingest_rif-IsSound}

pub data Operation : Type 0 where
  ingest_op : Callsign → Callsign → List ℕ → NodesBroadcast → Option ℕ → Option ℕ → ℕ → Operation
  ingest_rif_op : Callsign → Callsign → List ℕ → ℕ → Inp3Rif → ℕ → Operation
  sweep_op drain_op : Operation
  neighbour_down_op : List ℕ → Callsign → Operation
  neighbour_down_all_ports_op : Callsign → Operation
  port_down_op : List ℕ → Operation

unfoldable pub apply_operation : Operation → RoutingTable → RoutingTable
apply_operation (ingest_op originator my_call port_id broadcast quality floor now) t =
    ingest t originator my_call port_id broadcast quality floor now
apply_operation (ingest_rif_op from my_call port_id sntt rif hop_limit) t =
    ingest_rif t from my_call port_id sntt rif hop_limit
apply_operation sweep_op t = (sweep t).0
apply_operation drain_op t = (drain_recently_withdrawn t).0
apply_operation (neighbour_down_op port_id neighbour) t =
    (mark_neighbour_down port_id neighbour t).0
apply_operation (neighbour_down_all_ports_op neighbour) t =
    (mark_neighbour_down_all_ports neighbour t).0
apply_operation (port_down_op port_id) t = (mark_port_down port_id t).0

unfoldable pub apply_all : List Operation → RoutingTable → RoutingTable
apply_all [] t = t
apply_all (op ∷ ops) t = apply_all ops (apply_operation op t)

apply_operation-IsSound :
    {o : RoutingOptions} (op : Operation) (t : RoutingTable)
    → IsSound o t
    → IsSound o (apply_operation op t)
unfolding apply_operation mark_neighbour_down_all_ports drain_recently_withdrawn
apply_operation-IsSound (ingest_op originator my_call port_id broadcast quality floor now) t s =
    ingest-IsSound t originator my_call port_id broadcast quality floor now s
apply_operation-IsSound (ingest_rif_op from my_call port_id sntt rif hop_limit) t s =
    ingest_rif-IsSound t from my_call port_id sntt rif hop_limit s
apply_operation-IsSound sweep_op t s = sweep-IsSound t s
apply_operation-IsSound drain_op t s = record {
  same_options = s.same_options;
  some_room = s.some_room;
  bounded = s.bounded;
  distinct = s.distinct;
  entries = s.entries;
}
apply_operation-IsSound (neighbour_down_op port_id neighbour) t s =
    mark_neighbour_down-IsSound port_id neighbour t s
apply_operation-IsSound (neighbour_down_all_ports_op neighbour) t s =
    mark_down_on-IsSound (ports_for_callsign t (to_text neighbour)) neighbour t s
apply_operation-IsSound (port_down_op port_id) t s = mark_port_down-IsSound port_id t s

pub apply_all-IsSound :
    {o : RoutingOptions} (ops : List Operation) (t : RoutingTable)
    → IsSound o t
    → IsSound o (apply_all ops t)
unfolding apply_all
apply_all-IsSound [] t s = s
apply_all-IsSound (op ∷ ops) t s =
    apply_all-IsSound ops (apply_operation op t) (apply_operation-IsSound op t s)

-- After every sequence of broadcasts, routing information frames, sweeps, failures of neighbours and
-- ports, and readings of the withdrawn destinations, from a new table whose options allow a destination
-- a route: the options are as given, the destinations are at most `maxDestinations` and no key stands
-- twice; each has at least one route and at most `maxRoutesPerDestination`, each route stands under the
-- key of its own port and neighbour, and the key of each destination is the written form of a callsign
-- that the table holds under it, so that the source's `callsignByKey.get(destKey)!` is never undefined.
pub reachable-IsSound :
    (ops : List Operation) (options : RoutingOptions) (port_rank : Option (List ℕ → ℕ))
    → 1 ≤ options.max_routes_per_destination
    → IsSound options (apply_all ops (create_routing_table options port_rank))
reachable-IsSound ops options port_rank h =
    apply_all-IsSound ops (create_routing_table options port_rank)
      (create_routing_table-IsSound options port_rank h)
