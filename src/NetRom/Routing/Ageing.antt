-- ===== src/NetRom/Routing/Ageing.antt =====
-- netrom/routing-table.ts: the sweep, and the neighbours and ports that go down. Each of these walks
-- the destinations, changes their routes in place, and deletes those left without a route at the end.
use ax25_ts.Base.{
  Bool, List, Option, [], false, if◌then◌else◌, is_empty, leb, length, none, not, some, ℕ, ◌&&◌,
  ◌++◌, ◌+◌, ◌-◌, ◌||◌, ◌∷◌,
}
use ax25_ts.Base.Maps.{
  TextMap, delete_all, has_key, keys, map_delete, map_get, map_set, mem_text, text_eq,
}
use ax25_ts.Callsign.{Callsign}
use ax25_ts.Callsign.Text.{to_text}
use ax25_ts.NetRom.Routing.{
  DestinationState, NeighbourState, RouteState, RoutingTable, neighbour_key, neighbour_key_callsign,
  neighbour_key_port,
}
use ax25_ts.NetRom.Routing.Routes.{any_inp3}

-- `recentlyWithdrawnSet.set(destKey, callsignByKey.get(destKey)!)`. The `!` is met for each key of a
-- table made by the operations; without a callsign the model leaves the set as it is.
unfoldable pub withdraw_known : Option Callsign → List ℕ → TextMap Callsign → TextMap Callsign
withdraw_known none dest_key withdrawn = withdrawn
withdraw_known (some c) dest_key withdrawn = map_set dest_key c withdrawn

unfoldable pub withdraw_if : Bool → RoutingTable → List ℕ → TextMap Callsign → TextMap Callsign
withdraw_if gone t dest_key withdrawn =
    if gone
    then withdraw_known (map_get dest_key t.callsign_by_key) dest_key withdrawn
    else withdrawn

-- The keys of the destinations that have no route.
unfoldable pub empty_destinations : TextMap DestinationState → List (List ℕ)
empty_destinations [] = []
empty_destinations (e ∷ m) =
    let rest = empty_destinations m in if is_empty (e.1).routes then e.0 ∷ rest else rest

unfoldable pub purge_empty : TextMap DestinationState → TextMap DestinationState
purge_empty m = delete_all (empty_destinations m) m

unfoldable pub is_in_use : List ℕ → TextMap DestinationState → Bool
is_in_use via [] = false
is_in_use via (e ∷ m) = has_key via (e.1).routes || is_in_use via m

unfoldable pub orphans : TextMap DestinationState → TextMap NeighbourState → List (List ℕ)
orphans destinations [] = []
orphans destinations (e ∷ m) =
    let rest = orphans destinations m in if is_in_use e.0 destinations then rest else e.0 ∷ rest

unfoldable pub prune_orphan_neighbours : RoutingTable → RoutingTable
prune_orphan_neighbours t = record t {
  neighbours = delete_all (orphans t.destinations t.neighbours) t.neighbours;
}

-- The routes that live on after a sweep, one step older.
unfoldable pub survivors : TextMap RouteState → TextMap RouteState
survivors [] = []
survivors (e ∷ m) =
    let rest = survivors m in
    let next = (e.1).obsolescence - 1 in
    if leb next 0 then rest else (e.0, record e.1 { obsolescence = next }) ∷ rest

-- A walk over the destinations that replaces the routes of each.
unfoldable pub change_routes :
    (TextMap RouteState → TextMap RouteState) → TextMap DestinationState → TextMap DestinationState
change_routes change [] = []
change_routes change (e ∷ m) =
    (e.0, record e.1 { routes = change (e.1).routes }) ∷ change_routes change m

-- The destinations that such a walk leaves without an INP3 route, each noted as withdrawn.
unfoldable pub change_withdrawn :
    (TextMap RouteState → TextMap RouteState)
    → RoutingTable
    → TextMap DestinationState
    → TextMap Callsign
    → TextMap Callsign
change_withdrawn change t [] withdrawn = withdrawn
change_withdrawn change t (e ∷ m) withdrawn =
    change_withdrawn change t m
      (withdraw_if (any_inp3 (e.1).routes && not (any_inp3 (change (e.1).routes))) t e.0 withdrawn)

unfoldable pub count_removed :
    (TextMap RouteState → TextMap RouteState) → TextMap DestinationState → ℕ
count_removed change [] = 0
count_removed change (e ∷ m) =
    (length (e.1).routes - length (change (e.1).routes)) + count_removed change m

-- The walk, the deletion of what became empty, and the pruning of the neighbours.
unfoldable pub change_table :
    (TextMap RouteState → TextMap RouteState) → RoutingTable → RoutingTable
change_table change t = record t {
  destinations = purge_empty (change_routes change t.destinations);
  recently_withdrawn_set = change_withdrawn change t t.destinations t.recently_withdrawn_set;
}

unfoldable pub sweep : RoutingTable → RoutingTable × ℕ
sweep t =
    (prune_orphan_neighbours (change_table survivors t), count_removed survivors t.destinations)

unfoldable pub drop_neighbours : List (List ℕ) → RoutingTable → RoutingTable
drop_neighbours ks t = record t { neighbours = delete_all ks t.neighbours }

unfoldable pub mark_neighbour_down : List ℕ → Callsign → RoutingTable → RoutingTable × ℕ
mark_neighbour_down port_id neighbour t =
    let via_key = neighbour_key port_id neighbour in
    (
      prune_orphan_neighbours
          (drop_neighbours (via_key ∷ []) (change_table (map_delete via_key) t)),
      count_removed (map_delete via_key) t.destinations,
    )

-- `ports.add`: a set keeps the order in which its members came in.
unfoldable pub add_port : List ℕ → List (List ℕ) → List (List ℕ)
add_port port_id ports = if mem_text port_id ports then ports else ports ++ (port_id ∷ [])

unfoldable pub ports_of_keys : List ℕ → List (List ℕ) → List (List ℕ) → List (List ℕ)
ports_of_keys call_text [] ports = ports
ports_of_keys call_text (key ∷ ks) ports = ports_of_keys call_text ks (
    if text_eq (neighbour_key_callsign key) call_text
    then add_port (neighbour_key_port key) ports
    else ports)

unfoldable pub ports_of_routes : List ℕ → TextMap DestinationState → List (List ℕ) → List (List ℕ)
ports_of_routes call_text [] ports = ports
ports_of_routes call_text (e ∷ m) ports =
    ports_of_routes call_text m (ports_of_keys call_text (keys (e.1).routes) ports)

unfoldable pub ports_for_callsign : RoutingTable → List ℕ → List (List ℕ)
ports_for_callsign t call_text =
    ports_of_routes call_text t.destinations (ports_of_keys call_text (keys t.neighbours) [])

unfoldable pub mark_down_on : List (List ℕ) → Callsign → RoutingTable → RoutingTable × ℕ
mark_down_on [] neighbour t = (t, 0)
mark_down_on (port_id ∷ ports) neighbour t =
    let first = mark_neighbour_down port_id neighbour t in
    let rest = mark_down_on ports neighbour first.0 in (rest.0, first.1 + rest.1)

unfoldable pub mark_neighbour_down_all_ports : Callsign → RoutingTable → RoutingTable × ℕ
mark_neighbour_down_all_ports neighbour t =
    mark_down_on (ports_for_callsign t (to_text neighbour)) neighbour t

-- One `delete` for each route over the port.
unfoldable pub keys_on_port : List ℕ → TextMap RouteState → List (List ℕ)
keys_on_port port_id [] = []
keys_on_port port_id (e ∷ m) =
    let rest = keys_on_port port_id m in if text_eq (e.1).port_id port_id then e.0 ∷ rest else rest

unfoldable pub off_port : List ℕ → TextMap RouteState → TextMap RouteState
off_port port_id routes = delete_all (keys_on_port port_id routes) routes

unfoldable pub neighbours_on_port : List ℕ → List (List ℕ) → List (List ℕ)
neighbours_on_port port_id [] = []
neighbours_on_port port_id (key ∷ ks) =
    let rest = neighbours_on_port port_id ks in
    if text_eq (neighbour_key_port key) port_id then key ∷ rest else rest

unfoldable pub mark_port_down : List ℕ → RoutingTable → RoutingTable × ℕ
mark_port_down port_id t = (
  prune_orphan_neighbours (
      drop_neighbours (neighbours_on_port port_id (keys t.neighbours))
        (change_table (off_port port_id) t)),
  count_removed (off_port port_id) t.destinations,
)
