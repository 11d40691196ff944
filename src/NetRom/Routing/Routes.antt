-- ===== src/NetRom/Routing/Routes.antt =====
-- netrom/routing-table.ts: what is done to the routes of one destination and to one entry of the table.
use ax25_ts.Base.{
  Bool, List, Option, [], false, if◌then◌else◌, is_empty, leb, length, ltb, none, not, some, take,
  true, ℕ, ◌&&◌, ◌||◌, ◌∷◌,
}
use ax25_ts.Base.Maps.{TextMap, map_delete, map_get, map_set, values}
use ax25_ts.Callsign.{Callsign}
use ax25_ts.Callsign.Text.{to_text}
use ax25_ts.NetRom.Quality.{netrom_quality_min}
use ax25_ts.NetRom.Routing.{
  DestinationState, Inp3RouteMetric, RouteState, RoutingTable, neighbour_key, route_order, sort,
}

-- The routes set one after another, as the constructor of the kept map does.
unfoldable pub set_routes : List RouteState → TextMap RouteState → TextMap RouteState
set_routes [] m = m
set_routes (r ∷ rs) m = set_routes rs (map_set (neighbour_key r.port_id r.neighbour) r m)

unfoldable pub enforce_route_cap : RoutingTable → DestinationState → DestinationState
enforce_route_cap t dest =
    let limit = t.options.max_routes_per_destination in
    if leb (length dest.routes) limit then dest else record dest {
      routes = set_routes (take limit (sort (route_order t) (values dest.routes))) [];
    }

unfoldable pub is_acceptable : ℕ → ℕ → Bool
is_acceptable quality min_quality = ltb netrom_quality_min quality && leb min_quality quality

-- `dest = { alias, routes: new Map() }`, put into the table with its callsign.
unfoldable pub add_destination : RoutingTable → Callsign → List ℕ → RoutingTable
add_destination t destination alias = record t {
  destinations =
      map_set (to_text destination) (record { alias = alias; routes = [] }) t.destinations;
  callsign_by_key = map_set (to_text destination) destination t.callsign_by_key;
}

-- The destination object is changed in place.
unfoldable pub set_destination : RoutingTable → List ℕ → DestinationState → RoutingTable
set_destination t dest_key dest = record t { destinations = map_set dest_key dest t.destinations }

unfoldable pub rename : List ℕ → DestinationState → DestinationState
rename alias dest = if is_empty alias then dest else record dest { alias = alias }

-- `dest.routes.delete(viaKey)`, and the destination with its last route.
unfoldable pub drop_route : RoutingTable → List ℕ → List ℕ → DestinationState → RoutingTable
drop_route t dest_key via_key dest =
    let left = map_delete via_key dest.routes in
    if is_empty left
    then record t { destinations = map_delete dest_key t.destinations }
    else set_destination t dest_key (record dest { routes = left })

unfoldable pub metric_of : Option RouteState → Option Inp3RouteMetric
metric_of none = none
metric_of (some route) = route.inp3

-- The end of `upsertRoute`: the quality route is set and the cap enforced.
unfoldable pub store_route :
    RoutingTable → List ℕ → DestinationState → List ℕ → Callsign → ℕ → RoutingTable
store_route t dest_key dest port_id via quality =
    let via_key = neighbour_key port_id via in
    set_destination t dest_key (
      enforce_route_cap t (record dest {
        routes =
            map_set via_key
              (record {
                neighbour = via;
                port_id = port_id;
                quality = quality;
                obsolescence = t.options.obsolete_initial;
                inp3 = metric_of (map_get via_key dest.routes);
              })
              dest.routes;
      }))

abbrev pub is_full : RoutingTable → Bool
is_full t = leb t.options.max_destinations (length t.destinations)

unfoldable pub upsert_found :
    RoutingTable
    → Option DestinationState
    → Callsign
    → List ℕ
    → List ℕ
    → Callsign
    → ℕ
    → Bool
    → RoutingTable
upsert_found t none destination alias port_id via quality acceptable =
    if not acceptable || is_full t
    then t
    else store_route (add_destination t destination alias) (to_text destination)
        (record { alias = alias; routes = [] }) port_id via quality
upsert_found t (some found) destination alias port_id via quality acceptable =
    let dest = rename alias found in
    if acceptable
    then store_route t (to_text destination) dest port_id via quality
    else drop_route t (to_text destination) (neighbour_key port_id via) dest

unfoldable pub upsert_route :
    RoutingTable → Callsign → List ℕ → List ℕ → Callsign → ℕ → ℕ → RoutingTable
upsert_route t destination alias port_id via quality min_quality =
    upsert_found t (map_get (to_text destination) t.destinations) destination alias port_id via
      quality (is_acceptable quality min_quality)

-- The INP3 metric laid over the quality route of the same neighbour, or on a route of its own.
unfoldable pub with_metric :
    ℕ → Option RouteState → List ℕ → Callsign → Inp3RouteMetric → RouteState
with_metric obsolete_initial none port_id via metric = record {
  neighbour = via;
  port_id = port_id;
  quality = netrom_quality_min;
  obsolescence = obsolete_initial;
  inp3 = some metric;
}
with_metric obsolete_initial (some existing) port_id via metric = record existing {
  obsolescence = obsolete_initial;
  inp3 = some metric;
}

unfoldable pub store_inp3_route :
    RoutingTable → List ℕ → DestinationState → List ℕ → Callsign → Inp3RouteMetric → RoutingTable
store_inp3_route t dest_key dest port_id via metric =
    let via_key = neighbour_key port_id via in
    set_destination t dest_key (
      enforce_route_cap t (record dest {
        routes =
            map_set via_key
              (with_metric t.options.obsolete_initial (map_get via_key dest.routes) port_id via
                metric)
              dest.routes;
      }))

unfoldable pub upsert_inp3_found :
    RoutingTable
    → Option DestinationState
    → Callsign
    → List ℕ
    → List ℕ
    → Callsign
    → Inp3RouteMetric
    → RoutingTable
upsert_inp3_found t none destination alias port_id via metric =
    if is_full t
    then t
    else store_inp3_route (add_destination t destination alias) (to_text destination)
        (record { alias = alias; routes = [] }) port_id via metric
upsert_inp3_found t (some found) destination alias port_id via metric =
    store_inp3_route t (to_text destination) (rename alias found) port_id via metric

unfoldable pub upsert_inp3_route :
    RoutingTable → Callsign → List ℕ → List ℕ → Callsign → Inp3RouteMetric → RoutingTable
upsert_inp3_route t destination alias port_id via metric =
    upsert_inp3_found t (map_get (to_text destination) t.destinations) destination alias port_id via
      metric

abbrev pub has_metric : Option Inp3RouteMetric → Bool
has_metric none = false
has_metric (some metric) = true

unfoldable pub any_inp3 : TextMap RouteState → Bool
any_inp3 [] = false
any_inp3 (e ∷ m) = has_metric (e.1).inp3 || any_inp3 m

unfoldable pub any_inp3_in : Option DestinationState → Bool
any_inp3_in none = false
any_inp3_in (some dest) = any_inp3 dest.routes

abbrev pub has_any_inp3_route : RoutingTable → List ℕ → Bool
has_any_inp3_route t dest_key = any_inp3_in (map_get dest_key t.destinations)

-- The INP3 part of a route goes, and the route with it unless its quality can be used.
unfoldable pub without_metric :
    RoutingTable → List ℕ → List ℕ → DestinationState → RouteState → RoutingTable
without_metric t dest_key via_key dest route =
    if ltb netrom_quality_min route.quality && leb t.options.min_quality route.quality
    then set_destination t dest_key
        (record dest { routes = map_set via_key (record route { inp3 = none }) dest.routes })
    else drop_route t dest_key via_key dest

unfoldable pub note_withdrawn : RoutingTable → List ℕ → Callsign → RoutingTable
note_withdrawn t dest_key destination =
    if has_any_inp3_route t dest_key
    then t
    else record t { recently_withdrawn_set = map_set dest_key destination t.recently_withdrawn_set }

unfoldable pub withdraw_route :
    RoutingTable → Callsign → List ℕ → DestinationState → Option RouteState → RoutingTable
withdraw_route t destination via_key dest none = t
withdraw_route t destination via_key dest (some route) =
    if not (has_metric route.inp3)
    then t
    else note_withdrawn (without_metric t (to_text destination) via_key dest route)
        (to_text destination) destination

unfoldable pub withdraw_found :
    RoutingTable → Option DestinationState → Callsign → List ℕ → RoutingTable
withdraw_found t none destination via_key = t
withdraw_found t (some dest) destination via_key =
    withdraw_route t destination via_key dest (map_get via_key dest.routes)

unfoldable pub withdraw_inp3 : RoutingTable → Callsign → List ℕ → Callsign → RoutingTable
withdraw_inp3 t destination port_id via =
    withdraw_found t (map_get (to_text destination) t.destinations) destination
      (neighbour_key port_id via)
