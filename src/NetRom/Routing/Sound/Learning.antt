-- ===== src/NetRom/Routing/Sound/Learning.antt =====
-- netrom/routing-table.ts: learning and withdrawing keep a table sound.
use ax25_ts.Base.{
  All, Bool, Bool-cases, List, Option, [], arith, inl, inr, leb, ltb, none, not, refl, some, ℕ,
  ◌&&◌, ◌||◌, ◌∷◌, ◌≡◌, ◌≤◌,
}
use ax25_ts.Base.Maps.{
  All-get, All-set, HasDistinctKeys, HasDistinctKeys-set, TextMap, length-set-le, length-set_known,
  map_get, map_set, set-set,
}
use ax25_ts.Callsign.{Callsign}
use ax25_ts.Callsign.Text.{to_text}
use ax25_ts.NetRom.Quality.{netrom_quality_min}
use ax25_ts.NetRom.Routing.{
  DestinationState, Inp3RouteMetric, RouteState, RoutingOptions, RoutingTable, neighbour_key,
}
use ax25_ts.NetRom.Routing.Routes.{
  add_destination, enforce_route_cap, has_any_inp3_route, has_metric, is_full, note_withdrawn,
  rename, set_destination, store_inp3_route, store_route, upsert_found, upsert_inp3_found,
  with_metric, withdraw_found, withdraw_route, without_metric,
}
use ax25_ts.NetRom.Routing.Sound.{AreRoutes, IsKeyed, IsSound, enforce_route_cap-AreRoutes}
use ax25_ts.NetRom.Routing.Sound.Changes.{
  add-IsSound, drop_route-IsSound, routes_found, set_destination-IsSound,
}

-- A route put among keyed routes, and the cap enforced.
capped-AreRoutes :
    (t : RoutingTable) (dest : DestinationState) (route : RouteState) (key : List ℕ)
    → 1 ≤ t.options.max_routes_per_destination
    → All IsKeyed dest.routes
    → HasDistinctKeys dest.routes
    → key ≡ neighbour_key route.port_id route.neighbour
    → AreRoutes t.options.max_routes_per_destination
        (enforce_route_cap t (record dest { routes = map_set key route dest.routes })).routes
capped-AreRoutes t dest route key h k d e =
    enforce_route_cap-AreRoutes t (record dest { routes = map_set key route dest.routes }) h
      (length-set-le key route dest.routes).0 (All-set IsKeyed key route dest.routes e k)
      (HasDistinctKeys-set key route dest.routes d)

rename-routes :
    (alias : List ℕ) (dest : DestinationState) → (rename alias dest).routes ≡ dest.routes
unfolding rename
rename-routes [] dest = refl
rename-routes (c ∷ cs) dest = refl

rename-AreRoutes :
    (limit : ℕ) (alias : List ℕ) (dest : DestinationState)
    → AreRoutes limit dest.routes
    → AreRoutes limit (rename alias dest).routes
rename-AreRoutes limit alias dest r = rw (rename-routes alias dest) r

add_destination-set :
    (t : RoutingTable) (c : Callsign) (alias : List ℕ) (dest : DestinationState)
    → set_destination (add_destination t c alias) (to_text c) dest ≡ record t {
      destinations = map_set (to_text c) dest t.destinations;
      callsign_by_key = map_set (to_text c) c t.callsign_by_key;
    }
unfolding set_destination add_destination
add_destination-set t c alias dest =
    rw (set-set (to_text c) dest (record { alias = alias; routes = [] }) t.destinations) refl

pub upsert_found-IsSound :
    {o : RoutingOptions} (t : RoutingTable) (found : Option DestinationState) (c : Callsign)
    (alias port_id : List ℕ) (via : Callsign) (quality : ℕ) (acceptable : Bool)
    → IsSound o t
    → map_get (to_text c) t.destinations ≡ found
    → IsSound o (upsert_found t found c alias port_id via quality acceptable)
unfolding upsert_found store_route add_destination
upsert_found-IsSound t none c alias port_id via quality acceptable s e =
    elim (Bool-cases (not acceptable || is_full t)) [
      | inl idle ↦ rw idle s
      | inr news ↦
          rw (news, add_destination-set)
            (add-IsSound t c _ s e (ground arith) (
              capped-AreRoutes (add_destination t c alias) (record { alias = alias; routes = [] }) _
                _ s.some_room tt tt refl))
    ]
upsert_found-IsSound t (some found) c alias port_id via quality acceptable s e =
    let old = rename-AreRoutes _ alias found (routes_found t (to_text c) found s e) in
    elim (Bool-cases acceptable) [
      | inl good ↦ rw good (
          set_destination-IsSound t (to_text c) found _ s e
            (capped-AreRoutes t (rename alias found) _ _ s.some_room old.keyed old.distinct refl))
      | inr bad ↦ rw bad (drop_route-IsSound t (to_text c) _ found (rename alias found) s e old)
    ]

with_metric-keyed :
    (initial : ℕ) (old : Option RouteState) (port_id : List ℕ) (via : Callsign)
    (metric : Inp3RouteMetric) (routes : TextMap RouteState)
    → All IsKeyed routes
    → map_get (neighbour_key port_id via) routes ≡ old
    → neighbour_key port_id via
      ≡ neighbour_key
          (with_metric initial old port_id via metric).port_id
          (with_metric initial old port_id via metric).neighbour
unfolding with_metric
with_metric-keyed initial none port_id via metric routes k e = refl
with_metric-keyed initial (some existing) port_id via metric routes k e =
    All-get IsKeyed (neighbour_key port_id via) existing routes k e

pub upsert_inp3_found-IsSound :
    {o : RoutingOptions} (t : RoutingTable) (found : Option DestinationState) (c : Callsign)
    (alias port_id : List ℕ) (via : Callsign) (metric : Inp3RouteMetric)
    → IsSound o t
    → map_get (to_text c) t.destinations ≡ found
    → IsSound o (upsert_inp3_found t found c alias port_id via metric)
unfolding upsert_inp3_found store_inp3_route add_destination
upsert_inp3_found-IsSound t none c alias port_id via metric s e = elim (Bool-cases (is_full t)) [
  | inl idle ↦ rw idle s
  | inr news ↦
      rw (news, add_destination-set)
        (add-IsSound t c _ s e (ground arith) (
          capped-AreRoutes (add_destination t c alias) (record { alias = alias; routes = [] }) _ _
            s.some_room tt tt (with_metric-keyed _ _ port_id via metric [] tt refl)))
]
upsert_inp3_found-IsSound t (some found) c alias port_id via metric s e =
    let old = rename-AreRoutes _ alias found (routes_found t (to_text c) found s e) in
    set_destination-IsSound t (to_text c) found _ s e (
      capped-AreRoutes t (rename alias found) _ _ s.some_room old.keyed old.distinct
        (with_metric-keyed _ _ port_id via metric (rename alias found).routes old.keyed refl))

note_withdrawn-IsSound :
    {o : RoutingOptions} (t : RoutingTable) (key : List ℕ) (c : Callsign)
    → IsSound o t
    → IsSound o (note_withdrawn t key c)
unfolding note_withdrawn
note_withdrawn-IsSound t key c s = elim (Bool-cases (has_any_inp3_route t key)) [
  | inl e ↦ rw e s
  | inr f ↦ rw f (record {
    same_options = s.same_options;
    some_room = s.some_room;
    bounded = s.bounded;
    distinct = s.distinct;
    entries = s.entries;
  })
]

without_metric-IsSound :
    {o : RoutingOptions} (t : RoutingTable) (key via : List ℕ) (dest : DestinationState)
    (route : RouteState)
    → IsSound o t
    → map_get key t.destinations ≡ some dest
    → map_get via dest.routes ≡ some route
    → IsSound o (without_metric t key via dest route)
unfolding without_metric
without_metric-IsSound t key via dest route s e f =
    let old = routes_found t key dest s e in
    elim (Bool-cases
      (ltb netrom_quality_min route.quality && leb t.options.min_quality route.quality)) [
        | inl usable ↦ rw usable (
            set_destination-IsSound t key dest _ s e (record {
              some_route = (length-set-le via _ dest.routes).0;
              capped = omega (
                arith,
                old.capped,
                length-set_known via (record route { inp3 = none }) route dest.routes f,
              );
              keyed =
                  All-set IsKeyed via _ dest.routes
                    (All-get IsKeyed via route dest.routes old.keyed f) old.keyed;
              distinct = HasDistinctKeys-set via _ dest.routes old.distinct;
            }))
        | inr useless ↦ rw useless (drop_route-IsSound t key via dest dest s e old)
      ]

withdraw_route-IsSound :
    {o : RoutingOptions} (t : RoutingTable) (c : Callsign) (via : List ℕ) (dest : DestinationState)
    (route : Option RouteState)
    → IsSound o t
    → map_get (to_text c) t.destinations ≡ some dest
    → map_get via dest.routes ≡ route
    → IsSound o (withdraw_route t c via dest route)
unfolding withdraw_route
withdraw_route-IsSound t c via dest none s e f = s
withdraw_route-IsSound t c via dest (some route) s e f =
    elim (Bool-cases (not (has_metric route.inp3))) [
      | inl nothing ↦ rw nothing s
      | inr metric ↦ rw metric (
          note_withdrawn-IsSound (without_metric t (to_text c) via dest route) (to_text c) c
            (without_metric-IsSound t (to_text c) via dest route s e f))
    ]

pub withdraw_found-IsSound :
    {o : RoutingOptions} (t : RoutingTable) (found : Option DestinationState) (c : Callsign)
    (via : List ℕ)
    → IsSound o t
    → map_get (to_text c) t.destinations ≡ found
    → IsSound o (withdraw_found t found c via)
unfolding withdraw_found
withdraw_found-IsSound t none c via s e = s
withdraw_found-IsSound t (some dest) c via s e =
    withdraw_route-IsSound t c via dest (map_get via dest.routes) s e refl
