-- ===== src/NetRom/Routing/Adverts.antt =====
-- netrom/routing-table.ts: what the table tells others, as quality entries, as a routing information
-- frame and as a snapshot. A key without a callsign, which no operation makes, is passed over.
use Prim.Native.Nat.{Ordering, compare}
use ax25_ts.Base.{
  Bool, List, Option, [], false, get_elem?, if◌then◌else◌, is_empty, leb, ltb, map, min, none, some,
  take, ℕ, ◌&&◌, ◌*◌, ◌++◌, ◌-◌, ◌/◌, ◌||◌, ◌∷◌,
}
use ax25_ts.Base.Maps.{map_get, mem_text, text_eq, values}
use ax25_ts.Callsign.{Callsign}
use ax25_ts.Callsign.Text.{equals, to_text}
use ax25_ts.Kiss.{emitted}
use ax25_ts.NetRom.Inp3.{Inp3Rif, Inp3Rip, inp3_horizon_ms}
use ax25_ts.NetRom.Nodes.{NodesRoutingEntry}
use ax25_ts.NetRom.Packet.{and_then_some}
use ax25_ts.NetRom.Quality.{netrom_quality_min}
use ax25_ts.NetRom.Routing.{
  DestinationState, Inp3RouteMetric, NeighbourState, RouteState, RoutingTable, advert_precedence,
  compare_ordinal, compare_ports, or_else, route_order, sort,
}

-- The elements of a list that give a value.
unfoldable pub cons_some {ℓ} : {B : Type ℓ} → Option B → List B → List B
cons_some none rest = rest
cons_some (some b) rest = b ∷ rest

unfoldable pub collect {ℓ κ} : {A : Type ℓ} {B : Type κ} → (A → Option B) → List A → List B
collect f [] = []
collect f (a ∷ xs) = cons_some (f a) (collect f xs)

abbrev pub Entry : Type 0
Entry = List ℕ × DestinationState

-- `precedence > 0 ? candidate : incumbent`.
unfoldable pub prefer : Ordering → RouteState → RouteState → RouteState
prefer Ordering.lt candidate incumbent = incumbent
prefer Ordering.eq candidate incumbent = incumbent
prefer Ordering.gt candidate incumbent = candidate

unfoldable pub better_route : RoutingTable → Option RouteState → RouteState → RouteState
better_route t none route = route
better_route t (some best) route = prefer (advert_precedence t route best) route best

-- The loop that finds the best route.
unfoldable pub best_of : RoutingTable → Option RouteState → List RouteState → Option RouteState
best_of t best [] = best
best_of t best (route ∷ routes) = best_of t (some (better_route t best route)) routes

unfoldable pub advert_of_best :
    ℕ → DestinationState → Callsign → Option RouteState → Option NodesRoutingEntry
advert_of_best obsolete_minimum dest destination none = none
advert_of_best obsolete_minimum dest destination (some best) =
    if leb best.quality netrom_quality_min
    then none
    else if ltb best.obsolescence obsolete_minimum
    then none
    else some (record {
      destination = destination;
      destination_alias = dest.alias;
      best_neighbour = best.neighbour;
      best_quality = best.quality;
    })

unfoldable pub advert_entry : RoutingTable → ℕ → Entry → Option NodesRoutingEntry
advert_entry t obsolete_minimum e = and_then_some (map_get e.0 t.callsign_by_key) (λ destination.
    advert_of_best obsolete_minimum e.1 destination (best_of t none (values (e.1).routes)))

unfoldable pub advert_order : NodesRoutingEntry → NodesRoutingEntry → Ordering
advert_order a b =
    or_else (compare b.best_quality a.best_quality)
      (compare_ordinal (to_text a.destination) (to_text b.destination))

unfoldable pub build_advertisement : RoutingTable → ℕ → List NodesRoutingEntry
build_advertisement t obsolete_minimum =
    sort advert_order (collect (advert_entry t obsolete_minimum) t.destinations)

unfoldable pub is_via : List ℕ → List RouteState → Bool
is_via target_key [] = false
is_via target_key (r ∷ rs) = text_eq (to_text r.neighbour) target_key || is_via target_key rs

unfoldable pub faster : Option Inp3RouteMetric → Option Inp3RouteMetric → Option Inp3RouteMetric
faster best none = best
faster none (some metric) = some metric
faster (some best) (some metric) =
    if ltb metric.target_time_ms best.target_time_ms then some metric else some best

unfoldable pub best_inp3 : Option Inp3RouteMetric → List RouteState → Option Inp3RouteMetric
best_inp3 best [] = best
best_inp3 best (r ∷ rs) = best_inp3 (faster best r.inp3) rs

-- Whole units of 10 ms, and below the horizon.
unfoldable pub quantise10 : ℕ → ℕ
quantise10 target_time_ms = min (target_time_ms / 10 * 10) (inp3_horizon_ms - 10)

-- A RIP with the time by which it is ordered.
abbrev pub TimedRip : Type 0
TimedRip = Inp3Rip × ℕ

unfoldable pub rip_of_metric : Bool → Callsign → Option Inp3RouteMetric → Option TimedRip
rip_of_metric poison destination none = none
rip_of_metric poison destination (some metric) = some (
  record {
    destination = destination;
    hop_count = metric.hop_count;
    target_time_ms = if poison then inp3_horizon_ms else quantise10 metric.target_time_ms;
    tlvs = [];
  },
  metric.target_time_ms,
)

unfoldable pub rip_entry : RoutingTable → List ℕ → List ℕ → Entry → Option TimedRip
rip_entry t my_key target_key e =
    if text_eq e.0 my_key
    then none
    else and_then_some (map_get e.0 t.callsign_by_key) (λ destination.
      rip_of_metric (is_via target_key (values (e.1).routes)) destination
        (best_inp3 none (values (e.1).routes)))

unfoldable pub rip_order : TimedRip → TimedRip → Ordering
rip_order a b =
    or_else (compare a.1 b.1)
      (compare_ordinal (to_text (a.0).destination) (to_text (b.0).destination))

unfoldable pub call_order : Callsign → Callsign → Ordering
call_order a b = compare_ordinal (to_text a) (to_text b)

abbrev pub rip_at : ℕ → Callsign → Inp3Rip
rip_at target_time_ms destination = record {
  destination = destination;
  hop_count = 0;
  target_time_ms = target_time_ms;
  tlvs = [];
}

-- A destination that was withdrawn and is not among those sent.
unfoldable pub withdrawn_rip : List ℕ → List (List ℕ) → Callsign → Option Inp3Rip
withdrawn_rip my_key emitted wd =
    if text_eq (to_text wd) my_key || mem_text (to_text wd) emitted
    then none
    else some (rip_at inp3_horizon_ms wd)

unfoldable pub ordered_rips : RoutingTable → List ℕ → List ℕ → List Inp3Rip
ordered_rips t my_key target_key =
    map (λ x. x.0) (sort rip_order (collect (rip_entry t my_key target_key) t.destinations))

unfoldable pub build_rif : RoutingTable → Callsign → Callsign → List Callsign → Inp3Rif
build_rif t my_call to_target_neighbour recently_withdrawn =
    let my_key = to_text my_call in
    let ordered = ordered_rips t my_key (to_text to_target_neighbour) in
    let emitted = map (λ r. to_text r.destination) ordered in
    record {
      rips =
          rip_at 0 my_call
          ∷ (ordered
              ++ collect (withdrawn_rip my_key emitted) (sort call_order recently_withdrawn));
    }

unfoldable pub key_order : List ℕ × Callsign → List ℕ × Callsign → Ordering
key_order a b = compare_ordinal a.0 b.0

unfoldable pub recently_withdrawn : RoutingTable → List Callsign
recently_withdrawn t = values (sort key_order t.recently_withdrawn_set)

unfoldable pub drain_recently_withdrawn : RoutingTable → RoutingTable × List Callsign
drain_recently_withdrawn t = (record t { recently_withdrawn_set = [] }, recently_withdrawn t)

pub record Destination : Type 0 where
  pub destination : Callsign
  pub alias : List ℕ
  pub routes : List RouteState
  pub best_route : Option RouteState

pub record Snapshot : Type 0 where
  pub destinations : List Destination
  pub neighbours : List NeighbourState
  pub generated_at : ℕ

-- `toUpperCase` on the printable characters.
abbrev upper : List ℕ → List ℕ
upper cs = map (λ c. if leb 0x61 c && leb c 0x7a then c - 0x20 else c) cs

abbrev pub compare_case_insensitive : List ℕ → List ℕ → Ordering
compare_case_insensitive a b = compare_ordinal (upper a) (upper b)

unfoldable pub destination_of : RoutingTable → Entry → Option Destination
destination_of t e = and_then_some (map_get e.0 t.callsign_by_key) (λ destination.
    let routes =
      take t.options.max_routes_per_destination (sort (route_order t) (values (e.1).routes)) in
    some (record {
      destination = destination;
      alias = (e.1).alias;
      routes = routes;
      best_route = get_elem? routes 0;
    }))

abbrev label : Destination → List ℕ
label d = if is_empty d.alias then to_text d.destination else d.alias

unfoldable pub destination_order : Destination → Destination → Ordering
destination_order a b =
    or_else (compare_case_insensitive (label a) (label b))
      (compare_ordinal (to_text a.destination) (to_text b.destination))

unfoldable pub neighbour_order : RoutingTable → NeighbourState → NeighbourState → Ordering
neighbour_order t a b =
    or_else (compare_ordinal (to_text a.neighbour) (to_text b.neighbour))
      (compare_ports t a.port_id b.port_id)

unfoldable pub snapshot : RoutingTable → ℕ → Snapshot
snapshot t now = record {
  destinations = sort destination_order (collect (destination_of t) t.destinations);
  neighbours = sort (neighbour_order t) (values t.neighbours);
  generated_at = now;
}

unfoldable pub first_neighbour : List NeighbourState → Callsign → Option NeighbourState
first_neighbour [] neighbour = none
first_neighbour (n ∷ ns) neighbour =
    if equals n.neighbour neighbour then some n else first_neighbour ns neighbour

abbrev pub neighbour_for : Snapshot → Callsign → Option NeighbourState
neighbour_for s neighbour = first_neighbour s.neighbours neighbour
