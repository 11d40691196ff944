-- ===== src/NetRom/Forwarding.antt =====
-- netrom/forwarding.ts: what is done with a packet for another node. The default mode is an argument.
pub mod Selection
pub mod Onward
pub mod Liveness
pub mod Runs
use Prim.Native.Nat.{Ordering, bit_xor}
use ax25_ts.Base.{
  Bool, List, Option, [], false, if◌then◌else◌, ltb, min, none, not, some, true, ℕ, ◌%◌, ◌&&◌, ◌*◌,
  ◌++◌, ◌+◌, ◌-◌, ◌==◌, ◌^◌, ◌||◌, ◌∷◌,
}
use ax25_ts.Base.Maps.{text_eq}
use ax25_ts.Callsign.{Callsign}
use ax25_ts.Callsign.Text.{equals, to_text}
use ax25_ts.NetRom.Circuit.{Packet}
use ax25_ts.NetRom.ConnectInfo.{write_shifted}
use ax25_ts.NetRom.Routing.{Inp3RouteMetric, RouteState, compare_ordinal}
use ax25_ts.NetRom.Routing.Adverts.{Destination, Snapshot}

pub data ForwardOutcome : Type 0 where
  forward_to : ForwardOutcome
  drop_ttl_expired : ForwardOutcome
  drop_looped : ForwardOutcome
  drop_no_route : ForwardOutcome

pub data ForwardMode : Type 0 where
  best_route_mode : ForwardMode
  per_flow : ForwardMode

pub record ForwardDecision : Type 0 where
  pub outcome : ForwardOutcome
  pub packet : Packet
  pub next_hop : Option Callsign
  pub next_hop_port_id : Option (List ℕ)

unfoldable pub should_forward : ForwardDecision → Bool
should_forward decision = elim decision.outcome [ forward_to ↦ true | _ ↦ false ]

-- `compareOrdinal(a, b) < 0`.
unfoldable pub is_less : Ordering → Bool
is_less Ordering.lt = true
is_less Ordering.eq = false
is_less Ordering.gt = false

-- Whether the route, with metric `m`, comes before the best one so far, with metric `b`.
unfoldable pub is_earlier :
    RouteState → Inp3RouteMetric → RouteState → Option Inp3RouteMetric → Bool
is_earlier route m best none = true
is_earlier route m best (some b) =
    let call = to_text route.neighbour in
    let best_call = to_text best.neighbour in
    let same_time = m.target_time_ms == b.target_time_ms in
    let same_hops = m.hop_count == b.hop_count in
    ltb m.target_time_ms b.target_time_ms
    || (same_time && ltb m.hop_count b.hop_count)
    || (same_time && same_hops && is_less (compare_ordinal call best_call))
    || (same_time
        && same_hops
        && text_eq call best_call
        && is_less (compare_ordinal route.port_id best.port_id))

unfoldable pub or_earlier : RouteState → Inp3RouteMetric → Option RouteState → Option RouteState
or_earlier route m none = some route
or_earlier route m (some best) = if is_earlier route m best best.inp3 then some route else some best

-- One turn of the loop of `selectInp3NextHop`.
unfoldable pub consider_timed :
    Callsign → RouteState → Option Inp3RouteMetric → Option RouteState → Option RouteState
consider_timed from route none best = best
consider_timed from route (some m) best =
    if equals route.neighbour from then best else or_earlier route m best

unfoldable pub select_inp3_loop : Callsign → Option RouteState → List RouteState → Option RouteState
select_inp3_loop from best [] = best
select_inp3_loop from best (route ∷ routes) =
    select_inp3_loop from (consider_timed from route route.inp3 best) routes

abbrev pub select_inp3_next_hop : List RouteState → Callsign → Option RouteState
select_inp3_next_hop routes received_from = select_inp3_loop received_from none routes

unfoldable pub select_best : List RouteState → Callsign → Option RouteState
select_best [] received_from = none
select_best (route ∷ routes) received_from =
    let rest = select_best routes received_from in
    if not (equals route.neighbour received_from) then some route else rest

-- The first loop of `selectWeighted`.
unfoldable pub total_quality : Callsign → List RouteState → ℕ
total_quality from [] = 0
total_quality from (route ∷ routes) =
    let rest = total_quality from routes in
    if not (equals route.neighbour from) && ltb 0 route.quality then route.quality + rest else rest

-- The second.
unfoldable pub pick_weighted : Callsign → List RouteState → ℕ → Option RouteState
pick_weighted from [] target = none
pick_weighted from (route ∷ routes) target =
    if equals route.neighbour from || route.quality == 0
    then pick_weighted from routes target
    else if ltb target route.quality
    then some route
    else pick_weighted from routes (target - route.quality)

unfoldable pub select_weighted : List RouteState → Callsign → ℕ → Option RouteState
select_weighted routes received_from flow_hash_value =
    let total = total_quality received_from routes in
    if total == 0 then none else pick_weighted received_from routes (flow_hash_value % total)

-- FNV-1a on 32 bits.
unfoldable pub fnv_1a : ℕ → List ℕ → ℕ
fnv_1a hash [] = hash
fnv_1a hash (b ∷ bs) = fnv_1a (bit_xor hash b * 0x01000193 % 2 ^ 32) bs

unfoldable pub flow_hash : Packet → ℕ
flow_hash packet = fnv_1a 0x811c9dc5 (
    write_shifted packet.origin
    ++ (packet.transport.circuit_index % 256 ∷ packet.transport.circuit_id % 256 ∷ []))

unfoldable pub select_next_hop :
    ForwardMode → List RouteState → Callsign → Packet → Option RouteState
select_next_hop per_flow routes received_from packet =
    select_weighted routes received_from (flow_hash packet)
select_next_hop best_route_mode routes received_from packet = select_best routes received_from

-- `destinations.find`.
unfoldable pub find_destination : Callsign → List Destination → Option Destination
find_destination call [] = none
find_destination call (d ∷ ds) =
    let rest = find_destination call ds in if equals d.destination call then some d else rest

-- `if (onward === null)`.
unfoldable pub or_next : Option RouteState → Option RouteState → Option RouteState
or_next none next = next
or_next (some route) next = some route

unfoldable pub onward_of :
    ForwardMode → Bool → Callsign → Packet → Option Destination → Option RouteState
onward_of mode prefer_inp3_routes received_from packet none = none
onward_of mode prefer_inp3_routes received_from packet (some resolved) =
    or_next
      (if prefer_inp3_routes then select_inp3_next_hop resolved.routes received_from else none)
      (select_next_hop mode resolved.routes received_from packet)

abbrev pub dropped : ForwardOutcome → Packet → ForwardDecision
dropped outcome packet = record {
  outcome = outcome;
  packet = packet;
  next_hop = none;
  next_hop_port_id = none;
}

unfoldable pub forward_over : Packet → ℕ → Option RouteState → ForwardDecision
forward_over packet capped_ttl none = dropped drop_no_route packet
forward_over packet capped_ttl (some onward) = record {
  outcome = forward_to;
  packet = record packet { time_to_live = capped_ttl };
  next_hop = some onward.neighbour;
  next_hop_port_id = some onward.port_id;
}

unfoldable pub decide_forward :
    Packet → Callsign → Callsign → Snapshot → ℕ → ForwardMode → Bool → ForwardDecision
decide_forward packet received_from node_call routing max_time_to_live mode prefer_inp3_routes =
    let ttl = packet.time_to_live in
    let decremented = if ttl == 0 then 0 else ttl - 1 in
    if decremented == 0
    then dropped drop_ttl_expired packet
    else if equals packet.origin node_call
    then dropped drop_looped packet
    else forward_over packet (min decremented max_time_to_live) (
        onward_of mode prefer_inp3_routes received_from packet
          (find_destination packet.destination routing.destinations))
