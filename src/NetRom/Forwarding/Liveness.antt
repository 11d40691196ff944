-- ===== src/NetRom/Forwarding/Liveness.antt =====
-- netrom/forwarding.ts: that a packet with a usable route is forwarded.
use ax25_ts.Base.{
  All, Bool, Bool-cases, Has, List, Option, [], arith, false, inl, inr, ltb, none, not, refl, some,
  true, ℕ, ◌&&◌, ◌-◌, ◌<◌, ◌==◌, ◌∷◌, ◌≡◌, ◌≤◌,
}
use ax25_ts.Callsign.{Callsign}
use ax25_ts.Callsign.Text.{equals}
use ax25_ts.NetRom.Circuit.{Packet}
use ax25_ts.NetRom.Forwarding.{
  ForwardMode, best_route_mode, decide_forward, find_destination, flow_hash, forward_over,
  forward_to, onward_of, or_next, per_flow, select_best, select_next_hop, total_quality,
}
use ax25_ts.NetRom.Forwarding.Onward.{one_less}
use ax25_ts.NetRom.Forwarding.Selection.{Elsewhere, IsSome, select_weighted-IsSome}
use ax25_ts.NetRom.Routing.{RouteState}
use ax25_ts.NetRom.Routing.Adverts.{Destination, Snapshot}

abbrev IsForwardable : Callsign → RouteState → Type 0
IsForwardable from route = (equals route.neighbour from ≡ false) × (0 < route.quality)

total_quality-pos :
    (from : Callsign) (routes : List RouteState)
    → Has (IsForwardable from) routes
    → 0 < total_quality from routes
unfolding total_quality
total_quality-pos from [] h = absurd h
total_quality-pos from (route ∷ routes) (inl (other, q)) =
    let usable : ltb 0 route.quality ≡ true = ground arith in rw (other, usable) (omega arith)
total_quality-pos from (route ∷ routes) (inr h) =
    let rest = total_quality-pos from routes h in
    elim (Bool-cases (not (equals route.neighbour from) && ltb 0 route.quality)) [
      | inl counted ↦ rw (counted) (omega arith)
      | inr passed_over ↦ rw (passed_over) rest
    ]

select_best-IsSome :
    (from : Callsign) (routes : List RouteState)
    → Has (IsForwardable from) routes
    → IsSome (λ r. Unit) (select_best routes from)
unfolding select_best
select_best-IsSome from [] h = absurd h
select_best-IsSome from (route ∷ routes) (inl (other, q)) = rw (other) tt
select_best-IsSome from (route ∷ routes) (inr h) = elim (Bool-cases (equals route.neighbour from)) [
  | inl back ↦ rw (back) (select_best-IsSome from routes h)
  | inr other ↦ rw (other) tt
]

All-unit : (from : Callsign) (routes : List RouteState) → All (Elsewhere from (λ r. Unit)) routes
All-unit from [] = tt
All-unit from (route ∷ routes) = (λ other. tt, All-unit from routes)

select_next_hop-IsSome :
    (mode : ForwardMode) (from : Callsign) (packet : Packet) (routes : List RouteState)
    → Has (IsForwardable from) routes
    → IsSome (λ r. Unit) (select_next_hop mode routes from packet)
unfolding select_next_hop
select_next_hop-IsSome per_flow from packet routes h =
    select_weighted-IsSome from (λ r. Unit) routes (flow_hash packet) (All-unit from routes)
      (total_quality-pos from routes h)
select_next_hop-IsSome best_route_mode from packet routes h = select_best-IsSome from routes h

forward_over-next :
    (packet : Packet) (ttl : ℕ) (first next : Option RouteState)
    → IsSome (λ r. Unit) next
    → (forward_over packet ttl (or_next first next)).outcome ≡ forward_to
unfolding forward_over or_next
forward_over-next packet ttl none none h = absurd h
forward_over-next packet ttl none (some route) h = refl
forward_over-next packet ttl (some first) next h = refl

-- A packet is forwarded, in both modes and with or without INP3, when it has at least 2 hops to live,
-- does not come from the node itself, and its destination has a route of a quality above 0 to another
-- neighbour than the one it came from: the weighted choice does not end without a route.
pub decide_forward-forward_to :
    (packet : Packet) (from node_call : Callsign) (routing : Snapshot) (max_time_to_live : ℕ)
    (mode : ForwardMode) (inp3_first : Bool) (d : Destination)
    → 2 ≤ packet.time_to_live
    → equals packet.origin node_call ≡ false
    → find_destination packet.destination routing.destinations ≡ some d
    → Has (λ r. (equals r.neighbour from ≡ false) × (0 < r.quality)) d.routes
    → (decide_forward packet from node_call routing max_time_to_live mode inp3_first).outcome
      ≡ forward_to
unfolding decide_forward onward_of
decide_forward-forward_to packet from node_call routing max_time_to_live mode inp3_first d lives
      other found usable =
    let left = one_less packet.time_to_live in
    let more : (packet.time_to_live - 1 == 0) ≡ false = ground arith in
    rw (left, more, other, found)
      (forward_over-next packet _ _ (select_next_hop mode d.routes from packet)
        (select_next_hop-IsSome mode from packet d.routes usable))
