-- ===== src/NetRom/Forwarding/Onward.antt =====
-- netrom/forwarding.ts: which packets are forwarded, and over which route.
use ax25_ts.Base.{
  All, All-imp, Bool, Bool-cases, Has, Has-imp, List, Option, [], ap, arith, false, if◌then◌else◌,
  inl, inr, min, none, refl, some, subst, sym, true, ℕ, ◌-◌, ◌==◌, ◌∷◌, ◌≡◌, ◌≤◌,
}
use ax25_ts.Callsign.{Callsign}
use ax25_ts.Callsign.Text.{equals}
use ax25_ts.NetRom.Circuit.{Packet}
use ax25_ts.NetRom.Forwarding.{
  ForwardDecision, ForwardMode, best_route_mode, decide_forward, find_destination, flow_hash,
  forward_over, forward_to, onward_of, or_next, per_flow, select_next_hop,
}
use ax25_ts.NetRom.Forwarding.Selection.{
  Elsewhere, IfSome, select_best-IfSome, select_inp3_loop-IfSome, select_weighted-IfSome,
}
use ax25_ts.NetRom.Routing.{RouteState}
use ax25_ts.NetRom.Routing.Adverts.{Destination, Snapshot}

-- The way on: not back, and a route to the destination.
abbrev IsWayOn : Callsign → List RouteState → RouteState → Type 0
IsWayOn from routes route = (equals route.neighbour from ≡ false) × Has (λ r. r ≡ route) routes

ways_on :
    (from : Callsign) (routes : List RouteState) → All (Elsewhere from (IsWayOn from routes)) routes
ways_on from [] = tt
ways_on from (route ∷ routes) = (
  λ other. (other, inl refl),
  All-imp (Elsewhere from (IsWayOn from routes)) (Elsewhere from (IsWayOn from (route ∷ routes)))
      (λ r w other. (other, inr (w other).1)) routes (ways_on from routes),
)

select_next_hop-IfSome :
    (mode : ForwardMode) (routes : List RouteState) (from : Callsign) (packet : Packet)
    → IfSome (IsWayOn from routes) (select_next_hop mode routes from packet)
unfolding select_next_hop
select_next_hop-IfSome per_flow routes from packet =
    select_weighted-IfSome from (IsWayOn from routes) routes (flow_hash packet)
      (ways_on from routes)
select_next_hop-IfSome best_route_mode routes from packet =
    select_best-IfSome from (IsWayOn from routes) routes (ways_on from routes)

or_next-IfSome :
    (P : RouteState → Type 0) (found next : Option RouteState)
    → IfSome P found
    → IfSome P next
    → IfSome P (or_next found next)
unfolding or_next
or_next-IfSome P none next f n = n
or_next-IfSome P (some route) next f n = f

onward_of-IfSome :
    (mode : ForwardMode) (inp3_first : Bool) (from : Callsign) (packet : Packet) (d : Destination)
    → IfSome (IsWayOn from d.routes) (onward_of mode inp3_first from packet (some d))
unfolding onward_of or_next
onward_of-IfSome mode true from packet d =
    or_next-IfSome (IsWayOn from d.routes) _ _
      (select_inp3_loop-IfSome from (IsWayOn from d.routes) none d.routes (ways_on from d.routes)
        tt)
      (select_next_hop-IfSome mode d.routes from packet)
onward_of-IfSome mode false from packet d = select_next_hop-IfSome mode d.routes from packet

-- A route of a destination in the snapshot, but not the way the packet came.
abbrev pub HasWayOn : Packet → Callsign → Snapshot → ForwardDecision → Type 0
HasWayOn packet from routing decision =
    Has
      (λ d.
        (equals d.destination packet.destination ≡ true)
        × Has
            (λ r.
              (equals r.neighbour from ≡ false)
              × (decision.next_hop ≡ some r.neighbour)
              × (decision.next_hop_port_id ≡ some r.port_id))
            d.routes)
      routing.destinations

-- What a decision to forward promises.
pub record IsOnward (packet : Packet) (from node_call : Callsign) (routing : Snapshot)
    (max_time_to_live : ℕ) (decision : ForwardDecision) : Type 0 where
  pub lives : 2 ≤ packet.time_to_live
  pub not_looped : equals packet.origin node_call ≡ false
  pub sent_packet :
      decision.packet
      ≡ record packet { time_to_live = min (packet.time_to_live - 1) max_time_to_live }
  pub over : HasWayOn packet from routing decision

find_destination-Has :
    (Q : Destination → Type 0) (call : Callsign) (ds : List Destination) (d : Destination)
    → find_destination call ds ≡ some d
    → Q d
    → Has (λ x. (equals x.destination call ≡ true) × Q x) ds
unfolding find_destination
find_destination-Has Q call [] d e q = absurd (cc)
find_destination-Has Q call (x ∷ ds) d e q = elim (Bool-cases (equals x.destination call)) [
  | inl here ↦ let same : x ≡ d = cc (rw (here) at e) in inl (here, subst Q (sym same) q)
  | inr other ↦ inr (find_destination-Has Q call ds d (rw (other) at e) q)
]

-- `IsOnward` of what is made of the route that is found.
forward_over-HasWayOn :
    (packet : Packet) (ttl : ℕ) (from : Callsign) (routing : Snapshot) (d : Destination)
    (found : Option RouteState)
    → find_destination packet.destination routing.destinations ≡ some d
    → IfSome (IsWayOn from d.routes) found
    → (forward_over packet ttl found).outcome ≡ forward_to
    → ((forward_over packet ttl found).packet ≡ record packet { time_to_live = ttl })
      × HasWayOn packet from routing (forward_over packet ttl found)
unfolding forward_over
forward_over-HasWayOn packet ttl from routing d none e w h = absurd (cc h)
forward_over-HasWayOn packet ttl from routing d (some route) e w h = (
  refl,
  find_destination-Has _ packet.destination routing.destinations d e (
      Has-imp (λ r. r ≡ route) _
        (λ r same. (
          subst (λ x. equals x.neighbour from ≡ false) (sym same) w.0,
          ap (λ x. some x.neighbour) (sym same),
          ap (λ x. some x.port_id) (sym same),
        ))
        d.routes w.1),
)

nowhere :
    (packet : Packet) (ttl : ℕ) (from : Callsign) (mode : ForwardMode) (inp3_first : Bool)
    → ¬ (
        (forward_over packet ttl (onward_of mode inp3_first from packet none)).outcome ≡ forward_to)
unfolding forward_over onward_of
nowhere packet ttl from mode inp3_first h = cc h

onward_of-HasWayOn :
    (packet : Packet) (ttl : ℕ) (from : Callsign) (routing : Snapshot) (mode : ForwardMode)
    (inp3_first : Bool) (found : Option Destination)
    → find_destination packet.destination routing.destinations ≡ found
    → (forward_over packet ttl (onward_of mode inp3_first from packet found)).outcome ≡ forward_to
    → ((forward_over packet ttl (onward_of mode inp3_first from packet found)).packet
        ≡ record packet { time_to_live = ttl })
      × HasWayOn packet from routing
          (forward_over packet ttl (onward_of mode inp3_first from packet found))
onward_of-HasWayOn packet ttl from routing mode inp3_first none e h =
    absurd (nowhere packet ttl from mode inp3_first h)
onward_of-HasWayOn packet ttl from routing mode inp3_first (some d) e h =
    forward_over-HasWayOn packet ttl from routing d _ e
      (onward_of-IfSome mode inp3_first from packet d) h

-- The time to live that is left.
pub one_less : (ttl : ℕ) → (if ttl == 0 then 0 else ttl - 1) ≡ ttl - 1
one_less ttl = ground arith

-- A packet that is forwarded has at least 2 hops to live and does not come from the node itself. It is
-- sent on as it is, but for one hop less to live and no more than the node allows. The next hop, on its
-- port, is a route that the snapshot has for the destination of the packet, and it is not the neighbour
-- that the packet came from, in both modes and with or without INP3.
pub decide_forward-IsOnward :
    (packet : Packet) (from node_call : Callsign) (routing : Snapshot) (max_time_to_live : ℕ)
    (mode : ForwardMode) (inp3_first : Bool)
    → (decide_forward packet from node_call routing max_time_to_live mode inp3_first).outcome
      ≡ forward_to
    → IsOnward packet from node_call routing max_time_to_live
        (decide_forward packet from node_call routing max_time_to_live mode inp3_first)
unfolding decide_forward
decide_forward-IsOnward packet from node_call routing max_time_to_live mode inp3_first h =
    let ttl = packet.time_to_live in
    let left = one_less ttl in
    elim (Bool-cases (ttl - 1 == 0)) [
      | inl spent ↦ absurd (cc (rw (left, spent) at h))
      | inr lives ↦ elim (Bool-cases (equals packet.origin node_call)) [
        | inl looped ↦ absurd (cc (rw (left, lives, looped) at h))
        | inr other ↦
            let onward =
              onward_of-HasWayOn packet (min (ttl - 1) max_time_to_live) from routing mode
                inp3_first (find_destination packet.destination routing.destinations) refl
                (rw (left, lives, other) at h) in
            rw (left, lives, other)
              (record {
                lives = ground arith;
                not_looped = other;
                sent_packet = onward.0;
                over = onward.1;
              })
      ]
    ]
