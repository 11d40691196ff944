-- ===== src/NetRom/Forwarding/Runs.antt =====
-- netrom/forwarding.ts on a packet for a node with two routes.
use ax25_ts.Base.{Has, [], ap, arith, false, inl, inr, refl, some, true, ℕ, ◌*◌, ◌<◌, ◌∷◌, ◌≡◌}
use ax25_ts.Base.Maps.{text_eq}
use ax25_ts.Callsign.{Callsign}
use ax25_ts.Callsign.Text.{equals}
use ax25_ts.NetRom.Circuit.{Packet}
use ax25_ts.NetRom.Forwarding.{
  consider_timed, decide_forward, find_destination, fnv_1a, forward_over, forward_to, onward_of,
  or_earlier, or_next, per_flow, select_inp3_loop,
}
use ax25_ts.NetRom.Forwarding.Liveness.{decide_forward-forward_to}
use ax25_ts.NetRom.Forwarding.Onward.{IsOnward, decide_forward-IsOnward}
use ax25_ts.NetRom.Routing.{RouteState}
use ax25_ts.NetRom.Routing.Adverts.{Destination, Snapshot}
use ax25_ts.NetRom.Transport.{information}

abbrev call_of : ℕ → Callsign
call_of c = record { base = 0x47 ∷ 0x42 ∷ 0x37 ∷ c ∷ []; ssid = 1 }

abbrev route_via : ℕ → ℕ → RouteState
route_via c quality = record {
  neighbour = call_of c;
  port_id = 0x76 ∷ [];
  quality = quality;
  obsolescence = 6;
  inp3 = some (record { target_time_ms = 100 * quality; hop_count = 2 });
}

-- Two routes, the better one the way that the packet comes.
abbrev far : Destination
far = record {
  destination = call_of 0x46;
  alias = [];
  routes = route_via 0x4e 200 ∷ route_via 0x4f 100 ∷ [];
  best_route = some (route_via 0x4e 200);
}

abbrev known : Snapshot
known = record { destinations = far ∷ []; neighbours = []; generated_at = 0 }

abbrev passing : ℕ → Packet
passing ttl = record {
  origin = call_of 0x53;
  destination = call_of 0x46;
  time_to_live = ttl;
  transport = record {
    circuit_index = 3;
    circuit_id = 4;
    tx_sequence = 5;
    rx_sequence = 6;
    opcode = information;
    flags = 0;
  };
  payload = 1 ∷ [];
}

passed_on :
    decide_forward (passing 9) (call_of 0x4e) (call_of 0x4d) known 7 per_flow true ≡ record {
      outcome = forward_to;
      packet = passing 7;
      next_hop = some (call_of 0x4f);
      next_hop_port_id = some (0x76 ∷ []);
    }
unfolding decide_forward equals text_eq forward_over onward_of find_destination or_next
    select_inp3_loop consider_timed or_earlier
passed_on = refl

-- FNV-1a of the octet 0x61.
hashed : fnv_1a 0x811c9dc5 (0x61 ∷ []) ≡ 0xe40c292c
unfolding fnv_1a
hashed = refl

decide_forward-IsOnward_example :
    IsOnward
      (passing 9)
      (call_of 0x4e)
      (call_of 0x4d)
      known
      7
      (decide_forward (passing 9) (call_of 0x4e) (call_of 0x4d) known 7 per_flow true)
decide_forward-IsOnward_example =
    decide_forward-IsOnward (passing 9) (call_of 0x4e) (call_of 0x4d) known 7 per_flow true
      (ap (λ x. x.outcome) passed_on)

known_far : find_destination (call_of 0x46) known.destinations ≡ some far
unfolding find_destination equals text_eq
known_far = refl

not_from_here : equals (passing 9).origin (call_of 0x4d) ≡ false
unfolding equals text_eq
not_from_here = refl

over_another : Has (λ r. (equals r.neighbour (call_of 0x4e) ≡ false) × (0 < r.quality)) far.routes
unfolding equals text_eq
over_another = inr (inl (refl, omega arith))

decide_forward-forward_to_example :
    (decide_forward (passing 9) (call_of 0x4e) (call_of 0x4d) known 7 per_flow false).outcome
    ≡ forward_to
decide_forward-forward_to_example =
    decide_forward-forward_to (passing 9) (call_of 0x4e) (call_of 0x4d) known 7 per_flow false far
      (omega arith) not_from_here known_far over_another
