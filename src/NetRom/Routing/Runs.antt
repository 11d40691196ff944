-- ===== src/NetRom/Routing/Runs.antt =====
-- netrom/routing-table.ts on a table of three nodes and two ports.
use ax25_ts.Base.{All, Has, List, Option, [], arith, if◌then◌else◌, none, refl, some, ℕ, ◌∷◌, ◌≡◌}
use ax25_ts.Base.Maps.{map_get, text_eq}
use ax25_ts.Callsign.{Callsign, IsValid, all_valid, is_valid_base_char}
use ax25_ts.Callsign.Text.{equals, to_text}
use ax25_ts.NetRom.Inp3.{Inp3Rif, Inp3Rip}
use ax25_ts.NetRom.Nodes.{NodesBroadcast}
use ax25_ts.NetRom.Routing.{
  RoutingTable, create_routing_table, neighbour_key, netrom_routing_defaults,
}
use ax25_ts.NetRom.Routing.Advertised.Entries.{IsAdvert, IsDue, IsNoBetter, build_advertisement_lem}
use ax25_ts.NetRom.Routing.Adverts.{build_advertisement, build_rif, rip_at}
use ax25_ts.NetRom.Routing.Ageing.{mark_neighbour_down}
use ax25_ts.NetRom.Routing.Learning.{ingest, ingest_rif}
use ax25_ts.NetRom.Routing.Lookup.{
  aged_by, route_of, route_of-mark_neighbour_down, route_of-sweeps, sweeps,
}
use ax25_ts.NetRom.Routing.NotSelf.{ingest_own_call}
use ax25_ts.NetRom.Routing.Poison.{IsTold, build_rif_lem}
use ax25_ts.NetRom.Routing.Sorted.{IsSorted}
use ax25_ts.NetRom.Routing.Sound.{IsSound}
use ax25_ts.NetRom.Routing.Steps.{
  Operation, apply_all, ingest_op, ingest_rif_op, reachable-IsSound, sweep_op,
}

abbrev call_of : ℕ → Callsign
call_of c = record { base = 0x47 ∷ 0x42 ∷ 0x37 ∷ c ∷ []; ssid = 1 }

abbrev me : Callsign
me = call_of 0x4d

abbrev near : Callsign
near = call_of 0x4e

abbrev far : Callsign
far = call_of 0x46

me-IsValid : IsValid me
unfolding all_valid is_valid_base_char
me-IsValid = record { short = omega arith; chars = refl; in_range = omega arith }

near-IsValid : IsValid near
unfolding all_valid is_valid_base_char
near-IsValid = record { short = omega arith; chars = refl; in_range = omega arith }

far-IsValid : IsValid far
unfolding all_valid is_valid_base_char
far-IsValid = record { short = omega arith; chars = refl; in_range = omega arith }

-- A broadcast that names a node behind the sender, and this node itself.
abbrev heard : NodesBroadcast
heard = record {
  sender_alias = 0x4e ∷ [];
  entries =
      record {
        destination = far;
        destination_alias = 0x46 ∷ [];
        best_neighbour = far;
        best_quality = 200;
      }
      ∷ record {
        destination = me;
        destination_alias = [];
        best_neighbour = far;
        best_quality = 255;
      }
      ∷ [];
}

abbrev timed : Inp3Rif
timed = record {
  rips = record { destination = far; hop_count = 1; target_time_ms = 300; tlvs = [] } ∷ [];
}

abbrev vhf : List ℕ
vhf = 0x76 ∷ []

abbrev uhf : List ℕ
uhf = 0x75 ∷ []

abbrev history : List Operation
history =
    ingest_op near me vhf heard none none 0
    ∷ ingest_op near me uhf heard (some 100) none 1
    ∷ ingest_rif_op near me vhf 20 timed 30
    ∷ sweep_op
    ∷ []

abbrev table : RoutingTable
table = apply_all history (create_routing_table netrom_routing_defaults none)

table-IsSound_example : IsSound netrom_routing_defaults table
table-IsSound_example = reachable-IsSound history netrom_routing_defaults none (omega arith)

mark_neighbour_down_example :
    ((key via : List ℕ)
      → route_of (mark_neighbour_down vhf near table).0 key via
        ≡ (if text_eq (neighbour_key vhf near) via then none else route_of table key via))
    × (map_get (neighbour_key vhf near) (mark_neighbour_down vhf near table).0.neighbours ≡ none)
mark_neighbour_down_example =
    route_of-mark_neighbour_down netrom_routing_defaults table vhf near
      (reachable-IsSound history netrom_routing_defaults none (omega arith))

sweeps_example :
    route_of (sweeps 4 table) (to_text far) (neighbour_key vhf near)
    ≡ aged_by 4 (route_of table (to_text far) (neighbour_key vhf near))
sweeps_example =
    route_of-sweeps netrom_routing_defaults 3 table (to_text far) (neighbour_key vhf near)
      (reachable-IsSound history netrom_routing_defaults none (omega arith))

build_advertisement_example :
    All (IsAdvert table 4) (build_advertisement table 4)
    × (IsSorted IsNoBetter (build_advertisement table 4)
        × ((c : Callsign)
            → Has (IsDue table 4 c) table.destinations
            → Has (λ a. a.destination ≡ c) (build_advertisement table 4)))
build_advertisement_example = build_advertisement_lem table 4

build_rif_example :
    (rest : List Inp3Rip) × (((build_rif table me near []).rips ≡ rip_at 0 me ∷ rest)
      × All (IsTold table (to_text near) []) rest)
build_rif_example = build_rif_lem table me near []

own_call_example :
    ((broadcast : NodesBroadcast) (neighbour_quality min_quality : Option ℕ) (now : ℕ)
      → All (λ e. IsValid e.destination) broadcast.entries
      → map_get
          (to_text me)
          (ingest
            (create_routing_table netrom_routing_defaults none)
            near
            me
            vhf
            broadcast
            neighbour_quality
            min_quality
            now).destinations
        ≡ none)
    × ((sntt : ℕ) (rif : Inp3Rif) (hop_limit : ℕ)
        → All (λ r. IsValid r.destination) rif.rips
        → map_get
            (to_text me)
            (ingest_rif
              (create_routing_table netrom_routing_defaults none)
              near
              me
              vhf
              sntt
              rif
              hop_limit).destinations
          ≡ none)
unfolding equals text_eq map_get
own_call_example =
    ingest_own_call (create_routing_table netrom_routing_defaults none) me near vhf me-IsValid
      near-IsValid refl refl
