-- ===== src/NetRom/Routing.antt =====
-- netrom/routing-table.ts: the routing table, its keys and its orders. Texts are lists of character
-- codes. Qualities, ages and ranks of ports are whole and not negative, and a port identifier holds no
-- separator: `neighbourKey` throws for one that does, before anything is changed.
pub mod Routes
pub mod Learning
pub mod Ageing
pub mod Adverts
pub mod Sound
pub mod Steps
pub mod Lookup
pub mod Sorted
pub mod Advertised
pub mod Keys
pub mod Poison
pub mod Others
pub mod NotSelf
pub mod Runs
use Prim.Native.Nat.{Ordering, compare}
use ax25_ts.Base.{
  Bool, List, Option, [], false, if◌then◌else◌, max, min, none, not, some, true, ℕ, ◌&&◌, ◌++◌,
  ◌==◌, ◌∷◌,
}
use ax25_ts.Base.Maps.{TextMap}
use ax25_ts.Callsign.{Callsign}
use ax25_ts.Callsign.Text.{to_text}
use ax25_ts.NetRom.Quality.{netrom_quality_max, netrom_quality_min}

-- `|`.
abbrev pub netrom_neighbour_key_separator : ℕ
netrom_neighbour_key_separator = 0x7c

-- `portId.includes("|")` is false.
abbrev pub is_port_id : List ℕ → Bool
is_port_id [] = true
is_port_id (c ∷ cs) = not (c == netrom_neighbour_key_separator) && is_port_id cs

unfoldable pub neighbour_key_of_text : List ℕ → List ℕ → List ℕ
neighbour_key_of_text port_id call = port_id ++ (netrom_neighbour_key_separator ∷ call)

abbrev pub neighbour_key : List ℕ → Callsign → List ℕ
neighbour_key port_id neighbour = neighbour_key_of_text port_id (to_text neighbour)

-- What stands before the first separator, and what stands after it.
unfoldable pub neighbour_key_port : List ℕ → List ℕ
neighbour_key_port [] = []
neighbour_key_port (c ∷ cs) =
    let rest = neighbour_key_port cs in if c == netrom_neighbour_key_separator then [] else c ∷ rest

unfoldable pub neighbour_key_callsign : List ℕ → List ℕ
neighbour_key_callsign [] = []
neighbour_key_callsign (c ∷ cs) =
    if c == netrom_neighbour_key_separator then cs else neighbour_key_callsign cs

pub record RoutingOptions : Type 0 where
  pub default_neighbour_quality : ℕ
  pub min_quality : ℕ
  pub obsolete_initial : ℕ
  pub obsolete_minimum : ℕ
  pub max_routes_per_destination : ℕ
  pub max_destinations : ℕ

abbrev pub netrom_routing_defaults : RoutingOptions
netrom_routing_defaults = record {
  default_neighbour_quality = 192;
  min_quality = 0;
  obsolete_initial = 6;
  obsolete_minimum = 4;
  max_routes_per_destination = 3;
  max_destinations = 1024;
}

pub record Inp3RouteMetric : Type 0 where
  pub target_time_ms : ℕ
  pub hop_count : ℕ

pub record RouteState : Type 0 where
  pub neighbour : Callsign
  pub port_id : List ℕ
  pub quality : ℕ
  pub obsolescence : ℕ
  pub inp3 : Option Inp3RouteMetric

pub record DestinationState : Type 0 where
  pub alias : List ℕ
  pub routes : TextMap RouteState

pub record NeighbourState : Type 0 where
  pub neighbour : Callsign
  pub alias : List ℕ
  pub port_id : List ℕ
  pub path_quality : ℕ
  pub last_heard : ℕ

-- The table. The clock is an argument of the operations that read it.
pub record RoutingTable : Type 0 where
  pub options : RoutingOptions
  pub port_rank : Option (List ℕ → ℕ)
  pub destinations : TextMap DestinationState
  pub neighbours : TextMap NeighbourState
  pub callsign_by_key : TextMap Callsign
  pub recently_withdrawn_set : TextMap Callsign

abbrev pub create_routing_table : RoutingOptions → Option (List ℕ → ℕ) → RoutingTable
create_routing_table options port_rank = record {
  options = options;
  port_rank = port_rank;
  destinations = [];
  neighbours = [];
  callsign_by_key = [];
  recently_withdrawn_set = [];
}

-- Finite qualities only; `Math.trunc` does nothing to a whole number.
abbrev pub clamp_quality : ℕ → ℕ
clamp_quality value = max netrom_quality_min (min netrom_quality_max value)

-- The sign of a comparison function, and `a || b` on two of them.
unfoldable pub or_else : Ordering → Ordering → Ordering
or_else Ordering.lt next = Ordering.lt
or_else Ordering.eq next = next
or_else Ordering.gt next = Ordering.gt

unfoldable pub reversed : Ordering → Ordering
reversed Ordering.lt = Ordering.gt
reversed Ordering.eq = Ordering.eq
reversed Ordering.gt = Ordering.lt

unfoldable pub compare_ordinal : List ℕ → List ℕ → Ordering
compare_ordinal [] [] = Ordering.eq
compare_ordinal [] (b ∷ ys) = Ordering.lt
compare_ordinal (a ∷ xs) [] = Ordering.gt
compare_ordinal (a ∷ xs) (b ∷ ys) = or_else (compare a b) (compare_ordinal xs ys)

unfoldable pub compare_ports_by : Option (List ℕ → ℕ) → List ℕ → List ℕ → Ordering
compare_ports_by none a b = compare_ordinal a b
compare_ports_by (some rank) a b = compare (rank a) (rank b)

abbrev pub compare_ports : RoutingTable → List ℕ → List ℕ → Ordering
compare_ports t a b = compare_ports_by t.port_rank a b

unfoldable pub route_order : RoutingTable → RouteState → RouteState → Ordering
route_order t a b = or_else (compare b.quality a.quality) (
    or_else (compare_ports t a.port_id b.port_id)
      (compare_ordinal (to_text a.neighbour) (to_text b.neighbour)))

unfoldable pub advert_precedence : RoutingTable → RouteState → RouteState → Ordering
advert_precedence t candidate incumbent = or_else (compare candidate.quality incumbent.quality) (
    or_else (compare candidate.obsolescence incumbent.obsolescence) (
      or_else (reversed (compare_ports t candidate.port_id incumbent.port_id))
        (reversed (compare_ordinal (to_text candidate.neighbour) (to_text incumbent.neighbour)))))

-- `sort`, which keeps the order of equal elements.
module _ {ℓ} {A : Type ℓ} (order : A → A → Ordering) where
  abbrev pub is_after : A → A → Bool
  is_after a b = elim (order a b) [ Ordering.gt ↦ true | _ ↦ false ]

  unfoldable pub insert_sorted : A → List A → List A
  insert_sorted a [] = a ∷ []
  insert_sorted a (b ∷ bs) =
      let rest = insert_sorted a bs in if is_after a b then b ∷ rest else a ∷ b ∷ bs

  unfoldable pub sort : List A → List A
  sort [] = []
  sort (a ∷ xs) = insert_sorted a (sort xs)
