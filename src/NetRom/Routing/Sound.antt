-- ===== src/NetRom/Routing/Sound.antt =====
-- netrom/routing-table.ts: what holds of the destinations of a table, and the changes of one of them.
pub mod Changes
pub mod Learning
pub mod Ingest
pub mod Shrinking
pub mod Ageing
use Prim.Native.Nat.{Ordering}
use ax25_ts.Base.{
  All, Bool-cases, List, Option, [], arith, inl, inr, leb, leb→le, length, length-map, length-take,
  refl, some, suc, take, ℕ, ◌+◌, ◌∙◌, ◌∷◌, ◌≡◌, ◌≤◌,
}
use ax25_ts.Base.Maps.{
  All-set, HasDistinctKeys, HasDistinctKeys-set, TextMap, length-set, map_get, map_set, values,
}
use ax25_ts.Callsign.{Callsign}
use ax25_ts.Callsign.Text.{to_text}
use ax25_ts.NetRom.Routing.{
  DestinationState, RouteState, RoutingOptions, RoutingTable, create_routing_table, insert_sorted,
  neighbour_key, route_order, sort,
}
use ax25_ts.NetRom.Routing.Adverts.{Entry}
use ax25_ts.NetRom.Routing.Routes.{enforce_route_cap, set_routes}

abbrev pub IsKeyed : List ℕ × RouteState → Type 0
IsKeyed r = r.0 ≡ neighbour_key (r.1).port_id (r.1).neighbour

-- The routes of a destination: at least one, no more than the cap, each under its own key, no key twice.
pub record AreRoutes (limit : ℕ) (routes : TextMap RouteState) : Type 0 where
  pub some_route : 1 ≤ length routes
  pub capped : length routes ≤ limit
  pub keyed : All IsKeyed routes
  pub distinct : HasDistinctKeys routes

-- The key is the written form of a callsign that is on record under it.
abbrev pub IsKnown : TextMap Callsign → List ℕ → Type 0
IsKnown calls key = (c : Callsign) × ((map_get key calls ≡ some c) × (to_text c ≡ key))

abbrev pub IsEntry : ℕ → TextMap Callsign → Entry → Type 0
IsEntry limit calls e = AreRoutes limit (e.1).routes × IsKnown calls e.0

-- A table with the given options, under which a destination may have a route.
pub record IsSound (o : RoutingOptions) (t : RoutingTable) : Type 0 where
  pub same_options : t.options ≡ o
  pub some_room : 1 ≤ t.options.max_routes_per_destination
  pub bounded : length t.destinations ≤ t.options.max_destinations
  pub distinct : HasDistinctKeys t.destinations
  pub entries : All (IsEntry t.options.max_routes_per_destination t.callsign_by_key) t.destinations

pub create_routing_table-IsSound :
    (options : RoutingOptions) (port_rank : Option (List ℕ → ℕ))
    → 1 ≤ options.max_routes_per_destination
    → IsSound options (create_routing_table options port_rank)
create_routing_table-IsSound options port_rank h = record {
  same_options = refl;
  some_room = h;
  bounded = omega arith;
  distinct = tt;
  entries = tt;
}

module _ {ℓ} {A : Type ℓ} (order : A → A → Ordering) where
  length-insert_sorted : (a : A) (bs : List A) → length (insert_sorted order a bs) ≡ suc (length bs)
  unfolding insert_sorted
  length-insert_sorted a [] = refl
  length-insert_sorted a (b ∷ bs) = ground (arith, length-insert_sorted a bs)

  pub length-sort : (xs : List A) → length (sort order xs) ≡ length xs
  unfolding sort
  length-sort [] = refl
  length-sort (a ∷ xs) = omega (arith, length-insert_sorted a (sort order xs), length-sort xs)

length-set_routes :
    (rs : List RouteState) (m : TextMap RouteState)
    → (length (set_routes rs m) ≤ length rs + length m) × (length m ≤ length (set_routes rs m))
unfolding set_routes
length-set_routes [] m = (omega arith, omega arith)
length-set_routes (r ∷ rs) m =
    let key = neighbour_key r.port_id r.neighbour in
    let rest = length-set_routes rs (map_set key r m) in
    let one = length-set key r m in (ground (arith, rest.0, one), ground (arith, rest.1, one))

set_routes-IsKeyed :
    (rs : List RouteState) (m : TextMap RouteState) → All IsKeyed m → All IsKeyed (set_routes rs m)
unfolding set_routes
set_routes-IsKeyed [] m h = h
set_routes-IsKeyed (r ∷ rs) m h = set_routes-IsKeyed rs _ (All-set IsKeyed _ r m refl h)

some_set : (rs : List RouteState) → 1 ≤ length rs → 1 ≤ length (set_routes rs [])
unfolding set_routes map_set
some_set [] h = absurd (omega arith)
some_set (r ∷ rs) h =
    omega (arith, (length-set_routes rs ((neighbour_key r.port_id r.neighbour, r) ∷ [])).1)

set_routes-HasDistinctKeys :
    (rs : List RouteState) (m : TextMap RouteState)
    → HasDistinctKeys m
    → HasDistinctKeys (set_routes rs m)
unfolding set_routes
set_routes-HasDistinctKeys [] m h = h
set_routes-HasDistinctKeys (r ∷ rs) m h =
    set_routes-HasDistinctKeys rs _ (HasDistinctKeys-set _ r m h)

pub enforce_route_cap-AreRoutes :
    (t : RoutingTable) (dest : DestinationState)
    → 1 ≤ t.options.max_routes_per_destination
    → 1 ≤ length dest.routes
    → All IsKeyed dest.routes
    → HasDistinctKeys dest.routes
    → AreRoutes t.options.max_routes_per_destination (enforce_route_cap t dest).routes
unfolding enforce_route_cap
enforce_route_cap-AreRoutes t dest h one k d =
    let limit = t.options.max_routes_per_destination in
    let sorted = sort (route_order t) (values dest.routes) in
    let size : length sorted ≡ length dest.routes =
      length-sort (route_order t) (values dest.routes) ∙ length-map (λ e. e.1) dest.routes in
    let cut = length-take limit sorted in
    elim (Bool-cases (leb (length dest.routes) limit)) [
      | inl few ↦
          rw few (record { some_route = one; capped = leb→le _ _ few; keyed = k; distinct = d })
      | inr many ↦ rw many (record {
        some_route = some_set (take limit sorted) (ground (arith, cut, size));
        capped = omega (arith, (length-set_routes (take limit sorted) []).0, cut);
        keyed = set_routes-IsKeyed (take limit sorted) [] tt;
        distinct = set_routes-HasDistinctKeys (take limit sorted) [] tt;
      })
    ]
