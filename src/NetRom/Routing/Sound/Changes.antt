-- ===== src/NetRom/Routing/Sound/Changes.antt =====
-- netrom/routing-table.ts: a sound table stays sound when one destination is put, changed or dropped.
use ax25_ts.Base.{
  All-imp, Bool-cases, List, [], arith, false, inl, inr, is_empty, length, none, refl, some, ℕ, ◌<◌,
  ◌∷◌, ◌≡◌, ◌≤◌,
}
use ax25_ts.Base.Maps.{
  All-delete, All-get, All-set, HasDistinctKeys-delete, HasDistinctKeys-set, TextMap, get-set,
  length-delete, length-set_known, length-set_new, map_delete, map_get, map_set, text_eq,
  text_eq_refl, text_eq→≡,
}
use ax25_ts.Callsign.{Callsign}
use ax25_ts.Callsign.Text.{to_text}
use ax25_ts.NetRom.Routing.{DestinationState, RoutingOptions, RoutingTable}
use ax25_ts.NetRom.Routing.Routes.{drop_route, set_destination}
use ax25_ts.NetRom.Routing.Sound.{AreRoutes, IsKeyed, IsKnown, IsSound}

IsKnown-set :
    (calls : TextMap Callsign) (c : Callsign) (key : List ℕ)
    → IsKnown calls key
    → IsKnown (map_set (to_text c) c calls) key
IsKnown-set calls c key (d, (found, same)) = elim (Bool-cases (text_eq (to_text c) key)) [
  | inl here ↦
      (c, (rw (get-set (to_text c) key c calls, here) refl, text_eq→≡ (to_text c) key here))
  | inr there ↦ (d, (rw (get-set (to_text c) key c calls, there) found, same))
]

IsKnown-new :
    (calls : TextMap Callsign) (c : Callsign) → IsKnown (map_set (to_text c) c calls) (to_text c)
IsKnown-new calls c =
    let same = text_eq_refl (to_text c) in
    (c, (rw (get-set (to_text c) (to_text c) c calls, same) refl, refl))

-- A new destination, put where there is room.
pub add-IsSound :
    {o : RoutingOptions} (t : RoutingTable) (c : Callsign) (dest : DestinationState)
    → IsSound o t
    → map_get (to_text c) t.destinations ≡ none
    → length t.destinations < t.options.max_destinations
    → AreRoutes t.options.max_routes_per_destination dest.routes
    → IsSound o (record t {
      destinations = map_set (to_text c) dest t.destinations;
      callsign_by_key = map_set (to_text c) c t.callsign_by_key;
    })
add-IsSound t c dest s missing room r = record {
  same_options = s.same_options;
  some_room = s.some_room;
  bounded = omega (arith, room, length-set_new (to_text c) dest t.destinations missing);
  distinct = HasDistinctKeys-set (to_text c) dest t.destinations s.distinct;
  entries =
      All-set _ (to_text c) dest t.destinations (r, IsKnown-new t.callsign_by_key c)
        (All-imp _ _ (λ e h. (h.0, IsKnown-set t.callsign_by_key c e.0 h.1)) t.destinations
          s.entries);
}

-- A destination of the table that is given other routes.
pub set_destination-IsSound :
    {o : RoutingOptions} (t : RoutingTable) (key : List ℕ) (found dest : DestinationState)
    → IsSound o t
    → map_get key t.destinations ≡ some found
    → AreRoutes t.options.max_routes_per_destination dest.routes
    → IsSound o (set_destination t key dest)
unfolding set_destination
set_destination-IsSound t key found dest s h r = record {
  same_options = s.same_options;
  some_room = s.some_room;
  bounded = omega (arith, s.bounded, length-set_known key dest found t.destinations h);
  distinct = HasDistinctKeys-set key dest t.destinations s.distinct;
  entries =
      All-set _ key dest t.destinations (r, (All-get _ key found t.destinations s.entries h).1)
        s.entries;
}

pub is_empty-length {ℓ} : {A : Type ℓ} (xs : List A) → is_empty xs ≡ false → 1 ≤ length xs
is_empty-length [] h = cc
is_empty-length (x ∷ xs) h = omega arith

pub drop_route-IsSound :
    {o : RoutingOptions} (t : RoutingTable) (key via : List ℕ) (found dest : DestinationState)
    → IsSound o t
    → map_get key t.destinations ≡ some found
    → AreRoutes t.options.max_routes_per_destination dest.routes
    → IsSound o (drop_route t key via dest)
unfolding drop_route
drop_route-IsSound t key via found dest s h r =
    let left = map_delete via dest.routes in
    elim (Bool-cases (is_empty left)) [
      | inl gone ↦ rw gone (record {
        same_options = s.same_options;
        some_room = s.some_room;
        bounded = omega (arith, s.bounded, length-delete key t.destinations);
        distinct = HasDistinctKeys-delete key t.destinations s.distinct;
        entries = All-delete _ key t.destinations s.entries;
      })
      | inr kept ↦ rw kept (
          set_destination-IsSound t key found (record dest { routes = left }) s h
            (record {
              some_route = is_empty-length left kept;
              capped = omega (arith, r.capped, length-delete via dest.routes);
              keyed = All-delete IsKeyed via dest.routes r.keyed;
              distinct = HasDistinctKeys-delete via dest.routes r.distinct;
            }))
    ]

-- The shape of the routes of a destination that is found.
pub routes_found :
    {o : RoutingOptions} (t : RoutingTable) (key : List ℕ) (found : DestinationState)
    → IsSound o t
    → map_get key t.destinations ≡ some found
    → AreRoutes t.options.max_routes_per_destination found.routes
routes_found t key found s h = (All-get _ key found t.destinations s.entries h).0
