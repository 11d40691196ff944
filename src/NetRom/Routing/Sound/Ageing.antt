-- ===== src/NetRom/Routing/Sound/Ageing.antt =====
-- netrom/routing-table.ts: the walks over the table keep it sound.
use ax25_ts.Base.{
  All, All-both, All-imp, Bool-cases, List, Option, [], ap, arith, false, inl, inr, is_empty,
  length, none, refl, some, suc, true, ℕ, ◌∷◌, ◌≡◌, ◌≤◌,
}
use ax25_ts.Base.Maps.{
  All-delete_all, HasDistinctKeys, HasDistinctKeys-delete_all, TextMap, delete_all,
  length-delete_all, map_delete, map_get, mem_text, text_eq, text_eq_refl, without_keys,
}
use ax25_ts.Callsign.{Callsign}
use ax25_ts.NetRom.Routing.{
  DestinationState, NeighbourState, RouteState, RoutingOptions, RoutingTable, neighbour_key,
}
use ax25_ts.NetRom.Routing.Adverts.{Entry}
use ax25_ts.NetRom.Routing.Ageing.{
  change_routes, change_table, drop_neighbours, empty_destinations, mark_down_on,
  mark_neighbour_down, mark_port_down, off_port, prune_orphan_neighbours, purge_empty, survivors,
  sweep,
}
use ax25_ts.NetRom.Routing.Sound.{IsEntry, IsKeyed, IsKnown, IsSound}
use ax25_ts.NetRom.Routing.Sound.Changes.{is_empty-length}
use ax25_ts.NetRom.Routing.Sound.Shrinking.{
  IsShrinking, map_delete-IsShrinking, off_port-IsShrinking, survivors-IsShrinking,
}

-- `change` on the routes of the destination that was found.
unfoldable pub changed_in :
    (TextMap RouteState → TextMap RouteState) → Option DestinationState → Option DestinationState
changed_in change none = none
changed_in change (some dest) = some (record dest { routes = change dest.routes })

pub get-change_routes :
    (change : TextMap RouteState → TextMap RouteState) (key : List ℕ) (m : TextMap DestinationState)
    → map_get key (change_routes change m) ≡ changed_in change (map_get key m)
unfolding change_routes map_get changed_in
get-change_routes change key [] = refl
get-change_routes change key (e ∷ m) = elim (Bool-cases (text_eq e.0 key)) [
  | inl here ↦ rw here refl
  | inr there ↦ rw there (get-change_routes change key m)
]

listed_first :
    (e : Entry) (m : TextMap DestinationState)
    → is_empty (e.1).routes ≡ true
    → mem_text e.0 (empty_destinations (e ∷ m)) ≡ true
unfolding empty_destinations
listed_first e m h = rw (h, text_eq_refl e.0) refl

listed_later :
    (e : Entry) (m : TextMap DestinationState) (key : List ℕ)
    → mem_text key (empty_destinations m) ≡ true
    → mem_text key (empty_destinations (e ∷ m)) ≡ true
unfolding empty_destinations
listed_later e m key h = ground arith

empties_listed :
    (m : TextMap DestinationState)
    → All (λ e. is_empty (e.1).routes ≡ true → mem_text e.0 (empty_destinations m) ≡ true) m
empties_listed [] = tt
empties_listed (e ∷ m) =
    (listed_first e m, All-imp _ _ (λ d f h. listed_later e m d.0 (f h)) m (empties_listed m))

-- No destination without a route is left.
purged_nonempty :
    (m : TextMap DestinationState) → All (λ e. is_empty (e.1).routes ≡ false) (purge_empty m)
unfolding purge_empty
purged_nonempty m =
    let left = delete_all (empty_destinations m) m in
    All-imp _ _
      (λ e h. elim (Bool-cases (is_empty (e.1).routes)) [
        | inl gone ↦ absurd (cc (h.0 gone, h.1))
        | inr kept ↦ kept
      ])
      left
      (All-both _ _ left (All-delete_all _ (empty_destinations m) m (empties_listed m))
        (without_keys (empty_destinations m) m))

change_routes-entries :
    (limit : ℕ) (calls : TextMap Callsign) (change : TextMap RouteState → TextMap RouteState)
    (m : TextMap DestinationState)
    → IsShrinking change
    → All (IsEntry limit calls) m
    → All
        (λ e.
          (length (e.1).routes ≤ limit)
          × (All IsKeyed (e.1).routes × (HasDistinctKeys (e.1).routes × IsKnown calls e.0)))
        (change_routes change m)
unfolding change_routes
change_routes-entries limit calls change [] c h = tt
change_routes-entries limit calls change (e ∷ m) c h = (
  (
    omega (arith, c.shorter (e.1).routes, (h.0).0.capped),
    (
      c.keeps_keyed (e.1).routes (h.0).0.keyed,
      (c.keeps_distinct (e.1).routes (h.0).0.distinct, (h.0).1),
    ),
  ),
  change_routes-entries limit calls change m c h.1,
)

pub change_routes-HasDistinctKeys :
    (change : TextMap RouteState → TextMap RouteState) (m : TextMap DestinationState)
    → HasDistinctKeys m
    → HasDistinctKeys (change_routes change m)
unfolding change_routes changed_in
change_routes-HasDistinctKeys change [] h = tt
change_routes-HasDistinctKeys change (e ∷ m) h =
    let gone : map_get e.0 (change_routes change m) ≡ none =
      rw (get-change_routes change e.0 m, h.0) refl in
    (gone, change_routes-HasDistinctKeys change m h.1)

length-change_routes :
    (change : TextMap RouteState → TextMap RouteState) (m : TextMap DestinationState)
    → length (change_routes change m) ≡ length m
unfolding change_routes
length-change_routes change [] = refl
length-change_routes change (e ∷ m) = ap suc (length-change_routes change m)

pub change_table-IsSound :
    {o : RoutingOptions} (change : TextMap RouteState → TextMap RouteState) (t : RoutingTable)
    → IsShrinking change
    → IsSound o t
    → IsSound o (change_table change t)
unfolding change_table purge_empty
change_table-IsSound change t c s =
    let changed = change_routes change t.destinations in
    let left = delete_all (empty_destinations changed) changed in
    let kept =
      All-delete_all _ (empty_destinations changed) changed
        (change_routes-entries _ _ change t.destinations c s.entries) in
    record {
      same_options = s.same_options;
      some_room = s.some_room;
      bounded = omega (
        arith,
        s.bounded,
        length-change_routes change t.destinations,
        length-delete_all (empty_destinations changed) changed,
      );
      distinct =
          HasDistinctKeys-delete_all (empty_destinations changed) changed
            (change_routes-HasDistinctKeys change t.destinations s.distinct);
      entries =
          All-imp _ _
            (λ e h. (
              record {
                some_route = is_empty-length (e.1).routes h.1;
                capped = (h.0).0;
                keyed = ((h.0).1).0;
                distinct = (((h.0).1).1).0;
              },
              (((h.0).1).1).1,
            ))
            left (All-both _ _ left kept (purged_nonempty changed));
    }

-- The neighbours have no part in it.
with_neighbours-IsSound :
    {o : RoutingOptions} (t : RoutingTable) (n : TextMap NeighbourState)
    → IsSound o t
    → IsSound o (record t { neighbours = n })
with_neighbours-IsSound t n s = record {
  same_options = s.same_options;
  some_room = s.some_room;
  bounded = s.bounded;
  distinct = s.distinct;
  entries = s.entries;
}

pub sweep-IsSound : {o : RoutingOptions} (t : RoutingTable) → IsSound o t → IsSound o (sweep t).0
unfolding sweep prune_orphan_neighbours
sweep-IsSound t s =
    with_neighbours-IsSound (change_table survivors t) _
      (change_table-IsSound survivors t survivors-IsShrinking s)

pub mark_neighbour_down-IsSound :
    {o : RoutingOptions} (port_id : List ℕ) (neighbour : Callsign) (t : RoutingTable)
    → IsSound o t
    → IsSound o (mark_neighbour_down port_id neighbour t).0
unfolding mark_neighbour_down prune_orphan_neighbours drop_neighbours
mark_neighbour_down-IsSound port_id neighbour t s =
    let change = map_delete (neighbour_key port_id neighbour) in
    with_neighbours-IsSound (change_table change t) _
      (change_table-IsSound change t (map_delete-IsShrinking (neighbour_key port_id neighbour)) s)

pub mark_down_on-IsSound :
    {o : RoutingOptions} (ports : List (List ℕ)) (neighbour : Callsign) (t : RoutingTable)
    → IsSound o t
    → IsSound o (mark_down_on ports neighbour t).0
unfolding mark_down_on
mark_down_on-IsSound [] neighbour t s = s
mark_down_on-IsSound (port_id ∷ ports) neighbour t s =
    mark_down_on-IsSound ports neighbour (mark_neighbour_down port_id neighbour t).0
      (mark_neighbour_down-IsSound port_id neighbour t s)

pub mark_port_down-IsSound :
    {o : RoutingOptions} (port_id : List ℕ) (t : RoutingTable)
    → IsSound o t
    → IsSound o (mark_port_down port_id t).0
unfolding mark_port_down prune_orphan_neighbours drop_neighbours
mark_port_down-IsSound port_id t s =
    with_neighbours-IsSound (change_table (off_port port_id) t) _
      (change_table-IsSound (off_port port_id) t (off_port-IsShrinking port_id) s)
