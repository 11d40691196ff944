-- ===== src/NetRom/Routing/Lookup.antt =====
-- netrom/routing-table.ts: the route that is found after a walk over the table.
use ax25_ts.Base.{
  Bool, Bool-cases, List, Option, [], ap, arith, false, if◌then◌else◌, inl, inr, is_empty, leb,
  none, refl, some, subst, suc, sym, true, zero, ℕ, ◌-◌, ◌∙◌, ◌∷◌, ◌≡◌,
}
use ax25_ts.Base.Maps.{
  HasDistinctKeys, TextMap, delete_all, get-delete, get-delete_all, map_delete, map_get, mem_text,
  text_eq, text_eq_refl, text_eq→≡,
}
use ax25_ts.Callsign.{Callsign}
use ax25_ts.NetRom.Routing.{
  DestinationState, RouteState, RoutingOptions, RoutingTable, neighbour_key,
}
use ax25_ts.NetRom.Routing.Ageing.{
  change_routes, change_table, drop_neighbours, empty_destinations, mark_neighbour_down, orphans,
  prune_orphan_neighbours, purge_empty, survivors, sweep,
}
use ax25_ts.NetRom.Routing.Sound.{AreRoutes, IsSound}
use ax25_ts.NetRom.Routing.Sound.Ageing.{
  change_routes-HasDistinctKeys, changed_in, get-change_routes, sweep-IsSound,
}
use ax25_ts.NetRom.Routing.Sound.Changes.{routes_found}
use ax25_ts.NetRom.Routing.Sound.Shrinking.{aged, get-survivors}

unfoldable pub route_in : List ℕ → Option DestinationState → Option RouteState
route_in via none = none
route_in via (some dest) = map_get via dest.routes

-- The route to a destination under a neighbour's key.
abbrev pub route_of : RoutingTable → List ℕ → List ℕ → Option RouteState
route_of t dest_key via = route_in via (map_get dest_key t.destinations)

abbrev lacks_routes : Option DestinationState → Bool
lacks_routes none = false
lacks_routes (some dest) = is_empty dest.routes

empties-get :
    (key : List ℕ) (m : TextMap DestinationState)
    → HasDistinctKeys m
    → mem_text key (empty_destinations m) ≡ lacks_routes (map_get key m)
unfolding empty_destinations map_get
empties-get key [] d = refl
empties-get key (e ∷ m) d =
    let rest = empties-get key m d.1 in
    elim (Bool-cases (text_eq e.0 key)) [
      | inl here ↦
          let gone : map_get key m ≡ none =
            subst (λ k. map_get k m ≡ none) (text_eq→≡ e.0 key here) d.0 in
          let later : mem_text key (empty_destinations m) ≡ false = rw (rest, gone) refl in
          elim (Bool-cases (is_empty (e.1).routes)) [
            | inl bare ↦ rw (here, bare) (rw (here) refl)
            | inr kept ↦ rw (here, kept) later
          ]
      | inr there ↦ elim (Bool-cases (is_empty (e.1).routes)) [
        | inl bare ↦ rw (there, bare) (rw (there) rest)
        | inr kept ↦ rw (there, kept) rest
      ]
    ]

get-bare :
    (via : List ℕ) (routes : TextMap RouteState)
    → is_empty routes ≡ true
    → map_get via routes ≡ none
unfolding map_get
get-bare via [] h = refl
get-bare via (e ∷ m) h = cc

-- A destination that is purged had no route to be found.
route_in-kept :
    (via : List ℕ) (found : Option DestinationState)
    → route_in via (if lacks_routes found then none else found) ≡ route_in via found
unfolding route_in
route_in-kept via none = refl
route_in-kept via (some dest) = elim (Bool-cases (is_empty dest.routes)) [
  | inl bare ↦ rw (bare) (sym (get-bare via dest.routes bare))
  | inr kept ↦ rw (kept) refl
]

pub route_of-change_table :
    {o : RoutingOptions} (change : TextMap RouteState → TextMap RouteState) (t : RoutingTable)
    (key via : List ℕ)
    → IsSound o t
    → route_of (change_table change t) key via
      ≡ route_in via (changed_in change (map_get key t.destinations))
unfolding change_table purge_empty
route_of-change_table change t key via s =
    let changed = change_routes change t.destinations in
    let d = change_routes-HasDistinctKeys change t.destinations s.distinct in
    rw (get-delete_all (empty_destinations changed) key changed, empties-get key changed d)
      (route_in-kept via (map_get key changed)
        ∙ ap (route_in via) (get-change_routes change key t.destinations))

-- The same route, but for the one key that was taken out.
route_in-changed_delete :
    (gone via : List ℕ) (found : Option DestinationState)
    → route_in via (changed_in (map_delete gone) found)
      ≡ (if text_eq gone via then none else route_in via found)
unfolding route_in changed_in
route_in-changed_delete gone via none = ground arith
route_in-changed_delete gone via (some dest) = get-delete gone via dest.routes

unlisted {ℓ} :
    {V : Type ℓ} (gone : List ℕ) (ks : List (List ℕ)) (m : TextMap V)
    → map_get gone (delete_all ks (map_delete gone m)) ≡ none
unlisted gone ks m =
    let same = text_eq_refl gone in
    rw (get-delete_all ks gone (map_delete gone m), get-delete gone gone m, same) (ground arith)

-- When a neighbour on a port goes down, in a table made by the operations: no destination has a route
-- over that neighbour on that port any more, every other route is found as before, and the neighbour
-- is not listed.
pub route_of-mark_neighbour_down :
    (o : RoutingOptions) (t : RoutingTable) (port_id : List ℕ) (neighbour : Callsign)
    → IsSound o t
    → ((key via : List ℕ)
        → route_of (mark_neighbour_down port_id neighbour t).0 key via
          ≡ (if text_eq (neighbour_key port_id neighbour) via then none else route_of t key via))
      × (map_get
            (neighbour_key port_id neighbour)
            (mark_neighbour_down port_id neighbour t).0.neighbours
          ≡ none)
unfolding mark_neighbour_down prune_orphan_neighbours drop_neighbours delete_all change_table
route_of-mark_neighbour_down o t port_id neighbour s =
    let gone = neighbour_key port_id neighbour in
    (
      λ key via.
          route_of-change_table (map_delete gone) t key via s
          ∙ route_in-changed_delete gone via (map_get key t.destinations),
      unlisted gone
          (orphans (change_table (map_delete gone) t).destinations (map_delete gone t.neighbours))
          t.neighbours,
    )

-- `n` sweeps, one after another.
unfoldable pub sweeps : ℕ → RoutingTable → RoutingTable
sweeps zero t = t
sweeps (suc n) t = sweeps n (sweep t).0

aged_in :
    (via : List ℕ) (found : Option DestinationState) (limit : ℕ)
    → ((dest : DestinationState) → found ≡ some dest → AreRoutes limit dest.routes)
    → route_in via (changed_in survivors found) ≡ aged (route_in via found)
unfolding route_in changed_in aged
aged_in via none limit h = refl
aged_in via (some dest) limit h = get-survivors via dest.routes (h dest refl).distinct

route_of-sweep :
    {o : RoutingOptions} (t : RoutingTable) (key via : List ℕ)
    → IsSound o t
    → route_of (sweep t).0 key via ≡ aged (route_of t key via)
unfolding sweep prune_orphan_neighbours
route_of-sweep t key via s =
    route_of-change_table survivors t key via s
    ∙ aged_in via (map_get key t.destinations) t.options.max_routes_per_destination
        (λ dest e. routes_found t key dest s e)

-- What is left of a route after so many sweeps.
unfoldable pub aged_by : ℕ → Option RouteState → Option RouteState
aged_by n none = none
aged_by n (some route) =
    if leb route.obsolescence n
    then none
    else some (record route { obsolescence = route.obsolescence - n })

aged-then : (n : ℕ) (r : Option RouteState) → aged_by (suc n) (aged r) ≡ aged_by (suc (suc n)) r
unfolding aged aged_by
aged-then n none = refl
aged-then n (some route) = elim (Bool-cases (leb (route.obsolescence - 1) 0)) [
  | inl old ↦
      let gone : leb route.obsolescence (suc (suc n)) ≡ true = ground arith in rw (old, gone) refl
  | inr young ↦
      let same : leb (route.obsolescence - 1) (suc n) ≡ leb route.obsolescence (suc (suc n)) =
        ground arith in
      let left : route.obsolescence - 1 - suc n ≡ route.obsolescence - suc (suc n) = omega arith in
      rw (young) (rw (same, left) refl)
]

aged-once : (r : Option RouteState) → aged r ≡ aged_by 1 r
unfolding aged aged_by
aged-once none = refl
aged-once (some route) =
    let same : leb (route.obsolescence - 1) 0 ≡ leb route.obsolescence 1 = ground arith in
    rw (same) refl

-- With sweeps alone, in a table made by the operations: after n + 1 sweeps a route is gone exactly when
-- its obsolescence was at most n + 1, and else it is the route as it was with its obsolescence lower
-- by n + 1.
pub route_of-sweeps :
    (o : RoutingOptions) (n : ℕ) (t : RoutingTable) (key via : List ℕ)
    → IsSound o t
    → route_of (sweeps (suc n) t) key via ≡ aged_by (suc n) (route_of t key via)
unfolding sweeps
route_of-sweeps o zero t key via s = route_of-sweep t key via s ∙ aged-once (route_of t key via)
route_of-sweeps o (suc n) t key via s =
    route_of-sweeps o n (sweep t).0 key via (sweep-IsSound t s)
    ∙ (ap (aged_by (suc n)) (route_of-sweep t key via s) ∙ aged-then n (route_of t key via))
