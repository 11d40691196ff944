-- ===== src/NetRom/Routing/Others.antt =====
-- netrom/routing-table.ts: what is learned of one destination leaves the others alone.
use ax25_ts.Base.{
  Bool, Bool-cases, List, Option, Option-cases, [], ap, false, inl, inr, is_empty, leb, ltb, none,
  not, refl, some, ℕ, ◌&&◌, ◌||◌, ◌∙◌, ◌≡◌,
}
use ax25_ts.Base.Maps.{get-delete, get-set, map_delete, map_get, map_set, text_eq, text_eq→≡}
use ax25_ts.Callsign.{Callsign}
use ax25_ts.Callsign.Text.{to_text}
use ax25_ts.NetRom.Quality.{netrom_quality_min}
use ax25_ts.NetRom.Routing.{
  DestinationState, Inp3RouteMetric, RouteState, RoutingTable, neighbour_key,
}
use ax25_ts.NetRom.Routing.Routes.{
  add_destination, drop_route, has_any_inp3_route, has_metric, is_full, note_withdrawn, rename,
  set_destination, store_inp3_route, store_route, upsert_found, upsert_inp3_found, withdraw_found,
  withdraw_route, without_metric,
}

module _ (t : RoutingTable) (key : List ℕ) where
  abbrev pub LeavesAlone : RoutingTable → Type 0
  LeavesAlone after = map_get key after.destinations ≡ map_get key t.destinations

  set-LeavesAlone :
      (k : List ℕ) (dest : DestinationState)
      → text_eq k key ≡ false
      → LeavesAlone (set_destination t k dest)
  unfolding set_destination
  set-LeavesAlone k dest h = rw (get-set k key dest t.destinations, h) refl

  drop-LeavesAlone :
      (k via : List ℕ) (dest : DestinationState)
      → text_eq k key ≡ false
      → LeavesAlone (drop_route t k via dest)
  unfolding drop_route
  drop-LeavesAlone k via dest h = elim (Bool-cases (is_empty (map_delete via dest.routes))) [
    | inl bare ↦ rw bare (rw (get-delete k key t.destinations, h) refl)
    | inr kept ↦ rw kept (set-LeavesAlone k _ h)
  ]

  added-LeavesAlone :
      (c : Callsign) (alias : List ℕ) (dest : DestinationState)
      → text_eq (to_text c) key ≡ false
      → LeavesAlone (set_destination (add_destination t c alias) (to_text c) dest)
  unfolding set_destination add_destination
  added-LeavesAlone c alias dest h =
      rw
        (
          get-set (to_text c) key dest
              (map_set (to_text c) (record { alias = alias; routes = [] }) t.destinations),
          h,
        )
        (rw (get-set (to_text c) key (record { alias = alias; routes = [] }) t.destinations, h)
          refl)

  pub upsert_found-LeavesAlone :
      (found : Option DestinationState) (c : Callsign) (alias port_id : List ℕ) (via : Callsign)
      (quality : ℕ) (acceptable : Bool)
      → text_eq (to_text c) key ≡ false
      → LeavesAlone (upsert_found t found c alias port_id via quality acceptable)
  unfolding upsert_found store_route
  upsert_found-LeavesAlone none c alias port_id via quality acceptable h =
      elim (Bool-cases (not acceptable || is_full t)) [
        | inl idle ↦ rw idle refl
        | inr news ↦ rw news (added-LeavesAlone c alias _ h)
      ]
  upsert_found-LeavesAlone (some found) c alias port_id via quality acceptable h =
      elim (Bool-cases acceptable) [
        | inl good ↦ rw good (set-LeavesAlone (to_text c) _ h)
        | inr bad ↦
            rw bad (drop-LeavesAlone (to_text c) (neighbour_key port_id via) (rename alias found) h)
      ]

module _ (t : RoutingTable) (key : List ℕ) where
  pub upsert_inp3_found-LeavesAlone :
      (found : Option DestinationState) (c : Callsign) (alias port_id : List ℕ) (via : Callsign)
      (metric : Inp3RouteMetric)
      → text_eq (to_text c) key ≡ false
      → LeavesAlone t key (upsert_inp3_found t found c alias port_id via metric)
  unfolding upsert_inp3_found store_inp3_route
  upsert_inp3_found-LeavesAlone none c alias port_id via metric h = elim (Bool-cases (is_full t)) [
    | inl idle ↦ rw idle refl
    | inr news ↦ rw news (added-LeavesAlone t key c alias _ h)
  ]
  upsert_inp3_found-LeavesAlone (some found) c alias port_id via metric h =
      set-LeavesAlone t key (to_text c) _ h

  without_metric-LeavesAlone :
      (k via : List ℕ) (dest : DestinationState) (route : RouteState)
      → text_eq k key ≡ false
      → LeavesAlone t key (without_metric t k via dest route)
  unfolding without_metric
  without_metric-LeavesAlone k via dest route h =
      elim (Bool-cases
        (ltb netrom_quality_min route.quality && leb t.options.min_quality route.quality)) [
          | inl usable ↦ rw usable (set-LeavesAlone t key k _ h)
          | inr useless ↦ rw useless (drop-LeavesAlone t key k via dest h)
        ]

  note-LeavesAlone :
      (after : RoutingTable) (k : List ℕ) (c : Callsign)
      → LeavesAlone t key after
      → LeavesAlone t key (note_withdrawn after k c)
  unfolding note_withdrawn
  note-LeavesAlone after k c h = elim (Bool-cases (has_any_inp3_route after k)) [
    | inl e ↦ rw e h
    | inr f ↦ rw f h
  ]

  withdraw_route-LeavesAlone :
      (c : Callsign) (via : List ℕ) (dest : DestinationState) (route : Option RouteState)
      → text_eq (to_text c) key ≡ false
      → LeavesAlone t key (withdraw_route t c via dest route)
  unfolding withdraw_route
  withdraw_route-LeavesAlone c via dest none h = refl
  withdraw_route-LeavesAlone c via dest (some route) h =
      elim (Bool-cases (not (has_metric route.inp3))) [
        | inl nothing ↦ rw nothing refl
        | inr metric ↦ rw metric (
            note-LeavesAlone _ (to_text c) c
              (without_metric-LeavesAlone (to_text c) via dest route h))
      ]

  -- A withdrawal makes no destination.
  pub withdraw_found-none :
      (c : Callsign) (via : List ℕ)
      → map_get key t.destinations ≡ none
      → map_get key (withdraw_found t (map_get (to_text c) t.destinations) c via).destinations
        ≡ none
  unfolding withdraw_found
  withdraw_found-none c via h = elim (Option-cases (map_get (to_text c) t.destinations)) [
    | inl missing ↦ rw missing h
    | inr (dest, found) ↦ elim (Bool-cases (text_eq (to_text c) key)) [
      | inl here ↦ absurd (
          let same = ap (λ k. map_get k t.destinations) (text_eq→≡ (to_text c) key here) in
          cc (same, found, h))
      | inr there ↦ rw found (withdraw_route-LeavesAlone c via dest _ there ∙ h)
    ]
  ]
