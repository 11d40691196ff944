-- ===== src/NetRom/Routing/Sound/Shrinking.antt =====
-- netrom/routing-table.ts: what the walks over the table do to the routes of one destination.
use ax25_ts.Base.{
  All, Bool-cases, List, Option, [], ap, arith, if◌then◌else◌, inl, inr, leb, length, none, refl,
  some, subst, ℕ, ◌-◌, ◌∙◌, ◌∷◌, ◌≡◌, ◌≤◌,
}
use ax25_ts.Base.Maps.{
  All-delete, All-delete_all, HasDistinctKeys, HasDistinctKeys-delete, HasDistinctKeys-delete_all,
  TextMap, length-delete, length-delete_all, map_delete, map_get, text_eq, text_eq→≡,
}
use ax25_ts.NetRom.Routing.{RouteState}
use ax25_ts.NetRom.Routing.Ageing.{keys_on_port, off_port, survivors}
use ax25_ts.NetRom.Routing.Sound.{IsKeyed}

-- A change of the routes of a destination that only takes routes away.
pub record IsShrinking (change : TextMap RouteState → TextMap RouteState) : Type 0 where
  pub shorter : (routes : TextMap RouteState) → length (change routes) ≤ length routes
  pub keeps_keyed : (routes : TextMap RouteState) → All IsKeyed routes → All IsKeyed (change routes)
  pub keeps_distinct :
      (routes : TextMap RouteState) → HasDistinctKeys routes → HasDistinctKeys (change routes)

-- The route of a key after a sweep.
unfoldable pub aged : Option RouteState → Option RouteState
aged none = none
aged (some route) =
    if leb (route.obsolescence - 1) 0
    then none
    else some (record route { obsolescence = route.obsolescence - 1 })

pub get-survivors :
    (via : List ℕ) (routes : TextMap RouteState)
    → HasDistinctKeys routes
    → map_get via (survivors routes) ≡ aged (map_get via routes)
unfolding map_get survivors aged
get-survivors via [] d = refl
get-survivors via (e ∷ m) d =
    let rest = get-survivors via m d.1 in
    elim (Bool-cases (text_eq e.0 via)) [
      | inl here ↦
          let gone : map_get via m ≡ none =
            subst (λ k. map_get k m ≡ none) (text_eq→≡ e.0 via here) d.0 in
          elim (Bool-cases (leb ((e.1).obsolescence - 1) 0)) [
            | inl old ↦ rw (here, old, rest, gone) refl
            | inr young ↦ rw (here, young) (rw (here) refl)
          ]
      | inr there ↦ elim (Bool-cases (leb ((e.1).obsolescence - 1) 0)) [
        | inl old ↦ rw (there, old) rest
        | inr young ↦ rw (there, young) (rw (there) rest)
      ]
    ]

survivors-IsKeyed :
    (routes : TextMap RouteState) → All IsKeyed routes → All IsKeyed (survivors routes)
unfolding survivors
survivors-IsKeyed [] h = tt
survivors-IsKeyed (e ∷ m) h = elim (Bool-cases (leb ((e.1).obsolescence - 1) 0)) [
  | inl old ↦ rw old (survivors-IsKeyed m h.1)
  | inr young ↦ rw young (h.0, survivors-IsKeyed m h.1)
]

length-survivors : (routes : TextMap RouteState) → length (survivors routes) ≤ length routes
unfolding survivors
length-survivors [] = omega arith
length-survivors (e ∷ m) = ground (arith, length-survivors m)

survivors-HasDistinctKeys :
    (routes : TextMap RouteState) → HasDistinctKeys routes → HasDistinctKeys (survivors routes)
unfolding survivors aged
survivors-HasDistinctKeys [] d = tt
survivors-HasDistinctKeys (e ∷ m) d =
    let gone : map_get e.0 (survivors m) ≡ none = get-survivors e.0 m d.1 ∙ ap aged d.0 in
    elim (Bool-cases (leb ((e.1).obsolescence - 1) 0)) [
      | inl old ↦ rw old (survivors-HasDistinctKeys m d.1)
      | inr young ↦ rw young (gone, survivors-HasDistinctKeys m d.1)
    ]

pub survivors-IsShrinking : IsShrinking survivors
survivors-IsShrinking = record {
  shorter = length-survivors;
  keeps_keyed = survivors-IsKeyed;
  keeps_distinct = survivors-HasDistinctKeys;
}

pub map_delete-IsShrinking : (via : List ℕ) → IsShrinking (map_delete via)
map_delete-IsShrinking via = record {
  shorter = length-delete via;
  keeps_keyed = All-delete IsKeyed via;
  keeps_distinct = HasDistinctKeys-delete via;
}

pub off_port-IsShrinking : (port_id : List ℕ) → IsShrinking (off_port port_id)
unfolding off_port
off_port-IsShrinking port_id = record {
  shorter = λ routes. length-delete_all (keys_on_port port_id routes) routes;
  keeps_keyed = λ routes. All-delete_all IsKeyed (keys_on_port port_id routes) routes;
  keeps_distinct = λ routes. HasDistinctKeys-delete_all (keys_on_port port_id routes) routes;
}
