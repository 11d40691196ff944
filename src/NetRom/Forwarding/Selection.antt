-- ===== src/NetRom/Forwarding/Selection.antt =====
-- netrom/forwarding.ts: the selections of a route, for any property that the eligible routes have.
use native.Mathlib.Nat.{mod-lt}
use ax25_ts.Base.{
  All, Bool-cases, List, Option, [], arith, false, inl, inr, ltb, none, some, true, ℕ, ◌%◌, ◌+◌,
  ◌-◌, ◌<◌, ◌==◌, ◌∷◌, ◌≡◌,
}
use ax25_ts.Callsign.{Callsign}
use ax25_ts.Callsign.Text.{equals}
use ax25_ts.NetRom.Forwarding.{
  consider_timed, is_earlier, or_earlier, pick_weighted, select_best, select_inp3_loop,
  select_weighted, total_quality,
}
use ax25_ts.NetRom.Routing.{Inp3RouteMetric, RouteState}

abbrev pub IfSome : (RouteState → Type 0) → Option RouteState → Type 0
IfSome P none = Unit
IfSome P (some route) = P route

abbrev pub IsSome : (RouteState → Type 0) → Option RouteState → Type 0
IsSome P none = ⊥
IsSome P (some route) = P route

IsSome→IfSome :
    (P : RouteState → Type 0) (found : Option RouteState) → IsSome P found → IfSome P found
IsSome→IfSome P none h = tt
IsSome→IfSome P (some route) h = h

-- Not the way the packet came.
abbrev pub Elsewhere : Callsign → (RouteState → Type 0) → RouteState → Type 0
Elsewhere from P route = equals route.neighbour from ≡ false → P route

-- The selections keep to a property that the eligible routes have.
module _ (from : Callsign) (P : RouteState → Type 0) where
  or_earlier-IfSome :
      (route : RouteState) (m : Inp3RouteMetric) (best : Option RouteState)
      → P route
      → IfSome P best
      → IfSome P (or_earlier route m best)
  unfolding or_earlier
  or_earlier-IfSome route m none p b = p
  or_earlier-IfSome route m (some best) p b =
      elim (Bool-cases (is_earlier route m best best.inp3)) [
        | inl better ↦ rw (better) p
        | inr worse ↦ rw (worse) b
      ]

  consider_timed-IfSome :
      (route : RouteState) (metric : Option Inp3RouteMetric) (best : Option RouteState)
      → Elsewhere from P route
      → IfSome P best
      → IfSome P (consider_timed from route metric best)
  unfolding consider_timed
  consider_timed-IfSome route none best p b = b
  consider_timed-IfSome route (some m) best p b = elim (Bool-cases (equals route.neighbour from)) [
    | inl back ↦ rw (back) b
    | inr other ↦ rw (other) (or_earlier-IfSome route m best (p other) b)
  ]

  pub select_inp3_loop-IfSome :
      (best : Option RouteState) (routes : List RouteState)
      → All (Elsewhere from P) routes
      → IfSome P best
      → IfSome P (select_inp3_loop from best routes)
  unfolding select_inp3_loop
  select_inp3_loop-IfSome best [] a b = b
  select_inp3_loop-IfSome best (route ∷ routes) a b =
      select_inp3_loop-IfSome (consider_timed from route route.inp3 best) routes a.1
        (consider_timed-IfSome route route.inp3 best a.0 b)

  pub select_best-IfSome :
      (routes : List RouteState)
      → All (Elsewhere from P) routes
      → IfSome P (select_best routes from)
  unfolding select_best
  select_best-IfSome [] a = tt
  select_best-IfSome (route ∷ routes) a = elim (Bool-cases (equals route.neighbour from)) [
    | inl back ↦ rw (back) (select_best-IfSome routes a.1)
    | inr other ↦ rw (other) (a.0 other)
  ]

  -- The second loop picks a route when the target is below the total of the first.
  pick_weighted-IsSome :
      (routes : List RouteState) (target : ℕ)
      → All (Elsewhere from P) routes
      → target < total_quality from routes
      → IsSome P (pick_weighted from routes target)
  unfolding pick_weighted total_quality
  pick_weighted-IsSome [] target a h = absurd (omega (arith, h))
  pick_weighted-IsSome (route ∷ routes) target a h =
      elim (Bool-cases (equals route.neighbour from)) [
        | inl back ↦ rw (back) (pick_weighted-IsSome routes target a.1 (rw (back) at h))
        | inr other ↦ elim (Bool-cases (route.quality == 0)) [
          | inl nothing ↦
              let unusable : ltb 0 route.quality ≡ false = ground arith in
              rw (other, nothing)
                (pick_weighted-IsSome routes target a.1 (rw (other, unusable) at h))
          | inr some_quality ↦
              let usable : ltb 0 route.quality ≡ true = ground arith in
              let below : target < route.quality + total_quality from routes =
                rw (other, usable) at h in
              elim (Bool-cases (ltb target route.quality)) [
                | inl here ↦ rw (other, some_quality, here) (a.0 other)
                | inr later ↦
                    rw (other, some_quality, later)
                      (pick_weighted-IsSome routes (target - route.quality) a.1 (ground arith))
              ]
        ]
      ]

  pub select_weighted-IfSome :
      (routes : List RouteState) (hash : ℕ)
      → All (Elsewhere from P) routes
      → IfSome P (select_weighted routes from hash)
  unfolding select_weighted
  select_weighted-IfSome routes hash a = elim (Bool-cases (total_quality from routes == 0)) [
    | inl none_usable ↦ rw (none_usable) tt
    | inr usable ↦
        let some_total : 0 < total_quality from routes = ground arith in
        rw (usable) (
          IsSome→IfSome P (pick_weighted from routes _)
            (pick_weighted-IsSome routes _ a (mod-lt hash some_total)))
  ]

  pub select_weighted-IsSome :
      (routes : List RouteState) (hash : ℕ)
      → All (Elsewhere from P) routes
      → 0 < total_quality from routes
      → IsSome P (select_weighted routes from hash)
  unfolding select_weighted
  select_weighted-IsSome routes hash a h =
      let usable : (total_quality from routes == 0) ≡ false = ground arith in
      rw (usable) (pick_weighted-IsSome routes (hash % total_quality from routes) a (mod-lt hash h))
