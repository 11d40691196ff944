-- ===== src/NetRom/Routing/Advertised.antt =====
-- netrom/routing-table.ts: what is advertised of each destination, and in which order.
pub mod Entries
use Prim.Native.Nat.{Ordering, compare}
use ax25_ts.Base.{
  All, All-imp, Has, List, Option, Option-cases, [], ap, arith, inl, inr, none, refl, some, sym, ℕ,
  ◌∙◌, ◌∷◌, ◌≡◌, ◌≢◌, ◌≤◌, ◌⊎◌,
}
use ax25_ts.Callsign.Text.{to_text}
use ax25_ts.NetRom.Routing.{
  RouteState, RoutingTable, advert_precedence, compare_ordinal, compare_ports, or_else, reversed,
}
use ax25_ts.NetRom.Routing.Adverts.{best_of, better_route, collect, cons_some, prefer}

module _ {ℓ κ} {A : Type ℓ} {B : Type κ} (f : A → Option B) where
  -- What holds of each value that an element gives holds of all that is collected.
  pub All-collect {μ ν} :
      (P : A → Type μ) (Q : B → Type ν)
      → ((a : A) (b : B) → P a → f a ≡ some b → Q b)
      → (xs : List A) → All P xs
      → All Q (collect f xs)
  unfolding collect cons_some
  All-collect P Q h [] p = tt
  All-collect P Q h (a ∷ xs) p = elim (Option-cases (f a)) [
    | inl e ↦ rw e (All-collect P Q h xs p.1)
    | inr (b, e) ↦ rw e (h a b p.0 e, All-collect P Q h xs p.1)
  ]

  pub Has-collect :
      (P : A → Type 0) (Q : B → Type 0)
      → ((a : A) → P a → (b : B) × ((f a ≡ some b) × Q b))
      → (xs : List A) → Has P xs
      → Has Q (collect f xs)
  unfolding collect cons_some
  Has-collect P Q h [] p = absurd p
  Has-collect P Q h (a ∷ xs) (inl p) = let found = h a p in rw ((found.1).0) (inl (found.1).1)
  Has-collect P Q h (a ∷ xs) (inr p) = elim (Option-cases (f a)) [
    | inl e ↦ rw e (Has-collect P Q h xs p)
    | inr (b, e) ↦ rw e (inr (Has-collect P Q h xs p))
  ]

pub All-self : {A : Type 0} (xs : List A) → All (λ a. Has (λ b. b ≡ a) xs) xs
All-self [] = tt
All-self (a ∷ xs) = (inl refl, All-imp _ _ (λ b h. inr h) xs (All-self xs))

pub or_else-gt : (m n : ℕ) (next : Ordering) → or_else (compare m n) next ≡ Ordering.gt → n ≤ m
unfolding or_else
or_else-gt m n next h = ground arith

pub or_else-not_gt : (m n : ℕ) (next : Ordering) → or_else (compare m n) next ≢ Ordering.gt → m ≤ n
unfolding or_else
or_else-not_gt m n next h = ground arith

-- One of the two, of at least the quality of both.
prefer_lem :
    (o next : Ordering) (a b : RouteState)
    → o ≡ or_else (compare a.quality b.quality) next
    → ((prefer o a b ≡ a) ⊎ (prefer o a b ≡ b))
      × ((a.quality ≤ (prefer o a b).quality) × (b.quality ≤ (prefer o a b).quality))
unfolding prefer or_else
prefer_lem Ordering.lt next a b e =
    (inr refl, (or_else-not_gt a.quality b.quality next (λ f. cc (e, f)), omega arith))
prefer_lem Ordering.eq next a b e =
    (inr refl, (or_else-not_gt a.quality b.quality next (λ f. cc (e, f)), omega arith))
prefer_lem Ordering.gt next a b e =
    (inl refl, (omega arith, or_else-gt a.quality b.quality next (sym e)))

pub some-injective : {a b : RouteState} → ◌≡◌ {A = Option RouteState} (some a) (some b) → a ≡ b
some-injective e = cc e

same_quality :
    {a b : RouteState} → ◌≡◌ {A = Option RouteState} (some a) (some b) → a.quality ≡ b.quality
same_quality e = ap (λ r. r.quality) (some-injective e)

better_route_lem :
    (t : RoutingTable) (best : Option RouteState) (route : RouteState)
    → ((better_route t best route ≡ route) ⊎ (best ≡ some (better_route t best route)))
      × ((route.quality ≤ (better_route t best route).quality)
          × ((x : RouteState) → best ≡ some x → x.quality ≤ (better_route t best route).quality))
unfolding better_route or_else advert_precedence
better_route_lem t none route = (inl refl, (omega arith, λ x e. absurd (cc e)))
better_route_lem t (some best) route =
    let o = advert_precedence t route best in
    let chosen =
      prefer_lem o
        (or_else (compare route.obsolescence best.obsolescence) (
          or_else (reversed (compare_ports t route.port_id best.port_id))
            (reversed (compare_ordinal (to_text route.neighbour) (to_text best.neighbour)))))
        route best refl in
    (
      elim chosen.0 [ inl new ↦ inl new | inr old ↦ inr (ap some (sym old)) ],
      ((chosen.1).0, λ x e. omega (arith, same_quality e, (chosen.1).1)),
    )

pub best_of_lem :
    (t : RoutingTable) (best : Option RouteState) (routes : List RouteState) (b : RouteState)
    → best_of t best routes ≡ some b
    → ((best ≡ some b) ⊎ Has (λ r. r ≡ b) routes)
      × (All (λ r. r.quality ≤ b.quality) routes
          × ((x : RouteState) → best ≡ some x → x.quality ≤ b.quality))
unfolding best_of
best_of_lem t best [] b e = (inl e, (tt, λ x f. omega (arith, same_quality (sym f ∙ e))))
best_of_lem t best (route ∷ routes) b e =
    let w = better_route t best route in
    let rest = best_of_lem t (some w) routes b e in
    let chosen = better_route_lem t best route in
    let over = (rest.1).1 w refl in
    (
      elim rest.0 [
        | inl here ↦ elim chosen.0 [
          | inl new ↦ inr (inl (sym new ∙ some-injective here))
          | inr old ↦ inl (old ∙ here)
        ]
        | inr later ↦ inr (inr later)
      ],
      (
        (omega (arith, over, (chosen.1).0), (rest.1).0),
        λ x f. omega (arith, over, (chosen.1).1 x f),
      ),
    )
