-- ===== src/NetRom/Routing/Advertised/Entries.antt =====
-- netrom/routing-table.ts (buildAdvertisement): the entries of the advertisement.
use Prim.Native.Nat.{Ordering}
use ax25_ts.Base.{
  All, Bool, Bool-cases, Has, Has-imp, List, Option-cases, [], ap, arith, false, inl, inr, leb, ltb,
  none, refl, some, subst, sym, true, ℕ, ◌∷◌, ◌≡◌, ◌≢◌, ◌≤◌,
}
use ax25_ts.Base.Maps.{map_get, values}
use ax25_ts.Callsign.{Callsign}
use ax25_ts.Kiss.{fresh}
use ax25_ts.NetRom.Nodes.{NodesRoutingEntry}
use ax25_ts.NetRom.Packet.{and_then_some}
use ax25_ts.NetRom.Quality.{netrom_quality_min}
use ax25_ts.NetRom.Routing.{DestinationState, RouteState, RoutingTable}
use ax25_ts.NetRom.Routing.Advertised.{
  All-collect, All-self, Has-collect, best_of_lem, or_else-gt, or_else-not_gt,
}
use ax25_ts.NetRom.Routing.Adverts.{
  Entry, advert_entry, advert_of_best, advert_order, best_of, better_route, build_advertisement,
  collect,
}
use ax25_ts.NetRom.Routing.Sorted.{All-sort, Has-sort, IsSorted, sort-IsSorted}

abbrev advert_for : DestinationState → Callsign → RouteState → NodesRoutingEntry
advert_for dest c b = record {
  destination = c;
  destination_alias = dest.alias;
  best_neighbour = b.neighbour;
  best_quality = b.quality;
}

advert_of_best_lem :
    (m : ℕ) (dest : DestinationState) (c : Callsign) (b : RouteState) (a : NodesRoutingEntry)
    → advert_of_best m dest c (some b) ≡ some a
    → (advert_for dest c b ≡ a) × ((1 ≤ b.quality) × (m ≤ b.obsolescence))
unfolding advert_of_best
advert_of_best_lem m dest c b a e = elim (Bool-cases (leb b.quality netrom_quality_min)) [
  | inl poor ↦ absurd (cc (rw (poor) at e))
  | inr good ↦ elim (Bool-cases (ltb b.obsolescence m)) [
    | inl stale ↦ absurd (cc (rw (good, stale) at e))
    | inr fresh ↦ (cc (rw (good, fresh) at e), (ground arith, ground arith))
  ]
]

no_advert :
    (m : ℕ) (dest : DestinationState) (c : Callsign) (a : NodesRoutingEntry)
    → advert_of_best m dest c none ≢ some a
unfolding advert_of_best
no_advert m dest c a = λ f. cc f

advert_of_entry :
    (t : RoutingTable) (m : ℕ) (e : Entry) (a : NodesRoutingEntry)
    → advert_entry t m e ≡ some a
    → (b : RouteState) × (c : Callsign) × ((map_get e.0 t.callsign_by_key ≡ some c)
        × ((best_of t none (values (e.1).routes) ≡ some b)
            × ((advert_for e.1 c b ≡ a) × ((1 ≤ b.quality) × (m ≤ b.obsolescence)))))
unfolding advert_entry and_then_some
advert_of_entry t m e a h = elim (Option-cases (map_get e.0 t.callsign_by_key)) [
  | inl unknown ↦ absurd (cc (rw (unknown) at h))
  | inr (c, known) ↦ elim (Option-cases (best_of t none (values (e.1).routes))) [
    | inl bare ↦ absurd (no_advert m e.1 c a (rw (known, bare) at h))
    | inr (b, best) ↦
        (b, c, (known, (best, advert_of_best_lem m e.1 c b a (rw (known, best) at h))))
  ]
]

-- The best route of an entry, as the advertisement shows it.
abbrev pub Shows : RoutingTable → ℕ → NodesRoutingEntry → Entry → Type 0
Shows t m a e =
    (map_get e.0 t.callsign_by_key ≡ some a.destination)
    × ((a.destination_alias ≡ (e.1).alias)
        × (Has
              (λ r.
                (a.best_neighbour ≡ r.neighbour)
                × ((a.best_quality ≡ r.quality) × (m ≤ r.obsolescence)))
              (values (e.1).routes)
            × All (λ r. r.quality ≤ a.best_quality) (values (e.1).routes)))

Shows-best :
    (t : RoutingTable) (m : ℕ) (e : Entry) (a : NodesRoutingEntry)
    → advert_entry t m e ≡ some a
    → Shows t m a e × (1 ≤ a.best_quality)
Shows-best t m e a h =
    let (b, c, (known, (best, (same, (good, fresh))))) = advert_of_entry t m e a h in
    let found = best_of_lem t none (values (e.1).routes) b best in
    let among : Has (λ r. r ≡ b) (values (e.1).routes) = elim found.0 [
      | inl none_best ↦ absurd (cc none_best)
      | inr here ↦ here
    ] in
    subst (λ x. Shows t m x e × (1 ≤ x.best_quality)) same
      (
        (
          known,
          (
            refl,
            (
              Has-imp _ _
                  (λ r f. (
                    sym (ap (λ x. x.neighbour) f),
                    (sym (ap (λ x. x.quality) f), omega (arith, fresh, ap (λ x. x.obsolescence) f)),
                  ))
                  (values (e.1).routes) among,
              (found.1).0,
            ),
          ),
        ),
        good,
      )

-- An entry that stands for a destination of the table.
abbrev pub IsAdvert : RoutingTable → ℕ → NodesRoutingEntry → Type 0
IsAdvert t m a = Has (Shows t m a) t.destinations × (1 ≤ a.best_quality)

-- A destination under a known callsign with a usable route, all of whose routes are fresh.
abbrev pub IsDue : RoutingTable → ℕ → Callsign → Entry → Type 0
IsDue t m c e =
    (map_get e.0 t.callsign_by_key ≡ some c)
    × (Has (λ r. 1 ≤ r.quality) (values (e.1).routes)
        × All (λ r. m ≤ r.obsolescence) (values (e.1).routes))

best_of-some :
    (t : RoutingTable) (x : RouteState) (routes : List RouteState)
    → (b : RouteState) × (best_of t (some x) routes ≡ some b)
unfolding best_of
best_of-some t x [] = (x, refl)
best_of-some t x (r ∷ rs) = best_of-some t (better_route t (some x) r) rs

best_of-nonempty :
    (t : RoutingTable) (P : RouteState → Type 0) (routes : List RouteState)
    → Has P routes
    → (b : RouteState) × (best_of t none routes ≡ some b)
unfolding best_of
best_of-nonempty t P [] h = absurd h
best_of-nonempty t P (r ∷ rs) h = best_of-some t (better_route t none r) rs

-- What holds of one and of all holds of one together.
Has-All :
    (P Q : RouteState → Type 0) (xs : List RouteState)
    → Has P xs
    → All Q xs
    → Has (λ x. P x × Q x) xs
Has-All P Q [] h k = absurd h
Has-All P Q (x ∷ xs) (inl h) k = inl (h, k.0)
Has-All P Q (x ∷ xs) (inr h) k = inr (Has-All P Q xs h k.1)

Has-const : {C : Type 0} (xs : List RouteState) → Has (λ x. C) xs → C
Has-const [] h = absurd h
Has-const (x ∷ xs) (inl h) = h
Has-const (x ∷ xs) (inr h) = Has-const xs h

due_entry :
    (t : RoutingTable) (m : ℕ) (c : Callsign) (e : Entry)
    → IsDue t m c e
    → (a : NodesRoutingEntry) × ((advert_entry t m e ≡ some a) × (a.destination ≡ c))
unfolding advert_entry and_then_some advert_of_best
due_entry t m c e (known, (usable, fresh)) =
    let routes = values (e.1).routes in
    let (b, best) = best_of-nonempty t (λ r. 1 ≤ r.quality) routes usable in
    let found = best_of_lem t none routes b best in
    let among : Has (λ r. r ≡ b) routes = elim found.0 [
      | inl none_best ↦ absurd (cc none_best)
      | inr here ↦ here
    ] in
    let good : 1 ≤ b.quality = Has-const routes (
      Has-imp _ _ (λ r h. omega (arith, h.0, h.1)) routes
        (Has-All _ _ routes usable (found.1).0)) in
    let young : m ≤ b.obsolescence = Has-const routes (
      Has-imp _ _ (λ r h. omega (arith, ap (λ x. x.obsolescence) h.0, h.1)) routes
        (Has-All _ _ routes among fresh)) in
    let not_poor : leb b.quality netrom_quality_min ≡ false = ground (arith, good) in
    let not_stale : ltb b.obsolescence m ≡ false = ground (arith, young) in
    (advert_for e.1 c b, (rw (known, best) (rw (not_poor, not_stale) refl), refl))

gt_of :
    (o : Ordering)
    → elim o as (λ x. Bool) [ Ordering.gt ↦ true | _ ↦ false ] ≡ true
    → o ≡ Ordering.gt
gt_of Ordering.lt h = absurd (cc h)
gt_of Ordering.eq h = absurd (cc h)
gt_of Ordering.gt h = refl

not_gt :
    (o : Ordering)
    → elim o as (λ x. Bool) [ Ordering.gt ↦ true | _ ↦ false ] ≡ false
    → o ≢ Ordering.gt
not_gt Ordering.lt h = λ e. cc e
not_gt Ordering.eq h = λ e. cc e
not_gt Ordering.gt h = λ e. cc h

abbrev pub IsNoBetter : NodesRoutingEntry → NodesRoutingEntry → Type 0
IsNoBetter a b = b.best_quality ≤ a.best_quality

-- The advertisement of a table: each entry is a destination of the table under its callsign and alias,
-- with the neighbour and the quality of one of its routes that is not older than the threshold allows,
-- where no route of the destination is of a better quality and the quality is not zero; the entries are
-- in descending order of quality; and each destination with a known callsign and a route of a quality
-- above zero, all of whose routes are fresh enough, has an entry.
pub build_advertisement_lem :
    (t : RoutingTable) (m : ℕ)
    → All (IsAdvert t m) (build_advertisement t m)
      × (IsSorted IsNoBetter (build_advertisement t m)
          × ((c : Callsign)
              → Has (IsDue t m c) t.destinations
              → Has (λ a. a.destination ≡ c) (build_advertisement t m)))
unfolding build_advertisement advert_order
build_advertisement_lem t m =
    let entries = collect (advert_entry t m) t.destinations in
    (
      All-sort advert_order (IsAdvert t m) entries (
          All-collect (advert_entry t m) (λ e. Has (λ x. x ≡ e) t.destinations) (IsAdvert t m)
            (λ e a among h.
              let shown = Shows-best t m e a h in
              (
                Has-imp _ (Shows t m a) (λ x same. subst (Shows t m a) (sym same) shown.0)
                    t.destinations among,
                shown.1,
              ))
            t.destinations (All-self t.destinations)),
      (
        sort-IsSorted advert_order IsNoBetter
            (λ a b h. or_else-not_gt b.best_quality a.best_quality _ (not_gt (advert_order a b) h))
            (λ a b h. or_else-gt b.best_quality a.best_quality _ (gt_of (advert_order a b) h))
            (λ a b c h k. omega (arith, h, k)) entries,
        λ c due.
            Has-sort advert_order (λ a. a.destination ≡ c) entries
              (Has-collect (advert_entry t m) (IsDue t m c) (λ a. a.destination ≡ c)
                (λ e h. due_entry t m c e h) t.destinations due),
      ),
    )
