-- ===== src/NetRom/Routing/Poison.antt =====
-- netrom/routing-table.ts (buildRif): what a neighbour is told.
use ax25_ts.Base.{
  All, All-append, All-imp, Bool, Bool-cases, Has, Has-imp, List, Option, Option-cases, [], ap,
  arith, false, if◌then◌else◌, inl, inr, map, none, refl, some, subst, sym, true, ℕ, ◌++◌, ◌<◌,
  ◌||◌, ◌∙◌, ◌∷◌, ◌≡◌, ◌⊎◌,
}
use ax25_ts.Base.Maps.{map_get, mem_text, text_eq, values}
use ax25_ts.Callsign.{Callsign}
use ax25_ts.Callsign.Text.{to_text}
use ax25_ts.Kiss.{emitted}
use ax25_ts.NetRom.Inp3.{Inp3Rip, inp3_horizon_ms}
use ax25_ts.NetRom.Packet.{and_then_some}
use ax25_ts.NetRom.Routing.{Inp3RouteMetric, RoutingTable, sort}
use ax25_ts.NetRom.Routing.Advertised.{All-collect, All-self}
use ax25_ts.NetRom.Routing.Adverts.{
  Entry, TimedRip, build_rif, call_order, collect, is_via, ordered_rips, quantise10, rip_at,
  rip_entry, rip_of_metric, rip_order, withdrawn_rip,
}
use ax25_ts.NetRom.Routing.Sorted.{All-sort}

All-map {ℓ κ μ} :
    {A : Type ℓ} {B : Type κ} (f : A → B) (P : B → Type μ) (xs : List A)
    → All (λ a. P (f a)) xs
    → All P (map f xs)
All-map f P [] h = tt
All-map f P (x ∷ xs) h = (h.0, All-map f P xs h.1)

-- A destination of the table under the callsign of the record, at the horizon when it has a route over
-- the neighbour that is told, and below it otherwise.
abbrev pub Tells : RoutingTable → List ℕ → Inp3Rip → Entry → Type 0
Tells t target_key r e =
    (map_get e.0 t.callsign_by_key ≡ some r.destination)
    × ((is_via target_key (values (e.1).routes) ≡ true → r.target_time_ms ≡ inp3_horizon_ms)
        × (is_via target_key (values (e.1).routes) ≡ false → r.target_time_ms < inp3_horizon_ms))

quantised : (n : ℕ) → quantise10 n < inp3_horizon_ms
unfolding quantise10
quantised n = omega arith

rip_time :
    (poison : Bool) (n : ℕ)
    → (poison ≡ true → (if poison then inp3_horizon_ms else quantise10 n) ≡ inp3_horizon_ms)
      × (poison ≡ false → (if poison then inp3_horizon_ms else quantise10 n) < inp3_horizon_ms)
rip_time true n = (λ h. refl, λ h. absurd (cc h))
rip_time false n = (λ h. absurd (cc h), λ h. quantised n)

just_rip : {a b : TimedRip} → ◌≡◌ {A = Option TimedRip} (some a) (some b) → a ≡ b
just_rip f = cc f

metric-Tells :
    (t : RoutingTable) (target_key : List ℕ) (e : Entry) (c : Callsign)
    (metric : Option Inp3RouteMetric) (x : TimedRip)
    → map_get e.0 t.callsign_by_key ≡ some c
    → rip_of_metric (is_via target_key (values (e.1).routes)) c metric ≡ some x
    → Tells t target_key x.0 e
unfolding rip_of_metric
metric-Tells t target_key e c none x known h = absurd (cc h)
metric-Tells t target_key e c (some metric) x known h =
    let same = just_rip h in
    subst (λ y. Tells t target_key y.0 e) same
      (known, rip_time (is_via target_key (values (e.1).routes)) metric.target_time_ms)

rip_entry-Tells :
    (t : RoutingTable) (my_key target_key : List ℕ) (e : Entry) (x : TimedRip)
    → rip_entry t my_key target_key e ≡ some x
    → Tells t target_key x.0 e
unfolding rip_entry and_then_some
rip_entry-Tells t my_key target_key e x h = elim (Bool-cases (text_eq e.0 my_key)) [
  | inl own ↦ absurd (cc (rw (own) at h))
  | inr other ↦ elim (Option-cases (map_get e.0 t.callsign_by_key)) [
    | inl unknown ↦ absurd (cc (rw (other, unknown) at h))
    | inr (c, known) ↦ metric-Tells t target_key e c _ x known (rw (other, known) at h)
  ]
]

withdrawn_rip_lem :
    (my_key : List ℕ) (emitted : List (List ℕ)) (wd : Callsign) (r : Inp3Rip)
    → withdrawn_rip my_key emitted wd ≡ some r
    → (rip_at inp3_horizon_ms wd ≡ r) × (text_eq (to_text wd) my_key ≡ false)
unfolding withdrawn_rip
withdrawn_rip_lem my_key emitted wd r h =
    elim (Bool-cases (text_eq (to_text wd) my_key || mem_text (to_text wd) emitted)) [
      | inl told ↦ absurd (cc (rw (told) at h))
      | inr news ↦ (cc (rw (news) at h), ground arith)
    ]

-- A destination of the table as `Tells` has it, or one of those just withdrawn, at the horizon.
abbrev pub IsTold : RoutingTable → List ℕ → List Callsign → Inp3Rip → Type 0
IsTold t target_key withdrawn r =
    Has (Tells t target_key r) t.destinations
    ⊎ ((r.target_time_ms ≡ inp3_horizon_ms) × Has (λ c. c ≡ r.destination) withdrawn)

ordered-Tells :
    (t : RoutingTable) (my_key target_key : List ℕ)
    → All (λ r. Has (Tells t target_key r) t.destinations) (ordered_rips t my_key target_key)
unfolding ordered_rips
ordered-Tells t my_key target_key =
    let timed = collect (rip_entry t my_key target_key) t.destinations in
    All-map _ _ (sort rip_order timed) (
      All-sort rip_order (λ x. Has (Tells t target_key x.0) t.destinations) timed
        (All-collect (rip_entry t my_key target_key) (λ e. Has (λ x. x ≡ e) t.destinations)
          (λ x. Has (Tells t target_key x.0) t.destinations)
          (λ e x among h.
            Has-imp _ (Tells t target_key x.0)
              (λ d same.
                subst (Tells t target_key x.0) (sym same)
                  (rip_entry-Tells t my_key target_key e x h))
              t.destinations among)
          t.destinations (All-self t.destinations)))

withdrawn-IsTold :
    (t : RoutingTable) (my_key target_key : List ℕ) (emitted : List (List ℕ))
    (withdrawn : List Callsign)
    → All
        (IsTold t target_key withdrawn)
        (collect (withdrawn_rip my_key emitted) (sort call_order withdrawn))
withdrawn-IsTold t my_key target_key emitted withdrawn =
    All-collect (withdrawn_rip my_key emitted) (λ c. Has (λ x. x ≡ c) withdrawn)
      (IsTold t target_key withdrawn)
      (λ c r among h.
        let same = (withdrawn_rip_lem my_key emitted c r h).0 in
        inr (
          sym (ap (λ x. x.target_time_ms) same),
          Has-imp _ (λ x. x ≡ r.destination) (λ x f. f ∙ ap (λ y. y.destination) same) withdrawn
              among,
        ))
      (sort call_order withdrawn)
      (All-sort call_order (λ c. Has (λ x. x ≡ c) withdrawn) withdrawn (All-self withdrawn))

-- The routing information frame for a neighbour: it starts with this node itself, at no hops and no
-- time; every other record is either a destination of the table under its callsign, which stands at
-- the horizon when the table has a route to it over that neighbour (on any port) and below the horizon
-- when it has none, or one of the destinations just withdrawn, at the horizon.
pub build_rif_lem :
    (t : RoutingTable) (my_call target : Callsign) (withdrawn : List Callsign)
    → (rest : List Inp3Rip) × (((build_rif t my_call target withdrawn).rips
          ≡ rip_at 0 my_call ∷ rest)
        × All (IsTold t (to_text target) withdrawn) rest)
unfolding build_rif
build_rif_lem t my_call target withdrawn =
    let ordered = ordered_rips t (to_text my_call) (to_text target) in
    let emitted = map (λ r. to_text r.destination) ordered in
    let news = collect (withdrawn_rip (to_text my_call) emitted) (sort call_order withdrawn) in
    (
      ordered ++ news,
      (
        refl,
        All-append (IsTold t (to_text target) withdrawn) ordered news
            (All-imp _ _ (λ r h. inl h) ordered
              (ordered-Tells t (to_text my_call) (to_text target)))
            (withdrawn-IsTold t (to_text my_call) (to_text target) emitted withdrawn),
      ),
    )
