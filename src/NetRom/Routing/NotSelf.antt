-- ===== src/NetRom/Routing/NotSelf.antt =====
-- netrom/routing-table.ts (ingest, ingestRif): what others claim of this node itself.
use ax25_ts.Base.{
  ==_refl, All, Bool-cases, List, Option, [], false, inl, inr, leb, ltb, max, none, not, refl,
  subst, sym, ℕ, ◌&&◌, ◌+◌, ◌==◌, ◌||◌, ◌∙◌, ◌∷◌, ◌≡◌,
}
use ax25_ts.Base.Maps.{map_get, text_eq, text_eq_refl, text_eq→≡}
use ax25_ts.Callsign.{Callsign, IsValid}
use ax25_ts.Callsign.Text.{equals, to_text, to_text-injective}
use ax25_ts.NetRom.Inp3.{Inp3Rif, Inp3Rip, inp3_horizon_ms, inp3_rip_is_horizon}
use ax25_ts.NetRom.Nodes.{NodesBroadcast, NodesRoutingEntry}
use ax25_ts.NetRom.Routing.{DestinationState, RoutingTable, clamp_quality, neighbour_key}
use ax25_ts.NetRom.Routing.Learning.{
  hear_neighbour, ingest, ingest_entries, ingest_entry, ingest_rif, ingest_rip, ingest_rips,
  or_default, per_hop_increment_ms, sntt_unset,
}
use ax25_ts.NetRom.Routing.Others.{
  upsert_found-LeavesAlone, upsert_inp3_found-LeavesAlone, withdraw_found-none,
}
use ax25_ts.NetRom.Routing.Routes.{upsert_inp3_route, upsert_route, withdraw_inp3}

other_text :
    (a b : Callsign)
    → IsValid a
    → IsValid b
    → equals a b ≡ false
    → text_eq (to_text a) (to_text b) ≡ false
unfolding equals
other_text a b v w h = elim (Bool-cases (text_eq (to_text a) (to_text b))) [
  | inl same ↦
      let e = to_text-injective a b v w (text_eq→≡ (to_text a) (to_text b) same) in
      let f : text_eq a.base a.base && a.ssid == a.ssid ≡ false =
        subst (λ x. equals a x ≡ false) (sym e) h in
      absurd (cc (rw (text_eq_refl a.base, ==_refl a.ssid) at f))
  | inr other ↦ other
]

module _ (my_call : Callsign) (v : IsValid my_call) where
  abbrev own_entry : RoutingTable → Option DestinationState
  own_entry t = map_get (to_text my_call) t.destinations

  ingest_entry-own_entry :
      (t : RoutingTable) (originator : Callsign) (port_id : List ℕ) (path_quality floor : ℕ)
      (entry : NodesRoutingEntry)
      → IsValid entry.destination
      → own_entry (ingest_entry t originator my_call port_id path_quality floor entry) ≡ own_entry t
  unfolding ingest_entry upsert_route
  ingest_entry-own_entry t originator port_id path_quality floor entry w =
      elim (Bool-cases (equals entry.destination my_call)) [
        | inl mine ↦ rw mine refl
        | inr other ↦ rw other (
            upsert_found-LeavesAlone t (to_text my_call) _ entry.destination _ port_id originator _
              _ (other_text entry.destination my_call w v other))
      ]

  ingest_entries-own_entry :
      (t : RoutingTable) (originator : Callsign) (port_id : List ℕ) (path_quality floor : ℕ)
      (entries : List NodesRoutingEntry)
      → All (λ e. IsValid e.destination) entries
      → own_entry (ingest_entries t originator my_call port_id path_quality floor entries)
        ≡ own_entry t
  unfolding ingest_entries
  ingest_entries-own_entry t originator port_id path_quality floor [] w = refl
  ingest_entries-own_entry t originator port_id path_quality floor (entry ∷ entries) w =
      ingest_entries-own_entry (ingest_entry t originator my_call port_id path_quality floor entry)
        originator port_id path_quality floor entries w.1
      ∙ ingest_entry-own_entry t originator port_id path_quality floor entry w.0

  ingest-own_entry :
      (t : RoutingTable) (originator : Callsign) (port_id : List ℕ) (broadcast : NodesBroadcast)
      (neighbour_quality min_quality : Option ℕ) (now : ℕ)
      → IsValid originator
      → equals originator my_call ≡ false
      → All (λ e. IsValid e.destination) broadcast.entries
      → own_entry (ingest t originator my_call port_id broadcast neighbour_quality min_quality now)
        ≡ own_entry t
  unfolding ingest upsert_route hear_neighbour
  ingest-own_entry t originator port_id broadcast neighbour_quality min_quality now o other w =
      let path_quality =
        clamp_quality (or_default neighbour_quality t.options.default_neighbour_quality) in
      let floor = clamp_quality (or_default min_quality t.options.min_quality) in
      let heard = hear_neighbour t originator port_id broadcast.sender_alias path_quality now in
      ingest_entries-own_entry
        (upsert_route heard originator broadcast.sender_alias port_id originator path_quality floor)
        originator port_id path_quality floor broadcast.entries w
      ∙ upsert_found-LeavesAlone heard (to_text my_call)
          (map_get (to_text originator) t.destinations) originator broadcast.sender_alias port_id
          originator path_quality _ (other_text originator my_call o v other)

  ingest_rip-own_entry :
      (t : RoutingTable) (from : Callsign) (port_id : List ℕ) (sntt hop_limit : ℕ) (rip : Inp3Rip)
      → IsValid rip.destination
      → own_entry t ≡ none
      → own_entry (ingest_rip t from my_call port_id sntt hop_limit rip) ≡ none
  unfolding ingest_rip withdraw_inp3 upsert_inp3_route
  ingest_rip-own_entry t from port_id sntt hop_limit rip w e =
      let measured = not (sntt == sntt_unset) in
      elim (Bool-cases (
        inp3_rip_is_horizon rip
        || measured && leb inp3_horizon_ms (rip.target_time_ms + sntt + per_hop_increment_ms))) [
          | inl gone ↦ rw gone (
              withdraw_found-none t (to_text my_call) rip.destination (neighbour_key port_id from)
                e)
          | inr here ↦ rw here (elim (Bool-cases (not measured)) [
            | inl unknown ↦ rw unknown e
            | inr known ↦ rw known (elim (Bool-cases (ltb hop_limit (rip.hop_count + 1))) [
              | inl far ↦ rw far e
              | inr near ↦ rw near (elim (Bool-cases (equals rip.destination my_call)) [
                | inl mine ↦ rw mine e
                | inr other ↦ rw other (
                    upsert_inp3_found-LeavesAlone t (to_text my_call) _ rip.destination _ port_id
                      from _ (other_text rip.destination my_call w v other)
                    ∙ e)
              ])
            ])
          ])
        ]

  ingest_rips-own_entry :
      (t : RoutingTable) (from : Callsign) (port_id : List ℕ) (sntt hop_limit : ℕ)
      (rips : List Inp3Rip)
      → All (λ r. IsValid r.destination) rips
      → own_entry t ≡ none
      → own_entry (ingest_rips t from my_call port_id sntt hop_limit rips) ≡ none
  unfolding ingest_rips
  ingest_rips-own_entry t from port_id sntt hop_limit [] w e = e
  ingest_rips-own_entry t from port_id sntt hop_limit (rip ∷ rips) w e =
      ingest_rips-own_entry (ingest_rip t from my_call port_id sntt hop_limit rip) from port_id sntt
        hop_limit rips w.1 (ingest_rip-own_entry t from port_id sntt hop_limit rip w.0 e)

-- A node whose table has no destination with its own callsign learns none: not from a broadcast of
-- another node, and not from a routing information frame, whatever they claim of the node itself. The
-- callsigns are valid.
pub ingest_own_call :
    (t : RoutingTable) (my_call from : Callsign) (port_id : List ℕ)
    → IsValid my_call
    → IsValid from
    → equals from my_call ≡ false
    → map_get (to_text my_call) t.destinations ≡ none
    → ((broadcast : NodesBroadcast) (neighbour_quality min_quality : Option ℕ) (now : ℕ)
        → All (λ e. IsValid e.destination) broadcast.entries
        → map_get
            (to_text my_call)
            (ingest t from my_call port_id broadcast neighbour_quality min_quality now).destinations
          ≡ none)
      × ((sntt : ℕ) (rif : Inp3Rif) (hop_limit : ℕ)
          → All (λ r. IsValid r.destination) rif.rips
          → map_get
              (to_text my_call)
              (ingest_rif t from my_call port_id sntt rif hop_limit).destinations
            ≡ none)
unfolding ingest_rif
ingest_own_call t my_call from port_id v o other e = (
  (λ broadcast neighbour_quality min_quality now w.
      ingest-own_entry my_call v t from port_id broadcast neighbour_quality min_quality now o other
        w
      ∙ e),
  (λ sntt rif hop_limit w.
      ingest_rips-own_entry my_call v t from port_id sntt (max 1 hop_limit) rif.rips w e),
)
