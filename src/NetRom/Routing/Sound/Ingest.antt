-- ===== src/NetRom/Routing/Sound/Ingest.antt =====
-- netrom/routing-table.ts: the broadcasts that come in keep a table sound.
use ax25_ts.Base.{
  Bool-cases, List, Option, [], inl, inr, leb, ltb, max, not, refl, ℕ, ◌&&◌, ◌+◌, ◌==◌, ◌||◌, ◌∷◌,
}
use ax25_ts.Base.Maps.{map_get}
use ax25_ts.Callsign.{Callsign}
use ax25_ts.Callsign.Text.{equals, to_text}
use ax25_ts.NetRom.Inp3.{Inp3Rif, Inp3Rip, inp3_horizon_ms, inp3_rip_is_horizon}
use ax25_ts.NetRom.Nodes.{NodesBroadcast, NodesRoutingEntry}
use ax25_ts.NetRom.Routing.{RoutingOptions, RoutingTable, clamp_quality, neighbour_key}
use ax25_ts.NetRom.Routing.Learning.{
  hear_neighbour, ingest, ingest_entries, ingest_entry, ingest_rif, ingest_rip, ingest_rips,
  or_default, per_hop_increment_ms, sntt_unset,
}
use ax25_ts.NetRom.Routing.Routes.{upsert_inp3_route, upsert_route, withdraw_inp3}
use ax25_ts.NetRom.Routing.Sound.{IsSound}
use ax25_ts.NetRom.Routing.Sound.Learning.{
  upsert_found-IsSound, upsert_inp3_found-IsSound, withdraw_found-IsSound,
}

ingest_entry-IsSound :
    {o : RoutingOptions} (t : RoutingTable) (originator my_call : Callsign) (port_id : List ℕ)
    (path_quality floor : ℕ) (entry : NodesRoutingEntry)
    → IsSound o t
    → IsSound o (ingest_entry t originator my_call port_id path_quality floor entry)
unfolding ingest_entry upsert_route
ingest_entry-IsSound t originator my_call port_id path_quality floor entry s =
    elim (Bool-cases (equals entry.destination my_call)) [
      | inl mine ↦ rw mine s
      | inr other ↦ rw other (
          upsert_found-IsSound t (map_get (to_text entry.destination) t.destinations)
            entry.destination entry.destination_alias port_id originator _ _ s refl)
    ]

ingest_entries-IsSound :
    {o : RoutingOptions} (t : RoutingTable) (originator my_call : Callsign) (port_id : List ℕ)
    (path_quality floor : ℕ) (entries : List NodesRoutingEntry)
    → IsSound o t
    → IsSound o (ingest_entries t originator my_call port_id path_quality floor entries)
unfolding ingest_entries
ingest_entries-IsSound t originator my_call port_id path_quality floor [] s = s
ingest_entries-IsSound t originator my_call port_id path_quality floor (entry ∷ entries) s =
    ingest_entries-IsSound (ingest_entry t originator my_call port_id path_quality floor entry)
      originator my_call port_id path_quality floor entries
      (ingest_entry-IsSound t originator my_call port_id path_quality floor entry s)

pub ingest-IsSound :
    {o : RoutingOptions} (t : RoutingTable) (originator my_call : Callsign) (port_id : List ℕ)
    (broadcast : NodesBroadcast) (neighbour_quality min_quality : Option ℕ) (now : ℕ)
    → IsSound o t
    → IsSound o (ingest t originator my_call port_id broadcast neighbour_quality min_quality now)
unfolding ingest upsert_route hear_neighbour
ingest-IsSound t originator my_call port_id broadcast neighbour_quality min_quality now s =
    let heard : IsSound _ (
        hear_neighbour t originator port_id broadcast.sender_alias
          (clamp_quality (or_default neighbour_quality t.options.default_neighbour_quality)) now) =
      record {
        same_options = s.same_options;
        some_room = s.some_room;
        bounded = s.bounded;
        distinct = s.distinct;
        entries = s.entries;
      } in
    ingest_entries-IsSound _ originator my_call port_id _ _ broadcast.entries (
      upsert_found-IsSound _ (map_get (to_text originator) t.destinations) originator
        broadcast.sender_alias port_id originator _ _ heard refl)

ingest_rip-IsSound :
    {o : RoutingOptions} (t : RoutingTable) (from my_call : Callsign) (port_id : List ℕ)
    (neighbour_sntt_ms hop_limit : ℕ) (rip : Inp3Rip)
    → IsSound o t
    → IsSound o (ingest_rip t from my_call port_id neighbour_sntt_ms hop_limit rip)
unfolding ingest_rip withdraw_inp3 upsert_inp3_route
ingest_rip-IsSound t from my_call port_id sntt hop_limit rip s =
    let found = map_get (to_text rip.destination) t.destinations in
    let measured = not (sntt == sntt_unset) in
    elim (Bool-cases (
      inp3_rip_is_horizon rip
      || measured && leb inp3_horizon_ms (rip.target_time_ms + sntt + per_hop_increment_ms))) [
        | inl gone ↦
            rw gone
              (withdraw_found-IsSound t found rip.destination (neighbour_key port_id from) s refl)
        | inr here ↦ rw here (elim (Bool-cases (not measured)) [
          | inl unknown ↦ rw unknown s
          | inr known ↦ rw known (elim (Bool-cases (ltb hop_limit (rip.hop_count + 1))) [
            | inl far ↦ rw far s
            | inr near ↦ rw near (elim (Bool-cases (equals rip.destination my_call)) [
              | inl mine ↦ rw mine s
              | inr other ↦
                  rw other
                    (upsert_inp3_found-IsSound t found rip.destination _ port_id from _ s refl)
            ])
          ])
        ])
      ]

ingest_rips-IsSound :
    {o : RoutingOptions} (t : RoutingTable) (from my_call : Callsign) (port_id : List ℕ)
    (neighbour_sntt_ms hop_limit : ℕ) (rips : List Inp3Rip)
    → IsSound o t
    → IsSound o (ingest_rips t from my_call port_id neighbour_sntt_ms hop_limit rips)
unfolding ingest_rips
ingest_rips-IsSound t from my_call port_id sntt hop_limit [] s = s
ingest_rips-IsSound t from my_call port_id sntt hop_limit (rip ∷ rips) s =
    ingest_rips-IsSound (ingest_rip t from my_call port_id sntt hop_limit rip) from my_call port_id
      sntt hop_limit rips (ingest_rip-IsSound t from my_call port_id sntt hop_limit rip s)

pub ingest_rif-IsSound :
    {o : RoutingOptions} (t : RoutingTable) (from my_call : Callsign) (port_id : List ℕ)
    (neighbour_sntt_ms : ℕ) (rif : Inp3Rif) (hop_limit : ℕ)
    → IsSound o t
    → IsSound o (ingest_rif t from my_call port_id neighbour_sntt_ms rif hop_limit)
unfolding ingest_rif
ingest_rif-IsSound t from my_call port_id sntt rif hop_limit s =
    ingest_rips-IsSound t from my_call port_id sntt (max 1 hop_limit) rif.rips s
