-- ===== src/NetRom/Circuit/Sending.antt =====
-- netrom/circuit.ts: the send side, the choke, the control timer and the teardown.
use ax25_ts.Base.{
  Bool, List, [], false, if◌then◌else◌, is_empty, leb, length, ltb, not, true, ℕ, ◌%◌, ◌&&◌, ◌++◌,
  ◌+◌, ◌==◌, ◌||◌, ◌∷◌,
}
use ax25_ts.NetRom.Circuit.{
  Circuit, CloseReason, Fragment, Unacked, disconnected, fired_closed, is_connected,
  is_disconnected, mod256_after, remove_all, say, send_information, send_information_acknowledge,
  seq_acked,
}

-- Send side.
unfoldable pub transmit : ℕ → Circuit → Fragment → Circuit
unfolding send_information
transmit now c f =
    let seq = c.vs in
    send_information
      (record c {
        vs = (c.vs + 1) % 256;
        unacked =
            c.unacked
            ++ (record {
              sequence = seq;
              payload = f.bytes;
              more_follows = f.more_follows;
              sent_at = now;
              retries = 0;
            }
                ∷ []);
      })
      seq f.bytes f.more_follows

-- The `while` of `pumpSendQueue`; the list is what the queue still holds.
unfoldable pub pump_loop : ℕ → Circuit → List Fragment → Circuit
pump_loop now c [] = record c { send_queue = [] }
pump_loop now c (f ∷ fs) =
    let next = pump_loop now (transmit now c f) fs in
    if ltb (length c.unacked) c.window then next else record c { send_queue = f ∷ fs }

unfoldable pub pump_send_queue : ℕ → Circuit → Circuit
pump_send_queue now c =
    if not (is_connected c.state) || c.peer_choked then c else pump_loop now c c.send_queue

unfoldable pub absorb_ack : ℕ → Circuit → ℕ → Circuit
absorb_ack now c expected =
    if is_empty c.unacked
    then record c { va = expected }
    else pump_send_queue now (record c {
      unacked = remove_all (λ u. seq_acked u.sequence expected) c.unacked;
      va = expected;
    })

abbrev pub resent : ℕ → Unacked → Unacked
resent now u = record u { sent_at = now; retries = u.retries + 1 }

-- The loop of `retransmitFrom` over the entries still to visit; it gives their new values too.
unfoldable pub retransmit_loop :
    ℕ → (Unacked → Bool) → Circuit → List Unacked → Circuit × List Unacked
unfolding send_information
retransmit_loop now due c [] = (c, [])
retransmit_loop now due c (u ∷ us) =
    let (c', us') =
      retransmit_loop now due
        (if due u then send_information c u.sequence u.payload u.more_follows else c) us in
    (c', (if due u then resent now u else u) ∷ us')

abbrev pub with_unacked : Circuit × List Unacked → Circuit
with_unacked (c, us) = record c { unacked = us }

unfoldable pub retransmit_from : ℕ → Circuit → ℕ → Circuit
retransmit_from now c seq =
    with_unacked
      (retransmit_loop now (λ u. u.sequence == seq || mod256_after u.sequence seq) c c.unacked)

-- Flow control.
unfoldable pub apply_peer_choke : ℕ → Circuit → Bool → Circuit
apply_peer_choke now c choke =
    if choke && not c.peer_choked
    then record c { peer_choked = true }
    else if not choke && c.peer_choked
    then pump_send_queue now (record c { peer_choked = false })
    else c

unfoldable pub maybe_assert_choke : Circuit → Circuit
maybe_assert_choke c =
    if ltb 0 c.options.choke_threshold
      && leb c.options.choke_threshold c.pending_deliveries
      && not c.local_choked
    then record c { local_choked = true }
    else c

unfoldable pub maybe_release_choke : Circuit → Circuit
unfolding send_information_acknowledge
maybe_release_choke c =
    let open_again = record c { local_choked = false } in
    if c.local_choked && ltb c.pending_deliveries c.options.choke_threshold
    then (if is_connected c.state
        then send_information_acknowledge open_again false
        else open_again)
    else c

-- Control timer and teardown.
unfoldable pub arm_control_timer : ℕ → Circuit → Circuit
arm_control_timer now c = record c {
  control_deadline = now + c.options.retransmit_timeout_ms;
  control_timer_armed = true;
}

unfoldable pub close : Circuit → CloseReason → Circuit
close c reason =
    if is_disconnected c.state
    then c
    else say
        (record c {
          state = disconnected;
          control_timer_armed = false;
          unacked = [];
          send_queue = [];
          reassembly = [];
        })
        (fired_closed reason)
