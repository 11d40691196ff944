-- ===== src/NetRom/Circuit/Window.antt =====
-- netrom/circuit.ts: the send window under every call.
use ax25_ts.Base.{
  Bool, Bool-cases, List, [], arith, false, if◌then◌else◌, inl, inr, length, refl, true, ℕ, ◌++◌,
  ◌+◌, ◌∷◌, ◌≡◌, ◌≤◌,
}
use ax25_ts.Callsign.{Callsign}
use ax25_ts.NetRom.Circuit.{
  Circuit, CircuitOptions, CircuitState, CloseReason, Packet, Unacked, connected, connecting,
  disconnected, disconnecting, is_connected, is_connecting, is_disconnected, is_disconnecting,
  new_circuit, normal, refused, send_disconnect_acknowledge, send_disconnect_request,
  send_information_acknowledge, timeout,
}
use ax25_ts.NetRom.Circuit.InFlight.{
  InWindow, Replayed-InWindow, SameLink, absorb_ack-InWindow, absorb_ack-SameLink,
  apply_peer_choke-InWindow, apply_peer_choke-SameLink, pump-InWindow, retransmit_loop-Replayed,
}
use ax25_ts.NetRom.Circuit.Methods.{
  Call, accept_inbound, accept_information, accepts, connect, connects, deliver, disconnect,
  disconnect_in, disconnects, drained, fragments_of, on_connect_acknowledge, on_connect_request,
  on_delivery_drained, on_disconnect_acknowledge, on_disconnect_request, on_information,
  on_information_acknowledge, on_packet, packet_in, refuse_inbound, refuses, resend_control, send,
  sends, step, tick, tick_information, ticks,
}
use ax25_ts.NetRom.Circuit.Sending.{
  absorb_ack, apply_peer_choke, arm_control_timer, close, maybe_assert_choke, retransmit_from,
}
use ax25_ts.NetRom.Transport.{TransportHeader, header_choke, header_nak}

close-InWindow : (c : Circuit) (reason : CloseReason) → InWindow c → InWindow (close c reason)
unfolding close
close-InWindow c reason v = ground arith

tick_information-InWindow :
    (now : ℕ) (c : Circuit) (us : List Unacked)
    → length us ≤ c.window
    → InWindow c
    → InWindow (tick_information now c us)
unfolding tick_information
tick_information-InWindow now c [] h v = v
tick_information-InWindow now c (u ∷ us) h v = ground (
  arith,
  close-InWindow c timeout v,
  Replayed-InWindow c (u ∷ us) _ h,
  retransmit_loop-Replayed now (λ u. true) c (u ∷ us),
)

resend_control-keeps :
    (s : CircuitState) (c : Circuit)
    → ((resend_control s c).state ≡ c.state)
      × ((resend_control s c).window ≡ c.window)
      × ((resend_control s c).unacked ≡ c.unacked)
unfolding resend_control
resend_control-keeps disconnected c = (refl, refl, refl)
resend_control-keeps connecting c = (refl, refl, refl)
resend_control-keeps connected c = (refl, refl, refl)
resend_control-keeps disconnecting c = (refl, refl, refl)

tick-InWindow : (now : ℕ) (c : Circuit) → InWindow c → InWindow (tick now c)
unfolding tick
tick-InWindow now c v =
    let again =
      arm_control_timer now
        (resend_control c.state (record c { control_retries = c.control_retries + 1 })) in
    let kept =
      resend_control-keeps c.state (record c { control_retries = c.control_retries + 1 }) in
    let w : InWindow again =
      unfold arm_control_timer in
      record { bounded = rw (kept.1, kept.2) v.bounded; idle = rw (kept.0, kept.2) v.idle } in
    ground (
      arith,
      close-InWindow (record c { control_timer_armed = false }) timeout
          (record { bounded = v.bounded; idle = v.idle }),
      tick_information-InWindow now again again.unacked w.bounded w,
      tick_information-InWindow now c c.unacked v.bounded v,
    )

accept_information-SameLink :
    (c : Circuit) (t : TransportHeader) (payload : List ℕ)
    → SameLink c (accept_information c t payload)
      × ((accept_information c t payload).unacked ≡ c.unacked)
unfolding accept_information deliver maybe_assert_choke send_information_acknowledge
accept_information-SameLink c t payload = ground arith

same-InWindow : (c d : Circuit) → SameLink c d × (d.unacked ≡ c.unacked) → InWindow c → InWindow d
same-InWindow c d same v = record {
  bounded = rw (same.1, same.0.window) v.bounded;
  idle = rw (same.0.state, same.1) v.idle;
}

on_information-InWindow :
    (now : ℕ) (c : Circuit) (t : TransportHeader) (payload : List ℕ)
    → InWindow c
    → InWindow (on_information now c t payload)
unfolding on_information
on_information-InWindow now c t payload v = elim (Bool-cases (is_connected c.state)) [
  | inl t' ↦ rw t' (
      same-InWindow _ _ (accept_information-SameLink _ t payload) (
        apply_peer_choke-InWindow now _ (header_choke t)
          (absorb_ack-InWindow now c t.rx_sequence v)))
  | inr f ↦ rw f v
]

retransmit_from-InWindow :
    (now : ℕ) (c : Circuit) (seq : ℕ)
    → is_connected c.state ≡ true
    → InWindow c
    → InWindow (retransmit_from now c seq)
unfolding retransmit_from
retransmit_from-InWindow now c seq on v =
    Replayed-InWindow c c.unacked _ v.bounded on (retransmit_loop-Replayed now _ c c.unacked)

branch-InWindow :
    (b : Bool) (c d : Circuit) → InWindow c → InWindow d → InWindow (if b then c else d)
branch-InWindow true c d v w = v
branch-InWindow false c d v w = w

on_information_acknowledge-InWindow :
    (now : ℕ) (c : Circuit) (t : TransportHeader)
    → InWindow c
    → InWindow (on_information_acknowledge now c t)
unfolding on_information_acknowledge
on_information_acknowledge-InWindow now c t v =
    let choked = apply_peer_choke now c (header_choke t) in
    let absorbed = absorb_ack now choked t.rx_sequence in
    let link = absorb_ack-SameLink now choked t.rx_sequence in
    let w =
      absorb_ack-InWindow now choked t.rx_sequence
        (apply_peer_choke-InWindow now c (header_choke t) v) in
    elim (Bool-cases (is_connected c.state)) [
      | inl on ↦
          let on' : is_connected absorbed.state ≡ true =
            rw (link.state, (apply_peer_choke-SameLink now c (header_choke t)).state) on in
          rw on (
            pump-InWindow now _ (
              branch-InWindow (header_nak t) _ absorbed
                (retransmit_from-InWindow now absorbed t.rx_sequence on' w) w))
      | inr f ↦ rw f v
    ]

connecting_only :
    (s : CircuitState)
    → is_connecting s ≡ true
    → (is_connected s ≡ false) × (is_disconnecting s ≡ false)
connecting_only disconnected e = cc
connecting_only connecting e = (refl, refl)
connecting_only connected e = cc
connecting_only disconnecting e = cc

on_connect_acknowledge-InWindow :
    (now : ℕ) (c : Circuit) (t : TransportHeader) (info : List ℕ)
    → InWindow c
    → InWindow (on_connect_acknowledge now c t info)
unfolding on_connect_acknowledge
on_connect_acknowledge-InWindow now c t info v = elim (Bool-cases (is_connecting c.state)) [
  | inl on ↦
      let (p, q) = connecting_only c.state on in
      let none_sent : c.unacked ≡ [] = v.idle p q in
      rw on (
        branch-InWindow (header_choke t) _ _
          (close-InWindow _ refused (record { bounded = v.bounded; idle = v.idle }))
          (pump-InWindow now _ (record { bounded = rw none_sent (omega arith); idle = λ a b. cc })))
  | inr f ↦ rw f v
]

on_disconnect_request-InWindow : (c : Circuit) → InWindow c → InWindow (on_disconnect_request c)
unfolding on_disconnect_request send_disconnect_acknowledge close
on_disconnect_request-InWindow c v = ground arith

on_disconnect_acknowledge-InWindow :
    (c : Circuit) → InWindow c → InWindow (on_disconnect_acknowledge c)
unfolding on_disconnect_acknowledge close
on_disconnect_acknowledge-InWindow c v = ground arith

on_connect_request-InWindow : (c : Circuit) → InWindow c → InWindow (on_connect_request c)
unfolding on_connect_request
on_connect_request-InWindow c v = ground arith

on_packet-InWindow :
    (now : ℕ) (c : Circuit) (p : Packet) → InWindow c → InWindow (on_packet now c p)
unfolding on_packet
on_packet-InWindow now c p v = ground (
  arith,
  on_connect_request-InWindow c v,
  on_connect_acknowledge-InWindow now c p.transport p.payload v,
  on_disconnect_request-InWindow c v,
  on_disconnect_acknowledge-InWindow c v,
  on_information-InWindow now c p.transport p.payload v,
  on_information_acknowledge-InWindow now c p.transport v,
)

disconnected_only :
    (s : CircuitState)
    → is_disconnected s ≡ true
    → (is_connected s ≡ false) × (is_disconnecting s ≡ false)
disconnected_only disconnected e = (refl, refl)
disconnected_only connecting e = cc
disconnected_only connected e = cc
disconnected_only disconnecting e = cc

connect-InWindow : (now : ℕ) (c : Circuit) (u : Callsign) → InWindow c → InWindow (connect now c u)
unfolding connect
connect-InWindow now c u v = elim (Bool-cases (is_disconnected c.state)) [
  | inl t ↦
      let (p, q) = disconnected_only c.state t in
      rw t (record { bounded = v.bounded; idle = λ a b. v.idle p q })
  | inr f ↦ rw f v
]

disconnect_in-InWindow :
    (now : ℕ) (c : Circuit) (s : CircuitState) → InWindow c → InWindow (disconnect_in s now c)
unfolding disconnect_in arm_control_timer send_disconnect_request
disconnect_in-InWindow now c disconnected v = v
disconnect_in-InWindow now c disconnecting v = v
disconnect_in-InWindow now c connecting v = close-InWindow c normal v
disconnect_in-InWindow now c connected v = record { bounded = v.bounded; idle = λ a b. cc }

disconnect-InWindow : (now : ℕ) (c : Circuit) → InWindow c → InWindow (disconnect now c)
unfolding disconnect
disconnect-InWindow now c v = disconnect_in-InWindow now c c.state v

send-InWindow : (now : ℕ) (c : Circuit) (bs : List ℕ) → InWindow c → InWindow (send now c bs)
unfolding send
send-InWindow now c bs v = ground (
  arith,
  pump-InWindow now (record c { send_queue = c.send_queue ++ fragments_of c.options bs })
      (record { bounded = v.bounded; idle = v.idle }),
)

drained-InWindow : (c : Circuit) → InWindow c → InWindow (on_delivery_drained c)
unfolding on_delivery_drained
drained-InWindow c v = ground arith

accept-InWindow :
    (c : Circuit) (index id w : ℕ)
    → c.state ≡ disconnected
    → InWindow c
    → InWindow (accept_inbound c index id w)
unfolding accept_inbound
accept-InWindow c index id w h v =
    let none_sent : c.unacked ≡ [] = v.idle (rw h) (rw h) in
    record { bounded = rw none_sent (omega arith); idle = λ a b. cc }

refuse-InWindow :
    (c : Circuit) (index id : ℕ)
    → c.state ≡ disconnected
    → InWindow c
    → InWindow (refuse_inbound c index id)
unfolding refuse_inbound
refuse-InWindow c index id h v = record { bounded = v.bounded; idle = λ a b. v.idle (rw h) (rw h) }

-- The host answers a connect request on a circuit that is not in use.
abbrev pub IsAllowed : Circuit → Call → Type 0
IsAllowed c (accepts index id window) = c.state ≡ disconnected
IsAllowed c (refuses index id) = c.state ≡ disconnected
IsAllowed c _ = Unit {0}

-- Every call keeps what is in flight within the window, and nothing in flight outside a
-- connection, whatever packets arrive.
pub step-InWindow :
    (now : ℕ) (c : Circuit) (call : Call)
    → IsAllowed c call
    → InWindow c
    → InWindow (step now c call)
unfolding step
step-InWindow now c (connects u) h v = connect-InWindow now c u v
step-InWindow now c (sends bs) h v = send-InWindow now c bs v
step-InWindow now c disconnects h v = disconnect-InWindow now c v
step-InWindow now c (packet_in p) h v = on_packet-InWindow now c p v
step-InWindow now c (accepts index id w) h v = accept-InWindow c index id w h v
step-InWindow now c (refuses index id) h v = refuse-InWindow c index id h v
step-InWindow now c ticks h v = tick-InWindow now c v
step-InWindow now c drained h v = drained-InWindow c v

-- The calls of a history, each with the time at which it is made.
unfoldable pub run : Circuit → List (ℕ × Call) → Circuit
run c [] = c
run c ((now, call) ∷ calls) = run (step now c call) calls

abbrev pub AllAllowed : Circuit → List (ℕ × Call) → Type 0
AllAllowed c [] = Unit
AllAllowed c ((now, call) ∷ calls) = IsAllowed c call × AllAllowed (step now c call) calls

run-InWindow :
    (c : Circuit) (calls : List (ℕ × Call))
    → AllAllowed c calls
    → InWindow c
    → InWindow (run c calls)
unfolding run
run-InWindow c [] h v = v
run-InWindow c ((now, call) ∷ calls) h v =
    run-InWindow (step now c call) calls h.1 (step-InWindow now c call h.0 v)

-- From a new circuit on, through every history in which the host answers connect requests on
-- circuits that are not in use: never more in flight than the window, and nothing in flight outside
-- a connection.
pub run-new_circuit-InWindow :
    (index id : ℕ) (here there : Callsign) (o : CircuitOptions) (calls : List (ℕ × Call))
    → AllAllowed (new_circuit index id here there o) calls
    → InWindow (run (new_circuit index id here there o) calls)
unfolding new_circuit
run-new_circuit-InWindow index id here there o calls h =
    run-InWindow _ calls h (record { bounded = omega arith; idle = λ a b. refl })
