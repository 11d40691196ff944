-- ===== src/NetRom/Circuit/Methods.antt =====
-- netrom/circuit.ts: the handlers of packets and the public methods.
use ax25_ts.Base.{
  List, [], drop, false, if◌then◌else◌, is_empty, leb, length, ltb, max, min, none, not, some, suc,
  take, true, zero, ℕ, ◌%◌, ◌&&◌, ◌++◌, ◌+◌, ◌-◌, ◌==◌, ◌||◌, ◌∷◌,
}
use ax25_ts.Callsign.{Callsign}
use ax25_ts.NetRom.Circuit.{
  Circuit, CircuitOptions, CircuitState, Fragment, Packet, Unacked, clamp, connected, connecting,
  data_received, disconnected, disconnecting, fired_connected, is_connected, is_connecting,
  is_disconnected, is_disconnecting, mod256_after, normal, refused, say, send_connect_acknowledge,
  send_connect_request, send_disconnect_acknowledge, send_disconnect_request,
  send_information_acknowledge, timeout,
}
use ax25_ts.NetRom.Circuit.Sending.{
  absorb_ack, apply_peer_choke, arm_control_timer, close, maybe_assert_choke, maybe_release_choke,
  pump_send_queue, retransmit_from, retransmit_loop, with_unacked,
}
use ax25_ts.NetRom.ConnectInfo.{try_read_accepted_window}
use ax25_ts.NetRom.Transport.{
  TransportHeader, connect_acknowledge, connect_request, disconnect_acknowledge, disconnect_request,
  header_choke, header_more_follows, header_nak, information, information_acknowledge,
}

-- Handlers of packets.
unfoldable pub on_connect_acknowledge : ℕ → Circuit → TransportHeader → List ℕ → Circuit
on_connect_acknowledge now c t info =
    let answered = record c {
      remote_index = t.tx_sequence;
      remote_id = t.rx_sequence;
      control_timer_armed = false;
    } in
    let agreed : ℕ = elim (try_read_accepted_window info) [
      | none ↦ c.window
      | some accepted ↦ min c.window accepted
    ] in
    if not (is_connecting c.state)
    then c
    else if header_choke t
    then close answered refused
    else pump_send_queue now
        (say (record answered { window = agreed; state = connected }) fired_connected)

unfoldable pub on_connect_request : Circuit → Circuit
unfolding send_connect_acknowledge
on_connect_request c = if is_connected c.state then send_connect_acknowledge c false else c

unfoldable pub on_disconnect_request : Circuit → Circuit
on_disconnect_request c =
    let acknowledged = send_disconnect_acknowledge c in
    if not (is_disconnected acknowledged.state) then close acknowledged normal else acknowledged

unfoldable pub on_disconnect_acknowledge : Circuit → Circuit
on_disconnect_acknowledge c =
    if is_disconnecting c.state then close (record c { control_timer_armed = false }) normal else c

-- The delivery of a whole frame inside `onInformation`.
unfoldable pub deliver : Circuit → TransportHeader → Circuit
deliver c t =
    let counted =
      if ltb 0 c.options.choke_threshold then c.pending_deliveries + 1 else c.pending_deliveries in
    if not (header_more_follows t) && not (is_empty c.reassembly)
    then maybe_assert_choke (
        say (record c { reassembly = []; pending_deliveries = counted })
          (data_received c.reassembly))
    else c

-- `onInformation` past the acknowledgement and the choke.
unfoldable pub accept_information : Circuit → TransportHeader → List ℕ → Circuit
accept_information c t payload =
    let taken = record c { vr = (c.vr + 1) % 256; reassembly = c.reassembly ++ payload } in
    if t.tx_sequence == c.vr
    then send_information_acknowledge (deliver taken t) false
    else send_information_acknowledge c (mod256_after t.tx_sequence c.vr)

unfoldable pub on_information : ℕ → Circuit → TransportHeader → List ℕ → Circuit
on_information now c t payload =
    if not (is_connected c.state)
    then c
    else accept_information (apply_peer_choke now (absorb_ack now c t.rx_sequence) (header_choke t))
        t payload

unfoldable pub on_information_acknowledge : ℕ → Circuit → TransportHeader → Circuit
on_information_acknowledge now c t =
    let choked = apply_peer_choke now c (header_choke t) in
    let absorbed = absorb_ack now choked t.rx_sequence in
    if not (is_connected c.state)
    then c
    else pump_send_queue now
        (if header_nak t then retransmit_from now absorbed t.rx_sequence else absorbed)

unfoldable pub on_packet : ℕ → Circuit → Packet → Circuit
on_packet now c p =
    let t = p.transport in
    if t.opcode == connect_request
    then on_connect_request c
    else if t.opcode == connect_acknowledge
    then on_connect_acknowledge now c t p.payload
    else if t.opcode == disconnect_request
    then on_disconnect_request c
    else if t.opcode == disconnect_acknowledge
    then on_disconnect_acknowledge c
    else if t.opcode == information
    then on_information now c t p.payload
    else if t.opcode == information_acknowledge
    then on_information_acknowledge now c t
    else c

-- Public methods.
unfoldable pub connect : ℕ → Circuit → Callsign → Circuit
unfolding arm_control_timer send_connect_request
connect now c originating_user =
    if not (is_disconnected c.state)
    then c
    else arm_control_timer now (
        send_connect_request
          (record c { state = connecting; control_retries = 0; connect_user = originating_user }))

-- The `while` of `send` over the octets from `offset` on; `fuel` is at least their number.
unfoldable pub fragments : ℕ → ℕ → List ℕ → List Fragment
fragments fuel size [] = []
fragments zero size (b ∷ bs) = []
fragments (suc fuel) size (b ∷ bs) =
    record { bytes = take size (b ∷ bs); more_follows = ltb size (length (b ∷ bs)) }
    ∷ fragments fuel size (drop size (b ∷ bs))

abbrev pub fragments_of : CircuitOptions → List ℕ → List Fragment
fragments_of o bytes = fragments (length bytes) (max 1 o.fragment_size) bytes

unfoldable pub send : ℕ → Circuit → List ℕ → Circuit
send now c bytes =
    if not (is_connected c.state) || is_empty bytes
    then c
    else pump_send_queue now
        (record c { send_queue = c.send_queue ++ fragments_of c.options bytes })

unfoldable pub disconnect_in : CircuitState → ℕ → Circuit → Circuit
disconnect_in disconnected now c = c
disconnect_in disconnecting now c = c
disconnect_in connecting now c = close c normal
disconnect_in connected now c =
    arm_control_timer now
      (send_disconnect_request (record c { state = disconnecting; control_retries = 0 }))

unfoldable pub disconnect : ℕ → Circuit → Circuit
disconnect now c = disconnect_in c.state now c

unfoldable pub accept_inbound : Circuit → ℕ → ℕ → ℕ → Circuit
unfolding send_connect_acknowledge
accept_inbound c peer_index peer_id proposed_window =
    let wanted : ℕ = if proposed_window == 0 then c.options.window_size else proposed_window in
    say
      (send_connect_acknowledge
        (record c {
          remote_index = peer_index % 256;
          remote_id = peer_id % 256;
          window = clamp (min wanted c.options.window_size) 1 127;
          state = connected;
        })
        false)
      fired_connected

unfoldable pub refuse_inbound : Circuit → ℕ → ℕ → Circuit
unfolding send_connect_acknowledge
refuse_inbound c peer_index peer_id =
    record (send_connect_acknowledge
      (record c { remote_index = peer_index % 256; remote_id = peer_id % 256 }) true) {
        state = disconnected;
      }

-- The `switch` of `tick`.
unfoldable pub resend_control : CircuitState → Circuit → Circuit
unfolding send_connect_request send_disconnect_request
resend_control connecting c = send_connect_request c
resend_control disconnecting c = send_disconnect_request c
resend_control disconnected c = c
resend_control connected c = c

-- The second half of `tick`: the oldest unacknowledged entry decides.
unfoldable pub tick_information : ℕ → Circuit → List Unacked → Circuit
tick_information now c [] = c
tick_information now c (oldest ∷ us) =
    if not (is_connected c.state)
    then c
    else if ltb now (oldest.sent_at + c.options.retransmit_timeout_ms)
    then c
    else if leb c.options.max_retries oldest.retries
    then close c timeout
    else with_unacked (retransmit_loop now (λ u. true) c (oldest ∷ us))

unfoldable pub tick : ℕ → Circuit → Circuit
tick now c =
    let again =
      arm_control_timer now
        (resend_control c.state (record c { control_retries = c.control_retries + 1 })) in
    if c.control_timer_armed && leb c.control_deadline now
    then (if leb c.options.max_retries c.control_retries
        then close (record c { control_timer_armed = false }) timeout
        else tick_information now again again.unacked)
    else tick_information now c c.unacked

unfoldable pub on_delivery_drained : Circuit → Circuit
unfolding maybe_release_choke
on_delivery_drained c =
    maybe_release_choke (record c { pending_deliveries = c.pending_deliveries - 1 })

-- What the host does with a circuit.
pub data Call : Type 0 where
  connects : Callsign → Call
  sends : List ℕ → Call
  disconnects : Call
  packet_in : Packet → Call
  accepts : ℕ → ℕ → ℕ → Call
  refuses : ℕ → ℕ → Call
  ticks : Call
  drained : Call

unfoldable pub step : ℕ → Circuit → Call → Circuit
step now c (connects user) = connect now c user
step now c (sends bytes) = send now c bytes
step now c disconnects = disconnect now c
step now c (packet_in p) = on_packet now c p
step now c (accepts index id window) = accept_inbound c index id window
step now c (refuses index id) = refuse_inbound c index id
step now c ticks = tick now c
step now c drained = on_delivery_drained c
