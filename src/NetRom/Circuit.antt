-- ===== src/NetRom/Circuit.antt =====
-- netrom/circuit.ts: one end of a NET/ROM circuit. The object is a record and every method gives the
-- new one. The packet sink and the listeners are the list `output`, oldest first: a listener that
-- calls back into the circuit is a later call. A method that reads the clock takes its value, `now`.
pub mod Sending
pub mod Methods
pub mod InFlight
pub mod Window
pub mod Closing
pub mod Sequence
pub mod Fragments
pub mod Receive
pub mod Delivery
pub mod Runs
use ax25_ts.Base.{
  Bool, List, [], bit_or, false, if◌then◌else◌, leb, ltb, true, ℕ, ◌%◌, ◌&&◌, ◌++◌, ◌+◌, ◌-◌, ◌∷◌,
}
use ax25_ts.Callsign.{Callsign}
use ax25_ts.Frame.Factory.{test}
use ax25_ts.NetRom.ConnectInfo.{build_connect_ack_info, build_connect_request_info}
use ax25_ts.NetRom.Transport.{
  TransportHeader, connect_acknowledge, connect_request, disconnect_acknowledge, disconnect_request,
  flags_choke, flags_more_follows, flags_nak, flags_none, information, information_acknowledge,
}

-- circuit-state.ts
pub data CircuitState : Type 0 where
  disconnected connecting connected disconnecting : CircuitState

pub data CloseReason : Type 0 where
  normal refused timeout : CloseReason

-- circuit-options.ts, with every option resolved.
pub record CircuitOptions : Type 0 where
  pub window_size : ℕ
  pub retransmit_timeout_ms : ℕ
  pub max_retries : ℕ
  pub time_to_live : ℕ
  pub fragment_size : ℕ
  pub choke_threshold : ℕ

abbrev pub circuit_defaults : CircuitOptions
circuit_defaults = record {
  window_size = 4;
  retransmit_timeout_ms = 5000;
  max_retries = 3;
  time_to_live = 25;
  fragment_size = 236;
  choke_threshold = 0;
}

pub record Fragment : Type 0 where
  pub bytes : List ℕ
  pub more_follows : Bool

pub record Unacked : Type 0 where
  pub sequence : ℕ
  pub payload : List ℕ
  pub more_follows : Bool
  pub sent_at : ℕ
  pub retries : ℕ

-- packet.ts and network-header.ts
pub record Packet : Type 0 where
  pub origin : Callsign
  pub destination : Callsign
  pub time_to_live : ℕ
  pub transport : TransportHeader
  pub payload : List ℕ

-- A packet handed to the sink, or an event for the listeners.
pub data Output : Type 0 where
  sent : Packet → Output
  data_received : List ℕ → Output
  fired_connected : Output
  fired_closed : CloseReason → Output

pub record Circuit : Type 0 where
  pub options : CircuitOptions
  pub local_index : ℕ
  pub local_id : ℕ
  pub remote_index : ℕ
  pub remote_id : ℕ
  pub local_node : Callsign
  pub remote_node : Callsign
  pub state : CircuitState
  pub window : ℕ
  pub vs : ℕ
  pub va : ℕ
  pub send_queue : List Fragment
  pub unacked : List Unacked
  pub vr : ℕ
  pub reassembly : List ℕ
  pub peer_choked : Bool
  pub local_choked : Bool
  pub pending_deliveries : ℕ
  pub control_deadline : ℕ
  pub control_timer_armed : Bool
  pub control_retries : ℕ
  pub connect_user : Callsign
  pub output : List Output

abbrev pub blank : Callsign
blank = record { base = []; ssid = 0 }

unfoldable pub new_circuit : ℕ → ℕ → Callsign → Callsign → CircuitOptions → Circuit
new_circuit local_index local_id local_node remote_node options = record {
  options = options;
  local_index = local_index % 256;
  local_id = local_id % 256;
  remote_index = 0;
  remote_id = 0;
  local_node = local_node;
  remote_node = remote_node;
  state = disconnected;
  window = options.window_size;
  vs = 0;
  va = 0;
  send_queue = [];
  unacked = [];
  vr = 0;
  reassembly = [];
  peer_choked = false;
  local_choked = false;
  pending_deliveries = 0;
  control_deadline = 0;
  control_timer_armed = false;
  control_retries = 0;
  connect_user = blank;
  output = [];
}

abbrev pub is_disconnected : CircuitState → Bool
is_disconnected disconnected = true
is_disconnected _ = false

abbrev pub is_connected : CircuitState → Bool
is_connected connected = true
is_connected _ = false

abbrev pub is_connecting : CircuitState → Bool
is_connecting connecting = true
is_connecting _ = false

abbrev pub is_disconnecting : CircuitState → Bool
is_disconnecting disconnecting = true
is_disconnecting _ = false

abbrev pub clamp : ℕ → ℕ → ℕ → ℕ
clamp value lo hi = if ltb value lo then lo else if ltb hi value then hi else value

-- `(expected - seq) & 0xff` is 1..128. Sequence numbers are octets.
unfoldable pub seq_acked : ℕ → ℕ → Bool
seq_acked seq expected = let dist = (expected + 256 - seq) % 256 in leb 1 dist && leb dist 128

unfoldable pub mod256_after : ℕ → ℕ → Bool
mod256_after a b = let dist = (a + 256 - b) % 256 in leb 1 dist && leb dist 128

unfoldable pub remove_all {ℓ} : {A : Type ℓ} → (A → Bool) → List A → List A
remove_all predicate [] = []
remove_all predicate (x ∷ xs) =
    let rest = remove_all predicate xs in if predicate x then rest else x ∷ rest

-- Outbound wire helpers.
abbrev pub say : Circuit → Output → Circuit
say c o = record c { output = c.output ++ (o ∷ []) }

abbrev pub emit : Circuit → TransportHeader → List ℕ → Circuit
emit c transport payload = say c (
    sent (record {
      origin = c.local_node;
      destination = c.remote_node;
      time_to_live = c.options.time_to_live;
      transport = transport;
      payload = payload;
    }))

unfoldable pub send_connect_request : Circuit → Circuit
send_connect_request c =
    let user : Callsign = elim c.connect_user.base [ [] ↦ c.local_node | _ ∷ _ ↦ c.connect_user ] in
    emit c
      (record {
        circuit_index = c.local_index;
        circuit_id = c.local_id;
        tx_sequence = 0;
        rx_sequence = 0;
        opcode = connect_request;
        flags = flags_none;
      })
      (build_connect_request_info (clamp c.options.window_size 1 127) user c.local_node)

unfoldable pub send_connect_acknowledge : Circuit → Bool → Circuit
send_connect_acknowledge c is_refused =
    emit c
      (record {
        circuit_index = c.remote_index;
        circuit_id = c.remote_id;
        tx_sequence = c.local_index;
        rx_sequence = c.local_id;
        opcode = connect_acknowledge;
        flags = if is_refused then flags_choke else flags_none;
      })
      (if is_refused then [] else build_connect_ack_info c.window)

-- A header to the peer's circuit with no information field.
abbrev pub control_header : Circuit → ℕ → TransportHeader
control_header c opcode = record {
  circuit_index = c.remote_index;
  circuit_id = c.remote_id;
  tx_sequence = 0;
  rx_sequence = 0;
  opcode = opcode;
  flags = flags_none;
}

unfoldable pub send_disconnect_request : Circuit → Circuit
send_disconnect_request c = emit c (control_header c disconnect_request) []

unfoldable pub send_disconnect_acknowledge : Circuit → Circuit
send_disconnect_acknowledge c = emit c (control_header c disconnect_acknowledge) []

-- `flags |= bit` under a test, one flag after the other.
abbrev pub with_flag : Bool → ℕ → ℕ → ℕ
with_flag test bit flags = if test then bit_or flags bit else flags

unfoldable pub send_information : Circuit → ℕ → List ℕ → Bool → Circuit
send_information c seq payload more_follows =
    emit c
      (record (control_header c information) {
        tx_sequence = seq;
        rx_sequence = c.vr;
        flags =
            with_flag c.local_choked flags_choke
              (with_flag more_follows flags_more_follows flags_none);
      })
      payload

unfoldable pub send_information_acknowledge : Circuit → Bool → Circuit
send_information_acknowledge c nak =
    emit c
      (record (control_header c information_acknowledge) {
        rx_sequence = c.vr;
        flags = with_flag c.local_choked flags_choke (with_flag nak flags_nak flags_none);
      })
      []
