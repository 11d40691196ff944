-- ===== src/NetRom/Packet.antt =====
-- netrom/callsign.ts (tryReadShifted), netrom/network-header.ts, netrom/packet.ts and the reading of
-- netrom/connect-request-info.ts: the packets on the wire. The packet of the circuits is used.
pub mod RoundTrip
pub mod Runs
use ax25_ts.Address.{AddressError, Ax25Address, address_encoded_length, read_address}
use ax25_ts.Base.{
  Bool, List, Option, Result, [], drop, err, get_or, if◌then◌else◌, length, ltb, none, ok, some,
  take, true, ℕ, ◌%◌, ◌&&◌, ◌*◌, ◌++◌, ◌+◌, ◌-◌, ◌/◌, ◌==◌, ◌∷◌,
}
use ax25_ts.Callsign.{Callsign, CallsignError, new_callsign}
use ax25_ts.NetRom.Circuit.{Packet}
use ax25_ts.NetRom.ConnectInfo.{write_shifted}
use ax25_ts.NetRom.Transport.{encode_transport_header, try_parse_transport_header}

abbrev pub shifted_length : ℕ
shifted_length = address_encoded_length

abbrev pub network_header_encoded_length : ℕ
network_header_encoded_length = shifted_length + shifted_length + 1

abbrev pub transport_header_encoded_length : ℕ
transport_header_encoded_length = 5

abbrev pub packet_header_length : ℕ
packet_header_length = network_header_encoded_length + transport_header_encoded_length

unfoldable pub all_space : List ℕ → Bool
all_space [] = true
all_space (b ∷ bs) = b / 2 == 0x20 && all_space bs

abbrev pub is_all_space_base : List ℕ → ℕ → Bool
is_all_space_base source offset = all_space (take 6 (drop offset source))

abbrev pub callsign_of : Result CallsignError Callsign → Option Callsign
callsign_of (ok c) = some c
callsign_of (err e) = none

-- The `try` of `tryReadShifted`.
unfoldable pub shifted_in : List ℕ → ℕ → Result AddressError Ax25Address → Option Callsign
shifted_in source offset (ok a) = some a.callsign
shifted_in source offset (err e) =
    if is_all_space_base source offset
    then callsign_of (new_callsign [] (get_or source (offset + 6) 0 / 2 % 16))
    else none

unfoldable pub try_read_shifted : List ℕ → ℕ → Option Callsign
unfolding shifted_in
try_read_shifted source offset =
    if ltb (length source) (offset + shifted_length)
    then none
    else shifted_in source offset (read_address source offset)

-- The first `null` ends the reading.
unfoldable pub and_then_some {ℓ κ} :
    {A : Type ℓ} {B : Type κ} → Option A → (A → Option B) → Option B
and_then_some none next = none
and_then_some (some a) next = next a

pub record NetworkHeader : Type 0 where
  pub origin : Callsign
  pub destination : Callsign
  pub time_to_live : ℕ

unfoldable pub decremented_network_header : NetworkHeader → NetworkHeader
decremented_network_header header = record header {
  time_to_live = if header.time_to_live == 0 then 0 else header.time_to_live - 1;
}

unfoldable pub encode_network_header : NetworkHeader → List ℕ
encode_network_header header =
    write_shifted header.origin
    ++ (write_shifted header.destination ++ ((header.time_to_live % 256) ∷ []))

unfoldable pub try_parse_network_header : List ℕ → ℕ → Option NetworkHeader
try_parse_network_header source offset =
    if ltb (length source) (offset + network_header_encoded_length)
    then none
    else and_then_some (try_read_shifted source offset) (λ origin.
      and_then_some (try_read_shifted source (offset + shifted_length)) (λ destination.
        some (record {
          origin = origin;
          destination = destination;
          time_to_live = get_or source (offset + shifted_length * 2) 0;
        })))

abbrev pub network_of : Packet → NetworkHeader
network_of p = record {
  origin = p.origin;
  destination = p.destination;
  time_to_live = p.time_to_live;
}

unfoldable pub encode_packet : Packet → List ℕ
encode_packet p =
    encode_network_header (network_of p) ++ (encode_transport_header p.transport ++ p.payload)

unfoldable pub try_parse_packet : List ℕ → Option Packet
try_parse_packet info =
    if ltb (length info) packet_header_length
    then none
    else and_then_some (try_parse_network_header info 0) (λ network.
      and_then_some (try_parse_transport_header info network_header_encoded_length) (λ transport.
        some (record {
          origin = network.origin;
          destination = network.destination;
          time_to_live = network.time_to_live;
          transport = transport;
          payload = drop packet_header_length info;
        })))

abbrev pub connect_request_info_length : ℕ
connect_request_info_length = 1 + shifted_length + shifted_length

pub record ConnectRequestInfo : Type 0 where
  pub proposed_window : ℕ
  pub originating_user : Callsign
  pub originating_node : Callsign

unfoldable pub try_parse_connect_request_info : List ℕ → ℕ → Option ConnectRequestInfo
try_parse_connect_request_info info offset =
    if ltb (length info) (offset + connect_request_info_length)
    then none
    else and_then_some (try_read_shifted info (offset + 1)) (λ user.
      and_then_some (try_read_shifted info (offset + 1 + shifted_length)) (λ node. some (record {
        proposed_window = get_or info offset 0;
        originating_user = user;
        originating_node = node;
      })))
