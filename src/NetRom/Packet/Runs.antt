-- ===== src/NetRom/Packet/Runs.antt =====
-- netrom/packet.ts and netrom/connect-request-info.ts: the theorems at concrete inputs.
use ax25_ts.Base.{[], arith, refl, some, ◌∷◌, ◌≡◌}
use ax25_ts.Callsign.{Callsign, IsValid, all_valid, is_valid_base_char}
use ax25_ts.NetRom.Circuit.{Packet}
use ax25_ts.NetRom.ConnectInfo.{build_connect_request_info}
use ax25_ts.NetRom.Packet.{encode_packet, try_parse_connect_request_info, try_parse_packet}
use ax25_ts.NetRom.Packet.RoundTrip.{
  try_parse-build_connect_request_info, try_parse_packet-encode_packet,
}
use ax25_ts.NetRom.Transport.{flags_more_follows, information}
use ax25_ts.NetRom.Transport.RoundTrip.{Fits}

abbrev alice : Callsign
alice = record { base = 0x47 ∷ 0x38 ∷ []; ssid = 1 }

abbrev bob : Callsign
bob = record { base = 0x4d ∷ 0x30 ∷ []; ssid = 0 }

alice-IsValid : IsValid alice
unfolding all_valid is_valid_base_char
alice-IsValid = record { short = omega arith; chars = refl; in_range = omega arith }

bob-IsValid : IsValid bob
unfolding all_valid is_valid_base_char
bob-IsValid = record { short = omega arith; chars = refl; in_range = omega arith }

abbrev letter : Packet
letter = record {
  origin = alice;
  destination = bob;
  time_to_live = 25;
  transport = record {
    circuit_index = 3;
    circuit_id = 4;
    tx_sequence = 5;
    rx_sequence = 6;
    opcode = information;
    flags = flags_more_follows;
  };
  payload = 1 ∷ 2 ∷ 3 ∷ [];
}

letter-Fits : Fits letter.transport
letter-Fits = record {
  index = omega arith;
  id = omega arith;
  tx = omega arith;
  rx = omega arith;
  op = omega arith;
  high = refl;
  flag_octet = omega arith;
}

try_parse_packet-encode_packet_example : try_parse_packet (encode_packet letter) ≡ some letter
try_parse_packet-encode_packet_example =
    try_parse_packet-encode_packet letter
      (record { origin = alice-IsValid; destination = bob-IsValid; time_to_live = omega arith })
      letter-Fits

try_parse-build_connect_request_info_example :
    try_parse_connect_request_info (build_connect_request_info 4 alice bob) 0
    ≡ some (record { proposed_window = 4; originating_user = alice; originating_node = bob })
try_parse-build_connect_request_info_example =
    try_parse-build_connect_request_info 4 alice bob alice-IsValid bob-IsValid
