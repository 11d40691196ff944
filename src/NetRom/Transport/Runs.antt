-- ===== src/NetRom/Transport/Runs.antt =====
-- netrom/transport-header.ts: a header in octets.
use ax25_ts.Base.{[], refl, some, ◌∷◌, ◌≡◌}
use ax25_ts.NetRom.Transport.{TransportHeader, flags_choke, information, try_parse_transport_header}

abbrev header : TransportHeader
header = record {
  circuit_index = 3;
  circuit_id = 4;
  tx_sequence = 5;
  rx_sequence = 6;
  opcode = information;
  flags = flags_choke;
}

header_octets : try_parse_transport_header (3 ∷ 4 ∷ 5 ∷ 6 ∷ 0x85 ∷ []) 0 ≡ some header
unfolding try_parse_transport_header
header_octets = refl
