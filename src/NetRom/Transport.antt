-- ===== src/NetRom/Transport.antt =====
-- netrom/transport-header.ts: the five octets of the layer 4 header. Octets of an absent source
-- read as 0, but every read is behind the length test.
pub mod RoundTrip
pub mod Runs
use ax25_ts.Base.{
  Bool, List, Option, [], bit_or, get_or, has_bit, if◌then◌else◌, length, ltb, none, some, ℕ, ◌%◌,
  ◌*◌, ◌+◌, ◌/◌, ◌∷◌,
}

abbrev pub connect_request : ℕ
connect_request = 0x01

abbrev pub connect_acknowledge : ℕ
connect_acknowledge = 0x02

abbrev pub disconnect_request : ℕ
disconnect_request = 0x03

abbrev pub disconnect_acknowledge : ℕ
disconnect_acknowledge = 0x04

abbrev pub information : ℕ
information = 0x05

abbrev pub information_acknowledge : ℕ
information_acknowledge = 0x06

abbrev pub flags_none : ℕ
flags_none = 0x00

abbrev pub flags_more_follows : ℕ
flags_more_follows = 0x20

abbrev pub flags_nak : ℕ
flags_nak = 0x40

abbrev pub flags_choke : ℕ
flags_choke = 0x80

pub record TransportHeader : Type 0 where
  pub circuit_index : ℕ
  pub circuit_id : ℕ
  pub tx_sequence : ℕ
  pub rx_sequence : ℕ
  pub opcode : ℕ
  pub flags : ℕ

abbrev pub header_choke : TransportHeader → Bool
header_choke h = has_bit 7 h.flags

abbrev pub header_nak : TransportHeader → Bool
header_nak h = has_bit 6 h.flags

abbrev pub header_more_follows : TransportHeader → Bool
header_more_follows h = has_bit 5 h.flags

-- `(opcode & 0x0f) | (flags & 0xf0)`.
pub opcode_and_flags : TransportHeader → ℕ
opcode_and_flags h = bit_or (h.opcode % 16) (h.flags / 16 % 16 * 16)

unfoldable pub encode_transport_header : TransportHeader → List ℕ
encode_transport_header h =
    (h.circuit_index % 256)
    ∷ (h.circuit_id % 256)
    ∷ (h.tx_sequence % 256)
    ∷ (h.rx_sequence % 256)
    ∷ (opcode_and_flags h % 256)
    ∷ []

pub try_parse_transport_header : List ℕ → ℕ → Option TransportHeader
try_parse_transport_header source offset =
    let op_byte = get_or source (offset + 4) 0 in
    if ltb (length source) (offset + 5)
    then none
    else some (record {
      circuit_index = get_or source offset 0;
      circuit_id = get_or source (offset + 1) 0;
      tx_sequence = get_or source (offset + 2) 0;
      rx_sequence = get_or source (offset + 3) 0;
      opcode = op_byte % 16;
      flags = op_byte / 16 % 16 * 16;
    })
