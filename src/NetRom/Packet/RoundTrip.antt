-- ===== src/NetRom/Packet/RoundTrip.antt =====
-- netrom/network-header.ts, netrom/packet.ts, netrom/connect-request-info.ts: reading what was
-- written.
use ax25_ts.Address.{Ax25Address, read_address}
use ax25_ts.Address.RoundTrip.{read_address-write_address}
use ax25_ts.Base.{
  List, [], ap, append-nil, append_assoc, ap₂, arith, drop, drop-length-append, false, get_or,
  get_or-append, length, length-append, ltb, ok, refl, some, sym, ℕ, ◌%◌, ◌++◌, ◌+◌, ◌∙◌, ◌∷◌, ◌≡◌,
}
use ax25_ts.Base.Bytes.{IsByte}
use ax25_ts.Callsign.{Callsign, IsValid}
use ax25_ts.Frame.Chain.{length-write_address}
use ax25_ts.NetRom.Circuit.{Packet}
use ax25_ts.NetRom.ConnectInfo.{build_connect_request_info, write_shifted}
use ax25_ts.NetRom.Packet.{
  NetworkHeader, and_then_some, encode_network_header, encode_packet, network_of, shifted_in,
  try_parse_connect_request_info, try_parse_network_header, try_parse_packet, try_read_shifted,
}
use ax25_ts.NetRom.Transport.{encode_transport_header, try_parse_transport_header}
use ax25_ts.NetRom.Transport.RoundTrip.{Fits, length-encode_transport_header, try_parse-encode}

pub length-write_shifted : (c : Callsign) → length (write_shifted c) ≡ 7
unfolding write_shifted
length-write_shifted c = length-write_address _

pub read_shifted_at :
    (source : List ℕ) (offset : ℕ) (front back : List ℕ) (c : Callsign)
    → source ≡ front ++ (write_shifted c ++ back)
    → offset ≡ length front
    → IsValid c
    → try_read_shifted source offset ≡ some c
unfolding try_read_shifted shifted_in write_shifted
read_shifted_at source offset front back c e o v =
    let slot : Ax25Address = record { callsign = c; crh_bit = false; extension_bit = false } in
    let read : read_address source offset ≡ ok slot =
      ap₂ read_address e o ∙ read_address-write_address front back slot v in
    let seven = length-write_shifted c in
    let room : ltb (length source) (offset + 7) ≡ false = ground (
      arith,
      ap length e,
      length-append front (write_shifted c ++ back),
      length-append (write_shifted c) back,
    ) in
    rw (room, read) refl

-- The callsigns and the octet of a network header.
pub record FitsNetwork (h : NetworkHeader) : Type 0 where
  pub origin : IsValid h.origin
  pub destination : IsValid h.destination
  pub time_to_live : IsByte h.time_to_live

length-encode_network_header : (h : NetworkHeader) → length (encode_network_header h) ≡ 15
unfolding encode_network_header
length-encode_network_header h = omega (
  arith,
  length-append (write_shifted h.origin)
      (write_shifted h.destination ++ ((h.time_to_live % 256) ∷ [])),
  length-append (write_shifted h.destination) ((h.time_to_live % 256) ∷ []),
  length-write_shifted h.origin,
  length-write_shifted h.destination,
)

parse_network :
    (back : List ℕ) (h : NetworkHeader)
    → FitsNetwork h
    → try_parse_network_header (encode_network_header h ++ back) 0 ≡ some h
unfolding try_parse_network_header encode_network_header and_then_some
parse_network back h v =
    let o = write_shifted h.origin in
    let d = write_shifted h.destination in
    let t = h.time_to_live % 256 in
    let bytes = encode_network_header h ++ back in
    let at0 : bytes ≡ [] ++ (o ++ (d ++ (t ∷ back))) = rw (append_assoc, append_assoc) refl in
    let at14 : bytes ≡ (o ++ d) ++ (t ∷ back) = at0 ∙ sym (append_assoc o d (t ∷ back)) in
    let seven = length-write_shifted h.origin in
    let seven' = length-write_shifted h.destination in
    let ttl : get_or bytes 14 0 ≡ h.time_to_live =
      ap (λ b. get_or b 14 0) at14
      ∙ get_or-append (o ++ d) (t ∷ back) 14 0 0 (omega (arith, length-append o d))
      ∙ omega (arith, v.time_to_live) in
    let room : ltb (length bytes) 15 ≡ false =
      ground
        (arith, length-append (encode_network_header h) back, length-encode_network_header h) in
    rw
      (
        room,
        read_shifted_at bytes 0 [] (d ++ (t ∷ back)) h.origin at0 refl v.origin,
        read_shifted_at bytes 7 o (t ∷ back) h.destination at0 (sym seven) v.destination,
        ttl,
      )
      refl

-- A packet whose headers fit their fields is read back from its octets unchanged.
pub try_parse_packet-encode_packet :
    (p : Packet)
    → FitsNetwork (network_of p)
    → Fits p.transport
    → try_parse_packet (encode_packet p) ≡ some p
unfolding try_parse_packet encode_packet and_then_some
try_parse_packet-encode_packet p v w =
    let n = encode_network_header (network_of p) in
    let t = encode_transport_header p.transport in
    let fifteen = length-encode_network_header (network_of p) in
    let five : length t ≡ 5 = length-encode_transport_header p.transport in
    let room : ltb (length (n ++ (t ++ p.payload))) 20 ≡ false =
      ground (arith, length-append n (t ++ p.payload), length-append t p.payload) in
    let transport : try_parse_transport_header (n ++ (t ++ p.payload)) 15 ≡ some p.transport =
      ap (try_parse_transport_header (n ++ (t ++ p.payload))) (sym fifteen)
      ∙ try_parse-encode n p.payload p.transport w in
    let twenty : 20 ≡ length (n ++ t) = omega (arith, length-append n t) in
    let rest : drop 20 (n ++ (t ++ p.payload)) ≡ p.payload =
      ap (drop 20) (sym (append_assoc n t p.payload))
      ∙ ap (λ k. drop k ((n ++ t) ++ p.payload)) twenty
      ∙ drop-length-append (n ++ t) p.payload in
    rw (room, parse_network (t ++ p.payload) (network_of p) v, transport, rest) refl

-- The node that gets a connect request reads the window (its low octet), the user and the node that
-- the other one wrote.
pub try_parse-build_connect_request_info :
    (window : ℕ) (user node : Callsign)
    → IsValid user
    → IsValid node
    → try_parse_connect_request_info (build_connect_request_info window user node) 0
      ≡ some (record {
        proposed_window = window % 256;
        originating_user = user;
        originating_node = node;
      })
unfolding try_parse_connect_request_info build_connect_request_info and_then_some
try_parse-build_connect_request_info window user node u n =
    let w = window % 256 in
    let a = write_shifted user in
    let b = write_shifted node in
    let seven = length-write_shifted user in
    let seven' = length-write_shifted node in
    let room : ltb (length (w ∷ (a ++ b))) 15 ≡ false = ground (arith, length-append a b) in
    rw
      (
        room,
        read_shifted_at (w ∷ (a ++ b)) 1 (w ∷ []) b user refl refl u,
        read_shifted_at (w ∷ (a ++ b)) 8 (w ∷ a) [] node (rw append-nil refl) (omega arith) n,
      )
      refl
