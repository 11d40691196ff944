-- ===== src/NetRom/Transport/RoundTrip.antt =====
-- netrom/transport-header.ts: reading a header that was written.
use ax25_ts.Base.{
  All, List, [], arith, false, get_or, get_or-append, length, length-append, ltb, refl, some, suc,
  zero, ℕ, ◌%◌, ◌*◌, ◌++◌, ◌+◌, ◌/◌, ◌<◌, ◌∷◌, ◌≡◌,
}
use ax25_ts.Base.Bytes.{IsByte, bit_or_low_high}
use ax25_ts.NetRom.Transport.{
  TransportHeader, encode_transport_header, opcode_and_flags, try_parse_transport_header,
}

-- Every field fits its place on the wire: octets, an opcode of four bits, flags in the upper four.
pub record Fits (h : TransportHeader) : Type 0 where
  pub index : IsByte h.circuit_index
  pub id : IsByte h.circuit_id
  pub tx : IsByte h.tx_sequence
  pub rx : IsByte h.rx_sequence
  pub op : h.opcode < 16
  pub high : h.flags / 16 * 16 ≡ h.flags
  pub flag_octet : IsByte h.flags

op_octet :
    (h : TransportHeader)
    → Fits h
    → (opcode_and_flags h % 256 % 16 ≡ h.opcode)
      × (opcode_and_flags h % 256 / 16 % 16 * 16 ≡ h.flags)
unfolding opcode_and_flags
op_octet h v =
    omega (
      arith,
      v.high,
      bit_or_low_high (h.opcode % 16) (h.flags / 16 % 16) (omega arith) (omega arith),
    )

-- A header whose fields fit reads back from what was written for it, at any offset and whatever
-- follows.
pub try_parse-encode :
    (front back : List ℕ) (h : TransportHeader)
    → Fits h
    → try_parse_transport_header (front ++ (encode_transport_header h ++ back)) (length front)
      ≡ some h
unfolding try_parse_transport_header encode_transport_header
try_parse-encode front back h v =
    let (op, flags) = op_octet h v in
    let tail = encode_transport_header h ++ back in
    let zero_at : get_or (front ++ tail) (length front) 0 ≡ h.circuit_index % 256 =
      get_or-append front tail (length front) 0 0 (omega arith) in
    let room : ltb (length (front ++ tail)) (length front + 5) ≡ false =
      ground (arith, length-append front tail) in
    rw
      (
        room,
        zero_at,
        get_or-append front tail (length front + 1) 1 0 refl,
        get_or-append front tail (length front + 2) 2 0 refl,
        get_or-append front tail (length front + 3) 3 0 refl,
        get_or-append front tail (length front + 4) 4 0 refl,
        op,
        flags,
      )
      (ground arith)

get_or-IsByte : (source : List ℕ) (i : ℕ) → All IsByte source → IsByte (get_or source i 0)
get_or-IsByte [] i h = omega arith
get_or-IsByte (x ∷ xs) zero h = h.0
get_or-IsByte (x ∷ xs) (suc i) h = get_or-IsByte xs i h.1

-- A header that is read from octets, at any offset, has fields that fit their place on the wire.
pub try_parse-Fits :
    (source : List ℕ) (offset : ℕ) (h : TransportHeader)
    → All IsByte source
    → try_parse_transport_header source offset ≡ some h
    → Fits h
unfolding try_parse_transport_header
try_parse-Fits source offset h bytes e =
    let octet = λ (i : ℕ). get_or-IsByte source i bytes in
    ground (
      arith,
      octet offset,
      octet (offset + 1),
      octet (offset + 2),
      octet (offset + 3),
      octet (offset + 4),
    )

pub length-encode_transport_header : (h : TransportHeader) → length (encode_transport_header h) ≡ 5
unfolding encode_transport_header
length-encode_transport_header h = refl
