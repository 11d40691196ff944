-- ===== src/Frame/Chain.antt =====
-- frame.ts: reading a chain of address slots that was written.
use ax25_ts.Address.{Ax25Address, base_octets, read_address, ssid_octet, write_address}
use ax25_ts.Address.RoundTrip.{length-base_octets, read_address-write_address}
use ax25_ts.Base.{
  All, List, [], ap, append_assoc, ap₂, arith, false, leb, length, length-append, ok, refl, suc,
  true, zero, ℕ, ◌++◌, ◌+◌, ◌∙◌, ◌∷◌, ◌≡◌, ◌≤◌,
}
use ax25_ts.Callsign.{IsValid}
use ax25_ts.Frame.{write_chain}
use ax25_ts.Frame.Decode.{and_then, read_chain, read_slot, require, slot_of}

pub length-write_address : (a : Ax25Address) → length (write_address a) ≡ 7
unfolding write_address
length-write_address a = omega (
  arith,
  length-append (base_octets 6 a.callsign.base)
      (ssid_octet a.callsign.ssid a.crh_bit a.extension_bit ∷ []),
  length-base_octets 6 a.callsign.base,
)

-- A slot anywhere in the octets.
pub read_slot_at :
    (bytes : List ℕ) (offset : ℕ) (front back : List ℕ) (a : Ax25Address)
    → bytes ≡ front ++ (write_address a ++ back)
    → offset ≡ length front
    → IsValid a.callsign
    → read_slot bytes offset ≡ ok a
read_slot_at bytes offset front back a e o v =
    ap slot_of (ap₂ read_address e o ∙ read_address-write_address front back a v)

-- The slot before the chain and every slot but the last of the chain have a clear extension bit.
abbrev pub IsClosed : Ax25Address → List Ax25Address → Type 0
IsClosed last [] = last.extension_bit ≡ true
IsClosed last (a ∷ rest) = (last.extension_bit ≡ false) × IsClosed a rest

pub read_chain-write_chain :
    (left : ℕ) (bytes : List ℕ) (offset : ℕ) (front back : List ℕ) (last : Ax25Address)
    (digipeaters : List Ax25Address)
    → bytes ≡ front ++ (write_chain digipeaters ++ back)
    → offset ≡ length front
    → IsClosed last digipeaters
    → All (λ a. IsValid a.callsign) digipeaters
    → length digipeaters ≤ left
    → read_chain left bytes offset last
      ≡ ok (digipeaters, offset + length (write_chain digipeaters))
unfolding read_chain write_chain and_then require
read_chain-write_chain zero bytes offset front back last [] e o closed v few =
    rw closed (ap (λ n. ok ([], n)) (omega arith))
read_chain-write_chain (suc left) bytes offset front back last [] e o closed v few =
    rw closed (ap (λ n. ok ([], n)) (omega arith))
read_chain-write_chain zero bytes offset front back last (a ∷ rest) e o closed v few =
    absurd (omega arith)
read_chain-write_chain (suc left) bytes offset front back last (a ∷ rest) e o closed v few =
    let here : bytes ≡ front ++ (write_address a ++ (write_chain rest ++ back)) =
      e ∙ rw append_assoc refl in
    let beyond : bytes ≡ (front ++ write_address a) ++ (write_chain rest ++ back) =
      here ∙ rw append_assoc refl in
    let seven = length-write_address a in
    let room : leb (offset + 7) (length bytes) ≡ true = ground (
      arith,
      ap length beyond,
      length-append (front ++ write_address a) (write_chain rest ++ back),
      length-append front (write_address a),
    ) in
    let after : offset + 7 ≡ length (front ++ write_address a) =
      omega (arith, length-append front (write_address a)) in
    let more =
      read_chain-write_chain left bytes (offset + 7) (front ++ write_address a) back a rest beyond
        after closed.1 v.1 (omega arith) in
    let total : offset + 7 + length (write_chain rest)
        ≡ offset + length (write_address a ++ write_chain rest) =
      omega (arith, length-append (write_address a) (write_chain rest)) in
    rw
      (
        closed.0,
        room,
        read_slot_at bytes offset front (write_chain rest ++ back) a here o v.0,
        more,
      )
      (ap (λ n. ok (a ∷ rest, n)) total)
