-- ===== src/NetRom/Inp3/Runs.antt =====
-- netrom/inp3-rif.ts at concrete frames.
use ax25_ts.Address.{base_octets, read_address, read_base, ssid_octet, with_base, write_address}
use ax25_ts.Base.{
  All, List, Option, Result, [], arith, err, length, none, ok, refl, some, suc, zero, ℕ, ◌∷◌, ◌≡◌,
}
use ax25_ts.Callsign.{Callsign, IsValid, all_valid, is_valid_base_char, new_callsign}
use ax25_ts.NetRom.ConnectInfo.{write_shifted}
use ax25_ts.NetRom.Inp3.{
  Inp3Error, Inp3Rif, Inp3Rip, followed_by, inp3_parse_lenient, inp3_parse_strict, parse_inp3_rif,
  parse_inp3_rip, parse_rips, parsed_rip, walk_tlvs, with_rip, with_tlv, write_inp3_rif,
  write_inp3_rip, write_rips, write_tlvs,
}
use ax25_ts.NetRom.Inp3.RoundTrip.{
  AreSeparated, FitsRip, parse_rif-write_rif, rip_octets, rips_octets, tlv_octets,
}
use ax25_ts.NetRom.Packet.{and_then_some, shifted_in, try_read_shifted}

abbrev gb7abc : Callsign
gb7abc = record { base = 0x47 ∷ 0x42 ∷ 0x37 ∷ 0x41 ∷ 0x42 ∷ 0x43 ∷ []; ssid = 0 }

abbrev zl7xyz : Callsign
zl7xyz = record { base = 0x5a ∷ 0x4c ∷ 0x37 ∷ 0x58 ∷ 0x59 ∷ 0x5a ∷ []; ssid = 3 }

gb7abc-IsValid : IsValid gb7abc
unfolding all_valid is_valid_base_char
gb7abc-IsValid = record { short = omega arith; chars = refl; in_range = omega arith }

zl7xyz-IsValid : IsValid zl7xyz
unfolding all_valid is_valid_base_char
zl7xyz-IsValid = record { short = omega arith; chars = refl; in_range = omega arith }

-- A node with its own alias, and a route of 1200 ms over two hops.
abbrev own_rip : Inp3Rip
own_rip = record {
  destination = gb7abc;
  hop_count = 0;
  target_time_ms = 0;
  tlvs = (record { tlv_type = 0; value = 0x41 ∷ 0x42 ∷ [] }) ∷ [];
}

abbrev route_rip : Inp3Rip
route_rip = record { destination = zl7xyz; hop_count = 2; target_time_ms = 1200; tlvs = [] }

abbrev two_rips : Inp3Rif
two_rips = record { rips = own_rip ∷ route_rip ∷ [] }

two_rips_fit : All FitsRip two_rips.rips
two_rips_fit = (
  record {
    destination = gb7abc-IsValid;
    hop_count = omega arith;
    whole_units = refl;
    target_time = omega arith;
    tlvs = (record { type_octet = omega arith; short = omega arith }, tt);
  },
  (
    record {
      destination = zl7xyz-IsValid;
      hop_count = omega arith;
      whole_units = refl;
      target_time = omega arith;
      tlvs = tt;
    },
    tt,
  ),
)

two_rips_separated : AreSeparated two_rips.rips
unfolding AreSeparated rips_octets rip_octets tlv_octets write_shifted write_address base_octets
    ssid_octet
two_rips_separated = (omega arith, (tt, tt))

parse_rif-write_rif_example :
    (bytes : List ℕ) × ((write_inp3_rif two_rips ≡ ok bytes)
      × (parse_inp3_rif bytes inp3_parse_strict ≡ some two_rips))
parse_rif-write_rif_example =
    parse_rif-write_rif two_rips inp3_parse_strict two_rips_fit two_rips_separated refl

-- Of a frame that is long enough the reader takes the start of a record for an alias.
abbrev copies : ℕ → List Inp3Rip
copies zero = []
copies (suc n) = route_rip ∷ copies n

abbrev count_read : Result Inp3Error (List ℕ) → Option ℕ
count_read (err e) = none
count_read (ok bytes) =
    and_then_some (parse_inp3_rif bytes inp3_parse_lenient) (λ rif. some (length rif.rips))

abbrev copies_read : ℕ → Option ℕ
copies_read n = count_read (write_inp3_rif (record { rips = copies n }))

-- The octets behind the end mark of the first of eighteen records frame as an alias of 180 octets.
seventeen_read : copies_read 17 ≡ some 17
unfolding write_inp3_rif followed_by write_rips write_inp3_rip write_tlvs and_then_some
    parse_inp3_rif parse_rips write_shifted write_address base_octets ssid_octet parsed_rip with_rip
    parse_inp3_rip try_read_shifted shifted_in read_address read_base with_base new_callsign
    all_valid is_valid_base_char walk_tlvs with_tlv
seventeen_read = refl

eighteen_read : copies_read 18 ≡ some 0
unfolding write_inp3_rif followed_by write_rips write_inp3_rip write_tlvs and_then_some
    parse_inp3_rif parse_rips write_shifted write_address base_octets ssid_octet parsed_rip with_rip
    parse_inp3_rip try_read_shifted shifted_in read_address read_base with_base new_callsign
    all_valid is_valid_base_char walk_tlvs with_tlv
eighteen_read = refl
