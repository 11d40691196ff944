-- ===== src/NetRom/Inp3.antt =====
-- netrom/inp3-rif.ts: the INP3 routing information frame, its records and their options. A reading
-- position of the source is the list of the octets from there on, and times are whole milliseconds.
pub mod RoundTrip
pub mod Runs
use ax25_ts.Base.{
  Bool, List, Option, Result, [], bit_or, drop, err, false, get_or, if◌then◌else◌, is_empty, leb,
  length, ltb, map, none, not, ok, some, suc, take, true, zero, ℕ, ◌%◌, ◌&&◌, ◌*◌, ◌++◌, ◌+◌, ◌/◌,
  ◌==◌, ◌||◌, ◌∷◌,
}
use ax25_ts.Callsign.{Callsign}
use ax25_ts.NetRom.Alias.{is_printable, printable, trim_end}
use ax25_ts.NetRom.ConnectInfo.{write_shifted}
use ax25_ts.NetRom.Packet.{and_then_some, try_read_shifted}

pub record Inp3ParseOptions : Type 0 where
  pub allow_empty_rip_list : Bool
  pub allow_trailing_partial_rip : Bool

abbrev pub inp3_parse_lenient : Inp3ParseOptions
inp3_parse_lenient = record { allow_empty_rip_list = true; allow_trailing_partial_rip = true }

abbrev pub inp3_parse_strict : Inp3ParseOptions
inp3_parse_strict = record { allow_empty_rip_list = false; allow_trailing_partial_rip = false }

abbrev pub inp3_tlv_alias_type : ℕ
inp3_tlv_alias_type = 0x00

abbrev pub inp3_tlv_ip_type : ℕ
inp3_tlv_ip_type = 0x01

pub record Inp3Tlv : Type 0 where
  pub tlv_type : ℕ
  pub value : List ℕ

pub record Inp3Rip : Type 0 where
  pub destination : Callsign
  pub hop_count : ℕ
  pub target_time_ms : ℕ
  pub tlvs : List Inp3Tlv

pub record Inp3Rif : Type 0 where
  pub rips : List Inp3Rip

pub data Inp3Error : Type 0 where
  tlv_value_too_long target_time_out_of_range : Inp3Error

unfoldable pub inp3_tlv_encoded_length : Inp3Tlv → ℕ
inp3_tlv_encoded_length tlv = 2 + length tlv.value

unfoldable pub inp3_tlv_is_known : Inp3Tlv → Bool
inp3_tlv_is_known tlv = tlv.tlv_type == inp3_tlv_alias_type || tlv.tlv_type == inp3_tlv_ip_type

-- Characters that cannot be printed are sent as blanks.
unfoldable pub inp3_tlv_alias : List ℕ → Inp3Tlv
inp3_tlv_alias alias = record {
  tlv_type = inp3_tlv_alias_type;
  value = map (λ code. if is_printable code then code else 0x20) alias;
}

unfoldable pub inp3_tlv_as_alias : Inp3Tlv → List ℕ
inp3_tlv_as_alias tlv = trim_end (printable tlv.value)

abbrev pub inp3_rip_prefix_length : ℕ
inp3_rip_prefix_length = 10

abbrev pub inp3_horizon_ms : ℕ
inp3_horizon_ms = 0xea60 * 10

abbrev pub inp3_end_of_packet : ℕ
inp3_end_of_packet = 0x00

abbrev pub inp3_rif_signature : ℕ
inp3_rif_signature = 0xff

unfoldable pub inp3_rip_is_horizon : Inp3Rip → Bool
inp3_rip_is_horizon rip = leb inp3_horizon_ms rip.target_time_ms

unfoldable pub first_alias : List Inp3Tlv → Option (List ℕ)
first_alias [] = none
first_alias (tlv ∷ tlvs) =
    if tlv.tlv_type == inp3_tlv_alias_type then some (inp3_tlv_as_alias tlv) else first_alias tlvs

abbrev pub inp3_rip_alias : Inp3Rip → Option (List ℕ)
inp3_rip_alias rip = first_alias rip.tlvs

unfoldable pub tlvs_length : List Inp3Tlv → ℕ
tlvs_length [] = 0
tlvs_length (tlv ∷ tlvs) = inp3_tlv_encoded_length tlv + tlvs_length tlvs

unfoldable pub inp3_rip_encoded_length : Inp3Rip → ℕ
inp3_rip_encoded_length rip = inp3_rip_prefix_length + tlvs_length rip.tlvs + 1

unfoldable pub write_inp3_tlv : Inp3Tlv → Result Inp3Error (List ℕ)
write_inp3_tlv tlv =
    if ltb 255 (length tlv.value)
    then err tlv_value_too_long
    else ok ((tlv.tlv_type % 256) ∷ length tlv.value ∷ tlv.value)

-- One write after another; the first error is thrown.
unfoldable pub followed_by :
    Result Inp3Error (List ℕ) → Result Inp3Error (List ℕ) → Result Inp3Error (List ℕ)
followed_by (err e) rest = err e
followed_by (ok octets) (err e) = err e
followed_by (ok octets) (ok more) = ok (octets ++ more)

unfoldable pub write_tlvs : List Inp3Tlv → Result Inp3Error (List ℕ)
write_tlvs [] = ok (inp3_end_of_packet ∷ [])
write_tlvs (tlv ∷ tlvs) = followed_by (write_inp3_tlv tlv) (write_tlvs tlvs)

-- `inp3RipToBytes`: the buffer has the room the record needs.
unfoldable pub write_inp3_rip : Inp3Rip → Result Inp3Error (List ℕ)
write_inp3_rip rip =
    let units = rip.target_time_ms / 10 in
    if ltb 0xffff units
    then err target_time_out_of_range
    else followed_by
        (ok (
          write_shifted rip.destination
          ++ ((rip.hop_count % 256) ∷ (units / 256 % 256) ∷ (units % 256) ∷ [])))
        (write_tlvs rip.tlvs)

unfoldable pub write_rips : List Inp3Rip → Result Inp3Error (List ℕ)
write_rips [] = ok []
write_rips (rip ∷ rips) = followed_by (write_inp3_rip rip) (write_rips rips)

unfoldable pub write_inp3_rif : Inp3Rif → Result Inp3Error (List ℕ)
write_inp3_rif rif = followed_by (ok (inp3_rif_signature ∷ [])) (write_rips rif.rips)

-- The fields of a RIP, and the octets after it.
unfoldable pub with_tlv : Inp3Tlv → Option (List Inp3Tlv × List ℕ) → Option (List Inp3Tlv × List ℕ)
with_tlv tlv none = none
with_tlv tlv (some r) = some (tlv ∷ r.0, r.1)

-- The loop over the TLV region, with one unit of fuel for each turn: a 0x00 is an alias TLV exactly
-- when its length octet and its value fit before the end of the source, and else the end mark.
unfoldable pub walk_tlvs : ℕ → List ℕ → Option (List Inp3Tlv × List ℕ)
walk_tlvs zero source = none
walk_tlvs (suc n) [] = none
walk_tlvs (suc n) (type_octet ∷ []) =
    if type_octet == inp3_end_of_packet then some ([], []) else none
walk_tlvs (suc n) (type_octet ∷ tlv_len ∷ body) =
    let rest = walk_tlvs n (drop tlv_len body) in
    if ltb (length body) tlv_len
    then (if type_octet == inp3_end_of_packet then some ([], tlv_len ∷ body) else none)
    else with_tlv (record { tlv_type = type_octet; value = take tlv_len body }) rest

unfoldable pub parse_inp3_rip : List ℕ → Option (Inp3Rip × List ℕ)
parse_inp3_rip source =
    if ltb (length source) inp3_rip_prefix_length
    then none
    else and_then_some (try_read_shifted source 0) (λ dest.
      and_then_some (walk_tlvs (length source) (drop inp3_rip_prefix_length source)) (λ walked.
        some (
          record {
            destination = dest;
            hop_count = get_or source 7 0;
            target_time_ms = bit_or (get_or source 8 0 * 256) (get_or source 9 0) * 10;
            tlvs = walked.0;
          },
          walked.1,
        )))

unfoldable pub with_rip : Inp3Rip → Option (List Inp3Rip) → Option (List Inp3Rip)
with_rip rip none = none
with_rip rip (some rips) = some (rip ∷ rips)

-- What is done with the result of one RIP, given the rest of the loop.
unfoldable pub parsed_rip :
    Inp3ParseOptions
    → Option (Inp3Rip × List ℕ)
    → (List ℕ → Option (List Inp3Rip))
    → Option (List Inp3Rip)
parsed_rip options none loop = if options.allow_trailing_partial_rip then some [] else none
parsed_rip options (some r) loop = with_rip r.0 (loop r.1)

-- The loop over the RIPs. A RIP takes more than no octet, so that the guard on `consumed` is idle.
unfoldable pub parse_rips : ℕ → Inp3ParseOptions → List ℕ → Option (List Inp3Rip)
parse_rips zero options source = none
parse_rips (suc n) options [] = some []
parse_rips (suc n) options (o ∷ source) =
    parsed_rip options (parse_inp3_rip (o ∷ source)) (λ rest. parse_rips n options rest)

unfoldable pub parse_inp3_rif : List ℕ → Inp3ParseOptions → Option Inp3Rif
parse_inp3_rif [] options = none
parse_inp3_rif (signature ∷ body) options =
    if not (signature == inp3_rif_signature)
    then none
    else and_then_some (parse_rips (suc (length body)) options body) (λ rips.
      if is_empty rips && not options.allow_empty_rip_list
      then none
      else some (record { rips = rips }))
