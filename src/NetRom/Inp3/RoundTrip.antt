-- ===== src/NetRom/Inp3/RoundTrip.antt =====
-- netrom/inp3-rif.ts: what is written is read back.
use native.Mathlib.Nat.{mod-eq_of_lt}
use ax25_ts.Base.{
  All, List, [], ap, append_assoc, arith, bit_or, drop, drop-append, drop-drop, drop-length-append,
  false, get_or, get_or-append, is_empty, length, length-append, ltb, lt→ltb, not, ok, refl, some,
  suc, sym, take-length-append, zero, ℕ, ◌%◌, ◌&&◌, ◌*◌, ◌++◌, ◌+◌, ◌/◌, ◌<◌, ◌∙◌, ◌∷◌, ◌≡◌, ◌≤◌,
}
use ax25_ts.Base.Bytes.{bit_or_high_low}
use ax25_ts.Callsign.{IsValid}
use ax25_ts.NetRom.ConnectInfo.{write_shifted}
use ax25_ts.NetRom.Inp3.{
  Inp3ParseOptions, Inp3Rif, Inp3Rip, Inp3Tlv, followed_by, inp3_end_of_packet, inp3_rif_signature,
  parse_inp3_rif, parse_inp3_rip, parse_rips, parsed_rip, walk_tlvs, with_rip, with_tlv,
  write_inp3_rif, write_inp3_rip, write_inp3_tlv, write_rips, write_tlvs,
}
use ax25_ts.NetRom.Packet.{and_then_some, try_read_shifted}
use ax25_ts.NetRom.Packet.RoundTrip.{length-write_shifted, read_shifted_at}

pub record FitsTlv (tlv : Inp3Tlv) : Type 0 where
  pub type_octet : tlv.tlv_type < 256
  pub short : length tlv.value < 256

pub record FitsRip (rip : Inp3Rip) : Type 0 where
  pub destination : IsValid rip.destination
  pub hop_count : rip.hop_count < 256
  pub whole_units : rip.target_time_ms % 10 ≡ 0
  pub target_time : rip.target_time_ms < 655360
  pub tlvs : All FitsTlv rip.tlvs

-- What follows an end mark does not read as the length and the value of an alias.
abbrev pub IsClosed : List ℕ → Type 0
IsClosed [] = Unit {0}
IsClosed (b ∷ bytes) = length bytes < b

-- The octets of the options, without the errors.
unfoldable pub tlv_octets : List Inp3Tlv → List ℕ
tlv_octets [] = inp3_end_of_packet ∷ []
tlv_octets (tlv ∷ tlvs) = tlv.tlv_type ∷ length tlv.value ∷ (tlv.value ++ tlv_octets tlvs)

pub write_tlvs-fits :
    (tlvs : List Inp3Tlv) → All FitsTlv tlvs → write_tlvs tlvs ≡ ok (tlv_octets tlvs)
unfolding write_tlvs write_inp3_tlv followed_by tlv_octets
write_tlvs-fits [] h = refl
write_tlvs-fits (tlv ∷ tlvs) h =
    let e : ltb 255 (length tlv.value) ≡ false = ground (arith, (h.0).short) in
    let t : tlv.tlv_type % 256 ≡ tlv.tlv_type = mod-eq_of_lt (h.0).type_octet in
    rw (e, write_tlvs-fits tlvs h.1) (rw (t) refl)

pub walk_tlvs-octets :
    (n : ℕ) (tlvs : List Inp3Tlv) (rest : List ℕ)
    → IsClosed rest
    → length (tlv_octets tlvs ++ rest) ≤ n
    → walk_tlvs n (tlv_octets tlvs ++ rest) ≡ some (tlvs, rest)
unfolding walk_tlvs tlv_octets with_tlv
walk_tlvs-octets zero [] rest c h = absurd (omega arith)
walk_tlvs-octets zero (tlv ∷ tlvs) rest c h = absurd (omega arith)
walk_tlvs-octets (suc n) [] [] c h = refl
walk_tlvs-octets (suc n) [] (b ∷ rest) c h = rw (lt→ltb (length rest) b c)
walk_tlvs-octets (suc n) (tlv ∷ tlvs) rest c h =
    let tail = tlv_octets tlvs ++ rest in
    let room : ltb (length (tlv.value ++ tail)) (length tlv.value) ≡ false =
      ground (arith, length-append tlv.value tail) in
    let bound : length tail ≤ n = omega (
      arith,
      length-append tlv.value tail,
      ap length (append_assoc tlv.value (tlv_octets tlvs) rest),
    ) in
    rw
      (
        append_assoc,
        room,
        take-length-append,
        drop-length-append,
        walk_tlvs-octets n tlvs rest c bound,
      )
      refl

-- The octets of one record.
unfoldable pub rip_octets : Inp3Rip → List ℕ
rip_octets rip =
    let units = rip.target_time_ms / 10 in
    write_shifted rip.destination
    ++ (rip.hop_count ∷ (units / 256) ∷ (units % 256) ∷ tlv_octets rip.tlvs)

pub write_rip-fits : (rip : Inp3Rip) → FitsRip rip → write_inp3_rip rip ≡ ok (rip_octets rip)
unfolding write_inp3_rip followed_by rip_octets
write_rip-fits rip f =
    let units : ltb 65535 (rip.target_time_ms / 10) ≡ false = ground (arith, f.target_time) in
    let hop : rip.hop_count % 256 ≡ rip.hop_count = omega (arith, f.hop_count) in
    let high : rip.target_time_ms / 10 / 256 % 256 ≡ rip.target_time_ms / 10 / 256 =
      omega (arith, f.target_time) in
    rw (units, write_tlvs-fits rip.tlvs f.tlvs, hop, high, append_assoc) refl

pub parse_rip-octets :
    (rip : Inp3Rip) (rest : List ℕ)
    → FitsRip rip
    → IsClosed rest
    → parse_inp3_rip (rip_octets rip ++ rest) ≡ some (rip, rest)
unfolding parse_inp3_rip rip_octets and_then_some
parse_rip-octets rip rest f c =
    let units = rip.target_time_ms / 10 in
    let options = tlv_octets rip.tlvs ++ rest in
    let body = rip.hop_count ∷ (units / 256) ∷ (units % 256) ∷ options in
    let source = write_shifted rip.destination ++ body in
    let seven = length-write_shifted rip.destination in
    let read : try_read_shifted source 0 ≡ some rip.destination =
      read_shifted_at source 0 [] body rip.destination refl refl f.destination in
    let size : length source ≡ 7 + length body =
      omega (arith, length-append (write_shifted rip.destination) body) in
    let room : ltb (length source) 10 ≡ false = ground (arith, size) in
    let field : (k n : ℕ) → k ≡ 7 + n → get_or source k 0 ≡ get_or body n 0 = (λ k n e.
      get_or-append (write_shifted rip.destination) body k n 0 (omega (arith, seven, e))) in
    let gone : drop 10 source ≡ options =
      sym (drop-drop 3 7 source)
      ∙ ap (drop 3) (drop-append (write_shifted rip.destination) body 7 (sym seven)) in
    let walk = walk_tlvs-octets (length source) rip.tlvs rest c (omega (arith, size)) in
    let joined : bit_or (units / 256 * 256) (units % 256) * 10 ≡ rip.target_time_ms = omega (
      arith,
      f.target_time,
      f.whole_units,
      bit_or_high_low (units / 256) (units % 256) (omega (arith, f.target_time)) (omega arith),
    ) in
    rw
      (append_assoc, room, read, gone, walk, field 7 0 refl, field 8 1 refl, field 9 2 refl, joined)
      refl

-- The octets of records one after another.
unfoldable pub rips_octets : List Inp3Rip → List ℕ
rips_octets [] = []
rips_octets (rip ∷ rips) = rip_octets rip ++ rips_octets rips

-- Where a record ends, the next one does not read as the length and the value of an alias.
unfoldable pub AreSeparated : List Inp3Rip → Type 0
AreSeparated [] = Unit {0}
AreSeparated (rip ∷ rips) = IsClosed (rips_octets rips) × AreSeparated rips

write_rips-fits : (rips : List Inp3Rip) → All FitsRip rips → write_rips rips ≡ ok (rips_octets rips)
unfolding write_rips followed_by rips_octets
write_rips-fits [] h = refl
write_rips-fits (rip ∷ rips) h = rw (write_rip-fits rip h.0, write_rips-fits rips h.1) refl

length-rip_octets : (rip : Inp3Rip) → 10 ≤ length (rip_octets rip)
unfolding rip_octets
length-rip_octets rip =
    omega
      (arith, length-write_shifted rip.destination, length-append (write_shifted rip.destination) _)

parse_rips-step :
    (n : ℕ) (options : Inp3ParseOptions) (source : List ℕ)
    → 1 ≤ length source
    → parse_rips (suc n) options source
      ≡ parsed_rip options (parse_inp3_rip source) (λ rest. parse_rips n options rest)
unfolding parse_rips
parse_rips-step n options [] h = absurd (omega arith)
parse_rips-step n options (o ∷ source) h = refl

parse_rips-octets :
    (n : ℕ) (options : Inp3ParseOptions) (rips : List Inp3Rip)
    → All FitsRip rips
    → AreSeparated rips
    → length (rips_octets rips) < n
    → parse_rips n options (rips_octets rips) ≡ some rips
unfolding rips_octets AreSeparated with_rip parsed_rip parse_rips
parse_rips-octets zero options rips f s h = absurd (omega arith)
parse_rips-octets (suc n) options [] f s h = refl
parse_rips-octets (suc n) options (rip ∷ rips) f s h =
    let size = length-append (rip_octets rip) (rips_octets rips) in
    let long = length-rip_octets rip in
    rw
      (
        parse_rips-step n options (rip_octets rip ++ rips_octets rips) (omega (arith, size, long)),
        parse_rip-octets rip (rips_octets rips) f.0 s.0,
        parse_rips-octets n options rips f.1 s.1 (omega (arith, size, long)),
      )
      refl

-- For records with valid callsigns, hop counts below 256, times in whole units that fit sixteen bits,
-- and options whose types are octets and whose values have at most 255 octets, where behind each end mark the first octet of the next record is
-- more than the number of octets after it: the frame is written without an error and, when it holds a
-- record or empty lists are allowed, it is read back as it was, under each of the options.
pub parse_rif-write_rif :
    (rif : Inp3Rif) (options : Inp3ParseOptions)
    → All FitsRip rif.rips
    → AreSeparated rif.rips
    → (is_empty rif.rips && not options.allow_empty_rip_list) ≡ false
    → (bytes : List ℕ) × ((write_inp3_rif rif ≡ ok bytes)
        × (parse_inp3_rif bytes options ≡ some rif))
unfolding write_inp3_rif followed_by parse_inp3_rif and_then_some
parse_rif-write_rif rif options f s e = (
  inp3_rif_signature ∷ rips_octets rif.rips,
  (
    rw (write_rips-fits rif.rips f) refl,
    rw
        (
          parse_rips-octets (suc (length (rips_octets rif.rips))) options rif.rips f s
              (omega arith),
          e,
        )
        refl,
  ),
)
