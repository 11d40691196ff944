-- ===== src/Address/RoundTrip.antt =====
-- address.ts: reading a slot that was written.
use ax25_ts.Address.{
  Ax25Address, base_octets, read_address, read_base, ssid_octet, with_base, write_address,
}
use ax25_ts.Base.{
  Bool, List, [], ap, append-nil, append_assoc, arith, drop-length-append, false, get_or,
  get_or-append, has_bit, if◌then◌else◌, length, length-append, ltb, ok, refl, suc, sym, take,
  take-append, true, zero, ℕ, ◌%◌, ◌*◌, ◌++◌, ◌+◌, ◌/◌, ◌<◌, ◌==◌, ◌∙◌, ◌∷◌, ◌≡◌, ◌≤◌,
}
use ax25_ts.Base.Bytes.{agree_below, holds_below}
use ax25_ts.Callsign.{IsValid, all_valid, is_valid_base_char, new_callsign_valid}

-- The bits of the SSID octet do not overlap.
ssid_octet_value :
    (ssid : ℕ) (crh ext : Bool)
    → ssid < 16
    → ssid_octet ssid crh ext ≡ 0x60 + 2 * ssid + (if crh then 128 else 0) + (if ext then 1 else 0)
unfolding ssid_octet holds_below
ssid_octet_value ssid true true =
    agree_below 16 (λ s. ssid_octet s true true) (λ s. 0x60 + 2 * s + 128 + 1) refl ssid
ssid_octet_value ssid true false =
    agree_below 16 (λ s. ssid_octet s true false) (λ s. 0x60 + 2 * s + 128 + 0) refl ssid
ssid_octet_value ssid false true =
    agree_below 16 (λ s. ssid_octet s false true) (λ s. 0x60 + 2 * s + 0 + 1) refl ssid
ssid_octet_value ssid false false =
    agree_below 16 (λ s. ssid_octet s false false) (λ s. 0x60 + 2 * s + 0 + 0) refl ssid

ssid_octet_fields :
    (ssid : ℕ) (crh ext : Bool)
    → ssid < 16
    → (ssid_octet ssid crh ext / 2 % 16 ≡ ssid)
      × (has_bit 7 (ssid_octet ssid crh ext) ≡ crh)
      × (has_bit 0 (ssid_octet ssid crh ext) ≡ ext)
ssid_octet_fields ssid crh ext h = ground (arith, ssid_octet_value ssid crh ext)

pub length-base_octets : (n : ℕ) (base : List ℕ) → length (base_octets n base) ≡ n
unfolding base_octets
length-base_octets zero base = refl
length-base_octets (suc n) [] = ap suc (length-base_octets n [])
length-base_octets (suc n) (c ∷ cs) = ap suc (length-base_octets n cs)

read_base-blank :
    (padding : Bool) (n : ℕ) (done : List ℕ) → read_base padding done (base_octets n []) ≡ ok done
unfolding read_base base_octets
read_base-blank padding zero done = refl
read_base-blank padding (suc n) done = read_base-blank true n done

letter_code : (c : ℕ) → is_valid_base_char c ≡ true → (c * 2 % 256 / 2 ≡ c) × ((c == 0x20) ≡ false)
unfolding is_valid_base_char
letter_code c h = ground arith

read_base-octets :
    (n : ℕ) (done base : List ℕ)
    → length base ≤ n
    → all_valid base ≡ true
    → read_base false done (base_octets n base) ≡ ok (done ++ base)
unfolding read_base base_octets all_valid
read_base-octets zero done [] h v = rw append-nil
read_base-octets zero done (c ∷ cs) h v = absurd (omega arith)
read_base-octets (suc n) done [] h v = rw append-nil (read_base-blank false (suc n) done)
read_base-octets (suc n) done (c ∷ cs) h v =
    let rest : read_base false (done ++ (c ∷ [])) (base_octets n cs) ≡ ok (done ++ (c ∷ cs)) =
      read_base-octets n (done ++ (c ∷ [])) cs (omega arith) (ground arith) ∙ rw append_assoc in
    let letter : (c * 2 % 256 / 2 ≡ c) × ((c == 0x20) ≡ false) = letter_code c (ground arith) in
    rw (letter.0, letter.1) rest

-- A valid callsign, with any of the two bits, reads back from the slot written for it, whatever
-- stands before and behind the slot.
pub read_address-write_address :
    (front back : List ℕ) (a : Ax25Address)
    → IsValid a.callsign
    → read_address (front ++ (write_address a ++ back)) (length front) ≡ ok a
unfolding read_address write_address
read_address-write_address front back a v =
    let octets = base_octets 6 a.callsign.base in
    let last = ssid_octet a.callsign.ssid a.crh_bit a.extension_bit in
    let six : 6 ≡ length octets = sym (length-base_octets 6 a.callsign.base) in
    let (ssid, crh, ext) = ssid_octet_fields a.callsign.ssid a.crh_bit a.extension_bit v.in_range in
    let here : get_or ((octets ++ (last ∷ [])) ++ back) 6 0 ≡ last =
      rw append_assoc (get_or-append octets (last ∷ back) 6 0 0 (omega arith)) in
    let base : take 6 ((octets ++ (last ∷ [])) ++ back) ≡ octets =
      rw append_assoc (take-append octets (last ∷ back) 6 six) in
    let room : ltb (length (front ++ ((octets ++ (last ∷ [])) ++ back))) (length front + 7)
        ≡ false =
      ground (
        arith,
        length-append front ((octets ++ (last ∷ [])) ++ back),
        length-append (octets ++ (last ∷ [])) back,
        length-append octets (last ∷ []),
      ) in
    rw
      (
        room,
        get_or-append front ((octets ++ (last ∷ [])) ++ back) (length front + 6) 6 0 refl,
        here,
        drop-length-append front ((octets ++ (last ∷ [])) ++ back),
        base,
        read_base-octets 6 [] a.callsign.base v.short v.chars,
      )
      (unfold with_base in rw (ssid, new_callsign_valid a.callsign v, crh, ext))
