-- ===== src/Address.antt =====
-- address.ts: the seven octets of one address slot.
pub mod RoundTrip
pub mod Runs
use ax25_ts.Base.{
  Bool, List, Result, [], bit_or, drop, err, false, get_or, has_bit, if◌then◌else◌, length, ltb, ok,
  suc, take, true, zero, ℕ, ◌%◌, ◌*◌, ◌++◌, ◌+◌, ◌/◌, ◌==◌, ◌∷◌,
}
use ax25_ts.Callsign.{Callsign, CallsignError, new_callsign}

pub record Ax25Address : Type 0 where
  pub callsign : Callsign
  pub crh_bit : Bool
  pub extension_bit : Bool

pub data AddressError : Type 0 where
  too_short after_padding : AddressError
  bad_callsign : CallsignError → AddressError

abbrev pub address_encoded_length : ℕ
address_encoded_length = 7

-- The loop over the first six octets: `padding` is `inPadding`, `base` is what `baseStr` holds.
unfoldable pub read_base : Bool → List ℕ → List ℕ → Result AddressError (List ℕ)
read_base padding base [] = ok base
read_base padding base (b ∷ bs) =
    let padded = read_base true base bs in
    let next = read_base false (base ++ ((b / 2) ∷ [])) bs in
    if b / 2 == 0x20 then padded else if padding then err after_padding else next

abbrev pub slot : ℕ → Result CallsignError Callsign → Result AddressError Ax25Address
slot ssid_byte (ok c) =
    ok (record { callsign = c; crh_bit = has_bit 7 ssid_byte; extension_bit = has_bit 0 ssid_byte })
slot ssid_byte (err e) = err (bad_callsign e)

unfoldable pub with_base : ℕ → Result AddressError (List ℕ) → Result AddressError Ax25Address
with_base ssid_byte (ok base) = slot ssid_byte (new_callsign base (ssid_byte / 2 % 16))
with_base ssid_byte (err e) = err e

unfoldable pub read_address : List ℕ → ℕ → Result AddressError Ax25Address
unfolding with_base
read_address bytes offset =
    if ltb (length bytes) (offset + address_encoded_length)
    then err too_short
    else with_base (get_or bytes (offset + 6) 0) (read_base false [] (take 6 (drop offset bytes)))

-- `(c << 1) & 0xff` for each character, then spaces up to six.
unfoldable pub base_octets : ℕ → List ℕ → List ℕ
base_octets zero base = []
base_octets (suc n) [] = (0x20 * 2) ∷ base_octets n []
base_octets (suc n) (c ∷ cs) = (c * 2 % 256) ∷ base_octets n cs

-- The bits are set one after the other, as in the source.
unfoldable pub ssid_octet : ℕ → Bool → Bool → ℕ
ssid_octet ssid crh_bit extension_bit =
    let plain = bit_or 0x60 (ssid % 16 * 2) in
    let with_crh = if crh_bit then bit_or plain 0x80 else plain in
    (if extension_bit then bit_or with_crh 0x01 else with_crh) % 256

-- The octets that `writeAddress` puts at the offset; every caller has room for seven.
unfoldable pub write_address : Ax25Address → List ℕ
write_address a =
    base_octets 6 a.callsign.base ++ (ssid_octet a.callsign.ssid a.crh_bit a.extension_bit ∷ [])
