-- ===== src/Address/Runs.antt =====
-- callsign.ts and address.ts: runs and the theorems at concrete inputs.
use ax25_ts.Address.{
  Ax25Address, after_padding, base_octets, read_address, read_base, ssid_octet, with_base,
  write_address,
}
use ax25_ts.Address.RoundTrip.{read_address-write_address}
use ax25_ts.Base.{[], arith, err, false, ok, refl, true, ◌++◌, ◌∷◌, ◌≡◌}
use ax25_ts.Callsign.{Callsign, all_valid, is_valid_base_char}

abbrev g8abc : Callsign
g8abc = record { base = 0x47 ∷ 0x38 ∷ 0x41 ∷ 0x42 ∷ 0x43 ∷ []; ssid = 7 }

abbrev g8abc_slot : Ax25Address
g8abc_slot = record { callsign = g8abc; crh_bit = true; extension_bit = false }

g8abc_octets : write_address g8abc_slot ≡ 0x8e ∷ 0x70 ∷ 0x82 ∷ 0x84 ∷ 0x86 ∷ 0x40 ∷ 0xee ∷ []
unfolding write_address base_octets ssid_octet
g8abc_octets = refl

-- A letter after the padding.
letter_after_padding :
    read_address (0x8e ∷ 0x40 ∷ 0x82 ∷ 0x40 ∷ 0x40 ∷ 0x40 ∷ 0xe0 ∷ []) 0 ≡ err after_padding
unfolding read_address read_base with_base
letter_after_padding = refl

read_address-write_address_example :
    read_address ((1 ∷ 2 ∷ []) ++ (write_address g8abc_slot ++ (3 ∷ []))) 2 ≡ ok g8abc_slot
unfolding all_valid is_valid_base_char
read_address-write_address_example =
    read_address-write_address (1 ∷ 2 ∷ []) (3 ∷ []) g8abc_slot
      (record { short = omega arith; chars = refl; in_range = omega arith })
