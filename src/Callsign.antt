-- ===== src/Callsign.antt =====
-- callsign.ts: station identifiers. A text is the list of its character codes.
pub mod Text
use ax25_ts.Base.{
  Bool, List, Result, [], arith, err, if◌then◌else◌, leb, length, ltb, not, ok, true, ℕ, ◌&&◌, ◌<◌,
  ◌||◌, ◌∷◌, ◌≡◌, ◌≤◌,
}

pub record Callsign : Type 0 where
  pub base : List ℕ
  pub ssid : ℕ

pub data CallsignError : Type 0 where
  base_too_long bad_base_char ssid_range : CallsignError

-- A-Z and 0-9.
unfoldable pub is_valid_base_char : ℕ → Bool
is_valid_base_char code = leb 0x41 code && leb code 0x5a || leb 0x30 code && leb code 0x39

unfoldable pub all_valid : List ℕ → Bool
all_valid [] = true
all_valid (c ∷ cs) = is_valid_base_char c && all_valid cs

-- The constructor. The SSIDs of the model are whole and not negative.
unfoldable pub new_callsign : List ℕ → ℕ → Result CallsignError Callsign
new_callsign base ssid =
    if ltb 6 (length base)
    then err base_too_long
    else if not (all_valid base)
    then err bad_base_char
    else if ltb 15 ssid
    then err ssid_range
    else ok (record { base = base; ssid = ssid })

-- What the constructor lets through.
pub record IsValid (c : Callsign) : Type 0 where
  pub short : length c.base ≤ 6
  pub chars : all_valid c.base ≡ true
  pub in_range : c.ssid < 16

-- The constructor gives back what it is given exactly when the parts are valid.
pub new_callsign-IsValid :
    (base : List ℕ) (ssid : ℕ) (c : Callsign)
    → new_callsign base ssid ≡ ok c
    → IsValid c × (c.base ≡ base) × (c.ssid ≡ ssid)
unfolding new_callsign
new_callsign-IsValid base ssid c e = ground arith

pub new_callsign_valid : (c : Callsign) → IsValid c → new_callsign c.base c.ssid ≡ ok c
unfolding new_callsign
new_callsign_valid c v = ground arith
