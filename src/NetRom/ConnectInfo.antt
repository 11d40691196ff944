-- ===== src/NetRom/ConnectInfo.antt =====
-- netrom/connect-request-info.ts and netrom/connect-ack-info.ts: the information fields of the
-- connect handshake.
use ax25_ts.Address.{write_address}
use ax25_ts.Base.{
  List, Option, [], arith, false, if◌then◌else◌, ltb, max, min, none, some, ℕ, ◌%◌, ◌++◌, ◌==◌,
  ◌||◌, ◌∷◌, ◌≡◌, ◌≤◌,
}
use ax25_ts.Callsign.{Callsign}

abbrev pub connect_ack_max_window : ℕ
connect_ack_max_window = 127

-- `writeShifted`: the slot of a callsign with both bits clear.
unfoldable pub write_shifted : Callsign → List ℕ
write_shifted c = write_address (record { callsign = c; crh_bit = false; extension_bit = false })

unfoldable pub build_connect_request_info : ℕ → Callsign → Callsign → List ℕ
build_connect_request_info proposed_window user node =
    (proposed_window % 256) ∷ (write_shifted user ++ write_shifted node)

-- Windows are whole numbers here, so `Math.trunc` does nothing.
pub build_connect_ack_info : ℕ → List ℕ
build_connect_ack_info accepted_window = max 1 (min connect_ack_max_window accepted_window) ∷ []

pub try_read_accepted_window : List ℕ → Option ℕ
try_read_accepted_window [] = none
try_read_accepted_window (accepted_window ∷ rest) =
    if accepted_window == 0 || ltb connect_ack_max_window accepted_window
    then none
    else some accepted_window

-- The peer reads the window that was written, cut to 1..127.
pub try_read-build :
    (window : ℕ)
    → try_read_accepted_window (build_connect_ack_info window) ≡ some (max 1 (min 127 window))
unfolding try_read_accepted_window build_connect_ack_info
try_read-build window = ground arith

pub try_read_bounds :
    (info : List ℕ) (window : ℕ)
    → try_read_accepted_window info ≡ some window
    → (1 ≤ window) × (window ≤ 127)
unfolding try_read_accepted_window
try_read_bounds [] window e = cc
try_read_bounds (w ∷ rest) window e = ground arith
