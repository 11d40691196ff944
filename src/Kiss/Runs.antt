-- ===== src/Kiss/Runs.antt =====
-- kiss.ts: runs and the theorems at concrete inputs.
use mathlib.Core.List.{flatten}
use ax25_ts.Base.{List, [], arith, err, ok, refl, ℕ, ◌∷◌, ◌≡◌}
use ax25_ts.Kiss.{
  KissFrame, close_frame, command_byte, encode_kiss, finish, fresh, port_range, push, push_byte,
  write_all, write_escaped,
}
use ax25_ts.Kiss.RoundTrip.{encode_all, push_chunks, push_chunks-encode_all}

abbrev frame_one : KissFrame
frame_one = record { port = 12; command = 0; payload = 0xc0 ∷ 0xdb ∷ 0x41 ∷ [] }

abbrev frame_two : KissFrame
frame_two = record { port = 0; command = 1; payload = 0x19 ∷ [] }

-- Port 12 with command 0 makes the command octet 0xc0, which is escaped like any other.
encode_kiss_runs : encode_kiss 12 0 (0xdb ∷ []) ≡ ok (0xc0 ∷ 0xdb ∷ 0xdc ∷ 0xdb ∷ 0xdd ∷ 0xc0 ∷ [])
unfolding encode_kiss write_escaped write_all command_byte
encode_kiss_runs = refl

encode_kiss_refuses : encode_kiss 16 0 [] ≡ err port_range
unfolding encode_kiss
encode_kiss_refuses = refl

-- A malformed escape swallows the FEND that follows it, so the two frames run together.
malformed_escape :
    push fresh (0xc0 ∷ 0x00 ∷ 0xdb ∷ 0xc0 ∷ 0x00 ∷ 0x42 ∷ 0xc0 ∷ [])
    ≡ (fresh, record { port = 0; command = 0; payload = 0x00 ∷ 0x42 ∷ [] } ∷ [])
unfolding push push_byte close_frame finish
malformed_escape = refl

abbrev two_chunks : List (List ℕ)
two_chunks =
    (0xc0 ∷ 0xdb ∷ 0xdc ∷ 0xdb ∷ [])
    ∷ (0xdc ∷ 0xdb ∷ 0xdd ∷ 0x41 ∷ 0xc0 ∷ 0xc0 ∷ 0x01 ∷ 0x19 ∷ 0xc0 ∷ [])
    ∷ []

push_chunks-encode_all_example : push_chunks fresh two_chunks ≡ (fresh, frame_one ∷ frame_two ∷ [])
unfolding encode_all encode_kiss write_escaped write_all command_byte flatten
push_chunks-encode_all_example =
    push_chunks-encode_all (frame_one ∷ frame_two ∷ []) two_chunks (omega arith) refl
