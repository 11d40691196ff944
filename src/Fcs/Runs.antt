-- ===== src/Fcs/Runs.antt =====
-- fcs.ts: runs and the theorems at concrete inputs.
use ax25_ts.Base.{List, [], arith, none, refl, some, ℕ, ◌↔◌, ◌∷◌, ◌≡◌, ◌≤◌}
use ax25_ts.Fcs.{append_fcs, compute_fcs, crc_bit, crc_bits, crc_loop, min_frame, strip_fcs}
use ax25_ts.Fcs.Detection.{strip_fcs_corrupted}
use ax25_ts.Fcs.RoundTrip.{strip_fcs_iff}

-- The catalogue's test vector, "123456789".
vector : compute_fcs (0x31 ∷ 0x32 ∷ 0x33 ∷ 0x34 ∷ 0x35 ∷ 0x36 ∷ 0x37 ∷ 0x38 ∷ 0x39 ∷ []) ≡ 0x906e
unfolding compute_fcs crc_loop crc_bits crc_bit
vector = refl

abbrev frame : List ℕ → List ℕ
frame rest = 1 ∷ 2 ∷ 3 ∷ 4 ∷ 5 ∷ 6 ∷ 7 ∷ 8 ∷ 9 ∷ 10 ∷ 11 ∷ 12 ∷ 13 ∷ 14 ∷ rest

strip_fcs_iff_example :
    (strip_fcs (append_fcs (frame (0x3f ∷ []))) ≡ some (frame (0x3f ∷ [])))
    ↔ ((min_frame ≤ 15) × (append_fcs (frame (0x3f ∷ [])) ≡ append_fcs (frame (0x3f ∷ []))))
unfolding append_fcs compute_fcs crc_loop crc_bits crc_bit
strip_fcs_iff_example =
    strip_fcs_iff (append_fcs (frame (0x3f ∷ []))) (frame (0x3f ∷ [])) (omega arith)

strip_fcs_corrupted_example : strip_fcs (frame (0x2f ∷ 0x41 ∷ 0x3e ∷ 0x08 ∷ [])) ≡ none
unfolding compute_fcs crc_loop crc_bits crc_bit
strip_fcs_corrupted_example =
    strip_fcs_corrupted (frame []) (0x41 ∷ []) 0x3f 0x2f (omega arith) (omega arith) (omega arith)
      (omega arith) (λ e. absurd (omega arith)) (omega arith)
