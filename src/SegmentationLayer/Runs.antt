-- ===== src/SegmentationLayer/Runs.antt =====
-- sdl/segmentation-layer.ts: runs and the theorems at concrete inputs.
use ax25_ts.Base.{List, [], arith, err, false, none, ok, refl, true, ℕ, ◌∷◌, ◌≡◌}
use ax25_ts.SegmentationLayer.{
  DataUnit, Parameters, after_push, build_send_requests, not_negotiated, on_all, on_data_indication,
  segment_unit,
}
use ax25_ts.SegmentationLayer.RoundTrip.{on_all-build_send_requests}
use ax25_ts.Segmenter.{inner_loop, new_reassembler, push, segment, segment_with_inner_pid}

abbrev direwolf : Parameters
direwolf = record {
  n1 = 3;
  segmenter_reassembler_enabled = true;
  segment_first_carries_l3_pid = true;
}

abbrev five : List ℕ
five = 1 ∷ 2 ∷ 3 ∷ 4 ∷ 5 ∷ []

abbrev five_units : List DataUnit
five_units =
    segment_unit (0x82 ∷ 0xcf ∷ 1 ∷ [])
    ∷ segment_unit (0x01 ∷ 2 ∷ 3 ∷ [])
    ∷ segment_unit (0x00 ∷ 4 ∷ 5 ∷ [])
    ∷ []

five_sent : build_send_requests direwolf five 0xcf ≡ ok five_units
unfolding build_send_requests segment segment_with_inner_pid inner_loop
five_sent = refl

not_negotiated_runs :
    build_send_requests (record direwolf { segmenter_reassembler_enabled = false }) five 0xcf
    ≡ err not_negotiated
unfolding build_send_requests
not_negotiated_runs = refl

-- Data sent with the segment PID that fits one frame is taken for a segment, and dropped.
own_pid_lost : (on_all direwolf none (record { bytes = []; pid = 0x08 } ∷ [])).1 ≡ []
unfolding on_all on_data_indication after_push push
own_pid_lost = refl

on_all-build_send_requests_example :
    (on_all direwolf none five_units).1 ≡ record { bytes = five; pid = 0xcf } ∷ []
unfolding new_reassembler
on_all-build_send_requests_example =
    on_all-build_send_requests direwolf none five 0xcf five_units (omega arith)
      (λ short. absurd (omega arith)) refl five_sent
