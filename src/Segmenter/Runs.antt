-- ===== src/Segmenter/Runs.antt =====
-- sdl/segmenter.ts: runs and the theorems at concrete inputs.
use ax25_ts.Base.{
  All, Bool, List, [], arith, err, length, none, ok, refl, some, true, ℕ, ◌∷◌, ◌≡◌, ◌≤◌,
}
use ax25_ts.Segmenter.{
  Reassembler, inner_loop, literal_loop, n1_too_small, new_reassembler, out_of_sequence, push,
  push_all, push_next, segment, segment_figure_literal, segment_with_inner_pid,
}
use ax25_ts.Segmenter.Bounds.{IsBounded, push_all-IsBounded, push_error, segment_bounds}
use ax25_ts.Segmenter.RoundTrip.{push_all-segment}
use ax25_ts.Segmenter.Series.{delivered}

abbrev five : List ℕ
five = 1 ∷ 2 ∷ 3 ∷ 4 ∷ 5 ∷ []

abbrev five_inner : List (List ℕ)
five_inner = (0x82 ∷ 0xcf ∷ 1 ∷ []) ∷ (0x01 ∷ 2 ∷ 3 ∷ []) ∷ (0x00 ∷ 4 ∷ 5 ∷ []) ∷ []

segment_inner : segment five 3 (some 0xcf) ≡ ok five_inner
unfolding segment segment_with_inner_pid inner_loop
segment_inner = refl

segment_literal : segment five 4 none ≡ ok ((0x81 ∷ 1 ∷ 2 ∷ 3 ∷ []) ∷ (0x00 ∷ 4 ∷ 5 ∷ []) ∷ [])
unfolding segment segment_figure_literal literal_loop
segment_literal = refl

segment_small : segment five 2 (some 0xcf) ≡ err n1_too_small
unfolding segment segment_with_inner_pid
segment_small = refl

-- A reassembler that is still in the middle of another series.
abbrev stale : Reassembler
stale = record {
  accumulated = (9 ∷ []) ∷ [];
  expected_remaining = some 4;
  expect_inner_pid = true;
  pending_pid = some 0xf0;
  last_recovered_pid = none;
}

push_all-segment_example :
    push_all stale five_inner
    ≡ (delivered stale (some 0xcf), ok none ∷ ok none ∷ ok (some five) ∷ [])
push_all-segment_example = push_all-segment stale five 3 (some 0xcf) five_inner refl segment_inner

segment_bounds_example :
    All (λ s. length s ≤ 3) five_inner × (1 ≤ length five_inner) × (length five_inner ≤ 128)
segment_bounds_example = segment_bounds five 3 (some 0xcf) five_inner segment_inner

push_all-IsBounded_example : IsBounded 3 (push_all stale five_inner).0
push_all-IsBounded_example =
    push_all-IsBounded 3 stale five_inner (omega arith, (omega arith, (omega arith, tt)))
      ((omega arith, omega arith, omega arith), (omega arith, tt))

new_reassembler-IsBounded : (m : ℕ) (b : Bool) → IsBounded m (new_reassembler b)
unfolding new_reassembler
new_reassembler-IsBounded m b = (refl, tt)

push_error_example : (push stale (0x01 ∷ 7 ∷ [])).0 ≡ stale
unfolding push push_next
push_error_example = push_error stale (0x01 ∷ 7 ∷ []) out_of_sequence refl
