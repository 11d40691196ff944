-- ===== src/Segmenter.antt =====
-- sdl/segmenter.ts: segmentation of a long payload and its reassembly. A segment is the info field
-- of one I frame: a control octet (first bit, seven bits of remaining count), in the inner-PID
-- format the original PID on the first segment, and data.
pub mod Series
pub mod RoundTrip
pub mod Bounds
pub mod Runs
use mathlib.Core.List.{flatten}
use ax25_ts.Base.{
  Bool, List, Option, Result, [], bit_or, drop, err, false, has_bit, if◌then◌else◌, length, ltb,
  max, min, none, ok, some, suc, take, true, zero, ℕ, ◌%◌, ◌*◌, ◌++◌, ◌+◌, ◌-◌, ◌/◌, ◌==◌, ◌∷◌,
}

abbrev pub segment_first_bit : ℕ
segment_first_bit = 0x80

abbrev pub segment_max_segments : ℕ
segment_max_segments = 128

-- The two `RangeError`s of `segment`.
pub data RangeError : Type 0 where
  n1_too_small too_many_segments : RangeError

-- `Math.ceil(n / d)` for d > 0.
abbrev pub ceil_div : ℕ → ℕ → ℕ
ceil_div n d = (n + d - 1) / d

-- `payload.subarray(offset, offset + thisLen)`, with `thisLen` cut at what is left.
abbrev pub chunk : ℕ → ℕ → List ℕ → List ℕ
chunk per_segment offset payload =
    take (min per_segment (length payload - offset)) (drop offset payload)

-- The loop of `segmentFigureLiteral`, from round `i` on with `rounds` rounds to go.
pub literal_loop : ℕ → ℕ → List ℕ → ℕ → ℕ → List (List ℕ)
literal_loop per_segment segment_count payload zero i = []
literal_loop per_segment segment_count payload (suc rounds) i =
    let remaining = segment_count - 1 - i in
    let first_bit : ℕ = if i == 0 then segment_first_bit else 0 in
    (bit_or first_bit (remaining % 128) ∷ chunk per_segment (i * per_segment) payload)
    ∷ literal_loop per_segment segment_count payload rounds (i + 1)

abbrev literal_count : List ℕ → ℕ → ℕ
literal_count payload per_segment =
    if length payload == 0 then 1 else ceil_div (length payload) per_segment

pub segment_figure_literal : List ℕ → ℕ → Result RangeError (List (List ℕ))
segment_figure_literal payload n1 =
    let per_segment = n1 - 1 in
    let segment_count = literal_count payload per_segment in
    if ltb n1 2
    then err n1_too_small
    else if ltb segment_max_segments segment_count
    then err too_many_segments
    else ok (literal_loop per_segment segment_count payload segment_count 0)

-- The rounds of `segmentWithInnerPid` after the first; `offset` is the sum of the lengths sent.
unfoldable pub inner_loop : ℕ → ℕ → List ℕ → ℕ → ℕ → ℕ → List (List ℕ)
inner_loop per_segment segment_count payload zero i offset = []
inner_loop per_segment segment_count payload (suc rounds) i offset =
    let remaining = segment_count - 1 - i in
    ((remaining % 128) ∷ chunk per_segment offset payload)
    ∷ inner_loop per_segment segment_count payload rounds (i + 1)
        (offset + min per_segment (length payload - offset))

-- The count is at least 1, since the PID takes a place too; `max` is the source's own guard.
abbrev inner_count : List ℕ → ℕ → ℕ
inner_count payload per_segment = max 1 (ceil_div (length payload + 1) per_segment)

unfoldable pub segment_with_inner_pid : List ℕ → ℕ → ℕ → Result RangeError (List (List ℕ))
segment_with_inner_pid payload n1 inner_pid =
    let per_segment = n1 - 1 in
    let first_capacity = n1 - 2 in
    let segment_count = inner_count payload per_segment in
    if ltb n1 3
    then err n1_too_small
    else if ltb segment_max_segments segment_count
    then err too_many_segments
    else ok (
        (bit_or segment_first_bit ((segment_count - 1) % 128)
          ∷ (inner_pid % 256)
          ∷ chunk first_capacity 0 payload)
        ∷ inner_loop per_segment segment_count payload (segment_count - 1) 1
            (min first_capacity (length payload)))

unfoldable pub segment : List ℕ → ℕ → Option ℕ → Result RangeError (List (List ℕ))
segment payload n1 none = segment_figure_literal payload n1
segment payload n1 (some inner_pid) = segment_with_inner_pid payload n1 inner_pid

-- `expected_remaining` is `none` where the source has -1.
pub record Reassembler : Type 0 where
  pub accumulated : List (List ℕ)
  pub expected_remaining : Option ℕ
  pub expect_inner_pid : Bool
  pub pending_pid : Option ℕ
  pub last_recovered_pid : Option ℕ

unfoldable pub new_reassembler : Bool → Reassembler
new_reassembler expect_inner_pid = record {
  accumulated = [];
  expected_remaining = none;
  expect_inner_pid = expect_inner_pid;
  pending_pid = none;
  last_recovered_pid = none;
}

-- The four cases in which `push` throws a `SegmentReassemblyError`.
pub data ReassemblyError : Type 0 where
  empty_info no_inner_pid no_first out_of_sequence : ReassemblyError

abbrev pub Pushed : Type 0
Pushed = Reassembler × Result ReassemblyError (Option (List ℕ))

-- The end of `push`: keep the data, and deliver when nothing remains.
pub accept : Reassembler → ℕ → List ℕ → Pushed
accept r remaining bytes =
    let chunks = r.accumulated ++ (bytes ∷ []) in
    if remaining == 0
    then (
      record r {
        accumulated = [];
        expected_remaining = none;
        last_recovered_pid = r.pending_pid;
        pending_pid = none;
      },
      ok (some (flatten chunks)),
    )
    else (record r { accumulated = chunks }, ok none)

first_segment : Reassembler → ℕ → Option ℕ → List ℕ → Pushed
unfolding accept
first_segment r remaining pid bytes =
    accept (record r { accumulated = []; expected_remaining = some remaining; pending_pid = pid })
      remaining bytes

-- A first segment: in the inner-PID format it must have a second octet.
push_first : Bool → Reassembler → ℕ → List ℕ → Pushed
unfolding first_segment
push_first true r remaining [] = (r, err no_inner_pid)
push_first true r remaining (pid ∷ bytes) = first_segment r remaining (some pid) bytes
push_first false r remaining bytes = first_segment r remaining none bytes

-- `remaining !== expectedRemaining - 1` fails only for the number below the expected one.
push_next : Option ℕ → Reassembler → ℕ → List ℕ → Pushed
unfolding accept
push_next none r remaining bytes = (r, err no_first)
push_next (some expected) r remaining bytes =
    if remaining + 1 == expected
    then accept (record r { expected_remaining = some remaining }) remaining bytes
    else (r, err out_of_sequence)

unfoldable pub push : Reassembler → List ℕ → Pushed
unfolding push_first push_next
push r [] = (r, err empty_info)
push r (header ∷ rest) =
    if has_bit 7 header
    then push_first r.expect_inner_pid r (header % 128) rest
    else push_next r.expected_remaining r (header % 128) rest

-- The segments of a stream, pushed in turn, with each answer.
unfoldable pub push_all :
    Reassembler → List (List ℕ) → Reassembler × List (Result ReassemblyError (Option (List ℕ)))
push_all r [] = (r, [])
push_all r (s ∷ ss) =
    let (r', answer) = push r s in let (r'', answers) = push_all r' ss in (r'', answer ∷ answers)
