-- ===== src/Segmenter/RoundTrip.antt =====
-- sdl/segmenter.ts: what reassembly makes of a segmented payload.
use native.Mathlib.Nat.{div-add-mod, mod-lt}
use ax25_ts.Base.{
  List, Option, ap, arith, bit_or, drop, err, false, if◌then◌else◌, length, length-drop, ltb, min,
  none, ok, refl, some, suc, take, take-append-drop, true, zero, ℕ, ◌%◌, ◌*◌, ◌+◌, ◌-◌, ◌<◌, ◌∙◌,
  ◌∷◌, ◌≡◌, ◌≤◌,
}
use ax25_ts.Segmenter.{
  Reassembler, ceil_div, chunk, inner_count, inner_loop, literal_count, literal_loop, n1_too_small,
  push_all, segment, segment_figure_literal, segment_max_segments, segment_with_inner_pid,
  too_many_segments,
}
use ax25_ts.Segmenter.Series.{
  answers, chunk-take, delivered, drop-capped, inner_loop-continuation, is_some,
  literal_loop-continuation, push_all_series, push_first_inner, push_first_literal,
}
use mathlib.Core.Option

pub ceil_div-cover : (n d : ℕ) → 0 < d → n ≤ ceil_div n d * d
ceil_div-cover n d h = grind (arith, div-add-mod (n + d - 1) d, mod-lt (n + d - 1) h)

pub length-literal_loop :
    (per count rounds i : ℕ) (payload : List ℕ)
    → length (literal_loop per count payload rounds i) ≡ rounds
unfolding literal_loop
length-literal_loop per count zero i payload = refl
length-literal_loop per count (suc rounds) i payload =
    ap suc (length-literal_loop per count rounds (i + 1) payload)

pub length-inner_loop :
    (per count rounds i offset : ℕ) (payload : List ℕ)
    → length (inner_loop per count payload rounds i offset) ≡ rounds
unfolding inner_loop
length-inner_loop per count zero i offset payload = refl
length-inner_loop per count (suc rounds) i offset payload =
    ap suc (length-inner_loop per count rounds (i + 1) _ payload)

push_all-literal :
    (r : Reassembler) (per rounds : ℕ) (payload : List ℕ)
    → r.expect_inner_pid ≡ false
    → rounds < 128
    → length payload ≤ suc rounds * per
    → push_all r (literal_loop per (suc rounds) payload (suc rounds) 0)
      ≡ (delivered r none, answers rounds payload)
unfolding literal_loop
push_all-literal r per rounds payload e h k =
    let all : suc rounds - 1 - 0 ≡ rounds = omega arith in
    let start : 0 * per ≡ 0 = omega arith in
    let one : 1 * per ≡ per = omega arith in
    rw
      (
        all,
        start,
        chunk-take per 0 payload,
        literal_loop-continuation per (suc rounds) rounds 1 payload (omega arith) (omega arith),
        one,
      )
      (push_all_series r per rounds none _ (take per payload) (drop per payload) h
          (omega (arith, length-drop per payload))
          (push_first_literal r rounds (take per payload) e h)
        ∙ rw (take-append-drop per payload))

capped_start :
    (per : ℕ) (payload : List ℕ) → drop (min per (length payload)) payload ≡ drop per payload
capped_start per payload =
    let e : min per (length payload) ≡ 0 + min per (length payload - 0) = omega arith in
    rw e (drop-capped per 0 payload)

push_all-inner :
    (r : Reassembler) (per rounds pid : ℕ) (payload : List ℕ)
    → r.expect_inner_pid ≡ true
    → rounds < 128
    → 0 < per
    → length payload + 1 ≤ suc rounds * per
    → push_all r (
        (bit_or 128 (rounds % 128) ∷ pid ∷ chunk (per - 1) 0 payload)
        ∷ inner_loop per (suc rounds) payload rounds 1 (min (per - 1) (length payload)))
      ≡ (delivered r (some pid), answers rounds payload)
push_all-inner r per rounds pid payload e h p k =
    let same : drop (min (per - 1) (length payload)) payload ≡ drop (per - 1) payload =
      capped_start (per - 1) payload in
    rw
      (
        chunk-take (per - 1) 0 payload,
        inner_loop-continuation per (suc rounds) rounds 1 (min (per - 1) (length payload)) payload
            (omega arith),
        same,
      )
      (push_all_series r per rounds (some pid) _ (take (per - 1) payload) (drop (per - 1) payload) h
          (omega (arith, length-drop (per - 1) payload))
          (push_first_inner r rounds pid (take (per - 1) payload) e h)
        ∙ rw (take-append-drop (per - 1) payload))

ceil_div_pos : (n d : ℕ) → 0 < d → 0 < n → 0 < ceil_div n d
ceil_div_pos n d h k = grind (arith, ceil_div-cover n d h)

guarded :
    (low n1 count : ℕ) (xs : List (List ℕ)) {ys : List (List ℕ)}
    → (if ltb n1 low
        then err n1_too_small
        else if ltb segment_max_segments count
        then err too_many_segments
        else ok xs)
      ≡ ok ys
    → (low ≤ n1) × (count ≤ 128) × (ys ≡ xs)
guarded low n1 count xs e = ground arith

-- The count of segments, which is never 0.
literal_count_pos : (payload : List ℕ) (per : ℕ) → 0 < per → 0 < literal_count payload per
literal_count_pos payload per h = ground (arith, ceil_div_pos (length payload) per h)

literal_count-cover :
    (payload : List ℕ) (per : ℕ) → 0 < per → length payload ≤ literal_count payload per * per
literal_count-cover payload per h = ground (arith, ceil_div-cover (length payload) per h)

inner_count-cover :
    (payload : List ℕ) (per : ℕ) → 0 < per → length payload + 1 ≤ inner_count payload per * per
inner_count-cover payload per h =
    let positive : 0 < ceil_div (length payload + 1) per = ceil_div_pos _ per h (omega arith) in
    let e : inner_count payload per ≡ ceil_div (length payload + 1) per = omega arith in
    rw e (ceil_div-cover (length payload + 1) per h)

pub literal_ok :
    (payload : List ℕ) (n1 : ℕ) (segments : List (List ℕ))
    → segment payload n1 none ≡ ok segments
    → (count : ℕ) × (count < 128)
      × (1 < n1)
      × (length payload ≤ suc count * (n1 - 1))
      × (segments ≡ literal_loop (n1 - 1) (suc count) payload (suc count) 0)
unfolding segment segment_figure_literal
literal_ok payload n1 segments s =
    let (two, few, same) = guarded 2 n1 (literal_count payload (n1 - 1)) _ s in
    let pos : 0 < literal_count payload (n1 - 1) =
      literal_count_pos payload (n1 - 1) (omega arith) in
    let c : literal_count payload (n1 - 1) ≡ suc (literal_count payload (n1 - 1) - 1) =
      omega arith in
    (
      literal_count payload (n1 - 1) - 1,
      omega arith,
      two,
      rw (← c) (literal_count-cover payload (n1 - 1) (omega arith)),
      rw (← c) same,
    )

pub inner_ok :
    (payload : List ℕ) (n1 pid : ℕ) (segments : List (List ℕ))
    → segment payload n1 (some pid) ≡ ok segments
    → (count : ℕ) × (count < 128)
      × (2 < n1)
      × (length payload + 1 ≤ suc count * (n1 - 1))
      × (segments
          ≡ (bit_or 128 (count % 128) ∷ (pid % 256) ∷ chunk (n1 - 1 - 1) 0 payload)
            ∷ inner_loop (n1 - 1) (suc count) payload count 1 (min (n1 - 1 - 1) (length payload)))
unfolding segment segment_with_inner_pid
inner_ok payload n1 pid segments s =
    let (three, few, same) = guarded 3 n1 (inner_count payload (n1 - 1)) _ s in
    let c : inner_count payload (n1 - 1) ≡ suc (inner_count payload (n1 - 1) - 1) = omega arith in
    let two : n1 - 1 - 1 ≡ n1 - 2 = omega arith in
    (
      inner_count payload (n1 - 1) - 1,
      omega arith,
      three,
      rw (← c) (inner_count-cover payload (n1 - 1) (omega arith)),
      rw (← c, two) same,
    )

-- Segments cut in either format come back whole: a reassembler in any state that expects that
-- format answers `null` to each segment but the last, delivers the payload on the last, has
-- recovered the inner PID (its low octet; none in the figure's format), and holds nothing.
pub push_all-segment :
    (r : Reassembler) (payload : List ℕ) (n1 : ℕ) (inner_pid : Option ℕ) (segments : List (List ℕ))
    → r.expect_inner_pid ≡ is_some inner_pid
    → segment payload n1 inner_pid ≡ ok segments
    → push_all r segments
      ≡ (delivered r (Option.map (λ p. p % 256) inner_pid), answers (length segments - 1) payload)
push_all-segment r payload n1 none segments e s =
    let (count, h, k, l, same) = literal_ok payload n1 segments s in
    rw (same, length-literal_loop (n1 - 1) (suc count) (suc count) 0 payload)
      (push_all-literal r (n1 - 1) count payload e h l
        ∙ ap (λ n. (delivered r none, answers n payload)) (omega arith))
push_all-segment r payload n1 (some p) segments e s =
    let (count, h, k, l, same) = inner_ok payload n1 p segments s in
    rw
      (
        same,
        length-inner_loop (n1 - 1) (suc count) count 1 (min (n1 - 1 - 1) (length payload)) payload,
      )
      (push_all-inner r (n1 - 1) count (p % 256) payload e h (omega arith) l
        ∙ ap (λ n. (delivered r (some (p % 256)), answers n payload)) (omega arith))
