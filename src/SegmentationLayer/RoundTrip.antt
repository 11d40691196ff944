-- ===== src/SegmentationLayer/RoundTrip.antt =====
-- sdl/segmentation-layer.ts: data that the layer sends, as the peer's layer delivers it.
use ax25_ts.Base.{
  Bool-cases, List, Option, Result, [], ap, arith, err, false, if◌then◌else◌, inl, inr, leb, length,
  map, none, ok, refl, some, suc, true, zero, ℕ, ◌%◌, ◌++◌, ◌-◌, ◌∙◌, ◌∷◌, ◌≡◌, ◌≢◌, ◌≤◌, ◌⊎◌,
}
use ax25_ts.Base.Bytes.{IsByte}
use ax25_ts.Frame.{pid_no_layer_3, pid_segmented}
use ax25_ts.SegmentationLayer.{
  DataUnit, Layer, Parameters, after_push, build_send_requests, delivered_unit, on_all,
  on_data_indication, reassembler_of, recovered_pid, segment_unit, to_requests,
}
use ax25_ts.Segmenter.{RangeError, Reassembler, push, push_all, segment}
use ax25_ts.Segmenter.RoundTrip.{push_all-segment}
use ax25_ts.Segmenter.Series.{Answer, answers}

-- One unit with the segment PID.
indicate :
    (p : Parameters) (layer : Layer) (s : List ℕ)
    → on_data_indication p layer (segment_unit s) ≡ after_push (push (reassembler_of p layer) s)
unfolding on_data_indication
indicate p layer s = refl

on_all_step :
    (p : Parameters) (layer : Layer) (u : DataUnit) (us : List DataUnit) {layer' : Layer}
    {out : Option DataUnit}
    → on_data_indication p layer u ≡ (layer', out)
    → on_all p layer (u ∷ us)
      ≡ ((on_all p layer' us).0, delivered_unit out ++ (on_all p layer' us).1)
unfolding on_all
on_all_step p layer u us e = rw e

push_all_inv :
    (r : Reassembler) (s : List ℕ) (ss : List (List ℕ)) (r' : Reassembler) (a : Answer)
    (as' : List Answer)
    → push_all r (s ∷ ss) ≡ (r', a ∷ as')
    → (push r s ≡ ((push r s).0, a)) × (push_all (push r s).0 ss ≡ (r', as'))
unfolding push_all
push_all_inv r s ss r' a as' e = ground arith

push_all_nil :
    (r : Reassembler) {r' : Reassembler} {as' : List Answer}
    → push_all r [] ≡ (r', as')
    → (r ≡ r') × (as' ≡ [])
unfolding push_all
push_all_nil r e = (cc, cc)

push_all_cons-ne :
    (r : Reassembler) (s : List ℕ) (ss : List (List ℕ)) {r' : Reassembler}
    → push_all r (s ∷ ss) ≡ (r', [])
    → ⊥
unfolding push_all
push_all_cons-ne r s ss e = cc

-- A series that the reassembler takes as in `push_all-segment` is one indication of the layer.
on_all-answers :
    (p : Parameters) (layer : Layer) (ss : List (List ℕ)) (n : ℕ) (payload : List ℕ)
    (r' : Reassembler)
    → push_all (reassembler_of p layer) ss ≡ (r', answers n payload)
    → on_all p layer (map segment_unit ss)
      ≡ (some r', record { bytes = payload; pid = recovered_pid r' } ∷ [])
unfolding after_push
on_all-answers p layer [] zero payload r' e = let (_, f) = push_all_nil _ e in cc
on_all-answers p layer [] (suc n) payload r' e = let (_, f) = push_all_nil _ e in cc
on_all-answers p layer (s ∷ []) zero payload r' e =
    let (a, b) = push_all_inv _ s [] r' (ok (some payload)) [] e in
    let (c, _) = push_all_nil _ b in
    on_all_step p layer (segment_unit s) [] (indicate p layer s ∙ ap after_push a)
    ∙ rw c (unfold on_all in refl)
on_all-answers p layer (s ∷ t ∷ ss) zero payload r' e =
    absurd (push_all_cons-ne _ t ss (push_all_inv _ s (t ∷ ss) r' (ok (some payload)) [] e).1)
on_all-answers p layer (s ∷ ss) (suc n) payload r' e =
    let (a, b) = push_all_inv _ s ss r' (ok none) (answers n payload) e in
    on_all_step p layer (segment_unit s) (map segment_unit ss)
      (indicate p layer s ∙ ap after_push a)
    ∙ rw (on_all-answers p (some (push (reassembler_of p layer) s).0) ss n payload r' b)

-- The PID that data comes out with: the figure's format loses it when the data was segmented.
abbrev pub received_pid : Parameters → List ℕ → ℕ → ℕ
received_pid p bytes pid =
    if leb (length bytes) p.n1
    then pid
    else if p.segment_first_carries_l3_pid
    then pid
    else pid_no_layer_3

-- The reassembler of the layer, if it has one, was made for the format in use.
abbrev pub Agrees : Parameters → Layer → Type 0
Agrees p layer = (reassembler_of p layer).expect_inner_pid ≡ p.segment_first_carries_l3_pid

passes :
    (p : Parameters) (layer : Layer) (u : DataUnit)
    → u.pid ≢ pid_segmented
    → (on_all p layer (u ∷ [])).1 ≡ u ∷ []
unfolding on_all on_data_indication
passes p layer u ne = ground arith

abbrev format_pid : Parameters → ℕ → Option ℕ
format_pid p pid = if p.segment_first_carries_l3_pid then some pid else none

abbrev with_pid : List ℕ → ℕ → List DataUnit
with_pid bytes pid = record { bytes = bytes; pid = pid } ∷ []

reassembled :
    (p : Parameters) (layer : Layer) (bytes : List ℕ) (pid : ℕ) (ss : List (List ℕ))
    → IsByte pid
    → Agrees p layer
    → segment bytes p.n1 (format_pid p pid) ≡ ok ss
    → (on_all p layer (map segment_unit ss)).1
      ≡ record {
        bytes = bytes;
        pid = if p.segment_first_carries_l3_pid then pid else pid_no_layer_3;
      }
        ∷ []
reassembled p layer bytes pid ss h a cut = elim (Bool-cases p.segment_first_carries_l3_pid) [
  | inl t ↦
      let low : pid % 256 ≡ (if p.segment_first_carries_l3_pid then pid else pid_no_layer_3) =
        ground arith in
      ap (λ t. t.1)
        (on_all-answers p layer ss (length ss - 1) bytes _ (
          push_all-segment (reassembler_of p layer) bytes p.n1 (some pid) ss (a ∙ t) (rw t at cut)))
      ∙ ap (with_pid bytes) low
  | inr f ↦
      let low : pid_no_layer_3 ≡ (if p.segment_first_carries_l3_pid then pid else pid_no_layer_3) =
        ground arith in
      ap (λ t. t.1)
        (on_all-answers p layer ss (length ss - 1) bytes _
          (push_all-segment (reassembler_of p layer) bytes p.n1 none ss (a ∙ f) (rw f at cut)))
      ∙ ap (with_pid bytes) low
]

to_requests_ok :
    (r : Result RangeError (List (List ℕ))) (requests : List DataUnit)
    → to_requests r ≡ ok requests
    → (ss : List (List ℕ)) × (r ≡ ok ss) × (map segment_unit ss ≡ requests)
to_requests_ok (ok ss) requests e = (ss, refl, cc)
to_requests_ok (err x) requests e = cc

build_cases :
    (p : Parameters) (bytes : List ℕ) (pid : ℕ) (requests : List DataUnit)
    → build_send_requests p bytes pid ≡ ok requests
    → ((leb (length bytes) p.n1 ≡ true) × (record { bytes = bytes; pid = pid } ∷ [] ≡ requests))
      ⊎ ((ss : List (List ℕ)) × (leb (length bytes) p.n1 ≡ false)
          × (segment bytes p.n1 (format_pid p pid) ≡ ok ss)
          × (map segment_unit ss ≡ requests))
unfolding build_send_requests
build_cases p bytes pid requests e = elim (Bool-cases (leb (length bytes) p.n1)) [
  | inl t ↦ inl (t, ground arith)
  | inr f ↦
      let cut : to_requests (segment bytes p.n1 (format_pid p pid)) ≡ ok requests = ground arith in
      let (ss, r, same) = to_requests_ok _ requests cut in inr (ss, f, r, same)
]

-- Data sent by one layer arrives at a layer with the same parameters as one indication of the same
-- octets, whether it was segmented or not, and with the PID that `received_pid` names. The PID is
-- an octet, and not that of segments where the data fits one frame.
pub on_all-build_send_requests :
    (p : Parameters) (layer : Layer) (bytes : List ℕ) (pid : ℕ) (requests : List DataUnit)
    → IsByte pid
    → (length bytes ≤ p.n1 → pid ≢ pid_segmented)
    → Agrees p layer
    → build_send_requests p bytes pid ≡ ok requests
    → (on_all p layer requests).1 ≡ record { bytes = bytes; pid = received_pid p bytes pid } ∷ []
on_all-build_send_requests p layer bytes pid requests h ne a e =
    elim (build_cases p bytes pid requests e) [
      | inl (fits, same) ↦
          rw (← same, fits)
            (passes p layer (record { bytes = bytes; pid = pid }) (ne (ground arith)))
      | inr (ss, long, cut, same) ↦ rw (← same, long) (reassembled p layer bytes pid ss h a cut)
    ]
