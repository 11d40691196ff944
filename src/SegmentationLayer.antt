-- ===== src/SegmentationLayer.antt =====
-- sdl/segmentation-layer.ts: the seam between the session's data primitives and the segmenter. The
-- session's parameters that it reads are a record of their own.
pub mod RoundTrip
pub mod Runs
use ax25_ts.Base.{
  Bool, List, Option, Result, [], err, if◌then◌else◌, leb, length, map, none, not, ok, some, ℕ,
  ◌++◌, ◌==◌, ◌∷◌,
}
use ax25_ts.Frame.{pid_no_layer_3, pid_segmented}
use ax25_ts.Segmenter.{RangeError, Reassembler, ReassemblyError, new_reassembler, push, segment}
use mathlib.Core.Option

pub record Parameters : Type 0 where
  pub n1 : ℕ
  pub segmenter_reassembler_enabled : Bool
  pub segment_first_carries_l3_pid : Bool

-- A DL-DATA request or indication.
pub record DataUnit : Type 0 where
  pub bytes : List ℕ
  pub pid : ℕ

-- The field `reassembler`, `none` until the first segment arrives.
abbrev pub Layer : Type 0
Layer = Option Reassembler

pub data SendError : Type 0 where
  not_negotiated : SendError
  range : RangeError → SendError

abbrev pub segment_unit : List ℕ → DataUnit
segment_unit s = record { bytes = s; pid = pid_segmented }

abbrev to_requests : Result RangeError (List (List ℕ)) → Result SendError (List DataUnit)
to_requests (ok ss) = ok (map segment_unit ss)
to_requests (err e) = err (range e)

pub build_send_requests : Parameters → List ℕ → ℕ → Result SendError (List DataUnit)
build_send_requests p bytes pid =
    if leb (length bytes) p.n1
    then ok (record { bytes = bytes; pid = pid } ∷ [])
    else if not p.segmenter_reassembler_enabled
    then err not_negotiated
    else to_requests
        (segment bytes p.n1 (if p.segment_first_carries_l3_pid then some pid else none))

-- `this.reassembler ??= new Reassembler(this.innerPidFormat)`.
abbrev pub reassembler_of : Parameters → Layer → Reassembler
reassembler_of p none = new_reassembler p.segment_first_carries_l3_pid
reassembler_of p (some r) = r

-- The PID that a completed series is delivered with.
abbrev pub recovered_pid : Reassembler → ℕ
recovered_pid r = Option.get_or r.last_recovered_pid pid_no_layer_3

-- What the answer of `push` makes of the layer: an error drops the reassembler.
after_push : Reassembler × Result ReassemblyError (Option (List ℕ)) → Layer × Option DataUnit
after_push (r, err e) = (none, none)
after_push (r, ok none) = (some r, none)
after_push (r, ok (some bytes)) = (some r, some (record { bytes = bytes; pid = recovered_pid r }))

pub on_data_indication : Parameters → Layer → DataUnit → Layer × Option DataUnit
unfolding after_push
on_data_indication p layer u =
    if u.pid == pid_segmented
    then after_push (push (reassembler_of p layer) u.bytes)
    else (layer, some u)

abbrev pub delivered_unit : Option DataUnit → List DataUnit
delivered_unit none = []
delivered_unit (some u) = u ∷ []

-- The indications of a link that carries the units in order, and what is delivered of them.
pub on_all : Parameters → Layer → List DataUnit → Layer × List DataUnit
on_all p layer [] = (layer, [])
on_all p layer (u ∷ us) =
    let (layer', out) = on_data_indication p layer u in
    let (layer'', more) = on_all p layer' us in (layer'', delivered_unit out ++ more)
