-- ===== src/Session/Actions.antt =====
-- sdl/action-dispatcher.ts: what an action works on, the frames it builds and the signals it raises. A
-- timer is the time it has left, in whole milliseconds. What a throw leaves behind is not modelled.
pub mod Verbs
pub mod Effects
pub mod Execute
pub mod Addressed
pub mod Stations
pub mod Replay
pub mod Runs
use ax25_ts.Address.{Ax25Address}
use ax25_ts.Base.{
  Bool, List, Option, Result, [], err, false, if◌then◌else◌, none, not, ok, some, true, ℕ, ◌++◌,
  ◌==◌, ◌||◌, ◌∷◌,
}
use ax25_ts.Callsign.{Callsign}
use ax25_ts.Frame.{Ax25Frame, FrameError, control_rej, control_rnr, control_rr, control_srej}
use ax25_ts.Frame.Factory.{
  FrameFactoryOpts, build_supervisory_frame, disc, dm, i_frame, sabm, sabme, ua, ui,
}
use ax25_ts.SegmentationLayer.{DataUnit}
use ax25_ts.Session.{Millis, SessionContext, get_entry, is_outstanding}

-- The names of events that an action asks for.
pub data EventName : Type 0 where
  srej_received i_received dl_data_request other_name : EventName

pub record Event : Type 0 where
  pub name : EventName
  pub frame : Option Ax25Frame
  pub data_octets : Option (List ℕ)
  pub pid : Option ℕ

pub data DataLinkSignal : Type 0 where
  dl_connect_indication dl_connect_confirm : DataLinkSignal
  dl_disconnect_indication dl_disconnect_confirm : DataLinkSignal
  dl_data_indication dl_unit_data_indication : DataUnit → DataLinkSignal
  dl_error_indication : List ℕ → DataLinkSignal

pub data MdlSignal : Type 0 where
  mdl_negotiate_confirm : MdlSignal
  mdl_error_indicate : ℕ → MdlSignal

pub record Timers : Type 0 where
  pub t1 : Option Millis
  pub t3 : Option ℕ
  pub tm201 : Option ℕ

pub record PendingFrame : Type 0 where
  pub nr : Option ℕ
  pub ns : Option ℕ
  pub pf_bit : Option Bool

-- `TransitionContext`: what the calls of `sendFrame`, `emitUpward` and `postEvent` were given is a list,
-- oldest first; `LM_SEIZE_confirm` is the one event that is posted, so that it is counted.
pub record Transition : Type 0 where
  pub context : SessionContext
  pub scheduler : Timers
  pub event : Event
  pub pending : PendingFrame
  pub retrieved_stored_frame : Option DataUnit
  pub sent : List Ax25Frame
  pub upward : List DataLinkSignal
  pub seize_confirms : ℕ

pub data ActionError : Type 0 where
  no_payload not_a_data_request no_frame no_pid unknown_action : ActionError
  bad_frame : FrameError → ActionError

abbrev pub Outcome : Type 0
Outcome = Result ActionError Transition

abbrev pub with_context : Transition → SessionContext → Outcome
with_context tx ctx = ok (record tx { context = ctx })

unfoldable pub or_value {ℓ} : {A : Type ℓ} → Option A → A → A
or_value none d = d
or_value (some a) d = a

unfoldable pub reversed_path : List Ax25Address → List Callsign
reversed_path [] = []
reversed_path (d ∷ ds) = reversed_path ds ++ (d.callsign ∷ [])

unfoldable pub path_of : Option Ax25Frame → List Callsign
path_of none = []
path_of (some frame) = reversed_path frame.digipeaters

abbrev pub reversed_trigger_path : Transition → List Callsign
reversed_trigger_path tx = path_of tx.event.frame

-- Where every frame of the session goes.
abbrev pub frame_opts : Transition → FrameFactoryOpts
frame_opts tx = record {
  destination = tx.context.remote;
  source = tx.context.local;
  digipeaters = reversed_trigger_path tx;
}

unfoldable pub send_frame : Transition → Result FrameError Ax25Frame → Outcome
send_frame tx (ok frame) = ok (record tx { sent = tx.sent ++ (frame ∷ []) })
send_frame tx (err e) = err (bad_frame e)

pub data SupervisoryType : Type 0 where
  rr_type rnr_type rej_type srej_type : SupervisoryType

pub data UnnumberedType : Type 0 where
  sabm_type sabme_type disc_type ua_type dm_type : UnnumberedType

abbrev pub control_of : SupervisoryType → ℕ
control_of rr_type = control_rr
control_of rnr_type = control_rnr
control_of rej_type = control_rej
control_of srej_type = control_srej

unfoldable pub build_s_frame : Transition → SupervisoryType → Bool → Result FrameError Ax25Frame
build_s_frame tx s_type is_cmd =
    build_supervisory_frame (control_of s_type) (frame_opts tx)
      (or_value tx.pending.nr tx.context.vr) is_cmd (or_value tx.pending.pf_bit false)
      tx.context.is_extended

unfoldable pub build_u_frame :
    Transition → UnnumberedType → Option Bool → Result FrameError Ax25Frame
build_u_frame tx u_type pf_override =
    let pf = or_value pf_override (or_value tx.pending.pf_bit false) in
    let opts = frame_opts tx in
    elim u_type [
      | sabm_type ↦ sabm opts pf
      | sabme_type ↦ sabme opts pf
      | disc_type ↦ disc opts pf
      | ua_type ↦ ua opts pf
      | dm_type ↦ dm opts pf
    ]

-- `PID_NO_LAYER_3`.
abbrev pub default_pid : ℕ
default_pid = 0xf0

unfoldable pub send_ui : Transition → Option (List ℕ) → Outcome
send_ui tx none = err no_payload
send_ui tx (some bytes) = send_frame tx (
    ui (frame_opts tx) bytes (or_value tx.event.pid default_pid) true
      (or_value tx.pending.pf_bit false))

-- `Map.set`: a known number keeps its place.
unfoldable pub set_entry : ℕ → DataUnit → List (ℕ × DataUnit) → List (ℕ × DataUnit)
set_entry ns unit [] = (ns, unit) ∷ []
set_entry ns unit (e ∷ rest) =
    let later = set_entry ns unit rest in if e.0 == ns then (ns, unit) ∷ rest else e ∷ later

unfoldable pub delete_number : ℕ → List ℕ → List ℕ
delete_number n [] = []
delete_number n (x ∷ xs) = let rest = delete_number n xs in if x == n then rest else x ∷ rest

unfoldable pub has_number : ℕ → List ℕ → Bool
has_number n [] = false
has_number n (x ∷ xs) = x == n || has_number n xs

-- The store of `emitIFrame`, after the frame went out.
unfoldable pub store_sent : ℕ → DataUnit → Outcome → Outcome
store_sent ns unit (err e) = err e
store_sent ns unit (ok tx) = with_context tx (record tx.context {
  sent_i_frames = set_entry ns unit tx.context.sent_i_frames;
  selectively_retransmitted_since_ack =
      delete_number ns tx.context.selectively_retransmitted_since_ack;
})

unfoldable pub emit_i_frame_with : Transition → Option (List ℕ) → Outcome
emit_i_frame_with tx none = err no_payload
emit_i_frame_with tx (some bytes) =
    let ns = or_value tx.pending.ns tx.context.vs in
    let unit : DataUnit = record { bytes = bytes; pid = or_value tx.event.pid default_pid } in
    store_sent ns unit (
      send_frame tx (
        i_frame (frame_opts tx) (or_value tx.pending.nr tx.context.vr) ns bytes unit.pid
          (or_value tx.pending.pf_bit false) tx.context.is_extended))

abbrev pub emit_i_frame : Transition → Outcome
emit_i_frame tx = emit_i_frame_with tx tx.event.data_octets

unfoldable pub resend_entry : Transition → ℕ → Option DataUnit → Outcome
resend_entry tx ns none = ok tx
resend_entry tx ns (some entry) =
    send_frame tx
      (i_frame (frame_opts tx) tx.context.vr ns entry.bytes entry.pid false tx.context.is_extended)

unfoldable pub emit_old_i_frame : Transition → ℕ → Bool → Outcome
emit_old_i_frame tx ns selective_replay =
    let ctx = tx.context in
    let noted = record tx {
      context = record ctx {
        selectively_retransmitted_since_ack = ctx.selectively_retransmitted_since_ack ++ (ns ∷ []);
      };
    } in
    if selective_replay
    then (if not (is_outstanding ctx ns) || has_number ns ctx.selectively_retransmitted_since_ack
        then ok tx
        else resend_entry noted ns (get_entry ns ctx.sent_i_frames))
    else resend_entry tx ns (get_entry ns ctx.sent_i_frames)
