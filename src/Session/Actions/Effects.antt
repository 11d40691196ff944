-- ===== src/Session/Actions/Effects.antt =====
-- sdl/action-dispatcher.ts (executeVerb): the verbs that do more than set one variable.
use ax25_ts.Base.{
  Bool, List, Option, [], err, false, if◌then◌else◌, ltb, none, not, ok, some, true, ℕ, ◌&&◌, ◌*◌,
  ◌++◌, ◌-◌, ◌==◌, ◌||◌, ◌∷◌,
}
use ax25_ts.Frame.{Ax25Frame, get_nr, get_ns}
use ax25_ts.SegmentationLayer.{DataUnit}
use ax25_ts.Session.{
  Millis, SessionContext, advance_va, eighth, keep_entries, minus_ms, plus_ms, times_ms, whole_ms,
}
use ax25_ts.Session.Actions.{
  DataLinkSignal, MdlSignal, Outcome, PendingFrame, Transition, build_u_frame, default_pid,
  dl_data_indication, dl_data_request, no_frame, no_pid, not_a_data_request, or_value, sabm_type,
  sabme_type, send_frame, set_entry, with_context,
}
use ax25_ts.Session.Actions.Verbs.{is_name}

-- The subroutines of the state tables, run by sdl/subroutine-registry.ts.
pub data Subroutine : Type 0 where
  sub_check_need_for_response sub_transmit_enquiry sub_invoke_retransmission : Subroutine
  sub_nr_error_recovery sub_enquiry_response_f_0 sub_enquiry_response_f_1 : Subroutine
  sub_select_t1_value : Subroutine

-- `ActionDispatcher`, with what it is given: the registry of subroutines and the hooks of the management
-- machine. A hook that is left out gives back what it is given.
pub record Dispatcher : Type 0 where
  pub freeze_t1v : Bool
  pub t3_ms : ℕ
  pub tm201_ms : ℕ
  pub invoke : Subroutine → Transition → Outcome
  pub set_version_20 : Option (SessionContext → SessionContext)
  pub send_xid_command : Transition → Outcome
  pub apply_negotiated : Transition → Outcome
  pub send_mdl : MdlSignal → Transition → Outcome
  pub on_mdl_negotiate_request : Transition → Outcome

abbrev pub to_mod_8 : SessionContext → SessionContext
to_mod_8 ctx = record ctx { is_extended = false }

abbrev pub with_pending : Transition → PendingFrame → Outcome
with_pending tx pending_frame = ok (record tx { pending = pending_frame })

unfoldable pub frame_then : Option Ax25Frame → (Ax25Frame → Outcome) → Outcome
frame_then none next = err no_frame
frame_then (some frame) next = next frame

-- What needs the frame that came in.
abbrev pub with_frame : Transition → (Ax25Frame → Outcome) → Outcome
with_frame tx next = frame_then tx.event.frame next

unfoldable pub arm_t1 : Transition → Transition
arm_t1 tx = record tx { scheduler = record tx.scheduler { t1 = some tx.context.t1v_ms } }

unfoldable pub arm_t3 : Dispatcher → Transition → Transition
arm_t3 d tx = record tx { scheduler = record tx.scheduler { t3 = some d.t3_ms } }

unfoldable pub cancel_t3 : Transition → Transition
cancel_t3 tx = record tx { scheduler = record tx.scheduler { t3 = none } }

-- Stop T1, after its remaining time is noted.
unfoldable pub halt_t1 : Transition → Transition
halt_t1 tx = record tx {
  context = record tx.context {
    t1_remaining_when_last_stopped_ms = or_value tx.scheduler.t1 (whole_ms 0);
  };
  scheduler = record tx.scheduler { t1 = none };
}

unfoldable pub decrement_sreject : SessionContext → SessionContext
decrement_sreject ctx =
    if ltb 0 ctx.srej_exception_count
    then record ctx {
      srej_exception_count = ctx.srej_exception_count - 1;
      selective_reject_exception =
          if ctx.srej_exception_count - 1 == 0 then false else ctx.selective_reject_exception;
    }
    else ctx

unfoldable pub clear_conditions : SessionContext → SessionContext
clear_conditions ctx = record ctx {
  peer_receiver_busy = false;
  own_receiver_busy = false;
  reject_exception = false;
  selective_reject_exception = false;
  srej_exception_count = 0;
  acknowledge_pending = false;
  i_frame_queue = [];
}

unfoldable pub next_t1 : Dispatcher → SessionContext → SessionContext
next_t1 d ctx = record ctx {
  t1v_ms =
      if d.freeze_t1v
      then ctx.t1v_ms
      else plus_ms (whole_ms (ctx.rc * 250)) (times_ms 2 ctx.srt_ms);
  t1_had_expired = false;
}

-- 7/8 of the old and 1/8 of the sample.
unfoldable pub sample_srt : Dispatcher → SessionContext → SessionContext
sample_srt d ctx =
    let sample = minus_ms ctx.t1v_ms ctx.t1_remaining_when_last_stopped_ms in
    let clean_measurement = ltb 0 ctx.t1_remaining_when_last_stopped_ms.count in
    record ctx {
      srt_ms =
          if not d.freeze_t1v && (not ctx.quirks.karn_srt_sampling || clean_measurement)
          then plus_ms (eighth (times_ms 7 ctx.srt_ms)) (eighth sample)
          else ctx.srt_ms;
      t1_had_expired = false;
      t1_remaining_when_last_stopped_ms = whole_ms 0;
    }

unfoldable pub emit_upward : Transition → DataLinkSignal → Transition
emit_upward tx signal = record tx { upward = tx.upward ++ (signal ∷ []) }

unfoldable pub indication_of : Transition → Ax25Frame → Option ℕ → Outcome
indication_of tx frame none = err no_pid
indication_of tx frame (some pid) =
    ok (emit_upward tx (dl_data_indication (record { bytes = frame.info; pid = pid })))

-- The frame that was staged goes first.
unfoldable pub data_indication : Transition → Option DataUnit → Outcome
data_indication tx none = with_frame tx (λ frame. indication_of tx frame frame.pid)
data_indication tx (some staged) =
    ok (emit_upward (record tx { retrieved_stored_frame = none }) (dl_data_indication staged))

unfoldable pub push_data : Transition → Option (List ℕ) → Outcome
push_data tx none = err not_a_data_request
push_data tx (some bytes) =
    if is_name tx.event.name dl_data_request
    then with_context tx (record tx.context {
      i_frame_queue =
          tx.context.i_frame_queue
          ++ (record { bytes = bytes; pid = or_value tx.event.pid default_pid } ∷ []);
    })
    else err not_a_data_request

unfoldable pub save_incoming : Ax25Frame → SessionContext → SessionContext
save_incoming frame ctx = record ctx {
  stored_received_i_frames =
      set_entry (get_ns frame) (record { bytes = frame.info; pid = or_value frame.pid default_pid })
        ctx.stored_received_i_frames;
}

unfoldable pub retrieve_stored : Transition → Option DataUnit → Transition
retrieve_stored tx none = tx
retrieve_stored tx (some stored) = record tx {
  context = record tx.context {
    stored_received_i_frames =
        keep_entries (λ ns. not (ns == tx.context.vr)) tx.context.stored_received_i_frames;
  };
  retrieved_stored_frame = some stored;
}

-- `Establish_Data_Link` up to the frame, and the timers after it.
unfoldable pub establish : Transition → Outcome
establish tx =
    let ready = record tx {
      context = record (clear_conditions tx.context) { rc = 1 };
      pending = record tx.pending { pf_bit = some true };
    } in
    send_frame ready
      (build_u_frame ready (if tx.context.is_extended then sabme_type else sabm_type) (some true))

unfoldable pub established : Outcome → Outcome
established (err e) = err e
established (ok tx) = ok (arm_t1 (cancel_t3 tx))

abbrev pub is_armed : Option Millis → Bool
is_armed none = false
is_armed (some remaining) = true

abbrev pub advanced : Transition → ℕ → Transition
advanced tx nr = record tx { context = advance_va tx.context nr }

unfoldable pub check_acknowledged : Dispatcher → Transition → ℕ → Transition
check_acknowledged d tx nr =
    if tx.context.peer_receiver_busy
    then (if is_armed tx.scheduler.t1
        then cancel_t3 (advanced tx nr)
        else arm_t1 (cancel_t3 (advanced tx nr)))
    else if nr == tx.context.vs
    then arm_t3 d (halt_t1 (advanced tx nr))
    else if nr == tx.context.va
    then tx
    else arm_t1 (advanced tx nr)

unfoldable pub check_acknowledged_by : Dispatcher → Transition → Option Ax25Frame → Transition
check_acknowledged_by d tx none = tx
check_acknowledged_by d tx (some frame) = check_acknowledged d tx (get_nr frame)
