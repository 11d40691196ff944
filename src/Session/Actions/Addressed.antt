-- ===== src/Session/Actions/Addressed.antt =====
-- sdl/action-dispatcher.ts: where the frames of a session go.
use ax25_ts.Base.{
  All, All-append, Bool, Bool-cases, List, Option, Result, err, false, if◌then◌else◌, inl, inr,
  is_empty, leb, length, ltb, none, ok, some, true, ℕ, ◌==◌, ◌≡◌,
}
use ax25_ts.Callsign.{Callsign}
use ax25_ts.Frame.{Ax25Frame, FrameError, get_nr, max_digipeaters}
use ax25_ts.Frame.Decode.{and_then, require}
use ax25_ts.Frame.Factory.{
  build_supervisory_frame, disc, dm, frame_on, i_frame, make_address_chain, sabm, sabme, ua, ui,
}
use ax25_ts.SegmentationLayer.{DataUnit}
use ax25_ts.Session.{SessionContext, advance_va, prune_acknowledged_sent_i_frames}
use ax25_ts.Session.Actions.{
  MdlSignal, Outcome, SupervisoryType, Transition, UnnumberedType, build_s_frame, build_u_frame,
  disc_type, dl_data_request, dm_type, emit_i_frame_with, emit_old_i_frame, frame_opts, or_value,
  resend_entry, reversed_trigger_path, sabm_type, sabme_type, send_frame, send_ui, store_sent,
  ua_type, with_context,
}
use ax25_ts.Session.Actions.Effects.{
  Dispatcher, Subroutine, advanced, arm_t1, arm_t3, cancel_t3, check_acknowledged,
  check_acknowledged_by, clear_conditions, data_indication, decrement_sreject, emit_upward,
  establish, established, frame_then, halt_t1, indication_of, push_data, retrieve_stored, to_mod_8,
}
use ax25_ts.Session.Actions.Verbs.{is_name}

-- A frame from one station to another.
abbrev pub IsBetween : Callsign → Callsign → Ax25Frame → Type 0
IsBetween here there frame = (frame.source.callsign ≡ here) × (frame.destination.callsign ≡ there)

-- The session of two stations, all of whose frames so far went from the one to the other.
abbrev pub IsAddressed : Callsign → Callsign → Transition → Type 0
IsAddressed here there tx =
    (tx.context.local ≡ here) × ((tx.context.remote ≡ there) × All (IsBetween here there) tx.sent)

-- What holds of the transition unless the action threw.
abbrev pub OnOk : (Transition → Type 0) → Outcome → Type 0
OnOk P (ok tx) = P tx
OnOk P (err e) = Unit {0}

-- The parts that the dispatcher is given keep the stations and send nothing else.
pub record KeepsStations (here there : Callsign) (d : Dispatcher) : Type 0 where
  pub invoke :
      (s : Subroutine) (tx : Transition)
      → IsAddressed here there tx
      → OnOk (IsAddressed here there) (d.invoke s tx)
  pub set_version_20 :
      (ctx : SessionContext)
      → ((or_value d.set_version_20 to_mod_8 ctx).local ≡ ctx.local)
        × ((or_value d.set_version_20 to_mod_8 ctx).remote ≡ ctx.remote)
  pub send_xid_command :
      (tx : Transition)
      → IsAddressed here there tx
      → OnOk (IsAddressed here there) (d.send_xid_command tx)
  pub apply_negotiated :
      (tx : Transition)
      → IsAddressed here there tx
      → OnOk (IsAddressed here there) (d.apply_negotiated tx)
  pub send_mdl :
      (s : MdlSignal) (tx : Transition)
      → IsAddressed here there tx
      → OnOk (IsAddressed here there) (d.send_mdl s tx)
  pub on_mdl_negotiate_request :
      (tx : Transition)
      → IsAddressed here there tx
      → OnOk (IsAddressed here there) (d.on_mdl_negotiate_request tx)

module _ (here there : Callsign) where
  abbrev pub Good : Transition → Type 0
  Good = IsAddressed here there

  pub frame_then-Good :
      (o : Option Ax25Frame) (next : Ax25Frame → Outcome)
      → ((frame : Ax25Frame) → OnOk Good (next frame))
      → OnOk Good (frame_then o next)
  unfolding frame_then
  frame_then-Good none next h = tt
  frame_then-Good (some frame) next h = h frame

  pub if-Good :
      (test_bit : Bool) (one other : Outcome)
      → OnOk Good one
      → OnOk Good other
      → OnOk Good (if test_bit then one else other)
  if-Good true one other h k = h
  if-Good false one other h k = k

  -- A frame on the stations of the session.
  frame_on-IsBetween :
      (tx : Transition) (is_cmd : Bool) (control : ℕ) (extension pid : Option ℕ) (info : List ℕ)
      → Good tx
      → OnOk Good (send_frame tx (frame_on (frame_opts tx) is_cmd control extension pid info))
  unfolding send_frame frame_on make_address_chain and_then require
  frame_on-IsBetween tx is_cmd control extension pid info a =
      elim (Bool-cases (leb (length (reversed_trigger_path tx)) max_digipeaters)) [
        | inl fits ↦ rw fits (
          a.0,
          ((a.1).0, All-append (IsBetween here there) tx.sent _ (a.1).1 ((a.0, (a.1).0), tt)),
        )
        | inr long ↦ rw long tt
      ]

  pub if_frame-Good :
      (tx : Transition) (test_bit : Bool) (one other : Result FrameError Ax25Frame)
      → OnOk Good (send_frame tx one)
      → OnOk Good (send_frame tx other)
      → OnOk Good (send_frame tx (if test_bit then one else other))
  if_frame-Good tx true one other h k = h
  if_frame-Good tx false one other h k = k

  pub s_frame-Good :
      (tx : Transition) (s_type : SupervisoryType) (is_cmd : Bool)
      → Good tx
      → OnOk Good (send_frame tx (build_s_frame tx s_type is_cmd))
  unfolding build_s_frame build_supervisory_frame
  s_frame-Good tx s_type is_cmd a =
      if_frame-Good tx tx.context.is_extended _ _ (frame_on-IsBetween tx is_cmd _ _ _ _ a)
        (frame_on-IsBetween tx is_cmd _ _ _ _ a)

  pub u_frame-Good :
      (tx : Transition) (u_type : UnnumberedType) (pf : Option Bool)
      → Good tx
      → OnOk Good (send_frame tx (build_u_frame tx u_type pf))
  unfolding build_u_frame sabm sabme disc ua dm
  u_frame-Good tx sabm_type pf a = frame_on-IsBetween tx _ _ _ _ _ a
  u_frame-Good tx sabme_type pf a = frame_on-IsBetween tx _ _ _ _ _ a
  u_frame-Good tx disc_type pf a = frame_on-IsBetween tx _ _ _ _ _ a
  u_frame-Good tx ua_type pf a = frame_on-IsBetween tx _ _ _ _ _ a
  u_frame-Good tx dm_type pf a = frame_on-IsBetween tx _ _ _ _ _ a

  pub i_frame-Good :
      (tx : Transition) (nr ns : ℕ) (info : List ℕ) (pid : ℕ) (poll_bit : Bool)
      → Good tx
      → OnOk Good
          (send_frame tx (i_frame (frame_opts tx) nr ns info pid poll_bit tx.context.is_extended))
  unfolding i_frame
  i_frame-Good tx nr ns info pid poll_bit a =
      if_frame-Good tx tx.context.is_extended _ _ (frame_on-IsBetween tx true _ _ _ _ a)
        (frame_on-IsBetween tx true _ _ _ _ a)

  pub send_ui-Good : (tx : Transition) (o : Option (List ℕ)) → Good tx → OnOk Good (send_ui tx o)
  unfolding send_ui ui
  send_ui-Good tx none a = tt
  send_ui-Good tx (some bytes) a = frame_on-IsBetween tx true _ _ _ _ a

  pub store_sent-Good :
      (ns : ℕ) (unit : DataUnit) (o : Outcome) → OnOk Good o → OnOk Good (store_sent ns unit o)
  unfolding store_sent
  store_sent-Good ns unit (ok tx) a = a
  store_sent-Good ns unit (err e) a = tt

  pub emit_i_frame-Good :
      (tx : Transition) (o : Option (List ℕ)) → Good tx → OnOk Good (emit_i_frame_with tx o)
  unfolding emit_i_frame_with
  emit_i_frame-Good tx none a = tt
  emit_i_frame-Good tx (some bytes) a = store_sent-Good _ _ _ (i_frame-Good tx _ _ _ _ _ a)

  pub resend_entry-Good :
      (tx : Transition) (ns : ℕ) (o : Option DataUnit) → Good tx → OnOk Good (resend_entry tx ns o)
  unfolding resend_entry
  resend_entry-Good tx ns none a = a
  resend_entry-Good tx ns (some entry) a = i_frame-Good tx _ _ _ _ _ a

  pub emit_old_i_frame-Good :
      (tx : Transition) (ns : ℕ) (b : Bool) → Good tx → OnOk Good (emit_old_i_frame tx ns b)
  unfolding emit_old_i_frame
  emit_old_i_frame-Good tx ns b a =
      if-Good b _ _ (if-Good _ (ok tx) _ a (resend_entry-Good _ ns _ a))
        (resend_entry-Good tx ns _ a)

  pub indication_of-Good :
      (tx : Transition) (frame : Ax25Frame) (o : Option ℕ)
      → Good tx
      → OnOk Good (indication_of tx frame o)
  unfolding indication_of emit_upward
  indication_of-Good tx frame none a = tt
  indication_of-Good tx frame (some pid) a = a

  pub data_indication-Good :
      (tx : Transition) (o : Option DataUnit) → Good tx → OnOk Good (data_indication tx o)
  unfolding data_indication emit_upward
  data_indication-Good tx none a =
      frame_then-Good tx.event.frame _ (λ frame. indication_of-Good tx frame frame.pid a)
  data_indication-Good tx (some staged) a = a

  pub push_data-Good :
      (tx : Transition) (o : Option (List ℕ)) → Good tx → OnOk Good (push_data tx o)
  unfolding push_data
  push_data-Good tx none a = tt
  push_data-Good tx (some bytes) a = elim (Bool-cases (is_name tx.event.name dl_data_request)) [
    | inl request ↦ rw request a
    | inr other ↦ rw other tt
  ]

  pub retrieve_stored-Good :
      (tx : Transition) (o : Option DataUnit) → Good tx → Good (retrieve_stored tx o)
  unfolding retrieve_stored
  retrieve_stored-Good tx none a = a
  retrieve_stored-Good tx (some stored) a = a

  pub established-Good : (o : Outcome) → OnOk Good o → OnOk Good (established o)
  unfolding established arm_t1 cancel_t3
  established-Good (ok tx) a = a
  established-Good (err e) a = tt

  pub establish-Good : (tx : Transition) → Good tx → OnOk Good (established (establish tx))
  unfolding establish clear_conditions
  establish-Good tx a = established-Good _ (u_frame-Good _ _ (some true) a)

  pub advanced-Good : (tx : Transition) (nr : ℕ) → Good tx → Good (advanced tx nr)
  unfolding advance_va prune_acknowledged_sent_i_frames
  advanced-Good tx nr a = elim (Bool-cases (nr == tx.context.va)) [
    | inl still ↦ rw still a
    | inr moved ↦ rw moved (elim (Bool-cases (is_empty tx.context.sent_i_frames)) [
      | inl bare ↦ rw bare a
      | inr full ↦ rw full a
    ])
  ]

  if-Good_tx :
      (test_bit : Bool) (one other : Transition)
      → Good one
      → Good other
      → Good (if test_bit then one else other)
  if-Good_tx true one other h k = h
  if-Good_tx false one other h k = k

  pub check_acknowledged-Good :
      (d : Dispatcher) (tx : Transition) (o : Option Ax25Frame)
      → Good tx
      → Good (check_acknowledged_by d tx o)
  unfolding check_acknowledged_by check_acknowledged arm_t1 cancel_t3 arm_t3 halt_t1
  check_acknowledged-Good d tx none a = a
  check_acknowledged-Good d tx (some frame) a =
      let moved = advanced-Good tx (get_nr frame) a in
      if-Good_tx _ _ _ (if-Good_tx _ _ _ moved moved)
        (if-Good_tx _ _ _ moved (if-Good_tx _ _ _ a moved))

  pub decrement_sreject-Good :
      (tx : Transition) → Good tx → OnOk Good (with_context tx (decrement_sreject tx.context))
  unfolding decrement_sreject
  decrement_sreject-Good tx a = elim (Bool-cases (ltb 0 tx.context.srej_exception_count)) [
    | inl some_left ↦ rw some_left a
    | inr none_left ↦ rw none_left a
  ]
