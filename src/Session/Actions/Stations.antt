-- ===== src/Session/Actions/Stations.antt =====
-- sdl/action-dispatcher.ts: all that the actions send goes between the two stations of the session.
use ax25_ts.Base.{Bool-cases, List, [], err, if◌then◌else◌, inl, inr, ok, ◌∙◌, ◌∷◌}
use ax25_ts.Callsign.{Callsign}
use ax25_ts.Session.{SessionContext, times_ms, whole_ms}
use ax25_ts.Session.Actions.{Outcome, Transition, with_context}
use ax25_ts.Session.Actions.Addressed.{
  IsAddressed, KeepsStations, OnOk, advanced-Good, check_acknowledged-Good, data_indication-Good,
  decrement_sreject-Good, emit_i_frame-Good, emit_old_i_frame-Good, establish-Good, frame_then-Good,
  if-Good, push_data-Good, retrieve_stored-Good, s_frame-Good, send_ui-Good, u_frame-Good,
}
use ax25_ts.Session.Actions.Effects.{
  Dispatcher, arm_t1, arm_t3, cancel_t3, clear_conditions, emit_upward, halt_t1, next_t1,
  sample_srt, save_incoming,
}
use ax25_ts.Session.Actions.Execute.{
  execute, execute_verb, outcome_then, run_output, run_procedure, run_verb,
}
use ax25_ts.Session.Actions.Verbs.{
  Verb, is_ignored, next_t1_2_srt, replaced, set_version_2_0, srt_initial_default, t1v_2_srt,
}

ruleset good_rules = (
  frame_then-Good, s_frame-Good, u_frame-Good, send_ui-Good, emit_i_frame-Good,
  emit_old_i_frame-Good, data_indication-Good, push_data-Good, retrieve_stored-Good, establish-Good,
  advanced-Good, check_acknowledged-Good, decrement_sreject-Good,
)

module _ (here there : Callsign) (d : Dispatcher) (h : KeepsStations here there d) where
  frozen-Good :
      (tx : Transition) (ctx : SessionContext)
      → IsAddressed here there tx
      → IsAddressed here there (record tx { context = ctx })
      → OnOk (IsAddressed here there) (if d.freeze_t1v then ok tx else with_context tx ctx)
  frozen-Good tx ctx a b = if-Good here there d.freeze_t1v (ok tx) (with_context tx ctx) a b

  run_verb-IsAddressed :
      (tx : Transition) (verb : Verb)
      → IsAddressed here there tx
      → OnOk (IsAddressed here there) (run_verb d tx verb)
  unfolding run_verb run_output run_procedure arm_t1 arm_t3 cancel_t3 halt_t1 clear_conditions
      next_t1 sample_srt emit_upward save_incoming
  run_verb-IsAddressed tx srt_initial_default a =
      frozen-Good tx (record tx.context { srt_ms = whole_ms 3000 }) a a
  run_verb-IsAddressed tx t1v_2_srt a =
      frozen-Good tx (record tx.context { t1v_ms = times_ms 2 tx.context.srt_ms }) a a
  run_verb-IsAddressed tx next_t1_2_srt a =
      frozen-Good tx (record tx.context { t1v_ms = times_ms 2 tx.context.srt_ms }) a a
  run_verb-IsAddressed tx set_version_2_0 a =
      let kept = h.set_version_20 tx.context in (kept.0 ∙ a.0, (kept.1 ∙ (a.1).0, (a.1).1))
  run_verb-IsAddressed tx _ a = search (
    good_rules, h.invoke, h.send_xid_command, h.apply_negotiated, h.send_mdl,
    h.on_mdl_negotiate_request,
  )

  execute_verb-IsAddressed :
      (tx : Transition) (verb : Verb)
      → IsAddressed here there tx
      → OnOk (IsAddressed here there) (execute_verb d tx verb)
  unfolding execute_verb
  execute_verb-IsAddressed tx verb a = elim (Bool-cases (is_ignored tx verb)) [
    | inl ignored ↦ rw ignored a
    | inr heeded ↦ rw heeded (run_verb-IsAddressed tx (replaced tx verb) a)
  ]

  then-IsAddressed :
      (o : Outcome) (next : Transition → Outcome)
      → OnOk (IsAddressed here there) o
      → ((tx : Transition) → IsAddressed here there tx → OnOk (IsAddressed here there) (next tx))
      → OnOk (IsAddressed here there) (outcome_then o next)
  unfolding outcome_then
  then-IsAddressed (ok tx) next a k = k tx a
  then-IsAddressed (err e) next a k = tt

  execute_all-IsAddressed :
      (verbs : List Verb) (tx : Transition)
      → IsAddressed here there tx
      → OnOk (IsAddressed here there) (execute d verbs tx)
  unfolding execute
  execute_all-IsAddressed [] tx a = a
  execute_all-IsAddressed (verb ∷ verbs) tx a =
      then-IsAddressed (execute_verb d tx verb) _ (execute_verb-IsAddressed tx verb a)
        (λ after b. execute_all-IsAddressed verbs after b)

-- Whatever verbs a state table gives, in whatever order, and whatever event they answer: when all the
-- frames sent so far went from this station of the session to the other one, so do all that are sent
-- after the verbs have been carried out, and the two stations of the session are the same as before,
-- unless a verb throws. The subroutines and the hooks that the dispatcher is given do the same.
pub execute-IsAddressed :
    (here there : Callsign) (d : Dispatcher) (verbs : List Verb) (tx : Transition)
    → KeepsStations here there d
    → IsAddressed here there tx
    → OnOk (IsAddressed here there) (execute d verbs tx)
execute-IsAddressed here there d verbs tx h a = execute_all-IsAddressed here there d h verbs tx a
