-- ===== src/Session/Actions/Execute.antt =====
-- sdl/action-dispatcher.ts (execute, executeVerb): the verbs carried out one after another.
use ax25_ts.Base.{List, [], err, false, if◌then◌else◌, none, ok, some, true, ◌+◌, ◌∷◌}
use ax25_ts.Frame.{get_nr, get_ns, poll_final}
use ax25_ts.Session.{advance_va, decrement_seq, get_entry, increment_seq, times_ms, whole_ms}
use ax25_ts.Session.Actions.{
  Outcome, Transition, build_s_frame, build_u_frame, default_pid, disc_type, dl_connect_confirm,
  dl_connect_indication, dl_disconnect_confirm, dl_disconnect_indication, dl_error_indication,
  dl_unit_data_indication, dm_type, emit_i_frame, emit_old_i_frame, mdl_error_indicate,
  mdl_negotiate_confirm, or_value, rej_type, rnr_type, rr_type, sabm_type, sabme_type, send_frame,
  send_ui, srej_type, ua_type, unknown_action, with_context,
}
use ax25_ts.Session.Actions.Effects.{
  Dispatcher, arm_t1, arm_t3, cancel_t3, check_acknowledged_by, clear_conditions, data_indication,
  decrement_sreject, emit_upward, establish, established, halt_t1, next_t1, push_data,
  retrieve_stored, sample_srt, save_incoming, sub_check_need_for_response, sub_enquiry_response_f_0,
  sub_enquiry_response_f_1, sub_invoke_retransmission, sub_nr_error_recovery, sub_select_t1_value,
  sub_transmit_enquiry, to_mod_8, with_frame, with_pending,
}
use ax25_ts.Session.Actions.Verbs.{
  Verb, apply_negotiated_parameters, backtrack, check_i_frame_acknowledged, check_need_for_response,
  clear_acknowledge_pending, clear_exception_conditions, clear_layer_3_initiated,
  clear_own_receiver_busy, clear_peer_receiver_busy, clear_reject_condition, clear_reject_exception,
  clear_sreject_condition, decrement_sreject_exception_if_gt_0, disc_p_1,
  discard_contents_of_i_frame, discard_frame_queue, discard_i_frame, discard_i_frame_queue,
  discard_i_queue_entries, discard_primitive, discard_queue, dm_f_1, dm_response_f_0, dm_verb,
  enquiry_response_f_0, enquiry_response_f_1, establish_data_link, expedited_dm, expedited_ua, f_0,
  f_1, f_p, i_command, increment_sreject_exception, invoke_retransmission, is_ignored, k_32, k_8,
  lm_data_request, lm_release_request, lm_seize_request, mdl_negotiate_request, modulo_128,
  modulo_8, n1_2048, n2_10, next_t1_2_srt, next_t1_rc_srt, nr_error_recovery, nr_ns, nr_recovery,
  nr_vr, ns_vs, p_0, p_1, push_frame_on_queue, push_i_frame_on_i_queue,
  push_old_i_frame_nr_on_queue, push_old_i_frame_onto_queue, push_on_i_frame_queue,
  push_on_i_frame_queue_note, rc_0, rc_1, rc_plus_1, rej_verb, replaced, retrieve_stored_vr_i_frame,
  rnr_command, rnr_response, rnr_response_f_0, rnr_verb, rr_command, rr_command_p_0, rr_response,
  rr_verb, sabm_p_eq_1, sabm_verb, sabme_p_1, sabme_verb, save_contents_of_i_frame, select_t1_value,
  set_acknowledge_pending, set_half_duplex, set_implicit_reject, set_layer_3_initiated,
  set_own_receiver_busy, set_peer_receiver_busy, set_reject_exception, set_selective_reject,
  set_version_2_0, set_version_2_2, signal_connect_confirm, signal_connect_indication,
  signal_data_indication, signal_disconnect_confirm, signal_disconnect_indication, signal_error,
  signal_mdl_error_b, signal_mdl_error_c, signal_mdl_error_d, signal_mdl_negotiate_confirm,
  signal_unit_data_indication, srej_verb, sreject_plus_1, srt_initial_default, srt_sample, start_t1,
  start_t3, start_tm201, stop_t1, stop_t3, stop_tm201, t1v_2_srt, t2_3000, transmit_enquery,
  transmit_enquiry, ua_verb, ui_check, ui_command, va_0, va_nr, vr_0, vr_minus_1, vr_plus_1, vs_0,
  vs_nr, vs_plus_1, x_vs, xid_command,
}

-- The last third of the `switch`: the links to the other machines, the queues, the procedures and the
-- subroutines.
unfoldable pub run_procedure : Dispatcher → Transition → Verb → Outcome
run_procedure d tx lm_seize_request = ok (record tx { seize_confirms = tx.seize_confirms + 1 })
run_procedure d tx lm_release_request = ok tx
run_procedure d tx lm_data_request = ok tx
run_procedure d tx ui_check = ok tx
run_procedure d tx mdl_negotiate_request = d.on_mdl_negotiate_request tx
run_procedure d tx xid_command = d.send_xid_command tx
run_procedure d tx start_tm201 =
    ok (record tx { scheduler = record tx.scheduler { tm201 = some d.tm201_ms } })
run_procedure d tx stop_tm201 = ok (record tx { scheduler = record tx.scheduler { tm201 = none } })
run_procedure d tx apply_negotiated_parameters = d.apply_negotiated tx
run_procedure d tx signal_mdl_negotiate_confirm = d.send_mdl mdl_negotiate_confirm tx
run_procedure d tx signal_mdl_error_b = d.send_mdl (mdl_error_indicate 0x42) tx
run_procedure d tx signal_mdl_error_c = d.send_mdl (mdl_error_indicate 0x43) tx
run_procedure d tx signal_mdl_error_d = d.send_mdl (mdl_error_indicate 0x44) tx
run_procedure d tx push_frame_on_queue = push_data tx tx.event.data_octets
run_procedure d tx push_on_i_frame_queue = push_data tx tx.event.data_octets
run_procedure d tx push_on_i_frame_queue_note = push_data tx tx.event.data_octets
run_procedure d tx push_i_frame_on_i_queue = push_data tx tx.event.data_octets
run_procedure d tx push_old_i_frame_nr_on_queue =
    with_frame tx (λ frame. emit_old_i_frame tx (get_nr frame) true)
run_procedure d tx push_old_i_frame_onto_queue = emit_old_i_frame tx tx.context.vs false
run_procedure d tx save_contents_of_i_frame =
    with_frame tx (λ frame. with_context tx (save_incoming frame tx.context))
run_procedure d tx retrieve_stored_vr_i_frame =
    ok (retrieve_stored tx (get_entry tx.context.vr tx.context.stored_received_i_frames))
run_procedure d tx establish_data_link = established (establish tx)
run_procedure d tx check_i_frame_acknowledged = ok (check_acknowledged_by d tx tx.event.frame)
run_procedure d tx check_need_for_response = d.invoke sub_check_need_for_response tx
run_procedure d tx transmit_enquiry = d.invoke sub_transmit_enquiry tx
run_procedure d tx transmit_enquery = d.invoke sub_transmit_enquiry tx
run_procedure d tx invoke_retransmission = d.invoke sub_invoke_retransmission tx
run_procedure d tx nr_error_recovery = d.invoke sub_nr_error_recovery tx
run_procedure d tx nr_recovery = d.invoke sub_nr_error_recovery tx
run_procedure d tx enquiry_response_f_0 = d.invoke sub_enquiry_response_f_0 tx
run_procedure d tx enquiry_response_f_1 = d.invoke sub_enquiry_response_f_1 tx
run_procedure d tx select_t1_value = d.invoke sub_select_t1_value tx
run_procedure d tx _ = err unknown_action

-- The second third: the frames and the signals.
unfoldable pub run_output : Dispatcher → Transition → Verb → Outcome
run_output d tx rr_command = send_frame tx (build_s_frame tx rr_type true)
run_output d tx rr_command_p_0 = send_frame tx (build_s_frame tx rr_type true)
run_output d tx rr_verb = send_frame tx (build_s_frame tx rr_type false)
run_output d tx rr_response = send_frame tx (build_s_frame tx rr_type false)
run_output d tx rnr_command = send_frame tx (build_s_frame tx rnr_type true)
run_output d tx rnr_response = send_frame tx (build_s_frame tx rnr_type false)
run_output d tx rnr_response_f_0 = send_frame tx (build_s_frame tx rnr_type false)
run_output d tx rnr_verb = send_frame tx (build_s_frame tx rnr_type false)
run_output d tx rej_verb = send_frame tx (build_s_frame tx rej_type false)
run_output d tx srej_verb = send_frame tx (build_s_frame tx srej_type false)
run_output d tx ua_verb = send_frame tx (build_u_frame tx ua_type none)
run_output d tx expedited_ua = send_frame tx (build_u_frame tx ua_type none)
run_output d tx dm_verb = send_frame tx (build_u_frame tx dm_type none)
run_output d tx expedited_dm = send_frame tx (build_u_frame tx dm_type none)
run_output d tx dm_f_1 = send_frame tx (build_u_frame tx dm_type (some true))
run_output d tx dm_response_f_0 = send_frame tx (build_u_frame tx dm_type (some false))
run_output d tx sabm_verb = send_frame tx (build_u_frame tx sabm_type (some true))
run_output d tx sabm_p_eq_1 = send_frame tx (build_u_frame tx sabm_type (some true))
run_output d tx sabme_verb = send_frame tx (build_u_frame tx sabme_type (some true))
run_output d tx sabme_p_1 = send_frame tx (build_u_frame tx sabme_type (some true))
run_output d tx disc_p_1 = send_frame tx (build_u_frame tx disc_type (some true))
run_output d tx ui_command = send_ui tx tx.event.data_octets
run_output d tx i_command = emit_i_frame tx
run_output d tx signal_connect_indication = ok (emit_upward tx dl_connect_indication)
run_output d tx signal_connect_confirm = ok (emit_upward tx dl_connect_confirm)
run_output d tx signal_disconnect_indication = ok (emit_upward tx dl_disconnect_indication)
run_output d tx signal_disconnect_confirm = ok (emit_upward tx dl_disconnect_confirm)
run_output d tx signal_data_indication = data_indication tx tx.retrieved_stored_frame
run_output d tx signal_unit_data_indication = with_frame tx (λ frame. ok (
    emit_upward tx (
      dl_unit_data_indication
        (record { bytes = frame.info; pid = or_value frame.pid default_pid }))))
run_output d tx (signal_error code) = ok (emit_upward tx (dl_error_indication code))
run_output d tx verb = run_procedure d tx verb

-- The first third: the variables, the timers and the fields of the next frame.
unfoldable pub run_verb : Dispatcher → Transition → Verb → Outcome
run_verb d tx set_own_receiver_busy =
    with_context tx (record tx.context { own_receiver_busy = true })
run_verb d tx clear_own_receiver_busy =
    with_context tx (record tx.context { own_receiver_busy = false })
run_verb d tx set_peer_receiver_busy =
    with_context tx (record tx.context { peer_receiver_busy = true })
run_verb d tx clear_peer_receiver_busy =
    with_context tx (record tx.context { peer_receiver_busy = false })
run_verb d tx set_acknowledge_pending =
    with_context tx (record tx.context { acknowledge_pending = true })
run_verb d tx clear_acknowledge_pending =
    with_context tx (record tx.context { acknowledge_pending = false })
run_verb d tx set_layer_3_initiated =
    with_context tx (record tx.context { layer_3_initiated = true })
run_verb d tx clear_layer_3_initiated =
    with_context tx (record tx.context { layer_3_initiated = false })
run_verb d tx start_t1 = ok (arm_t1 tx)
run_verb d tx start_t3 = ok (arm_t3 d tx)
run_verb d tx stop_t1 = ok (halt_t1 tx)
run_verb d tx stop_t3 = ok (cancel_t3 tx)
run_verb d tx discard_frame_queue = with_context tx (record tx.context { i_frame_queue = [] })
run_verb d tx discard_i_frame_queue = with_context tx (record tx.context { i_frame_queue = [] })
run_verb d tx discard_i_queue_entries = with_context tx (record tx.context { i_frame_queue = [] })
run_verb d tx discard_queue = with_context tx (record tx.context { i_frame_queue = [] })
run_verb d tx discard_i_frame = ok tx
run_verb d tx discard_contents_of_i_frame = ok tx
run_verb d tx discard_primitive = ok tx
run_verb d tx set_reject_exception = with_context tx (record tx.context { reject_exception = true })
run_verb d tx clear_reject_condition =
    with_context tx (record tx.context { reject_exception = false })
run_verb d tx clear_reject_exception =
    with_context tx (record tx.context { reject_exception = false })
run_verb d tx clear_sreject_condition =
    with_context tx
      (record tx.context { selective_reject_exception = false; srej_exception_count = 0 })
run_verb d tx increment_sreject_exception = with_context tx (record tx.context {
  srej_exception_count = tx.context.srej_exception_count + 1;
  selective_reject_exception = true;
})
run_verb d tx sreject_plus_1 = with_context tx (record tx.context {
  srej_exception_count = tx.context.srej_exception_count + 1;
  selective_reject_exception = true;
})
run_verb d tx decrement_sreject_exception_if_gt_0 = with_context tx (decrement_sreject tx.context)
run_verb d tx clear_exception_conditions = with_context tx (clear_conditions tx.context)
run_verb d tx set_version_2_0 = with_context tx (or_value d.set_version_20 to_mod_8 tx.context)
run_verb d tx set_version_2_2 = with_context tx (record tx.context { is_extended = true })
run_verb d tx modulo_8 = with_context tx (to_mod_8 tx.context)
run_verb d tx modulo_128 = with_context tx (record tx.context { is_extended = true })
run_verb d tx set_half_duplex = with_context tx (record tx.context { half_duplex = true })
run_verb d tx set_implicit_reject =
    with_context tx (record tx.context { implicit_reject = true; srej_enabled = false })
run_verb d tx set_selective_reject =
    with_context tx (record tx.context { implicit_reject = false; srej_enabled = true })
run_verb d tx n1_2048 = with_context tx (record tx.context { n1 = 2048 })
run_verb d tx k_8 = with_context tx (record tx.context { k = 8 })
run_verb d tx k_32 = with_context tx (record tx.context { k = 32 })
run_verb d tx t2_3000 = with_context tx (record tx.context { t2_ms = 3000 })
run_verb d tx n2_10 = with_context tx (record tx.context { n2 = 10 })
run_verb d tx srt_initial_default =
    if d.freeze_t1v then ok tx else with_context tx (record tx.context { srt_ms = whole_ms 3000 })
run_verb d tx t1v_2_srt =
    if d.freeze_t1v
    then ok tx
    else with_context tx (record tx.context { t1v_ms = times_ms 2 tx.context.srt_ms })
run_verb d tx next_t1_2_srt =
    if d.freeze_t1v
    then ok tx
    else with_context tx (record tx.context { t1v_ms = times_ms 2 tx.context.srt_ms })
run_verb d tx next_t1_rc_srt = with_context tx (next_t1 d tx.context)
run_verb d tx srt_sample = with_context tx (sample_srt d tx.context)
run_verb d tx vs_0 = with_context tx (record tx.context { vs = 0 })
run_verb d tx vs_plus_1 =
    with_context tx (record tx.context { vs = increment_seq tx.context tx.context.vs })
run_verb d tx vr_0 = with_context tx (record tx.context { vr = 0 })
run_verb d tx vr_plus_1 =
    with_context tx (record tx.context { vr = increment_seq tx.context tx.context.vr })
run_verb d tx vr_minus_1 =
    with_context tx (record tx.context { vr = decrement_seq tx.context tx.context.vr })
run_verb d tx va_0 = with_context tx (record tx.context { va = 0 })
run_verb d tx rc_0 = with_context tx (record tx.context { rc = 0 })
run_verb d tx rc_1 = with_context tx (record tx.context { rc = 1 })
run_verb d tx rc_plus_1 = with_context tx (record tx.context { rc = tx.context.rc + 1 })
run_verb d tx va_nr =
    with_frame tx (λ frame. with_context tx (advance_va tx.context (get_nr frame)))
run_verb d tx vs_nr =
    with_frame tx (λ frame. with_context tx (record tx.context { vs = get_nr frame }))
run_verb d tx x_vs = with_context tx (record tx.context { x = some tx.context.vs })
run_verb d tx backtrack = ok tx
run_verb d tx nr_vr = with_pending tx (record tx.pending { nr = some tx.context.vr })
run_verb d tx ns_vs = with_pending tx (record tx.pending { ns = some tx.context.vs })
run_verb d tx nr_ns =
    with_frame tx (λ frame. with_pending tx (record tx.pending { nr = some (get_ns frame) }))
run_verb d tx f_0 = with_pending tx (record tx.pending { pf_bit = some false })
run_verb d tx f_1 = with_pending tx (record tx.pending { pf_bit = some true })
run_verb d tx f_p =
    with_frame tx
      (λ frame. with_pending tx (record tx.pending { pf_bit = some (poll_final frame) }))
run_verb d tx p_0 = with_pending tx (record tx.pending { pf_bit = some false })
run_verb d tx p_1 = with_pending tx (record tx.pending { pf_bit = some true })
run_verb d tx verb = run_output d tx verb

unfoldable pub execute_verb : Dispatcher → Transition → Verb → Outcome
execute_verb d tx verb = if is_ignored tx verb then ok tx else run_verb d tx (replaced tx verb)

-- The first throw ends the steps.
unfoldable pub outcome_then : Outcome → (Transition → Outcome) → Outcome
outcome_then (err e) next = err e
outcome_then (ok tx) next = next tx

unfoldable pub execute : Dispatcher → List Verb → Transition → Outcome
execute d [] tx = ok tx
execute d (verb ∷ verbs) tx = outcome_then (execute_verb d tx verb) (λ after. execute d verbs after)
