-- ===== src/Session/Actions/Verbs.antt =====
-- sdl/action-dispatcher.ts (executeVerb): the verbs of the state tables, and those that a quirk of the
-- session replaces or passes over before they are carried out.
use ax25_ts.Base.{Bool, List, Option, false, if◌then◌else◌, none, some, true, ℕ, ◌&&◌}
use ax25_ts.Frame.{Ax25Frame, is_command}
use ax25_ts.Session.Actions.{
  EventName, Transition, dl_data_request, i_received, other_name, srej_received,
}

-- One constructor for each text that the `switch` knows. The error texts of `DL_ERROR_indication` are
-- one constructor with the code.
pub data Verb : Type 0 where
  set_own_receiver_busy clear_own_receiver_busy set_peer_receiver_busy clear_peer_receiver_busy :
      Verb
  set_acknowledge_pending clear_acknowledge_pending set_layer_3_initiated clear_layer_3_initiated :
      Verb
  start_t1 start_t3 stop_t1 stop_t3 : Verb
  discard_frame_queue discard_i_frame_queue discard_i_queue_entries discard_queue : Verb
  discard_i_frame discard_contents_of_i_frame discard_primitive : Verb
  set_reject_exception clear_reject_condition clear_reject_exception clear_sreject_condition : Verb
  increment_sreject_exception sreject_plus_1 decrement_sreject_exception_if_gt_0 : Verb
  clear_exception_conditions : Verb
  set_version_2_0 set_version_2_2 modulo_8 modulo_128 set_half_duplex set_implicit_reject : Verb
  set_selective_reject n1_2048 k_8 k_32 t2_3000 n2_10 : Verb
  srt_initial_default t1v_2_srt next_t1_2_srt next_t1_rc_srt srt_sample : Verb
  vs_0 vs_plus_1 vr_0 vr_plus_1 vr_minus_1 va_0 rc_0 rc_1 rc_plus_1 va_nr vs_nr x_vs backtrack :
      Verb
  nr_vr ns_vs nr_ns f_0 f_1 f_p p_0 p_1 : Verb
  rr_command rr_command_p_0 rr_verb rr_response rnr_command rnr_response rnr_response_f_0 rnr_verb :
      Verb
  rej_verb srej_verb : Verb
  ua_verb expedited_ua dm_verb expedited_dm dm_f_1 dm_response_f_0 sabm_verb sabm_p_eq_1
        sabme_verb :
      Verb
  sabme_p_1 disc_p_1 ui_command i_command : Verb
  signal_connect_indication signal_connect_confirm signal_disconnect_indication : Verb
  signal_disconnect_confirm signal_data_indication signal_unit_data_indication : Verb
  lm_seize_request lm_release_request lm_data_request mdl_negotiate_request xid_command
        start_tm201 :
      Verb
  stop_tm201 apply_negotiated_parameters signal_mdl_negotiate_confirm signal_mdl_error_b : Verb
  signal_mdl_error_c signal_mdl_error_d : Verb
  push_frame_on_queue push_on_i_frame_queue push_on_i_frame_queue_note push_i_frame_on_i_queue :
      Verb
  push_old_i_frame_nr_on_queue push_old_i_frame_onto_queue save_contents_of_i_frame : Verb
  retrieve_stored_vr_i_frame establish_data_link ui_check check_i_frame_acknowledged : Verb
  check_need_for_response transmit_enquiry transmit_enquery invoke_retransmission
        nr_error_recovery :
      Verb
  nr_recovery enquiry_response_f_0 enquiry_response_f_1 select_t1_value : Verb
  signal_error : List ℕ → Verb

-- The verbs of a selective reject that is a command and is ignored.
unfoldable pub is_passed_over : Verb → Bool
is_passed_over push_old_i_frame_nr_on_queue = true
is_passed_over push_frame_on_queue = true
is_passed_over push_on_i_frame_queue = true
is_passed_over push_on_i_frame_queue_note = true
is_passed_over push_i_frame_on_i_queue = true
is_passed_over lm_data_request = true
is_passed_over stop_t3 = true
is_passed_over start_t1 = true
is_passed_over clear_acknowledge_pending = true
is_passed_over invoke_retransmission = true
is_passed_over _ = false

abbrev pub is_name : EventName → EventName → Bool
is_name srej_received srej_received = true
is_name i_received i_received = true
is_name dl_data_request dl_data_request = true
is_name other_name other_name = true
is_name _ _ = false

unfoldable pub is_command_frame : Option Ax25Frame → Bool
is_command_frame none = false
is_command_frame (some frame) = is_command frame

unfoldable pub is_ignored : Transition → Verb → Bool
is_ignored tx verb =
    tx.context.quirks.srej_command_ignored
    && is_name tx.event.name srej_received
    && is_command_frame tx.event.frame
    && is_passed_over verb

-- `verb = "N(r) := V(r)"` and `verb = "V(r) := V(r) + 1"`.
unfoldable pub replaced : Transition → Verb → Verb
replaced tx nr_ns =
    if tx.context.quirks.srej_targets_gap && is_name tx.event.name i_received then nr_vr else nr_ns
replaced tx vr_minus_1 =
    if tx.context.quirks.timer_recovery_drain_advances_vr then vr_plus_1 else vr_minus_1
replaced tx verb = verb
