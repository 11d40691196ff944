-- ===== src/Session/Bindings.antt =====
-- sdl/session-bindings.ts: the guards of the state tables, on the context, the event that is handled and
-- the T1 timer. The quirks are read at each test: the source reads the one for the flow when it makes
-- the bindings, so that a change of it after that has no effect there.
use ax25_ts.Base.{
  Bool, Option, false, if◌then◌else◌, leb, length, ltb, none, not, some, true, ℕ, ◌%◌, ◌&&◌, ◌==◌,
  ◌||◌,
}
use ax25_ts.Frame.{
  Ax25Frame, control_rnr, control_rr, get_nr, get_ns, is_command, is_response, poll_final,
}
use ax25_ts.SegmentationLayer.{DataUnit}
use ax25_ts.Session.{SessionContext, ahead, effective_window, get_entry, modulus}

pub data Guard : Type 0 where
  guard_own_receiver_busy guard_peer_receiver_busy guard_ack_pending : Guard
  guard_reject_exception guard_layer_3_initiated guard_srej_enabled guard_version_2_2 : Guard
  guard_sreject_exception_gt_0 guard_able_to_establish : Guard
  guard_vs_eq_va guard_vs_eq_va_plus_k guard_t1_running guard_rc_eq_n2 guard_rc_eq_0 : Guard
  guard_vr_i_frame_stored guard_mod_128 guard_mod_8 guard_t1_expired : Guard
  guard_out_of_sequence_frames_in_receive_buffer guard_vs_eq_x : Guard
  guard_p_eq_1 guard_f_eq_1 guard_p_or_f_eq_1 guard_command guard_response : Guard
  guard_ns_eq_vr guard_ns_gt_vr_plus_1 guard_vr_lt_ns_lt_vr_plus_k guard_va_le_nr_le_vs : Guard
  guard_info_field_length_le_n1 : Guard
  guard_nr_eq_vs guard_vs_eq_nr guard_nr_eq_va : Guard
  guard_command_and_p_eq_1 guard_response_and_f_eq_1 guard_f_eq_1_and_rr_rnr_or_i : Guard

-- What is handled: a received frame, or an event without one, of which only the request to stop the
-- flow is told apart.
pub data Trigger : Type 0 where
  frame_in : Ax25Frame → Trigger
  dl_flow_off_request : Trigger
  other_event : Trigger

-- A test on the frame, false without one.
abbrev pub on_frame : Trigger → (Ax25Frame → Bool) → Bool
on_frame (frame_in f) test_of = test_of f
on_frame dl_flow_off_request test_of = false
on_frame other_event test_of = false

abbrev pub is_dl_flow_off : Trigger → Bool
is_dl_flow_off dl_flow_off_request = true
is_dl_flow_off (frame_in f) = false
is_dl_flow_off other_event = false

abbrev pub is_some_entry : Option DataUnit → Bool
is_some_entry none = false
is_some_entry (some u) = true

abbrev pub vs_is_x : ℕ → Option ℕ → Bool
vs_is_x vs none = false
vs_is_x vs (some x) = vs == x

unfoldable pub window_full : SessionContext → Bool
window_full ctx = leb (effective_window ctx) (ahead (modulus ctx) ctx.vs ctx.va)

unfoldable pub in_receive_window : SessionContext → ℕ → Bool
in_receive_window ctx ns =
    let offset = ahead (modulus ctx) ns ctx.vr in ltb 0 offset && ltb offset (effective_window ctx)

unfoldable pub acknowledges : SessionContext → ℕ → Bool
acknowledges ctx nr =
    let span = ahead (modulus ctx) ctx.vs ctx.va in
    let nr_delta = ahead (modulus ctx) nr ctx.va in leb nr_delta span

abbrev pub is_rr_rnr_or_i : ℕ → Bool
is_rr_rnr_or_i control =
    control % 2 == 0 || control % 16 == control_rr || control % 16 == control_rnr

unfoldable pub holds : Guard → SessionContext → Bool → Trigger → Bool
holds guard_own_receiver_busy ctx t1 e =
    if ctx.quirks.dl_flow_off_enters_busy && is_dl_flow_off e
    then not ctx.own_receiver_busy
    else ctx.own_receiver_busy
holds guard_peer_receiver_busy ctx t1 e = ctx.peer_receiver_busy
holds guard_ack_pending ctx t1 e = ctx.acknowledge_pending
holds guard_reject_exception ctx t1 e = ctx.reject_exception
holds guard_layer_3_initiated ctx t1 e = ctx.layer_3_initiated
holds guard_srej_enabled ctx t1 e = ctx.srej_enabled
holds guard_version_2_2 ctx t1 e = ctx.is_extended
holds guard_sreject_exception_gt_0 ctx t1 e = ltb 0 ctx.srej_exception_count
holds guard_able_to_establish ctx t1 e = ctx.accept_incoming
holds guard_vs_eq_va ctx t1 e = ctx.vs == ctx.va
holds guard_vs_eq_va_plus_k ctx t1 e = window_full ctx
holds guard_t1_running ctx t1 e = t1
holds guard_rc_eq_n2 ctx t1 e = ctx.rc == ctx.n2
holds guard_rc_eq_0 ctx t1 e = ctx.rc == 0
holds guard_vr_i_frame_stored ctx t1 e =
    is_some_entry (get_entry ctx.vr ctx.stored_received_i_frames)
holds guard_mod_128 ctx t1 e = ctx.is_extended
holds guard_mod_8 ctx t1 e = not ctx.is_extended
holds guard_t1_expired ctx t1 e = ctx.t1_had_expired
holds guard_out_of_sequence_frames_in_receive_buffer ctx t1 e =
    ltb 0 (length ctx.stored_received_i_frames)
holds guard_vs_eq_x ctx t1 e = vs_is_x ctx.vs ctx.x
holds guard_p_eq_1 ctx t1 e = on_frame e poll_final
holds guard_f_eq_1 ctx t1 e = on_frame e poll_final
holds guard_p_or_f_eq_1 ctx t1 e = on_frame e poll_final
holds guard_command ctx t1 e = on_frame e is_command
holds guard_response ctx t1 e = on_frame e is_response
holds guard_ns_eq_vr ctx t1 e = on_frame e (λ f. get_ns f == ctx.vr)
holds guard_ns_gt_vr_plus_1 ctx t1 e =
    on_frame e (λ f. ltb 1 (ahead (modulus ctx) (get_ns f) ctx.vr))
holds guard_vr_lt_ns_lt_vr_plus_k ctx t1 e = on_frame e (λ f. in_receive_window ctx (get_ns f))
holds guard_va_le_nr_le_vs ctx t1 e = on_frame e (λ f. acknowledges ctx (get_nr f))
holds guard_info_field_length_le_n1 ctx t1 e = on_frame e (λ f. leb (length f.info) ctx.n1)
holds guard_nr_eq_vs ctx t1 e = on_frame e (λ f. get_nr f == ctx.vs)
holds guard_vs_eq_nr ctx t1 e = on_frame e (λ f. ctx.vs == get_nr f)
holds guard_nr_eq_va ctx t1 e = on_frame e (λ f. get_nr f == ctx.va)
holds guard_command_and_p_eq_1 ctx t1 e = on_frame e (λ f. is_command f && poll_final f)
holds guard_response_and_f_eq_1 ctx t1 e = on_frame e (λ f. is_response f && poll_final f)
holds guard_f_eq_1_and_rr_rnr_or_i ctx t1 e =
    on_frame e (λ f. poll_final f && is_rr_rnr_or_i f.control)
