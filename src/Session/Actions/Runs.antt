-- ===== src/Session/Actions/Runs.antt =====
-- sdl/action-dispatcher.ts on a session that has sent three frames.
use ax25_ts.Base.{List, [], arith, err, false, length, none, ok, refl, some, true, ℕ, ◌∷◌, ◌≡◌, ◌⊎◌}
use ax25_ts.Callsign.{Callsign}
use ax25_ts.Frame.Decode.{and_then, require}
use ax25_ts.Frame.Factory.{digipeater_chain, frame_on, i_frame, make_address_chain}
use ax25_ts.SegmentationLayer.{DataUnit}
use ax25_ts.Session.{
  SessionContext, SessionQuirks, create_session_context, get_entry, is_outstanding, minus_ms,
  plus_ms, whole_ms,
}
use ax25_ts.Session.Actions.{
  Outcome, Transition, emit_old_i_frame, has_number, or_value, other_name, path_of, resend_entry,
  send_frame,
}
use ax25_ts.Session.Actions.Addressed.{IsAddressed, KeepsStations, OnOk}
use ax25_ts.Session.Actions.Effects.{Dispatcher, sample_srt}
use ax25_ts.Session.Actions.Execute.{execute}
use ax25_ts.Session.Actions.Replay.{IsResent, emit_old_i_frame-once}
use ax25_ts.Session.Actions.Stations.{execute-IsAddressed}
use ax25_ts.Session.Actions.Verbs.{
  Verb, check_i_frame_acknowledged, establish_data_link, i_command, rr_command, start_t1, vs_plus_1,
}

abbrev gb7 : Callsign
gb7 = record { base = 0x47 ∷ 0x42 ∷ 0x37 ∷ []; ssid = 0 }

abbrev ze1 : Callsign
ze1 = record { base = 0x5a ∷ 0x45 ∷ 0x31 ∷ []; ssid = 2 }

abbrev quirks : SessionQuirks
quirks = record {
  clamp_srej_window_to_half_modulus = true;
  dl_flow_off_enters_busy = true;
  srej_command_ignored = true;
  srej_targets_gap = true;
  karn_srt_sampling = true;
  timer_recovery_drain_advances_vr = true;
}

abbrev unit_of : ℕ → DataUnit
unit_of b = record { bytes = b ∷ []; pid = 0xf0 }

-- Frames 6, 7 and 0 are outstanding.
abbrev start : Transition
start = record {
  context = record (create_session_context quirks gb7 ze1) {
    va = 6;
    vs = 1;
    vr = 3;
    sent_i_frames = (6, unit_of 60) ∷ (7, unit_of 70) ∷ (0, unit_of 80) ∷ [];
  };
  scheduler = record { t1 = none; t3 = none; tm201 = none };
  event = record { name = other_name; frame = none; data_octets = some (0x68 ∷ []); pid = none };
  pending = record { nr = none; ns = none; pf_bit = none };
  retrieved_stored_frame = none;
  sent = [];
  upward = [];
  seize_confirms = 0;
}

abbrev plain : Dispatcher
plain = record {
  freeze_t1v = false;
  t3_ms = 30000;
  tm201_ms = 3000;
  invoke = λ s tx. ok tx;
  set_version_20 = none;
  send_xid_command = λ tx. ok tx;
  apply_negotiated = λ tx. ok tx;
  send_mdl = λ s tx. ok tx;
  on_mdl_negotiate_request = λ tx. ok tx;
}

plain-KeepsStations : KeepsStations gb7 ze1 plain
unfolding or_value
plain-KeepsStations = record {
  invoke = λ s tx a. a;
  set_version_20 = λ ctx. (refl, refl);
  send_xid_command = λ tx a. a;
  apply_negotiated = λ tx a. a;
  send_mdl = λ s tx a. a;
  on_mdl_negotiate_request = λ tx a. a;
}

abbrev actions : List Verb
actions =
    i_command ∷ vs_plus_1 ∷ start_t1 ∷ rr_command ∷ check_i_frame_acknowledged ∷ establish_data_link
    ∷ []

execute-IsAddressed_example : OnOk (IsAddressed gb7 ze1) (execute plain actions start)
unfolding create_session_context
execute-IsAddressed_example =
    execute-IsAddressed gb7 ze1 plain actions start plain-KeepsStations (refl, (refl, tt))

abbrev value_of : Outcome → Transition → Transition
value_of (ok tx) d = tx
value_of (err e) d = d

abbrev after_seven : Transition
after_seven = value_of (emit_old_i_frame start 7 true) start

emit_old_i_frame-once_example :
    (emit_old_i_frame after_seven 7 true ≡ ok after_seven)
    × ((after_seven.sent ≡ start.sent) ⊎ IsResent start 7 after_seven)
unfolding create_session_context emit_old_i_frame is_outstanding has_number resend_entry get_entry
    send_frame i_frame frame_on make_address_chain digipeater_chain and_then require path_of
emit_old_i_frame-once_example =
    emit_old_i_frame-once start 7 after_seven (omega arith) (omega arith) refl

one_frame_sent : length after_seven.sent ≡ 1
unfolding create_session_context emit_old_i_frame is_outstanding has_number resend_entry get_entry
    send_frame i_frame frame_on make_address_chain digipeater_chain and_then require path_of
one_frame_sent = refl

abbrev after_ack : SessionContext
after_ack = record (create_session_context quirks gb7 ze1) {
  t1_remaining_when_last_stopped_ms = whole_ms 2000;
}

-- 7/8 of 3000 and 1/8 of 4000: 3125 ms.
sampled : (sample_srt plain after_ack).srt_ms ≡ record { count = 25000; eighths = 1 }
unfolding create_session_context sample_srt plus_ms minus_ms
sampled = refl
