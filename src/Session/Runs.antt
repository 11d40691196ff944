-- ===== src/Session/Runs.antt =====
-- sdl/session-context.ts, sdl/session-bindings.ts, sdl/frame-classifier.ts: the theorems at concrete
-- inputs.
use ax25_ts.Base.{[], arith, false, none, refl, some, true, ℕ, ◌%◌, ◌+◌, ◌-◌, ◌↔◌, ◌∷◌, ◌≡◌, ◌≤◌}
use ax25_ts.Callsign.{Callsign}
use ax25_ts.Frame.{Ax25Frame, classify, classify_unnumbered}
use ax25_ts.SegmentationLayer.{DataUnit}
use ax25_ts.Session.{
  SessionContext, SessionQuirks, advance_va, create_session_context, effective_window, get_entry,
  increment_seq, modulus,
}
use ax25_ts.Session.Bindings.{acknowledges, window_full}
use ax25_ts.Session.Events.{classify_frame, classify_frame-classify, info_not_permitted_in_frame}
use ax25_ts.Session.Window.{
  Outstanding, acknowledges_iff, advance_va-Outstanding, increment_seq-Outstanding,
}

abbrev gb7 : Callsign
gb7 = record { base = 0x47 ∷ 0x42 ∷ 0x37 ∷ []; ssid = 0 }

abbrev default_quirks : SessionQuirks
default_quirks = record {
  clamp_srej_window_to_half_modulus = true;
  dl_flow_off_enters_busy = true;
  srej_command_ignored = true;
  srej_targets_gap = true;
  karn_srt_sampling = true;
  timer_recovery_drain_advances_vr = true;
}

abbrev unit_of : ℕ → DataUnit
unit_of b = record { bytes = b ∷ []; pid = 0xf0 }

-- Frames 6, 7 and 0 are outstanding.
abbrev wrapped : SessionContext
wrapped = record (create_session_context default_quirks gb7 gb7) {
  va = 6;
  vs = 1;
  sent_i_frames = (6, unit_of 60) ∷ (7, unit_of 70) ∷ (0, unit_of 80) ∷ [];
}

wrapped-Outstanding : Outstanding 14 3 wrapped
unfolding create_session_context
wrapped-Outstanding = record { va = refl; vs = refl; few = omega arith }

acknowledges_iff_example : (acknowledges wrapped ((14 + 2) % modulus wrapped) ≡ true) ↔ (2 ≤ 3)
unfolding create_session_context
acknowledges_iff_example = acknowledges_iff 14 3 2 wrapped wrapped-Outstanding (omega arith)

increment_seq-Outstanding_example :
    Outstanding 14 (3 + 1) (record wrapped { vs = increment_seq wrapped wrapped.vs })
    × (3 + 1 ≤ effective_window wrapped)
unfolding create_session_context window_full effective_window
increment_seq-Outstanding_example = increment_seq-Outstanding 14 3 wrapped wrapped-Outstanding refl

advance_va-Outstanding_example :
    Outstanding (14 + 2) (3 - 2) (advance_va wrapped ((14 + 2) % modulus wrapped))
    × (get_entry
          ((14 + 2 + 0) % modulus wrapped)
          (advance_va wrapped ((14 + 2) % modulus wrapped)).sent_i_frames
        ≡ some (unit_of 80))
unfolding create_session_context get_entry
advance_va-Outstanding_example =
    advance_va-Outstanding 14 3 2 0 wrapped wrapped-Outstanding (omega arith) (omega arith)
      (omega arith)

-- A UA with an information field.
abbrev ua_with_info : Ax25Frame
ua_with_info = record {
  destination = record { callsign = gb7; crh_bit = false; extension_bit = false };
  source = record { callsign = gb7; crh_bit = true; extension_bit = true };
  digipeaters = [];
  control = 0x73;
  control_extension = none;
  pid = none;
  info = 1 ∷ [];
}

classify_frame-classify_example : classify_frame ua_with_info ≡ info_not_permitted_in_frame
unfolding classify classify_unnumbered
classify_frame-classify_example = classify_frame-classify ua_with_info
