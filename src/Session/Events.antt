-- ===== src/Session/Events.antt =====
-- sdl/frame-classifier.ts: the event that a received frame raises.
use ax25_ts.Base.{Bool, arith, false, if◌then◌else◌, length, ltb, true, ℕ, ◌%◌, ◌==◌, ◌≡◌}
use ax25_ts.Frame.{
  Ax25Frame, FrameKind, classify, classify_supervisory, classify_unnumbered, disc_kind, dm_kind,
  frmr_kind, i_kind, rej_kind, rnr_kind, rr_kind, sabm_kind, sabme_kind, srej_kind,
  supervisory_bits, test_kind, ua_kind, ui_kind, unknown_kind, without_pf, xid_kind,
}

pub data FrameEvent : Type 0 where
  i_received rr_received rnr_received rej_received srej_received : FrameEvent
  sabm_received sabme_received disc_received ua_received dm_received : FrameEvent
  frmr_received xid_received test_received ui_received : FrameEvent
  info_not_permitted_in_frame control_field_error : FrameEvent

unfoldable pub supervisory_event : ℕ → FrameEvent
supervisory_event control =
    if supervisory_bits control == 0x00
    then rr_received
    else if supervisory_bits control == 0x04
    then rnr_received
    else if supervisory_bits control == 0x08
    then rej_received
    else srej_received

unfoldable pub unnumbered_event : ℕ → Bool → FrameEvent
unnumbered_event u_base has_info =
    let bare = λ (e : FrameEvent). if has_info then info_not_permitted_in_frame else e in
    if u_base == 0x2f
    then bare sabm_received
    else if u_base == 0x6f
    then bare sabme_received
    else if u_base == 0x43
    then bare disc_received
    else if u_base == 0x63
    then bare ua_received
    else if u_base == 0x0f
    then bare dm_received
    else if u_base == 0x87
    then frmr_received
    else if u_base == 0xaf
    then xid_received
    else if u_base == 0xe3
    then test_received
    else if u_base == 0x03
    then ui_received
    else control_field_error

unfoldable pub classify_frame : Ax25Frame → FrameEvent
classify_frame frame =
    let has_info = ltb 0 (length frame.info) in
    if frame.control % 2 == 0
    then i_received
    else if frame.control % 4 == 0x01
    then (if has_info then info_not_permitted_in_frame else supervisory_event frame.control)
    else unnumbered_event (without_pf frame.control) has_info

-- The event of a kind of frame, with an information field or without.
abbrev pub event_of : FrameKind → Bool → FrameEvent
event_of i_kind has_info = i_received
event_of frmr_kind has_info = frmr_received
event_of xid_kind has_info = xid_received
event_of test_kind has_info = test_received
event_of ui_kind has_info = ui_received
event_of unknown_kind has_info = control_field_error
event_of _ true = info_not_permitted_in_frame
event_of rr_kind false = rr_received
event_of rnr_kind false = rnr_received
event_of rej_kind false = rej_received
event_of srej_kind false = srej_received
event_of sabm_kind false = sabm_received
event_of sabme_kind false = sabme_received
event_of disc_kind false = disc_received
event_of ua_kind false = ua_received
event_of dm_kind false = dm_received

-- The session and the frame codec agree on every frame: the event is that of the frame's kind, and a
-- frame with an information field that its kind must not have raises the error for it.
pub classify_frame-classify :
    (frame : Ax25Frame)
    → classify_frame frame ≡ event_of (classify frame) (ltb 0 (length frame.info))
unfolding classify_frame classify supervisory_event unnumbered_event classify_supervisory
    classify_unnumbered
classify_frame-classify frame = ground arith
