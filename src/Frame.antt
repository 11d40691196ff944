-- ===== src/Frame.antt =====
-- frame.ts: AX.25 frames on the wire. A thrown error is an `err`, and a field that may be `null` an
-- `Option`.
pub mod Decode
pub mod Factory
pub mod Control
pub mod Chain
pub mod RoundTrip
pub mod Strictness
pub mod Runs
use ax25_ts.Address.{AddressError, Ax25Address, address_encoded_length, write_address}
use ax25_ts.Base.{
  Bool, List, Option, [], false, has_bit, if◌then◌else◌, length, none, not, some, true, ℕ, ◌%◌,
  ◌&&◌, ◌*◌, ◌++◌, ◌+◌, ◌/◌, ◌==◌, ◌∷◌,
}

abbrev pub pid_no_layer_3 : ℕ
pid_no_layer_3 = 0xf0

abbrev pub pid_segmented : ℕ
pid_segmented = 0x08

abbrev pub max_digipeaters : ℕ
max_digipeaters = 8

-- The poll/final bit of a control octet, and the one of an extension octet.
abbrev pub control_pf_bit : ℕ
control_pf_bit = 0x10

abbrev pub control_ext_pf_bit : ℕ
control_ext_pf_bit = 0x01

abbrev pub control_sabm : ℕ
control_sabm = 0x2f

abbrev pub control_sabme : ℕ
control_sabme = 0x6f

abbrev pub control_disc : ℕ
control_disc = 0x43

abbrev pub control_ua : ℕ
control_ua = 0x63

abbrev pub control_dm : ℕ
control_dm = 0x0f

abbrev pub control_ui : ℕ
control_ui = 0x03

abbrev pub control_frmr : ℕ
control_frmr = 0x87

abbrev pub control_xid : ℕ
control_xid = 0xaf

abbrev pub control_rr : ℕ
control_rr = 0x01

abbrev pub control_rnr : ℕ
control_rnr = 0x05

abbrev pub control_rej : ℕ
control_rej = 0x09

abbrev pub control_srej : ℕ
control_srej = 0x0d

abbrev pub control_test : ℕ
control_test = 0xe3

pub record Ax25ParseOptions : Type 0 where
  pub allow_info_on_supervisory_frames : Bool
  pub allow_empty_callsign_base : Bool
  pub allow_command_frame_as_response : Bool

abbrev pub strict_parse : Ax25ParseOptions
strict_parse = record {
  allow_info_on_supervisory_frames = false;
  allow_empty_callsign_base = false;
  allow_command_frame_as_response = false;
}

abbrev pub lenient_parse : Ax25ParseOptions
lenient_parse = record {
  allow_info_on_supervisory_frames = true;
  allow_empty_callsign_base = true;
  allow_command_frame_as_response = true;
}

pub data FrameKind : Type 0 where
  sabm_kind sabme_kind disc_kind ua_kind dm_kind ui_kind rr_kind rnr_kind rej_kind srej_kind i_kind
        frmr_kind xid_kind test_kind unknown_kind :
      FrameKind

pub record Ax25Frame : Type 0 where
  pub destination : Ax25Address
  pub source : Ax25Address
  pub digipeaters : List Ax25Address
  pub control : ℕ
  pub control_extension : Option ℕ
  pub pid : Option ℕ
  pub info : List ℕ

pub data FrameError : Type 0 where
  frame_too_short destination_has_e_bit chain_too_long chain_truncated : FrameError
  missing_control missing_extended_control missing_pid : FrameError
  info_not_permitted empty_callsign not_a_command : FrameError
  bad_address : AddressError → FrameError

-- `control & 0xef` and `control & 0x0c`.
abbrev pub without_pf : ℕ → ℕ
without_pf control = control / 32 % 8 * 32 + control % 16

abbrev pub supervisory_bits : ℕ → ℕ
supervisory_bits control = control / 4 % 4 * 4

abbrev pub is_command : Ax25Frame → Bool
is_command frame = frame.destination.crh_bit && not frame.source.crh_bit

abbrev pub is_response : Ax25Frame → Bool
is_response frame = not frame.destination.crh_bit && frame.source.crh_bit

unfoldable pub poll_final_in : Option ℕ → ℕ → Bool
poll_final_in (some extension) control = extension % 2 == 1
poll_final_in none control = has_bit 4 control

abbrev pub poll_final : Ax25Frame → Bool
poll_final frame = poll_final_in frame.control_extension frame.control

-- The two `switch`es of `classify`.
unfoldable pub classify_supervisory : ℕ → FrameKind
classify_supervisory control =
    if supervisory_bits control == 0x00
    then rr_kind
    else if supervisory_bits control == 0x04
    then rnr_kind
    else if supervisory_bits control == 0x08
    then rej_kind
    else srej_kind

unfoldable pub classify_unnumbered : ℕ → FrameKind
classify_unnumbered u_base =
    if u_base == control_sabm
    then sabm_kind
    else if u_base == control_sabme
    then sabme_kind
    else if u_base == control_disc
    then disc_kind
    else if u_base == control_ua
    then ua_kind
    else if u_base == control_dm
    then dm_kind
    else if u_base == control_ui
    then ui_kind
    else if u_base == control_frmr
    then frmr_kind
    else if u_base == control_xid
    then xid_kind
    else if u_base == control_test
    then test_kind
    else unknown_kind

unfoldable pub classify : Ax25Frame → FrameKind
classify frame =
    if frame.control % 2 == 0
    then i_kind
    else if frame.control % 4 == 0x01
    then classify_supervisory frame.control
    else classify_unnumbered (without_pf frame.control)

unfoldable pub get_ns : Ax25Frame → ℕ
get_ns frame = elim frame.control_extension [
  | some extension ↦ frame.control / 2 % 128
  | none ↦ frame.control / 2 % 8
]

unfoldable pub get_nr : Ax25Frame → ℕ
get_nr frame = elim frame.control_extension [
  | some extension ↦ extension / 2 % 128
  | none ↦ frame.control / 32 % 8
]

-- An octet that is there or not.
abbrev pub optional_octet : Option ℕ → List ℕ
optional_octet none = []
optional_octet (some b) = (b % 256) ∷ []

abbrev pub optional_count : Option ℕ → ℕ
optional_count none = 0
optional_count (some b) = 1

unfoldable pub required_bytes : Ax25Frame → ℕ
required_bytes frame =
    address_encoded_length
    + address_encoded_length
    + length frame.digipeaters * address_encoded_length
    + 1
    + optional_count frame.control_extension
    + optional_count frame.pid
    + length frame.info

unfoldable pub write_chain : List Ax25Address → List ℕ
write_chain [] = []
write_chain (a ∷ rest) = write_address a ++ write_chain rest

-- What stands behind the addresses.
abbrev pub frame_tail : Ax25Frame → List ℕ
frame_tail frame =
    (frame.control % 256)
    ∷ (optional_octet frame.control_extension ++ (optional_octet frame.pid ++ frame.info))

unfoldable pub encode_frame : Ax25Frame → List ℕ
unfolding write_chain
encode_frame frame =
    write_chain (frame.destination ∷ frame.source ∷ frame.digipeaters) ++ frame_tail frame
