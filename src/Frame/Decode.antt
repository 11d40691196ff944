-- ===== src/Frame/Decode.antt =====
-- frame.ts: decodeFrame. The first error ends the decoding.
use ax25_ts.Address.{AddressError, Ax25Address, address_encoded_length, read_address}
use ax25_ts.Base.{
  Bool, List, Option, Result, [], drop, err, false, get_or, if◌then◌else◌, leb, length, ltb, none,
  not, ok, some, suc, true, zero, ℕ, ◌%◌, ◌&&◌, ◌*◌, ◌+◌, ◌==◌, ◌||◌, ◌∷◌,
}
use ax25_ts.Frame.{
  Ax25Frame, Ax25ParseOptions, FrameError, bad_address, chain_too_long, chain_truncated,
  control_disc, control_frmr, control_sabm, control_sabme, control_test, control_ui, control_xid,
  destination_has_e_bit, empty_callsign, frame_too_short, info_not_permitted, is_command,
  max_digipeaters, missing_control, missing_extended_control, missing_pid, not_a_command,
  without_pf,
}

-- A step of the decoding behind another.
unfoldable pub and_then {ℓ κ μ} :
    {E : Type ℓ} {A : Type κ} {B : Type μ} → Result E A → (A → Result E B) → Result E B
and_then (ok a) next = next a
and_then (err e) next = err e

unfoldable pub require {ℓ κ} : {E : Type ℓ} {A : Type κ} → Bool → E → Result E A → Result E A
require true e r = r
require false e r = err e

abbrev pub slot_of : Result AddressError Ax25Address → Result FrameError Ax25Address
slot_of (ok a) = ok a
slot_of (err e) = err (bad_address e)

abbrev pub read_slot : List ℕ → ℕ → Result FrameError Ax25Address
read_slot bytes offset = slot_of (read_address bytes offset)

-- The `while` over the digipeaters: `left` is how many more the chain may have, and the result has
-- the rest of the chain and the offset behind it.
unfoldable pub read_chain : ℕ → List ℕ → ℕ → Ax25Address → Result FrameError (List Ax25Address × ℕ)
read_chain zero bytes offset last =
    if last.extension_bit then ok ([], offset) else err chain_too_long
read_chain (suc left) bytes offset last =
    if last.extension_bit
    then ok ([], offset)
    else require (leb (offset + address_encoded_length) (length bytes)) chain_truncated (
        and_then (read_slot bytes offset) (λ next.
          and_then (read_chain left bytes (offset + address_encoded_length) next)
            (λ (rest, behind). ok (next ∷ rest, behind))))

abbrev pub is_u_frame : ℕ → Bool
is_u_frame control = control % 4 == 0x03

abbrev pub has_pid : ℕ → Bool
has_pid control = without_pf control == control_ui || control % 2 == 0

abbrev pub is_info_allowed_u_frame : ℕ → Bool
is_info_allowed_u_frame control =
    without_pf control == control_frmr
    || without_pf control == control_xid
    || without_pf control == control_test

abbrev pub is_command_only : ℕ → Bool
is_command_only control =
    without_pf control == control_sabm
    || without_pf control == control_sabme
    || without_pf control == control_disc

-- The second control octet, and the offset behind it.
unfoldable pub read_extension : Bool → ℕ → List ℕ → ℕ → Result FrameError (Option ℕ × ℕ)
read_extension extended control bytes offset =
    if extended && not (is_u_frame control)
    then require (leb (offset + 1) (length bytes)) missing_extended_control
        (ok (some (get_or bytes offset 0), offset + 1))
    else ok (none, offset)

unfoldable pub read_info : Ax25ParseOptions → ℕ → List ℕ → ℕ → Result FrameError (Option ℕ × List ℕ)
read_info options control bytes offset =
    if has_pid control
    then require (leb (offset + 1) (length bytes)) missing_pid
        (ok (some (get_or bytes offset 0), drop (offset + 1) bytes))
    else if ltb offset (length bytes)
    then require (is_info_allowed_u_frame control || options.allow_info_on_supervisory_frames)
        info_not_permitted (ok (none, drop offset bytes))
    else ok (none, [])

abbrev pub has_base : Ax25Address → Bool
has_base a = ltb 0 (length a.callsign.base)

abbrev pub all_have_base : List Ax25Address → Bool
all_have_base [] = true
all_have_base (a ∷ rest) = has_base a && all_have_base rest

-- The two checks at the end of `decodeFrame`.
unfoldable pub check_options : Ax25ParseOptions → Ax25Frame → Result FrameError Ax25Frame
check_options options frame =
    require
      (options.allow_empty_callsign_base
        || all_have_base (frame.destination ∷ frame.source ∷ frame.digipeaters))
      empty_callsign
      (require
        (options.allow_command_frame_as_response
          || not (is_u_frame frame.control && is_command_only frame.control)
          || is_command frame)
        not_a_command (ok frame))

-- `decodeFrame` behind the addresses.
unfoldable pub decode_tail :
    List ℕ
    → Bool
    → Ax25ParseOptions
    → Ax25Address
    → Ax25Address
    → List Ax25Address
    → ℕ
    → Result FrameError Ax25Frame
decode_tail bytes extended options destination source digipeaters offset =
    let control = get_or bytes offset 0 in
    require (leb (offset + 1) (length bytes)) missing_control (
      and_then (read_extension extended control bytes (offset + 1)) (λ (extension, behind).
        and_then (read_info options control bytes behind) (λ (pid, info).
          check_options options (record {
            destination = destination;
            source = source;
            digipeaters = digipeaters;
            control = control;
            control_extension = extension;
            pid = pid;
            info = info;
          }))))

unfoldable pub decode_frame : List ℕ → Bool → Ax25ParseOptions → Result FrameError Ax25Frame
decode_frame bytes extended options =
    require (leb (2 * address_encoded_length + 1) (length bytes)) frame_too_short (
      and_then (read_slot bytes 0) (λ destination.
        require (not destination.extension_bit) destination_has_e_bit (
          and_then (read_slot bytes address_encoded_length) (λ source.
            and_then (read_chain max_digipeaters bytes (2 * address_encoded_length) source)
              (λ (digipeaters, offset).
                decode_tail bytes extended options destination source digipeaters offset)))))
