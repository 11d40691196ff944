-- ===== src/Frame/Factory.antt =====
-- frame.ts: the functions that build frames. An option that a caller leaves out is passed as its
-- default value.
use ax25_ts.Address.{Ax25Address}
use ax25_ts.Base.{
  Bool, List, Option, Result, [], bit_or, false, if◌then◌else◌, leb, length, none, not, ok, some,
  true, ℕ, ◌%◌, ◌*◌, ◌==◌, ◌∷◌,
}
use ax25_ts.Callsign.{Callsign}
use ax25_ts.Frame.{
  Ax25Frame, FrameError, chain_too_long, control_disc, control_dm, control_ext_pf_bit, control_frmr,
  control_pf_bit, control_rej, control_rnr, control_rr, control_sabm, control_sabme, control_srej,
  control_test, control_ua, control_ui, control_xid, max_digipeaters,
}
use ax25_ts.Frame.Decode.{and_then, require}

-- The addresses of a frame to be.
pub record AddressChain : Type 0 where
  pub destination : Ax25Address
  pub source : Ax25Address
  pub digipeaters : List Ax25Address

-- `via.map`: the last digipeater has the extension bit.
unfoldable pub digipeater_chain : List Callsign → List Ax25Address
digipeater_chain [] = []
digipeater_chain (c ∷ []) = record { callsign = c; crh_bit = false; extension_bit = true } ∷ []
digipeater_chain (c ∷ d ∷ via) =
    record { callsign = c; crh_bit = false; extension_bit = false } ∷ digipeater_chain (d ∷ via)

unfoldable pub make_address_chain :
    Callsign → Callsign → List Callsign → Bool → Result FrameError AddressChain
unfolding digipeater_chain
make_address_chain dest src via is_cmd = require (leb (length via) max_digipeaters) chain_too_long (
    ok (record {
      destination = record { callsign = dest; crh_bit = is_cmd; extension_bit = false };
      source = record { callsign = src; crh_bit = not is_cmd; extension_bit = length via == 0 };
      digipeaters = digipeater_chain via;
    }))

pub record FrameFactoryOpts : Type 0 where
  pub destination : Callsign
  pub source : Callsign
  pub digipeaters : List Callsign

-- A frame on a chain.
unfoldable pub frame_on :
    FrameFactoryOpts → Bool → ℕ → Option ℕ → Option ℕ → List ℕ → Result FrameError Ax25Frame
unfolding make_address_chain
frame_on opts is_cmd control extension pid info =
    and_then (make_address_chain opts.destination opts.source opts.digipeaters is_cmd) (λ chain.
      ok (record {
        destination = chain.destination;
        source = chain.source;
        digipeaters = chain.digipeaters;
        control = control;
        control_extension = extension;
        pid = pid;
        info = info;
      }))

-- `base | (bit ? CONTROL_PF_BIT : 0)`.
abbrev pub with_pf : ℕ → Bool → ℕ
with_pf base bit = bit_or base (if bit then control_pf_bit else 0) % 256

unfoldable pub sabm : FrameFactoryOpts → Bool → Result FrameError Ax25Frame
sabm opts poll_bit = frame_on opts true (with_pf control_sabm poll_bit) none none []

unfoldable pub sabme : FrameFactoryOpts → Bool → Result FrameError Ax25Frame
sabme opts poll_bit = frame_on opts true (with_pf control_sabme poll_bit) none none []

unfoldable pub disc : FrameFactoryOpts → Bool → Result FrameError Ax25Frame
disc opts poll_bit = frame_on opts true (with_pf control_disc poll_bit) none none []

unfoldable pub ua : FrameFactoryOpts → Bool → Result FrameError Ax25Frame
ua opts final_bit = frame_on opts false (with_pf control_ua final_bit) none none []

unfoldable pub dm : FrameFactoryOpts → Bool → Result FrameError Ax25Frame
dm opts final_bit = frame_on opts false (with_pf control_dm final_bit) none none []

unfoldable pub ui : FrameFactoryOpts → List ℕ → ℕ → Bool → Bool → Result FrameError Ax25Frame
ui opts info pid is_cmd pf = frame_on opts is_cmd (with_pf control_ui pf) none (some pid) info

unfoldable pub xid : FrameFactoryOpts → List ℕ → Bool → Bool → Result FrameError Ax25Frame
xid opts info is_cmd pf = frame_on opts is_cmd (with_pf control_xid pf) none none info

unfoldable pub test : FrameFactoryOpts → List ℕ → Bool → Bool → Result FrameError Ax25Frame
test opts info is_cmd pf = frame_on opts is_cmd (with_pf control_test pf) none none info

unfoldable pub frmr : FrameFactoryOpts → List ℕ → Bool → Result FrameError Ax25Frame
frmr opts info final_bit = frame_on opts false (with_pf control_frmr final_bit) none none info

unfoldable pub extended_control : ℕ → Bool → ℕ
extended_control nr pf = bit_or (nr % 128 * 2) (if pf then control_ext_pf_bit else 0) % 256

-- The control octet of a supervisory frame modulo 8.
unfoldable pub supervisory_control : ℕ → ℕ → Bool → ℕ
supervisory_control base nr pf =
    bit_or (bit_or (nr % 8 * 32) (if pf then control_pf_bit else 0)) base % 256

unfoldable pub build_supervisory_frame :
    ℕ → FrameFactoryOpts → ℕ → Bool → Bool → Bool → Result FrameError Ax25Frame
build_supervisory_frame base opts nr is_cmd pf extended =
    if extended
    then frame_on opts is_cmd (base % 256) (some (extended_control nr pf)) none []
    else frame_on opts is_cmd (supervisory_control base nr pf) none none []

abbrev pub rr : FrameFactoryOpts → ℕ → Bool → Bool → Bool → Result FrameError Ax25Frame
rr = build_supervisory_frame control_rr

abbrev pub rnr : FrameFactoryOpts → ℕ → Bool → Bool → Bool → Result FrameError Ax25Frame
rnr = build_supervisory_frame control_rnr

abbrev pub rej : FrameFactoryOpts → ℕ → Bool → Bool → Bool → Result FrameError Ax25Frame
rej = build_supervisory_frame control_rej

abbrev pub srej : FrameFactoryOpts → ℕ → Bool → Bool → Bool → Result FrameError Ax25Frame
srej = build_supervisory_frame control_srej

-- The control octet of an I frame modulo 8.
unfoldable pub information_control : ℕ → ℕ → Bool → ℕ
information_control nr ns pf =
    bit_or (bit_or (nr % 8 * 32) (if pf then control_pf_bit else 0)) (ns % 8 * 2) % 256

unfoldable pub i_frame :
    FrameFactoryOpts → ℕ → ℕ → List ℕ → ℕ → Bool → Bool → Result FrameError Ax25Frame
i_frame opts nr ns info pid poll_bit extended =
    if extended
    then frame_on opts true (ns % 128 * 2 % 256) (some (extended_control nr poll_bit)) (some pid)
        info
    else frame_on opts true (information_control nr ns poll_bit) none (some pid) info
