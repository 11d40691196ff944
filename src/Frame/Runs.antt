-- ===== src/Frame/Runs.antt =====
-- frame.ts: runs and the theorems at concrete inputs.
use ax25_ts.Base.{[], arith, false, none, ok, refl, some, true, ◌∷◌, ◌≡◌}
use ax25_ts.Callsign.{Callsign, IsValid, all_valid, is_valid_base_char}
use ax25_ts.Frame.{
  Ax25Frame, classify, control_rej, encode_frame, get_nr, i_kind, lenient_parse, poll_final,
  rej_kind, strict_parse,
}
use ax25_ts.Frame.Control.{Reads, build_supervisory_frame-reads, i_frame-Reads, is_rej}
use ax25_ts.Frame.Decode.{and_then, decode_frame, require}
use ax25_ts.Frame.Factory.{
  FrameFactoryOpts, build_supervisory_frame, digipeater_chain, extended_control, frame_on, i_frame,
  information_control, make_address_chain,
}
use ax25_ts.Frame.RoundTrip.{IsWire, decode_frame-encode_frame}
use ax25_ts.Frame.Strictness.{Passes, decode_frame-lenient}

abbrev m0lte : Callsign
m0lte = record { base = 0x4d ∷ 0x30 ∷ 0x4c ∷ 0x54 ∷ 0x45 ∷ []; ssid = 1 }

abbrev g7 : Callsign
g7 = record { base = 0x47 ∷ 0x37 ∷ []; ssid = 0 }

abbrev via_g7 : FrameFactoryOpts
via_g7 = record { destination = m0lte; source = g7; digipeaters = g7 ∷ [] }

abbrev hello : Ax25Frame
hello = record {
  destination = record { callsign = m0lte; crh_bit = true; extension_bit = false };
  source = record { callsign = g7; crh_bit = false; extension_bit = false };
  digipeaters = record { callsign = g7; crh_bit = false; extension_bit = true } ∷ [];
  control = 0xb6;
  control_extension = none;
  pid = some 0xf0;
  info = 0x68 ∷ 0x69 ∷ [];
}

hello_built : i_frame via_g7 5 3 (0x68 ∷ 0x69 ∷ []) 0xf0 true false ≡ ok hello
unfolding i_frame frame_on make_address_chain digipeater_chain information_control and_then require
hello_built = refl

i_frame-Reads_example : Reads hello i_kind 3 5 true
i_frame-Reads_example =
    i_frame-Reads via_g7 5 3 (0x68 ∷ 0x69 ∷ []) 0xf0 true false hello (omega arith) (omega arith)
      hello_built

abbrev reject : Ax25Frame
reject = record {
  destination = record { callsign = m0lte; crh_bit = false; extension_bit = false };
  source = record { callsign = g7; crh_bit = true; extension_bit = false };
  digipeaters = record { callsign = g7; crh_bit = false; extension_bit = true } ∷ [];
  control = 0x09;
  control_extension = some 0xc9;
  pid = none;
  info = [];
}

reject_built : build_supervisory_frame control_rej via_g7 100 false true true ≡ ok reject
unfolding build_supervisory_frame frame_on make_address_chain digipeater_chain extended_control
    and_then require
reject_built = refl

build_supervisory_frame-reads_example :
    (classify reject ≡ rej_kind) × (get_nr reject ≡ 100) × (poll_final reject ≡ true)
build_supervisory_frame-reads_example =
    build_supervisory_frame-reads control_rej rej_kind via_g7 100 false true true reject is_rej
      (omega arith) reject_built

m0lte-IsValid : IsValid m0lte
unfolding all_valid is_valid_base_char
m0lte-IsValid = record { short = omega arith; chars = refl; in_range = omega arith }

g7-IsValid : IsValid g7
unfolding all_valid is_valid_base_char
g7-IsValid = record { short = omega arith; chars = refl; in_range = omega arith }

hello-IsWire : IsWire false strict_parse hello
hello-IsWire = record {
  destination_valid = m0lte-IsValid;
  source_valid = g7-IsValid;
  digipeaters_valid = (g7-IsValid, tt);
  destination_open = refl;
  closed = (refl, refl);
  few = omega arith;
  control_octet = omega arith;
  extension_octet = tt;
  pid_octet = omega arith;
  info_allowed = refl;
  names_allowed = refl;
  command_allowed = refl;
}

decode_frame-encode_frame_example : decode_frame (encode_frame hello) false strict_parse ≡ ok hello
decode_frame-encode_frame_example = decode_frame-encode_frame false strict_parse hello hello-IsWire

decode_frame-lenient_example :
    (decode_frame (encode_frame hello) false lenient_parse ≡ ok hello) × Passes strict_parse hello
decode_frame-lenient_example =
    decode_frame-lenient (encode_frame hello) false strict_parse hello
      decode_frame-encode_frame_example
