-- ===== src/Frame/Control.antt =====
-- frame.ts: what a receiver reads from the control octets that the factories write.
use ax25_ts.Base.{
  Bool, Bool-cases, List, Option, Result, [], ap, arith, err, false, if◌then◌else◌, inl, inr, leb,
  leb→le, length, none, not, ok, refl, some, sym, true, ℕ, ◌%◌, ◌*◌, ◌+◌, ◌/◌, ◌<◌, ◌==◌, ◌∙◌, ◌≡◌,
  ◌≤◌,
}
use ax25_ts.Base.Bytes.{agree_below, holds_below}
use ax25_ts.Frame.{
  Ax25Frame, FrameError, FrameKind, classify, classify_supervisory, control_rej, control_rnr,
  control_rr, control_srej, get_nr, get_ns, i_kind, max_digipeaters, poll_final, poll_final_in,
  rej_kind, rnr_kind, rr_kind, srej_kind,
}
use ax25_ts.Frame.Decode.{and_then, require}
use ax25_ts.Frame.Factory.{
  FrameFactoryOpts, build_supervisory_frame, digipeater_chain, extended_control, frame_on, i_frame,
  information_control, make_address_chain, supervisory_control,
}

-- What `frame_on` gives, field by field.
pub record IsOn (opts : FrameFactoryOpts) (is_cmd : Bool) (control : ℕ) (extension pid : Option ℕ)
    (info : List ℕ) (frame : Ax25Frame) : Type 0 where
  pub short : length opts.digipeaters ≤ max_digipeaters
  pub destination :
      frame.destination
      ≡ record { callsign = opts.destination; crh_bit = is_cmd; extension_bit = false }
  pub source : frame.source ≡ record {
    callsign = opts.source;
    crh_bit = not is_cmd;
    extension_bit = length opts.digipeaters == 0;
  }
  pub digipeaters : frame.digipeaters ≡ digipeater_chain opts.digipeaters
  pub control_field : frame.control ≡ control
  pub extension_field : frame.control_extension ≡ extension
  pub pid_field : frame.pid ≡ pid
  pub info_field : frame.info ≡ info

pub ok-inj : {A : Type 0} {a b : A} → ◌≡◌ {A = Result FrameError A} (ok a) (ok b) → a ≡ b
ok-inj e = cc

err-ok : {A : Type 0} {x : FrameError} {a : A} → ◌≡◌ {A = Result FrameError A} (err x) (ok a) → ⊥
err-ok e = cc

pub frame_on-IsOn :
    (opts : FrameFactoryOpts) (is_cmd : Bool) (control : ℕ) (extension pid : Option ℕ)
    (info : List ℕ) (frame : Ax25Frame)
    → frame_on opts is_cmd control extension pid info ≡ ok frame
    → IsOn opts is_cmd control extension pid info frame
unfolding frame_on make_address_chain and_then require
frame_on-IsOn opts is_cmd control extension pid info frame e =
    elim (Bool-cases (leb (length opts.digipeaters) max_digipeaters)) [
      | inl t ↦
          let g = ok-inj (rw t at e) in
          record {
            short = leb→le (length opts.digipeaters) max_digipeaters t;
            destination = ap (λ f. f.destination) (sym g);
            source = ap (λ f. f.source) (sym g);
            digipeaters = ap (λ f. f.digipeaters) (sym g);
            control_field = ap (λ f. f.control) (sym g);
            extension_field = ap (λ f. f.control_extension) (sym g);
            pid_field = ap (λ f. f.pid) (sym g);
            info_field = ap (λ f. f.info) (sym g);
          }
      | inr n ↦ absurd (err-ok (rw n at e))
    ]

extended_control_value :
    (nr : ℕ) (pf : Bool) → nr < 128 → extended_control nr pf ≡ nr * 2 + (if pf then 1 else 0)
unfolding extended_control holds_below
extended_control_value nr true h =
    agree_below 128 (λ n. extended_control n true) (λ n. n * 2 + 1) refl nr h
extended_control_value nr false h =
    agree_below 128 (λ n. extended_control n false) (λ n. n * 2 + 0) refl nr h

information_table :
    (pf : Bool) (x : ℕ)
    → x < 64
    → information_control (x / 8) (x % 8) pf ≡ x / 8 * 32 + (if pf then 16 else 0) + x % 8 * 2
unfolding information_control holds_below
information_table true =
    agree_below 64 (λ x. information_control (x / 8) (x % 8) true)
      (λ x. x / 8 * 32 + 16 + x % 8 * 2) refl
information_table false =
    agree_below 64 (λ x. information_control (x / 8) (x % 8) false)
      (λ x. x / 8 * 32 + 0 + x % 8 * 2) refl

information_control_value :
    (nr ns : ℕ) (pf : Bool)
    → nr < 8
    → ns < 8
    → information_control nr ns pf ≡ nr * 32 + (if pf then 16 else 0) + ns * 2
information_control_value nr ns pf h k =
    let q : (nr * 8 + ns) / 8 ≡ nr = omega arith in
    let r : (nr * 8 + ns) % 8 ≡ ns = omega arith in
    rw (q, r) at (information_table pf (nr * 8 + ns) (omega arith))

-- What a receiver reads from the two control octets.
pub record Reads (frame : Ax25Frame) (shape : FrameKind) (ns nr : ℕ) (pf : Bool) : Type 0 where
  pub kind_read : classify frame ≡ shape
  pub ns_read : get_ns frame ≡ ns
  pub nr_read : get_nr frame ≡ nr
  pub pf_read : poll_final frame ≡ pf

abbrev pub modulus_of : Bool → ℕ
modulus_of extended = if extended then 128 else 8

plain_octets :
    (frame : Ax25Frame) (nr ns : ℕ) (pf : Bool)
    → nr < 8
    → ns < 8
    → frame.control ≡ information_control nr ns pf
    → frame.control_extension ≡ none
    → Reads frame i_kind ns nr pf
unfolding classify get_ns get_nr poll_final_in
plain_octets frame nr ns pf h k c x =
    let v : frame.control ≡ nr * 32 + (if pf then 16 else 0) + ns * 2 =
      c ∙ information_control_value nr ns pf h k in
    record {
      kind_read = ground arith;
      ns_read = rw x (ground arith);
      nr_read = rw x (ground arith);
      pf_read = rw x (ground arith);
    }

extended_octets :
    (frame : Ax25Frame) (nr ns : ℕ) (pf : Bool)
    → nr < 128
    → ns < 128
    → frame.control ≡ ns % 128 * 2 % 256
    → frame.control_extension ≡ some (extended_control nr pf)
    → Reads frame i_kind ns nr pf
unfolding classify get_ns get_nr poll_final_in
extended_octets frame nr ns pf h k c x =
    let v = extended_control_value nr pf h in
    record {
      kind_read = ground arith;
      ns_read = rw x (ground arith);
      nr_read = rw x (ground arith);
      pf_read = rw x (ground arith);
    }

-- An I frame is read as an I frame with the sequence numbers and the poll bit that it was built
-- with, in either modulus, when the numbers are below the modulus.
pub i_frame-Reads :
    (opts : FrameFactoryOpts) (nr ns : ℕ) (info : List ℕ) (pid : ℕ) (pf extended : Bool)
    (frame : Ax25Frame)
    → nr < modulus_of extended
    → ns < modulus_of extended
    → i_frame opts nr ns info pid pf extended ≡ ok frame
    → Reads frame i_kind ns nr pf
unfolding i_frame
i_frame-Reads opts nr ns info pid pf true frame h k e =
    let f = frame_on-IsOn opts true _ _ _ info frame e in
    extended_octets frame nr ns pf h k f.control_field f.extension_field
i_frame-Reads opts nr ns info pid pf false frame h k e =
    let f = frame_on-IsOn opts true _ _ _ info frame e in
    plain_octets frame nr ns pf h k f.control_field f.extension_field

-- The control octets of the four supervisory frames, without their sequence number.
pub data SupervisoryBase : ℕ → FrameKind → Type 0 where
  is_rr : SupervisoryBase control_rr rr_kind
  is_rnr : SupervisoryBase control_rnr rnr_kind
  is_rej : SupervisoryBase control_rej rej_kind
  is_srej : SupervisoryBase control_srej srej_kind

supervisory_table :
    (base : ℕ) (pf : Bool)
    → holds_below 8 (λ n. supervisory_control base n pf == n * 32 + (if pf then 16 else 0) + base)
      ≡ true
    → (nr : ℕ) → nr < 8
    → supervisory_control base nr pf ≡ nr * 32 + (if pf then 16 else 0) + base
supervisory_table base pf =
    agree_below 8 (λ n. supervisory_control base n pf) (λ n. n * 32 + (if pf then 16 else 0) + base)

supervisory_control_value :
    (base : ℕ) (shape : FrameKind) (nr : ℕ) (pf : Bool)
    → SupervisoryBase base shape
    → nr < 8
    → supervisory_control base nr pf ≡ nr * 32 + (if pf then 16 else 0) + base
unfolding supervisory_control holds_below
supervisory_control_value base shape nr true is_rr h = supervisory_table base true refl nr h
supervisory_control_value base shape nr false is_rr h = supervisory_table base false refl nr h
supervisory_control_value base shape nr true is_rnr h = supervisory_table base true refl nr h
supervisory_control_value base shape nr false is_rnr h = supervisory_table base false refl nr h
supervisory_control_value base shape nr true is_rej h = supervisory_table base true refl nr h
supervisory_control_value base shape nr false is_rej h = supervisory_table base false refl nr h
supervisory_control_value base shape nr true is_srej h = supervisory_table base true refl nr h
supervisory_control_value base shape nr false is_srej h = supervisory_table base false refl nr h

kind_of_base :
    (base : ℕ) (shape : FrameKind) (frame : Ax25Frame) (rest : ℕ)
    → SupervisoryBase base shape
    → frame.control ≡ rest * 16 + base
    → classify frame ≡ shape
unfolding classify classify_supervisory
kind_of_base base shape frame rest is_rr c = rw c (ground arith)
kind_of_base base shape frame rest is_rnr c = rw c (ground arith)
kind_of_base base shape frame rest is_rej c = rw c (ground arith)
kind_of_base base shape frame rest is_srej c = rw c (ground arith)

base-lt : (base : ℕ) (shape : FrameKind) → SupervisoryBase base shape → base < 16
base-lt base shape is_rr = omega arith
base-lt base shape is_rnr = omega arith
base-lt base shape is_rej = omega arith
base-lt base shape is_srej = omega arith

-- A supervisory frame is read as the kind it was built as, with its sequence number and its
-- poll/final bit, in either modulus, when the number is below the modulus.
pub build_supervisory_frame-reads :
    (base : ℕ) (shape : FrameKind) (opts : FrameFactoryOpts) (nr : ℕ) (is_cmd pf extended : Bool)
    (frame : Ax25Frame)
    → SupervisoryBase base shape
    → nr < modulus_of extended
    → build_supervisory_frame base opts nr is_cmd pf extended ≡ ok frame
    → (classify frame ≡ shape) × (get_nr frame ≡ nr) × (poll_final frame ≡ pf)
unfolding build_supervisory_frame get_nr poll_final_in
build_supervisory_frame-reads base shape opts nr is_cmd pf true frame b h e =
    let f = frame_on-IsOn opts is_cmd _ _ _ [] frame e in
    let x = f.extension_field in
    let v = extended_control_value nr pf h in
    let small = base-lt base shape b in
    (
      kind_of_base base shape frame 0 b (f.control_field ∙ omega arith),
      rw x (ground arith),
      rw x (ground arith),
    )
build_supervisory_frame-reads base shape opts nr is_cmd pf false frame b h e =
    let f = frame_on-IsOn opts is_cmd _ _ _ [] frame e in
    let x = f.extension_field in
    let v : frame.control ≡ nr * 32 + (if pf then 16 else 0) + base =
      f.control_field ∙ supervisory_control_value base shape nr pf b h in
    let small = base-lt base shape b in
    (
      kind_of_base base shape frame (nr * 2 + (if pf then 1 else 0)) b (ground arith),
      rw x (ground arith),
      rw x (ground arith),
    )
