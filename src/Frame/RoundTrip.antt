-- ===== src/Frame/RoundTrip.antt =====
-- frame.ts: decoding a frame that was encoded.
use ax25_ts.Address.{Ax25Address, write_address}
use ax25_ts.Base.{
  All, Bool, Bool-cases, List, Option, [], ap, append_assoc, arith, drop, drop-drop,
  drop-length-append, false, get_or, get_or-append, inl, inr, is_empty, leb, length, length-append,
  ltb, none, not, ok, refl, some, sym, true, ℕ, ◌%◌, ◌&&◌, ◌*◌, ◌++◌, ◌+◌, ◌||◌, ◌∙◌, ◌∷◌, ◌≡◌, ◌≤◌,
}
use ax25_ts.Base.Bytes.{IsByte}
use ax25_ts.Callsign.{IsValid}
use ax25_ts.Frame.{
  Ax25Frame, Ax25ParseOptions, encode_frame, frame_tail, is_command, max_digipeaters,
  optional_count, optional_octet, required_bytes, write_chain,
}
use ax25_ts.Frame.Chain.{IsClosed, length-write_address, read_chain-write_chain, read_slot_at}
use ax25_ts.Frame.Decode.{
  all_have_base, and_then, check_options, decode_frame, decode_tail, has_pid, is_command_only,
  is_info_allowed_u_frame, is_u_frame, read_extension, read_info, require,
}

-- An octet is there exactly when the test says so.
abbrev pub HasOctet : Bool → Option ℕ → Type 0
HasOctet true (some b) = IsByte b
HasOctet true none = ⊥
HasOctet false (some b) = ⊥
HasOctet false none = Unit

-- What a frame must be to pass unchanged: valid callsigns, the extension bit on the last slot
-- only, at most eight digipeaters, octets in every place that the control octet calls for, and
-- nothing that the options forbid.
pub record IsWire (extended : Bool) (options : Ax25ParseOptions) (frame : Ax25Frame) : Type 0 where
  pub destination_valid : IsValid frame.destination.callsign
  pub source_valid : IsValid frame.source.callsign
  pub digipeaters_valid : All (λ a. IsValid a.callsign) frame.digipeaters
  pub destination_open : frame.destination.extension_bit ≡ false
  pub closed : IsClosed frame.source frame.digipeaters
  pub few : length frame.digipeaters ≤ max_digipeaters
  pub control_octet : IsByte frame.control
  pub extension_octet :
      HasOctet (extended && not (is_u_frame frame.control)) frame.control_extension
  pub pid_octet : HasOctet (has_pid frame.control) frame.pid
  pub info_allowed :
      (has_pid frame.control
        || is_empty frame.info
        || is_info_allowed_u_frame frame.control
        || options.allow_info_on_supervisory_frames)
      ≡ true
  pub names_allowed :
      (options.allow_empty_callsign_base
        || all_have_base (frame.destination ∷ frame.source ∷ frame.digipeaters))
      ≡ true
  pub command_allowed :
      (options.allow_command_frame_as_response
        || not (is_u_frame frame.control && is_command_only frame.control)
        || is_command frame)
      ≡ true

drop_past :
    (front rest : List ℕ) (n k : ℕ) → n ≡ length front + k → drop n (front ++ rest) ≡ drop k rest
drop_past front rest n k e =
    ap (λ m. drop m (front ++ rest)) e
    ∙ sym (drop-drop k (length front) (front ++ rest))
    ∙ ap (drop k) (drop-length-append front rest)

-- The octet at a place.
record Holds (bytes : List ℕ) (n b : ℕ) : Type 0 where
  room : leb (n + 1) (length bytes) ≡ true
  octet : get_or bytes n 0 ≡ b

octet_at :
    (front rest : List ℕ) (n b : ℕ)
    → n ≡ length front
    → IsByte b
    → Holds (front ++ ((b % 256) ∷ rest)) n b
octet_at front rest n b e h = record {
  room = ground (arith, length-append front ((b % 256) ∷ rest));
  octet = get_or-append front ((b % 256) ∷ rest) n 0 0 (omega arith) ∙ omega arith;
}

read_extension_in :
    (extended : Bool) (control n : ℕ) (front rest : List ℕ) (extension : Option ℕ)
    → n ≡ length front
    → HasOctet (extended && not (is_u_frame control)) extension
    → read_extension extended control (front ++ (optional_octet extension ++ rest)) n
      ≡ ok (extension, n + optional_count extension)
unfolding read_extension and_then require
read_extension_in extended control n front rest (some b) e h =
    elim (Bool-cases (extended && not (is_u_frame control))) [
      | inl t ↦
          let there = octet_at front rest n b e (rw t at h) in rw (t, there.room, there.octet) refl
      | inr f ↦ absurd (rw f at h)
    ]
read_extension_in extended control n front rest none e h =
    elim (Bool-cases (extended && not (is_u_frame control))) [
      | inl t ↦ absurd (rw t at h)
      | inr f ↦ rw f (ap (λ m. ok (none, m)) (omega arith))
    ]

read_info_in :
    (options : Ax25ParseOptions) (control n : ℕ) (front info : List ℕ) (pid : Option ℕ)
    → n ≡ length front
    → HasOctet (has_pid control) pid
    → (has_pid control
        || is_empty info
        || is_info_allowed_u_frame control
        || options.allow_info_on_supervisory_frames)
      ≡ true
    → read_info options control (front ++ (optional_octet pid ++ info)) n ≡ ok (pid, info)
unfolding read_info and_then require
read_info_in options control n front info (some b) e h allowed =
    elim (Bool-cases (has_pid control)) [
      | inl t ↦
          let there = octet_at front info n b e (rw t at h) in
          rw (t, there.room, there.octet)
            (ap (λ xs. ok (some b, xs))
              (drop_past front ((b % 256) ∷ info) (n + 1) 1 (omega arith)))
      | inr f ↦ absurd (rw f at h)
    ]
read_info_in options control n front [] none e h allowed =
    let short : ltb n (length (front ++ [])) ≡ false = ground (arith, length-append front []) in
    elim (Bool-cases (has_pid control)) [ inl t ↦ absurd (rw t at h) | inr f ↦ rw (f, short) refl ]
read_info_in options control n front (x ∷ info) none e h allowed =
    let long : ltb n (length (front ++ (x ∷ info))) ≡ true =
      ground (arith, length-append front (x ∷ info)) in
    elim (Bool-cases (has_pid control)) [
      | inl t ↦ absurd (rw t at h)
      | inr f ↦
          rw (f, long, rw f at allowed)
            (ap (λ xs. ok (none, xs)) (drop_past front (x ∷ info) n 0 (omega arith)))
    ]

length-optional_octet : (o : Option ℕ) → length (optional_octet o) ≡ optional_count o
length-optional_octet none = refl
length-optional_octet (some b) = refl

decode_tail_in :
    (bytes front : List ℕ) (offset : ℕ) (extended : Bool) (options : Ax25ParseOptions)
    (frame : Ax25Frame)
    → bytes ≡ front ++ frame_tail frame
    → offset ≡ length front
    → IsWire extended options frame
    → decode_tail bytes extended options frame.destination frame.source frame.digipeaters offset
      ≡ ok frame
unfolding decode_tail check_options and_then require
decode_tail_in bytes front offset extended options frame e o w =
    let rest = optional_octet frame.control_extension ++ (optional_octet frame.pid ++ frame.info) in
    let first = octet_at front rest offset frame.control o w.control_octet in
    let front1 = front ++ ((frame.control % 256) ∷ []) in
    let after1 : front ++ frame_tail frame ≡ front1 ++ rest = rw append_assoc refl in
    let one : offset + 1 ≡ length front1 =
      omega (arith, length-append front ((frame.control % 256) ∷ [])) in
    let extension =
      read_extension_in extended frame.control (offset + 1) front1
        (optional_octet frame.pid ++ frame.info) frame.control_extension one w.extension_octet in
    let front2 = front1 ++ optional_octet frame.control_extension in
    let after2 : front1 ++ rest ≡ front2 ++ (optional_octet frame.pid ++ frame.info) =
      sym (append_assoc front1 (optional_octet frame.control_extension) _) in
    let two : offset + 1 + optional_count frame.control_extension ≡ length front2 = omega (
      arith,
      length-append front1 (optional_octet frame.control_extension),
      length-optional_octet frame.control_extension,
    ) in
    let last =
      read_info_in options frame.control (offset + 1 + optional_count frame.control_extension)
        front2 frame.info frame.pid two w.pid_octet w.info_allowed in
    rw
      (
        e, first.room, first.octet, after1, extension, after2, last, w.names_allowed,
        w.command_allowed,
      )
      refl

length-write_chain : (chain : List Ax25Address) → length (write_chain chain) ≡ 7 * length chain
unfolding write_chain
length-write_chain [] = refl
length-write_chain (a ∷ rest) = omega (
  arith,
  length-append (write_address a) (write_chain rest),
  length-write_address a,
  length-write_chain rest,
)

-- A frame that is well formed for the wire is decoded from its encoding unchanged.
pub decode_frame-encode_frame :
    (extended : Bool) (options : Ax25ParseOptions) (frame : Ax25Frame)
    → IsWire extended options frame
    → decode_frame (encode_frame frame) extended options ≡ ok frame
unfolding decode_frame encode_frame write_chain and_then require
decode_frame-encode_frame extended options frame w =
    let bytes = encode_frame frame in
    let d = write_address frame.destination in
    let s = write_address frame.source in
    let c = write_chain frame.digipeaters in
    let t = frame_tail frame in
    let seven = length-write_address frame.destination in
    let seven' = length-write_address frame.source in
    let at0 : bytes ≡ [] ++ (d ++ (s ++ (c ++ t))) = rw (append_assoc, append_assoc) refl in
    let at7 : bytes ≡ d ++ (s ++ (c ++ t)) = at0 in
    let at14 : bytes ≡ (d ++ s) ++ (c ++ t) = at0 ∙ sym (append_assoc d s (c ++ t)) in
    let behind : bytes ≡ ((d ++ s) ++ c) ++ t = at14 ∙ sym (append_assoc (d ++ s) c t) in
    let fourteen : 14 ≡ length (d ++ s) = omega (arith, length-append d s) in
    let room : leb 15 (length bytes) ≡ true =
      ground (arith, ap length at14, length-append (d ++ s) (c ++ t), length-append c t) in
    let chain =
      read_chain-write_chain max_digipeaters bytes 14 (d ++ s) t frame.source frame.digipeaters at14
        fourteen w.closed w.digipeaters_valid w.few in
    let tail =
      decode_tail_in bytes ((d ++ s) ++ c) (14 + length c) extended options frame behind
        (omega (arith, length-append (d ++ s) c)) w in
    rw
      (
        room,
        read_slot_at bytes 0 [] (s ++ (c ++ t)) frame.destination at0 refl w.destination_valid,
        read_slot_at bytes 7 d (c ++ t) frame.source at7 (sym seven) w.source_valid,
        chain,
        tail,
        w.destination_open,
      )
      refl

-- The buffer that `requiredBytes` sizes is filled exactly.
length-encode_frame : (frame : Ax25Frame) → length (encode_frame frame) ≡ required_bytes frame
unfolding encode_frame required_bytes write_chain
length-encode_frame frame = omega (
  arith,
  length-append (write_chain (frame.destination ∷ frame.source ∷ frame.digipeaters))
      (frame_tail frame),
  length-write_chain (frame.destination ∷ frame.source ∷ frame.digipeaters),
  length-append (optional_octet frame.control_extension) (optional_octet frame.pid ++ frame.info),
  length-append (optional_octet frame.pid) frame.info,
  length-optional_octet frame.control_extension,
  length-optional_octet frame.pid,
)
