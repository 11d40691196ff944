-- ===== src/Frame/Strictness.antt =====
-- frame.ts: decoding under different parse options.
use ax25_ts.Address.{Ax25Address}
use ax25_ts.Base.{
  Bool, Bool-cases, List, Option, Result, ap, err, false, get_or, inl, inr, length, ltb, ok, refl,
  subst, true, ℕ, ◌&&◌, ◌||◌, ◌∷◌, ◌≡◌,
}
use ax25_ts.Frame.{Ax25Frame, Ax25ParseOptions, is_command, lenient_parse}
use ax25_ts.Frame.Control.{ok-inj}
use ax25_ts.Frame.Decode.{
  all_have_base, and_then, check_options, decode_frame, decode_tail, has_pid, is_command_only,
  is_info_allowed_u_frame, is_u_frame, read_info, require,
}

and_then-ok :
    {E A B : Type 0} (r : Result E A) (next : A → Result E B) (b : B)
    → and_then r next ≡ ok b
    → (a : A) × (r ≡ ok a) × (next a ≡ ok b)
unfolding and_then
and_then-ok (ok a) next b e = (a, refl, e)
and_then-ok (err x) next b e = absurd (cc)

require-ok :
    {E A : Type 0} (needed : Bool) (x : E) (r : Result E A) (a : A)
    → require needed x r ≡ ok a
    → (needed ≡ true) × (r ≡ ok a)
unfolding require
require-ok true x r a e = (refl, e)
require-ok false x r a e = absurd (cc)

and_then-keeps :
    {E A B : Type 0} (r : Result E A) (next : A → Result E B) (a : A) (b : B)
    → r ≡ ok a
    → next a ≡ ok b
    → and_then r next ≡ ok b
unfolding and_then
and_then-keeps r next a b e g = rw e g

require-keeps :
    {E A : Type 0} (needed : Bool) (x : E) (r : Result E A) (a : A)
    → needed ≡ true
    → r ≡ ok a
    → require needed x r ≡ ok a
unfolding require
require-keeps needed x r a e g = rw e g

or_true : (a : Bool) → (a || true) ≡ true
or_true true = refl
or_true false = refl

read_info-lenient :
    (options : Ax25ParseOptions) (control : ℕ) (bytes : List ℕ) (offset : ℕ) (r : Option ℕ × List ℕ)
    → read_info options control bytes offset ≡ ok r
    → read_info lenient_parse control bytes offset ≡ ok r
unfolding read_info require
read_info-lenient options control bytes offset r e = elim (Bool-cases (has_pid control)) [
  | inl t ↦ rw t (rw t at e)
  | inr f ↦ elim (Bool-cases (ltb offset (length bytes))) [
    | inl more ↦
        let (allowed, g) = require-ok _ _ _ _ (rw (f, more) at e) in
        rw (f, more, or_true (is_info_allowed_u_frame control)) g
    | inr done ↦ rw (f, done) (rw (f, done) at e)
  ]
]

-- What the options ask of a frame as a whole.
pub record Passes (options : Ax25ParseOptions) (frame : Ax25Frame) : Type 0 where
  pub names :
      options.allow_empty_callsign_base ≡ false
      → all_have_base (frame.destination ∷ frame.source ∷ frame.digipeaters) ≡ true
  pub commands :
      options.allow_command_frame_as_response ≡ false
      → (is_u_frame frame.control && is_command_only frame.control) ≡ true
      → is_command frame ≡ true

check_options-Passes :
    (options : Ax25ParseOptions) (frame g : Ax25Frame)
    → check_options options frame ≡ ok g
    → (frame ≡ g) × Passes options frame
unfolding check_options
check_options-Passes options frame g e =
    let (n, e1) = require-ok _ _ _ _ e in
    let (c, e2) = require-ok _ _ _ _ e1 in
    (
      ok-inj e2,
      record { names = λ off. rw off at n; commands = λ off sabm_like. rw (off, sabm_like) at c },
    )

check_options-lenient : (frame g : Ax25Frame) → frame ≡ g → check_options lenient_parse frame ≡ ok g
unfolding check_options require
check_options-lenient frame g e = ap ok e

decode_tail-lenient :
    (bytes : List ℕ) (extended : Bool) (options : Ax25ParseOptions)
    (destination source : Ax25Address) (digipeaters : List Ax25Address) (offset : ℕ)
    (frame : Ax25Frame)
    → decode_tail bytes extended options destination source digipeaters offset ≡ ok frame
    → (decode_tail bytes extended lenient_parse destination source digipeaters offset ≡ ok frame)
      × Passes options frame
unfolding decode_tail
decode_tail-lenient bytes extended options destination source digipeaters offset frame e =
    let (room, e1) = require-ok _ _ _ _ e in
    let (x, ex, e2) = and_then-ok _ _ _ e1 in
    let (i, ei, e3) = and_then-ok _ _ _ e2 in
    let (same, p) = check_options-Passes options _ frame e3 in
    (
      require-keeps _ _ _ _ room (
          and_then-keeps _ _ _ _ ex (
            and_then-keeps _ _ _ _
              (read_info-lenient options (get_or bytes offset 0) bytes x.1 i ei)
              (check_options-lenient _ frame same))),
      subst (Passes options) same p,
    )

-- A frame that any options accept is the same frame under the lenient options, and passes what the
-- options ask of callsigns and of commands.
pub decode_frame-lenient :
    (bytes : List ℕ) (extended : Bool) (options : Ax25ParseOptions) (frame : Ax25Frame)
    → decode_frame bytes extended options ≡ ok frame
    → (decode_frame bytes extended lenient_parse ≡ ok frame) × Passes options frame
unfolding decode_frame
decode_frame-lenient bytes extended options frame e =
    let (room, e1) = require-ok _ _ _ _ e in
    let (d, ed, e2) = and_then-ok _ _ _ e1 in
    let (open_end, e3) = require-ok _ _ _ _ e2 in
    let (s, es, e4) = and_then-ok _ _ _ e3 in
    let (c, ec, e5) = and_then-ok _ _ _ e4 in
    let (last, p) = decode_tail-lenient bytes extended options d s c.0 c.1 frame e5 in
    (
      require-keeps _ _ _ _ room (
          and_then-keeps _ _ _ _ ed (
            require-keeps _ _ _ _ open_end
              (and_then-keeps _ _ _ _ es (and_then-keeps _ _ _ _ ec last)))),
      p,
    )
