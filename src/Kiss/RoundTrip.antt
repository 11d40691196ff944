-- ===== src/Kiss/RoundTrip.antt =====
-- kiss.ts: what the decoder makes of an encoded stream, however the stream is cut into chunks.
use mathlib.Core.List.{flatten}
use ax25_ts.Base.{
  All, List, Option, Result, [], append-nil, append_assoc, arith, err, false, none, ok, refl, some,
  ℕ, ◌%◌, ◌++◌, ◌/◌, ◌<◌, ◌∙◌, ◌∷◌, ◌≡◌,
}
use ax25_ts.Base.Bytes.{bit_or_nibbles}
use ax25_ts.Kiss.{
  Error, KissDecoder, KissFrame, close_frame, command_byte, encode_kiss, fend, finish, fresh, push,
  push_byte, write_all, write_escaped,
}

-- The stream may be cut anywhere: two pushes do what one push of both chunks does.
pub push-append :
    (d : KissDecoder) (xs ys : List ℕ)
    → push d (xs ++ ys) ≡ ((push (push d xs).0 ys).0, (push d xs).1 ++ (push (push d xs).0 ys).1)
unfolding push
push-append d [] ys = refl
push-append d (x ∷ xs) ys = rw (push-append (push_byte d x).0 xs ys, append_assoc)

-- The decoder is between two octets of a frame that begins with `cur`.
abbrev inside : List ℕ → KissDecoder
inside cur = record { current = cur; in_escape = false }

push-write_escaped :
    (cur : List ℕ) (b : ℕ) (rest : List ℕ)
    → push (inside cur) (write_escaped b ++ rest) ≡ push (inside (cur ++ (b ∷ []))) rest
unfolding push push_byte write_escaped
push-write_escaped cur b rest = ground arith

push-write_all :
    (cur bs rest : List ℕ)
    → push (inside cur) (write_all bs ++ rest) ≡ push (inside (cur ++ bs)) rest
unfolding write_all
push-write_all cur [] rest = rw append-nil
push-write_all cur (b ∷ bs) rest =
    rw (append_assoc, push-write_escaped cur b (write_all bs ++ rest))
      (push-write_all (cur ++ (b ∷ [])) bs rest ∙ rw append_assoc)

command_byte_fields :
    (port command : ℕ)
    → port < 16
    → (command_byte port command / 16 % 16 ≡ port) × (command_byte port command % 16 ≡ command % 16)
unfolding command_byte
command_byte_fields port command h =
    omega (arith, bit_or_nibbles (port % 16) (command % 16) (omega arith) (omega arith))

-- What the octets between two FENDs decode to.
abbrev decoded : ℕ → ℕ → List ℕ → KissFrame
decoded port command payload = record { port = port; command = command % 16; payload = payload }

finish-command_byte :
    (port command : ℕ) (payload : List ℕ)
    → port < 16
    → finish (command_byte port command ∷ payload) ≡ some (decoded port command payload)
unfolding finish
finish-command_byte port command payload h =
    let (p, q) = command_byte_fields port command h in rw (p, q)

push-fend :
    (c : ℕ) (cs rest : List ℕ) (f : KissFrame)
    → finish (c ∷ cs) ≡ some f
    → push (inside (c ∷ cs)) (fend ∷ rest) ≡ ((push fresh rest).0, f ∷ (push fresh rest).1)
unfolding push push_byte close_frame
push-fend c cs rest f e = rw e

push-fend_idle : (rest : List ℕ) → push fresh (fend ∷ rest) ≡ push fresh rest
unfolding push push_byte close_frame
push-fend_idle rest = refl

-- A frame of the list given: port and command as they come back.
abbrev wire_of : ℕ → ℕ → List ℕ → List ℕ
wire_of port command payload =
    fend ∷ (write_escaped (command_byte port command) ++ (write_all payload ++ (fend ∷ [])))

encode_kiss_ok :
    (port command : ℕ) (payload wire : List ℕ)
    → encode_kiss port command payload ≡ ok wire
    → (port < 16) × (wire_of port command payload ≡ wire)
unfolding encode_kiss
encode_kiss_ok port command payload wire e = ground arith

push-wire_of :
    (port command : ℕ) (payload rest : List ℕ)
    → port < 16
    → push fresh (wire_of port command payload ++ rest)
      ≡ ((push fresh rest).0, decoded port command payload ∷ (push fresh rest).1)
push-wire_of port command payload rest h =
    push-fend_idle _
    ∙ rw (append_assoc, append_assoc, push-write_escaped [] (command_byte port command))
        (push-write_all (command_byte port command ∷ []) payload (fend ∷ rest)
          ∙ push-fend _ payload rest _ (finish-command_byte port command payload h))

-- A decoder that is idle takes an encoded frame off the front of the stream: it reports that frame,
-- its command cut to four bits, and is idle again for what follows.
pub push-encode_kiss :
    (port command : ℕ) (payload wire rest : List ℕ)
    → encode_kiss port command payload ≡ ok wire
    → push fresh (wire ++ rest)
      ≡ ((push fresh rest).0, decoded port command payload ∷ (push fresh rest).1)
push-encode_kiss port command payload wire rest e =
    let (h, w) = encode_kiss_ok port command payload wire e in
    rw (← w) (push-wire_of port command payload rest h)

abbrev joined : Result Error (List ℕ) → Option (List ℕ) → Option (List ℕ)
joined (ok w) (some rest) = some (w ++ rest)
joined (ok w) none = none
joined (err x) rest = none

-- The encoder fed with decoded frames, one after the other.
unfoldable pub encode_all : List KissFrame → Option (List ℕ)
encode_all [] = some []
encode_all (f ∷ fs) = joined (encode_kiss f.port f.command f.payload) (encode_all fs)

-- The chunks of a stream, pushed in turn.
pub push_chunks : KissDecoder → List (List ℕ) → KissDecoder × List KissFrame
push_chunks d [] = (d, [])
push_chunks d (c ∷ cs) =
    let (d', out) = push d c in let (d'', more) = push_chunks d' cs in (d'', out ++ more)

push_chunks-flatten :
    (d : KissDecoder) (cs : List (List ℕ)) → push_chunks d cs ≡ push d (flatten cs)
unfolding push_chunks flatten
push_chunks-flatten d [] = unfold push in refl
push_chunks-flatten d (c ∷ cs) =
    rw (push-append d c (flatten cs)) (rw (push_chunks-flatten (push d c).0 cs))

joined-some :
    (r : Result Error (List ℕ)) (o : Option (List ℕ)) {w : List ℕ}
    → joined r o ≡ some w
    → (a b : List ℕ) × (r ≡ ok a) × (o ≡ some b) × (a ++ b ≡ w)
joined-some (ok a) (some b) e = (a, b, refl, refl, cc)
joined-some (ok a) none e = cc
joined-some (err x) o e = cc

push-encode_all :
    (fs : List KissFrame) (wire : List ℕ)
    → All (λ f. f.command < 16) fs
    → encode_all fs ≡ some wire
    → push fresh wire ≡ (fresh, fs)
unfolding encode_all
push-encode_all [] wire h e =
    let w : ◌≡◌ {A = List ℕ} [] wire = cc in rw (← w) (unfold push in refl)
push-encode_all (f ∷ fs) wire h e =
    let low : f.command % 16 ≡ f.command = let k : f.command < 16 = h.0 in omega arith in
    let (a, b, ea, eb, w) = joined-some _ _ e in
    rw (← w)
      (push-encode_kiss f.port f.command f.payload a b ea ∙ rw (push-encode_all fs b h.1 eb, low))

-- Frames with commands of four bits, encoded one after the other and pushed in any chunks, come
-- out of an idle decoder as they went in, and leave it idle.
pub push_chunks-encode_all :
    (fs : List KissFrame) (chunks : List (List ℕ))
    → All (λ f. f.command < 16) fs
    → encode_all fs ≡ some (flatten chunks)
    → push_chunks fresh chunks ≡ (fresh, fs)
push_chunks-encode_all fs chunks h e =
    push_chunks-flatten fresh chunks ∙ push-encode_all fs (flatten chunks) h e
