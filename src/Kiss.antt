-- ===== src/Kiss.antt =====
-- kiss.ts: KISS framing. `encode_kiss` writes one frame, the decoder is a state with the octets of
-- the frame in progress and the escape flag, and `push` is fed one chunk of the byte stream.
pub mod RoundTrip
pub mod Runs
use ax25_ts.Base.{
  ℕ, ◌+◌, ◌*◌, ◌/◌, ◌%◌, Bool, true, false, List, [], ◌∷◌, ◌++◌, Option, none, some, Result, ok,
  err, bit_or, ltb, ◌==◌, if◌then◌else◌,
}

abbrev pub fend : ℕ
fend = 0xc0

abbrev pub fesc : ℕ
fesc = 0xdb

abbrev pub tfend : ℕ
tfend = 0xdc

abbrev pub tfesc : ℕ
tfesc = 0xdd

pub record KissFrame : Type 0 where
  pub port : ℕ
  pub command : ℕ
  pub payload : List ℕ

pub data Error : Type 0 where
  port_range : Error

-- The octets that one octet of the frame takes on the wire.
pub write_escaped : ℕ → List ℕ
write_escaped b =
    if b == fend then fesc ∷ tfend ∷ [] else if b == fesc then fesc ∷ tfesc ∷ [] else b ∷ []

pub write_all : List ℕ → List ℕ
write_all [] = []
write_all (b ∷ bs) = write_escaped b ++ write_all bs

-- `((port & 0x0f) << 4) | (command & 0x0f)`.
pub command_byte : ℕ → ℕ → ℕ
command_byte port command = bit_or (port % 16 * 16) (command % 16)

-- Ports are not negative here, so `port > 15` is the whole guard.
pub encode_kiss : ℕ → ℕ → List ℕ → Result Error (List ℕ)
encode_kiss port command payload =
    if ltb 15 port
    then err port_range
    else ok
        (fend ∷ (write_escaped (command_byte port command) ++ (write_all payload ++ (fend ∷ []))))

pub record KissDecoder : Type 0 where
  pub current : List ℕ
  pub in_escape : Bool

abbrev pub fresh : KissDecoder
fresh = record { current = []; in_escape = false }

pub finish : List ℕ → Option KissFrame
finish [] = none
finish (cmd_byte ∷ payload) =
    some (record { port = cmd_byte / 16 % 16; command = cmd_byte % 16; payload = payload })

-- `if (frame) out.push(frame)`.
abbrev pub emitted : Option KissFrame → List KissFrame
emitted none = []
emitted (some f) = f ∷ []

-- What a FEND closes: nothing when it stands between two frames.
close_frame : List ℕ → KissDecoder × List KissFrame
close_frame [] = (fresh, [])
close_frame (c ∷ cs) = (fresh, emitted (finish (c ∷ cs)))

-- One round of the loop of `push`.
pub push_byte : KissDecoder → ℕ → KissDecoder × List KissFrame
push_byte d b =
    if d.in_escape
    then (
      record {
        current =
            if b == tfend
            then d.current ++ (fend ∷ [])
            else if b == tfesc
            then d.current ++ (fesc ∷ [])
            else d.current;
        in_escape = false;
      },
      [],
    )
    else if b == fend
    then close_frame d.current
    else if b == fesc
    then (record d { in_escape = true }, [])
    else (record d { current = d.current ++ (b ∷ []) }, [])

pub push : KissDecoder → List ℕ → KissDecoder × List KissFrame
push d [] = (d, [])
push d (b ∷ bs) =
    let (d', out) = push_byte d b in let (d'', more) = push d' bs in (d'', out ++ more)

pub reset : KissDecoder → KissDecoder
reset d = fresh
