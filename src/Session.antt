-- ===== src/Session.antt =====
-- sdl/session-context.ts: the variables of a data-link session. A `Map` by sequence number is a list of
-- entries with different keys, in the order of insertion, and of the quirks it has those that are read
-- here. Sequence variables are below the modulus, so `(a - b + m) % m` is `(a + m - b) % m`.
pub mod Events
pub mod Bindings
pub mod Window
pub mod Actions
pub mod Runs
use ax25_ts.Base.{
  Bool, List, Option, [], false, if◌then◌else◌, is_empty, ltb, max, min, none, some, true, ℕ, ◌%◌,
  ◌&&◌, ◌*◌, ◌+◌, ◌-◌, ◌/◌, ◌==◌, ◌^◌, ◌∷◌,
}
use ax25_ts.Callsign.{Callsign}
use ax25_ts.SegmentationLayer.{DataUnit}

pub record SessionQuirks : Type 0 where
  pub clamp_srej_window_to_half_modulus : Bool
  pub dl_flow_off_enters_busy : Bool
  pub srej_command_ignored : Bool
  pub srej_targets_gap : Bool
  pub karn_srt_sampling : Bool
  pub timer_recovery_drain_advances_vr : Bool

-- A time in milliseconds with its fraction: `count` / 8 ^ `eighths`. The source has doubles, which hold
-- such a number exactly as long as `count` has at most 53 bits.
pub record Millis : Type 0 where
  pub count : ℕ
  pub eighths : ℕ

abbrev pub whole_ms : ℕ → Millis
whole_ms n = record { count = n; eighths = 0 }

-- The count of a time in a finer unit.
abbrev pub count_at : ℕ → Millis → ℕ
count_at eighths t = t.count * 8 ^ (eighths - t.eighths)

abbrev pub finer : Millis → Millis → ℕ
finer a b = max a.eighths b.eighths

unfoldable pub plus_ms : Millis → Millis → Millis
plus_ms a b = record {
  count = count_at (finer a b) a + count_at (finer a b) b;
  eighths = finer a b;
}

-- The difference, and 0 where it would be negative.
unfoldable pub minus_ms : Millis → Millis → Millis
minus_ms a b = record {
  count = count_at (finer a b) a - count_at (finer a b) b;
  eighths = finer a b;
}

abbrev pub times_ms : ℕ → Millis → Millis
times_ms n t = record t { count = n * t.count }

abbrev pub eighth : Millis → Millis
eighth t = record t { eighths = t.eighths + 1 }

pub record SessionContext : Type 0 where
  pub local : Callsign
  pub remote : Callsign
  pub vs : ℕ
  pub va : ℕ
  pub vr : ℕ
  pub rc : ℕ
  pub own_receiver_busy : Bool
  pub peer_receiver_busy : Bool
  pub acknowledge_pending : Bool
  pub reject_exception : Bool
  pub selective_reject_exception : Bool
  pub srej_exception_count : ℕ
  pub layer_3_initiated : Bool
  pub accept_incoming : Bool
  pub x : Option ℕ
  pub t1_had_expired : Bool
  pub t1_remaining_when_last_stopped_ms : Millis
  pub n1 : ℕ
  pub n2 : ℕ
  pub k : ℕ
  pub is_extended : Bool
  pub srej_enabled : Bool
  pub segmenter_reassembler_enabled : Bool
  pub half_duplex : Bool
  pub implicit_reject : Bool
  pub t2_ms : ℕ
  pub srt_ms : Millis
  pub t1v_ms : Millis
  pub quirks : SessionQuirks
  pub i_frame_queue : List DataUnit
  pub sent_i_frames : List (ℕ × DataUnit)
  pub stored_received_i_frames : List (ℕ × DataUnit)
  pub selectively_retransmitted_since_ack : List ℕ

abbrev pub modulus : SessionContext → ℕ
modulus ctx = if ctx.is_extended then 128 else 8

unfoldable pub effective_window : SessionContext → ℕ
effective_window ctx =
    let m = modulus ctx in
    let window =
      if ctx.quirks.clamp_srej_window_to_half_modulus && ctx.srej_enabled
      then min ctx.k (m / 2)
      else ctx.k in
    min window (m - 1)

unfoldable pub increment_seq : SessionContext → ℕ → ℕ
increment_seq ctx value = (value + 1) % modulus ctx

unfoldable pub decrement_seq : SessionContext → ℕ → ℕ
decrement_seq ctx value = (value + modulus ctx - 1) % modulus ctx

-- How far `a` is ahead of `b`.
abbrev pub ahead : ℕ → ℕ → ℕ → ℕ
ahead m a b = (a + m - b) % m

unfoldable pub is_outstanding : SessionContext → ℕ → Bool
is_outstanding ctx ns =
    let m = modulus ctx in
    let span = ahead m ctx.vs ctx.va in let offset = ahead m ns ctx.va in ltb offset span

-- `Map.get`.
unfoldable pub get_entry : ℕ → List (ℕ × DataUnit) → Option DataUnit
get_entry ns [] = none
get_entry ns ((key, unit) ∷ rest) =
    let found = get_entry ns rest in if key == ns then some unit else found

-- The loop over the keys.
unfoldable pub keep_entries : (ℕ → Bool) → List (ℕ × DataUnit) → List (ℕ × DataUnit)
keep_entries wanted [] = []
keep_entries wanted ((key, unit) ∷ rest) =
    let kept = keep_entries wanted rest in if wanted key then (key, unit) ∷ kept else kept

unfoldable pub prune_acknowledged_sent_i_frames : SessionContext → SessionContext
prune_acknowledged_sent_i_frames ctx =
    if is_empty ctx.sent_i_frames
    then ctx
    else record ctx { sent_i_frames = keep_entries (is_outstanding ctx) ctx.sent_i_frames }

-- `advanceVa` of sdl/action-dispatcher.ts.
unfoldable pub advance_va : SessionContext → ℕ → SessionContext
advance_va ctx new_va =
    let moved = record ctx { va = new_va } in
    if new_va == ctx.va
    then moved
    else prune_acknowledged_sent_i_frames
        (record moved { selectively_retransmitted_since_ack = [] })

unfoldable pub create_session_context : SessionQuirks → Callsign → Callsign → SessionContext
create_session_context quirks here there = record {
  local = here;
  remote = there;
  vs = 0;
  va = 0;
  vr = 0;
  rc = 0;
  own_receiver_busy = false;
  peer_receiver_busy = false;
  acknowledge_pending = false;
  reject_exception = false;
  selective_reject_exception = false;
  srej_exception_count = 0;
  layer_3_initiated = false;
  accept_incoming = true;
  x = none;
  t1_had_expired = false;
  t1_remaining_when_last_stopped_ms = whole_ms 0;
  n1 = 256;
  n2 = 10;
  k = 4;
  is_extended = false;
  srej_enabled = false;
  segmenter_reassembler_enabled = false;
  half_duplex = true;
  implicit_reject = true;
  t2_ms = 3000;
  srt_ms = whole_ms 3000;
  t1v_ms = whole_ms 6000;
  quirks = quirks;
  i_frame_queue = [];
  sent_i_frames = [];
  stored_received_i_frames = [];
  selectively_retransmitted_since_ack = [];
}

unfoldable pub reset_state : SessionContext → SessionContext
reset_state ctx = record ctx {
  vs = 0;
  va = 0;
  vr = 0;
  rc = 0;
  own_receiver_busy = false;
  peer_receiver_busy = false;
  acknowledge_pending = false;
  reject_exception = false;
  selective_reject_exception = false;
  srej_exception_count = 0;
  layer_3_initiated = false;
  x = none;
  t1_had_expired = false;
  t1_remaining_when_last_stopped_ms = whole_ms 0;
  i_frame_queue = [];
  sent_i_frames = [];
  stored_received_i_frames = [];
  selectively_retransmitted_since_ack = [];
}
