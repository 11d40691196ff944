-- ===== src/NetRom/Circuit/Sequence.antt =====
-- netrom/circuit.ts: the numbers of what is in flight, and what is pending when the peer
-- acknowledges.
use ax25_ts.Base.{
  Bool-cases, List, [], ap, append_assoc, arith, drop, drop-nil, false, inl, inr, is_empty, length,
  length-append, length-drop, ltb, map, not, refl, subst, suc, sym, true, zero, ℕ, ◌%◌, ◌++◌, ◌+◌,
  ◌<◌, ◌||◌, ◌∙◌, ◌∷◌, ◌≡◌, ◌≤◌,
}
use ax25_ts.NetRom.Circuit.{
  Circuit, Fragment, Unacked, connected, is_connected, remove_all, send_information, seq_acked,
}
use ax25_ts.NetRom.Circuit.Methods.{fragments_of, send}
use ax25_ts.NetRom.Circuit.Sending.{absorb_ack, pump_loop, pump_send_queue, transmit}

-- The entries are numbered from `base` on, modulo 256.
abbrev pub Numbered : ℕ → List Unacked → Type 0
Numbered base [] = Unit
Numbered base (u ∷ us) = (u.sequence ≡ base % 256) × Numbered (base + 1) us

pub record InSequence (base : ℕ) (c : Circuit) : Type 0 where
  pub numbered : Numbered base c.unacked
  pub next : c.vs ≡ (base + length c.unacked) % 256

abbrev pub fragment_in : Unacked → Fragment
fragment_in u = record { bytes = u.payload; more_follows = u.more_follows }

-- What the peer has not acknowledged yet, in flight or not.
abbrev pub pending : Circuit → List Fragment
pending c = map fragment_in c.unacked ++ c.send_queue

acked_behind : (b e : ℕ) → b < e → e ≤ b + 128 → seq_acked (b % 256) (e % 256) ≡ true
unfolding seq_acked
acked_behind b e h k = ground arith

not_acked_ahead : (b e : ℕ) → e ≤ b → b < e + 128 → seq_acked (b % 256) (e % 256) ≡ false
unfolding seq_acked
not_acked_ahead b e h k = ground arith

remove_all-none :
    (e base : ℕ) (us : List Unacked)
    → Numbered base us
    → e ≤ base
    → base + length us ≤ e + 128
    → remove_all (λ u. seq_acked u.sequence (e % 256)) us ≡ us
unfolding remove_all
remove_all-none e base [] n h k = refl
remove_all-none e base (u ∷ us) n h k =
    rw
      (
        n.0,
        not_acked_ahead base e h (omega arith),
        remove_all-none e (base + 1) us n.1 (omega arith) (omega arith),
      )
      refl

-- An acknowledgement of the first `k` takes exactly those.
remove_all-drop :
    (k base : ℕ) (us : List Unacked)
    → Numbered base us
    → k ≤ length us
    → length us ≤ 128
    → remove_all (λ u. seq_acked u.sequence ((base + k) % 256)) us ≡ drop k us
unfolding remove_all
remove_all-drop k base [] n h l = sym (drop-nil k)
remove_all-drop zero base (u ∷ us) n h l =
    remove_all-none (base + 0) base (u ∷ us) n (omega arith) (omega arith)
remove_all-drop (suc k) base (u ∷ us) n h l =
    let e : base + 1 + k ≡ base + suc k = omega arith in
    let acked : seq_acked u.sequence ((base + suc k) % 256) ≡ true =
      ap (λ s. seq_acked s ((base + suc k) % 256)) n.0
      ∙ acked_behind base (base + suc k) (omega arith) (omega arith) in
    rw acked (
      subst (λ m. remove_all (λ x. seq_acked x.sequence (m % 256)) us ≡ drop k us) e
        (remove_all-drop k (base + 1) us n.1 (omega arith) (omega arith)))

Numbered-append :
    (base : ℕ) (us : List Unacked) (u : Unacked)
    → Numbered base us
    → u.sequence ≡ (base + length us) % 256
    → Numbered base (us ++ (u ∷ []))
Numbered-append base [] u n e = (e ∙ ap (λ m. m % 256) (omega arith), tt)
Numbered-append base (v ∷ us) u n e =
    (n.0, Numbered-append (base + 1) us u n.1 (e ∙ ap (λ m. m % 256) (omega arith)))

Numbered-drop :
    (k base : ℕ) (us : List Unacked)
    → Numbered base us
    → k ≤ length us
    → Numbered (base + k) (drop k us)
Numbered-drop zero base us n h =
    subst (λ b. Numbered b us) (let e : base ≡ base + 0 = omega arith in e) n
Numbered-drop (suc k) base [] n h = absurd (omega arith)
Numbered-drop (suc k) base (u ∷ us) n h =
    subst (λ b. Numbered b (drop k us)) (let e : base + 1 + k ≡ base + suc k = omega arith in e)
      (Numbered-drop k (base + 1) us n.1 (omega arith))

map-drop :
    (k : ℕ) (us : List Unacked) (queue : List Fragment)
    → k ≤ length us
    → map fragment_in (drop k us) ++ queue ≡ drop k (map fragment_in us ++ queue)
map-drop zero us queue h = refl
map-drop (suc k) [] queue h = absurd (omega arith)
map-drop (suc k) (u ∷ us) queue h = map-drop k us queue (omega arith)

map-append_one :
    (us : List Unacked) (u : Unacked) (queue : List Fragment)
    → map fragment_in (us ++ (u ∷ [])) ++ queue ≡ map fragment_in us ++ (fragment_in u ∷ queue)
map-append_one [] u queue = refl
map-append_one (v ∷ us) u queue = ap (λ r. fragment_in v ∷ r) (map-append_one us u queue)

transmit-InSequence :
    (base now : ℕ) (c : Circuit) (f : Fragment)
    → InSequence base c
    → InSequence base (transmit now c f)
unfolding transmit send_information
transmit-InSequence base now c f v = record {
  numbered = Numbered-append base c.unacked _ v.numbered v.next;
  next = ap (λ s. (s + 1) % 256) v.next ∙ omega (arith, length-append c.unacked (_ ∷ []));
}

transmit-pending :
    (now : ℕ) (c : Circuit) (f : Fragment) (fs : List Fragment)
    → map fragment_in (transmit now c f).unacked ++ fs ≡ map fragment_in c.unacked ++ (f ∷ fs)
unfolding transmit send_information
transmit-pending now c f fs = map-append_one c.unacked _ fs

-- The send side numbers on, and keeps every fragment.
record Pumped (base : ℕ) (waiting : List Fragment) (d : Circuit) : Type 0 where
  in_sequence : InSequence base d
  kept : pending d ≡ waiting

pump_loop-Pumped :
    (base now : ℕ) (c : Circuit) (fs : List Fragment)
    → InSequence base c
    → Pumped base (map fragment_in c.unacked ++ fs) (pump_loop now c fs)
unfolding pump_loop
pump_loop-Pumped base now c [] v = record {
  in_sequence = record { numbered = v.numbered; next = v.next };
  kept = refl;
}
pump_loop-Pumped base now c (f ∷ fs) v = elim (Bool-cases (ltb (length c.unacked) c.window)) [
  | inl t ↦
      rw (t, ← transmit-pending now c f fs)
        (pump_loop-Pumped base now (transmit now c f) fs (transmit-InSequence base now c f v))
  | inr e ↦
      rw e (record { in_sequence = record { numbered = v.numbered; next = v.next }; kept = refl })
]

pump_send_queue-Pumped :
    (base now : ℕ) (c : Circuit)
    → InSequence base c
    → Pumped base (pending c) (pump_send_queue now c)
unfolding pump_send_queue
pump_send_queue-Pumped base now c v =
    elim (Bool-cases (not (is_connected c.state) || c.peer_choked)) [
      | inl t ↦ rw t (record { in_sequence = v; kept = refl })
      | inr e ↦ rw e (pump_loop-Pumped base now c c.send_queue v)
    ]

none_in : (us : List Unacked) → is_empty us ≡ true → length us ≡ 0
none_in [] e = refl
none_in (u ∷ us) e = cc

absorb-Pumped :
    (base k now : ℕ) (c : Circuit)
    → InSequence base c
    → length c.unacked ≤ 128
    → k ≤ length c.unacked
    → Pumped (base + k) (drop k (pending c)) (
        pump_send_queue now (record c {
          unacked = remove_all (λ u. seq_acked u.sequence ((base + k) % 256)) c.unacked;
          va = (base + k) % 256;
        }))
absorb-Pumped base k now c v few h =
    let left : Circuit = record c { unacked = drop k c.unacked; va = (base + k) % 256 } in
    let cut : InSequence (base + k) left = record {
      numbered = Numbered-drop k base c.unacked v.numbered h;
      next = v.next ∙ ap (λ m. m % 256) (omega (arith, length-drop k c.unacked));
    } in
    let p = pump_send_queue-Pumped (base + k) now left cut in
    rw (remove_all-drop k base c.unacked v.numbered h few)
      (record { in_sequence = p.in_sequence; kept = p.kept ∙ map-drop k c.unacked c.send_queue h })

-- With at most 128 entries in flight, numbered from `base` on, an acknowledgement that expects the
-- number `base + k`, where `k` is at most the number in flight, takes exactly the first `k` fragments
-- off what is pending. What is in flight afterwards is numbered from `base + k` on.
pub absorb_ack-pending :
    (base k now : ℕ) (c : Circuit)
    → InSequence base c
    → length c.unacked ≤ 128
    → k ≤ length c.unacked
    → (pending (absorb_ack now c ((base + k) % 256)) ≡ drop k (pending c))
      × InSequence (base + k) (absorb_ack now c ((base + k) % 256))
unfolding absorb_ack
absorb_ack-pending base k now c v few h = elim (Bool-cases (is_empty c.unacked)) [
  | inl t ↦
      let zero_in = none_in c.unacked t in
      let none_acked : k ≡ 0 = omega arith in
      let same : base ≡ base + k = omega arith in
      rw t (
        ap (λ n. drop n (pending c)) (sym none_acked),
        record {
          numbered = subst (λ b. Numbered b c.unacked) same v.numbered;
          next = v.next ∙ ap (λ b. (b + length c.unacked) % 256) same;
        },
      )
  | inr e ↦ let p = absorb-Pumped base k now c v few h in rw e (p.kept, p.in_sequence)
]

abbrev queued : Circuit → List ℕ → Circuit
queued c bytes = record c { send_queue = c.send_queue ++ fragments_of c.options bytes }

send-connected :
    (now : ℕ) (c : Circuit) (b : ℕ) (bs : List ℕ)
    → is_connected c.state ≡ true
    → send now c (b ∷ bs) ≡ pump_send_queue now (queued c (b ∷ bs))
unfolding send
send-connected now c b bs on = rw on refl

-- A frame that is sent on a connected circuit puts its fragments behind what is pending, and what is
-- in flight keeps its numbers.
pub send-pending :
    (base now : ℕ) (c : Circuit) (b : ℕ) (bs : List ℕ)
    → c.state ≡ connected
    → InSequence base c
    → (pending (send now c (b ∷ bs)) ≡ pending c ++ fragments_of c.options (b ∷ bs))
      × InSequence base (send now c (b ∷ bs))
send-pending base now c b bs on v =
    let p =
      pump_send_queue-Pumped base now (queued c (b ∷ bs))
        (record { numbered = v.numbered; next = v.next }) in
    rw (send-connected now c b bs (ap is_connected on)) (
      p.kept
          ∙ sym (
              append_assoc (map fragment_in c.unacked) c.send_queue
                (fragments_of c.options (b ∷ bs))),
      p.in_sequence,
    )
