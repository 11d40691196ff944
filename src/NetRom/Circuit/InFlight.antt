-- ===== src/NetRom/Circuit/InFlight.antt =====
-- netrom/circuit.ts: the send window under the send side, the acknowledgements and resending.
use ax25_ts.Base.{
  Bool, Bool-cases, List, [], arith, false, if◌then◌else◌, inl, inr, is_empty, length,
  length-append, refl, true, ℕ, ◌+◌, ◌∙◌, ◌∷◌, ◌≡◌, ◌≤◌,
}
use ax25_ts.NetRom.Circuit.{
  Circuit, Fragment, Unacked, is_connected, is_disconnecting, remove_all, send_information,
  seq_acked,
}
use ax25_ts.NetRom.Circuit.Sending.{
  absorb_ack, apply_peer_choke, pump_loop, pump_send_queue, retransmit_loop, transmit, with_unacked,
}

pub record InWindow (c : Circuit) : Type 0 where
  pub bounded : length c.unacked ≤ c.window
  pub idle : is_connected c.state ≡ false → is_disconnecting c.state ≡ false → c.unacked ≡ []

-- The send side changes neither the state nor the window.
pub record SameLink (c d : Circuit) : Type 0 where
  pub state : d.state ≡ c.state
  pub window : d.window ≡ c.window

pump_loop-SameLink : (now : ℕ) (c : Circuit) (fs : List Fragment) → SameLink c (pump_loop now c fs)
unfolding pump_loop transmit
pump_loop-SameLink now c [] = record { state = refl; window = refl }
pump_loop-SameLink now c (f ∷ fs) = ground (arith, pump_loop-SameLink now (transmit now c f) fs)

transmit-length :
    (now : ℕ) (c : Circuit) (f : Fragment)
    → (length (transmit now c f).unacked ≡ length c.unacked + 1)
      × ((transmit now c f).window ≡ c.window)
unfolding transmit
transmit-length now c f = (length-append c.unacked (_ ∷ []), refl)

pump_loop_bounded :
    (now : ℕ) (c : Circuit) (fs : List Fragment)
    → length c.unacked ≤ c.window
    → length (pump_loop now c fs).unacked ≤ c.window
unfolding pump_loop
pump_loop_bounded now c [] h = h
pump_loop_bounded now c (f ∷ fs) h =
    ground (arith, transmit-length now c f, pump_loop_bounded now (transmit now c f) fs)

pump-SameLink : (now : ℕ) (c : Circuit) → SameLink c (pump_send_queue now c)
unfolding pump_send_queue
pump-SameLink now c = ground (arith, pump_loop-SameLink now c c.send_queue)

pub pump-InWindow : (now : ℕ) (c : Circuit) → InWindow c → InWindow (pump_send_queue now c)
unfolding pump_send_queue
pump-InWindow now c v =
    ground (arith, pump_loop-SameLink now c c.send_queue, pump_loop_bounded now c c.send_queue)

length-remove_all {ℓ} :
    {A : Type ℓ} (p : A → Bool) (xs : List A) → length (remove_all p xs) ≤ length xs
unfolding remove_all
length-remove_all p [] = omega arith
length-remove_all p (x ∷ xs) = ground (arith, length-remove_all p xs)

removed-InWindow :
    (c : Circuit) (p : Unacked → Bool) (va : ℕ)
    → InWindow c
    → InWindow (record c { unacked = remove_all p c.unacked; va = va })
removed-InWindow c p va v = record {
  bounded = omega (arith, v.bounded, length-remove_all p c.unacked);
  idle = λ a b. rw (v.idle a b) (unfold remove_all in refl);
}

pub absorb_ack-SameLink : (now : ℕ) (c : Circuit) (e : ℕ) → SameLink c (absorb_ack now c e)
unfolding absorb_ack
absorb_ack-SameLink now c e = ground (
  arith,
  pump-SameLink now
      (record c { unacked = remove_all (λ u. seq_acked u.sequence e) c.unacked; va = e }),
)

pub absorb_ack-InWindow :
    (now : ℕ) (c : Circuit) (e : ℕ) → InWindow c → InWindow (absorb_ack now c e)
unfolding absorb_ack
absorb_ack-InWindow now c e v = elim (Bool-cases (is_empty c.unacked)) [
  | inl t ↦ rw t (record { bounded = v.bounded; idle = v.idle })
  | inr f ↦ rw f (pump-InWindow now _ (removed-InWindow c (λ u. seq_acked u.sequence e) e v))
]

pub apply_peer_choke-InWindow :
    (now : ℕ) (c : Circuit) (b : Bool) → InWindow c → InWindow (apply_peer_choke now c b)
unfolding apply_peer_choke
apply_peer_choke-InWindow now c b v =
    ground (arith, pump-InWindow now (record c { peer_choked = false }))

pub apply_peer_choke-SameLink :
    (now : ℕ) (c : Circuit) (b : Bool) → SameLink c (apply_peer_choke now c b)
unfolding apply_peer_choke
apply_peer_choke-SameLink now c b =
    ground (arith, pump-SameLink now (record c { peer_choked = false }))

-- Resending replaces entries one for one.
pub record Replayed (c : Circuit) (us : List Unacked) (r : Circuit × List Unacked) : Type 0 where
  pub count : length r.1 ≡ length us
  pub same_unacked : r.0.unacked ≡ c.unacked
  pub link : SameLink c r.0

pub retransmit_loop-Replayed :
    (now : ℕ) (due : Unacked → Bool) (c : Circuit) (us : List Unacked)
    → Replayed c us (retransmit_loop now due c us)
unfolding retransmit_loop send_information
retransmit_loop-Replayed now due c [] = record {
  count = refl;
  same_unacked = refl;
  link = record { state = refl; window = refl };
}
retransmit_loop-Replayed now due c (u ∷ us) =
    let c' = if due u then send_information c u.sequence u.payload u.more_follows else c in
    let ih = retransmit_loop-Replayed now due c' us in
    record {
      count = omega (arith, ih.count);
      same_unacked = ih.same_unacked ∙ ground arith;
      link = record {
        state = ih.link.state ∙ ground arith;
        window = ih.link.window ∙ ground arith;
      };
    }

pub Replayed-InWindow :
    (c : Circuit) (us : List Unacked) (r : Circuit × List Unacked)
    → length us ≤ c.window
    → is_connected c.state ≡ true
    → Replayed c us r
    → InWindow (with_unacked r)
Replayed-InWindow c us r h on v = record {
  bounded = rw (v.link.window, v.count) h;
  idle = λ a b. let x : is_connected c.state ≡ false = rw v.link.state at a in cc;
}
