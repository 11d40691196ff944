-- ===== src/NetRom/Circuit/Receive.antt =====
-- netrom/circuit.ts: what the receiving side makes of Information packets that are lost, repeated
-- or out of order.
use ax25_ts.Base.{
  Bool, Bool-cases, List, [], ap, append-nil, ap₂, arith, false, if◌then◌else◌, inl, inr, length,
  ltb, refl, true, ℕ, ◌%◌, ◌++◌, ◌+◌, ◌==◌, ◌∙◌, ◌∷◌, ◌≡◌,
}
use ax25_ts.NetRom.Circuit.{
  Circuit, Fragment, Output, Packet, connected, data_received, fired_closed, fired_connected,
  mod256_after, remove_all, say, send_information_acknowledge, sent, seq_acked,
}
use ax25_ts.NetRom.Circuit.Fragments.{Progress, advance, finish_frame}
use ax25_ts.NetRom.Circuit.Methods.{accept_information, deliver, on_information}
use ax25_ts.NetRom.Circuit.Sending.{
  absorb_ack, apply_peer_choke, maybe_assert_choke, pump_loop, pump_send_queue, transmit,
}
use ax25_ts.NetRom.Transport.{TransportHeader, header_choke, header_more_follows}

-- The frames handed to the application.
abbrev pub deliveries : List Output → List (List ℕ)
deliveries [] = []
deliveries (data_received d ∷ os) = d ∷ deliveries os
deliveries (sent p ∷ os) = deliveries os
deliveries (fired_connected ∷ os) = deliveries os
deliveries (fired_closed r ∷ os) = deliveries os

deliveries-append : (xs ys : List Output) → deliveries (xs ++ ys) ≡ deliveries xs ++ deliveries ys
deliveries-append [] ys = refl
deliveries-append (data_received d ∷ xs) ys = ap (λ r. d ∷ r) (deliveries-append xs ys)
deliveries-append (sent p ∷ xs) ys = deliveries-append xs ys
deliveries-append (fired_connected ∷ xs) ys = deliveries-append xs ys
deliveries-append (fired_closed r ∷ xs) ys = deliveries-append xs ys

deliveries-sent : (xs : List Output) (p : Packet) → deliveries (xs ++ (sent p ∷ [])) ≡ deliveries xs
deliveries-sent xs p = deliveries-append xs (sent p ∷ []) ∙ append-nil (deliveries xs)

pub record SameReceiver (c d : Circuit) : Type 0 where
  pub state : d.state ≡ c.state
  pub vr : d.vr ≡ c.vr
  pub reassembly : d.reassembly ≡ c.reassembly
  pub delivered_same : deliveries d.output ≡ deliveries c.output

SameReceiver-refl : (c : Circuit) → SameReceiver c c
SameReceiver-refl c = record { state = refl; vr = refl; reassembly = refl; delivered_same = refl }

SameReceiver-trans : (c d e : Circuit) → SameReceiver c d → SameReceiver d e → SameReceiver c e
SameReceiver-trans c d e p q = record {
  state = q.state ∙ p.state;
  vr = q.vr ∙ p.vr;
  reassembly = q.reassembly ∙ p.reassembly;
  delivered_same = q.delivered_same ∙ p.delivered_same;
}

send_acknowledge-SameReceiver :
    (c : Circuit) (nak : Bool) → SameReceiver c (send_information_acknowledge c nak)
unfolding send_information_acknowledge
send_acknowledge-SameReceiver c nak = record {
  state = refl;
  vr = refl;
  reassembly = refl;
  delivered_same = deliveries-sent c.output _;
}

transmit-SameReceiver : (now : ℕ) (c : Circuit) (f : Fragment) → SameReceiver c (transmit now c f)
unfolding transmit
transmit-SameReceiver now c f = record {
  state = refl;
  vr = refl;
  reassembly = refl;
  delivered_same = deliveries-sent c.output _;
}

pump_loop-SameReceiver :
    (now : ℕ) (c : Circuit) (fs : List Fragment) → SameReceiver c (pump_loop now c fs)
unfolding pump_loop
pump_loop-SameReceiver now c [] = record {
  state = refl;
  vr = refl;
  reassembly = refl;
  delivered_same = refl;
}
pump_loop-SameReceiver now c (f ∷ fs) = elim (Bool-cases (ltb (length c.unacked) c.window)) [
  | inl t ↦ rw t (
      SameReceiver-trans c _ _ (transmit-SameReceiver now c f)
        (pump_loop-SameReceiver now (transmit now c f) fs))
  | inr e ↦ rw e (record { state = refl; vr = refl; reassembly = refl; delivered_same = refl })
]

pump-SameReceiver : (now : ℕ) (c : Circuit) → SameReceiver c (pump_send_queue now c)
unfolding pump_send_queue
pump-SameReceiver now c =
    ground (arith, pump_loop-SameReceiver now c c.send_queue, SameReceiver-refl c)

absorb_ack-SameReceiver : (now : ℕ) (c : Circuit) (e : ℕ) → SameReceiver c (absorb_ack now c e)
unfolding absorb_ack
absorb_ack-SameReceiver now c e = ground (
  arith,
  pump-SameReceiver now
      (record c { unacked = remove_all (λ u. seq_acked u.sequence e) c.unacked; va = e }),
)

apply_peer_choke-SameReceiver :
    (now : ℕ) (c : Circuit) (b : Bool) → SameReceiver c (apply_peer_choke now c b)
unfolding apply_peer_choke
apply_peer_choke-SameReceiver now c b =
    ground (arith, pump-SameReceiver now (record c { peer_choked = false }))

-- What has been delivered, and the frame in progress.
abbrev pub progress : Circuit → Progress
progress c = (deliveries c.output, c.reassembly)

abbrev pub fragment_of : TransportHeader → List ℕ → Fragment
fragment_of t payload = record { bytes = payload; more_follows = header_more_follows t }

pub record Delivered (c : Circuit) (t : TransportHeader) (d : Circuit) : Type 0 where
  pub state : d.state ≡ c.state
  pub vr : d.vr ≡ c.vr
  pub made : progress d ≡ finish_frame (header_more_follows t) (deliveries c.output) c.reassembly

maybe_assert-SameReceiver : (c : Circuit) → SameReceiver c (maybe_assert_choke c)
unfolding maybe_assert_choke
maybe_assert-SameReceiver c = ground (arith, SameReceiver-refl c)

deliver_in :
    (c : Circuit) (t : TransportHeader) (part : List ℕ)
    → c.reassembly ≡ part
    → Delivered c t (deliver c t)
unfolding deliver
deliver_in c t [] e = elim (Bool-cases (header_more_follows t)) [
  | inl m ↦ rw (m, e) (record { state = refl; vr = refl; made = rw m })
  | inr m ↦ rw (m, e) (record { state = refl; vr = refl; made = rw m })
]
deliver_in c t (b ∷ bs) e = elim (Bool-cases (header_more_follows t)) [
  | inl m ↦ rw (m, e) (record { state = refl; vr = refl; made = rw m })
  | inr m ↦
      let out =
        say
          (record c {
            reassembly = [];
            pending_deliveries =
                if ltb 0 c.options.choke_threshold
                then c.pending_deliveries + 1
                else c.pending_deliveries;
          })
          (data_received c.reassembly) in
      let same = maybe_assert-SameReceiver out in
      let ran : deliver c t ≡ maybe_assert_choke out = ground arith in
      rw ran (record {
        state = same.state;
        vr = same.vr;
        made =
            ap₂ (λ (a : List (List ℕ)) (b : List ℕ). (a, b))
              (same.delivered_same ∙ deliveries-append c.output _) same.reassembly
            ∙ rw (m, e);
      })
]

deliver-Delivered : (c : Circuit) (t : TransportHeader) → Delivered c t (deliver c t)
deliver-Delivered c t = deliver_in c t c.reassembly refl

-- Information past its acknowledgement, with the number expected or with another.
pub record Taken (c : Circuit) (t : TransportHeader) (payload : List ℕ) (d : Circuit) : Type 0 where
  pub state : d.state ≡ c.state
  pub vr : d.vr ≡ (c.vr + 1) % 256
  pub made : progress d ≡ advance (progress c) (fragment_of t payload)

pub progress-SameReceiver : (c d : Circuit) → SameReceiver c d → progress d ≡ progress c
progress-SameReceiver c d s =
    ap₂ (λ (a : List (List ℕ)) (b : List ℕ). (a, b)) s.delivered_same s.reassembly

in_order :
    (c : Circuit) (t : TransportHeader) (payload : List ℕ)
    → Taken c t payload (
        send_information_acknowledge
          (deliver (record c { vr = (c.vr + 1) % 256; reassembly = c.reassembly ++ payload }) t)
          false)
in_order c t payload =
    let taken = record c { vr = (c.vr + 1) % 256; reassembly = c.reassembly ++ payload } in
    let d = deliver-Delivered taken t in
    let s = send_acknowledge-SameReceiver (deliver taken t) false in
    record {
      state = s.state ∙ d.state;
      vr = s.vr ∙ d.vr;
      made = progress-SameReceiver _ _ s ∙ d.made;
    }

accept_expected :
    (c : Circuit) (t : TransportHeader) (payload : List ℕ)
    → (t.tx_sequence == c.vr) ≡ true
    → Taken c t payload (accept_information c t payload)
unfolding accept_information
accept_expected c t payload e = rw e (in_order c t payload)

accept_other :
    (c : Circuit) (t : TransportHeader) (payload : List ℕ)
    → (t.tx_sequence == c.vr) ≡ false
    → SameReceiver c (accept_information c t payload)
unfolding accept_information
accept_other c t payload e =
    rw e (send_acknowledge-SameReceiver c (mod256_after t.tx_sequence c.vr))

-- The circuit that the information itself meets.
abbrev acknowledged : ℕ → Circuit → TransportHeader → Circuit
acknowledged now c t = apply_peer_choke now (absorb_ack now c t.rx_sequence) (header_choke t)

acknowledged-SameReceiver :
    (now : ℕ) (c : Circuit) (t : TransportHeader) → SameReceiver c (acknowledged now c t)
acknowledged-SameReceiver now c t =
    SameReceiver-trans _ _ _ (absorb_ack-SameReceiver now c t.rx_sequence)
      (apply_peer_choke-SameReceiver now (absorb_ack now c t.rx_sequence) (header_choke t))

on_information_connected :
    (now : ℕ) (c : Circuit) (t : TransportHeader) (payload : List ℕ)
    → c.state ≡ connected
    → on_information now c t payload ≡ accept_information (acknowledged now c t) t payload
unfolding on_information
on_information_connected now c t payload on = rw on refl

pub on_information_expected :
    (now : ℕ) (c : Circuit) (t : TransportHeader) (payload : List ℕ)
    → c.state ≡ connected
    → (t.tx_sequence == c.vr) ≡ true
    → Taken c t payload (on_information now c t payload)
on_information_expected now c t payload on e =
    let s = acknowledged-SameReceiver now c t in
    let k =
      accept_expected (acknowledged now c t) t payload (ap (λ v. t.tx_sequence == v) s.vr ∙ e) in
    rw (on_information_connected now c t payload on) (record {
      state = k.state ∙ s.state;
      vr = k.vr ∙ ap (λ v. (v + 1) % 256) s.vr;
      made = k.made ∙ ap (λ p. advance p (fragment_of t payload)) (progress-SameReceiver _ _ s);
    })

pub on_information_other :
    (now : ℕ) (c : Circuit) (t : TransportHeader) (payload : List ℕ)
    → c.state ≡ connected
    → (t.tx_sequence == c.vr) ≡ false
    → SameReceiver c (on_information now c t payload)
on_information_other now c t payload on e =
    let s = acknowledged-SameReceiver now c t in
    rw (on_information_connected now c t payload on) (
      SameReceiver-trans _ _ _ s
        (accept_other (acknowledged now c t) t payload (ap (λ v. t.tx_sequence == v) s.vr ∙ e)))
