-- ===== src/NetRom/Circuit/Delivery.antt =====
-- netrom/circuit.ts: the frames that the receiving side delivers from copies of the fragments of a
-- sender, in whatever order and however often the copies arrive.
use mathlib.Core.List.{flatten}
use ax25_ts.Base.{
  ==_iff, All, Bool, Bool-cases, List, [], ap, append-nil, append_assoc, ap₂, arith, drop, false,
  get_elem?, if◌then◌else◌, inl, inr, length, map, refl, some, suc, sym, take, take-all,
  take-append-drop, take-suc, true, ℕ, ◌%◌, ◌++◌, ◌+◌, ◌<◌, ◌==◌, ◌∙◌, ◌∷◌, ◌≡◌, ◌≤◌,
}
use ax25_ts.NetRom.Circuit.{Circuit, CircuitOptions, Fragment, Packet, connected}
use ax25_ts.NetRom.Circuit.Fragments.{
  Progress, advance, finish_frame, reassemble, reassemble-append, reassemble-fragments_of,
}
use ax25_ts.NetRom.Circuit.Methods.{fragments_of, on_information, on_packet}
use ax25_ts.NetRom.Circuit.Receive.{
  deliveries, fragment_of, on_information_expected, on_information_other, progress,
  progress-SameReceiver,
}
use ax25_ts.NetRom.Transport.{information}

-- Fragment number `index` of a sender, as a packet that arrives at `now`.
pub record Arrival : Type 0 where
  pub index : ℕ
  pub now : ℕ
  pub packet : Packet

-- The count of fragments taken after the arrivals: a fragment is taken when it is the next one.
abbrev pub taken_after : ℕ → ℕ → ℕ
taken_after r i = if i == r then r + 1 else r

abbrev pub count_taken : ℕ → List Arrival → ℕ
count_taken r [] = r
count_taken r (a ∷ rest) = count_taken (taken_after r a.index) rest

-- The packet carries its fragment under its number modulo 256, and the number is less than 256
-- away from the next one.
pub record IsCopy (frags : List Fragment) (r : ℕ) (a : Arrival) : Type 0 where
  pub is_information : a.packet.transport.opcode ≡ information
  pub numbered : a.packet.transport.tx_sequence ≡ a.index % 256
  pub carried : get_elem? frags a.index ≡ some (fragment_of a.packet.transport a.packet.payload)
  pub not_ahead : a.index < r + 256
  pub not_behind : r < a.index + 256

abbrev pub AllCopies : List Fragment → ℕ → List Arrival → Type 0
AllCopies frags r [] = Unit
AllCopies frags r (a ∷ rest) = IsCopy frags r a × AllCopies frags (taken_after r a.index) rest

abbrev pub receive_all : Circuit → List Arrival → Circuit
receive_all c [] = c
receive_all c (a ∷ rest) = receive_all (on_packet a.now c a.packet) rest

pub record Received (frags : List Fragment) (p : Progress) (r : ℕ) (c : Circuit) : Type 0 where
  pub state : c.state ≡ connected
  pub vr : c.vr ≡ r % 256
  pub made : progress c ≡ reassemble p (take r frags)

on_packet-information :
    (now : ℕ) (c : Circuit) (p : Packet)
    → p.transport.opcode ≡ information
    → on_packet now c p ≡ on_information now c p.transport p.payload
unfolding on_packet
on_packet-information now c p e = rw e refl

same_number : (i r : ℕ) → i < r + 256 → r < i + 256 → i % 256 ≡ r % 256 → i ≡ r
same_number i r a b e = ground arith

numbers_match : (i r : ℕ) → i ≡ r → (i % 256 == r % 256) ≡ true
numbers_match i r e = ground arith

numbers_differ :
    (i r : ℕ) → i < r + 256 → r < i + 256 → (i == r) ≡ false → (i % 256 == r % 256) ≡ false
numbers_differ i r a b e = ground (arith, same_number i r a b)

reassemble-take :
    (p : Progress) (frags : List Fragment) (r : ℕ) (f : Fragment)
    → get_elem? frags r ≡ some f
    → reassemble p (take (r + 1) frags) ≡ advance (reassemble p (take r frags)) f
reassemble-take p frags r f e =
    let n : r + 1 ≡ suc r = omega arith in
    ap (λ k. reassemble p (take k frags)) n
    ∙ ap (reassemble p) (take-suc r frags e)
    ∙ reassemble-append p (take r frags) (f ∷ [])

on_packet-Received :
    (frags : List Fragment) (p : Progress) (r : ℕ) (c : Circuit) (a : Arrival)
    → Received frags p r c
    → IsCopy frags r a
    → Received frags p (taken_after r a.index) (on_packet a.now c a.packet)
on_packet-Received frags p r c a h k =
    let t = a.packet.transport in
    let handled = on_packet-information a.now c a.packet k.is_information in
    let numbers : (t.tx_sequence == c.vr) ≡ (a.index % 256 == r % 256) =
      ap₂ (λ x y. x == y) k.numbered h.vr in
    elim (Bool-cases (a.index == r)) [
      | inl same ↦
          let here : a.index ≡ r = (==_iff a.index r).0 same in
          let d =
            on_information_expected a.now c t a.packet.payload h.state
              (numbers ∙ numbers_match a.index r here) in
          rw (handled, same)
            (record {
              state = d.state ∙ h.state;
              vr = d.vr ∙ ap (λ v. (v + 1) % 256) h.vr ∙ ground arith;
              made =
                  d.made
                  ∙ ap (λ q. advance q (fragment_of t a.packet.payload)) h.made
                  ∙ sym (
                      reassemble-take p frags r (fragment_of t a.packet.payload)
                        (ap (get_elem? frags) (sym here) ∙ k.carried));
            })
      | inr other ↦
          let d =
            on_information_other a.now c t a.packet.payload h.state
              (numbers ∙ numbers_differ a.index r k.not_ahead k.not_behind other) in
          rw (handled, other)
            (record {
              state = d.state ∙ h.state;
              vr = d.vr ∙ h.vr;
              made = progress-SameReceiver _ _ d ∙ h.made;
            })
    ]

-- Copies of the fragments, each less than 256 away from the next one, in any order and any number:
-- the circuit has taken exactly the first `count_taken` ones, each once and in order.
pub receive_all-Received :
    (frags : List Fragment) (p : Progress) (r : ℕ) (c : Circuit) (arrivals : List Arrival)
    → Received frags p r c
    → AllCopies frags r arrivals
    → Received frags p (count_taken r arrivals) (receive_all c arrivals)
receive_all-Received frags p r c [] h k = h
receive_all-Received frags p r c (a ∷ rest) h k =
    receive_all-Received frags p (taken_after r a.index) (on_packet a.now c a.packet) rest
      (on_packet-Received frags p r c a h k.0) k.1

finish_frame-grows :
    (more : Bool) (done : List (List ℕ)) (part : List ℕ)
    → (more_done : List (List ℕ)) × ((finish_frame more done part).0 ≡ done ++ more_done)
finish_frame-grows true done part = ([], sym (append-nil done))
finish_frame-grows false done [] = ([], sym (append-nil done))
finish_frame-grows false done (b ∷ bs) = ((b ∷ bs) ∷ [], refl)

reassemble-grows :
    (p : Progress) (fs : List Fragment)
    → (more_done : List (List ℕ)) × ((reassemble p fs).0 ≡ p.0 ++ more_done)
reassemble-grows p [] = ([], sym (append-nil p.0))
reassemble-grows p (f ∷ fs) =
    let (a, e) = finish_frame-grows f.more_follows p.0 (p.1 ++ f.bytes) in
    let (b, g) = reassemble-grows (advance p f) fs in
    (a ++ b, g ∙ ap (λ t. t ++ b) e ∙ append_assoc p.0 a b)

-- A connected circuit that has delivered nothing gets copies of the fragments of non-empty frames,
-- each less than 256 away from the next one expected, in any order and any number. What it has
-- delivered is a prefix of the frames, and all of them when every fragment has been taken.
pub receive_all-prefix :
    (o : CircuitOptions) (frames : List (List ℕ)) (c : Circuit) (arrivals : List Arrival)
    → All (λ f. 0 < length f) frames
    → c.state ≡ connected
    → c.vr ≡ 0
    → progress c ≡ ([], [])
    → AllCopies (flatten (map (fragments_of o) frames)) 0 arrivals
    → ((still : List (List ℕ)) × (frames ≡ deliveries (receive_all c arrivals).output ++ still))
      × (length (flatten (map (fragments_of o) frames)) ≤ count_taken 0 arrivals
          → deliveries (receive_all c arrivals).output ≡ frames)
receive_all-prefix o frames c arrivals some_bytes on zeroed clean copies =
    let frags = flatten (map (fragments_of o) frames) in
    let n = count_taken 0 arrivals in
    let got =
      receive_all-Received frags ([], []) 0 c arrivals
        (record { state = on; vr = zeroed; made = clean }) copies in
    let whole = reassemble-fragments_of o frames [] some_bytes in
    let split : reassemble ([], []) frags
        ≡ reassemble (reassemble ([], []) (take n frags)) (drop n frags) =
      ap (reassemble ([], [])) (sym (take-append-drop n frags))
      ∙ reassemble-append ([], []) (take n frags) (drop n frags) in
    let (still, e) = reassemble-grows (reassemble ([], []) (take n frags)) (drop n frags) in
    let out : deliveries (receive_all c arrivals).output ≡ (reassemble ([], []) (take n frags)).0 =
      ap (λ q. q.0) got.made in
    (
      (still, ap (λ q. q.0) (sym whole ∙ split) ∙ e ∙ ap (λ t. t ++ still) (sym out)),
      λ all.
          out ∙ ap (λ fs. (reassemble ([], []) fs).0) (take-all n frags all) ∙ ap (λ q. q.0) whole,
    )
