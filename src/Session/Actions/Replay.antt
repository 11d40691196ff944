-- ===== src/Session/Actions/Replay.antt =====
-- sdl/action-dispatcher.ts (emitOldIFrame): a frame that is sent again.
use ax25_ts.Base.{
  ==_refl, Bool, Bool-cases, List, Option, Result, [], arith, err, false, inl, inr, none, not, ok,
  refl, some, subst, true, ℕ, ◌++◌, ◌<◌, ◌||◌, ◌∷◌, ◌≡◌, ◌⊎◌,
}
use ax25_ts.Frame.{Ax25Frame, FrameError, i_kind}
use ax25_ts.Frame.Control.{Reads, frame_on-IsOn, i_frame-Reads}
use ax25_ts.Frame.Factory.{FrameFactoryOpts, i_frame}
use ax25_ts.Kiss.{fresh}
use ax25_ts.SegmentationLayer.{DataUnit}
use ax25_ts.Session.{get_entry, is_outstanding, modulus}
use ax25_ts.Session.Actions.{
  Transition, emit_old_i_frame, frame_opts, has_number, resend_entry, send_frame,
}

has_number-added : (n : ℕ) (xs : List ℕ) → has_number n (xs ++ (n ∷ [])) ≡ true
unfolding has_number
has_number-added n [] = rw (==_refl n) refl
has_number-added n (x ∷ xs) = ground (arith, has_number-added n xs)

-- The frame that was sent again: one more than before, with the number, the octets and the protocol of
-- the frame as it was stored, and this station's receive count.
pub record IsResent (tx : Transition) (ns : ℕ) (after : Transition) : Type 0 where
  pub frame : Ax25Frame
  pub entry : DataUnit
  pub outstanding : is_outstanding tx.context ns ≡ true
  pub first_time : has_number ns tx.context.selectively_retransmitted_since_ack ≡ false
  pub stored : get_entry ns tx.context.sent_i_frames ≡ some entry
  pub one_more : after.sent ≡ tx.sent ++ (frame ∷ [])
  pub numbers : Reads frame i_kind ns tx.context.vr false
  pub octets : frame.info ≡ entry.bytes
  pub protocol : frame.pid ≡ some entry.pid

i_frame-content :
    (opts : FrameFactoryOpts) (nr ns : ℕ) (info : List ℕ) (pid : ℕ) (pf extended : Bool)
    (frame : Ax25Frame)
    → i_frame opts nr ns info pid pf extended ≡ ok frame
    → (frame.info ≡ info) × (frame.pid ≡ some pid)
unfolding i_frame
i_frame-content opts nr ns info pid pf true frame e =
    let f = frame_on-IsOn opts true _ _ _ info frame e in (f.info_field, f.pid_field)
i_frame-content opts nr ns info pid pf false frame e =
    let f = frame_on-IsOn opts true _ _ _ info frame e in (f.info_field, f.pid_field)

send_frame-ok :
    (tx : Transition) (r : Result FrameError Ax25Frame) (after : Transition)
    → send_frame tx r ≡ ok after
    → (frame : Ax25Frame) × ((r ≡ ok frame)
        × (record tx { sent = tx.sent ++ (frame ∷ []) } ≡ after))
unfolding send_frame
send_frame-ok tx (ok frame) after e = (frame, (refl, cc e))
send_frame-ok tx (err x) after e = absurd (cc e)

-- A number that is noted is not sent again.
noted_again :
    (after : Transition) (ns : ℕ)
    → has_number ns after.context.selectively_retransmitted_since_ack ≡ true
    → emit_old_i_frame after ns true ≡ ok after
unfolding emit_old_i_frame
noted_again after ns h =
    let idle : (not (is_outstanding after.context ns)
          || has_number ns after.context.selectively_retransmitted_since_ack)
        ≡ true =
      ground (arith, h) in
    rw idle refl

abbrev noted : Transition → ℕ → Transition
noted tx ns = record tx {
  context = record tx.context {
    selectively_retransmitted_since_ack =
        tx.context.selectively_retransmitted_since_ack ++ (ns ∷ []);
  };
}

resent :
    (tx : Transition) (ns : ℕ) (o : Option DataUnit) (after : Transition)
    → tx.context.vr < modulus tx.context
    → ns < modulus tx.context
    → is_outstanding tx.context ns ≡ true
    → has_number ns tx.context.selectively_retransmitted_since_ack ≡ false
    → get_entry ns tx.context.sent_i_frames ≡ o
    → resend_entry (noted tx ns) ns o ≡ ok after
    → (emit_old_i_frame after ns true ≡ ok after) × ((after.sent ≡ tx.sent) ⊎ IsResent tx ns after)
unfolding resend_entry
resent tx ns none after v h out fresh g e =
    let known =
      noted_again (noted tx ns) ns
        (has_number-added ns tx.context.selectively_retransmitted_since_ack) in
    let same : noted tx ns ≡ after = cc e in
    subst (λ x. (emit_old_i_frame x ns true ≡ ok x) × ((x.sent ≡ tx.sent) ⊎ IsResent tx ns x)) same
      (known, inl refl)
resent tx ns (some entry) after v h out fresh g e =
    let (frame, (built, same)) = send_frame-ok (noted tx ns) _ after e in
    let done = record (noted tx ns) { sent = tx.sent ++ (frame ∷ []) } in
    let known =
      noted_again done ns (has_number-added ns tx.context.selectively_retransmitted_since_ack) in
    let content =
      i_frame-content (frame_opts (noted tx ns)) tx.context.vr ns entry.bytes entry.pid false _
        frame built in
    subst (λ x. (emit_old_i_frame x ns true ≡ ok x) × ((x.sent ≡ tx.sent) ⊎ IsResent tx ns x)) same
      (
        known,
        inr (record {
          frame = frame;
          entry = entry;
          outstanding = out;
          first_time = fresh;
          stored = g;
          one_more = refl;
          numbers =
              i_frame-Reads (frame_opts (noted tx ns)) tx.context.vr ns entry.bytes entry.pid false
                _ frame v h built;
          octets = content.0;
          protocol = content.1;
        }),
      )

-- A selective replay of a number below the modulus that does not throw, with V(R) below the modulus:
-- it sends nothing, or exactly one frame. It sends one only for a number that is outstanding, has not
-- been replayed since the last acknowledgement that moved V(A), and is stored; the frame is read as an
-- I frame with that number, V(R) and no poll, and it carries the stored octets and protocol. Asked for
-- the same number again, it does nothing.
pub emit_old_i_frame-once :
    (tx : Transition) (ns : ℕ) (after : Transition)
    → tx.context.vr < modulus tx.context
    → ns < modulus tx.context
    → emit_old_i_frame tx ns true ≡ ok after
    → (emit_old_i_frame after ns true ≡ ok after) × ((after.sent ≡ tx.sent) ⊎ IsResent tx ns after)
unfolding emit_old_i_frame
emit_old_i_frame-once tx ns after v h e =
    elim (Bool-cases (
      not (is_outstanding tx.context ns)
      || has_number ns tx.context.selectively_retransmitted_since_ack)) [
        | inl idle ↦
            let same : tx ≡ after = cc (rw idle at e) in
            subst
              (λ x. (emit_old_i_frame x ns true ≡ ok x) × ((x.sent ≡ tx.sent) ⊎ IsResent tx ns x))
              same (rw idle refl, inl refl)
        | inr due ↦
            resent tx ns (get_entry ns tx.context.sent_i_frames) after v h (ground arith)
              (ground arith) refl (rw due at e)
      ]
