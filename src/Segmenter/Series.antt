-- ===== src/Segmenter/Series.antt =====
-- sdl/segmenter.ts: a series of segments, and what the reassembler makes of it.
use mathlib.Core.List.{flatten}
use native.Mathlib.Decide.{dec_le}
use ax25_ts.Base.{
  Bool, List, Option, Result, [], append-nil, append_assoc, arith, bit_or, drop, drop-all,
  drop-drop, false, flatten-append_one, if◌then◌else◌, length, length-drop, min, none, ok, refl,
  some, suc, sym, take, take-all, take-append-drop, take-min, true, zero, ℕ, ◌%◌, ◌*◌, ◌++◌, ◌+◌,
  ◌-◌, ◌<◌, ◌==◌, ◌∙◌, ◌∷◌, ◌≡◌, ◌≤◌,
}
use ax25_ts.Base.Bytes.{bit_or_top, bit_or_zero}
use ax25_ts.Segmenter.{
  Reassembler, ReassemblyError, accept, chunk, first_segment, inner_loop, literal_loop, push,
  push_all, push_first, push_next, segment_first_bit,
}

-- Segments after the first, `rounds` of them, for the data `rest`.
abbrev continuation : ℕ → ℕ → List ℕ → List (List ℕ)
continuation per zero rest = []
continuation per (suc rounds) rest =
    ((rounds % 128) ∷ take per rest) ∷ continuation per rounds (drop per rest)

pub chunk-take :
    (per offset : ℕ) (payload : List ℕ) → chunk per offset payload ≡ take per (drop offset payload)
chunk-take per offset payload =
    rw (← length-drop offset payload) (take-min per (drop offset payload))

header_next :
    (i rounds count : ℕ)
    → 0 < i
    → i + suc rounds ≡ count
    → bit_or (if i == 0 then segment_first_bit else 0) ((count - 1 - i) % 128) ≡ rounds % 128
header_next i rounds count h e =
    let r : count - 1 - i ≡ rounds = omega arith in
    rw r (ground (arith, bit_or_zero (rounds % 128)))

pub literal_loop-continuation :
    (per count rounds i : ℕ) (payload : List ℕ)
    → 0 < i
    → i + rounds ≡ count
    → literal_loop per count payload rounds i ≡ continuation per rounds (drop (i * per) payload)
unfolding literal_loop
literal_loop-continuation per count zero i payload h e = refl
literal_loop-continuation per count (suc rounds) i payload h e =
    let next : i * per + per ≡ (i + 1) * per = omega arith in
    rw (
      header_next i rounds count h e,
      chunk-take per (i * per) payload,
      literal_loop-continuation per count rounds (i + 1) payload (omega arith) (omega arith),
      drop-drop per (i * per) payload,
      next,
    )

-- Past the end of the payload the source stops adding to the offset.
pub drop-capped :
    (per offset : ℕ) (payload : List ℕ)
    → drop (offset + min per (length payload - offset)) payload ≡ drop per (drop offset payload)
drop-capped per offset payload = elim (dec_le per (length payload - offset)) [
  | yes h ↦
      let e : offset + min per (length payload - offset) ≡ offset + per = omega arith in
      rw e (sym (drop-drop per offset payload))
  | no h ↦
      drop-all _ payload (omega arith)
      ∙ sym (drop-all per (drop offset payload) (omega (arith, length-drop offset payload)))
]

pub inner_loop-continuation :
    (per count rounds i offset : ℕ) (payload : List ℕ)
    → i + rounds ≡ count
    → inner_loop per count payload rounds i offset ≡ continuation per rounds (drop offset payload)
unfolding inner_loop
inner_loop-continuation per count zero i offset payload e = refl
inner_loop-continuation per count (suc rounds) i offset payload e =
    let r : count - 1 - i ≡ rounds = omega arith in
    rw (
      r,
      chunk-take per offset payload,
      inner_loop-continuation per count rounds (i + 1) (offset + min per (length payload - offset))
          payload (omega arith),
      drop-capped per offset payload,
    )

-- A reassembler in the middle of a series, with `remaining` segments to come.
abbrev pub midway : Reassembler → List (List ℕ) → ℕ → Option ℕ → Reassembler
midway r acc remaining pid = record r {
  accumulated = acc;
  expected_remaining = some remaining;
  pending_pid = pid;
}

-- The same after the last segment.
abbrev pub delivered : Reassembler → Option ℕ → Reassembler
delivered r pid = record r {
  accumulated = [];
  expected_remaining = none;
  pending_pid = none;
  last_recovered_pid = pid;
}

abbrev pub Answer : Type 0
Answer = Result ReassemblyError (Option (List ℕ))

abbrev pub is_some {ℓ} : {A : Type ℓ} → Option A → Bool
is_some none = false
is_some (some a) = true

-- `n` answers that more is to come, then the payload.
abbrev pub answers : ℕ → List ℕ → List Answer
answers zero payload = ok (some payload) ∷ []
answers (suc n) payload = ok none ∷ answers n payload

push_last :
    (r : Reassembler) (acc : List (List ℕ)) (pid : Option ℕ) (bytes : List ℕ)
    → push (midway r acc 1 pid) (0 ∷ bytes) ≡ (delivered r pid, ok (some (flatten acc ++ bytes)))
unfolding push push_next accept
push_last r acc pid bytes = rw (flatten-append_one acc bytes)

push_more :
    (r : Reassembler) (acc : List (List ℕ)) (n : ℕ) (pid : Option ℕ) (bytes : List ℕ)
    → suc (suc n) < 128
    → push (midway r acc (suc (suc n)) pid) ((suc n % 128) ∷ bytes)
      ≡ (midway r (acc ++ (bytes ∷ [])) (suc n) pid, ok none)
unfolding push push_next accept
push_more r acc n pid bytes h = ground arith

push_all_step :
    (r : Reassembler) (s : List ℕ) (ss : List (List ℕ)) {r' : Reassembler} {a : Answer}
    → push r s ≡ (r', a)
    → push_all r (s ∷ ss) ≡ ((push_all r' ss).0, a ∷ (push_all r' ss).1)
unfolding push_all
push_all_step r s ss e = rw e

push_all-continuation :
    (r : Reassembler) (per rounds : ℕ) (acc : List (List ℕ)) (pid : Option ℕ) (rest : List ℕ)
    → suc rounds < 128
    → length rest ≤ suc rounds * per
    → push_all (midway r acc (suc rounds) pid) (continuation per (suc rounds) rest)
      ≡ (delivered r pid, answers rounds (flatten acc ++ rest))
push_all-continuation r per zero acc pid rest h k =
    push_all_step _ _ [] (push_last r acc pid (take per rest))
    ∙ rw (take-all per rest (omega arith)) (unfold push_all in refl)
push_all-continuation r per (suc rounds) acc pid rest h k =
    let whole : flatten (acc ++ (take per rest ∷ [])) ++ drop per rest ≡ flatten acc ++ rest =
      rw (flatten-append_one acc (take per rest), append_assoc, take-append-drop per rest) in
    push_all_step _ _ (continuation per (suc rounds) (drop per rest))
      (push_more r acc rounds pid (take per rest) h)
    ∙ rw (
      push_all-continuation r per rounds (acc ++ (take per rest ∷ [])) pid (drop per rest)
          (omega arith) (omega (arith, length-drop per rest)),
      whole,
    )

-- The first segment of either format.
pub push_first_literal :
    (r : Reassembler) (remaining : ℕ) (bytes : List ℕ)
    → r.expect_inner_pid ≡ false
    → remaining < 128
    → push r (bit_or 128 (remaining % 128) ∷ bytes)
      ≡ accept (midway r [] remaining none) remaining bytes
unfolding push push_first first_segment
push_first_literal r remaining bytes e h = ground (arith, bit_or_top (remaining % 128))

pub push_first_inner :
    (r : Reassembler) (remaining pid : ℕ) (bytes : List ℕ)
    → r.expect_inner_pid ≡ true
    → remaining < 128
    → push r (bit_or 128 (remaining % 128) ∷ pid ∷ bytes)
      ≡ accept (midway r [] remaining (some pid)) remaining bytes
unfolding push push_first first_segment
push_first_inner r remaining pid bytes e h = ground (arith, bit_or_top (remaining % 128))

-- A whole series: a first segment with the data `bytes`, then the continuation for `rest`.
flatten_one : (bytes : List ℕ) → flatten (bytes ∷ []) ≡ bytes
unfolding flatten
flatten_one bytes = append-nil bytes

accept_last :
    (r : Reassembler) (pid : Option ℕ) (bytes : List ℕ)
    → accept (midway r [] 0 pid) 0 bytes ≡ (delivered r pid, ok (some bytes))
unfolding accept flatten
accept_last r pid bytes = rw append-nil

accept_more :
    (r : Reassembler) (n : ℕ) (pid : Option ℕ) (bytes : List ℕ)
    → accept (midway r [] (suc n) pid) (suc n) bytes ≡ (midway r (bytes ∷ []) (suc n) pid, ok none)
unfolding accept
accept_more r n pid bytes = ground arith

length-zero : (xs : List ℕ) → length xs ≤ 0 → xs ≡ []
length-zero [] h = refl
length-zero (x ∷ xs) h = absurd (omega arith)

pub push_all_series :
    (r : Reassembler) (per rounds : ℕ) (pid : Option ℕ) (first bytes rest : List ℕ)
    → rounds < 128
    → length rest ≤ rounds * per
    → push r first ≡ accept (midway r [] rounds pid) rounds bytes
    → push_all r (first ∷ continuation per rounds rest)
      ≡ (delivered r pid, answers rounds (bytes ++ rest))
push_all_series r per zero pid first bytes rest h k e =
    let none_left : rest ≡ [] = length-zero rest (omega arith) in
    push_all_step r first [] (e ∙ accept_last r pid bytes)
    ∙ rw (none_left, append-nil) (unfold push_all in refl)
push_all_series r per (suc rounds) pid first bytes rest h k e =
    push_all_step r first (continuation per (suc rounds) rest) (e ∙ accept_more r rounds pid bytes)
    ∙ rw (push_all-continuation r per rounds (bytes ∷ []) pid rest h k, flatten_one bytes)
