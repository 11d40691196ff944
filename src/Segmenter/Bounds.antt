-- ===== src/Segmenter/Bounds.antt =====
-- sdl/segmenter.ts: sizes of segments, and what a reassembler holds after any stream of segments.
use ax25_ts.Base.{
  All, All-append, Bool, Bool-cases, List, Option, [], ap, arith, drop, err, false, has_bit, inl,
  inr, length, length-append, length-take, min, none, ok, refl, some, suc, take, true, zero, ℕ, ◌%◌,
  ◌*◌, ◌+◌, ◌-◌, ◌<◌, ◌==◌, ◌∙◌, ◌∷◌, ◌≡◌, ◌≤◌,
}
use ax25_ts.Segmenter.{
  Reassembler, ReassemblyError, accept, chunk, first_segment, inner_loop, literal_loop, push,
  push_all, push_first, push_next, segment,
}
use ax25_ts.Segmenter.RoundTrip.{inner_ok, length-inner_loop, length-literal_loop, literal_ok}

take-le : (n : ℕ) (xs : List ℕ) → length (take n xs) ≤ n
take-le n xs = omega (arith, length-take n xs)

chunk-le : (per offset : ℕ) (payload : List ℕ) → length (chunk per offset payload) ≤ per
chunk-le per offset payload =
    omega (arith, take-le (min per (length payload - offset)) (drop offset payload))

literal_loop-le :
    (per count rounds i : ℕ) (payload : List ℕ)
    → All (λ s. length s ≤ suc per) (literal_loop per count payload rounds i)
unfolding literal_loop
literal_loop-le per count zero i payload = tt
literal_loop-le per count (suc rounds) i payload = (
  omega (arith, chunk-le per (i * per) payload),
  literal_loop-le per count rounds (i + 1) payload,
)

inner_loop-le :
    (per count rounds i offset : ℕ) (payload : List ℕ)
    → All (λ s. length s ≤ suc per) (inner_loop per count payload rounds i offset)
unfolding inner_loop
inner_loop-le per count zero i offset payload = tt
inner_loop-le per count (suc rounds) i offset payload =
    (omega (arith, chunk-le per offset payload), inner_loop-le per count rounds (i + 1) _ payload)

All-le :
    (m n : ℕ) (ss : List (List ℕ)) → m ≤ n → All (λ s. length s ≤ m) ss → All (λ s. length s ≤ n) ss
All-le m n [] h a = tt
All-le m n (s ∷ ss) h a = (let k : length s ≤ m = a.0 in omega arith, All-le m n ss h a.1)

-- Every segment fits an information field of N1 octets, and there are 1 to 128 of them.
pub segment_bounds :
    (payload : List ℕ) (n1 : ℕ) (inner_pid : Option ℕ) (segments : List (List ℕ))
    → segment payload n1 inner_pid ≡ ok segments
    → All (λ s. length s ≤ n1) segments × (1 ≤ length segments) × (length segments ≤ 128)
segment_bounds payload n1 none segments e =
    let (count, h, k, l, same) = literal_ok payload n1 segments e in
    let n : length segments ≡ suc count =
      ap length same ∙ length-literal_loop (n1 - 1) (suc count) (suc count) 0 payload in
    (
      rw same (
          All-le (suc (n1 - 1)) n1 _ (omega arith)
            (literal_loop-le (n1 - 1) (suc count) (suc count) 0 payload)),
      omega arith,
      omega arith,
    )
segment_bounds payload n1 (some p) segments e =
    let (count, h, k, l, same) = inner_ok payload n1 p segments e in
    let n : length segments ≡ suc count =
      ap length same
      ∙ ap suc (
          length-inner_loop (n1 - 1) (suc count) count 1 (min (n1 - 1 - 1) (length payload))
            payload) in
    (
      rw same (
        omega (arith, chunk-le (n1 - 1 - 1) 0 payload),
        All-le (suc (n1 - 1)) n1 _ (omega arith) (
            inner_loop-le (n1 - 1) (suc count) count 1 (min (n1 - 1 - 1) (length payload)) payload),
      ),
      omega arith,
      omega arith,
    )

abbrev pub Holds : ℕ → Option ℕ → Type 0
Holds held none = held ≡ 0
Holds held (some left) = (0 < held) × (0 < left) × (held + left ≤ 128)

-- A series in progress has at most 128 segments, those held and those to come.
abbrev IsCounted : Reassembler → Type 0
IsCounted r = Holds (length r.accumulated) r.expected_remaining

-- The data held, each part shorter than a segment of `m` octets.
abbrev AreParts : ℕ → List (List ℕ) → Type 0
AreParts m parts = All (λ s. length s < m) parts

-- Between two series nothing is held. In a series there is data held and data to come, of at most 128
-- segments together, and each part that is held is shorter than `m` octets.
abbrev pub IsBounded : ℕ → Reassembler → Type 0
IsBounded m r = IsCounted r × AreParts m r.accumulated

push_first-IsCounted :
    (b : Bool) (r : Reassembler) (n : ℕ) (bytes : List ℕ)
    → n < 128
    → IsCounted r
    → IsCounted (push_first b r n bytes).0
unfolding push_first first_segment accept
push_first-IsCounted true r n [] h v = v
push_first-IsCounted true r n (p ∷ bytes) h v = ground arith
push_first-IsCounted false r n bytes h v = ground arith

push_next-IsCounted :
    (r : Reassembler) (e : Option ℕ) (n : ℕ) (bytes : List ℕ)
    → r.expected_remaining ≡ e
    → IsCounted r
    → IsCounted (push_next e r n bytes).0
unfolding push_next accept
push_next-IsCounted r none n bytes h v = v
push_next-IsCounted r (some m) n bytes h v =
    let w : Holds (length r.accumulated) (some m) = rw h at v in
    ground (arith, length-append r.accumulated (bytes ∷ []))

push-IsCounted : (r : Reassembler) (s : List ℕ) → IsCounted r → IsCounted (push r s).0
unfolding push
push-IsCounted r [] v = v
push-IsCounted r (header ∷ rest) v = elim (Bool-cases (has_bit 7 header)) [
  | inl t ↦ rw t (push_first-IsCounted r.expect_inner_pid r (header % 128) rest (omega arith) v)
  | inr f ↦ rw f (push_next-IsCounted r r.expected_remaining (header % 128) rest refl v)
]

accept-AreParts :
    (m : ℕ) (r : Reassembler) (n : ℕ) (bytes : List ℕ)
    → length bytes < m
    → AreParts m r.accumulated
    → AreParts m (accept r n bytes).0.accumulated
unfolding accept
accept-AreParts m r n bytes h a = elim (Bool-cases (n == 0)) [
  | inl t ↦ rw (t) tt
  | inr f ↦ rw (f) (All-append (λ s. length s < m) r.accumulated (bytes ∷ []) a (h, tt))
]

abbrev started : Reassembler → ℕ → Option ℕ → Reassembler
started r n pid = record r { accumulated = []; expected_remaining = some n; pending_pid = pid }

push_first-AreParts :
    (m : ℕ) (b : Bool) (r : Reassembler) (n : ℕ) (bytes : List ℕ)
    → length bytes < m
    → AreParts m r.accumulated
    → AreParts m (push_first b r n bytes).0.accumulated
unfolding push_first first_segment
push_first-AreParts m true r n [] h a = a
push_first-AreParts m true r n (p ∷ bytes) h a =
    accept-AreParts m (started r n (some p)) n bytes (omega arith) tt
push_first-AreParts m false r n bytes h a = accept-AreParts m (started r n none) n bytes h tt

push_next-AreParts :
    (m : ℕ) (e : Option ℕ) (r : Reassembler) (n : ℕ) (bytes : List ℕ)
    → length bytes < m
    → AreParts m r.accumulated
    → AreParts m (push_next e r n bytes).0.accumulated
unfolding push_next
push_next-AreParts m none r n bytes h a = a
push_next-AreParts m (some expected) r n bytes h a = elim (Bool-cases (n + 1 == expected)) [
  | inl t ↦ rw (t) (accept-AreParts m (record r { expected_remaining = some n }) n bytes h a)
  | inr f ↦ rw (f) a
]

push-AreParts :
    (m : ℕ) (r : Reassembler) (s : List ℕ)
    → length s ≤ m
    → AreParts m r.accumulated
    → AreParts m (push r s).0.accumulated
unfolding push
push-AreParts m r [] h a = a
push-AreParts m r (header ∷ rest) h a = elim (Bool-cases (has_bit 7 header)) [
  | inl t ↦ rw (t) (push_first-AreParts m r.expect_inner_pid r (header % 128) rest (omega arith) a)
  | inr f ↦ rw (f) (push_next-AreParts m r.expected_remaining r (header % 128) rest (omega arith) a)
]

push-IsBounded :
    (m : ℕ) (r : Reassembler) (s : List ℕ) → length s ≤ m → IsBounded m r → IsBounded m (push r s).0
push-IsBounded m r s h v = (push-IsCounted r s v.0, push-AreParts m r s h v.1)

-- Whatever segments of at most `m` octets arrive, in any order and with any number of errors, a
-- reassembler that starts so stays so: between two series nothing is held, and in a series at least one
-- segment is held and one to come, they are at most 128 together, and each part that is held is shorter
-- than `m` octets.
pub push_all-IsBounded :
    (m : ℕ) (r : Reassembler) (ss : List (List ℕ))
    → All (λ s. length s ≤ m) ss
    → IsBounded m r
    → IsBounded m (push_all r ss).0
unfolding push_all
push_all-IsBounded m r [] h v = v
push_all-IsBounded m r (s ∷ ss) h v =
    push_all-IsBounded m (push r s).0 ss h.1 (push-IsBounded m r s h.0 v)

push_first_error :
    (b : Bool) (r : Reassembler) (n : ℕ) (bytes : List ℕ) {x : ReassemblyError}
    → (push_first b r n bytes).1 ≡ err x
    → (push_first b r n bytes).0 ≡ r
unfolding push_first first_segment accept
push_first_error true r n [] e = refl
push_first_error true r n (p ∷ bytes) e = ground arith
push_first_error false r n bytes e = ground arith

push_next_error :
    (m : Option ℕ) (r : Reassembler) (n : ℕ) (bytes : List ℕ) {x : ReassemblyError}
    → (push_next m r n bytes).1 ≡ err x
    → (push_next m r n bytes).0 ≡ r
unfolding push_next accept
push_next_error none r n bytes e = refl
push_next_error (some m) r n bytes e = ground arith

-- A segment that is refused leaves the reassembler as it was.
pub push_error :
    (r : Reassembler) (s : List ℕ) (x : ReassemblyError) → (push r s).1 ≡ err x → (push r s).0 ≡ r
unfolding push
push_error r [] x e = refl
push_error r (header ∷ rest) x e = elim (Bool-cases (has_bit 7 header)) [
  | inl t ↦ rw t (push_first_error r.expect_inner_pid r (header % 128) rest (rw t at e))
  | inr f ↦ rw f (push_next_error r.expected_remaining r (header % 128) rest (rw f at e))
]
