-- ===== src/Fcs/RoundTrip.antt =====
-- fcs.ts: appending and stripping the check sequence.
use ax25_ts.Base.{
  All, List, [], ap, ap₂, arith, get_or, if◌then◌else◌, length, length-append, none, refl, some,
  subst, suc, sym, take, take-length-append, ℕ, ◌%◌, ◌*◌, ◌++◌, ◌+◌, ◌-◌, ◌/◌, ◌<◌, ◌==◌, ◌↔◌, ◌∙◌,
  ◌∷◌, ◌≡◌, ◌≤◌,
}
use ax25_ts.Base.Bytes.{IsByte, bit_or_octets}
use ax25_ts.Fcs.{actual_fcs, append_fcs, compute_fcs, fcs_length, min_frame, strip_fcs}

pub fcs-lt : (bs : List ℕ) → compute_fcs bs < 65536
unfolding compute_fcs
fcs-lt bs = omega arith

-- The last two octets of a datagram.
get_or-append_last :
    (body : List ℕ) (lo hi : ℕ)
    → (get_or (body ++ (lo ∷ hi ∷ [])) (length body) 0 ≡ lo)
      × (get_or (body ++ (lo ∷ hi ∷ [])) (suc (length body)) 0 ≡ hi)
get_or-append_last [] lo hi = (refl, refl)
get_or-append_last (b ∷ body) lo hi = get_or-append_last body lo hi

pub actual_fcs-append :
    (body : List ℕ) (lo hi : ℕ)
    → IsByte lo
    → IsByte hi
    → actual_fcs (body ++ (lo ∷ hi ∷ [])) ≡ lo + hi * 256
actual_fcs-append body lo hi p q =
    let two : length (body ++ (lo ∷ hi ∷ [])) - 2 ≡ length body =
      omega (arith, length-append body (lo ∷ hi ∷ [])) in
    let one : length (body ++ (lo ∷ hi ∷ [])) - 1 ≡ suc (length body) =
      omega (arith, length-append body (lo ∷ hi ∷ [])) in
    let (l, h) = get_or-append_last body lo hi in rw (two, one, l, h) (bit_or_octets lo hi p q)

pub take-append_two :
    (body : List ℕ) (lo hi : ℕ)
    → take (length (body ++ (lo ∷ hi ∷ [])) - 2) (body ++ (lo ∷ hi ∷ [])) ≡ body
take-append_two body lo hi =
    let two : length (body ++ (lo ∷ hi ∷ [])) - 2 ≡ length body =
      omega (arith, length-append body (lo ∷ hi ∷ [])) in
    rw two (take-length-append body (lo ∷ hi ∷ []))

-- What `strip_fcs` does of a datagram that ends in the octets `lo` and `hi`.
pub strip_fcs-append :
    (body : List ℕ) (lo hi : ℕ)
    → IsByte lo
    → IsByte hi
    → min_frame ≤ length body
    → strip_fcs (body ++ (lo ∷ hi ∷ []))
      ≡ (if compute_fcs body == lo + hi * 256 then some body else none)
unfolding strip_fcs
strip_fcs-append body lo hi p q h =
    rw (take-append_two body lo hi, actual_fcs-append body lo hi p q)
      (ground (arith, length-append body (lo ∷ hi ∷ [])))

-- A list of two elements at least ends in two elements.
split_last :
    (d : List ℕ)
    → 2 ≤ length d
    → (body : List ℕ) × (lo : ℕ) × (hi : ℕ) × (d ≡ body ++ (lo ∷ hi ∷ []))
split_last [] h = absurd (omega arith)
split_last (a ∷ []) h = absurd (omega arith)
split_last (a ∷ b ∷ []) h = ([], a, b, refl)
split_last (a ∷ b ∷ c ∷ d) h =
    let (body, lo, hi, e) = split_last (b ∷ c ∷ d) (omega arith) in
    (a ∷ body, lo, hi, ap (λ r. a ∷ r) e)

-- A frame of 15 octets at least comes back from its datagram.
pub strip_fcs-append_fcs :
    (body : List ℕ) → min_frame ≤ length body → strip_fcs (append_fcs body) ≡ some body
unfolding append_fcs
strip_fcs-append_fcs body h =
    strip_fcs-append body _ _ (omega arith) (omega arith) h ∙ ground (arith, fcs-lt body)

last_two : (b : List ℕ) (lo hi : ℕ) → All IsByte (b ++ (lo ∷ hi ∷ [])) → IsByte lo × IsByte hi
last_two [] lo hi h = (h.0, h.1.0)
last_two (x ∷ b) lo hi h = last_two b lo hi h.1

guarded_some :
    (m n : ℕ) (b : List ℕ) {body : List ℕ}
    → (if m == n then some b else none) ≡ some body
    → (m ≡ n) × (b ≡ body)
guarded_some m n b e = ground arith

long_enough : (d body : List ℕ) → strip_fcs d ≡ some body → min_frame + fcs_length ≤ length d
unfolding strip_fcs
long_enough d body e = ground arith

octets_of_fcs :
    (f lo hi : ℕ) → lo < 256 → hi < 256 → f ≡ lo + hi * 256 → (lo ≡ f % 256) × (hi ≡ f / 256 % 256)
octets_of_fcs f lo hi p q e = omega arith

strip_fcs_inv :
    (d body : List ℕ)
    → All IsByte d
    → strip_fcs d ≡ some body
    → (min_frame ≤ length body) × (d ≡ append_fcs body)
unfolding append_fcs
strip_fcs_inv d body bytes e =
    let long : 17 ≤ length d = long_enough d body e in
    let (b, lo, hi, split) = split_last d (omega arith) in
    let n : length d ≡ length b + 2 = ap length split ∙ length-append b (lo ∷ hi ∷ []) in
    let (p, q) = last_two b lo hi (subst (All IsByte) split bytes) in
    let same : (if compute_fcs b == lo + hi * 256 then some b else none) ≡ some body =
      sym (strip_fcs-append b lo hi p q (omega arith)) ∙ rw (← split) e in
    let (f, eb) = guarded_some (compute_fcs b) (lo + hi * 256) b same in
    let (el, eh) = octets_of_fcs (compute_fcs b) lo hi p q f in
    rw (← eb) (omega arith, split ∙ ap₂ (λ (l h : ℕ). b ++ (l ∷ h ∷ [])) el eh)

-- A datagram of octets is accepted, with `body` for its frame, exactly when it is `body` with its
-- check sequence behind it and `body` has 15 octets at least.
pub strip_fcs_iff :
    (d body : List ℕ)
    → All IsByte d
    → (strip_fcs d ≡ some body) ↔ ((min_frame ≤ length body) × (d ≡ append_fcs body))
strip_fcs_iff d body bytes =
    (strip_fcs_inv d body bytes, λ h. rw h.1 (strip_fcs-append_fcs body h.0))
