-- ===== src/Fcs/Detection.antt =====
-- fcs.ts: datagrams that were corrupted on the way, by way of the steps of the register.
use Prim.Native.Nat.{differ}
use ax25_ts.Base.{
  All, All-append, Bool, List, [], ap, arith, bit_xor, if◌then◌else◌, leb, leb→le, length, none,
  refl, some, suc, sym, true, zero, ℕ, ◌%◌, ◌*◌, ◌++◌, ◌+◌, ◌/◌, ◌<◌, ◌==◌, ◌^◌, ◌∙◌, ◌∷◌, ◌≡◌, ◌≢◌,
  ◌≤◌,
}
use ax25_ts.Base.Bytes.{IsByte, holds_below, holds_below_at}
use ax25_ts.Base.Xor.{bit_xor-cancel, bit_xor-lt, bit_xor_comm}
use ax25_ts.Fcs.{
  compute_fcs, crc_bit, crc_bits, crc_loop, min_frame, reflected_polynomial, strip_fcs,
}
use ax25_ts.Fcs.RoundTrip.{fcs-lt, strip_fcs-append}

abbrev top_set : ℕ → Bool
top_set x = leb 32768 (bit_xor x 0x8408)

-- Folding the polynomial in sets the top digit of a register that was shifted.
top_table : holds_below 128 (λ h. holds_below 256 (λ l. top_set (h * 256 + l))) ≡ true
unfolding holds_below
top_table = refl

below_half : (x : ℕ) → x < 32768 → 32768 ≤ bit_xor x reflected_polynomial
below_half x h =
    let e : x / 256 * 256 + x % 256 ≡ x = omega arith in
    let t : top_set (x / 256 * 256 + x % 256) ≡ true =
      holds_below_at 256 (λ l. top_set (x / 256 * 256 + l)) (x % 256)
        (holds_below_at 128 (λ h. holds_below 256 (λ l. top_set (h * 256 + l))) (x / 256) top_table
          (omega arith))
        (omega arith) in
    leb→le 32768 (bit_xor x 0x8408) (rw e at t)

crc_bit-lt : (c : ℕ) → c < 65536 → crc_bit c < 65536
unfolding crc_bit
crc_bit-lt c h = ground (arith, bit_xor-lt 16 (c / 2) 0x8408)

crc_bit_injective : (c d : ℕ) → c < 65536 → d < 65536 → crc_bit c ≡ crc_bit d → c ≡ d
unfolding crc_bit
crc_bit_injective c d h k e = ground (
  arith,
  below_half (c / 2),
  below_half (d / 2),
  bit_xor-cancel 16 (c / 2) 0x8408,
  bit_xor-cancel 16 (d / 2) 0x8408,
)

crc_bits-lt : (n c : ℕ) → c < 65536 → crc_bits n c < 65536
unfolding crc_bits
crc_bits-lt zero c h = h
crc_bits-lt (suc n) c h = crc_bits-lt n (crc_bit c) (crc_bit-lt c h)

crc_bits_injective : (n c d : ℕ) → c < 65536 → d < 65536 → crc_bits n c ≡ crc_bits n d → c ≡ d
unfolding crc_bits
crc_bits_injective zero c d h k e = e
crc_bits_injective (suc n) c d h k e =
    crc_bit_injective c d h k
      (crc_bits_injective n (crc_bit c) (crc_bit d) (crc_bit-lt c h) (crc_bit-lt d k) e)

-- One round of the outer loop.
abbrev step : ℕ → ℕ → ℕ
step c b = crc_bits 8 (bit_xor c b)

wide : (b : ℕ) → IsByte b → b < 2 ^ 16
wide b h = omega arith

step-lt : (c b : ℕ) → c < 65536 → IsByte b → step c b < 65536
step-lt c b h k = crc_bits-lt 8 _ (bit_xor-lt 16 c b h (wide b k))

step_injective : (c d b : ℕ) → c < 65536 → d < 65536 → IsByte b → step c b ≡ step d b → c ≡ d
step_injective c d b h k p e =
    let same : bit_xor c b ≡ bit_xor d b =
      crc_bits_injective 8 _ _ (bit_xor-lt 16 c b h (wide b p)) (bit_xor-lt 16 d b k (wide b p))
        e in
    sym (bit_xor-cancel 16 c b h (wide b p))
    ∙ ap (λ t. bit_xor t b) same
    ∙ bit_xor-cancel 16 d b k (wide b p)

step_octets : (c a b : ℕ) → c < 65536 → IsByte a → IsByte b → step c a ≡ step c b → a ≡ b
step_octets c a b h p q e =
    let same : bit_xor c a ≡ bit_xor c b =
      crc_bits_injective 8 _ _ (bit_xor-lt 16 c a h (wide a p)) (bit_xor-lt 16 c b h (wide b q))
        e in
    sym (bit_xor-cancel 16 a c (wide a p) h)
    ∙ ap (λ t. bit_xor t c)
        (bit_xor_comm 16 a c (wide a p) h ∙ same ∙ bit_xor_comm 16 c b h (wide b q))
    ∙ bit_xor-cancel 16 b c (wide b q) h

crc_loop-lt : (c : ℕ) (bs : List ℕ) → c < 65536 → All IsByte bs → crc_loop c bs < 65536
unfolding crc_loop
crc_loop-lt c [] h p = h
crc_loop-lt c (b ∷ bs) h p = crc_loop-lt (step c b) bs (step-lt c b h p.0) p.1

crc_loop_injective :
    (bs : List ℕ) (c d : ℕ)
    → c < 65536
    → d < 65536
    → All IsByte bs
    → crc_loop c bs ≡ crc_loop d bs
    → c ≡ d
unfolding crc_loop
crc_loop_injective [] c d h k p e = e
crc_loop_injective (b ∷ bs) c d h k p e =
    step_injective c d b h k p.0
      (crc_loop_injective bs (step c b) (step d b) (step-lt c b h p.0) (step-lt d b k p.0) p.1 e)

crc_loop_octets :
    (front back : List ℕ) (a b c : ℕ)
    → c < 65536
    → All IsByte front
    → IsByte a
    → IsByte b
    → All IsByte back
    → crc_loop c (front ++ (a ∷ back)) ≡ crc_loop c (front ++ (b ∷ back))
    → a ≡ b
unfolding crc_loop
crc_loop_octets [] back a b c h f p q r e =
    step_octets c a b h p q
      (crc_loop_injective back (step c a) (step c b) (step-lt c a h p) (step-lt c b h q) r e)
crc_loop_octets (x ∷ front) back a b c h f p q r e =
    crc_loop_octets front back a b (step c x) (step-lt c x h f.0) f.1 p q r e

unmasked :
    (c d : ℕ)
    → c < 65536
    → d < 65536
    → bit_xor c 0xffff % 2 ^ 16 ≡ bit_xor d 0xffff % 2 ^ 16
    → c ≡ d
unmasked c d h k e =
    let same : bit_xor c 0xffff ≡ bit_xor d 0xffff =
      omega
        (arith, bit_xor-lt 16 c 0xffff h (omega arith), bit_xor-lt 16 d 0xffff k (omega arith)) in
    sym (bit_xor-cancel 16 c 0xffff h (omega arith))
    ∙ ap (λ t. bit_xor t 0xffff) same
    ∙ bit_xor-cancel 16 d 0xffff k (omega arith)

rejected :
    (m f : ℕ) (body : List ℕ)
    → f < 65536
    → m ≢ f
    → (if m == f % 256 + f / 256 % 256 * 256 then some body else none) ≡ none
rejected m f body h ne = ground arith

compute_fcs_octets :
    (front back : List ℕ) (a b : ℕ)
    → All IsByte front
    → IsByte a
    → IsByte b
    → All IsByte back
    → compute_fcs (front ++ (a ∷ back)) ≡ compute_fcs (front ++ (b ∷ back))
    → a ≡ b
unfolding compute_fcs
compute_fcs_octets front back a b f p q r e =
    let all_a : All IsByte (front ++ (a ∷ back)) = All-append IsByte front (a ∷ back) f (p, r) in
    let all_b : All IsByte (front ++ (b ∷ back)) = All-append IsByte front (b ∷ back) f (q, r) in
    crc_loop_octets front back a b 0xffff (omega arith) f p q r (
      unmasked _ _ (crc_loop-lt 0xffff _ (omega arith) all_a)
        (crc_loop-lt 0xffff _ (omega arith) all_b) e)

-- A datagram in which one octet of the frame has changed on the way is dropped.
pub strip_fcs_corrupted :
    (front back : List ℕ) (a b : ℕ)
    → All IsByte front
    → IsByte a
    → IsByte b
    → All IsByte back
    → a ≢ b
    → min_frame ≤ length (front ++ (b ∷ back))
    → strip_fcs (
        (front ++ (b ∷ back))
        ++ ((compute_fcs (front ++ (a ∷ back)) % 256)
            ∷ (compute_fcs (front ++ (a ∷ back)) / 256 % 256)
            ∷ []))
      ≡ none
strip_fcs_corrupted front back a b f p q r differ long =
    strip_fcs-append (front ++ (b ∷ back)) _ _ (omega arith) (omega arith) long
    ∙ rejected _ _ _ (fcs-lt (front ++ (a ∷ back)))
        (λ e. differ (compute_fcs_octets front back a b f p q r (sym e)))
