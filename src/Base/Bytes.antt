-- ===== src/Base/Bytes.antt =====
-- Facts about masks and shifts on one octet, each a table checked by evaluation.
use Prim.Native.Nat.{bit_or, suc, zero, ℕ, ◌%◌, ◌*◌, ◌+◌, ◌/◌, ◌<◌}
use mathlib.Core.Bool.{Bool, true, ◌&&◌}
use mathlib.Core.Path.{refl, ◌≡◌}
use native.Mathlib.Omega.{arith}
use ax25_ts.Base.{==_iff, ◌==◌}

abbrev pub IsByte : ℕ → Type 0
IsByte b = b < 256

unfoldable pub holds_below : ℕ → (ℕ → Bool) → Bool
holds_below zero p = true
holds_below (suc n) p = p n && holds_below n p

pub holds_below_at : (n : ℕ) (p : ℕ → Bool) (x : ℕ) → holds_below n p ≡ true → x < n → p x ≡ true
unfolding holds_below
holds_below_at zero p x h lt = absurd (omega arith)
holds_below_at (suc n) p x h lt = ground (arith, holds_below_at n p x)

-- Two functions that agree on every number below `n`.
pub agree_below :
    (n : ℕ) (f g : ℕ → ℕ) → holds_below n (λ x. f x == g x) ≡ true → (x : ℕ) → x < n → f x ≡ g x
agree_below n f g h x lt = (==_iff (f x) (g x)).0 (holds_below_at n (λ x. f x == g x) x h lt)

-- `(hi << 4) | lo` over two nibbles.
nibbles_table : (x : ℕ) → x < 256 → bit_or (x / 16 * 16) (x % 16) ≡ x
unfolding holds_below
nibbles_table = agree_below 256 (λ x. bit_or (x / 16 * 16) (x % 16)) (λ x. x) refl

pub bit_or_nibbles : (hi lo : ℕ) → hi < 16 → lo < 16 → bit_or (hi * 16) lo ≡ hi * 16 + lo
bit_or_nibbles hi lo h k =
    let e : (hi * 16 + lo) / 16 ≡ hi = omega arith in
    let f : (hi * 16 + lo) % 16 ≡ lo = omega arith in
    rw (e, f) at (nibbles_table (hi * 16 + lo) (omega arith))

-- `0x80 | x` over seven bits.
pub bit_or_top : (x : ℕ) → x < 128 → bit_or 128 x ≡ 128 + x
unfolding holds_below
bit_or_top = agree_below 128 (λ x. bit_or 128 x) (λ x. 128 + x) refl

pub bit_or_zero : (x : ℕ) → x < 128 → bit_or 0 x ≡ x
unfolding holds_below
bit_or_zero = agree_below 128 (λ x. bit_or 0 x) (λ x. x) refl

-- `lo | (hi << 8)` over two octets.
octets_table :
    holds_below 256 (λ hi. holds_below 256 (λ lo. bit_or lo (hi * 256) == lo + hi * 256)) ≡ true
unfolding holds_below
octets_table = refl

pub bit_or_octets : (lo hi : ℕ) → lo < 256 → hi < 256 → bit_or lo (hi * 256) ≡ lo + hi * 256
bit_or_octets lo hi h k = (==_iff (bit_or lo (hi * 256)) (lo + hi * 256)).0 (
    holds_below_at 256 (λ l. bit_or l (hi * 256) == l + hi * 256) lo
      (holds_below_at 256 (λ hi. holds_below 256 (λ l. bit_or l (hi * 256) == l + hi * 256)) hi
        octets_table k)
      h)

-- `lo | (hi << 4)` over two nibbles.
pub bit_or_low_high : (lo hi : ℕ) → lo < 16 → hi < 16 → bit_or lo (hi * 16) ≡ lo + hi * 16
unfolding holds_below
bit_or_low_high lo hi h k =
    let e : (hi * 16 + lo) / 16 ≡ hi = omega arith in
    let f : (hi * 16 + lo) % 16 ≡ lo = omega arith in
    rw (e, f) at
      (agree_below 256 (λ x. bit_or (x % 16) (x / 16 * 16)) (λ x. x % 16 + x / 16 * 16) refl
        (hi * 16 + lo) (omega arith))

-- `(hi << 8) | lo` over two octets.
turned_octets_table :
    holds_below 256 (λ hi. holds_below 256 (λ lo. bit_or (hi * 256) lo == hi * 256 + lo)) ≡ true
unfolding holds_below
turned_octets_table = refl

pub bit_or_high_low : (hi lo : ℕ) → hi < 256 → lo < 256 → bit_or (hi * 256) lo ≡ hi * 256 + lo
bit_or_high_low hi lo h k = (==_iff (bit_or (hi * 256) lo) (hi * 256 + lo)).0 (
    holds_below_at 256 (λ l. bit_or (hi * 256) l == hi * 256 + l) lo
      (holds_below_at 256 (λ hi. holds_below 256 (λ l. bit_or (hi * 256) l == hi * 256 + l)) hi
        turned_octets_table h)
      k)
