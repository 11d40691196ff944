-- ===== src/NetRom/Sntt.antt =====
-- netrom/inp3-sntt.ts: the smoothed transport time to a neighbour. Samples are whole milliseconds and
-- not negative. A smoother is its one field, which is `sntt_unset` before the first sample.
pub mod Runs
use native.Mathlib.Nat.{div-lt_iff_lt-mul, le-div_iff_mul-le, mul-le-mul_left, mul_comm}
use ax25_ts.Base.{
  All, Bool, List, Result, [], arith, err, false, if◌then◌else◌, ltb, not, ok, refl, suc, zero, ℕ,
  ◌*◌, ◌+◌, ◌-◌, ◌/◌, ◌<◌, ◌==◌, ◌^◌, ◌||◌, ◌∷◌, ◌≡◌, ◌≤◌,
}
use ax25_ts.NetRom.Routing.Learning.{sntt_unset}

abbrev pub sntt_default_gain_shift : ℕ
sntt_default_gain_shift = 3

abbrev pub sntt_min_gain_shift : ℕ
sntt_min_gain_shift = 1

abbrev pub sntt_max_gain_shift : ℕ
sntt_max_gain_shift = 8

abbrev pub sntt_sample_max_ms : ℕ
sntt_sample_max_ms = 600000

unfoldable pub clamp_sample : ℕ → ℕ
clamp_sample sample_ms = if ltb sntt_sample_max_ms sample_ms then sntt_sample_max_ms else sample_ms

pub data SnttError : Type 0 where
  gain_shift_out_of_range : SnttError

unfoldable pub is_out_of_range : ℕ → Bool
is_out_of_range gain_shift =
    ltb gain_shift sntt_min_gain_shift || ltb sntt_max_gain_shift gain_shift

pub record Inp3Sntt : Type 0 where
  pub ms : ℕ

abbrev pub fresh : Inp3Sntt
fresh = record { ms = sntt_unset }

abbrev pub from_raw : ℕ → Inp3Sntt
from_raw ms = record { ms = ms }

abbrev pub initialised : Inp3Sntt → Bool
initialised sntt = not (sntt.ms == sntt_unset)

-- The filter, with `denom` for `1 << gainShift`.
unfoldable pub smoothed : ℕ → ℕ → ℕ → ℕ
smoothed denom ms sample = ((denom - 1) * ms + sample + denom / 2) / denom

unfoldable pub update : Inp3Sntt → ℕ → ℕ → Result SnttError Inp3Sntt
update sntt sample_ms gain_shift =
    if is_out_of_range gain_shift
    then err gain_shift_out_of_range
    else if not (initialised sntt)
    then ok (from_raw (clamp_sample sample_ms))
    else ok (from_raw (smoothed (2 ^ gain_shift) sntt.ms (clamp_sample sample_ms)))

abbrev ms_of : Result SnttError Inp3Sntt → Result SnttError ℕ
ms_of (ok sntt) = ok sntt.ms
ms_of (err e) = err e

unfoldable pub smooth_sntt : ℕ → ℕ → ℕ → Result SnttError ℕ
smooth_sntt current_ms sample_ms gain_shift =
    ms_of (
      update (if current_ms == sntt_unset then fresh else from_raw current_ms) sample_ms gain_shift)

-- Several samples, one after another.
unfoldable pub smooth_all : ℕ → ℕ → List ℕ → Result SnttError ℕ
smooth_all gain_shift current_ms [] = ok current_ms
smooth_all gain_shift current_ms (sample_ms ∷ samples) =
    elim (smooth_sntt current_ms sample_ms gain_shift) [
      | ok ms ↦ smooth_all gain_shift ms samples
      | err e ↦ err e
    ]

-- A time from `lo` to `hi`.
abbrev pub IsWithin : ℕ → ℕ → ℕ → Type 0
IsWithin lo hi ms = (lo ≤ ms) × (ms ≤ hi)

-- `(d - 1) * x + x`.
mul-pred : (d x : ℕ) → 1 ≤ d → (d - 1) * x + x ≡ d * x
mul-pred zero x h = absurd (omega (arith, h))
mul-pred (suc d) x h = grind arith

smoothed-IsWithin :
    (d lo hi ms sample : ℕ)
    → 1 ≤ d
    → IsWithin lo hi ms
    → IsWithin lo hi sample
    → IsWithin lo hi (smoothed d ms sample)
unfolding smoothed
smoothed-IsWithin d lo hi ms sample h m s =
    let low = mul-le-mul_left (d - 1) m.0 in
    let high = mul-le-mul_left (d - 1) m.1 in
    let at_lo = mul-pred d lo h in
    let at_hi = mul-pred d hi h in
    let turned : lo * d ≡ d * lo = mul_comm lo d in
    let next : suc hi * d ≡ d * hi + d = grind (arith, mul_comm hi d) in
    let half : d / 2 < d = omega arith in
    let below : ((d - 1) * ms + sample + d / 2) / d < suc hi =
      (div-lt_iff_lt-mul h).1 (omega arith) in
    ((le-div_iff_mul-le h).1 (omega arith), omega arith)

two_pow-pos : (g : ℕ) → 1 ≤ 2 ^ g
two_pow-pos zero = omega arith
two_pow-pos (suc g) = grind (arith, two_pow-pos g)

-- A gain shift that `update` takes.
abbrev pub IsGainShift : ℕ → Type 0
IsGainShift g = (1 ≤ g) × (g ≤ 8)

smooth_sntt-IsWithin :
    (g lo hi ms sample : ℕ)
    → IsGainShift g
    → hi ≤ 600000
    → IsWithin lo hi ms
    → IsWithin lo hi (clamp_sample sample)
    → smooth_sntt ms sample g ≡ ok (smoothed (2 ^ g) ms (clamp_sample sample))
unfolding smooth_sntt update is_out_of_range
smooth_sntt-IsWithin g lo hi ms sample k b m s =
    let seeded : (ms == sntt_unset) ≡ false = ground arith in
    let good : ltb g 1 || ltb 8 g ≡ false = ground arith in rw (seeded) (rw (good, seeded) refl)

smooth_sntt-unset :
    (g sample : ℕ) → IsGainShift g → smooth_sntt sntt_unset sample g ≡ ok (clamp_sample sample)
unfolding smooth_sntt update is_out_of_range
smooth_sntt-unset g sample k =
    let good : ltb g 1 || ltb 8 g ≡ false = ground arith in rw (good) refl

-- The smoothing ends without an error, with a time in the range.
abbrev pub EndsWithin : ℕ → ℕ → Result SnttError ℕ → Type 0
EndsWithin lo hi (ok ms) = IsWithin lo hi ms
EndsWithin lo hi (err e) = ⊥

smooth_all-IsWithin :
    (g lo hi ms : ℕ) (samples : List ℕ)
    → IsGainShift g
    → hi ≤ 600000
    → IsWithin lo hi ms
    → All (λ s. IsWithin lo hi (clamp_sample s)) samples
    → EndsWithin lo hi (smooth_all g ms samples)
unfolding smooth_all
smooth_all-IsWithin g lo hi ms [] k b m a = m
smooth_all-IsWithin g lo hi ms (sample ∷ samples) k b m a =
    rw (smooth_sntt-IsWithin g lo hi ms sample k b m a.0, EndsWithin)
      (smooth_all-IsWithin g lo hi (smoothed (2 ^ g) ms (clamp_sample sample)) samples k b
        (smoothed-IsWithin (2 ^ g) lo hi ms (clamp_sample sample) (two_pow-pos g) m a.0) a.1)

-- With a gain shift from 1 to 8, a smoother that starts without a measurement and takes one sample or
-- more ends without an error, and its time lies in each range within the horizon that holds all the
-- samples, as they are clamped: it never leaves the span of what was measured.
pub smooth_all-EndsWithin :
    (g lo hi sample : ℕ) (samples : List ℕ)
    → IsGainShift g
    → hi ≤ 600000
    → All (λ s. IsWithin lo hi (clamp_sample s)) (sample ∷ samples)
    → EndsWithin lo hi (smooth_all g sntt_unset (sample ∷ samples))
unfolding smooth_all
smooth_all-EndsWithin g lo hi sample samples k b a =
    rw (smooth_sntt-unset g sample k, EndsWithin)
      (smooth_all-IsWithin g lo hi (clamp_sample sample) samples k b a.0 a.1)
