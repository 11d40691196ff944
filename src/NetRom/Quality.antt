-- ===== src/NetRom/Quality.antt =====
-- netrom/quality.ts: the quality of a route over one more hop. Qualities are whole and not negative.
pub mod Runs
use native.Mathlib.Nat.{mul-le-mul_left, mul-le-mul_right, mul_comm}
use ax25_ts.Base.{arith, max, min, ℕ, ◌*◌, ◌+◌, ◌/◌, ◌≡◌, ◌≤◌}

abbrev pub netrom_quality_max : ℕ
netrom_quality_max = 255

abbrev pub netrom_quality_min : ℕ
netrom_quality_min = 0

unfoldable pub combine_quality : ℕ → ℕ → ℕ
combine_quality broadcast_quality path_quality =
    let combined = (broadcast_quality * path_quality + 128) / 256 in
    max netrom_quality_min (min netrom_quality_max combined)

-- For qualities of at most 255: the combined quality is no better than either of the two, does not
-- depend on their order, and is no better for a hop that is no better.
pub combine_quality-le :
    (b p q : ℕ)
    → b ≤ 255
    → p ≤ q
    → q ≤ 255
    → (combine_quality b q ≤ b)
      × (combine_quality b q ≤ q)
      × (combine_quality b q ≡ combine_quality q b)
      × (combine_quality b p ≤ combine_quality b q)
unfolding combine_quality
combine_quality-le b p q hb h hq =
    let by_hop : b * q ≤ b * 255 = mul-le-mul_left b hq in
    let by_route : b * q ≤ 255 * q = mul-le-mul_right q hb in
    let turned : b * q ≡ q * b = mul_comm b q in
    let worse : b * p ≤ b * q = mul-le-mul_left b h in
    (omega arith, omega arith, omega arith, omega arith)
