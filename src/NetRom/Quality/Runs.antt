-- ===== src/NetRom/Quality/Runs.antt =====
-- netrom/quality.ts: the theorem at a concrete input.
use ax25_ts.Base.{arith, ◌≡◌, ◌≤◌}
use ax25_ts.NetRom.Quality.{combine_quality, combine_quality-le}

combine_quality-le_example :
    (combine_quality 192 200 ≤ 192)
    × (combine_quality 192 200 ≤ 200)
    × (combine_quality 192 200 ≡ combine_quality 200 192)
    × (combine_quality 192 100 ≤ combine_quality 192 200)
combine_quality-le_example =
    combine_quality-le 192 100 200 (omega arith) (omega arith) (omega arith)
