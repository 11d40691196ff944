-- ===== src/NetRom/Sntt/Runs.antt =====
-- netrom/inp3-sntt.ts on three samples, the last one over the horizon.
use ax25_ts.Base.{All, [], arith, err, ok, refl, ◌∷◌, ◌≡◌}
use ax25_ts.NetRom.Routing.Learning.{sntt_unset}
use ax25_ts.NetRom.Sntt.{
  EndsWithin, IsWithin, clamp_sample, gain_shift_out_of_range, is_out_of_range, smooth_all,
  smooth_all-EndsWithin, smooth_sntt, smoothed, update,
}

smoothed_run : smooth_all 3 sntt_unset (100 ∷ 200 ∷ 700000 ∷ []) ≡ ok 75099
unfolding smooth_all smooth_sntt update is_out_of_range clamp_sample smoothed
smoothed_run = refl

refused_run : smooth_sntt 100 200 9 ≡ err gain_shift_out_of_range
unfolding smooth_sntt update is_out_of_range
refused_run = refl

span : All (λ s. IsWithin 100 600000 (clamp_sample s)) (100 ∷ 200 ∷ 700000 ∷ [])
unfolding clamp_sample
span = ((omega arith, omega arith), ((omega arith, omega arith), ((omega arith, omega arith), tt)))

smooth_all-EndsWithin_example :
    EndsWithin 100 600000 (smooth_all 3 sntt_unset (100 ∷ 200 ∷ 700000 ∷ []))
smooth_all-EndsWithin_example =
    smooth_all-EndsWithin 3 100 600000 100 (200 ∷ 700000 ∷ []) (omega arith, omega arith)
      (omega arith) span
