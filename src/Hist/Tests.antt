-- ===== src/Hist/Tests.antt =====
-- A history of differences on concrete samples.
use ctop.Prelude.{◌≡◌, refl, [], ◌∷◌, ◌++◌, arith, drop, replicate}
use ctop.Prelude.Int.{pos, negsuc, sub64}
use ctop.Hist.{new_diff_hist}
use ctop.Hist.Window.{append_samples, differences, append_samples-window}

differences_run : differences 5 (9 ∷ 7 ∷ []) ≡ pos 4 ∷ negsuc 1 ∷ []
unfolding sub64
differences_run = refl

append_samples_run :
    (append_samples (5 ∷ 9 ∷ 7 ∷ []) (new_diff_hist 3)).hist.values
    ≡ drop 2 (replicate 3 (pos 0) ++ differences 5 (9 ∷ 7 ∷ []))
append_samples_run = append_samples-window 3 5 (9 ∷ 7 ∷ []) (omega arith)
