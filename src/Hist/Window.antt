-- ===== src/Hist/Window.antt =====
-- The window of values that the histories of internal/cwidgets/single/hist.go keep.
use ctop.Prelude.{
  ◌≡◌, refl, sym, ap, ◌∙◌, ℕ, suc, ◌+◌, ◌-◌, ◌<◌, true, ◌&&◌, List, [], ◌∷◌, ◌++◌, ltb, leb, length,
  drop, replicate, arith, length-append, length-drop, length-replicate, drop-append, drop-drop,
  append-nil, append_assoc,
}
use ctop.Prelude.Int.{ℤ, pos, sub64}
use ctop.Hist.{Hist, new_hist, append, DiffHist, new_diff_hist, append_diff}

-- A history is full, and has room for something.
pub record Full {A : Type 0} (h : Hist A) : Type 0 where
  pub has_room : 0 < h.limit
  pub at_limit : length h.values ≡ h.limit

new_hist-Full : {A : Type 0} (zero_value : A) (max : ℕ) → 0 < max → Full (new_hist zero_value max)
unfolding new_hist
new_hist-Full z max h = record { has_room = h; at_limit = length-replicate max z }

new_hist-values : (max : ℕ) → (new_hist (pos 0) max).values ≡ replicate max (pos 0)
unfolding new_hist
new_hist-values max = refl

append-values :
    {A : Type 0} (v : A) (h : Hist A) → Full h → (append v h).values ≡ drop 1 (h.values ++ v ∷ [])
unfolding append
append-values v h w =
    let full : leb h.limit (length h.values) && ltb 0 h.limit ≡ true =
      ground (arith, w.has_room, w.at_limit) in
    let one : length h.values - h.limit + 1 ≡ 1 = omega (arith, w.at_limit) in
    rw (full, one) (sym (drop-append 1 h.values (v ∷ []) (omega (arith, w.has_room, w.at_limit))))

append-same_limit : {A : Type 0} (v : A) (h : Hist A) → (append v h).limit ≡ h.limit
unfolding append
append-same_limit v h = refl

append-Full : {A : Type 0} (v : A) (h : Hist A) → Full h → Full (append v h)
append-Full v h w = record {
  has_room = omega (arith, append-same_limit v h, w.has_room);
  at_limit =
      ap length (append-values v h w)
      ∙ length-drop 1 (h.values ++ v ∷ [])
      ∙ omega (arith, length-append h.values (v ∷ []), w.at_limit, append-same_limit v h);
}

unfoldable pub append_all : {A : Type 0} → List A → Hist A → Hist A
append_all [] h = h
append_all (v ∷ vs) h = append_all vs (append v h)

-- A full history, given values one after the other, keeps the end of all its values and these: it drops
-- as many at the front as it was given.
append_all-values :
    {A : Type 0} (vs : List A) (h : Hist A)
    → Full h
    → (append_all vs h).values ≡ drop (length vs) (h.values ++ vs)
unfolding append_all
append_all-values [] h w = sym (append-nil h.values)
append_all-values (v ∷ vs) h w =
    let count : 1 + length vs ≡ suc (length vs) = omega arith in
    append_all-values vs (append v h) (append-Full v h w)
    ∙ rw (append-values v h w) (
        ap (drop (length vs)) (
          sym
            (drop-append 1 (h.values ++ v ∷ []) vs (omega (arith, length-append h.values (v ∷ []))))
          ∙ ap (drop 1) (append_assoc h.values (v ∷ []) vs))
        ∙ drop-drop (length vs) 1 (h.values ++ v ∷ vs)
        ∙ ap (λ n. drop n (h.values ++ v ∷ vs)) count)

-- The differences of one sample to the next.
abbrev pub differences : ℕ → List ℕ → List ℤ
differences x [] = []
differences x (y ∷ ys) = sub64 (pos y) (pos x) ∷ differences y ys

unfoldable pub append_samples : List ℕ → DiffHist → DiffHist
append_samples [] h = h
append_samples (x ∷ xs) h = append_samples xs (append_diff (pos x) h)

append_samples-hist :
    (xs : List ℕ) (x : ℕ) (h : DiffHist)
    → h.last_val ≡ pos x
    → (append_samples xs h).hist ≡ append_all (differences x xs) h.hist
unfolding append_samples append_all append_diff
append_samples-hist [] x h e = refl
append_samples-hist (y ∷ ys) x h e =
    append_samples-hist ys y (append_diff (pos y) h) refl
    ∙ ap (append_all (differences y ys)) (rw e (ground arith))

-- A new history of differences of a positive size, given samples that are not negative one after the
-- other, holds the end of its zeros and the differences of one sample to the next: as many at the front
-- are dropped as there are differences, and none for the first sample.
pub append_samples-window :
    (max x : ℕ) (xs : List ℕ)
    → 0 < max
    → (append_samples (x ∷ xs) (new_diff_hist max)).hist.values
      ≡ drop (length (differences x xs)) (replicate max (pos 0) ++ differences x xs)
unfolding append_samples append_diff new_diff_hist
append_samples-window max x xs h =
    let started : DiffHist = record { hist = new_hist (pos 0) max; last_val = pos x } in
    ap (λ (d : Hist ℤ). d.values) (append_samples-hist xs x started refl)
    ∙ append_all-values (differences x xs) (new_hist (pos 0) max) (new_hist-Full (pos 0) max h)
    ∙ ap (λ vs. drop (length (differences x xs)) (vs ++ differences x xs)) (new_hist-values max)
