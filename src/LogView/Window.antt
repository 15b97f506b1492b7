-- ===== src/LogView/Window.antt =====
-- What internal/cwidgets/single/logs.go puts on the screen.
use ctop.Prelude.{
  ℕ, zero, suc, ◌+◌, ◌-◌, ◌≤◌, ◌≡◌, refl, ap, true, false, List, [], ◌∷◌, length, take, drop, arith,
  length-drop, length-take, min,
}
use ctop.Prelude.Int.{pos, int_le}
use ctop.Prelude.Texts.{Text}
use ctop.LogView.{Logs, rendered_lines, scroll, expire_status, draw_in, draw, line_width}

-- `vis` is the window of `h` lines at the offset of `l` on `lines`; it is full where there are enough
-- lines, and at their end if the view follows the tail.
abbrev pub IsWindow : ℕ → List Text → Logs → List Text → Type 0
IsWindow h lines l vis =
    (vis ≡ take h (drop l.offset lines))
    × (l.offset + length vis ≤ length lines)
    × (length vis ≡ min h (length lines))
    × (l.auto_tail ≡ true → vis ≡ drop (length lines - h) lines)

scroll-bounds :
    (m : ℕ) (l : Logs)
    → ((scroll m l).offset ≤ m) × ((scroll m l).auto_tail ≡ true → (scroll m l).offset ≡ m)
unfolding scroll
scroll-bounds m l = ground arith

expire_status-offset :
    (now : ℕ) (l : Logs)
    → ((expire_status now l).offset ≡ l.offset) × ((expire_status now l).auto_tail ≡ l.auto_tail)
unfolding expire_status
expire_status-offset now l = ground arith

take-all : (n : ℕ) (xs : List Text) → length xs ≤ n → take n xs ≡ xs
take-all zero [] h = refl
take-all (suc n) [] h = refl
take-all zero (x ∷ xs) h = ground (arith, h)
take-all (suc n) (x ∷ xs) h = ap (◌∷◌ x) (take-all n xs (omega (arith, h)))

window_at :
    (h o : ℕ) (lines : List Text)
    → o ≤ length lines - h
    → (o + length (take h (drop o lines)) ≤ length lines)
      × (length (take h (drop o lines)) ≡ min h (length lines))
      × (o ≡ length lines - h → take h (drop o lines) ≡ drop (length lines - h) lines)
window_at h o lines b =
    let left = length-drop o lines in
    let shown = length-take h (drop o lines) in
    (
      omega arith,
      omega arith,
      λ e. rw e (
          take-all h (drop (length lines - h) lines)
            (omega (arith, length-drop (length lines - h) lines))),
    )

-- Whatever the state, the lines that a draw shows are the window at its offset: as many of the lines that
-- the filter lets through as fit, none past the end, and the last ones if the view follows the tail.
pub draw-IsWindow :
    (now h w : ℕ) (l : Logs)
    → let r = draw now (pos (suc h)) (pos (suc w)) l in
      IsWindow (suc h) (rendered_lines (line_width (suc w)) l l.entries) r.0 r.1
unfolding draw draw_in
draw-IsWindow now h w l =
    let lines = rendered_lines (line_width (suc w)) l l.entries in
    let l' = scroll (length lines - suc h) l in
    let (low, tail) = scroll-bounds (length lines - suc h) l in
    let (same, following) = expire_status-offset now l' in
    let (fits, full, at_end) = window_at (suc h) l'.offset lines low in
    let h_pos : int_le (pos (suc h)) (pos 0) ≡ false = ground arith in
    let w_pos : int_le (pos (suc w)) (pos 0) ≡ false = ground arith in
    rw (h_pos, w_pos, same, following) (refl, fits, full, λ t. at_end (tail t))
