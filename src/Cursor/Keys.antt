-- ===== src/Cursor/Keys.antt =====
-- The four keys that move the cursor of cursor.go, as one function.
use mathlib.Core.Option
use mathlib.Core.Path.{subst}
use native.Mathlib.Nat.{mod-add-div}
use ctop.Prelude.{
  ◌≡◌, refl, sym, ap, ◌∙◌, ℕ, ◌+◌, ◌-◌, ◌<◌, min, ltb, leb, ◌==◌, ◌/◌, ◌%◌, ◌*◌, Option, none, some,
  if◌then◌else◌, arith, inl, inr, Bool-cases, length, some_inj,
}
use ctop.Prelude.Int.{pos, ◌+ℤ◌, ◌-ℤ◌, ◌<ℤ◌, ◌≤ℤ◌}
use ctop.Cursor.{
  Grid, Cursor, Source, scroll_page, move, up, down, pg_up, pg_down, pg_count, max_rows_of,
  offset_up, offset_down,
}
use ctop.Cursor.Moves.{
  OnRow, OnRow-grid, find_idx-bound, move-OnRow, idx-OnRow, scrolled, scroll_page-scrolled,
}

pub data Key : Type 0 where
  up_key down_key pg_up_key pg_down_key : Key

abbrev pub press : Key → Source → Cursor → Option Cursor
press up_key = up
press down_key = down
press pg_up_key = pg_up
press pg_down_key = pg_down

-- The row that a key leads to, from the row `i` of `rows` rows on a page of `page` rows.
abbrev pub target : Key → ℕ → ℕ → ℕ → ℕ
target up_key page rows i = i - 1
target down_key page rows i = min (rows - 1) (i + 1)
target pg_up_key page rows i = i - page
target pg_down_key page rows i = min (rows - 1) (i + page)

-- What the key makes of the grid.
regrid : Key → ℕ → ℕ → Option Grid → Option Grid
regrid up_key rows i g = if i == 0 then g else scrolled (i - 1) rows g
regrid down_key rows i g = if leb rows (i + 1) then g else scrolled (i + 1) rows g
regrid pg_up_key rows i g = if i == 0 then g else offset_up (ltb 0 (pg_count g rows)) g
regrid pg_down_key rows i g =
    if leb rows (i + 1) then g else offset_down (ltb 0 (pg_count g rows)) rows g

Lands : (gc : Cursor) (j : ℕ) (g : Option Grid) → Option Cursor → Type 0
Lands gc j g result =
    (gc' : Cursor) × (result ≡ some gc')
    × OnRow gc' j
    × (gc'.filtered ≡ gc.filtered)
    × (gc'.grid ≡ g)

stays-Lands : (gc : Cursor) (i j : ℕ) → OnRow gc i → j ≡ i → Lands gc j gc.grid (some gc)
unfolding Lands
stays-Lands gc i j w e = (gc, refl, subst (OnRow gc) (sym e) w, refl, refl)

scrolls-Lands :
    (source : Source) (gc : Cursor) (i j : ℕ)
    → OnRow gc i
    → j < length gc.filtered
    → Lands gc j
        (scrolled j (length gc.filtered) gc.grid)
        (Option.map (scroll_page source) (move i j gc))
unfolding Lands
scrolls-Lands source gc i j w h =
    let (gc', moved, w', same, same_grid) = move-OnRow gc i j w h in
    (
      record gc' { grid = scrolled j (length gc'.filtered) gc'.grid },
      ap (Option.map (scroll_page source)) moved ∙ ap some (scroll_page-scrolled source gc' j w'),
      OnRow-grid gc' j (scrolled j (length gc'.filtered) gc'.grid) w',
      same,
      rw (same, same_grid) refl,
    )

pages-Lands :
    (gc : Cursor) (i j : ℕ) (g : Option Grid)
    → OnRow gc i
    → j < length gc.filtered
    → Lands gc j g (move i j (record gc { grid = g }))
unfolding Lands
pages-Lands gc i j g w h = move-OnRow (record gc { grid = g }) i j (OnRow-grid gc i g w) h

press-Lands :
    (key : Key) (source : Source) (gc : Cursor) (i : ℕ)
    → OnRow gc i
    → Lands gc
        (target key (max_rows_of gc.grid) (length gc.filtered) i)
        (regrid key (length gc.filtered) i gc.grid)
        (press key source gc)
unfolding regrid up down pg_up pg_down
press-Lands up_key source gc i w =
    let bound = find_idx-bound gc.selected_id gc.filtered i w.at_row in
    elim (Bool-cases (i == 0)) [
      | inl e ↦ rw (idx-OnRow source gc i w, e) (stays-Lands gc i (i - 1) w (ground (arith, e)))
      | inr e ↦
          rw (idx-OnRow source gc i w, e)
            (scrolls-Lands source gc i (i - 1) w (ground (arith, bound, e)))
    ]
press-Lands down_key source gc i w =
    let bound = find_idx-bound gc.selected_id gc.filtered i w.at_row in
    let j = min (length gc.filtered - 1) (i + 1) in
    elim (Bool-cases (leb (length gc.filtered) (i + 1))) [
      | inl e ↦ rw (idx-OnRow source gc i w, e) (stays-Lands gc i j w (ground (arith, bound, e)))
      | inr e ↦
          let next : j ≡ i + 1 = ground (arith, e) in
          rw (idx-OnRow source gc i w, e, next)
            (scrolls-Lands source gc i (i + 1) w (ground (arith, e)))
    ]
press-Lands pg_up_key source gc i w =
    let bound = find_idx-bound gc.selected_id gc.filtered i w.at_row in
    let page = max_rows_of gc.grid in
    elim (Bool-cases (i == 0)) [
      | inl e ↦ rw (idx-OnRow source gc i w, e) (stays-Lands gc i (i - page) w (ground (arith, e)))
      | inr e ↦
          rw (idx-OnRow source gc i w, e)
            (pages-Lands gc i (i - page)
              (offset_up (ltb 0 (pg_count gc.grid (length gc.filtered))) gc.grid) w
              (omega (arith, bound)))
    ]
press-Lands pg_down_key source gc i w =
    let bound = find_idx-bound gc.selected_id gc.filtered i w.at_row in
    let rows = length gc.filtered in
    let j = min (rows - 1) (i + max_rows_of gc.grid) in
    elim (Bool-cases (leb rows (i + 1))) [
      | inl e ↦ rw (idx-OnRow source gc i w, e) (stays-Lands gc i j w (ground (arith, bound, e)))
      | inr e ↦
          rw (idx-OnRow source gc i w, e)
            (pages-Lands gc i j (offset_down (ltb 0 (pg_count gc.grid rows)) rows gc.grid) w
              (omega (arith, bound)))
    ]

-- With one row selected, which alone is lit, each of the four keys does its move without a panic: the
-- row above or below, or a page up or down, but no further than the first and the last row. After it
-- that row is selected and alone is lit, and the rows are as they were.
pub press-OnRow :
    (key : Key) (source : Source) (gc : Cursor) (i : ℕ)
    → OnRow gc i
    → (gc' : Cursor) × (press key source gc ≡ some gc')
      × OnRow gc' (target key (max_rows_of gc.grid) (length gc.filtered) i)
      × (gc'.filtered ≡ gc.filtered)
unfolding Lands
press-OnRow key source gc i w =
    let (gc', pressed, w', same, _) = press-Lands key source gc i w in (gc', pressed, w', same)

-- The row `i` is on the screen.
abbrev pub InWindow : Option Grid → ℕ → Type 0
InWindow none i = Unit
InWindow (some g) i = (g.offset ≤ℤ pos i) × (pos i <ℤ g.offset +ℤ pos g.max_rows)

pg_count-pos : (g : Option Grid) (rows : ℕ) → 0 < rows → 0 < pg_count g rows
unfolding pg_count
pg_count-pos none rows h = ground arith
pg_count-pos (some g) rows h = elim (Bool-cases (rows / g.max_rows == 0)) [
  | inl z ↦
      let quotient : rows / g.max_rows ≡ 0 = ground (arith, z) in
      let remainder : rows % g.max_rows + g.max_rows * 0 ≡ rows =
        subst (λ q. rows % g.max_rows + g.max_rows * q ≡ rows) quotient
          (mod-add-div rows g.max_rows) in
      ground (arith, remainder, h)
  | inr z ↦ ground (arith, z)
]

regrid-InWindow :
    (key : Key) (rows i : ℕ) (g : Option Grid)
    → 0 < max_rows_of g
    → i < rows
    → InWindow g i
    → InWindow (regrid key rows i g) (target key (max_rows_of g) rows i)
unfolding regrid scrolled ◌+ℤ◌ ◌-ℤ◌
regrid-InWindow up_key rows i none h b w = ground arith
regrid-InWindow down_key rows i none h b w = ground arith
regrid-InWindow pg_up_key rows i none h b w = ground arith
regrid-InWindow pg_down_key rows i none h b w = ground arith
regrid-InWindow up_key rows i (some g) h b w = ground (arith, h, b, w)
regrid-InWindow down_key rows i (some g) h b w = ground (arith, h, b, w)
regrid-InWindow pg_up_key rows i (some g) h b w =
    ground (arith, h, b, w, pg_count-pos (some g) rows)
regrid-InWindow pg_down_key rows i (some g) h b w =
    ground (arith, h, b, w, pg_count-pos (some g) rows)

-- If there is a page of at least one row and the selected row is on the screen, then each of the four
-- keys leads to a row on the screen, wherever the offset stood and however few rows there are.
pub press-InWindow :
    (key : Key) (source : Source) (gc : Cursor) (i : ℕ) {gc' : Cursor}
    → OnRow gc i
    → 0 < max_rows_of gc.grid
    → InWindow gc.grid i
    → press key source gc ≡ some gc'
    → InWindow gc'.grid (target key (max_rows_of gc.grid) (length gc.filtered) i)
unfolding Lands
press-InWindow key source gc i {gc'} w h on e =
    let rows = length gc.filtered in
    let j = target key (max_rows_of gc.grid) rows i in
    let (landed, pressed, _, _, its_grid) = press-Lands key source gc i w in
    let same : landed ≡ gc' = some_inj (sym pressed ∙ e) in
    subst (λ g. InWindow g j) (sym its_grid ∙ ap (λ (c : Cursor). c.grid) same)
      (regrid-InWindow key rows i gc.grid h (find_idx-bound gc.selected_id gc.filtered i w.at_row)
        on)
