-- ===== src/Explorer/Selection.antt =====
-- The cursor and the preview of internal/cwidgets/single/explorer.go.
use ctop.Prelude.{
  ℕ, ◌+◌, ◌-◌, ◌<◌, ◌≤◌, ◌≡◌, refl, Bool, true, false, List, [], ◌∷◌, if◌then◌else◌, ltb, leb,
  arith, Bool-cases, ◌⊎◌, inl, inr, ◌==◌, All,
}
use ctop.Prelude.Int.{ℤ}
use ctop.Prelude.Texts.{Text, codes, text_eq}
use ctop.Config.Settings.{Param}
use ctop.Explorer.{
  Explorer, FileInfo, PathPackage, InlineEditMode, mode_none, mode_target_dir, mode_filter,
  mode_deep_search, mode_upload, mode_confirm_delete, mode_confirm_edit, new_explorer, total,
  total_items, keep_cursor, keep_cursor_and_scroll, set, set_filter, set_deep_search,
  clear_filter_and_search, up, down, home, end_, pg_up, pg_down, set_preview, clear_preview,
  no_file, preview_visible_rows, preview_max_offset, preview_up, preview_down, preview_home,
  preview_end, preview_pg_up, preview_pg_down, step_or,
}
use ctop.Explorer.Edit.{
  start_edit_target_dir, start_edit_filter, start_edit_deep_search, start_edit_upload,
  start_confirm_delete, start_confirm_edit, save_dir, edit_key_press, Pressed, press, confirm,
  enter, type_key, apply, closed, entered, erase, or_text, cancelled, going_on, append_text,
  byte_length, is_escape, is_enter, is_backspace, current_mode,
}

-- The calls of the widget. The scrolls of the preview begin with the height of the area at that time.
pub data Call : Type 0 where
  listed : Text → List FileInfo → Call
  filtered : Text → Call
  searched : Text → Call
  cleared previewed_none moved_up moved_down moved_home moved_end : Call
  paged_up paged_down : ℤ → Call
  previewed : Text → Call
  scrolled_up scrolled_home : Call
  scrolled_down scrolled_end : ℤ → Call
  scroll_paged_up scroll_paged_down : ℤ → ℤ → Call
  edits_dir edits_filter edits_search edits_upload : Call
  confirms_delete confirms_edit : FileInfo → Call
  pressed : Text → List Param → Call

-- The height, for the calls that read it.
abbrev pub IsAtLeast : ℤ → Call → Type 0
IsAtLeast h (scrolled_down k) = preview_visible_rows h ≤ preview_visible_rows k
IsAtLeast h (scrolled_end k) = preview_visible_rows h ≤ preview_visible_rows k
IsAtLeast h (scroll_paged_up k step) = preview_visible_rows h ≤ preview_visible_rows k
IsAtLeast h (scroll_paged_down k step) = preview_visible_rows h ≤ preview_visible_rows k
IsAtLeast h _ = Unit

module _ (paths : PathPackage) where
  unfoldable pub run : Call → Explorer → Explorer
  run (listed dir entries) w = set paths dir entries w
  run (filtered f) w = set_filter paths f w
  run (searched t) w = set_deep_search paths t w
  run cleared w = clear_filter_and_search paths w
  run previewed_none w = clear_preview w
  run moved_up w = up w
  run moved_down w = down paths w
  run moved_home w = home w
  run moved_end w = end_ paths w
  run (paged_up step) w = pg_up step w
  run (paged_down step) w = pg_down paths step w
  run (previewed t) w = set_preview paths t w
  run scrolled_up w = preview_up w
  run (scrolled_down h) w = preview_down h w
  run scrolled_home w = preview_home w
  run (scrolled_end h) w = preview_end h w
  run (scroll_paged_up h step) w = preview_pg_up h step w
  run (scroll_paged_down h step) w = preview_pg_down h step w
  run edits_dir w = start_edit_target_dir w
  run edits_filter w = start_edit_filter w
  run edits_search w = start_edit_deep_search w
  run edits_upload w = start_edit_upload w
  run (confirms_delete item) w = start_confirm_delete item w
  run (confirms_edit item) w = start_confirm_edit item w
  run (pressed key ps) w = (edit_key_press paths key ps w).explorer

  unfoldable pub run_all : List Call → Explorer → Explorer
  unfolding run
  run_all [] w = w
  run_all (c ∷ cs) w = run_all cs (run c w)

module _ (paths : PathPackage) (h : ℤ) where
  -- The cursor is on an item, or at the top; the preview is scrolled no further than to its last page at
  -- the height `h`.
  abbrev pub InRange : Explorer → Type 0
  InRange w =
      ((w.cursor_pos ≡ 0) ⊎ (w.cursor_pos < total paths w))
      × (w.preview_offset ≤ preview_max_offset h w)

  -- Only these fields count.
  InRange-same :
      (v w : Explorer)
      → w.current_dir ≡ v.current_dir
      → w.entries ≡ v.entries
      → w.filter ≡ v.filter
      → w.cursor_pos ≡ v.cursor_pos
      → w.preview_txt ≡ v.preview_txt
      → w.preview_offset ≡ v.preview_offset
      → InRange v
      → InRange w
  unfolding total_items preview_max_offset
  InRange-same v w a b c d e f r = rw (a, b, c, d, e, f) r

  keep_cursor-InRange :
      (w : Explorer) → w.preview_offset ≤ preview_max_offset h w → InRange (keep_cursor paths w)
  unfolding keep_cursor preview_max_offset
  keep_cursor-InRange w p = elim (Bool-cases (leb (total paths w) w.cursor_pos)) [
    | inl e ↦ rw e (inl refl, p)
    | inr e ↦ rw e (inr (ground (arith, e)), p)
  ]

  keep_cursor_and_scroll-InRange :
      (w : Explorer)
      → w.preview_offset ≤ preview_max_offset h w
      → InRange (keep_cursor_and_scroll paths w)
  unfolding keep_cursor_and_scroll preview_max_offset
  keep_cursor_and_scroll-InRange w p = elim (Bool-cases (leb (total paths w) w.cursor_pos)) [
    | inl e ↦ rw e (inl refl, p)
    | inr e ↦ rw e (inr (ground (arith, e)), p)
  ]

  confirm-InRange :
      (key : Text) (ps : List Param) (w : Explorer) (m : InlineEditMode)
      → InRange w
      → InRange (confirm key ps w m).explorer
  unfolding confirm total_items preview_max_offset
  confirm-InRange key ps w m r = ground (arith, r)

  save_dir-InRange :
      (dir : Text) (ps : List Param) (w : Explorer) → InRange w → InRange (save_dir dir ps w).0
  unfolding save_dir total_items preview_max_offset
  save_dir-InRange [] ps w r = r
  save_dir-InRange (c ∷ dir) ps w r = r

  apply-InRange :
      (val : Text) (ps : List Param) (w : Explorer) (m : InlineEditMode)
      → InRange w
      → InRange (apply paths val ps w m).0
  unfolding set_filter preview_max_offset
  apply-InRange val ps w mode_target_dir r = save_dir-InRange val ps w r
  apply-InRange val ps w mode_filter r = keep_cursor_and_scroll-InRange _ r.1
  apply-InRange val ps w mode_none r = r
  apply-InRange val ps w mode_deep_search r = r
  apply-InRange val ps w mode_upload r = r
  apply-InRange val ps w mode_confirm_delete r = r
  apply-InRange val ps w mode_confirm_edit r = r

  enter-InRange :
      (ps : List Param) (w : Explorer) (m : InlineEditMode)
      → InRange w
      → InRange (enter paths ps w m).explorer
  unfolding enter total_items preview_max_offset
  enter-InRange ps w m r = apply-InRange (entered w m) ps (closed w) m r

  if-InRange :
      (b : Bool) (p q : Pressed)
      → InRange p.explorer
      → InRange q.explorer
      → InRange (if b then p else q).explorer
  if-InRange true p q l r = l
  if-InRange false p q l r = r

  erase-InRange : (w : Explorer) (s : Text) → InRange w → InRange (erase w s)
  unfolding total_items preview_max_offset
  erase-InRange w [] r = r
  erase-InRange w (c ∷ s) r = r

  type_key-InRange :
      (key : Text) (ps : List Param) (w : Explorer) (m : InlineEditMode)
      → InRange w
      → InRange (type_key paths key ps w m).explorer
  unfolding type_key total_items preview_max_offset
  type_key-InRange key ps w m r =
      let later =
        if-InRange (text_eq key (codes "<Space>")) (going_on (append_text w (codes " ")) ps m) _ r (
          if-InRange (byte_length key == 1) (going_on (append_text w key) ps m) (going_on w ps m) r
            r) in
      if-InRange (is_escape key) (cancelled w ps m) _ r (
        if-InRange (is_enter key) (enter paths ps w m) _ (enter-InRange ps w m r) (
          if-InRange (is_backspace key)
            (going_on (erase w (or_text w.input_buffer w.edit_dir_buffer)) ps m) _
            (erase-InRange w (or_text w.input_buffer w.edit_dir_buffer) r)
            (if-InRange (text_eq key (codes "<C-u>"))
              (going_on (record w { input_buffer = []; edit_dir_buffer = [] }) ps m) _ r later)))

  edit_key_press-InRange :
      (key : Text) (ps : List Param) (w : Explorer)
      → InRange w
      → InRange (edit_key_press paths key ps w).explorer
  unfolding edit_key_press
  edit_key_press-InRange key ps w r = go (current_mode w)
    where
      go : (m : InlineEditMode) → InRange (press paths key ps w m).explorer
      go mode_confirm_delete = confirm-InRange key ps w mode_confirm_delete r
      go mode_confirm_edit = confirm-InRange key ps w mode_confirm_edit r
      go mode_none = type_key-InRange key ps w mode_none r
      go mode_target_dir = type_key-InRange key ps w mode_target_dir r
      go mode_filter = type_key-InRange key ps w mode_filter r
      go mode_deep_search = type_key-InRange key ps w mode_deep_search r
      go mode_upload = type_key-InRange key ps w mode_upload r

  set_preview-InRange : (t : Text) (w : Explorer) → InRange w → InRange (set_preview paths t w)
  unfolding set_preview total_items
  set_preview-InRange t w r = (r.0, omega arith)

  clear_preview-InRange : (w : Explorer) → InRange w → InRange (clear_preview w)
  unfolding clear_preview total_items
  clear_preview-InRange w r = (r.0, omega arith)

  -- The items and the last page do not depend on the cursor and the offset.
  at_cursor :
      (w : Explorer) (n : ℕ)
      → InRange w
      → (n ≡ 0) ⊎ (n < total paths w)
      → InRange (record w { cursor_pos = n })
  unfolding total_items preview_max_offset
  at_cursor w n r c = (c, r.1)

  at_offset :
      (w : Explorer) (n : ℕ)
      → InRange w
      → n ≤ preview_max_offset h w
      → InRange (record w { preview_offset = n })
  unfolding total_items preview_max_offset
  at_offset w n r c = (r.0, c)

  up-InRange : (w : Explorer) → InRange w → InRange (up w)
  unfolding up
  up-InRange w r = elim (Bool-cases (ltb 0 w.cursor_pos)) [
    | inl e ↦ rw e (at_cursor w (w.cursor_pos - 1) r (ground (arith, r, e)))
    | inr e ↦ rw e r
  ]

  down-InRange : (w : Explorer) → InRange w → InRange (down paths w)
  unfolding down
  down-InRange w r = elim (Bool-cases (ltb (w.cursor_pos + 1) (total paths w))) [
    | inl e ↦ rw e (at_cursor w (w.cursor_pos + 1) r (inr (ground (arith, e))))
    | inr e ↦ rw e r
  ]

  home-InRange : (w : Explorer) → InRange w → InRange (home w)
  unfolding home total_items preview_max_offset
  home-InRange w r = (inl refl, r.1)

  end_-InRange : (w : Explorer) → InRange w → InRange (end_ paths w)
  unfolding end_
  end_-InRange w r = elim (Bool-cases (ltb 0 (total paths w))) [
    | inl e ↦ rw e (at_cursor w (total paths w - 1) r (inr (ground (arith, e))))
    | inr e ↦ rw e r
  ]

  pg_up-InRange : (w : Explorer) (step : ℤ) → InRange w → InRange (pg_up step w)
  unfolding pg_up
  pg_up-InRange w step r =
      at_cursor w (if ltb w.cursor_pos (step_or 10 step) then 0 else w.cursor_pos - step_or 10 step)
        r (ground (arith, r))

  pg_down-InRange : (w : Explorer) (step : ℤ) → InRange w → InRange (pg_down paths step w)
  unfolding pg_down
  pg_down-InRange w step r =
      let n = total paths w in
      let next = w.cursor_pos + step_or 10 step in
      elim (Bool-cases (n == 0)) [
        | inl e ↦ rw e (at_cursor w 0 r (inl refl))
        | inr e ↦
            rw e (at_cursor w (if leb n next then n - 1 else next) r (inr (ground (arith, e))))
      ]

  preview_up-InRange : (w : Explorer) → InRange w → InRange (preview_up w)
  unfolding preview_up
  preview_up-InRange w r = elim (Bool-cases (ltb 0 w.preview_offset)) [
    | inl e ↦ rw e (at_offset w (w.preview_offset - 1) r (omega (arith, r)))
    | inr e ↦ rw e r
  ]

  -- A higher area has an earlier last page.
  offset_below :
      (w : Explorer) (k : ℤ) (n : ℕ)
      → preview_visible_rows h ≤ preview_visible_rows k
      → n ≤ preview_max_offset k w
      → n ≤ preview_max_offset h w
  unfolding preview_max_offset
  offset_below w k n l m = omega (arith, l, m)

  preview_down-InRange :
      (w : Explorer) (k : ℤ)
      → preview_visible_rows h ≤ preview_visible_rows k
      → InRange w
      → InRange (preview_down k w)
  unfolding preview_down
  preview_down-InRange w k l r = elim (Bool-cases (ltb w.preview_offset (preview_max_offset k w))) [
    | inl e ↦ rw e (
        at_offset w (w.preview_offset + 1) r
          (offset_below w k (w.preview_offset + 1) l (ground (arith, e))))
    | inr e ↦ rw e r
  ]

  preview_pg_up-InRange : (w : Explorer) (k step : ℤ) → InRange w → InRange (preview_pg_up k step w)
  unfolding preview_pg_up
  preview_pg_up-InRange w k step r =
      let n = step_or (preview_visible_rows k) step in
      at_offset w (if ltb w.preview_offset n then 0 else w.preview_offset - n) r (ground (arith, r))

  preview_pg_down-InRange :
      (w : Explorer) (k step : ℤ)
      → preview_visible_rows h ≤ preview_visible_rows k
      → InRange w
      → InRange (preview_pg_down k step w)
  unfolding preview_pg_down
  preview_pg_down-InRange w k step l r =
      let next = w.preview_offset + step_or (preview_visible_rows k) step in
      let landed = if ltb (preview_max_offset k w) next then preview_max_offset k w else next in
      at_offset w landed r (offset_below w k landed l (ground arith))

  scrolled_home-InRange : (w : Explorer) → InRange w → InRange (preview_home w)
  unfolding preview_home
  scrolled_home-InRange w r = at_offset w 0 r (omega arith)

  scrolled_end-InRange :
      (w : Explorer) (k : ℤ)
      → preview_visible_rows h ≤ preview_visible_rows k
      → InRange w
      → InRange (preview_end k w)
  unfolding preview_end
  scrolled_end-InRange w k l r =
      at_offset w (preview_max_offset k w) r
        (offset_below w k (preview_max_offset k w) l (omega arith))

  -- Text entry starts without a move.
  starts-InRange :
      (w : Explorer) (item : FileInfo)
      → InRange w
      → InRange (start_edit_target_dir w)
        × InRange (start_edit_filter w)
        × InRange (start_edit_deep_search w)
        × InRange (start_edit_upload w)
        × InRange (start_confirm_delete item w)
        × InRange (start_confirm_edit item w)
  unfolding total_items preview_max_offset start_edit_target_dir start_edit_filter
      start_edit_deep_search start_edit_upload start_confirm_delete start_confirm_edit
  starts-InRange w item r = (r, r, r, r, r, r)

  run-InRange : (c : Call) (w : Explorer) → IsAtLeast h c → InRange w → InRange (run paths c w)
  unfolding run set set_filter set_deep_search clear_filter_and_search preview_max_offset
  run-InRange (listed dir entries) w l r = keep_cursor_and_scroll-InRange _ r.1
  run-InRange (filtered f) w l r = keep_cursor_and_scroll-InRange _ r.1
  run-InRange (searched t) w l r = keep_cursor-InRange _ r.1
  run-InRange cleared w l r = keep_cursor-InRange _ r.1
  run-InRange previewed_none w l r = clear_preview-InRange w r
  run-InRange moved_up w l r = up-InRange w r
  run-InRange moved_down w l r = down-InRange w r
  run-InRange moved_home w l r = home-InRange w r
  run-InRange moved_end w l r = end_-InRange w r
  run-InRange (paged_up step) w l r = pg_up-InRange w step r
  run-InRange (paged_down step) w l r = pg_down-InRange w step r
  run-InRange (previewed t) w l r = set_preview-InRange t w r
  run-InRange scrolled_up w l r = preview_up-InRange w r
  run-InRange (scrolled_down k) w l r = preview_down-InRange w k l r
  run-InRange scrolled_home w l r = scrolled_home-InRange w r
  run-InRange (scrolled_end k) w l r = scrolled_end-InRange w k l r
  run-InRange (scroll_paged_up k step) w l r = preview_pg_up-InRange w k step r
  run-InRange (scroll_paged_down k step) w l r = preview_pg_down-InRange w k step l r
  run-InRange edits_dir w l r = (starts-InRange w no_file r).0
  run-InRange edits_filter w l r = (starts-InRange w no_file r).1
  run-InRange edits_search w l r = (starts-InRange w no_file r).2
  run-InRange edits_upload w l r = (starts-InRange w no_file r).3
  run-InRange (confirms_delete item) w l r = (starts-InRange w item r).4
  run-InRange (confirms_edit item) w l r = (starts-InRange w item r).5
  run-InRange (pressed key ps) w l r = edit_key_press-InRange key ps w r

  run_all-InRange :
      (cs : List Call) (w : Explorer)
      → All (IsAtLeast h) cs
      → InRange w
      → InRange (run_all paths cs w)
  unfolding run_all
  run_all-InRange [] w ls r = r
  run_all-InRange (c ∷ cs) w (l, ls) r = run_all-InRange cs (run paths c w) ls (run-InRange c w l r)

  -- After any calls and key presses, in any order and with any listings, the cursor of a new explorer is
  -- on one of the items that are shown, or at the top; and if no scroll of the preview was made in an area
  -- with fewer rows than one of height `h` has, the preview is scrolled no further than to the last page
  -- of an area of height `h`.
  pub new_explorer-InRange :
      (dir : Text) (cs : List Call)
      → All (IsAtLeast h) cs
      → InRange (run_all paths cs (new_explorer dir))
  unfolding new_explorer
  new_explorer-InRange dir cs l = run_all-InRange cs (new_explorer dir) l (inl refl, omega arith)
