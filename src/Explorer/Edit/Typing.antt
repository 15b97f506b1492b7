-- ===== src/Explorer/Edit/Typing.antt =====
-- Typing into internal/cwidgets/single/explorer.go.
use ctop.Prelude.{
  ℕ, ◌≡◌, refl, sym, ap, ◌∙◌, Bool, true, false, List, [], ◌∷◌, ◌++◌, arith, append-nil,
  append_assoc, if◌then◌else◌, ltb, select, select-append, Bool-cases, inl, inr,
}
use ctop.Prelude.Texts.{Text, codes, text_eq, trim_space}
use ctop.Prelude.Split.{trim_space_idem}
use ctop.Config.Settings.{Param}
use ctop.Explorer.{
  Explorer, PathPackage, mode_none, mode_filter, set_filter, keep_cursor_and_scroll,
}
use ctop.Explorer.Edit.{
  start_edit_filter, edit_key_press, type_key, enter, cancel_edit, append_text, closed,
}

-- One key for each rune.
unfoldable pub type_all : PathPackage → Text → List Param → Explorer → Explorer
type_all paths [] ps w = w
type_all paths (c ∷ s) ps w = type_all paths s ps (edit_key_press paths (c ∷ []) ps w).explorer

-- The keys of one byte.
abbrev pub is_ascii : ℕ → Bool
is_ascii c = ltb c 128

edit_key_press-rune :
    (paths : PathPackage) (c : ℕ) (ps : List Param) (w : Explorer)
    → w.edit_mode ≡ mode_filter
    → (edit_key_press paths (c ∷ []) ps w).explorer
      ≡ (if is_ascii c then append_text w (c ∷ []) else w)
unfolding edit_key_press type_key text_eq
edit_key_press-rune paths c ps w h = rw h (ground arith)

-- A key in the filter's entry: what is entered grows, and nothing else changes.
abbrev Typed : Explorer → Text → Explorer → Type 0
Typed w s v =
    (v.input_buffer ≡ w.input_buffer ++ select is_ascii s)
    × (v.edit_mode ≡ w.edit_mode)
    × (v.entries ≡ w.entries)
    × (v.filter ≡ w.filter)

edit_key_press-Typed :
    (paths : PathPackage) (c : ℕ) (ps : List Param) (w : Explorer)
    → w.edit_mode ≡ mode_filter
    → Typed w (c ∷ []) (edit_key_press paths (c ∷ []) ps w).explorer
edit_key_press-Typed paths c ps w h = elim (Bool-cases (is_ascii c)) [
  | inl e ↦ rw (edit_key_press-rune paths c ps w h, e) (refl, refl, refl, refl)
  | inr e ↦
      rw (edit_key_press-rune paths c ps w h, e) (sym (append-nil w.input_buffer), refl, refl, refl)
]

type_all-Typed :
    (paths : PathPackage) (s : Text) (ps : List Param) (w : Explorer)
    → w.edit_mode ≡ mode_filter
    → Typed w s (type_all paths s ps w)
unfolding type_all
type_all-Typed paths [] ps w h = (sym (append-nil w.input_buffer), refl, refl, refl)
type_all-Typed paths (c ∷ s) ps w h =
    let (text, mode, entries, filter) = edit_key_press-Typed paths c ps w h in
    let v = (edit_key_press paths (c ∷ []) ps w).explorer in
    let (text', mode', entries', filter') = type_all-Typed paths s ps v (mode ∙ h) in
    (
      text'
          ∙ ap (λ (t : Text). t ++ select is_ascii s) text
          ∙ append_assoc w.input_buffer (select is_ascii (c ∷ [])) (select is_ascii s)
          ∙ ap (λ (t : Text). w.input_buffer ++ t) (sym (select-append is_ascii (c ∷ []) s)),
      mode' ∙ mode,
      entries' ∙ entries,
      filter' ∙ filter,
    )

set_filter-filter :
    (paths : PathPackage) (f : Text) (w : Explorer)
    → ((set_filter paths f w).filter ≡ trim_space f)
      × ((set_filter paths f w).entries ≡ w.entries)
      × ((set_filter paths f w).edit_mode ≡ w.edit_mode)
unfolding set_filter keep_cursor_and_scroll
set_filter-filter paths f w = ground arith

enter_filter :
    (paths : PathPackage) (ps : List Param) (w : Explorer)
    → w.edit_mode ≡ mode_filter
    → let r = edit_key_press paths (codes "<Enter>") ps w in
      (r.done ≡ true)
      × (r.applied ≡ true)
      × (r.value ≡ trim_space w.input_buffer)
      × (r.explorer.filter ≡ trim_space w.input_buffer)
      × (r.explorer.entries ≡ w.entries)
      × (r.explorer.edit_mode ≡ mode_none)
unfolding edit_key_press type_key text_eq enter
enter_filter paths ps w h =
    let (filter, entries, mode) = set_filter-filter paths (trim_space w.input_buffer) (closed w) in
    rw h (refl, refl, refl, filter ∙ trim_space_idem w.input_buffer, entries, mode)

escape_filter :
    (paths : PathPackage) (ps : List Param) (w : Explorer)
    → w.edit_mode ≡ mode_filter
    → let r = edit_key_press paths (codes "<Escape>") ps w in
      (r.applied ≡ false) × (r.explorer.filter ≡ w.filter) × (r.explorer.edit_mode ≡ mode_none)
unfolding edit_key_press type_key text_eq cancel_edit
escape_filter paths ps w h = rw h (refl, refl, refl)

-- Whatever runes are typed after the filter's entry has been opened: Enter makes the filter what it was
-- with those of these runes behind that are of one byte, trimmed, keeps the listing and ends the entry;
-- Escape ends it with the filter as it was.
pub edit_key_press-filter :
    (paths : PathPackage) (s : Text) (ps : List Param) (w : Explorer)
    → let typed = type_all paths s ps (start_edit_filter w) in
      let r = edit_key_press paths (codes "<Enter>") ps typed in
      let e = edit_key_press paths (codes "<Escape>") ps typed in
      (r.applied ≡ true)
      × (r.explorer.filter ≡ trim_space (w.filter ++ select is_ascii s))
      × (r.explorer.entries ≡ w.entries)
      × (r.explorer.edit_mode ≡ mode_none)
      × (e.applied ≡ false)
      × (e.explorer.filter ≡ w.filter)
      × (e.explorer.edit_mode ≡ mode_none)
unfolding start_edit_filter
edit_key_press-filter paths s ps w =
    let typed = type_all paths s ps (start_edit_filter w) in
    let (text, mode, entries, filter) = type_all-Typed paths s ps (start_edit_filter w) refl in
    let (done, applied, value, set_to, kept, ended) = enter_filter paths ps typed mode in
    let (refused, unset, left) = escape_filter paths ps typed mode in
    (applied, set_to ∙ ap trim_space text, kept ∙ entries, ended, refused, unset ∙ filter, left)
