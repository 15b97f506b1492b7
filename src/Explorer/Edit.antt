-- ===== src/Explorer/Edit.antt =====
-- The text entry of internal/cwidgets/single/explorer.go. The configuration's parameters go along, since a
-- new target directory is written there. A text is the list of its runes, all of them valid; `len` counts
-- the bytes of their UTF-8.
pub mod Typing
use ctop.Prelude.{
  ℕ, ◌+◌, Bool, true, false, not, ◌&&◌, ◌||◌, List, [], ◌∷◌, ◌++◌, if◌then◌else◌, ltb, ◌==◌,
}
use ctop.Prelude.Texts.{Text, codes, text_eq, trim_space}
use ctop.Config.Settings.{Param, get_download_dir, set_download_dir}
use ctop.Explorer.{
  Explorer, FileInfo, no_file, PathPackage, InlineEditMode, mode_none, mode_target_dir, mode_filter,
  mode_deep_search, mode_upload, mode_confirm_delete, mode_confirm_edit, set_filter,
}

unfoldable pub start_edit_target_dir : Explorer → Explorer
start_edit_target_dir w = record w {
  edit_mode = mode_target_dir;
  editing_target_dir = true;
  input_buffer = w.host_download_dir;
  edit_dir_buffer = w.host_download_dir;
}

unfoldable pub start_edit_filter : Explorer → Explorer
start_edit_filter w = record w { edit_mode = mode_filter; input_buffer = w.filter }

unfoldable pub start_edit_deep_search : Explorer → Explorer
start_edit_deep_search w = record w { edit_mode = mode_deep_search; input_buffer = [] }

unfoldable pub start_edit_upload : Explorer → Explorer
start_edit_upload w = record w { edit_mode = mode_upload; input_buffer = [] }

unfoldable pub start_confirm_delete : FileInfo → Explorer → Explorer
start_confirm_delete item w = record w {
  edit_mode = mode_confirm_delete;
  pending_action_item = item;
  status_msg = [];
}

unfoldable pub start_confirm_edit : FileInfo → Explorer → Explorer
start_confirm_edit item w = record w {
  edit_mode = mode_confirm_edit;
  pending_action_item = item;
  status_msg = [];
}

unfoldable pub cancel_edit : Explorer → Explorer
cancel_edit w = record w {
  edit_mode = mode_none;
  editing_target_dir = false;
  input_buffer = [];
  edit_dir_buffer = [];
  pending_action_item = no_file;
}

abbrev or_config : Text → List Param → Text
or_config [] ps = get_download_dir ps
or_config (c ∷ dir) ps = c ∷ dir

unfoldable pub set_explorer_dir : Text → List Param → Explorer → Explorer
set_explorer_dir dir ps w = record w { host_download_dir = or_config dir ps }

-- `config.SetDownloadDir(dir); w.SetDownloadDir(config.GetDownloadDir())`, unless the text is empty.
unfoldable pub save_dir : Text → List Param → Explorer → Explorer × List Param
unfolding set_explorer_dir
save_dir [] ps w = (w, ps)
save_dir (c ∷ dir) ps w =
    let ps' = set_download_dir (c ∷ dir) ps in (set_explorer_dir (get_download_dir ps') ps' w, ps')

abbrev pub or_text : Text → Text → Text
or_text [] other = other
or_text (c ∷ cs) other = c ∷ cs

unfoldable pub apply_edit_target_dir : List Param → Explorer → (Explorer × List Param) × Text
unfolding save_dir cancel_edit
apply_edit_target_dir ps w =
    let dir = or_text (trim_space w.input_buffer) (trim_space w.edit_dir_buffer) in
    let saved = save_dir dir ps w in ((cancel_edit saved.0, saved.1), saved.0.host_download_dir)

abbrev pub is_mode_none : InlineEditMode → Bool
is_mode_none mode_none = true
is_mode_none _ = false

unfoldable pub is_editing : Explorer → Bool
is_editing w = not (is_mode_none w.edit_mode) || w.editing_target_dir

-- What a key press leaves and returns.
pub record Pressed : Type 0 where
  pub explorer : Explorer
  pub params : List Param
  pub done : Bool
  pub applied : Bool
  pub mode : InlineEditMode
  pub value : Text

abbrev pub is_escape : Text → Bool
is_escape key = text_eq key (codes "<Escape>") || text_eq key (codes "<C-c>")

abbrev pub is_enter : Text → Bool
is_enter key = text_eq key (codes "<Enter>")

abbrev pub is_yes : Text → Bool
is_yes key = text_eq key (codes "y") || text_eq key (codes "Y") || is_enter key

abbrev pub is_no : Text → Bool
is_no key = text_eq key (codes "n") || text_eq key (codes "N") || is_escape key

abbrev pub is_backspace : Text → Bool
is_backspace key =
    text_eq key (codes "<Backspace>")
    || text_eq key (codes "<C-<Backspace>>")
    || text_eq key (codes "<C-h>")

abbrev pub going_on : Explorer → List Param → InlineEditMode → Pressed
going_on w ps m = record {
  explorer = w;
  params = ps;
  done = false;
  applied = false;
  mode = m;
  value = [];
}

abbrev pub cancelled : Explorer → List Param → InlineEditMode → Pressed
cancelled w ps m = record {
  explorer = cancel_edit w;
  params = ps;
  done = true;
  applied = false;
  mode = m;
  value = [];
}

unfoldable pub confirm : Text → List Param → Explorer → InlineEditMode → Pressed
unfolding cancel_edit
confirm key ps w m =
    if is_yes key
    then record {
      explorer = cancel_edit w;
      params = ps;
      done = true;
      applied = true;
      mode = m;
      value = w.pending_action_item.path;
    }
    else if is_no key
    then cancelled w ps m
    else going_on w ps m

-- The text that is entered.
abbrev pub entered : Explorer → InlineEditMode → Text
entered w mode_target_dir = or_text (trim_space w.input_buffer) (trim_space w.edit_dir_buffer)
entered w _ = trim_space w.input_buffer

abbrev pub closed : Explorer → Explorer
closed w = record w {
  edit_mode = mode_none;
  editing_target_dir = false;
  input_buffer = [];
  edit_dir_buffer = [];
}

abbrev pub apply :
    PathPackage → Text → List Param → Explorer → InlineEditMode → Explorer × List Param
apply paths val ps w mode_target_dir = save_dir val ps w
apply paths val ps w mode_filter = (set_filter paths val w, ps)
apply paths val ps w _ = (w, ps)

unfoldable pub enter : PathPackage → List Param → Explorer → InlineEditMode → Pressed
unfolding save_dir
enter paths ps w m =
    let val = entered w m in
    let r = apply paths val ps (closed w) m in
    record { explorer = r.0; params = r.1; done = true; applied = true; mode = m; value = val }

unfoldable pub but_last : Text → Text
but_last [] = []
but_last (c ∷ []) = []
but_last (c ∷ d ∷ cs) = c ∷ but_last (d ∷ cs)

abbrev pub erase : Explorer → Text → Explorer
erase w [] = w
erase w (c ∷ cs) = record w {
  input_buffer = but_last (c ∷ cs);
  edit_dir_buffer = but_last (c ∷ cs);
}

abbrev pub append_text : Explorer → Text → Explorer
append_text w s = record w {
  input_buffer = w.input_buffer ++ s;
  edit_dir_buffer = w.input_buffer ++ s;
}

abbrev pub current_mode : Explorer → InlineEditMode
current_mode w =
    if is_mode_none w.edit_mode && w.editing_target_dir then mode_target_dir else w.edit_mode

abbrev pub rune_size : ℕ → ℕ
rune_size c = if ltb c 128 then 1 else if ltb c 2048 then 2 else if ltb c 65536 then 3 else 4

-- `len(key)`
abbrev pub byte_length : Text → ℕ
byte_length [] = 0
byte_length (c ∷ cs) = rune_size c + byte_length cs

unfoldable pub type_key : PathPackage → Text → List Param → Explorer → InlineEditMode → Pressed
unfolding cancel_edit enter but_last
type_key paths key ps w m =
    if is_escape key
    then cancelled w ps m
    else if is_enter key
    then enter paths ps w m
    else if is_backspace key
    then going_on (erase w (or_text w.input_buffer w.edit_dir_buffer)) ps m
    else if text_eq key (codes "<C-u>")
    then going_on (record w { input_buffer = []; edit_dir_buffer = [] }) ps m
    else if text_eq key (codes "<Space>")
    then going_on (append_text w (codes " ")) ps m
    else if byte_length key == 1
    then going_on (append_text w key) ps m
    else going_on w ps m

abbrev pub press : PathPackage → Text → List Param → Explorer → InlineEditMode → Pressed
press paths key ps w mode_confirm_delete = confirm key ps w mode_confirm_delete
press paths key ps w mode_confirm_edit = confirm key ps w mode_confirm_edit
press paths key ps w m = type_key paths key ps w m

unfoldable pub edit_key_press : PathPackage → Text → List Param → Explorer → Pressed
unfolding confirm type_key
edit_key_press paths key ps w = press paths key ps w (current_mode w)
