-- ===== src/Explorer.antt =====
-- `Explorer` of internal/cwidgets/single/explorer.go: the list of a container's files with its cursor,
-- filter and preview; Edit: its text entry. `path.Match`, `filepath.Match` and `path.Dir` are parameters;
-- of the area only the height of its inside is kept, an argument. Drawing is left out.
pub mod Edit
pub mod Selection
mod Tests
use ctop.Prelude.{
  ℕ, zero, suc, ◌+◌, ◌-◌, Bool, true, false, not, ◌&&◌, ◌||◌, List, [], ◌∷◌, ◌++◌, Option, none,
  some, if◌then◌else◌, ltb, leb, length, get_elem?, ◌==◌,
}
use ctop.Prelude.Int.{ℤ, pos, negsuc, int_le, pos_part}
use ctop.Prelude.Texts.{Text, codes, text_eq, to_lower, trim_space, contains}
use ctop.Prelude.Split.{contains_any, split}

pub record FileInfo : Type 0 where
  pub name : Text
  pub path : Text
  pub is_dir : Bool
  pub size : ℤ
  pub mode : Text
  pub mod_time : Text

abbrev pub no_file : FileInfo
no_file = record { name = []; path = []; is_dir = false; size = pos 0; mode = []; mod_time = [] }

-- A match is none for a pattern that is malformed.
pub record PathPackage : Type 0 where
  pub path_match : Text → Text → Option Bool
  pub filepath_match : Text → Text → Option Bool
  pub dir : Text → Text

pub data InlineEditMode : Type 0 where
  mode_none mode_target_dir mode_filter mode_deep_search mode_upload mode_confirm_delete
        mode_confirm_edit :
      InlineEditMode

pub record Explorer : Type 0 where
  pub current_dir : Text
  pub entries : List FileInfo
  pub filter : Text
  pub cursor_pos : ℕ
  pub scroll_offset : ℕ
  pub previewing : Bool
  pub preview_txt : Text
  pub preview_offset : ℕ
  pub preview_path : Text
  pub status_msg : Text
  pub status_is_err : Bool
  pub host_download_dir : Text
  pub edit_mode : InlineEditMode
  pub input_buffer : Text
  pub is_deep_search : Bool
  pub deep_search_term : Text
  pub editing_target_dir : Bool
  pub edit_dir_buffer : Text
  pub pending_action_item : FileInfo
  pub empty : Bool

-- With the download directory of the configuration.
unfoldable pub new_explorer : Text → Explorer
new_explorer download_dir = record {
  current_dir = codes "/";
  entries = [];
  filter = [];
  cursor_pos = 0;
  scroll_offset = 0;
  previewing = false;
  preview_txt = [];
  preview_offset = 0;
  preview_path = [];
  status_msg = [];
  status_is_err = false;
  host_download_dir = download_dir;
  edit_mode = mode_none;
  input_buffer = [];
  is_deep_search = false;
  deep_search_term = [];
  editing_target_dir = false;
  edit_dir_buffer = [];
  pending_action_item = no_file;
  empty = true;
}

abbrev is_match : Option Bool → Bool
is_match none = false
is_match (some b) = b

unfoldable pub match_filter : PathPackage → Text → Text → Bool
match_filter paths [] name = true
match_filter paths (c ∷ filter) name =
    let p = to_lower (c ∷ filter) in
    let target = to_lower name in
    if contains_any p (codes "*?")
    then is_match (paths.path_match p target) || is_match (paths.filepath_match p target)
    else contains target p

unfoldable pub matching : PathPackage → Text → List FileInfo → List FileInfo
unfolding match_filter
matching paths filter [] = []
matching paths filter (e ∷ es) =
    let rest = matching paths filter es in
    if match_filter paths filter e.name then e ∷ rest else rest

abbrev or_root : Text → Text
or_root [] = codes "/"
or_root (c ∷ cs) = c ∷ cs

abbrev pub parent : PathPackage → Text → FileInfo
parent paths dir = record {
  name = codes "..";
  path = or_root (paths.dir dir);
  is_dir = true;
  size = pos 0;
  mode = codes "drwxr-xr-x";
  mod_time = [];
}

unfoldable pub total_items : PathPackage → Explorer → List FileInfo
unfolding matching
total_items paths w =
    let rest = matching paths w.filter w.entries in
    if not (text_eq w.current_dir (codes "/")) && not (text_eq w.current_dir [])
    then parent paths w.current_dir ∷ rest
    else rest

abbrev pub total : PathPackage → Explorer → ℕ
total paths w = length (total_items paths w)

unfoldable pub selected : PathPackage → Explorer → Option FileInfo
selected paths w = get_elem? (total_items paths w) w.cursor_pos

-- `if w.CursorPos >= len(w.TotalItems())`, with or without the scroll offset.
unfoldable pub keep_cursor : PathPackage → Explorer → Explorer
keep_cursor paths w = if leb (total paths w) w.cursor_pos then record w { cursor_pos = 0 } else w

unfoldable pub keep_cursor_and_scroll : PathPackage → Explorer → Explorer
keep_cursor_and_scroll paths w =
    if leb (total paths w) w.cursor_pos then record w { cursor_pos = 0; scroll_offset = 0 } else w

abbrev is_nil : List FileInfo → Bool
is_nil [] = true
is_nil (e ∷ es) = false

unfoldable pub set : PathPackage → Text → List FileInfo → Explorer → Explorer
set paths dir entries w =
    keep_cursor_and_scroll paths
      (record w { current_dir = dir; entries = entries; empty = is_nil entries })

unfoldable pub set_filter : PathPackage → Text → Explorer → Explorer
set_filter paths filter w = keep_cursor_and_scroll paths (record w { filter = trim_space filter })

unfoldable pub set_deep_search : PathPackage → Text → Explorer → Explorer
set_deep_search paths term w =
    keep_cursor paths (record w { is_deep_search = true; deep_search_term = term })

unfoldable pub clear_filter_and_search : PathPackage → Explorer → Explorer
clear_filter_and_search paths w =
    keep_cursor paths (record w { filter = []; is_deep_search = false; deep_search_term = [] })

set_status : Text → Bool → Explorer → Explorer
set_status msg is_err w = record w { status_msg = msg; status_is_err = is_err }

unfoldable pub up : Explorer → Explorer
up w = if ltb 0 w.cursor_pos then record w { cursor_pos = w.cursor_pos - 1 } else w

-- `w.CursorPos < len(items)-1`
unfoldable pub down : PathPackage → Explorer → Explorer
down paths w =
    if ltb (w.cursor_pos + 1) (total paths w) then record w { cursor_pos = w.cursor_pos + 1 } else w

unfoldable pub home : Explorer → Explorer
home w = record w { cursor_pos = 0; scroll_offset = 0 }

unfoldable pub end_ : PathPackage → Explorer → Explorer
end_ paths w = if ltb 0 (total paths w) then record w { cursor_pos = total paths w - 1 } else w

abbrev pub step_or : ℕ → ℤ → ℕ
step_or default (pos zero) = default
step_or default (pos (suc n)) = suc n
step_or default (negsuc n) = default

unfoldable pub pg_up : ℤ → Explorer → Explorer
pg_up step w = record w {
  cursor_pos = if ltb w.cursor_pos (step_or 10 step) then 0 else w.cursor_pos - step_or 10 step;
}

unfoldable pub pg_down : PathPackage → ℤ → Explorer → Explorer
pg_down paths step w =
    let n = total paths w in
    let next = w.cursor_pos + step_or 10 step in
    if n == 0
    then record w { cursor_pos = 0 }
    else record w { cursor_pos = if leb n next then n - 1 else next }

abbrev path_or : Text → Option FileInfo → Text
path_or path none = path
path_or path (some item) = item.path

unfoldable pub set_preview : PathPackage → Text → Explorer → Explorer
set_preview paths content w = record w {
  previewing = true;
  preview_txt = content;
  preview_offset = 0;
  preview_path = path_or w.preview_path (selected paths w);
}

unfoldable pub clear_preview : Explorer → Explorer
clear_preview w = record w {
  previewing = false;
  preview_txt = [];
  preview_offset = 0;
  preview_path = [];
}

-- `v := height - 2`, at least 1.
abbrev pub preview_visible_rows : ℤ → ℕ
preview_visible_rows (pos h) = if ltb h 3 then 1 else h - 2
preview_visible_rows (negsuc h) = 1

unfoldable pub preview_max_offset : ℤ → Explorer → ℕ
preview_max_offset h w = length (split 10 w.preview_txt) - preview_visible_rows h

unfoldable pub preview_up : Explorer → Explorer
preview_up w =
    if ltb 0 w.preview_offset then record w { preview_offset = w.preview_offset - 1 } else w

unfoldable pub preview_down : ℤ → Explorer → Explorer
preview_down h w =
    if ltb w.preview_offset (preview_max_offset h w)
    then record w { preview_offset = w.preview_offset + 1 }
    else w

unfoldable pub preview_home : Explorer → Explorer
preview_home w = record w { preview_offset = 0 }

unfoldable pub preview_end : ℤ → Explorer → Explorer
preview_end h w = record w { preview_offset = preview_max_offset h w }

unfoldable pub preview_pg_up : ℤ → ℤ → Explorer → Explorer
preview_pg_up h step w =
    let n = step_or (preview_visible_rows h) step in
    record w { preview_offset = if ltb w.preview_offset n then 0 else w.preview_offset - n }

unfoldable pub preview_pg_down : ℤ → ℤ → Explorer → Explorer
preview_pg_down h step w =
    let next = w.preview_offset + step_or (preview_visible_rows h) step in
    record w {
      preview_offset = if ltb (preview_max_offset h w) next then preview_max_offset h w else next;
    }
