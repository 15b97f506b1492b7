-- ===== src/LogView.antt =====
-- `Logs` of internal/cwidgets/single/logs.go: the buffer of log entries and what of it is on the screen.
-- A line is the list of its runes. `format` cleans and lays out a message; the time of an entry stands as
-- it is formatted, none for the zero time. Titles, styles and cells are left out.
pub mod Buffer
pub mod Chunks
pub mod Window
mod Tests
use ctop.Prelude.{
  ℕ, zero, suc, ◌+◌, ◌-◌, ◌/◌, Bool, true, false, not, ◌&&◌, ◌||◌, List, [], ◌∷◌, ◌++◌, Option,
  none, some, if◌then◌else◌, ltb, leb, length, take, drop, set, copy_onto,
}
use ctop.Prelude.Int.{ℤ, pos, negsuc, int_le, pos_part}
use ctop.Prelude.Texts.{Text, codes, text_eq, to_lower, trim_space, contains}
use ctop.Prelude.Split.{join_with}

pub record LogEntry : Type 0 where
  pub timestamp : Option Text
  pub message : Text

-- Times are nanoseconds; `status_time` is none for the zero time.
pub record Logs : Type 0 where
  pub entries : List LogEntry
  pub container_name : Text
  pub offset : ℕ
  pub auto_tail : Bool
  pub show_time : Bool
  pub filter : Text
  pub filter_exclude : Bool
  pub status_msg : Text
  pub status_time : Option ℕ
  pub wrap : Bool

abbrev pub max_log_entries : ℕ
max_log_entries = 8192

unfoldable pub new_logs : Bool → Logs
new_logs wrap = record {
  entries = [];
  container_name = [];
  offset = 0;
  auto_tail = true;
  show_time = true;
  filter = [];
  filter_exclude = false;
  status_msg = [];
  status_time = none;
  wrap = wrap;
}

set_container_name : Text → Logs → Logs
set_container_name name l = record l { container_name = name }

set_status : Text → ℕ → Logs → Logs
set_status msg now l = record l { status_msg = msg; status_time = some now }

set_wrap : Bool → Logs → Logs
set_wrap wrap l = record l { wrap = wrap }

toggle_wrap : Logs → Logs × Bool
toggle_wrap l = (record l { wrap = not l.wrap }, not l.wrap)

-- `copy(w.Entries, w.Entries[1:])`, and the last place is written.
unfoldable pub add : (Text → Text) → LogEntry → Logs → Logs
add format e l =
    let entry : LogEntry = record e { message = format e.message } in
    if leb max_log_entries (length l.entries)
    then record l {
      entries = set (copy_onto l.entries (drop 1 l.entries)) (max_log_entries - 1) entry;
    }
    else record l { entries = l.entries ++ entry ∷ [] }

toggle_time : Logs → Logs
toggle_time l = record l { show_time = not l.show_time }

set_filter : Text → Logs → Logs
set_filter f l = record l { filter = trim_space f; offset = 0 }

toggle_filter_mode : Logs → Logs × Bool
toggle_filter_mode l =
    (record l { filter_exclude = not l.filter_exclude; offset = 0 }, not l.filter_exclude)

set_filter_exclude : Bool → Logs → Logs
set_filter_exclude exclude l = record l { filter_exclude = exclude; offset = 0 }

unfoldable pub up : Logs → Logs
up l = record l { auto_tail = false; offset = if ltb 0 l.offset then l.offset - 1 else l.offset }

unfoldable pub down : Logs → Logs
down l = record l { offset = l.offset + 1 }

-- Half of the visible height, which may be negative, and at least 1.
abbrev page_step : ℤ → ℕ
page_step (pos h) = if ltb (h / 2) 1 then 1 else h / 2
page_step (negsuc h) = 1

unfoldable pub pg_up : ℤ → Logs → Logs
pg_up h l = record l {
  auto_tail = false;
  offset = if ltb l.offset (page_step h) then 0 else l.offset - page_step h;
}

unfoldable pub pg_down : ℤ → Logs → Logs
pg_down h l = record l { offset = l.offset + page_step h }

unfoldable pub scroll_top : Logs → Logs
scroll_top l = record l { auto_tail = false; offset = 0 }

unfoldable pub scroll_bottom : Logs → Logs
scroll_bottom l = record l { auto_tail = true }

-- The text of a saved log.
abbrev saved_line : Bool → LogEntry → Text
saved_line show_time e = elim e.timestamp [
  | none ↦ e.message
  | some t ↦ if show_time then codes "[" ++ t ++ codes "] " ++ e.message else e.message
]

saved_lines : Bool → List LogEntry → List Text
saved_lines show_time [] = []
saved_lines show_time (e ∷ es) = saved_line show_time e ∷ saved_lines show_time es

unfoldable pub save_logs : Logs → Text
unfolding saved_lines
save_logs l = join_with (10 ∷ []) (saved_lines l.show_time l.entries)

abbrev last_chunk : Text → List Text
last_chunk [] = []
last_chunk (c ∷ cs) = (c ∷ cs) ∷ []

-- `for len(runes) > lineSize`, on fuel.
unfoldable pub split_runes : ℕ → ℕ → Text → List Text
split_runes zero size runes = []
split_runes (suc fuel) size runes =
    let rest = split_runes fuel size (drop size runes) in
    if ltb size (length runes) then take size runes ∷ rest else last_chunk runes

unfoldable pub split_log_line : Text → ℤ → List Text
unfolding split_runes
split_log_line [] size = []
split_log_line (c ∷ line) (negsuc n) = []
split_log_line (c ∷ line) (pos zero) = []
split_log_line (c ∷ line) (pos (suc n)) = split_runes (length (c ∷ line)) (suc n) (c ∷ line)

abbrev pub line_of : Logs → LogEntry → Text
line_of l e = elim e.timestamp [
  | none ↦ e.message
  | some t ↦ if l.show_time then t ++ codes " " ++ e.message else e.message
]

unfoldable pub is_shown : Logs → Text → Bool
is_shown l line =
    let matches = contains (to_lower line) (to_lower l.filter) in
    if text_eq (to_lower l.filter) []
    then true
    else if l.filter_exclude
    then not matches
    else matches

unfoldable pub rendered_lines : ℕ → Logs → List LogEntry → List Text
unfolding is_shown split_log_line
rendered_lines width l [] = []
rendered_lines width l (e ∷ es) =
    let rest = rendered_lines width l es in
    let line = line_of l e in
    if not (is_shown l line)
    then rest
    else if l.wrap
    then split_log_line line (pos width) ++ rest
    else line ∷ rest

unfoldable pub scroll : ℕ → Logs → Logs
scroll max_offset l =
    if l.auto_tail
    then record l { offset = max_offset }
    else if ltb max_offset l.offset
    then record l { offset = max_offset; auto_tail = true }
    else l

-- A status message is dropped 2.5 seconds after it was first seen.
abbrev expire : ℕ → Option ℕ → Logs → Logs
expire now none l = record l { status_time = some now }
expire now (some t) l =
    if ltb (t + 2500000000) now then record l { status_msg = []; status_time = none } else l

expire_status : ℕ → Logs → Logs
expire_status now l = if text_eq l.status_msg [] then l else expire now l.status_time l

-- The state after a `Draw` in an area of positive size, and the lines that are visible.
unfoldable pub draw_in : ℕ → ℕ → ℕ → Logs → Logs × List Text
unfolding scroll expire_status
draw_in now height width l =
    let lines = rendered_lines width l l.entries in
    let l' = scroll (length lines - height) l in
    (expire_status now l', take height (drop l'.offset lines))

abbrev pub line_width : ℕ → ℕ
line_width width = if ltb 4 width then width - 4 else 1

unfoldable pub draw : ℕ → ℤ → ℤ → Logs → Logs × List Text
unfolding draw_in
draw now height width l =
    if int_le height (pos 0) || int_le width (pos 0)
    then (l, [])
    else draw_in now (pos_part height) (line_width (pos_part width)) l
