-- ===== src/LogView/Tests.antt =====
-- The log view on concrete entries.
use ctop.Prelude.{◌≡◌, refl, Bool, true, false, List, [], ◌∷◌, ◌++◌, Option, none, some, map}
use ctop.Prelude.Int.{pos}
use ctop.Prelude.Texts.{Text, codes}
use ctop.LogView.{
  LogEntry, new_logs, draw, split_log_line, rendered_lines, line_width, max_log_entries,
}
use ctop.LogView.Buffer.{add_all, formatted, last, add_all-window}
use ctop.LogView.Window.{IsWindow, draw-IsWindow}
use ctop.LogView.Chunks.{join, IsChunk, split_log_line-join}

abbrev entry : Text → LogEntry
entry message = record { timestamp = none; message = message }

abbrev three : List LogEntry
three = entry (codes "one") ∷ entry (codes "two") ∷ entry (codes "three") ∷ []

abbrev as_is : Text → Text
as_is s = s

add_all-window_example :
    (add_all as_is three (new_logs false)).entries
    ≡ last max_log_entries (map (formatted as_is) three)
add_all-window_example = add_all-window as_is false three

draw-IsWindow_example :
    let l = add_all as_is three (new_logs false) in
    let r = draw 5 (pos 2) (pos 10) l in
    IsWindow 2 (rendered_lines (line_width 10) l l.entries) r.0 r.1
draw-IsWindow_example = draw-IsWindow 5 1 9 (add_all as_is three (new_logs false))

split_log_line-join_example :
    (join (split_log_line (codes "container") (pos 4)) ≡ codes "container")
    × ctop.Prelude.All (IsChunk 4) (split_log_line (codes "container") (pos 4))
split_log_line-join_example = split_log_line-join (codes "container") 3

wrapped : split_log_line (codes "container") (pos 4) ≡ codes "cont" ∷ codes "aine" ∷ codes "r" ∷ []
unfolding split_log_line
wrapped = refl
