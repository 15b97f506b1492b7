-- ===== src/Explorer/Tests.antt =====
-- The explorer on concrete listings and keys.
use ctop.Prelude.{arith, select, ◌≡◌, true, false, List, [], ◌∷◌, ◌++◌, none}
use ctop.Prelude.Int.{pos}
use ctop.Prelude.Texts.{Text, codes, trim_space}
use ctop.Config.Settings.{default_params}
use ctop.Explorer.{FileInfo, no_file, PathPackage, mode_none, new_explorer}
use ctop.Explorer.Edit.{start_edit_filter, edit_key_press}
use ctop.Explorer.Edit.Typing.{type_all, is_ascii, edit_key_press-filter}
use ctop.Explorer.Selection.{
  Call, listed, moved_down, moved_end, filtered, previewed, scrolled_end, run_all, InRange,
  new_explorer-InRange,
}

abbrev paths : PathPackage
paths = record { path_match = λ p s. none; filepath_match = λ p s. none; dir = λ p. codes "/" }

abbrev file_named : Text → FileInfo
file_named name = record no_file { name = name; path = codes "/etc/" ++ name }

abbrev calls : List Call
calls =
    listed (codes "/etc") (file_named (codes "hosts") ∷ file_named (codes "passwd") ∷ [])
    ∷ moved_end
    ∷ filtered (codes "host")
    ∷ previewed (codes "127.0.0.1 localhost")
    ∷ scrolled_end (pos 20)
    ∷ moved_down
    ∷ []

new_explorer-InRange_example :
    InRange paths (pos 12) (run_all paths calls (new_explorer (codes "/tmp")))
new_explorer-InRange_example =
    new_explorer-InRange paths (pos 12) (codes "/tmp") calls
      (tt, (tt, (tt, (tt, (omega arith, (tt, tt))))))

edit_key_press-filter_example :
    let w = new_explorer (codes "/tmp") in
    let typed =
      type_all paths (codes "ho" ++ 233 ∷ codes " ") default_params (start_edit_filter w) in
    let r = edit_key_press paths (codes "<Enter>") default_params typed in
    let e = edit_key_press paths (codes "<Escape>") default_params typed in
    (r.applied ≡ true)
    × (r.explorer.filter ≡ trim_space (w.filter ++ select is_ascii (codes "ho" ++ 233 ∷ codes " ")))
    × (r.explorer.entries ≡ w.entries)
    × (r.explorer.edit_mode ≡ mode_none)
    × (e.applied ≡ false)
    × (e.explorer.filter ≡ w.filter)
    × (e.explorer.edit_mode ≡ mode_none)
edit_key_press-filter_example =
    edit_key_press-filter paths (codes "ho" ++ 233 ∷ codes " ") default_params
      (new_explorer (codes "/tmp"))
