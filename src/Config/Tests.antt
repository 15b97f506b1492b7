-- ===== src/Config/Tests.antt =====
-- The settings and the columns on concrete values.
use ctop.Prelude.{◌≡◌, refl, List, [], ◌∷◌, some}
use mathlib.Core.List.{Perm}
use ctop.Prelude.Texts.{Text, codes, text_eq}
use ctop.Prelude.Assoc.{mem}
use ctop.Config.Columns.{Column, default_columns, set_columns, enabled_columns}
use ctop.Config.Columns.Layout.{column_names, set_columns-enabled}

abbrev two_names : List Text
two_names = codes "cpu" ∷ codes "name" ∷ []

set_columns-enabled_example :
    (cols : List Column) × (set_columns two_names default_columns ≡ some cols)
    × (enabled_columns cols ≡ two_names)
    × Perm (column_names cols) (column_names default_columns)
unfolding mem text_eq
set_columns-enabled_example =
    set_columns-enabled two_names default_columns (refl, (refl, tt)) (refl, (refl, tt))
