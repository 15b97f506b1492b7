-- ===== src/Cursor/Tests.antt =====
-- The cursor on three rows.
use ctop.Prelude.{
  ℕ, ◌≡◌, refl, ◌≢◌, Bool, true, false, not, List, [], ◌∷◌, Option, none, some, arith, length,
  select, ◌==◌, if◌then◌else◌,
}
use ctop.Prelude.Int.{pos}
use ctop.Prelude.Texts.{Text, codes, text_eq}
use ctop.Container.{Container, new_container}
use ctop.Cursor.{Grid, Cursor, Source, refresh_containers, max_rows_of}
use ctop.Cursor.Moves.{OnRow}
use ctop.Cursor.Keys.{pg_down_key, down_key, press, InWindow, press-OnRow, press-InWindow}
use ctop.Cursor.Refresh.{refresh_containers-goes_dark}

abbrev row : Text → Bool → Container
row id shown = record (new_container id false) { display = shown }

abbrev three_rows : List Container
three_rows = row (codes "a") true ∷ row (codes "b") true ∷ row (codes "c") true ∷ []

abbrev cursor : Cursor
cursor = record {
  selected_id = codes "a";
  filtered = three_rows;
  lit = λ t. text_eq (codes "a") t;
  grid = some (record { offset = pos 0; max_rows = 2 });
}

cursor-OnRow : OnRow cursor 0
unfolding ctop.Prelude.Assoc.mem text_eq new_container ctop.Cursor.find_idx
cursor-OnRow = record { distinct = (refl, (refl, (refl, tt))); at_row = refl; lit_only = λ t. refl }

press-OnRow_example :
    (gc : Cursor) × (press pg_down_key (some (some three_rows)) cursor ≡ some gc)
    × OnRow gc 2
    × (gc.filtered ≡ three_rows)
press-OnRow_example = press-OnRow pg_down_key (some (some three_rows)) cursor 0 cursor-OnRow

abbrev second_selected : Cursor
second_selected = record cursor {
  selected_id = codes "b";
  lit = λ t.
      if text_eq (codes "b") t
      then true
      else if text_eq (codes "a") t
      then false
      else text_eq (codes "a") t;
}

press-InWindow_example : InWindow second_selected.grid 1
unfolding ctop.Prelude.Int.◌+ℤ◌ ctop.Cursor.down text_eq new_container
press-InWindow_example =
    press-InWindow down_key none cursor 0 {gc' = second_selected} cursor-OnRow (omega arith)
      (omega arith, omega arith) refl

refresh_containers-goes_dark_example :
    let first =
      (refresh_containers (λ rows. rows) (some (some (row (codes "a") false ∷ []))) cursor).2 in
    let second = (refresh_containers (λ rows. rows) (some (some three_rows)) first).2 in
    (second.selected_id ≡ codes "a") × (second.lit (codes "a") ≡ false)
unfolding ctop.Prelude.Assoc.mem text_eq new_container ctop.Cursor.is_visible
refresh_containers-goes_dark_example =
    refresh_containers-goes_dark (λ rows. rows) (row (codes "a") false ∷ []) three_rows cursor refl
      (λ e. ground (arith, e)) refl refl refl
