-- ===== src/Cursor.antt =====
-- `GridCursor` of cursor.go. The mutex makes each method one step. What is lit is a set of the
-- identifiers of rows. An index out of range is a panic, here `none`. Redrawing is left out, and so is
-- the flag that puts it off.
pub mod Moves
pub mod Keys
pub mod Refresh
mod Tests
use ctop.Prelude.{
  ℕ, zero, suc, ◌+◌, ◌-◌, ◌/◌, ◌%◌, Bool, true, false, not, ◌&&◌, ◌||◌, List, [], ◌∷◌, Option, none,
  some, if◌then◌else◌, ltb, leb, ◌==◌, length, get_elem?, select, min,
}
use mathlib.Core.Option
use ctop.Prelude.Int.{ℤ, pos, negsuc, ◌+ℤ◌, ◌-ℤ◌, int_lt, int_le}
use ctop.Prelude.Texts.{Text, text_eq}
use ctop.Container.{Container}

-- `cGrid`: its offset, and what its `MaxRows` returns.
pub record Grid : Type 0 where
  pub offset : ℤ
  pub max_rows : ℕ

pub record Cursor : Type 0 where
  pub selected_id : Text
  pub filtered : List Container
  pub lit : Text → Bool
  pub grid : Option Grid

-- What the connector has: `none` for no connector, `some none` for an error of `Get`, else `All`.
abbrev pub Source : Type 0
Source = Option (Option (List Container))

abbrev pub light : Text → (Text → Bool) → Text → Bool
light id lit t = if text_eq id t then true else lit t

abbrev pub dim : Text → (Text → Bool) → Text → Bool
dim id lit t = if text_eq id t then false else lit t

unfoldable pub dim_all : List Container → (Text → Bool) → Text → Bool
dim_all [] lit = lit
dim_all (c ∷ cs) lit = dim_all cs (dim c.id lit)

abbrev dim_source : Source → List Container → (Text → Bool) → Text → Bool
dim_source none shown lit = dim_all shown lit
dim_source (some none) shown lit = lit
dim_source (some (some all)) shown lit = dim_all all lit

abbrev select_first : List Container → Cursor → Cursor
select_first [] gc = gc
select_first (c ∷ cs) gc = record gc { selected_id = c.id; lit = light c.id gc.lit }

-- `resetLocked`, and `Reset`
unfoldable pub reset : Source → Cursor → Cursor
unfolding dim_all
reset source gc =
    select_first gc.filtered (record gc { lit = dim_source source gc.filtered gc.lit })

unfoldable pub find_idx : Text → List Container → Option ℕ
find_idx id [] = none
find_idx id (c ∷ cs) =
    let rest = find_idx id cs in if text_eq c.id id then some 0 else Option.map suc rest

abbrev found_or_reset : Option ℕ → Source → Cursor → ℕ × Cursor
found_or_reset none source gc = (0, reset source gc)
found_or_reset (some n) source gc = (n, gc)

unfoldable pub idx : Source → Cursor → ℕ × Cursor
unfolding find_idx
idx source gc = found_or_reset (find_idx gc.selected_id gc.filtered) source gc

unfoldable pub selected : Source → Cursor → Option Container × Cursor
unfolding idx
selected source gc = let (n, gc') = idx source gc in (get_elem? gc'.filtered n, gc')

unfoldable pub is_visible : Text → List Container → Bool
is_visible id [] = false
is_visible id (c ∷ cs) = (c.display && text_eq c.id id) || is_visible id cs

abbrev refreshed : Source → List Container → Cursor → Cursor
refreshed source all gc =
    if not (is_visible gc.selected_id all) || text_eq gc.selected_id [] then reset source gc else gc

-- `RefreshContainers`: whether the number of rows has changed, whether there was an error, and the
-- cursor. `sort` is `Containers.Sort`.
unfoldable pub refresh_containers :
    (List Container → List Container) → Source → Cursor → Bool × Bool × Cursor
unfolding reset is_visible
refresh_containers sort none gc = (false, false, gc)
refresh_containers sort (some none) gc = (true, true, record gc { filtered = [] })
refresh_containers sort (some (some all)) gc =
    let rows = sort (select (λ c. c.display) all) in
    (
      not (length gc.filtered == length rows),
      false,
      refreshed (some (some all)) all (record gc { filtered = rows }),
    )

abbrev page_down : ℕ → Grid → Grid
page_down n g =
    if int_le (g.offset +ℤ pos g.max_rows) (pos n)
    then record g { offset = g.offset +ℤ pos 1 }
    else g

abbrev page_up : ℕ → Grid → Grid
page_up n g = if int_lt (pos n) g.offset then record g { offset = g.offset -ℤ pos 1 } else g

abbrev scroll_grid : Option Grid → Source → Cursor → Cursor
scroll_grid none source gc = gc
scroll_grid (some g) source gc =
    let (n, gc') = idx source gc in
    if ltb (length gc.filtered) g.max_rows
    then record gc { grid = some (record g { offset = pos 0 }) }
    else record gc' { grid = some (page_up n (page_down n g)) }

unfoldable pub scroll_page : Source → Cursor → Cursor
unfolding idx ◌+ℤ◌ ◌-ℤ◌
scroll_page source gc = scroll_grid gc.grid source gc

abbrev select_next : Option Container → Option Container → Cursor → Option Cursor
select_next (some active) (some next) gc =
    some (record gc { selected_id = next.id; lit = light next.id (dim active.id gc.lit) })
select_next _ _ gc = none

-- From the row `i` to the row `j`.
unfoldable pub move : ℕ → ℕ → Cursor → Option Cursor
move i j gc = select_next (get_elem? gc.filtered i) (get_elem? gc.filtered j) gc

unfoldable pub up : Source → Cursor → Option Cursor
unfolding idx move scroll_page
up source gc =
    let (i, gc') = idx source gc in
    if i == 0 then some gc' else Option.map (scroll_page source) (move i (i - 1) gc')

unfoldable pub down : Source → Cursor → Option Cursor
unfolding idx move scroll_page
down source gc =
    let (i, gc') = idx source gc in
    if leb (length gc'.filtered) (i + 1)
    then some gc'
    else Option.map (scroll_page source) (move i (i + 1) gc')

-- The number of pages.
unfoldable pub pg_count : Option Grid → ℕ → ℕ
pg_count none rows = 1
pg_count (some g) rows =
    if g.max_rows == 0 then 1 else rows / g.max_rows + (if ltb 0 (rows % g.max_rows) then 1 else 0)

abbrev max_rows_of : Option Grid → ℕ
max_rows_of none = 10
max_rows_of (some g) = g.max_rows

abbrev int_max : ℤ → ℤ → ℤ
int_max a b = if int_lt a b then b else a

abbrev int_min : ℤ → ℤ → ℤ
int_min a b = if int_lt a b then a else b

-- With one page at least.
abbrev offset_up : Bool → Option Grid → Option Grid
offset_up pages none = none
offset_up pages (some g) =
    some (if pages then record g { offset = int_max (g.offset -ℤ pos g.max_rows) (pos 0) } else g)

abbrev offset_down : Bool → ℕ → Option Grid → Option Grid
offset_down pages rows none = none
offset_down pages rows (some g) = some (
    if pages
    then record g { offset = int_min (g.offset +ℤ pos g.max_rows) (pos rows -ℤ pos g.max_rows) }
    else g)

unfoldable pub pg_up : Source → Cursor → Option Cursor
unfolding idx move pg_count ◌-ℤ◌
pg_up source gc =
    let (i, gc') = idx source gc in
    let pages = ltb 0 (pg_count gc'.grid (length gc'.filtered)) in
    if i == 0
    then some gc'
    else move i (i - max_rows_of gc'.grid) (record gc' { grid = offset_up pages gc'.grid })

unfoldable pub pg_down : Source → Cursor → Option Cursor
unfolding idx move pg_count ◌+ℤ◌ ◌-ℤ◌
pg_down source gc =
    let (i, gc') = idx source gc in
    let rows = length gc'.filtered in
    let pages = ltb 0 (pg_count gc'.grid rows) in
    if leb rows (i + 1)
    then some gc'
    else move i (min (rows - 1) (i + max_rows_of gc'.grid))
        (record gc' { grid = offset_down pages rows gc'.grid })
