-- ===== src/Config/Columns.antt =====
-- pkg/config/columns.go. A panic is `none`.
pub mod Layout
pub mod Moves
use ctop.Prelude.{
  ℕ, zero, suc, ◌+◌, ◌-◌, List, [], ◌∷◌, ◌++◌, Bool, true, false, not, Option, none, some,
  if◌then◌else◌, get_elem?, set, length, ltb, map,
}
use mathlib.Core.Option
use ctop.Prelude.Texts.{Text, codes, text_eq}

pub record Column : Type 0 where
  pub name : Text
  pub label : Text
  pub enabled : Bool

abbrev pub default_columns : List Column
default_columns =
    record { name = codes "status"; label = codes "Status Indicator"; enabled = true }
    ∷ record { name = codes "name"; label = codes "Container Name"; enabled = true }
    ∷ record { name = codes "id"; label = codes "Container ID"; enabled = true }
    ∷ record { name = codes "host"; label = codes "Docker Host ID"; enabled = false }
    ∷ record { name = codes "image"; label = codes "Image name"; enabled = false }
    ∷ record { name = codes "ports"; label = codes "Exposed ports"; enabled = false }
    ∷ record { name = codes "IPs"; label = codes "Exposed IPs"; enabled = false }
    ∷ record { name = codes "created"; label = codes "Date created"; enabled = false }
    ∷ record { name = codes "cpu"; label = codes "CPU Usage"; enabled = true }
    ∷ record { name = codes "cpus"; label = codes "CPU Usage (% of system total)"; enabled = false }
    ∷ record { name = codes "mem"; label = codes "Memory (Alloc / Total)"; enabled = true }
    ∷ record { name = codes "net"; label = codes "Network (Rx / Tx)"; enabled = true }
    ∷ record { name = codes "io"; label = codes "Disk IO (Reads / Writes)"; enabled = true }
    ∷ record { name = codes "pids"; label = codes "Container PID Count"; enabled = true }
    ∷ record { name = codes "uptime"; label = codes "Running uptime duration"; enabled = true }
    ∷ []

unfoldable pub enabled_columns : List Column → List Text
enabled_columns [] = []
enabled_columns (c ∷ cs) =
    let rest = enabled_columns cs in if c.enabled then c.name ∷ rest else rest

-- `strings.Join(_, ",")`
abbrev pub join_commas : List Text → Text
join_commas [] = []
join_commas (x ∷ []) = x
join_commas (x ∷ y ∷ rest) = x ++ (b',' ∷ join_commas (y ∷ rest))

unfoldable pub columns_string : List Column → Text
unfolding enabled_columns
columns_string cols = join_commas (enabled_columns cols)

-- The index of the first column of this name; -1 is `none`.
unfoldable pub col_index : Text → List Column → Option ℕ
col_index name [] = none
col_index name (c ∷ cs) =
    let rest = Option.map suc (col_index name cs) in if text_eq c.name name then some 0 else rest

abbrev pub flip : Column → Column
flip c = record c { enabled = not c.enabled }

abbrev update_at : Option ℕ → (Column → Column) → List Column → List Column
update_at none f cols = cols
update_at (some i) f cols = elim (get_elem? cols i) [ none ↦ cols | some c ↦ set cols i (f c) ]

unfoldable pub column_toggle : Text → List Column → List Column
unfolding col_index
column_toggle name cols = update_at (col_index name cols) flip cols

-- The callers pass indices in range.
swap_found : ℕ → ℕ → Option Column → Option Column → List Column → List Column
swap_found i j (some a) (some b) cols = set (set cols i b) j a
swap_found i j _ _ cols = cols

unfoldable pub swap_cols : ℕ → ℕ → List Column → List Column
unfolding swap_found
swap_cols i j cols = swap_found i j (get_elem? cols i) (get_elem? cols j) cols

move_left : Option ℕ → List Column → List Column
unfolding swap_cols
move_left none cols = cols
move_left (some zero) cols = cols
move_left (some (suc i)) cols = swap_cols (suc i) i cols

unfoldable pub column_left : Text → List Column → List Column
unfolding move_left col_index
column_left name cols = move_left (col_index name cols) cols

move_right : Option ℕ → List Column → List Column
unfolding swap_cols
move_right none cols = cols
move_right (some i) cols = if ltb i (length cols - 1) then swap_cols i (suc i) cols else cols

unfoldable pub column_right : Text → List Column → List Column
unfolding move_right col_index
column_right name cols = move_right (col_index name cols) cols

-- The column of this name and the others; a panic where there is none.
unfoldable pub pop_column : Text → List Column → Option (Column × List Column)
pop_column name [] = none
pop_column name (c ∷ cs) =
    let rest = Option.map (λ (p : Column × List Column). (p.0, c ∷ p.1)) (pop_column name cs) in
    if text_eq c.name name then some (c, cs) else rest

abbrev pub with_enabled : Bool → Column → Column
with_enabled b c = record c { enabled = b }

-- The first loop of `SetColumns`: the new columns, and what is left of the old ones.
unfoldable pub pop_all : List Text → List Column → Option (List Column × List Column)
unfolding pop_column
pop_all [] cols = some ([], cols)
pop_all (name ∷ names) cols = elim (pop_column name cols) [
  | none ↦ none
  | some (c, left) ↦
      Option.map (λ (p : List Column × List Column). (with_enabled true c ∷ p.0, p.1))
        (pop_all names left)
]

unfoldable pub set_columns : List Text → List Column → Option (List Column)
unfolding pop_all
set_columns names cols =
    Option.map (λ (p : List Column × List Column). p.0 ++ map (with_enabled false) p.1)
      (pop_all names cols)
