-- ===== src/Container/Sort.antt =====
-- The comparators of pkg/container/sort.go.
pub mod Fields
pub mod Order
use ctop.Prelude.{
  ℕ, Bool, true, false, not, ◌&&◌, ◌||◌, List, [], ◌∷◌, Option, none, some, if◌then◌else◌, ltb,
  ◌==◌,
}
use ctop.Prelude.Int.{ℤ, int_lt, int_eq, add64}
use ctop.Prelude.Texts.{Text, codes, text_eq, text_lt, to_lower, trim_space, has_prefix, contains}
use ctop.Config.{Config}
use ctop.Config.Settings.{get_val, get_switch_val}
use ctop.Container.{Container, get_meta}

unfoldable pub get_state_score : Text → ℕ
get_state_score state =
    let s = to_lower (trim_space state) in
    if has_prefix s (codes "up") || contains s (codes "running")
    then 4
    else if contains s (codes "restart")
    then 3
    else if contains s (codes "pause")
    then 2
    else if contains s (codes "exit") || contains s (codes "stop") || contains s (codes "dead")
    then 1
    else 0

unfoldable pub sum_net : Container → ℤ
sum_net c = add64 c.metrics.net_rx c.metrics.net_tx

unfoldable pub sum_io : Container → ℤ
sum_io c = add64 c.metrics.io_bytes_read c.metrics.io_bytes_write

abbrev pub name_of : Container → Text
name_of c = to_lower (get_meta c (codes "name"))

abbrev pub project_of : Container → Text
project_of c = get_meta c (codes "composeProject")

-- The keys of `Sorters`.
pub data SortField : Type 0 where
  id name cpu mem mem_percent net pids io state uptime compose : SortField

unfoldable pub id_sorter : Container → Container → Bool
id_sorter c1 c2 = text_lt (to_lower c1.id) (to_lower c2.id)

unfoldable pub name_sorter : Container → Container → Bool
name_sorter c1 c2 = text_lt (name_of c1) (name_of c2)

-- The larger number first, then by name.
abbrev pub by_number : (Container → ℤ) → Container → Container → Bool
by_number n c1 c2 = if int_eq (n c1) (n c2) then name_sorter c1 c2 else int_lt (n c2) (n c1)

-- The part of the compose order that tells two projects apart.
abbrev pub project_lt : Text → Text → Bool
project_lt p1 p2 =
    if text_eq p1 []
    then false
    else if text_eq p2 []
    then true
    else text_lt (to_lower p1) (to_lower p2)

unfoldable pub state_sorter : Container → Container → Bool
unfolding get_state_score
state_sorter c1 c2 =
    let s1 = get_state_score (get_meta c1 (codes "state")) in
    let s2 = get_state_score (get_meta c2 (codes "state")) in
    if s1 == s2
    then if text_eq (name_of c1) (name_of c2)
      then text_lt (to_lower c1.id) (to_lower c2.id)
      else text_lt (name_of c1) (name_of c2)
    else ltb s2 s1

abbrev pub uptime_of : Container → Text
uptime_of c = get_meta c (codes "uptime")

unfoldable pub sorters : SortField → Container → Container → Bool
unfolding id_sorter name_sorter state_sorter sum_net sum_io
sorters id c1 c2 = id_sorter c1 c2
sorters name c1 c2 = name_sorter c1 c2
sorters cpu c1 c2 = by_number (λ c. c.metrics.cpu_util) c1 c2
sorters mem c1 c2 = by_number (λ c. c.metrics.mem_usage) c1 c2
sorters mem_percent c1 c2 = by_number (λ c. c.metrics.mem_percent) c1 c2
sorters net c1 c2 = by_number sum_net c1 c2
sorters pids c1 c2 = by_number (λ c. c.metrics.pids) c1 c2
sorters io c1 c2 = by_number sum_io c1 c2
sorters state c1 c2 = state_sorter c1 c2
sorters uptime c1 c2 =
    if text_eq (uptime_of c1) (uptime_of c2)
    then name_sorter c1 c2
    else text_lt (uptime_of c2) (uptime_of c1)
sorters compose c1 c2 =
    if text_eq (project_of c1) (project_of c2)
    then name_sorter c1 c2
    else project_lt (project_of c1) (project_of c2)

-- The field that the setting names: "" stands for "state", and what is no key of `Sorters` for "name".
unfoldable pub sort_field : Text → SortField
sort_field s =
    if text_eq s [] || text_eq s (codes "state")
    then state
    else if text_eq s (codes "id")
    then id
    else if text_eq s (codes "cpu")
    then cpu
    else if text_eq s (codes "mem")
    then mem
    else if text_eq s (codes "mem %")
    then mem_percent
    else if text_eq s (codes "net")
    then net
    else if text_eq s (codes "pids")
    then pids
    else if text_eq s (codes "io")
    then io
    else if text_eq s (codes "uptime")
    then uptime
    else if text_eq s (codes "compose")
    then compose
    else name

abbrev pub is_state : SortField → Bool
is_state state = true
is_state _ = false

abbrev pub is_compose : SortField → Bool
is_compose compose = true
is_compose _ = false

-- Whether containers are grouped by their projects before the field is looked at.
abbrev pub grouped : SortField → Bool → Bool
grouped f by_compose = is_compose f || (by_compose && not (is_state f))

-- The order of the field, which "state" never reverses.
abbrev pub in_direction : SortField → Bool → Container → Container → Bool
in_direction f reversed c1 c2 =
    if not (is_state f) && reversed then sorters f c2 c1 else sorters f c1 c2

abbrev pub less_by : SortField → Bool → Bool → Container → Container → Bool
less_by f by_compose reversed c1 c2 =
    if grouped f by_compose && not (text_eq (project_of c1) (project_of c2))
    then project_lt (project_of c1) (project_of c2)
    else in_direction f reversed c1 c2

-- `Containers.Less`
unfoldable pub less : Config → Container → Container → Bool
unfolding sort_field sorters get_val get_switch_val
less conf c1 c2 =
    less_by (sort_field (get_val (codes "sortField") conf.params))
      (get_switch_val (codes "groupByCompose") conf.switches)
      (get_switch_val (codes "sortReversed") conf.switches) c1 c2
