-- ===== src/Web/Logs.antt =====
-- The log views of `handleContainerDetail` in pkg/web/server.go: the limit, the two loops that read up to
-- it, and the name of a download. `stamp` is the formatted time of the request.
pub mod Limit
use ctop.Prelude.{
  ℕ, zero, suc, Bool, true, false, not, ◌&&◌, ◌||◌, List, [], ◌∷◌, ◌++◌, Option, none, some,
  if◌then◌else◌, leb, ◌==◌, map, length,
}
use ctop.Prelude.Int.{ℤ, pos, int_le, int_lt, pos_part}
use ctop.Prelude.Texts.{Text, codes, text_eq, trim_prefix}
use ctop.Prelude.Split.{equal_fold, is_digit, atoi}
use ctop.Web.Snapshot.{ContainerSnapshot}
use ctop.Web.Provider.{LogEntry}
use ctop.Web.Preview.{positive_or}

abbrev pub is_tail_all : Text → Bool
is_tail_all tail = equal_fold tail (codes "all")

unfoldable pub log_limit : Text → ℤ
log_limit [] = pos 100
log_limit (c ∷ cs) =
    if is_tail_all (c ∷ cs) then pos 1000000 else positive_or (pos 100) (atoi (c ∷ cs))

-- `entries = append(entries, entry); if len(entries) >= limit { break }`
unfoldable pub collect_logs : ℤ → List LogEntry → List LogEntry → List LogEntry
collect_logs limit entries [] = entries
collect_logs limit entries (e ∷ es) =
    let entries' = entries ++ e ∷ [] in
    let rest = collect_logs limit entries' es in
    if int_le limit (pos (length entries')) then entries' else rest

unfoldable pub log_line : LogEntry → Text
log_line e = elim e.timestamp [
  | none ↦ e.message ++ 10 ∷ []
  | some t ↦ codes "[" ++ t ++ codes "] " ++ e.message ++ 10 ∷ []
]

-- `for count := 0; count < limit; count++`
unfoldable pub download_logs : ℤ → ℕ → List LogEntry → Text
unfolding log_line
download_logs limit count [] = []
download_logs limit count (e ∷ es) =
    let rest = download_logs limit (suc count) es in
    if int_lt (pos count) limit then log_line e ++ rest else []

abbrev pub is_name_byte : ℕ → Bool
is_name_byte c =
    (leb b'a' c && leb c b'z')
    || (leb b'A' c && leb c b'Z')
    || (leb b'0' c && leb c b'9')
    || c == b'-'
    || c == b'_'

abbrev clean_byte : ℕ → ℕ
clean_byte c = if is_name_byte c then c else b'_'

unfoldable pub clean_name : Text → Text
clean_name name = map clean_byte (trim_prefix name (codes "/"))

unfoldable pub name_of_id : Text → List ContainerSnapshot → Text
name_of_id id [] = []
name_of_id id (c ∷ cs) = let rest = name_of_id id cs in if text_eq c.id id then c.name else rest

abbrev named_or : Text → Text → Text
named_or [] other = other
named_or (c ∷ cs) other = c ∷ cs

abbrev name_part : Text → Text
name_part [] = []
name_part (c ∷ cs) = clean_name (c ∷ cs) ++ codes "_"

unfoldable pub download_name : Text → Text → Text → List ContainerSnapshot → Text
unfolding clean_name name_of_id
download_name stamp name id snaps =
    codes "ctop_logs_"
    ++ name_part (named_or name (name_of_id id snaps))
    ++ id
    ++ codes "_"
    ++ stamp
    ++ codes ".log"
