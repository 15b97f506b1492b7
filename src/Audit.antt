-- ===== src/Audit.antt =====
-- `Logger` of pkg/audit/audit.go: the audit log with a file for each day. The files are their contents;
-- an open file is its path. What a call meets is an argument: the date, the time as text, whether a file
-- can be opened, and whether a write fails and after how many bytes. The functions of package filepath and
-- the JSON encoding are parameters.
pub mod Rotation
mod Tests
use ctop.Prelude.{
  ℕ, Bool, true, false, not, ◌&&◌, ◌||◌, List, [], ◌∷◌, ◌++◌, Option, none, some, if◌then◌else◌,
  take,
}
use ctop.Prelude.Texts.{Text, codes, text_eq, trim_space}
use ctop.Prelude.Split.{has_suffix, trim_suffix}
use ctop.Prelude.Assoc.{lookup, insert}
use ctop.Web.Gate.{AuthInfo}

pub record Event : Type 0 where
  pub timestamp : Text
  pub level : Text
  pub category : Text
  pub action : Text
  pub client_ip : Text
  pub method : Text
  pub path : Text
  pub status : ℕ
  pub auth : Option AuthInfo

pub record Logger : Type 0 where
  pub base_path : Text
  pub active_date : Text
  pub active_path : Text
  pub file : Option Text
  pub closed : Bool

pub record System : Type 0 where
  pub dir : Text → Text
  pub base : Text → Text
  pub ext : Text → Text
  pub join : Text → Text → Text
  pub clean : Text → Text
  pub abs : Text → Option Text
  pub marshal : Event → Option Text

-- What one call meets.
pub record Moment : Type 0 where
  pub date : Text
  pub time : Text
  pub opens : Bool
  pub writes : Bool
  pub written : ℕ

abbrev pub Files : Type 0
Files = List (Text × Text)

abbrev pub State : Type 0
State = Logger × Files

abbrev or_ndjson : Text → Text
or_ndjson [] = codes ".ndjson"
or_ndjson (c ∷ cs) = c ∷ cs

unfoldable pub compute_dated_path : System → Text → Text → Text
compute_dated_path sys base_path date =
    let ext = sys.ext base_path in
    let stem = trim_suffix (sys.base base_path) ext in
    if has_suffix stem date
    then sys.join (sys.dir base_path) (stem ++ or_ndjson ext)
    else sys.join (sys.dir base_path) (stem ++ codes "-" ++ date ++ or_ndjson ext)

abbrev pub text_of : Option Text → Text
text_of none = []
text_of (some text) = text

abbrev pub content : Text → Files → Text
content path files = text_of (lookup path files)

-- `os.OpenFile` with O_CREATE and O_APPEND.
abbrev pub open_file : Text → Files → Files
open_file path files = insert path (content path files) files

abbrev pub is_open : Option Text → Bool
is_open none = false
is_open (some path) = true

-- The file is that of today, or it is opened.
unfoldable pub rotate_locked : System → Moment → State → State × Bool
rotate_locked sys now (l, files) =
    let target = compute_dated_path sys l.base_path now.date in
    if is_open l.file && text_eq l.active_date now.date
    then ((l, files), true)
    else if not now.opens
    then ((record l { file = none }, files), false)
    else (
      (
        record l { file = some (sys.clean target); active_date = now.date; active_path = target },
        open_file (sys.clean target) files,
      ),
      true,
    )

abbrev pub info_or : Text → Text
info_or [] = codes "INFO"
info_or (c ∷ cs) = c ∷ cs

abbrev pub time_or : Text → Text → Text
time_or [] time = time
time_or (c ∷ cs) time = c ∷ cs

abbrev pub completed : Moment → Event → Event
completed now event = record event {
  timestamp = time_or event.timestamp now.time;
  level = info_or event.level;
}

-- What a write puts behind the end of the file: the whole, or where it fails the bytes before that.
abbrev pub landed : Moment → Text → Text
landed now entry = if now.writes then entry else take now.written entry

-- A file that is not open is an error of the write.
abbrev pub write_line : Moment → Text → State → State × Bool
write_line now line (l, files) = elim l.file [
  | none ↦ ((l, files), false)
  | some path ↦
      ((l, insert path (content path files ++ landed now (line ++ 10 ∷ [])) files), now.writes)
]

abbrev pub write_marshalled : Moment → Option Text → State → State × Bool
write_marshalled now none s = (s, false)
write_marshalled now (some line) s = write_line now line s

abbrev pub write_event : System → Moment → Event → State × Bool → State × Bool
write_event sys now event (s, false) = (s, false)
write_event sys now event (s, true) = write_marshalled now (sys.marshal (completed now event)) s

-- A closed logger refuses.
abbrev pub unless_closed : Bool → State → State × Bool → State × Bool
unless_closed true s r = (s, false)
unless_closed false s r = r

unfoldable pub log : System → Moment → Event → State → State × Bool
log sys now event (l, files) =
    unless_closed l.closed (l, files) (write_event sys now event (rotate_locked sys now (l, files)))

unfoldable pub close : Logger → Logger
close l = if l.closed then l else record l { closed = true; file = none }

abbrev pub abs_or : System → Text → Text
abs_or sys path = elim (sys.abs path) [ none ↦ path | some p ↦ p ]

-- `can_make_dir` says whether `os.MkdirAll` succeeds; none for an error.
abbrev pub opened : State × Bool → Option State
opened (s, true) = some s
opened (s, false) = none

unfoldable pub new_logger : System → Bool → Moment → Text → Files → Option State
new_logger sys can_make_dir now base_path files =
    if text_eq (trim_space base_path) [] || not can_make_dir
    then none
    else opened (
        rotate_locked sys now (
          record {
            base_path = abs_or sys base_path;
            active_date = [];
            active_path = [];
            file = none;
            closed = false;
          },
          files,
        ))
