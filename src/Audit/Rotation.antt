-- ===== src/Audit/Rotation.antt =====
-- Which file of pkg/audit/audit.go an event is written to.
use ctop.Prelude.{
  ℕ, take, append-nil, ◌≡◌, refl, sym, ap, ◌∙◌, Bool, true, false, not, ◌&&◌, ◌||◌, List, [], ◌∷◌,
  ◌++◌, Option, none, some, if◌then◌else◌, arith, Bool-cases, ◌⊎◌, inl, inr,
}
use ctop.Prelude.Texts.{Text, trim_space, text_eq, text_eq_iff}
use ctop.Prelude.Assoc.{insert, lookup-insert}
use ctop.Audit.{
  Event, Logger, System, Moment, Files, State, text_of, abs_or, compute_dated_path, content,
  open_file, is_open, rotate_locked, completed, landed, write_line, write_marshalled, write_event,
  unless_closed, log, close, opened, new_logger,
}

-- The file of the day.
abbrev pub file_of : System → Moment → Logger → Text
file_of sys now l = sys.clean (compute_dated_path sys l.base_path now.date)

abbrev with_newline : Option Text → Text
with_newline none = []
with_newline (some line) = line ++ 10 ∷ []

-- The event as it stands in a file.
unfoldable pub line_for : System → Moment → Event → Text
line_for sys now event = with_newline (sys.marshal (completed now event))

-- An open file is that of the active date.
abbrev pub IsCurrent : System → Logger → Type 0
IsCurrent sys l =
    (l.file ≡ none) ⊎ (l.file ≡ some (sys.clean (compute_dated_path sys l.base_path l.active_date)))

content-insert :
    (p q text : Text) (files : Files)
    → content q (insert p text files) ≡ (if text_eq p q then text else content q files)
content-insert p q text files =
    ap text_of (lookup-insert p q text files)
    ∙ elim (Bool-cases (text_eq p q)) [ inl e ↦ rw e refl | inr e ↦ rw e refl ]

content-open_file : (p q : Text) (files : Files) → content q (open_file p files) ≡ content q files
content-open_file p q files =
    content-insert p q (content p files) files ∙ elim (Bool-cases (text_eq p q)) [
      | inl e ↦ rw (e, (text_eq_iff p q).0 e) refl
      | inr e ↦ rw e refl
    ]

-- What a rotation leaves: every content, and where it succeeds the file of the day.
rotate_locked-content :
    (sys : System) (now : Moment) (l : Logger) (files : Files) (q : Text)
    → content q (rotate_locked sys now (l, files)).0.1 ≡ content q files
unfolding rotate_locked
rotate_locked-content sys now l files q =
    elim (Bool-cases (is_open l.file && text_eq l.active_date now.date)) [
      | inl e ↦ rw e refl
      | inr e ↦ elim (Bool-cases now.opens) [
        | inl o ↦ rw (e, o) (content-open_file (file_of sys now l) q files)
        | inr o ↦ rw (e, o) refl
      ]
    ]

still_open :
    (sys : System) (now : Moment) (l : Logger)
    → IsCurrent sys l
    → (is_open l.file && text_eq l.active_date now.date) ≡ true
    → l.file ≡ some (file_of sys now l)
still_open sys now l (inl n) h = ground (arith, n, h)
still_open sys now l (inr s) h =
    let same : l.active_date ≡ now.date =
      (text_eq_iff l.active_date now.date).0 (ground (arith, h)) in
    s ∙ ap (λ d. some (sys.clean (compute_dated_path sys l.base_path d))) same

rotate_locked-file :
    (sys : System) (now : Moment) (l : Logger) (files : Files)
    → IsCurrent sys l
    → (rotate_locked sys now (l, files)).1 ≡ true
    → (rotate_locked sys now (l, files)).0.0.file ≡ some (file_of sys now l)
unfolding rotate_locked
rotate_locked-file sys now l files c h =
    elim (Bool-cases (is_open l.file && text_eq l.active_date now.date)) [
      | inl e ↦ rw e (still_open sys now l c e)
      | inr e ↦ elim (Bool-cases now.opens) [
        | inl o ↦ rw (e, o) refl
        | inr o ↦ ground (arith, h, e, o)
      ]
    ]

-- What a Log adds to the file of the day: the line where it reports success, else a beginning of it.
abbrev Added : Bool → Text → Text → Type 0
Added ok line added = (n : ℕ) × (added ≡ (if ok then line else take n line))

-- The contents after a call that may write `line` to the file `p`: nothing but the end of this file has
-- changed.
abbrev pub IsAppended : Text → Text → (Text → Text) → (Text → Text) → Bool → Type 0
IsAppended p line before after ok =
    (added : Text) × Added ok line added
    × ((q : Text) → after q ≡ (if text_eq p q then before q ++ added else before q))

unfoldable pub contents : State → Text → Text
contents s q = content q s.1

rotated-contents :
    (sys : System) (now : Moment) (l : Logger) (files : Files) (q : Text)
    → contents (rotate_locked sys now (l, files)).0 q ≡ contents (l, files) q
unfolding contents
rotated-contents sys now l files q = rotate_locked-content sys now l files q

nothing_added :
    (p line : Text) (before after : Text → Text)
    → ((q : Text) → after q ≡ before q)
    → IsAppended p line before after false
nothing_added p line before after h = (
  [],
  (0, refl),
  λ q. h q ∙ elim (Bool-cases (text_eq p q)) [
    | inl e ↦ rw (e, append-nil (before q)) refl
    | inr e ↦ rw e refl
  ],
)

write_line-IsAppended :
    (now : Moment) (line p : Text) (l : Logger) (files : Files)
    → l.file ≡ some p
    → IsAppended p
        (line ++ 10 ∷ [])
        (contents (l, files))
        (contents (write_line now line (l, files)).0)
        (write_line now line (l, files)).1
unfolding contents
write_line-IsAppended now line p l files h =
    let entry = landed now (line ++ 10 ∷ []) in
    rw h (
      entry,
      (now.written, refl),
      λ q. content-insert p q (content p files ++ entry) files ∙ elim (Bool-cases (text_eq p q)) [
        | inl e ↦ rw (e, (text_eq_iff p q).0 e) refl
        | inr e ↦ rw e refl
      ],
    )

write_marshalled-IsAppended :
    (now : Moment) (m : Option Text) (p : Text) (l : Logger) (files : Files)
    → l.file ≡ some p
    → IsAppended p
        (with_newline m)
        (contents (l, files))
        (contents (write_marshalled now m (l, files)).0)
        (write_marshalled now m (l, files)).1
write_marshalled-IsAppended now none p l files h =
    nothing_added p [] (contents (l, files)) (contents (l, files)) (λ q. refl)
write_marshalled-IsAppended now (some line) p l files h = write_line-IsAppended now line p l files h

write_event-IsAppended :
    (sys : System) (now : Moment) (event : Event) (p : Text) (r : State × Bool)
    → (r.1 ≡ true → r.0.0.file ≡ some p)
    → IsAppended p
        (line_for sys now event)
        (contents r.0)
        (contents (write_event sys now event r).0)
        (write_event sys now event r).1
unfolding line_for
write_event-IsAppended sys now event p (s, false) h =
    nothing_added p _ (contents s) (contents s) (λ q. refl)
write_event-IsAppended sys now event p ((l, files), true) h =
    write_marshalled-IsAppended now (sys.marshal (completed now event)) p l files (h refl)

unless_closed-IsAppended :
    (closed : Bool) (l : Logger) (files : Files) (r : State × Bool) (p line : Text)
    → IsAppended p line (contents (l, files)) (contents r.0) r.1
    → IsAppended p line
        (contents (l, files))
        (contents (unless_closed closed (l, files) r).0)
        (unless_closed closed (l, files) r).1
unless_closed-IsAppended true l files r p line h =
    nothing_added p line (contents (l, files)) (contents (l, files)) (λ q. refl)
unless_closed-IsAppended false l files r p line h = h

-- The contents before may be those before a rotation.
before-IsAppended :
    (p line : Text) (before between after : Text → Text) (ok : Bool)
    → ((q : Text) → between q ≡ before q)
    → IsAppended p line between after ok
    → IsAppended p line before after ok
before-IsAppended p line before between after ok e (added, is_added, same) =
    (added, is_added, λ q. same q ∙ ap (λ (t : Text). if text_eq p q then t ++ added else t) (e q))

log-IsAppended :
    (sys : System) (now : Moment) (event : Event) (l : Logger) (files : Files)
    → IsCurrent sys l
    → IsAppended
        (file_of sys now l)
        (line_for sys now event)
        (contents (l, files))
        (contents (log sys now event (l, files)).0)
        (log sys now event (l, files)).1
unfolding log
log-IsAppended sys now event l files c =
    let r = rotate_locked sys now (l, files) in
    let w = write_event sys now event r in
    let p = file_of sys now l in
    let line = line_for sys now event in
    unless_closed-IsAppended l.closed l files w p line (
      before-IsAppended p line (contents (l, files)) (contents r.0) (contents w.0) w.1
        (rotated-contents sys now l files)
        (write_event-IsAppended sys now event p r (rotate_locked-file sys now l files c)))

-- The calls of a logger.
pub data Call : Type 0 where
  logs : Moment → Event → Call
  closes : Call

unfoldable pub call : System → Call → State → State
call sys (logs now event) s = (log sys now event s).0
call sys closes (l, files) = (close l, files)

unfoldable pub call_all : System → List Call → State → State
unfolding call
call_all sys [] s = s
call_all sys (c ∷ cs) s = call_all sys cs (call sys c s)

write_line-logger :
    (now : Moment) (line : Text) (l : Logger) (files : Files)
    → (write_line now line (l, files)).0.0 ≡ l
write_line-logger now line l files = ground arith

write_event-logger :
    (sys : System) (now : Moment) (event : Event) (r : State × Bool)
    → (write_event sys now event r).0.0 ≡ r.0.0
write_event-logger sys now event (s, false) = refl
write_event-logger sys now event ((l, files), true) = go (sys.marshal (completed now event))
  where
    go : (m : Option Text) → (write_marshalled now m (l, files)).0.0 ≡ l
    go none = refl
    go (some line) = write_line-logger now line l files

-- What all calls keep: the open file is current, and the base path stays.
abbrev IsSound : System → Text → Logger → Type 0
IsSound sys base l = IsCurrent sys l × (l.base_path ≡ base)

rotate_locked-IsSound :
    (sys : System) (base : Text) (now : Moment) (l : Logger) (files : Files)
    → IsSound sys base l
    → IsSound sys base (rotate_locked sys now (l, files)).0.0
unfolding rotate_locked
rotate_locked-IsSound sys base now l files c =
    elim (Bool-cases (is_open l.file && text_eq l.active_date now.date)) [
      | inl e ↦ rw e c
      | inr e ↦ elim (Bool-cases now.opens) [
        | inl o ↦ rw (e, o) (inr refl, c.1)
        | inr o ↦ rw (e, o) (inl refl, c.1)
      ]
    ]

unless_closed-IsSound :
    (sys : System) (base : Text) (closed : Bool) (l : Logger) (files : Files) (r : State × Bool)
    → IsSound sys base l
    → IsSound sys base r.0.0
    → IsSound sys base (unless_closed closed (l, files) r).0.0
unless_closed-IsSound sys base true l files r h k = h
unless_closed-IsSound sys base false l files r h k = k

call-IsSound :
    (sys : System) (base : Text) (c : Call) (l : Logger) (files : Files)
    → IsSound sys base l
    → IsSound sys base (call sys c (l, files)).0
unfolding call log close
call-IsSound sys base (logs now event) l files h =
    let r = rotate_locked sys now (l, files) in
    unless_closed-IsSound sys base l.closed l files (write_event sys now event r) h
      (rw (write_event-logger sys now event r) (rotate_locked-IsSound sys base now l files h))
call-IsSound sys base closes l files h = elim (Bool-cases l.closed) [
  | inl e ↦ rw e h
  | inr e ↦ rw e (inl refl, h.1)
]

call_all-IsSound :
    (sys : System) (base : Text) (cs : List Call) (s : State)
    → IsSound sys base s.0
    → IsSound sys base (call_all sys cs s).0
unfolding call_all
call_all-IsSound sys base [] s h = h
call_all-IsSound sys base (c ∷ cs) (l, files) h =
    call_all-IsSound sys base cs (call sys c (l, files)) (call-IsSound sys base c l files h)

opened-some : (r : State × Bool) (s : State) → opened r ≡ some s → r.0 ≡ s
opened-some (t, true) s h = ground (arith, h)
opened-some (t, false) s h = ground (arith, h)

new_logger-IsSound :
    (sys : System) (can_make : Bool) (start : Moment) (base : Text) (files : Files) (s : State)
    → new_logger sys can_make start base files ≡ some s
    → IsSound sys (abs_or sys base) s.0
unfolding new_logger
new_logger-IsSound sys can_make start base files s h =
    let l : Logger = record {
      base_path = abs_or sys base;
      active_date = [];
      active_path = [];
      file = none;
      closed = false;
    } in
    let r = rotate_locked sys start (l, files) in
    elim (Bool-cases (text_eq (trim_space base) [] || not can_make)) [
      | inl e ↦ ground (arith, h, e)
      | inr e ↦
          let same : r.0 ≡ s = opened-some r s (ground (arith, h, e)) in
          rw (sym same) (rotate_locked-IsSound sys (abs_or sys base) start l files (inl refl, refl))
    ]

-- In every state that calls make of a new logger, a call of Log adds to the end of one file, that of the
-- base path and the date of the call, and changes the content of no other. Where it reports success, it
-- adds just the line of its event; where it reports an error, no more than a beginning of this line.
pub call_all-log :
    (sys : System) (can_make : Bool) (start : Moment) (base : Text) (files : Files) (s : State)
    (cs : List Call) (now : Moment) (event : Event)
    → new_logger sys can_make start base files ≡ some s
    → let t = call_all sys cs s in
      let r = log sys now event t in
      IsAppended
        (sys.clean (compute_dated_path sys (abs_or sys base) now.date))
        (line_for sys now event)
        (contents t)
        (contents r.0)
        r.1
call_all-log sys can_make start base files s cs now event h =
    let (l, fs) = call_all sys cs s in
    let (current, same) =
      call_all-IsSound sys (abs_or sys base) cs s
        (new_logger-IsSound sys can_make start base files s h) in
    rw (sym same) (log-IsAppended sys now event l fs current)
