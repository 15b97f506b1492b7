-- ===== src/Container/Lifecycle.antt =====
-- The lifecycle methods of pkg/container/main.go. What the manager answers to a method's one call of
-- it is an argument, `none` for success. A method returns the container and the errors that it puts
-- on the status line.
pub mod Moves
use ctop.Prelude.{Bool, true, false, not, ◌&&◌, List, [], ◌∷◌, Option, none, some, if◌then◌else◌}
use ctop.Prelude.Texts.{Text, codes, text_eq}
use ctop.Container.{Metrics, new_metrics, Container, get_meta, set_meta}

abbrev pub running : Text
running = codes "running"

abbrev pub exited : Text
exited = codes "exited"

abbrev pub paused : Text
paused = codes "paused"

abbrev pub state_key : Text
state_key = codes "state"

abbrev pub state_of : Container → Text
state_of c = get_meta c state_key

-- Starting the collector also starts the reader of its stream.
unfoldable pub set_state : Text → Container → Container
unfolding set_meta
set_state s c =
    let c₁ = set_meta state_key s c in
    let c₂ =
      if text_eq s running && not c₁.collecting then record c₁ { collecting = true } else c₁ in
    if not (text_eq s running) && c₂.collecting then record c₂ { collecting = false } else c₂

-- The manager's answer, and the state that a success leads to.
abbrev pub settle : Text → Option Text → Container → Container × List Text
settle s none c = (set_state s c, [])
settle s (some err) c = (c, err ∷ [])

unfoldable pub start : Option Text → Container → Container × List Text
start answer c = if not (text_eq (state_of c) running) then settle running answer c else (c, [])

unfoldable pub stop : Option Text → Container → Container × List Text
stop answer c = if text_eq (state_of c) running then settle exited answer c else (c, [])

unfoldable pub pause : Option Text → Container → Container × List Text
pause answer c = if text_eq (state_of c) running then settle paused answer c else (c, [])

unfoldable pub unpause : Option Text → Container → Container × List Text
unpause answer c = if text_eq (state_of c) paused then settle running answer c else (c, [])

abbrev report : Option Text → List Text
report none = []
report (some err) = err ∷ []

unfoldable pub restart : Option Text → Container → Container × List Text
restart answer c = if text_eq (state_of c) running then (c, report answer) else (c, [])

unfoldable pub remove : Option Text → Container → Container × List Text
remove answer c = (c, report answer)

-- The reader of the stream: a sample, and the end of the stream.
unfoldable pub read_sample : Metrics → Container → Container
read_sample m c = record c { metrics = m }

unfoldable pub read_end : Container → Container
read_end c = record c { metrics = new_metrics }
