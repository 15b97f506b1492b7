-- ===== src/Container/Lifecycle/Moves.antt =====
-- The moves of the lifecycle methods of pkg/container/main.go, and when a collector runs.
use mathlib.Core.Path.{subst}
use ctop.Prelude.{
  ◌≡◌, ◌≢◌, refl, sym, ◌∙◌, true, false, List, [], ◌∷◌, Option, none, some, if◌then◌else◌, arith,
  ◌⊎◌, inl, inr, Bool-cases,
}
use ctop.Prelude.Texts.{Text, text_eq, text_eq_iff, text_eq_self}
use ctop.Prelude.Assoc.{insert, lookup-insert}
use ctop.Container.{Metrics, Container, get_meta, meta_get, set_meta, new_container}
use ctop.Container.Lifecycle.{
  running, exited, paused, state_key, state_of, set_state, settle, start, stop, pause, unpause,
  restart, remove, read_sample, read_end,
}

set_state-meta : (s : Text) (c : Container) → (set_state s c).meta ≡ insert state_key s c.meta
unfolding set_state
set_state-meta s c = ground arith

meta_get-insert :
    (k j v : Text) (m : List (Text × Text))
    → meta_get (insert k v m) j ≡ (if text_eq k j then v else meta_get m j)
unfolding meta_get
meta_get-insert k j v m = ground (arith, lookup-insert k j v m)

-- After `SetState(s)` the state is `s` and the collector runs exactly if `s` is "running"; every other
-- entry of the metadata, the identifier, the metrics and the display flag are as they were.
pub set_state-sets :
    (s : Text) (c : Container)
    → (state_of (set_state s c) ≡ s)
      × ((set_state s c).collecting ≡ text_eq s running)
      × ((k : Text) → k ≢ state_key → get_meta (set_state s c) k ≡ get_meta c k)
      × ((set_state s c).id ≡ c.id)
      × ((set_state s c).metrics ≡ c.metrics)
      × ((set_state s c).display ≡ c.display)
set_state-sets s c = (
  rw (set_state-meta s c)
      (meta_get-insert state_key state_key s c.meta ∙ rw (text_eq_self state_key)),
  unfold set_state in ground arith,
  λ k ne.
      rw (set_state-meta s c)
        (meta_get-insert state_key k s c.meta ∙ ground (arith, text_eq_iff state_key k, ne)),
  unfold set_state in ground arith,
  unfold set_state in ground arith,
  unfold set_state in ground arith,
)

pub data Action : Type 0 where
  starts stops pauses unpauses restarts removes : Action

abbrev pub act : Action → Option Text → Container → Container × List Text
act starts = start
act stops = stop
act pauses = pause
act unpauses = unpause
act restarts = restart
act removes = remove

-- The diagram of the states: what an action does to a state, if the manager does its part.
pub data Move : Action → Text → Text → Type 0 where
  up : {s : Text} → s ≢ running → Move starts s running
  down : Move stops running exited
  freeze : Move pauses running paused
  thaw : Move unpauses paused running

settle-Move :
    (a : Action) (s : Text) (answer : Option Text) (c : Container)
    → Move a (state_of c) s
    → ((settle s answer c).0 ≡ c)
      ⊎ ((answer ≡ none) × Move a (state_of c) (state_of (settle s answer c).0))
settle-Move a s none c m =
    inr (refl, subst (λ t. Move a (state_of c) t) (sym (set_state-sets s c).0) m)
settle-Move a s (some err) c m = inl refl

-- Every action on every container, with any answer of the manager, either leaves the container
-- unchanged, or the manager succeeded and the state makes a move of the diagram: `Start` from any
-- state but "running" to "running", `Stop` from "running" to "exited", `Pause` from "running" to
-- "paused", `Unpause` from "paused" to "running".
pub act-Move :
    (a : Action) (answer : Option Text) (c : Container)
    → ((act a answer c).0 ≡ c)
      ⊎ ((answer ≡ none) × Move a (state_of c) (state_of (act a answer c).0))
unfolding start stop pause unpause restart remove
act-Move starts answer c = elim (Bool-cases (text_eq (state_of c) running)) [
  | inl e ↦ rw e (inl refl)
  | inr e ↦ rw e (
      settle-Move starts running answer c
        (up (λ h. ground (arith, text_eq_iff (state_of c) running, h, e))))
]
act-Move stops answer c = elim (Bool-cases (text_eq (state_of c) running)) [
  | inl e ↦ rw e (
      settle-Move stops exited answer c
        (subst (λ t. Move stops t exited) (sym ((text_eq_iff (state_of c) running).0 e)) down))
  | inr e ↦ rw e (inl refl)
]
act-Move pauses answer c = elim (Bool-cases (text_eq (state_of c) running)) [
  | inl e ↦ rw e (
      settle-Move pauses paused answer c
        (subst (λ t. Move pauses t paused) (sym ((text_eq_iff (state_of c) running).0 e)) freeze))
  | inr e ↦ rw e (inl refl)
]
act-Move unpauses answer c = elim (Bool-cases (text_eq (state_of c) paused)) [
  | inl e ↦ rw e (
      settle-Move unpauses running answer c
        (subst (λ t. Move unpauses t running) (sym ((text_eq_iff (state_of c) paused).0 e)) thaw))
  | inr e ↦ rw e (inl refl)
]
act-Move restarts answer c = ground arith
act-Move removes answer c = inl refl

-- What happens to a container: a user's action, a state that the connector reports, a sample, the end of
-- the stream, and the end of a collector on its own.
pub data Step : Container → Container → Type 0 where
  acts : {c : Container} (a : Action) (answer : Option Text) → Step c (act a answer c).0
  reports : {c : Container} (s : Text) → Step c (set_state s c)
  samples : {c : Container} (m : Metrics) → Step c (read_sample m c)
  stream_ends : {c : Container} → Step c (read_end c)
  collector_ends : {c : Container} → Step c (record c { collecting = false })

-- The containers that a new one with a collector at rest can become by this and by entries of the
-- metadata, as the connectors make them of the labels; with the values that the entry of the state was
-- given in this way.
pub data Reach : List Text → Container → Type 0 where
  fresh : (id : Text) → Reach [] (new_container id false)
  then_step : {vs : List Text} {c d : Container} → Reach vs c → Step c d → Reach vs d
  notes :
      {vs : List Text} {c : Container} (k v : Text)
      → Reach vs c
      → Reach (if text_eq k state_key then v ∷ vs else vs) (set_meta k v c)

-- "running", or one of the values.
abbrev pub IsRunningOr : List Text → Text → Type 0
IsRunningOr [] s = s ≡ running
IsRunningOr (v ∷ vs) s = (s ≡ v) ⊎ IsRunningOr vs s

abbrev CollectsRunning : List Text → Container → Type 0
CollectsRunning vs c = c.collecting ≡ true → IsRunningOr vs (state_of c)
