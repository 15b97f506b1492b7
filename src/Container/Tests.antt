-- ===== src/Container/Tests.antt =====
-- The lifecycle, the filter and the comparators on concrete containers.
use ctop.Prelude.{
  ℕ, ◌≡◌, ◌≢◌, refl, ◌<◌, Bool, true, false, not, ◌&&◌, List, [], ◌∷◌, ◌++◌, Option, none, some,
  if◌then◌else◌, arith, inl, inr, ◌⊎◌, map,
}
use ctop.Prelude.Texts.{Text, codes, text_eq, contains, to_lower}
use ctop.Config.{Config, init}
use ctop.Config.Settings.{update}
use ctop.Container.{Container, new_container, get_meta, set_meta}
use ctop.Container.Lifecycle.{running, state_key, state_of, set_state}
use ctop.Container.Lifecycle.Moves.{starts, act, Move, act-Move}
use ctop.Container.Filter.{Regexp, matches_structured_filter, and_then, filter}
use ctop.Container.Filter.Shown.{matches_structured_filter-append, filter-returns}
use ctop.Container.Sort.{less}
use ctop.Container.Sort.Order.{less-cotrans}

abbrev web : Container
web =
    set_meta (codes "name") (codes "web") (set_state running (new_container (codes "0a1b2c") false))

abbrev db : Container
db =
    set_meta (codes "name") (codes "db")
      (set_state (codes "exited") (new_container (codes "9f8e7d") false))

abbrev lb : Container
lb =
    set_meta (codes "name") (codes "lb")
      (set_state (codes "paused") (new_container (codes "55aa55") false))

-- Plain substrings as expressions, that are all valid and quoted as they stand.
abbrev substrings : Regexp
substrings = record {
  compile = λ p. some (λ s. contains (codes "(?i)" ++ to_lower s) p);
  quote_meta = λ t. t;
}

abbrev succeeds : Option Text
succeeds = none

act-Move_example :
    ((act starts succeeds db).0 ≡ db)
    ⊎ ((succeeds ≡ none) × Move starts (state_of db) (state_of (act starts succeeds db).0))
act-Move_example = act-Move starts succeeds db

-- A label named `state` is set while the collector runs.
abbrev labelled : Container
labelled =
    set_meta state_key (codes "nightly") (set_state running (new_container (codes "0a") false))

labelled-state : state_of labelled ≡ codes "nightly"
unfolding ctop.Container.meta_get ctop.Prelude.Assoc.lookup set_meta ctop.Prelude.Assoc.insert
    set_state text_eq new_container
labelled-state = refl

matches_structured_filter-append_example :
    matches_structured_filter substrings web (codes "state=running" ++ 32 ∷ codes "db")
    ≡ and_then substrings
        (matches_structured_filter substrings web (codes "state=running"))
        (matches_structured_filter substrings web (codes "db"))
matches_structured_filter-append_example =
    matches_structured_filter-append substrings web (codes "state=running") (codes "db")

abbrev conf : Config
conf = record (init []) {
  params = update (codes "filterStr") (codes "web state=running") (init []).params;
}

filter-returns_example : filter substrings conf (web ∷ db ∷ []) ≢ none
filter-returns_example = filter-returns substrings (λ t e. ground (arith, e)) conf (web ∷ db ∷ [])

abbrev web_shown : List Container
web_shown = record web { display = true } ∷ record db { display = false } ∷ []

less-cotrans_example : (less conf web lb ≡ true) ⊎ (less conf lb db ≡ true)
unfolding new_container ctop.Prelude.Assoc.insert set_state text_eq ctop.Container.meta_get
    ctop.Prelude.Assoc.lookup less update init ctop.Prelude.Texts.has_prefix to_lower
    ctop.Prelude.Texts.trim_space contains
less-cotrans_example = less-cotrans conf web lb db (λ e. refl) (λ e. refl) refl
