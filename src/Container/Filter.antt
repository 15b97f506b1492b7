-- ===== src/Container/Filter.antt =====
-- The filter of pkg/container/sort.go: which rows are shown. Compiled expressions are Go's `regexp`,
-- which is a parameter. `none` is the panic of `regexp.MustCompile`.
pub mod Shown
use ctop.Prelude.{
  ℕ, Bool, true, false, not, ◌&&◌, ◌||◌, List, [], ◌∷◌, ◌++◌, Option, none, some, if◌then◌else◌,
  ◌==◌,
}
use ctop.Prelude.Texts.{Text, codes, text_eq, to_lower, trim_space, contains, fields, cut}
use ctop.Config.{Config}
use ctop.Config.Settings.{get_val, get_switch_val}
use ctop.Container.{Container, get_meta}

-- `regexp.Compile` with the method `MatchString` of its result, and `regexp.QuoteMeta`.
pub record Regexp : Type 0 where
  pub compile : Text → Option (Text → Bool)
  pub quote_meta : Text → Text

unfoldable pub is_active : Text → Bool
is_active state =
    text_eq state (codes "running")
    || text_eq state (codes "paused")
    || text_eq state (codes "restarting")

abbrev pub lower_meta : Container → Text → Text
lower_meta c k = to_lower (get_meta c k)

pub data Subject : Type 0 where
  by_state by_health by_name by_id by_image by_project by_meta : Subject

-- The switch over the key.
unfoldable pub subject_of : Text → Subject
subject_of k =
    if text_eq k (codes "status") || text_eq k (codes "state")
    then by_state
    else if text_eq k (codes "health")
    then by_health
    else if text_eq k (codes "name")
    then by_name
    else if text_eq k (codes "id")
    then by_id
    else if text_eq k (codes "image") || text_eq k (codes "ancestor")
    then by_image
    else if text_eq k (codes "compose") || text_eq k (codes "project")
    then by_project
    else by_meta

-- The default case: an entry of the metadata or a label.
unfoldable pub matches_meta : Container → Text → Text → Bool
matches_meta c k v =
    let meta_val = lower_meta c k in
    let labels_val = lower_meta c (codes "[LABELS]") in
    if not (text_eq v [])
    then contains meta_val v || contains labels_val (k ++ b'=' ∷ v) || contains labels_val v
    else not (text_eq meta_val []) || contains labels_val k

abbrev pub matches_subject : Subject → Container → Text → Text → Bool
matches_subject by_state c k v = text_eq (lower_meta c (codes "state")) v
matches_subject by_health c k v = text_eq (lower_meta c (codes "health")) v
matches_subject by_name c k v = contains (lower_meta c (codes "name")) v
matches_subject by_id c k v = contains (to_lower c.id) v
matches_subject by_image c k v = contains (lower_meta c (codes "image")) v
matches_subject by_project c k v = contains (lower_meta c (codes "composeProject")) v
matches_subject by_meta c k v = matches_meta c k v

unfoldable pub matches_pair : Container → Text → Bool
unfolding subject_of matches_meta
matches_pair c token =
    let k = to_lower (trim_space (cut b'=' token).0) in
    let v = to_lower (trim_space (cut b'=' token).1) in matches_subject (subject_of k) c k v

module _ (re : Regexp) where
  abbrev pub ignore_case : Text → Text
  ignore_case token = codes "(?i)" ++ token

  abbrev pub or_quoted : Text → Option (Text → Bool) → Option (Text → Bool)
  or_quoted token none = re.compile (ignore_case (re.quote_meta token))
  or_quoted token (some m) = some m

  abbrev pub name_or_id : Container → Option (Text → Bool) → Option Bool
  name_or_id c none = none
  name_or_id c (some m) = some (m (get_meta c (codes "name")) || m c.id)

  unfoldable pub matches_word : Container → Text → Option Bool
  matches_word c token = name_or_id c (or_quoted token (re.compile (ignore_case token)))

  -- One round of the loop over the tokens.
  unfoldable pub matches_token : Container → Text → Option Bool
  unfolding matches_pair matches_word
  matches_token c token =
      if contains token (codes "=") then some (matches_pair c token) else matches_word c token

  -- The next test, if this one holds.
  abbrev pub and_then : Option Bool → Option Bool → Option Bool
  and_then none r = none
  and_then (some false) r = some false
  and_then (some true) r = r

  unfoldable pub matches_tokens : Container → List Text → Option Bool
  unfolding matches_token
  matches_tokens c [] = some true
  matches_tokens c (t ∷ ts) = and_then (matches_token c t) (matches_tokens c ts)

  unfoldable pub matches_structured_filter : Container → Text → Option Bool
  unfolding matches_tokens
  matches_structured_filter c filter =
      let rest = matches_tokens c (fields filter) in if text_eq filter [] then some true else rest

  abbrev pub display_as : Config → Container → Option Bool → Option Container
  display_as conf c none = none
  display_as conf c (some matched) = some (record c {
    display =
        if not (get_switch_val (codes "allContainers") conf.switches)
          && not (is_active (get_meta c (codes "state")))
        then false
        else matched;
  })

  -- One round of the loop of `Filter`.
  unfoldable pub set_display : Config → Container → Option Container
  unfolding matches_structured_filter is_active get_val get_switch_val
  set_display conf c =
      display_as conf c (matches_structured_filter c (get_val (codes "filterStr") conf.params))

  abbrev pub cons_both : Option Container → Option (List Container) → Option (List Container)
  cons_both none ds = none
  cons_both (some d) none = none
  cons_both (some d) (some ds) = some (d ∷ ds)

  unfoldable pub filter : Config → List Container → Option (List Container)
  unfolding set_display
  filter conf [] = some []
  filter conf (c ∷ cs) = cons_both (set_display conf c) (filter conf cs)
