-- ===== src/Container/Filter/Shown.antt =====
-- Which containers the filter of pkg/container/sort.go shows.
use ctop.Prelude.{
  ◌≡◌, ◌≢◌, refl, sym, ap, ◌∙◌, Bool, false, not, ◌&&◌, List, [], ◌∷◌, ◌++◌, none, some,
  if◌then◌else◌, arith, inl, inr, Option-cases, map, some_inj,
}
use ctop.Prelude.Texts.{
  Text, codes, text_eq, fields, fields-append, to_lower, trim_space, cut, contains,
}
use ctop.Config.{Config}
use ctop.Config.Settings.{get_val, get_switch_val}
use ctop.Container.{Container, get_meta}
use ctop.Container.Filter.{
  Regexp, matches_token, matches_tokens, matches_structured_filter, and_then, filter, set_display,
  ignore_case, is_active, matches_word, Subject, by_state, by_health, by_name, by_id, by_image,
  by_project, by_meta, matches_subject, matches_meta, matches_pair, subject_of, display_as,
}

module _ (re : Regexp) where
  matches_tokens-append :
      (c : Container) (ts us : List Text)
      → matches_tokens re c (ts ++ us)
        ≡ and_then re (matches_tokens re c ts) (matches_tokens re c us)
  unfolding matches_tokens
  matches_tokens-append c [] us = refl
  matches_tokens-append c (t ∷ ts) us = ground (arith, matches_tokens-append c ts us)

  -- The special case of the empty filter is what its words give.
  matches_structured_filter-tokens :
      (c : Container) (f : Text) → matches_structured_filter re c f ≡ matches_tokens re c (fields f)
  unfolding matches_structured_filter matches_tokens fields text_eq
  matches_structured_filter-tokens c [] = refl
  matches_structured_filter-tokens c (x ∷ f) = refl

  -- A filter that is two filters with a space between shows what both show, tested in their order.
  pub matches_structured_filter-append :
      (c : Container) (f g : Text)
      → matches_structured_filter re c (f ++ 32 ∷ g)
        ≡ and_then re (matches_structured_filter re c f) (matches_structured_filter re c g)
  matches_structured_filter-append c f g =
      rw
        (
          matches_structured_filter-tokens c (f ++ 32 ∷ g),
          matches_structured_filter-tokens c f,
          matches_structured_filter-tokens c g,
          fields-append f g,
        )
        (matches_tokens-append c (fields f) (fields g))

  -- What a quoted word promises: it is an expression.
  abbrev pub QuotesAll : Type 0
  QuotesAll = (t : Text) → re.compile (ignore_case re (re.quote_meta t)) ≢ none

  matches_word-returns : QuotesAll → (c : Container) (t : Text) → matches_word re c t ≢ none
  unfolding matches_word
  matches_word-returns q c t = elim (Option-cases (re.compile (ignore_case re t))) [
    | inl e ↦ rw e (elim (Option-cases (re.compile (ignore_case re (re.quote_meta t)))) [
      | inl n ↦ elim (q t n) [ ]
      | inr (m, n) ↦ rw n (ground arith)
    ])
    | inr (m, e) ↦ rw e (ground arith)
  ]

  matches_tokens-returns :
      QuotesAll → (c : Container) (ts : List Text) → matches_tokens re c ts ≢ none
  unfolding matches_tokens matches_token
  matches_tokens-returns q c [] = ground arith
  matches_tokens-returns q c (t ∷ ts) =
      ground (arith, matches_word-returns q c t, matches_tokens-returns q c ts)

  set_display-returns : QuotesAll → (conf : Config) (c : Container) → set_display re conf c ≢ none
  unfolding set_display
  set_display-returns q conf c =
      rw (matches_structured_filter-tokens c (get_val (codes "filterStr") conf.params)) (
        ground
          (arith, matches_tokens-returns q c (fields (get_val (codes "filterStr") conf.params))))

  -- `Filter` never panics, if every quoted word is an expression.
  pub filter-returns : QuotesAll → (conf : Config) (cs : List Container) → filter re conf cs ≢ none
  unfolding filter
  filter-returns q conf [] = ground arith
  filter-returns q conf (c ∷ cs) =
      ground (arith, set_display-returns q conf c, filter-returns q conf cs)

  abbrev pub shown_as : Bool → Container → Container
  shown_as b c = record c { display = b }

  matches_subject-shown_as :
      (b : Bool) (s : Subject) (c : Container) (k v : Text)
      → matches_subject s (shown_as b c) k v ≡ matches_subject s c k v
  unfolding matches_meta
  matches_subject-shown_as b by_state c k v = refl
  matches_subject-shown_as b by_health c k v = refl
  matches_subject-shown_as b by_name c k v = refl
  matches_subject-shown_as b by_id c k v = refl
  matches_subject-shown_as b by_image c k v = refl
  matches_subject-shown_as b by_project c k v = refl
  matches_subject-shown_as b by_meta c k v = refl

  matches_token-shown_as :
      (b : Bool) (c : Container) (t : Text)
      → matches_token re (shown_as b c) t ≡ matches_token re c t
  unfolding matches_token matches_pair matches_word
  matches_token-shown_as b c t =
      let k = to_lower (trim_space (cut b'=' t).0) in
      let v = to_lower (trim_space (cut b'=' t).1) in
      ap (λ m. if contains t (codes "=") then some m else matches_word re c t)
        (matches_subject-shown_as b (subject_of k) c k v)

  matches_tokens-shown_as :
      (b : Bool) (c : Container) (ts : List Text)
      → matches_tokens re (shown_as b c) ts ≡ matches_tokens re c ts
  unfolding matches_tokens
  matches_tokens-shown_as b c [] = refl
  matches_tokens-shown_as b c (t ∷ ts) =
      rw (matches_token-shown_as b c t, matches_tokens-shown_as b c ts) refl

  set_display-shown_as :
      (conf : Config) (b : Bool) (c : Container)
      → set_display re conf (shown_as b c) ≡ set_display re conf c
  unfolding set_display
  set_display-shown_as conf b c =
      let filter_str = get_val (codes "filterStr") conf.params in
      ground (
        arith,
        matches_structured_filter-tokens (shown_as b c) filter_str,
        matches_structured_filter-tokens c filter_str,
        matches_tokens-shown_as b c (fields filter_str),
      )

  set_display-cases :
      (conf : Config) (c d : Container)
      → set_display re conf c ≡ some d
      → (b : Bool) × (d ≡ shown_as b c)
  unfolding set_display
  set_display-cases conf c d h =
      elim (Option-cases
        (matches_structured_filter re c (get_val (codes "filterStr") conf.params))) [
          | inl e ↦ ground (arith, h, e)
          | inr (m, e) ↦ (
            (if not (get_switch_val (codes "allContainers") conf.switches)
                  && not (is_active (get_meta c (codes "state")))
                then false
                else m),
            some_inj (sym h ∙ ap (display_as re conf c) e),
          )
        ]

  set_display-again :
      (conf : Config) (c d : Container)
      → set_display re conf c ≡ some d
      → (set_display re conf d ≡ some d) × (shown_as false d ≡ shown_as false c)
  set_display-again conf c d h =
      let (b, e) = set_display-cases conf c d h in
      (ap (set_display re conf) e ∙ set_display-shown_as conf b c ∙ h, ap (shown_as false) e)

  -- `Filter` changes no container but for its display flag and keeps their order, and a second run of
  -- it with the same settings changes nothing.
  pub filter-again :
      (conf : Config) (cs ds : List Container)
      → filter re conf cs ≡ some ds
      → (filter re conf ds ≡ some ds) × (map (shown_as false) ds ≡ map (shown_as false) cs)
  unfolding filter
  filter-again conf [] [] h = (refl, refl)
  filter-again conf [] (d ∷ ds) h = ground (arith, h)
  filter-again conf (c ∷ cs) ds h = elim (Option-cases (set_display re conf c)) [
    | inl e ↦ ground (arith, h, e)
    | inr (d, e) ↦ elim (Option-cases (filter re conf cs)) [
      | inl n ↦ ground (arith, h, e, n)
      | inr (rest, n) ↦
          let (same, shows) = set_display-again conf c d e in
          let (sames, all_show) = filter-again conf cs rest n in
          let ds_is : ds ≡ d ∷ rest = some_inj (sym h ∙ rw (e, n) refl) in
          rw ds_is (rw (same, sames) refl, rw (shows, all_show) refl)
    ]
  ]
