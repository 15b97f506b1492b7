-- ===== src/Cursor/Refresh.antt =====
-- What a refresh of the cursor of cursor.go does to the selection.
use mathlib.Core.Path.{subst}
use ctop.Prelude.{
  ◌≡◌, ◌≢◌, refl, sym, ap, ◌∙◌, Bool, true, false, not, List, [], ◌∷◌, some, if◌then◌else◌, arith,
  select, length, ◌==◌, Bool-cases, inl, inr,
}
use ctop.Prelude.Texts.{Text, text_eq, text_eq_iff}
use ctop.Prelude.Assoc.{mem}
use ctop.Container.{Container}
use ctop.Cursor.{Cursor, dim_all, reset, is_visible, refresh_containers}
use ctop.Cursor.Moves.{ids}

dim_all-dark :
    (id : Text) (cs : List Container) (lit : Text → Bool)
    → lit id ≡ false
    → dim_all cs lit id ≡ false
unfolding dim_all
dim_all-dark id [] lit h = h
dim_all-dark id (c ∷ cs) lit h =
    dim_all-dark id cs (λ t. if text_eq c.id t then false else lit t) (ground (arith, h))

dim_all-mem :
    (id : Text) (cs : List Container) (lit : Text → Bool)
    → mem id (ids cs) ≡ true
    → dim_all cs lit id ≡ false
unfolding dim_all mem
dim_all-mem id [] lit h = ground (arith, h)
dim_all-mem id (c ∷ cs) lit h = elim (Bool-cases (text_eq c.id id)) [
  | inl e ↦ dim_all-dark id cs (λ t. if text_eq c.id t then false else lit t) (rw e refl)
  | inr e ↦
      dim_all-mem id cs (λ t. if text_eq c.id t then false else lit t)
        (ground (arith, h, e, text_eq_iff id c.id, text_eq_iff c.id id))
]

is_visible-none :
    (id : Text) (all : List Container)
    → select (λ c. c.display) all ≡ []
    → is_visible id all ≡ false
unfolding is_visible
is_visible-none id [] h = refl
is_visible-none id (c ∷ all) h = ground (arith, h, is_visible-none id all)

module _ (sort : List Container → List Container) where
  -- A refresh that finds the selected container displayed keeps the selection and what is lit.
  pub refresh_containers-keeps :
      (all : List Container) (gc : Cursor)
      → gc.selected_id ≢ []
      → is_visible gc.selected_id all ≡ true
      → refresh_containers sort (some (some all)) gc ≡ (
        not (length gc.filtered == length (sort (select (λ c. c.display) all))),
        false,
        record gc { filtered = sort (select (λ c. c.display) all) },
      )
  unfolding refresh_containers
  refresh_containers-keeps all gc ne v = ground (arith, v, ne, text_eq_iff gc.selected_id [])

  none_shown-dark :
      (all : List Container) (gc : Cursor)
      → sort [] ≡ []
      → select (λ c. c.display) all ≡ []
      → (refresh_containers sort (some (some all)) gc).2
        ≡ record gc { filtered = []; lit = dim_all all gc.lit }
  unfolding refresh_containers reset
  none_shown-dark all gc empty h = rw (h, empty, is_visible-none gc.selected_id all h) refl

  -- A refresh that finds containers, the selected one among them, but none displayed, and then one that
  -- finds the selected one displayed again: it is still selected, but not lit.
  pub refresh_containers-goes_dark :
      (hidden shown : List Container) (gc : Cursor)
      → sort [] ≡ []
      → gc.selected_id ≢ []
      → mem gc.selected_id (ids hidden) ≡ true
      → select (λ c. c.display) hidden ≡ []
      → is_visible gc.selected_id shown ≡ true
      → let first = (refresh_containers sort (some (some hidden)) gc).2 in
        let second = (refresh_containers sort (some (some shown)) first).2 in
        (second.selected_id ≡ gc.selected_id) × (second.lit gc.selected_id ≡ false)
  refresh_containers-goes_dark hidden shown gc empty ne m none_shown v =
      let first : Cursor = record gc { filtered = []; lit = dim_all hidden gc.lit } in
      let k = refresh_containers-keeps shown first ne v in
      subst
        (λ (d : Cursor).
          ((refresh_containers sort (some (some shown)) d).2.selected_id ≡ gc.selected_id)
          × ((refresh_containers sort (some (some shown)) d).2.lit gc.selected_id ≡ false))
        (sym (none_shown-dark hidden gc empty none_shown))
        (
          ap (λ r. r.2.selected_id) k,
          ap (λ r. r.2.lit gc.selected_id) k ∙ dim_all-mem gc.selected_id hidden gc.lit m,
        )
