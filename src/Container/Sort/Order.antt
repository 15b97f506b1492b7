-- ===== src/Container/Sort/Order.antt =====
-- `Less` of pkg/container/sort.go, under all settings.
use mathlib.Core.Path.{subst}
use ctop.Prelude.{
  ◌≡◌, ◌≢◌, refl, sym, ◌<◌, Bool, true, false, not, ◌&&◌, [], if◌then◌else◌, arith, ◌⊎◌, inl, inr,
}
use ctop.Prelude.Texts.{Text, codes, text_eq, to_lower, text_eq_iff, text_lt_asymm, text_lt_total}
use ctop.Config.{Config}
use ctop.Config.Settings.{get_val, get_switch_val}
use ctop.Container.{Container, get_meta}
use ctop.Container.Sort.{
  SortField, state, compose, is_state, less, less_by, sorters, sort_field, grouped, project_lt,
  project_of, state_sorter, get_state_score,
}
use ctop.Container.Sort.Fields.{StrictWeak, text_lt_cotrans, within_project, sorters-StrictWeak}

either_swap {ℓ} : {A B : Type ℓ} → A ⊎ B → B ⊎ A
either_swap (inl a) = inr a
either_swap (inr b) = inl b

-- The same in both directions.
directed-StrictWeak :
    (f : SortField) (backwards : Bool)
    → StrictWeak Container (λ a b.
      if backwards then sorters (within_project f) b a else sorters (within_project f) a b)
directed-StrictWeak f false = sorters-StrictWeak f
directed-StrictWeak f true = record {
  asymm = λ a b. (sorters-StrictWeak f).asymm b a;
  cotrans = λ a b c h. either_swap ((sorters-StrictWeak f).cotrans c b a h);
}

-- `less_by` is a lexicographic order: first the projects if it groups by them, then the field.
abbrev backwards : SortField → Bool → Bool
backwards f reversed = not (is_state f) && reversed

less_by-directed :
    (f : SortField) (by_compose reversed : Bool) (a b : Container)
    → less_by f by_compose reversed a b ≡ (
        if grouped f by_compose && not (text_eq (project_of a) (project_of b))
        then project_lt (project_of a) (project_of b)
        else if backwards f reversed
        then sorters (within_project f) b a
        else sorters (within_project f) a b)
unfolding sorters
less_by-directed compose g r a b =
    ground
      (arith, text_eq_iff (project_of a) (project_of b), text_eq_iff (project_of b) (project_of a))
less_by-directed f g r a b = refl

-- Two projects are one if they differ in no more than case.
abbrev pub OneCase : Container → Container → Type 0
OneCase a b = to_lower (project_of a) ≡ to_lower (project_of b) → project_of a ≡ project_of b

project_lt-asymm : (p q : Text) → project_lt p q ≡ true → project_lt q p ≡ false
project_lt-asymm p q h = ground (arith, h, text_lt_asymm (to_lower p) (to_lower q))

project_lt-total :
    (p q : Text)
    → (to_lower p ≡ to_lower q → p ≡ q)
    → p ≢ q
    → (project_lt p q ≡ true) ⊎ (project_lt q p ≡ true)
project_lt-total p q one ne =
    ground
      (arith, one, ne, text_lt_total (to_lower p) (to_lower q), text_eq_iff p [], text_eq_iff q [])

project_lt-cotrans :
    (p q r : Text) → project_lt p r ≡ true → (project_lt p q ≡ true) ⊎ (project_lt q r ≡ true)
project_lt-cotrans p q r h = ground (
  arith,
  h,
  text_lt_cotrans (to_lower p) (to_lower q) (to_lower r),
  text_eq_iff p [],
  text_eq_iff q [],
)

-- Whatever the settings, `Less` never holds both ways.
pub less-asymm : (conf : Config) (a b : Container) → less conf a b ≡ true → less conf b a ≡ false
unfolding less
less-asymm conf a b h =
    let f = sort_field (get_val (codes "sortField") conf.params) in
    let g = get_switch_val (codes "groupByCompose") conf.switches in
    let r = get_switch_val (codes "sortReversed") conf.switches in
    ground (
      arith,
      h,
      less_by-directed f g r a b,
      less_by-directed f g r b a,
      (directed-StrictWeak f (backwards f r)).asymm a b,
      project_lt-asymm (project_of a) (project_of b),
      text_eq_iff (project_of a) (project_of b),
      text_eq_iff (project_of b) (project_of a),
    )

less_by-cotrans :
    (f : SortField) (g r : Bool) (a b c : Container)
    → OneCase a b
    → OneCase b c
    → less_by f g r a c ≡ true
    → (less_by f g r a b ≡ true) ⊎ (less_by f g r b c ≡ true)
less_by-cotrans f g r a b c ab bc h = ground (
  arith,
  h,
  ab,
  bc,
  less_by-directed f g r a b,
  less_by-directed f g r b c,
  less_by-directed f g r a c,
  (directed-StrictWeak f (backwards f r)).cotrans a b c,
  project_lt-cotrans (project_of a) (project_of b) (project_of c),
  project_lt-total (project_of a) (project_of b),
  project_lt-total (project_of b) (project_of c),
  project_lt-asymm (project_of b) (project_of c),
  text_eq_iff (project_of a) (project_of b),
  text_eq_iff (project_of b) (project_of c),
  text_eq_iff (project_of a) (project_of c),
)

-- Whatever the settings, what `Less` tells apart it tells apart from every third container, on at
-- least one side, where no two projects of the three differ in case only.
pub less-cotrans :
    (conf : Config) (a b c : Container)
    → OneCase a b
    → OneCase b c
    → less conf a c ≡ true
    → (less conf a b ≡ true) ⊎ (less conf b c ≡ true)
unfolding less
less-cotrans conf a b c =
    less_by-cotrans (sort_field (get_val (codes "sortField") conf.params))
      (get_switch_val (codes "groupByCompose") conf.switches)
      (get_switch_val (codes "sortReversed") conf.switches) a b c

less_by-state :
    (g r : Bool) (a b : Container)
    → get_state_score (get_meta b (codes "state")) < get_state_score (get_meta a (codes "state"))
    → (less_by state g r a b ≡ true) × (less_by state g r b a ≡ false)
unfolding sorters state_sorter
less_by-state g r a b h = ground (arith, h)

-- When sorting by state, which is also what no setting means, a container with the higher score comes
-- before one with a lower score, whatever the other settings, and never after it.
pub less-state_first :
    (conf : Config) (a b : Container)
    → sort_field (get_val (codes "sortField") conf.params) ≡ state
    → get_state_score (get_meta b (codes "state")) < get_state_score (get_meta a (codes "state"))
    → (less conf a b ≡ true) × (less conf b a ≡ false)
unfolding less
less-state_first conf a b e h =
    let g = get_switch_val (codes "groupByCompose") conf.switches in
    let r = get_switch_val (codes "sortReversed") conf.switches in
    subst (λ f. (less_by f g r a b ≡ true) × (less_by f g r b a ≡ false)) (sym e)
      (less_by-state g r a b h)
