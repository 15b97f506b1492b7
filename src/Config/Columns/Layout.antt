-- ===== src/Config/Columns/Layout.antt =====
-- What `SetColumns` of pkg/config/columns.go makes of the columns.
use mathlib.Core.List.{Perm}
use mathlib.Core.List.Perm
use ctop.Prelude.{
  ◌≡◌, refl, sym, ap, ◌∙◌, List, [], ◌∷◌, ◌++◌, true, false, some, arith, map, All, Bool-cases, inl,
  inr,
}
use ctop.Prelude.Texts.{Text, text_eq, text_eq_iff}
use ctop.Prelude.Assoc.{mem, Distinct}
use ctop.Config.Columns.{Column, enabled_columns, pop_column, pop_all, set_columns, with_enabled}

abbrev pub column_names : List Column → List Text
column_names [] = []
column_names (c ∷ cs) = c.name ∷ column_names cs

-- Every one of these names is the name of a column.
abbrev pub AllPresent : List Text → List Column → Type 0
AllPresent names cols = All (λ name. mem name (column_names cols) ≡ true) names

record Popped (name : Text) (cols : List Column) (c : Column) (left : List Column) : Type 0 where
  is_named : c.name ≡ name
  is_perm : Perm (name ∷ column_names left) (column_names cols)
  others :
      (j : Text) → text_eq name j ≡ false → mem j (column_names left) ≡ mem j (column_names cols)

pop_column-Popped :
    (name : Text) (cols : List Column)
    → mem name (column_names cols) ≡ true
    → (c : Column) × (left : List Column) × (pop_column name cols ≡ some (c, left))
      × Popped name cols c left
unfolding pop_column mem
pop_column-Popped name [] h = absurd (ground arith)
pop_column-Popped name (c ∷ cs) h = elim (Bool-cases (text_eq c.name name)) [
  | inl e ↦ (
    c,
    cs,
    rw e,
    record {
      is_named = (text_eq_iff c.name name).0 e;
      is_perm = rw (sym ((text_eq_iff c.name name).0 e)) (Perm.refl (c.name ∷ column_names cs));
      others =
          λ j k. ground (arith, text_eq_iff c.name name, text_eq_iff c.name j, text_eq_iff name j);
    },
  )
  | inr e ↦
      let (d, left, p, w) = pop_column-Popped name cs (ground arith) in
      (
        d,
        c ∷ left,
        rw (e, p),
        record {
          is_named = w.is_named;
          is_perm =
              Perm.trans (Perm.swap c.name name (column_names left)) (Perm.cons c.name w.is_perm);
          others = λ j k. ground (arith, w.others j k);
        },
      )
]

record PoppedAll (names : List Text) (cols taken left : List Column) : Type 0 where
  are_named : column_names taken ≡ names
  all_enabled : enabled_columns taken ≡ names
  is_perm : Perm (names ++ column_names left) (column_names cols)

AllPresent-off :
    (name : Text) (names : List Text) (cols left : List Column)
    → ((j : Text) → text_eq name j ≡ false → mem j (column_names left) ≡ mem j (column_names cols))
    → mem name names ≡ false
    → AllPresent names cols
    → AllPresent names left
unfolding mem
AllPresent-off name [] cols left h m a = tt
AllPresent-off name (j ∷ names) cols left h m a = (
  h j (ground (arith, text_eq_iff j name, text_eq_iff name j)) ∙ a.0,
  AllPresent-off name names cols left h (ground arith) a.1,
)

pop_all-PoppedAll :
    (names : List Text) (cols : List Column)
    → Distinct names
    → AllPresent names cols
    → (taken : List Column) × (left : List Column) × (pop_all names cols ≡ some (taken, left))
      × PoppedAll names cols taken left
unfolding pop_all enabled_columns
pop_all-PoppedAll [] cols d a = (
  [],
  cols,
  refl,
  record { are_named = refl; all_enabled = refl; is_perm = Perm.refl (column_names cols) },
)
pop_all-PoppedAll (name ∷ names) cols d a =
    let (c, left, p, w) = pop_column-Popped name cols a.0 in
    let (taken, rest, q, v) =
      pop_all-PoppedAll names left d.1 (AllPresent-off name names cols left w.others d.0 a.1) in
    (
      with_enabled true c ∷ taken,
      rest,
      rw (p, pop_all) (rw q),
      record {
        are_named = ground (arith, w.is_named, v.are_named);
        all_enabled = ground (arith, w.is_named, v.all_enabled);
        is_perm = Perm.trans (Perm.cons name v.is_perm) w.is_perm;
      },
    )

column_names-disabled :
    (xs : List Column) → column_names (map (with_enabled false) xs) ≡ column_names xs
column_names-disabled [] = refl
column_names-disabled (x ∷ xs) = ap (◌∷◌ x.name) (column_names-disabled xs)

column_names-append :
    (xs ys : List Column) → column_names (xs ++ ys) ≡ column_names xs ++ column_names ys
column_names-append [] ys = refl
column_names-append (x ∷ xs) ys = ap (◌∷◌ x.name) (column_names-append xs ys)

enabled_columns-disabled :
    (xs ys : List Column) → enabled_columns (xs ++ map (with_enabled false) ys) ≡ enabled_columns xs
unfolding enabled_columns
enabled_columns-disabled [] [] = refl
enabled_columns-disabled [] (y ∷ ys) = enabled_columns-disabled [] ys
enabled_columns-disabled (x ∷ xs) ys = ground (arith, enabled_columns-disabled xs ys)

-- Given any names of columns, each once, `SetColumns` does not panic: afterwards exactly the columns
-- of these names are enabled, in the order given, and the columns are those that there were.
pub set_columns-enabled :
    (names : List Text) (cols : List Column)
    → Distinct names
    → AllPresent names cols
    → (cols' : List Column) × (set_columns names cols ≡ some cols')
      × (enabled_columns cols' ≡ names)
      × Perm (column_names cols') (column_names cols)
unfolding set_columns
set_columns-enabled names cols d a =
    let (taken, left, p, w) = pop_all-PoppedAll names cols d a in
    let same_names : column_names (taken ++ map (with_enabled false) left)
        ≡ names ++ column_names left =
      column_names-append taken (map (with_enabled false) left)
      ∙ rw (w.are_named, column_names-disabled left) in
    (
      taken ++ map (with_enabled false) left,
      rw p,
      enabled_columns-disabled taken left ∙ w.all_enabled,
      rw same_names w.is_perm,
    )
