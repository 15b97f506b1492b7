-- ===== src/Cursor/Moves.antt =====
-- Rows, and moves between rows, of the cursor of cursor.go.
use ctop.Prelude.{
  ◌≡◌, refl, sym, ap, ◌∙◌, ℕ, zero, suc, ◌<◌, ltb, true, false, List, [], ◌∷◌, Option, none, some,
  if◌then◌else◌, arith, inl, inr, Bool-cases, Option-cases, some_inj, length, get_elem?, map,
}
use ctop.Prelude.Int.{pos}
use ctop.Prelude.Texts.{Text, text_eq, text_eq_iff, text_eq_self}
use ctop.Prelude.Assoc.{mem, Distinct}
use ctop.Container.{Container}
use ctop.Cursor.{
  Grid, Cursor, Source, light, dim, find_idx, idx, scroll_grid, scroll_page, page_up, page_down,
  move,
}

abbrev pub ids : List Container → List Text
ids cs = map (λ c. c.id) cs

-- The row `i` is selected, it alone is lit, and no two rows have one identifier.
pub record OnRow (gc : Cursor) (i : ℕ) : Type 0 where
  pub distinct : Distinct (ids gc.filtered)
  pub at_row : find_idx gc.selected_id gc.filtered ≡ some i
  pub lit_only : (t : Text) → gc.lit t ≡ text_eq gc.selected_id t

-- The row with an identifier, and the identifier of a row.
mem-get_elem? :
    (cs : List Container) (i : ℕ) {c : Container}
    → get_elem? cs i ≡ some c
    → mem c.id (ids cs) ≡ true
unfolding mem
mem-get_elem? [] i h = ground (arith, h)
mem-get_elem? (d ∷ cs) zero {c} h = ground (arith, ap (λ c. c.id) (some_inj h), text_eq_self d.id)
mem-get_elem? (d ∷ cs) (suc i) {c} h = ground (arith, mem-get_elem? cs i h)

find_idx-get_elem? :
    (cs : List Container) (i : ℕ) {c : Container}
    → Distinct (ids cs)
    → get_elem? cs i ≡ some c
    → find_idx c.id cs ≡ some i
unfolding find_idx
find_idx-get_elem? [] i d h = ground (arith, h)
find_idx-get_elem? (e ∷ cs) zero {c} d h =
    ground (arith, ap (λ c. c.id) (some_inj h), text_eq_iff e.id c.id)
find_idx-get_elem? (e ∷ cs) (suc i) {c} d h =
    let differs : text_eq e.id c.id ≡ false =
      ground (arith, d.0, mem-get_elem? cs i h, text_eq_iff e.id c.id) in
    rw (differs, find_idx-get_elem? cs i d.1 h) refl

find_idx-found :
    (id : Text) (cs : List Container) (i : ℕ)
    → find_idx id cs ≡ some i
    → (c : Container) × (get_elem? cs i ≡ some c) × (c.id ≡ id)
unfolding find_idx
find_idx-found id [] i h = ground (arith, h)
find_idx-found id (c ∷ cs) i h = elim (Bool-cases (text_eq c.id id)) [
  | inl e ↦
      let at_top : 0 ≡ i = some_inj (sym (rw e refl) ∙ h) in
      rw (sym at_top) (c, refl, (text_eq_iff c.id id).0 e)
  | inr e ↦ elim (Option-cases (find_idx id cs)) [
    | inl n ↦ ground (arith, h, e, n)
    | inr (j, n) ↦
        let below : suc j ≡ i = some_inj (sym (rw (e, n) refl) ∙ h) in
        rw (sym below) (find_idx-found id cs j n)
  ]
]

pub find_idx-bound :
    (id : Text) (cs : List Container) (i : ℕ) → find_idx id cs ≡ some i → i < length cs
unfolding find_idx
find_idx-bound id [] i h = ground (arith, h)
find_idx-bound id (c ∷ cs) i h = elim (Bool-cases (text_eq c.id id)) [
  | inl e ↦ ground (arith, h, e)
  | inr e ↦ elim (Option-cases (find_idx id cs)) [
    | inl n ↦ ground (arith, h, e, n)
    | inr (j, n) ↦ ground (arith, h, e, n, find_idx-bound id cs j n)
  ]
]

get_elem?-in_range :
    (cs : List Container) (i : ℕ) → i < length cs → (c : Container) × (get_elem? cs i ≡ some c)
get_elem?-in_range [] i h = elim h [ ]
get_elem?-in_range (c ∷ cs) zero h = (c, refl)
get_elem?-in_range (c ∷ cs) (suc i) h = get_elem?-in_range cs i (omega arith)

-- The grid plays no part.
pub OnRow-grid :
    (gc : Cursor) (i : ℕ) (g : Option Grid) → OnRow gc i → OnRow (record gc { grid = g }) i
OnRow-grid gc i g w = record { distinct = w.distinct; at_row = w.at_row; lit_only = w.lit_only }

-- A move between rows that there are selects and lights the second.
pub move-OnRow :
    (gc : Cursor) (i j : ℕ)
    → OnRow gc i
    → j < length gc.filtered
    → (gc' : Cursor) × (move i j gc ≡ some gc')
      × OnRow gc' j
      × (gc'.filtered ≡ gc.filtered)
      × (gc'.grid ≡ gc.grid)
unfolding move
move-OnRow gc i j w h =
    let (active, at_i, is_selected) = find_idx-found gc.selected_id gc.filtered i w.at_row in
    let (next, at_j) = get_elem?-in_range gc.filtered j h in
    (
      record gc { selected_id = next.id; lit = light next.id (dim active.id gc.lit) },
      rw (at_i, at_j) refl,
      record {
        distinct = w.distinct;
        at_row = find_idx-get_elem? gc.filtered j w.distinct at_j;
        lit_only = λ t. ground (arith, w.lit_only t, ap (λ id. text_eq id t) is_selected);
      },
      refl,
      refl,
    )

pub idx-OnRow : (source : Source) (gc : Cursor) (i : ℕ) → OnRow gc i → idx source gc ≡ (i, gc)
unfolding idx
idx-OnRow source gc i w = rw w.at_row refl

-- What `ScrollPage` does to a grid when the row `i` of `rows` rows is selected.
unfoldable pub scrolled : ℕ → ℕ → Option Grid → Option Grid
scrolled i rows none = none
scrolled i rows (some g) =
    some (if ltb rows g.max_rows then record g { offset = pos 0 } else page_up i (page_down i g))

scroll_grid-scrolled :
    (source : Source) (gc : Cursor) (i : ℕ) (g : Option Grid)
    → OnRow gc i
    → gc.grid ≡ g
    → scroll_grid g source gc ≡ record gc { grid = scrolled i (length gc.filtered) g }
unfolding scrolled idx
scroll_grid-scrolled source gc i none w e = ap (λ g. record gc { grid = g }) e
scroll_grid-scrolled source gc i (some g) w e =
    elim (Bool-cases (ltb (length gc.filtered) g.max_rows)) [
      | inl s ↦ rw s refl
      | inr s ↦ rw (s, w.at_row) refl
    ]

pub scroll_page-scrolled :
    (source : Source) (gc : Cursor) (i : ℕ)
    → OnRow gc i
    → scroll_page source gc ≡ record gc { grid = scrolled i (length gc.filtered) gc.grid }
unfolding scroll_page
scroll_page-scrolled source gc i w = scroll_grid-scrolled source gc i gc.grid w refl
