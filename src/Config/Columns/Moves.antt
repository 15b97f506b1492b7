-- ===== src/Config/Columns/Moves.antt =====
-- Moving a column of pkg/config/columns.go left and right.
use ctop.Prelude.{
  ℕ, zero, suc, ◌-◌, ◌<◌, ◌≡◌, refl, ap, ◌∙◌, List, [], ◌∷◌, true, Option, none, some, arith,
  Bool-cases, inl, inr, Option-cases, length, get_elem?, ltb,
}
use mathlib.Core.List.{Perm}
use mathlib.Core.List.Perm
use ctop.Prelude.Texts.{Text}
use ctop.Config.Columns.{
  Column, col_index, swap_found, swap_cols, move_left, column_left, move_right, column_right,
}

-- Two neighbours change places.
abbrev swap_next : ℕ → List Column → List Column
swap_next zero (x ∷ y ∷ cols) = y ∷ x ∷ cols
swap_next (suc i) (x ∷ cols) = x ∷ swap_next i cols
swap_next _ cols = cols

swap_found-cons :
    (i j : ℕ) (x : Column) (a b : Option Column) (cols : List Column)
    → swap_found (suc i) (suc j) a b (x ∷ cols) ≡ x ∷ swap_found i j a b cols
unfolding swap_found
swap_found-cons i j x none b cols = refl
swap_found-cons i j x (some a) none cols = refl
swap_found-cons i j x (some a) (some b) cols = refl

swap_cols-right : (i : ℕ) (cols : List Column) → swap_cols i (suc i) cols ≡ swap_next i cols
unfolding swap_cols
swap_cols-right zero [] = refl
swap_cols-right zero (x ∷ []) = refl
swap_cols-right zero (x ∷ y ∷ cols) = refl
swap_cols-right (suc i) [] = refl
swap_cols-right (suc i) (x ∷ cols) =
    swap_found-cons i (suc i) x (get_elem? cols i) (get_elem? cols (suc i)) cols
    ∙ ap (◌∷◌ x) (swap_cols-right i cols)

swap_cols-left : (i : ℕ) (cols : List Column) → swap_cols (suc i) i cols ≡ swap_next i cols
unfolding swap_cols
swap_cols-left zero [] = refl
swap_cols-left zero (x ∷ []) = refl
swap_cols-left zero (x ∷ y ∷ cols) = refl
swap_cols-left (suc i) [] = refl
swap_cols-left (suc i) (x ∷ cols) =
    swap_found-cons (suc i) i x (get_elem? cols (suc i)) (get_elem? cols i) cols
    ∙ ap (◌∷◌ x) (swap_cols-left i cols)

swap_next-twice : (i : ℕ) (cols : List Column) → swap_next i (swap_next i cols) ≡ cols
swap_next-twice zero [] = refl
swap_next-twice zero (x ∷ []) = refl
swap_next-twice zero (x ∷ y ∷ cols) = refl
swap_next-twice (suc i) [] = refl
swap_next-twice (suc i) (x ∷ cols) = ap (◌∷◌ x) (swap_next-twice i cols)

swap_next-perm : (i : ℕ) (cols : List Column) → Perm (swap_next i cols) cols
swap_next-perm zero [] = Perm.refl []
swap_next-perm zero (x ∷ []) = Perm.refl (x ∷ [])
swap_next-perm zero (x ∷ y ∷ cols) = Perm.swap x y cols
swap_next-perm (suc i) [] = Perm.refl []
swap_next-perm (suc i) (x ∷ cols) = Perm.cons x (swap_next-perm i cols)

length-swap_next : (i : ℕ) (cols : List Column) → length (swap_next i cols) ≡ length cols
length-swap_next zero [] = refl
length-swap_next zero (x ∷ []) = refl
length-swap_next zero (x ∷ y ∷ cols) = refl
length-swap_next (suc i) [] = refl
length-swap_next (suc i) (x ∷ cols) = ap suc (length-swap_next i cols)

-- The moved column stands one place further left.
col_index-swap_next :
    (name : Text) (i : ℕ) (cols : List Column)
    → col_index name cols ≡ some (suc i)
    → (col_index name (swap_next i cols) ≡ some i) × (suc i < length cols)
unfolding col_index
col_index-swap_next name zero [] h = absurd (ground arith)
col_index-swap_next name zero (x ∷ []) h = absurd (ground arith)
col_index-swap_next name zero (x ∷ y ∷ cols) h = ground (arith, Option-cases (col_index name cols))
col_index-swap_next name (suc i) [] h = absurd (ground arith)
col_index-swap_next name (suc i) (x ∷ cols) h =
    ground (arith, Option-cases (col_index name cols), col_index-swap_next name i cols)

-- A column that is not the first moves left, and moving it right again puts every column back in its
-- place.
pub column_right-column_left :
    (name : Text) (i : ℕ) (cols : List Column)
    → col_index name cols ≡ some (suc i)
    → (col_index name (column_left name cols) ≡ some i)
      × (column_right name (column_left name cols) ≡ cols)
unfolding column_left column_right move_right
column_right-column_left name i cols h =
    let (moved, room) = col_index-swap_next name i cols h in
    let left : move_left (col_index name cols) cols ≡ swap_next i cols =
      rw h (swap_cols-left i cols) in
    let room' : ltb i (length (swap_next i cols) - 1) ≡ true =
      ground (arith, length-swap_next i cols) in
    (
      rw left moved,
      rw (left, moved, room') (swap_cols-right i (swap_next i cols) ∙ swap_next-twice i cols),
    )

-- Moving a column left or right only rearranges the columns, whatever the name.
pub column_moves-perm :
    (name : Text) (cols : List Column)
    → Perm (column_left name cols) cols × Perm (column_right name cols) cols
unfolding column_left column_right
column_moves-perm name cols = (left (col_index name cols), right (col_index name cols))
  where
    left : (i : Option ℕ) → Perm (move_left i cols) cols
    left none = Perm.refl cols
    left (some zero) = Perm.refl cols
    left (some (suc i)) = rw (swap_cols-left i cols) (swap_next-perm i cols)

    right : (i : Option ℕ) → Perm (move_right i cols) cols
    right none = Perm.refl cols
    right (some i) = elim (Bool-cases (ltb i (length cols - 1))) [
      | inl e ↦ rw e (rw (swap_cols-right i cols) (swap_next-perm i cols))
      | inr e ↦ rw e (Perm.refl cols)
    ]
