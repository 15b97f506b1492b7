-- ===== src/LogView/Chunks.antt =====
-- How internal/cwidgets/single/logs.go wraps a line.
use ctop.Prelude.{
  ℕ, zero, suc, ◌<◌, ◌≤◌, ◌≡◌, refl, ap, ◌∙◌, List, [], ◌∷◌, ◌++◌, ltb, length, take, drop, arith,
  All, Bool-cases, inl, inr, append-nil, length-drop, length-take, take-append-drop,
}
use ctop.Prelude.Int.{pos}
use ctop.Prelude.Texts.{Text}
use ctop.LogView.{split_runes, last_chunk, split_log_line}

unfoldable pub join : List Text → Text
join [] = []
join (p ∷ ps) = p ++ join ps

-- A chunk that has a rune, and fits.
abbrev pub IsChunk : ℕ → Text → Type 0
IsChunk size p = (0 < length p) × (length p ≤ size)

last_chunk-join :
    (size : ℕ) (s : Text)
    → length s ≤ size
    → (join (last_chunk s) ≡ s) × All (IsChunk size) (last_chunk s)
unfolding join
last_chunk-join size [] h = (refl, tt)
last_chunk-join size (c ∷ cs) h = (append-nil (c ∷ cs), ((omega arith, h), tt))

split_runes-join :
    (fuel size : ℕ) (s : Text)
    → 0 < size
    → 0 < length s
    → length s ≤ fuel
    → (join (split_runes fuel size s) ≡ s) × All (IsChunk size) (split_runes fuel size s)
unfolding split_runes join
split_runes-join zero size s z n h = ground arith
split_runes-join (suc fuel) size s z n h = elim (Bool-cases (ltb size (length s))) [
  | inl e ↦
      let rest_length = length-drop size s in
      let chunk_length = length-take size s in
      let longer : size < length s = ground (arith, e) in
      let (whole, chunks) =
        split_runes-join fuel size (drop size s) z (omega arith) (omega arith) in
      rw e (
        ap (◌++◌ (take size s)) whole ∙ take-append-drop size s,
        ((omega arith, omega arith), chunks),
      )
  | inr e ↦ rw e (last_chunk-join size s (ground (arith, e)))
]

-- For a positive width, the chunks of a line put together are the line, and each has a rune and no more
-- of them than the width.
pub split_log_line-join :
    (line : Text) (n : ℕ)
    → (join (split_log_line line (pos (suc n))) ≡ line)
      × All (IsChunk (suc n)) (split_log_line line (pos (suc n)))
unfolding split_log_line join
split_log_line-join [] n = (refl, tt)
split_log_line-join (c ∷ line) n =
    split_runes-join (length (c ∷ line)) (suc n) (c ∷ line) (omega arith) (omega arith)
      (omega arith)
