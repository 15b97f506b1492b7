-- ===== src/Prelude/Assoc.antt =====
-- Go maps with string keys as association lists, and duplicate-free lists of strings.
use ctop.Prelude.Lists.{length}
use ctop.Prelude.Tests.{if◌then◌else◌}
use ctop.Prelude.Texts.{Text, text_eq, text_eq_iff}
use Prim.Native.Nat.{◌+◌, ◌≤◌, ◌<◌}
use mathlib.Core.Path.{◌≡◌, refl}
use mathlib.Core.Bool.{Bool, true, false, not, ◌&&◌, ◌||◌}
use mathlib.Core.Option.{Option, none, some}
use mathlib.Core.List.{List, [], ◌∷◌, ◌++◌}
use native.Mathlib.Omega.{arith}

-- Whether a string is in a list.
unfoldable pub mem : Text → List Text → Bool
mem k [] = false
mem k (x ∷ xs) = text_eq x k || mem k xs

abbrev pub Distinct : List Text → Type 0
Distinct [] = Unit
Distinct (x ∷ xs) = (mem x xs ≡ false) × Distinct xs

-- Without the first occurrence.
unfoldable pub remove_first : Text → List Text → List Text
remove_first k [] = []
remove_first k (x ∷ xs) = let rest = remove_first k xs in if text_eq x k then xs else x ∷ rest

pub mem-append : (k : Text) (xs ys : List Text) → mem k (xs ++ ys) ≡ (mem k xs || mem k ys)
unfolding mem
mem-append k [] ys = refl
mem-append k (x ∷ xs) ys = ground (arith, mem-append k xs ys)

pub mem-remove_first :
    (k j : Text) (xs : List Text)
    → Distinct xs
    → mem j (remove_first k xs) ≡ (not (text_eq k j) && mem j xs)
unfolding mem remove_first
mem-remove_first k j [] d = ground arith
mem-remove_first k j (x ∷ xs) d =
    ground
      (arith, mem-remove_first k j xs d.1, text_eq_iff x k, text_eq_iff k j, text_eq_iff x j, d.0)

pub Distinct-remove_first : (k : Text) (xs : List Text) → Distinct xs → Distinct (remove_first k xs)
unfolding mem remove_first
Distinct-remove_first k [] d = tt
Distinct-remove_first k (x ∷ xs) d =
    ground (arith, Distinct-remove_first k xs d.1, mem-remove_first k x xs d.1)

pub Distinct-concat :
    (k : Text) (xs : List Text) → Distinct xs → mem k xs ≡ false → Distinct (xs ++ k ∷ [])
unfolding mem
Distinct-concat k [] d h = (refl, tt)
Distinct-concat k (x ∷ xs) d h =
    ground
      (arith, Distinct-concat k xs d.1, mem-append x xs (k ∷ []), text_eq_iff x k, text_eq_iff k x)

module _ {ℓ} {V : Type ℓ} where
  unfoldable pub lookup : Text → List (Text × V) → Option V
  lookup k [] = none
  lookup k ((j, v) ∷ m) = if text_eq j k then some v else lookup k m

  unfoldable pub insert : Text → V → List (Text × V) → List (Text × V)
  insert k v [] = (k, v) ∷ []
  insert k v ((j, w) ∷ m) = if text_eq j k then (k, v) ∷ m else (j, w) ∷ insert k v m

  unfoldable pub delete : Text → List (Text × V) → List (Text × V)
  delete k [] = []
  delete k ((j, w) ∷ m) = let rest = delete k m in if text_eq j k then rest else (j, w) ∷ rest

  abbrev pub keys : List (Text × V) → List Text
  keys [] = []
  keys ((j, w) ∷ m) = j ∷ keys m

  pub lookup-insert :
      (k j : Text) (v : V) (m : List (Text × V))
      → lookup j (insert k v m) ≡ (if text_eq k j then some v else lookup j m)
  unfolding lookup insert
  lookup-insert k j v [] = refl
  lookup-insert k j v ((i, w) ∷ m) =
      ground (arith, text_eq_iff k j, text_eq_iff i k, text_eq_iff i j, lookup-insert k j v m)

  pub lookup-delete :
      (k j : Text) (m : List (Text × V))
      → lookup j (delete k m) ≡ (if text_eq k j then none else lookup j m)
  unfolding lookup delete
  lookup-delete k j [] = ground arith
  lookup-delete k j ((i, w) ∷ m) =
      ground (arith, text_eq_iff k j, text_eq_iff i k, text_eq_iff i j, lookup-delete k j m)

  pub mem-insert :
      (k j : Text) (v : V) (m : List (Text × V))
      → mem j (keys (insert k v m)) ≡ (text_eq k j || mem j (keys m))
  unfolding mem insert
  mem-insert k j v [] = ground arith
  mem-insert k j v ((i, w) ∷ m) =
      ground (arith, mem-insert k j v m, text_eq_iff k j, text_eq_iff i k, text_eq_iff i j)

  pub mem-delete :
      (k j : Text) (m : List (Text × V))
      → mem j (keys (delete k m)) ≡ (not (text_eq k j) && mem j (keys m))
  unfolding mem delete
  mem-delete k j [] = ground arith
  mem-delete k j ((i, w) ∷ m) =
      ground (arith, mem-delete k j m, text_eq_iff k j, text_eq_iff i k, text_eq_iff i j)

  pub Distinct-insert :
      (k : Text) (v : V) (m : List (Text × V)) → Distinct (keys m) → Distinct (keys (insert k v m))
  unfolding mem insert
  Distinct-insert k v [] d = (refl, tt)
  Distinct-insert k v ((i, w) ∷ m) d =
      ground
        (arith, Distinct-insert k v m d.1, mem-insert k i v m, text_eq_iff i k, text_eq_iff k i)

  pub Distinct-delete :
      (k : Text) (m : List (Text × V)) → Distinct (keys m) → Distinct (keys (delete k m))
  unfolding delete
  Distinct-delete k [] d = tt
  Distinct-delete k ((i, w) ∷ m) d = ground (arith, Distinct-delete k m d.1, mem-delete k i m)

  pub length-insert :
      (k : Text) (v : V) (m : List (Text × V))
      → length (insert k v m) ≡ (if mem k (keys m) then length m else length m + 1)
  unfolding mem insert
  length-insert k v [] = omega arith
  length-insert k v ((i, w) ∷ m) = ground (arith, length-insert k v m)

  pub length-delete_le : (k : Text) (m : List (Text × V)) → length (delete k m) ≤ length m
  unfolding delete
  length-delete_le k [] = omega arith
  length-delete_le k ((i, w) ∷ m) = ground (arith, length-delete_le k m)

  pub length-delete_lt :
      (k : Text) (m : List (Text × V)) → mem k (keys m) ≡ true → length (delete k m) < length m
  unfolding mem delete
  length-delete_lt k [] h = ground arith
  length-delete_lt k ((i, w) ∷ m) h = ground (arith, length-delete_le k m, length-delete_lt k m)

  -- A key is in the map exactly if it is found there.
  pub lookup-none : (k : Text) (m : List (Text × V)) → mem k (keys m) ≡ false → lookup k m ≡ none
  unfolding mem lookup
  lookup-none k [] h = refl
  lookup-none k ((i, w) ∷ m) h = ground (arith, lookup-none k m)

  pub lookup-some :
      (k : Text) (m : List (Text × V)) {v : V} → lookup k m ≡ some v → mem k (keys m) ≡ true
  unfolding mem lookup
  lookup-some k [] h = ground arith
  lookup-some k ((i, w) ∷ m) {v = v} h = ground (arith, lookup-some k m {v = v})
