-- ===== src/Sanitize/Hiding.antt =====
-- What the masks of pkg/sanitize/sanitize.go hide.
use ctop.Prelude.{
  ◌≡◌, refl, ap, ◌∙◌, true, false, List, [], ◌∷◌, Option, none, some, if◌then◌else◌, arith, ◌⊎◌,
  inl, inr, Bool-cases, All,
}
use ctop.Prelude.Texts.{Text, text_eq, trim_space, text_eq_iff}
use ctop.Prelude.Split.{trim_space_idem}
use ctop.Prelude.Assoc.{lookup}
use ctop.Sanitize.{
  is_sensitive_key, mask_value, key_of, sanitize_env, mask_env, mask_env_list, add_masked,
  mask_labels,
}

-- Two entries that are alike, or have the same secret key and any values.
abbrev pub SameButSecret : Text → Text → Type 0
SameButSecret a b =
    (trim_space a ≡ trim_space b)
    ⊎ ((key_of (trim_space a) ≡ key_of (trim_space b))
        × (is_sensitive_key (key_of (trim_space a)) ≡ true)
        × (text_eq (trim_space a) [] ≡ text_eq (trim_space b) []))

abbrev pub AllSameButSecret : List Text → List Text → Type 0
AllSameButSecret [] [] = Unit
AllSameButSecret (a ∷ xs) (b ∷ ys) = SameButSecret a b × AllSameButSecret xs ys
AllSameButSecret _ _ = ⊥

mask_env-SameButSecret : (a b : Text) → SameButSecret a b → mask_env a ≡ mask_env b
unfolding mask_env
mask_env-SameButSecret a b (inl e) = rw e refl
mask_env-SameButSecret a b (inr (k, s, e)) = ground (arith, k, s, e)

mask_env-trim : (a : Text) → mask_env (trim_space a) ≡ mask_env a
unfolding mask_env
mask_env-trim a = rw (trim_space_idem a) refl

-- What `MaskEnvList` gives out does not depend on the values of secret keys: two lists whose entries
-- differ in nothing else are masked to the same list.
pub mask_env_list-hides :
    (xs ys : List Text) → AllSameButSecret xs ys → mask_env_list xs ≡ mask_env_list ys
unfolding mask_env_list
mask_env_list-hides [] [] h = refl
mask_env_list-hides [] (b ∷ ys) h = elim h [ ]
mask_env_list-hides (a ∷ xs) [] h = elim h [ ]
mask_env_list-hides (a ∷ xs) (b ∷ ys) (h, hs) = ground (
  arith,
  h,
  mask_env-trim a,
  mask_env-trim b,
  mask_env-SameButSecret a b h,
  mask_env_list-hides xs ys hs,
)

abbrev pub IsClean : Text → Type 0
IsClean env = is_sensitive_key (key_of env) ≡ false

-- An entry that is trimmed, is not empty and has no secret key is masked to itself.
mask_env-IsClean :
    (env : Text) → trim_space env ≡ env → text_eq env [] ≡ false → IsClean env → mask_env env ≡ env
unfolding mask_env
mask_env-IsClean env t n c = rw (t, n, c) refl

add_masked-IsClean :
    (env : Text) (rest : List Text)
    → trim_space env ≡ env
    → text_eq env [] ≡ false
    → IsClean env
    → add_masked (trim_space env) rest ≡ env ∷ rest
add_masked-IsClean env rest t n c = rw (t, n, mask_env-IsClean env t n c) refl

-- `SanitizeEnv` leaves no entry of a secret key, and what it leaves is masked to itself.
pub sanitize_env-IsClean :
    (envs : List Text)
    → All IsClean (sanitize_env envs) × (mask_env_list (sanitize_env envs) ≡ sanitize_env envs)
unfolding sanitize_env mask_env_list
sanitize_env-IsClean [] = (tt, refl)
sanitize_env-IsClean (env ∷ envs) =
    let (clean, same) = sanitize_env-IsClean envs in
    elim (Bool-cases (text_eq (trim_space env) [])) [
      | inl e ↦ rw e (clean, same)
      | inr e ↦ elim (Bool-cases (is_sensitive_key (key_of (trim_space env)))) [
        | inl k ↦ rw (e, k) (clean, same)
        | inr k ↦
            rw (e, k)
              (
                (k, clean),
                add_masked-IsClean (trim_space env) (mask_env_list (sanitize_env envs))
                      (trim_space_idem env) e k
                    ∙ ap (◌∷◌ (trim_space env)) same,
              )
      ]
    ]

abbrev pub masked_option : Option Text → Option Text
masked_option none = none
masked_option (some v) = some mask_value

-- `MaskLabels` keeps every key; a secret one has the mask and every other one the value that it had.
pub lookup-mask_labels :
    (k : Text) (labels : List (Text × Text))
    → lookup k (mask_labels labels)
      ≡ (if is_sensitive_key k then masked_option (lookup k labels) else lookup k labels)
unfolding lookup mask_labels
lookup-mask_labels k [] = ground arith
lookup-mask_labels k ((j, v) ∷ labels) =
    ground (arith, lookup-mask_labels k labels, text_eq_iff j k)
