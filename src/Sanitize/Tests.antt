-- ===== src/Sanitize/Tests.antt =====
-- The masks on concrete entries.
use ctop.Prelude.{◌≡◌, refl, List, [], ◌∷◌, All}
use ctop.Prelude.Texts.{Text, codes}
use ctop.Sanitize.{sanitize_env, mask_env_list}
use ctop.Sanitize.Hiding.{IsClean, sanitize_env-IsClean}

abbrev envs : List Text
envs = codes "PATH=/bin" ∷ codes " DB_PASSWORD=x" ∷ []

sanitize_env-IsClean_example :
    All IsClean (sanitize_env envs) × (mask_env_list (sanitize_env envs) ≡ sanitize_env envs)
sanitize_env-IsClean_example = sanitize_env-IsClean envs

sanitized : sanitize_env envs ≡ codes "PATH=/bin" ∷ []
unfolding sanitize_env ctop.Prelude.Texts.text_eq ctop.Prelude.Texts.trim_space
    ctop.Prelude.Texts.contains ctop.Prelude.Texts.to_lower ctop.Prelude.Texts.cut
sanitized = refl
