-- ===== src/Sanitize.antt =====
-- pkg/sanitize/sanitize.go: which keys are secret, and the masks. The key pattern is an alternation of
-- plain words, tested without case on ASCII text. The patterns on commands are a parameter, as package
-- regexp is, and so is `StripANSI`.
pub mod Hiding
mod Tests
use ctop.Prelude.{
  ℕ, zero, suc, Bool, true, false, not, ◌||◌, List, [], ◌∷◌, ◌++◌, Option, none, some,
  if◌then◌else◌,
}
use ctop.Prelude.Texts.{Text, codes, text_eq, to_lower, trim_space, contains, cut}

abbrev pub sensitive_words : List Text
sensitive_words =
    codes "passw"
    ∷ codes "secret"
    ∷ codes "token"
    ∷ codes "cred"
    ∷ codes "private"
    ∷ codes "database_url"
    ∷ codes "db_url"
    ∷ codes "dsn"
    ∷ codes "signature"
    ∷ codes "bearer"
    ∷ codes "aws_"
    ∷ codes "access_key"
    ∷ codes "session_token"
    ∷ codes "cookie"
    ∷ codes "salt"
    ∷ codes "hmac"
    ∷ codes "webhook"
    ∷ codes "private_key"
    ∷ codes "api_key"
    ∷ codes "apikey"
    ∷ codes "auth_header"
    ∷ codes "basic_auth"
    ∷ codes "_key"
    ∷ codes "key_"
    ∷ codes "cert"
    ∷ []

unfoldable pub any_in : Text → List Text → Bool
any_in key [] = false
any_in key (w ∷ ws) = contains key w || any_in key ws

unfoldable pub is_sensitive_key : Text → Bool
unfolding any_in
is_sensitive_key key = any_in (to_lower key) sensitive_words

-- Twelve bullets, in UTF-8, and a word.
abbrev bullets : ℕ → Text
bullets zero = codes " [masked]"
bullets (suc n) = 226 ∷ 128 ∷ 162 ∷ bullets n

abbrev pub mask_value : Text
mask_value = bullets 12

unfoldable pub mask_secret : Text → Text
mask_secret [] = []
mask_secret (c ∷ cs) = mask_value

-- The key of an entry, all of it where there is no `=`.
unfoldable pub key_of : Text → Text
key_of env = (cut b'=' env).0

abbrev keep_clean : Text → List Text → List Text
keep_clean env rest = if text_eq env [] || is_sensitive_key (key_of env) then rest else env ∷ rest

unfoldable pub sanitize_env : List Text → List Text
unfolding is_sensitive_key key_of
sanitize_env [] = []
sanitize_env (env ∷ envs) = keep_clean (trim_space env) (sanitize_env envs)

abbrev masked : Text → Text
masked env = if is_sensitive_key (key_of env) then key_of env ++ b'=' ∷ mask_value else env

unfoldable pub mask_env : Text → Text
unfolding is_sensitive_key key_of
mask_env env = if text_eq (trim_space env) [] then [] else masked (trim_space env)

abbrev add_masked : Text → List Text → List Text
add_masked env rest = if text_eq env [] then rest else mask_env env ∷ rest

unfoldable pub mask_env_list : List Text → List Text
unfolding mask_env
mask_env_list [] = []
mask_env_list (env ∷ envs) = add_masked (trim_space env) (mask_env_list envs)

unfoldable pub mask_labels : List (Text × Text) → List (Text × Text)
unfolding is_sensitive_key
mask_labels [] = []
mask_labels ((k, v) ∷ labels) =
    (k, if is_sensitive_key k then mask_value else v) ∷ mask_labels labels

-- A compiled pattern: `ReplaceAllStringFunc`, and `FindStringSubmatch`.
pub record Pattern : Type 0 where
  pub replace_all : (Text → Text) → Text → Text
  pub submatch : Text → List Text

-- The three patterns of the file.
pub record CommandPatterns : Type 0 where
  pub run_flag : Pattern
  pub compose_item : Pattern
  pub compose_entry : Pattern

abbrev mask_run_flag : Text → List Text → Text
mask_run_flag m (_ ∷ flag ∷ key ∷ _ ∷ quote ∷ []) =
    if is_sensitive_key key then flag ++ key ++ b'=' ∷ mask_value ++ quote else m
mask_run_flag m _ = m

abbrev mask_item : Text → Text → List Text → Text
mask_item sep m (_ ∷ indent ∷ key ∷ _ ∷ []) =
    if is_sensitive_key key then indent ++ key ++ sep ++ mask_value else m
mask_item sep m _ = m

unfoldable pub sanitize_command_string : CommandPatterns → Text → Text
unfolding is_sensitive_key
sanitize_command_string p [] = []
sanitize_command_string p (c ∷ cs) =
    let flags = p.run_flag.replace_all (λ m. mask_run_flag m (p.run_flag.submatch m)) (c ∷ cs) in
    let items =
      p.compose_item.replace_all (λ m. mask_item (codes "=") m (p.compose_item.submatch m)) flags in
    p.compose_entry.replace_all (λ m. mask_item (codes ": ") m (p.compose_entry.submatch m)) items
