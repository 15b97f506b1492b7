-- ===== src/Web/Setup.antt =====
-- How the server of pkg/web/server.go is set up: its address, prefix and token. The file system is the
-- files with their contents and which directories and files it lets be made; the paths' functions and the
-- standard directories are parameters.
pub mod Tokens
pub mod Addresses
use ctop.Prelude.{
  ℕ, ◌%◌, Bool, true, false, not, ◌||◌, List, [], ◌∷◌, ◌++◌, Option, none, some, if◌then◌else◌, ltb,
  length, get_elem?,
}
use ctop.Prelude.Texts.{Text, codes, text_eq, trim_space, has_prefix, contains}
use ctop.Prelude.Split.{trim_right_byte}
use ctop.Prelude.Assoc.{lookup, insert, delete}
use ctop.Web.Gate.{Server}

abbrev pub min_auth_token_length : ℕ
min_auth_token_length = 64

abbrev pub base62_chars : Text
base62_chars = codes "0123456789ABCDEFGHIJKLMNOPQRSTUVWXYZabcdefghijklmnopqrstuvwxyz"

abbrev put_char : Option ℕ → Option Text → Option Text
put_char (some c) (some cs) = some (c ∷ cs)
put_char _ _ = none

-- An index out of range is a panic, `none`.
unfoldable pub encode_bytes : List ℕ → Option Text
encode_bytes [] = some []
encode_bytes (b ∷ bs) = put_char (get_elem? base62_chars (b % 62)) (encode_bytes bs)

-- The argument is what the random source gives, none for an error; so is then the token.
unfoldable pub generate_auth_token : Option (List ℕ) → Option Text
unfolding encode_bytes
generate_auth_token none = none
generate_auth_token (some bytes) = encode_bytes bytes

abbrev with_token : Option Text → Server → Server
with_token none s = s
with_token (some t) s = record s { auth_token = t }

unfoldable pub enable_auth : Option (List ℕ) → Server → Server × Option Text
enable_auth random s = (with_token (generate_auth_token random) s, generate_auth_token random)

-- None where the token is too short.
unfoldable pub enable_auth_with_token : Text → Server → Option Server
enable_auth_with_token token s =
    if ltb (length (trim_space token)) min_auth_token_length
    then none
    else some (record s { auth_token = trim_space token })

pub record Paths : Type 0 where
  pub dir : Text → Text
  pub clean : Text → Text
  -- `filepath.Join` of the directory and ".config/ctop/token", "ctop/token" or "ctop-token".
  pub join : Text → Text → Text
  pub user_config_dir : Option Text
  pub user_home_dir : Option Text
  pub temp_dir : Text

pub record Disk : Type 0 where
  pub files : List (Text × Text)
  pub can_make_dir : Text → Bool
  pub can_write : Text → Bool

abbrev home_path : Paths → Option Text → Text
home_path paths (some (c ∷ cs)) = paths.join (c ∷ cs) (codes ".config/ctop/token")
home_path paths _ = paths.join paths.temp_dir (codes "ctop-token")

abbrev config_path : Paths → Option Text → Text
config_path paths (some (c ∷ cs)) = paths.join (c ∷ cs) (codes "ctop/token")
config_path paths _ = home_path paths paths.user_home_dir

unfoldable pub default_auth_token_path : Paths → Text
default_auth_token_path paths = config_path paths paths.user_config_dir

unfoldable pub target_path : Paths → Text → Text
target_path paths [] = default_auth_token_path paths
target_path paths (c ∷ cs) = c ∷ cs

unfoldable pub write_secure_token_file : Paths → Text → Text → Disk → Disk × Option Text
write_secure_token_file paths file_path token disk =
    let path = target_path paths file_path in
    let removed = record disk { files = delete path disk.files } in
    if not (disk.can_make_dir (paths.dir path))
    then (disk, none)
    else if not (disk.can_write path)
    then (removed, none)
    else (
      record removed { files = insert path (trim_space token ++ 10 ∷ []) removed.files },
      some path,
    )

abbrev long_enough : Text → Option Text
long_enough token = if ltb (length token) min_auth_token_length then none else some token

abbrev token_in : Option Text → Option Text
token_in none = none
token_in (some content) = long_enough (trim_space content)

unfoldable pub read_secure_token_file : Paths → Text → Disk → Option Text
read_secure_token_file paths file_path disk =
    token_in (lookup (paths.clean (target_path paths file_path)) disk.files)

abbrev pub rooted : Text → Text
rooted p = if has_prefix p (codes "/") then p else b'/' ∷ p

unfoldable pub clean_url_prefix : Text → Text
clean_url_prefix prefix =
    let p = trim_space prefix in
    if text_eq p [] || text_eq p (codes "/") then [] else trim_right_byte b'/' (rooted p)

-- The address that `NewServer` listens at.
unfoldable pub server_addr : Text → Text
server_addr addr =
    let a = trim_space addr in
    if text_eq a []
    then codes "127.0.0.1:9090"
    else if not (contains a (codes ":"))
    then codes "127.0.0.1:" ++ a
    else if has_prefix a (codes ":")
    then codes "127.0.0.1" ++ a
    else a
