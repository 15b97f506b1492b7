-- ===== src/Web/Setup/Tokens.antt =====
-- The tokens of the server of pkg/web/server.go, and their files.
use ctop.Prelude.{
  ℕ, zero, suc, all, ◌%◌, ◌<◌, ◌≡◌, refl, ap, ◌∙◌, Bool, true, false, not, List, [], ◌∷◌, ◌++◌,
  some, arith, Bool-cases, inl, inr, ltb, length, get_elem?, All,
}
use ctop.Prelude.Texts.{Text, trim_space, is_space, text_eq_self}
use ctop.Prelude.Split.{trim_space_idem, trim_space-space, trim_space-solid}
use ctop.Prelude.Assoc.{lookup, insert, delete, lookup-insert}
use ctop.Web.Gate.{Server}
use ctop.Web.Setup.{
  min_auth_token_length, base62_chars, encode_bytes, generate_auth_token, enable_auth,
  enable_auth_with_token, Paths, Disk, target_path, write_secure_token_file, read_secure_token_file,
  token_in,
}

-- A list of bytes none of which is white space.
abbrev IsSolid : Text → Type 0
IsSolid s = All (λ c. is_space c ≡ false) s

-- The element, where there is one, passes a test that all pass.
get_elem?-some :
    (p : ℕ → Bool) (xs : Text) (i : ℕ)
    → all p xs ≡ true
    → i < length xs
    → (c : ℕ) × (get_elem? xs i ≡ some c) × (p c ≡ true)
get_elem?-some p [] i a h = ground (arith, h)
get_elem?-some p (x ∷ xs) zero a h = (x, refl, ground (arith, a))
get_elem?-some p (x ∷ xs) (suc i) a h = get_elem?-some p xs i (ground (arith, a)) (omega (arith, h))

base62_char :
    (b : ℕ) → (c : ℕ) × (get_elem? base62_chars (b % 62) ≡ some c) × (not (is_space c) ≡ true)
base62_char b = get_elem?-some (λ c. not (is_space c)) base62_chars (b % 62) refl (omega arith)

encode_bytes-some :
    (bs : List ℕ) → (t : Text) × (encode_bytes bs ≡ some t) × (length t ≡ length bs) × IsSolid t
unfolding encode_bytes
encode_bytes-some [] = ([], refl, refl, tt)
encode_bytes-some (b ∷ bs) =
    let (t, e, n, s) = encode_bytes-some bs in
    let (c, k, p) = base62_char b in (c ∷ t, rw (k, e) refl, ap suc n, (ground (arith, p), s))

lookup-written :
    (path content : Text) (files : List (Text × Text))
    → lookup path (insert path content files) ≡ some content
lookup-written path content files =
    rw (lookup-insert path path content files, text_eq_self path) refl

token_in-written :
    (token : Text)
    → ltb (length (trim_space token)) min_auth_token_length ≡ false
    → token_in (some (trim_space token ++ 10 ∷ [])) ≡ some (trim_space token)
token_in-written token h =
    let trimmed = trim_space-space (trim_space token) 10 refl ∙ trim_space_idem token in
    rw (trimmed, h) refl

-- What `WriteSecureTokenFile` has written to a path, which `Clean` leaves as it is, `ReadSecureTokenFile`
-- reads back without the white space around it, if that has the length of a token, and
-- `EnableAuthWithToken` takes it.
pub read_secure_token_file-write :
    (paths : Paths) (file_path token path : Text) (disk : Disk) (s : Server)
    → paths.clean (target_path paths file_path) ≡ target_path paths file_path
    → (write_secure_token_file paths file_path token disk).1 ≡ some path
    → ltb (length (trim_space token)) min_auth_token_length ≡ false
    → (read_secure_token_file paths file_path (write_secure_token_file paths file_path token disk).0
        ≡ some (trim_space token))
      × (enable_auth_with_token (trim_space token) s
          ≡ some (record s { auth_token = trim_space token }))
unfolding write_secure_token_file read_secure_token_file enable_auth_with_token
read_secure_token_file-write paths file_path token path disk s c w n =
    let target = target_path paths file_path in
    let written = lookup-written target (trim_space token ++ 10 ∷ []) (delete target disk.files) in
    elim (Bool-cases (disk.can_make_dir (paths.dir target))) [
      | inr e ↦ ground (arith, w, e)
      | inl e ↦ elim (Bool-cases (disk.can_write target)) [
        | inr k ↦ ground (arith, w, e, k)
        | inl k ↦ rw (e, k, c, written, trim_space_idem token, n) (token_in-written token n, refl)
      ]
    ]

-- From 64 bytes of the random source `EnableAuth` makes a token without a panic, of 64 characters, that
-- the server then has, that trimming leaves as it is, and that `EnableAuthWithToken` takes again.
pub enable_auth-token :
    (bytes : List ℕ) (s : Server)
    → length bytes ≡ 64
    → (t : Text) × (enable_auth (some bytes) s ≡ (record s { auth_token = t }, some t))
      × (length t ≡ 64)
      × (trim_space t ≡ t)
      × (enable_auth_with_token t s ≡ some (record s { auth_token = t }))
unfolding enable_auth generate_auth_token enable_auth_with_token
enable_auth-token bytes s h =
    let (t, e, n, solid) = encode_bytes-some bytes in
    let same = trim_space-solid t solid in
    let long : ltb (length t) min_auth_token_length ≡ false = ground (arith, n, h) in
    (t, rw e refl, n ∙ h, same, rw (same, long) refl)
