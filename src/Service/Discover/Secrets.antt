-- ===== src/Service/Discover/Secrets.antt =====
-- What the endpoints of pkg/serviceprobe/discover.go tell of the values of secret keys.
use mathlib.Core.List.{reverse}
use ctop.Prelude.{
  ◌≡◌, refl, sym, ap, ◌∙◌, Bool, true, false, ◌&&◌, ◌||◌, List, [], ◌∷◌, ◌++◌, Option,
  if◌then◌else◌, arith, ◌⊎◌, inl, inr, Bool-cases, ◌==◌,
}
use ctop.Prelude.Texts.{Text, codes, trim_space, has_prefix, cut}
use ctop.Prelude.Split.{has_byte, fields_func}
use ctop.Sanitize.{is_sensitive_key, key_of, any_in}
use ctop.Sanitize.Hiding.{SameButSecret, AllSameButSecret}
use ctop.Service.Discover.{
  NetPackage, Found, is_port_env, add_env, add_envs, add_ports, or_default, nothing_found, is_break,
  extract_first_container_ip, discover_endpoints,
}

-- An entry that starts with a key and `=` has that key.
key_of-has_prefix :
    (s k : Text) → has_byte b'=' k ≡ false → has_prefix s (k ++ b'=' ∷ []) ≡ true → key_of s ≡ k
unfolding has_prefix key_of cut has_byte
key_of-has_prefix [] [] n h = ground arith
key_of-has_prefix [] (d ∷ k) n h = ground arith
key_of-has_prefix (c ∷ s) [] n h = ground (arith, h)
key_of-has_prefix (c ∷ s) (d ∷ k) n h = ground (arith, n, h, key_of-has_prefix s k)

not_secret :
    (s k : Text)
    → has_byte b'=' k ≡ false
    → is_sensitive_key k ≡ false
    → is_sensitive_key (key_of s) ≡ true
    → has_prefix s (k ++ b'=' ∷ []) ≡ false
not_secret s k n c h = elim (Bool-cases (has_prefix s (k ++ b'=' ∷ []))) [
  | inl e ↦ ground (arith, key_of-has_prefix s k n e, c, h)
  | inr e ↦ e
]

abbrev IsPlainKey : Text → Type 0
IsPlainKey k = (has_byte b'=' k ≡ false) × (is_sensitive_key k ≡ false)

port-IsPlainKey :
    IsPlainKey (codes "PORT") × IsPlainKey (codes "HTTP_PORT") × IsPlainKey (codes "APP_PORT")
unfolding has_byte is_sensitive_key any_in ctop.Prelude.Texts.contains has_prefix
    ctop.Prelude.Texts.to_lower ctop.Prelude.Texts.lower_byte
port-IsPlainKey = ((refl, refl), (refl, refl), (refl, refl))

-- No variable that names a port is secret.
is_port_env-secret : (s : Text) → is_sensitive_key (key_of s) ≡ true → is_port_env s ≡ false
is_port_env-secret s h =
    let ((p, q), (p', q'), (p'', q'')) = port-IsPlainKey in
    let port = not_secret s (codes "PORT") p q h in
    let http = not_secret s (codes "HTTP_PORT") p' q' h in
    let app = not_secret s (codes "APP_PORT") p'' q'' h in ground (arith, port, http, app)

add_env-secret : (s : Text) (f : Found) → is_sensitive_key (key_of s) ≡ true → add_env s f ≡ f
unfolding add_env
add_env-secret s f h = rw (is_port_env-secret s h) refl

add_env-hides :
    (a b : Text) (f : Found)
    → SameButSecret a b
    → add_env (trim_space a) f ≡ add_env (trim_space b) f
add_env-hides a b f (inl e) = ap (λ s. add_env s f) e
add_env-hides a b f (inr (k, s, e)) =
    add_env-secret (trim_space a) f s
    ∙ sym (add_env-secret (trim_space b) f (ap is_sensitive_key (sym k) ∙ s))

add_envs-hides :
    (xs ys : List Text) (f : Found) → AllSameButSecret xs ys → add_envs xs f ≡ add_envs ys f
unfolding add_envs
add_envs-hides [] [] f h = refl
add_envs-hides [] (y ∷ ys) f h = elim h [ ]
add_envs-hides (x ∷ xs) [] f h = elim h [ ]
add_envs-hides (x ∷ xs) (y ∷ ys) f (h, hs) =
    rw (add_env-hides x y f h) (add_envs-hides xs ys (add_env (trim_space y) f) hs)

-- Two environments that differ in the values of secret keys alone give the same endpoints.
pub discover_endpoints-hides :
    (net : NetPackage) (ports nets : Text) (xs ys : List Text)
    → AllSameButSecret xs ys
    → discover_endpoints net ports nets xs ≡ discover_endpoints net ports nets ys
unfolding discover_endpoints
discover_endpoints-hides net ports nets xs ys h =
    let ip = extract_first_container_ip net nets in
    let start = add_ports ip (fields_func is_break ports) nothing_found in
    ap (λ f. or_default ip (reverse f.endpoints)) (add_envs-hides xs ys start h)
