-- ===== src/Web/Tests/Gating.antt =====
-- The gate and the login routes on concrete requests.
use ctop.Prelude.{
  ℕ, ◌≡◌, ◌≢◌, refl, Bool, true, false, not, ◌&&◌, ◌||◌, List, [], ◌∷◌, ◌++◌, Option, none, some,
  if◌then◌else◌, arith, length, ◌≤◌, inl, inr, ◌⊎◌,
}
use ctop.Prelude.Int.{pos}
use ctop.Prelude.Texts.{Text, codes, contains, text_eq, cut, has_prefix}
use ctop.Prelude.Assoc.{lookup}
use ctop.Web.Request.{Net, Request, is_direct_local_access, is_tls_or_secure_proxy, get_client_ip}
use ctop.Web.Sessions.{new_session_store, create_session, validate_session, is_session_valid}
use ctop.Web.RateLimit.{LoginRateLimiter, new_login_rate_limiter, allow, within}
use ctop.Web.RateLimit.Window.{failed, run, failures_since_success}
use ctop.Web.Gate.{
  Server, Outcome, serve, refuse, AuthInfo, cors_middleware, anonymous, bearer_info, session_info,
  authorization, is_auth_action, is_auth_status, is_read, is_options, traverses, bearer_prefix,
}
use ctop.Web.Gate.Access.{
  Credential, IsAuthPath, cors_middleware-Credential, cors_middleware-read_only,
}
use ctop.Web.Login.{
  Cookie, plain, handle_auth_login, handle_auth_logout, handle_auth_status, is_post,
  is_secure_request, bearer_matches,
}
use ctop.Web.Login.Rules.{
  serves, has_session, handle_auth_login-cookie, handle_auth_login-locked_out,
  handle_auth_login-served, handle_auth_logout-refused, handle_auth_status-cors_middleware,
}
use ctop.Web.Tests.{two_sessions}

-- Host and port parted at a colon; the loopback network is 127.0.0.0/8.
abbrev net : Net
net = record {
  split_host_port = λ s. some (cut b':' s).0;
  is_loopback_ip = λ s. has_prefix s (codes "127.");
}

abbrev server : Server
server = record {
  url_prefix = [];
  auth_token = codes "secret";
  session_store = two_sessions;
  rate_limiter = new_login_rate_limiter (pos 1) (pos 60);
}

abbrev no_headers : Text → Text
no_headers name = []

abbrev with_bearer : Text → Text → Text
with_bearer token name = if text_eq name authorization then bearer_prefix ++ token else []

-- A request over TLS from elsewhere.
abbrev remote : Text → Text → (Text → Text) → Option Text → Request
remote method path header cookie = record {
  method = method;
  path = path;
  raw_path = [];
  header = header;
  tls = true;
  remote_addr = codes "10.0.0.7:4000";
  cookie = cookie;
  query_token = [];
  query_auth = [];
}

abbrev get_metrics : (Text → Text) → Option Text → Request
get_metrics = remote (codes "GET") (codes "/api/v1/metrics")

abbrev post_login : Request
post_login = remote (codes "POST") (codes "/api/v1/auth/login") no_headers none

cors_middleware-Credential_example :
    ((is_direct_local_access net (get_metrics no_headers (some (codes "a"))) ≡ true)
      ⊎ (is_tls_or_secure_proxy net (get_metrics no_headers (some (codes "a"))) ≡ true))
    × Credential net 30 server
        (get_metrics no_headers (some (codes "a")))
        (session_info (codes "a"))
unfolding cors_middleware is_options text_eq traverses ctop.Prelude.Texts.contains is_auth_action
    is_read is_direct_local_access cut is_tls_or_secure_proxy is_auth_status validate_session lookup
    create_session ctop.Prelude.Assoc.insert new_session_store
cors_middleware-Credential_example =
    cors_middleware-Credential net 30 server (get_metrics no_headers (some (codes "a")))
      (λ e. ground (arith, e)) refl

cors_middleware-read_only_example :
    let r = get_metrics no_headers (some (codes "a")) in
    (contains r.path (codes "..") ≡ false)
    × (contains r.raw_path (codes "..") ≡ false)
    × (contains r.path (b'\\' ∷ []) ≡ false)
    × ((r.method ≡ codes "GET")
        ⊎ (r.method ≡ codes "HEAD")
        ⊎ ((r.method ≢ codes "OPTIONS")
            × (p : Text) × IsAuthPath p
            × ((r.path ≡ p) ⊎ (r.path ≡ server.url_prefix ++ p))))
unfolding cors_middleware is_options text_eq traverses ctop.Prelude.Texts.contains is_auth_action
    is_read is_direct_local_access cut is_tls_or_secure_proxy is_auth_status validate_session lookup
    create_session ctop.Prelude.Assoc.insert new_session_store
cors_middleware-read_only_example =
    cors_middleware-read_only net 30 server (get_metrics no_headers (some (codes "a")))
      {info = session_info (codes "a")} refl

abbrev issued : Cookie
issued = record { value = codes "c"; is_secure = true; expires_now = false }

handle_auth_login-cookie_example :
    (is_post post_login ≡ true)
    × ((allow (get_client_ip net post_login) 30 server.rate_limiter).1 ≡ true)
    × ((server.auth_token ≡ []) ⊎ (some (codes "secret") ≡ some server.auth_token))
    × (some (codes "c") ≡ some (codes "c"))
    × (true ≡ is_secure_request post_login)
    × ((handle_auth_login net 30 server post_login
          (some (codes "secret"))
          (some (codes "c"))).0.session_store
        ≡ (create_session (some (codes "c")) 30 two_sessions).0)
    × ((handle_auth_login net 30 server post_login
          (some (codes "secret"))
          (some (codes "c"))).1.status
        ≡ 200)
unfolding handle_auth_login is_post text_eq allow lookup new_login_rate_limiter
    ctop.Web.Gate.secure_compare create_session
handle_auth_login-cookie_example =
    handle_auth_login-cookie net 30 server post_login (some (codes "secret")) (some (codes "c"))
      {cookie = issued} refl

handle_auth_logout-refused_example :
    let (s', response) =
      handle_auth_logout server
        (remote (codes "POST") (codes "/api/v1/auth/logout") no_headers (some (codes "a"))) in
    (is_session_valid (codes "a") 40 s'.session_store ≡ false)
    × ((validate_session (codes "a") 40 s'.session_store).1 ≡ false)
    × (response.set_cookie ≡ some (record { value = []; is_secure = true; expires_now = true }))
unfolding is_post text_eq
handle_auth_logout-refused_example =
    handle_auth_logout-refused server
      (remote (codes "POST") (codes "/api/v1/auth/logout") no_headers (some (codes "a")))
      (codes "a") 40 refl refl

handle_auth_status-cors_middleware_example :
    let r = get_metrics (with_bearer (codes "wrong")) (some (codes "a")) in
    let wrong =
      has_prefix (r.header authorization) bearer_prefix && not (bearer_matches server r) in
    let served = serves (cors_middleware net 30 server r).1 in
    ((handle_auth_status net 30 server r).1.authenticated
      ≡ (served || (wrong && has_session 30 server r.cookie)))
    × ((wrong && not (is_direct_local_access net r) && served) ≡ false)
unfolding is_read text_eq is_options traverses ctop.Prelude.Texts.contains is_direct_local_access
    cut is_tls_or_secure_proxy is_auth_action is_auth_status ctop.Web.Gate.is_root_index
handle_auth_status-cors_middleware_example =
    handle_auth_status-cors_middleware net 30 server
      (get_metrics (with_bearer (codes "wrong")) (some (codes "a"))) (λ e. ground (arith, e)) refl
      refl refl (inr refl) refl

-- One failure is all that this server allows.
abbrev locked : Server
locked = record server {
  rate_limiter = run server.rate_limiter (failed (codes "10.0.0.7") 20 ∷ []);
}

handle_auth_login-locked_out_example :
    ((handle_auth_login net 30 locked post_login (some (codes "secret")) (some (codes "c"))).1
      ≡ plain 429)
    × ((handle_auth_login net 30 locked post_login
          (some (codes "secret"))
          (some (codes "c"))).0.session_store
        ≡ two_sessions)
unfolding new_login_rate_limiter failures_since_success text_eq get_client_ip
    ctop.Prelude.Texts.trim_space cut is_post
handle_auth_login-locked_out_example =
    handle_auth_login-locked_out net 30 locked post_login (some (codes "secret")) (some (codes "c"))
      (pos 1) (pos 60) (failed (codes "10.0.0.7") 20 ∷ []) (omega arith) refl (omega arith) refl

abbrev logged_in : Server
logged_in =
    (handle_auth_login net 30 server post_login (some (codes "secret")) (some (codes "c"))).0

handle_auth_login-served_example :
    (cors_middleware net 60 logged_in (get_metrics no_headers (some (codes "c")))).1
    ≡ serve (session_info (codes "c"))
unfolding is_read text_eq is_options traverses ctop.Prelude.Texts.contains is_direct_local_access
    cut is_tls_or_secure_proxy is_auth_action is_auth_status ctop.Web.Gate.is_root_index
    ctop.Web.Gate.secure_compare ctop.Prelude.Texts.trim_prefix validate_session lookup
    create_session new_session_store ctop.Prelude.Assoc.insert has_prefix handle_auth_login
    new_login_rate_limiter is_post ctop.Web.Request.get_client_ip ctop.Web.RateLimit.allow
    ctop.Web.RateLimit.record_success
handle_auth_login-served_example =
    handle_auth_login-served net 30 60 server post_login (get_metrics no_headers (some (codes "c")))
      (some (codes "secret")) (codes "c") {cookie = issued} refl (λ e. ground (arith, e))
      (λ e. ground (arith, e)) refl refl refl refl refl refl refl refl refl
