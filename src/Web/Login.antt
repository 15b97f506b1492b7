-- ===== src/Web/Login.antt =====
-- `handleAuthLogin`, `handleAuthLogout` and `handleAuthStatus` of pkg/web/server.go. A response is its
-- status, the cookie that it sets, and for the status route the answer; the audit events, and the
-- headers and texts that the status determines, are left out. The decoded request body is an argument,
-- `none` where it is no JSON of the right shape; so is what the random source gives.
pub mod Rules
use ctop.Prelude.{
  ℕ, ◌/◌, Bool, true, false, not, ◌&&◌, ◌||◌, List, [], ◌∷◌, ◌++◌, Option, none, some,
  if◌then◌else◌,
}
use ctop.Prelude.Int.{ℤ}
use ctop.Prelude.Texts.{Text, codes, text_eq, has_prefix, trim_prefix}
use ctop.Web.Request.{Net, Request, header_is, get_client_ip, is_direct_local_access}
use ctop.Web.Sessions.{SessionStore, create_session, validate_session, revoke_session}
use ctop.Web.RateLimit.{LoginRateLimiter, allow, record_failure, record_success}
use ctop.Web.Gate.{Server, secure_compare, authorization, bearer_prefix}

-- The `ctop_session` cookie: its value, its `Secure` attribute, and whether it is to be dropped at
-- once or kept for a day.
pub record Cookie : Type 0 where
  pub value : Text
  pub is_secure : Bool
  pub expires_now : Bool

pub record Response : Type 0 where
  pub status : ℕ
  pub set_cookie : Option Cookie

abbrev pub plain : ℕ → Response
plain status = record { status = status; set_cookie = none }

abbrev pub is_secure_request : Request → Bool
is_secure_request r = r.tls || header_is r (codes "X-Forwarded-Proto") (codes "https")

unfoldable pub is_post : Request → Bool
is_post r = text_eq r.method (codes "POST")

abbrev issue : Request → SessionStore × Option Text → SessionStore × Response
issue r (store, none) = (store, plain 500)
issue r (store, some id) = (
  store,
  record {
    status = 200;
    set_cookie = some (record { value = id; is_secure = is_secure_request r; expires_now = false });
  },
)

-- The token is right, or none is configured.
log_in : ℕ → Server → Request → Text → Option Text → Server × Response
log_in now s r ip fresh =
    let (store, response) = issue r (create_session fresh now s.session_store) in
    (record s { rate_limiter = record_success ip s.rate_limiter; session_store = store }, response)

check_token : ℕ → Server → Request → Text → Option Text → Option Text → Server × Response
unfolding log_in
check_token now s r ip none fresh = (s, plain 400)
check_token now s r ip (some token) fresh =
    if not (text_eq s.auth_token []) && not (secure_compare token s.auth_token)
    then (record s { rate_limiter = record_failure ip now s.rate_limiter }, plain 401)
    else log_in now s r ip fresh

unfoldable pub handle_auth_login :
    Net → ℕ → Server → Request → Option Text → Option Text → Server × Response
unfolding check_token
handle_auth_login net now s r body fresh =
    let ip = get_client_ip net r in
    let (limiter, allowed) = allow ip now s.rate_limiter in
    let s' = record s { rate_limiter = limiter } in
    if not (is_post r)
    then (s, plain 405)
    else if not allowed
    then (s', plain 429)
    else check_token now s' r ip body fresh

abbrev revoke_cookie : Option Text → SessionStore → SessionStore
revoke_cookie none store = store
revoke_cookie (some id) store = revoke_session id store

unfoldable pub handle_auth_logout : Server → Request → Server × Response
handle_auth_logout s r = if not (is_post r) then (s, plain 405) else (
  record s { session_store = revoke_cookie r.cookie s.session_store },
  record {
    status = 200;
    set_cookie = some (record { value = []; is_secure = is_secure_request r; expires_now = true });
  },
)

-- `AuthStatusResponse`; the timeout is the idle timeout, which the answer gives in seconds.
pub record AuthStatus : Type 0 where
  pub authenticated : Bool
  pub auth_enabled : Bool
  pub direct_local : Bool
  pub session_timeout : ℤ

status_by_cookie : ℕ → Server → Option Text → SessionStore × Bool
status_by_cookie now s none = (s.session_store, false)
status_by_cookie now s (some id) = validate_session id now s.session_store

unfoldable pub bearer_matches : Server → Request → Bool
bearer_matches s r =
    has_prefix (r.header authorization) bearer_prefix
    && secure_compare (trim_prefix (r.header authorization) bearer_prefix) s.auth_token

unfoldable pub handle_auth_status : Net → ℕ → Server → Request → SessionStore × AuthStatus
unfolding status_by_cookie bearer_matches
handle_auth_status net now s r =
    let answer = λ (a e d : Bool).
      let t : AuthStatus = record {
        authenticated = a;
        auth_enabled = e;
        direct_local = d;
        session_timeout = s.session_store.idle_ttl;
      } in
      t in
    let (store, valid) = status_by_cookie now s r.cookie in
    if text_eq s.auth_token []
    then (s.session_store, answer true false (is_direct_local_access net r))
    else if is_direct_local_access net r
    then (s.session_store, answer true true true)
    else if bearer_matches s r
    then (s.session_store, answer true true false)
    else (store, answer valid true false)
